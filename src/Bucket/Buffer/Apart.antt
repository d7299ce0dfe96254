-- ===== src/Bucket/Buffer/Apart.antt =====
-- The buckets of a buffer get ready apart from each other.
use megatron_lm.Prelude.{
  ℕ, zero, suc, Bool, true, false, if◌then◌else◌, ◌==◌, Option, none, some, List, [], ◌∷◌,
  get_elem?, Result, ok, raise, index_error, ◌>>=◌, ◌>>◌, assert, >>=-eq-ok, ◌≡◌, ◌≢◌, refl, ap,
  ◌∙◌, sym, subst, ok_inj, Bool-cases, inl, inr, ==→eq, ==→ne, eq→==, ne→==,
}
use megatron_lm.Bucket.{Bucket, index, register_grad_ready}
use megatron_lm.Bucket.Sync.{register_all}
use megatron_lm.Bucket.Buffer.{GradBuffer, bucket_of, put_at, register_in, register, register_each}

get-put_at :
    {X : Type 0} (i : ℕ) (x y : X) (ys : List X)
    → get_elem? ys i ≡ some y
    → get_elem? (put_at i x ys) i ≡ some x
unfolding put_at
get-put_at i x y [] h = cc
get-put_at zero x y (z ∷ ys) h = refl
get-put_at (suc i) x y (z ∷ ys) h = get-put_at i x y ys h

get-put_at_other :
    {X : Type 0} (i j : ℕ) (x : X) (ys : List X)
    → i ≢ j
    → get_elem? (put_at i x ys) j ≡ get_elem? ys j
unfolding put_at
get-put_at_other i j x [] h = refl
get-put_at_other zero zero x (z ∷ ys) h = absurd (h refl)
get-put_at_other zero (suc j) x (z ∷ ys) h = refl
get-put_at_other (suc i) zero x (z ∷ ys) h = refl
get-put_at_other (suc i) (suc j) x (z ∷ ys) h = get-put_at_other i j x ys (λ e. h (ap suc e))

-- The parameters of the bucket at `i` among `ps`, in order.
is_at : ℕ → Option ℕ → Bool
is_at i none = false
is_at i (some j) = j == i

unfoldable pub only_in : List (ℕ × ℕ) → ℕ → List ℕ → List ℕ
unfolding bucket_of is_at
only_in m i [] = []
only_in m i (p ∷ ps) =
    let rest = only_in m i ps in if is_at i (bucket_of m p) then p ∷ rest else rest

only_in-own :
    (m : List (ℕ × ℕ)) (i p : ℕ) (ps : List ℕ)
    → bucket_of m p ≡ some i
    → only_in m i (p ∷ ps) ≡ p ∷ only_in m i ps
unfolding only_in is_at
only_in-own m i p ps h =
    ap (λ b. if b then p ∷ only_in m i ps else only_in m i ps) (ap (is_at i) h ∙ eq→== i i refl)

only_in-other :
    (m : List (ℕ × ℕ)) (i j p : ℕ) (ps : List ℕ)
    → bucket_of m p ≡ some i
    → i ≢ j
    → only_in m j (p ∷ ps) ≡ only_in m j ps
unfolding only_in is_at
only_in-other m i j p ps h other =
    ap (λ b. if b then p ∷ only_in m j ps else only_in m j ps) (ap (is_at j) h ∙ ne→== i j other)

index-at : {X : Type 0} (xs : List X) (i : ℕ) {x : X} → get_elem? xs i ≡ some x → index xs i ≡ ok x
index-at xs i h = ap (λ o. elim o [ none ↦ raise index_error | some x ↦ ok x ]) h

pub some_inj : {X : Type 0} {x y : X} → some x ≡ some y → x ≡ y
some_inj h = cc

module _ {A : Type 0} (divide : A → ℕ → A) (group_sum scatter_sum : List A → List A) where
  -- The bucket of each parameter is there.
  unfoldable pub AreKnown : List (ℕ × ℕ) → List (Bucket A) → List ℕ → Type 0
  AreKnown m bs [] = Unit
  AreKnown m bs (p ∷ ps) =
      ((i : ℕ) × (bucket_of m p ≡ some i) × (b : Bucket A) × (get_elem? bs i ≡ some b))
      × AreKnown m bs ps

  put_at-AreKnown :
      (m : List (ℕ × ℕ)) (bs : List (Bucket A)) (i : ℕ) {b : Bucket A} (b' : Bucket A) (ps : List ℕ)
      → get_elem? bs i ≡ some b
      → AreKnown m bs ps
      → AreKnown m (put_at i b' bs) ps
  unfolding AreKnown
  put_at-AreKnown m bs i b' [] h known = tt
  put_at-AreKnown m bs i {b} b' (p ∷ ps) h ((j, owner, c, there), known) =
      let at_place : (d : Bucket A) × (get_elem? (put_at i b' bs) j ≡ some d) =
        elim (Bool-cases (i == j)) [
          | inl same ↦ (
            b',
            subst (λ k. get_elem? (put_at i b' bs) k ≡ some b') (==→eq i j same)
                (get-put_at i b' b bs h),
          )
          | inr other ↦ (c, get-put_at_other i j b' bs (==→ne i j other) ∙ there)
        ] in
      ((j, owner, at_place.0, at_place.1), put_at-AreKnown m bs i b' ps h known)

  register-at :
      (g : GradBuffer A) (p i : ℕ) (b b' : Bucket A)
      → g.overlap_grad_reduce ≡ true
      → g.is_last_microbatch ≡ true
      → bucket_of g.param_to_bucket p ≡ some i
      → get_elem? g.buckets i ≡ some b
      → register_grad_ready divide group_sum scatter_sum b p ≡ ok b'
      → register divide group_sum scatter_sum g p
        ≡ ok (record g { buckets = put_at i b' g.buckets })
  unfolding register register_in
  register-at g p i b b' over last owner there ready =
      let found = register_in divide group_sum scatter_sum g p (bucket_of g.param_to_bucket p) in
      let write : Bucket A → Result (GradBuffer A) =
        λ c. ok (record g { buckets = put_at i c g.buckets }) in
      ap (λ o. assert o >> (if g.is_last_microbatch then found else ok g)) over
      ∙ ap (λ l. if l then found else ok g) last
      ∙ ap (register_in divide group_sum scatter_sum g p) owner
      ∙ ap (λ x. x >>= (λ c. register_grad_ready divide group_sum scatter_sum c p >>= write))
          (index-at g.buckets i there)
      ∙ ap (λ x. x >>= write) ready

  -- A bucket before and behind the call for `p`, which changes the bucket at `i` into `b'`: what is
  -- left for it to register has the same outcome.
  module _ (m : List (ℕ × ℕ)) (bs : List (Bucket A)) (p i : ℕ) (ps : List ℕ) (b b' : Bucket A)
      (owner : bucket_of m p ≡ some i) (there : get_elem? bs i ≡ some b)
      (ready : register_grad_ready divide group_sum scatter_sum b p ≡ ok b') where
    abbrev Left : ℕ → Bucket A → Bucket A → Type 0
    Left j c c' =
        register_all divide group_sum scatter_sum c (only_in m j (p ∷ ps))
        ≡ register_all divide group_sum scatter_sum c' (only_in m j ps)

    own-Left : Left i b b'
    unfolding register_all
    own-Left =
        ap (register_all divide group_sum scatter_sum b) (only_in-own m i p ps owner)
        ∙ ap (λ x. x >>= (λ c. register_all divide group_sum scatter_sum c (only_in m i ps))) ready

    moved :
        (j : ℕ) (c : Bucket A)
        → get_elem? bs j ≡ some c
        → (c' : Bucket A) × (get_elem? (put_at i b' bs) j ≡ some c') × Left j c c'
    moved j c h = elim (Bool-cases (i == j)) [
      | inl same ↦
          subst
            (λ k.
              (c : Bucket A)
              → get_elem? bs k ≡ some c
              → (c' : Bucket A) × (get_elem? (put_at i b' bs) k ≡ some c') × Left k c c')
            (==→eq i j same)
            (λ c h. (
              b',
              get-put_at i b' b bs there,
              subst (λ x. Left i x b') (some_inj (sym there ∙ h)) own-Left,
            ))
            c h
      | inr other ↦ (
        c,
        get-put_at_other i j b' bs (==→ne i j other) ∙ h,
        ap (register_all divide group_sum scatter_sum c)
            (only_in-other m i j p ps owner (==→ne i j other)),
      )
    ]

    moved_back :
        (j : ℕ) (c' : Bucket A)
        → get_elem? (put_at i b' bs) j ≡ some c'
        → (c : Bucket A) × (get_elem? bs j ≡ some c) × Left j c c'
    moved_back j c' h = elim (Bool-cases (i == j)) [
      | inl same ↦
          subst
            (λ k.
              (c' : Bucket A)
              → get_elem? (put_at i b' bs) k ≡ some c'
              → (c : Bucket A) × (get_elem? bs k ≡ some c) × Left k c c')
            (==→eq i j same)
            (λ c' h. (
              b,
              there,
              subst (λ x. Left i b x) (some_inj (sym (get-put_at i b' b bs there) ∙ h)) own-Left,
            ))
            c' h
      | inr other ↦ (
        c',
        sym (get-put_at_other i j b' bs (==→ne i j other)) ∙ h,
        ap (register_all divide group_sum scatter_sum c')
            (only_in-other m i j p ps owner (==→ne i j other)),
      )
    ]

  -- In a buffer with `overlap_grad_reduce` on, in the last microbatch, let gradients get ready in
  -- any order, each of a parameter whose bucket is there. If the calls return that each bucket gets
  -- for its own parameters, then all calls of the buffer return, and each bucket is afterwards what
  -- its own calls make of it: its gradients may get ready between those of other buckets.
  pub buckets_apart :
      (g : GradBuffer A) (ps : List ℕ)
      → g.overlap_grad_reduce ≡ true
      → g.is_last_microbatch ≡ true
      → AreKnown g.param_to_bucket g.buckets ps
      → ((i : ℕ) (b : Bucket A)
          → get_elem? g.buckets i ≡ some b
          → (b' : Bucket A) × (register_all divide group_sum scatter_sum b
                (only_in g.param_to_bucket i ps)
              ≡ ok b'))
      → (g' : GradBuffer A) × (register_each divide group_sum scatter_sum g ps ≡ ok g')
        × ((i : ℕ) (b b' : Bucket A)
            → get_elem? g.buckets i ≡ some b
            → register_all divide group_sum scatter_sum b (only_in g.param_to_bucket i ps) ≡ ok b'
            → get_elem? g'.buckets i ≡ some b')
  unfolding AreKnown register_all register_each only_in
  buckets_apart g [] over last known ready = (g, refl, λ i b b' h e. h ∙ ap some (ok_inj e))
  buckets_apart g (p ∷ ps) over last ((i, owner, b, there), known) ready =
      let m = g.param_to_bucket in
      let (end, ends) = ready i b there in
      let (b1, first, rest) =
        >>=-eq-ok (register_grad_ready divide group_sum scatter_sum b p)
          (λ c. register_all divide group_sum scatter_sum c (only_in m i ps))
          (ap (register_all divide group_sum scatter_sum b) (sym (only_in-own m i p ps owner))
            ∙ ends) in
      let g1 : GradBuffer A = record g { buckets = put_at i b1 g.buckets } in
      let (g', ran, results) =
        buckets_apart g1 ps over last (put_at-AreKnown m g.buckets i b1 ps there known) (λ j c' h.
          let (c, before, left) = moved_back m g.buckets p i ps b b1 owner there first j c' h in
          let (d, done) = ready j c before in (d, sym left ∙ done)) in
      (
        g',
        ap (λ x. x >>= (λ next. register_each divide group_sum scatter_sum next ps))
              (register-at g p i b b1 over last owner there first)
            ∙ ran,
        λ j c d h e.
            let (c', behind, left) = moved m g.buckets p i ps b b1 owner there first j c h in
            results j c' d behind (sym left ∙ e),
      )
