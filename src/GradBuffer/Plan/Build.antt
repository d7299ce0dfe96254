-- ===== src/GradBuffer/Plan/Build.antt =====
-- The loop keeps the layout, and what is laid out in the end.
use megatron_lm.Prelude.{
  none, assert, not, ◌&&◌, ◌==◌, ◌%◌, Ensures-bind, Ensures-ok, Ensures, some_inj, ℕ, suc, ◌+◌, ◌≤◌,
  ◌<◌, ◌≡◌, ◌⊎◌, refl, sym, ◌∙◌, subst, inl, inr, false, ltb, some, List, [], ◌∷◌, ◌++◌, length,
  All, All-append, All-imp, length-append, ok, arith, Bool-cases, Option, Result,
}
use mathlib.Core.List.{reverse}
use megatron_lm.GradBuffer.{
  close_at, Param, Place, Config, pad_if_needed, Layout, initial, closes, place, place_all,
  close_last, lay_out, check_unique,
}
use megatron_lm.GradBuffer.Plan.{
  pad-le, pad_even, IsEven, LiesIn, IsPlaced, IsValid, initial-IsValid, entry, settle,
  IsPlaced-close, Tiles, AreApart, Tiles-snoc, AreApart-snoc, AreApart-widen,
}

module _ (c : Config) (world : 0 < c.data_parallel_world_size) where
  length-snoc : (xs : List (ℕ × ℕ)) (x : ℕ × ℕ) → length (xs ++ x ∷ []) ≡ length xs + 1
  length-snoc xs x = length-append xs (x ∷ [])

  -- All places lie in closed buckets once the open one is closed at `end`.
  close-All :
      (l : Layout) (p : Param) (end : ℕ)
      → (IsValid c world) l
      → l.data_start_index + p.numel ≤ end
      → All
          ((LiesIn c world) (l.bucket_indices ++ (l.bucket_data_start_index, end) ∷ []))
          (l.param_index_map ++ (entry c world) l p ∷ [])
  close-All l p end v le =
      All-append ((LiesIn c world) (l.bucket_indices ++ (l.bucket_data_start_index, end) ∷ []))
        l.param_index_map _
        (All-imp ((IsPlaced c world) l)
          ((LiesIn c world) (l.bucket_indices ++ (l.bucket_data_start_index, end) ∷ []))
          ((IsPlaced-close c world) l end v (omega arith)) l.param_index_map v.placed)
        ((settle c world) l end v ((entry c world) l p) refl v.start_le le, tt)

  place-IsValid : (l : Layout) (p : Param) → (IsValid c world) l → (IsValid c world) (place c l p)
  unfolding place
  place-IsValid l p v =
      let d = l.data_start_index + p.numel in
      let e = pad_if_needed c d in
      let bigger : d ≤ e = (pad-le c world) d in
      elim (Bool-cases (closes c l d (suc (length l.bucket_params)))) [
        | inl full ↦ rw full (record {
          tiles =
              Tiles-snoc 0 l.bucket_indices l.bucket_data_start_index e v.tiles
                (omega (arith, v.start_le));
          count =
              omega (arith, v.count, length-snoc l.bucket_indices (l.bucket_data_start_index, e));
          start_le = omega arith;
          start_even = (pad_even c world) d;
          evens =
              All-append (IsEven c world) l.bucket_indices _ v.evens
                ((λ dist. (v.start_even dist, (pad_even c world) d dist)), tt);
          placed = All-imp _ _ (λ x h. inl h) _ (close-All l p e v bigger);
          apart =
              AreApart-snoc 0 l.param_index_map l.data_start_index p.ident _ e v.apart (omega arith)
                (omega arith) bigger;
          bound = λ n h. sym (some_inj h);
          empty = λ h. refl;
          open_only = λ h. close-All l p e v bigger;
        })
        | inr more ↦ rw more (record {
          tiles = v.tiles;
          count = v.count;
          start_le = omega (arith, v.start_le);
          start_even = v.start_even;
          evens = v.evens;
          placed =
              All-append _ l.param_index_map _
                (All-imp ((IsPlaced c world) l) _ (keep l p) l.param_index_map v.placed)
                (inr (refl, v.start_le, omega arith), tt);
          apart =
              AreApart-snoc 0 l.param_index_map l.data_start_index p.ident _ d v.apart (omega arith)
                (omega arith) (omega arith);
          bound = λ n h. sym (some_inj h);
          empty = λ h. cc;
          open_only = λ h. cc;
        })
      ]
    where
      keep :
          (l : Layout) (p : Param) (x : ℕ × Place)
          → (IsPlaced c world) l x
          → (LiesIn c world) l.bucket_indices x
            ⊎ ((x.1.bucket_id ≡ l.bucket_id)
                × (l.bucket_data_start_index ≤ x.1.start)
                × (x.1.end ≤ l.data_start_index + p.numel))
      keep l p x (inl h) = inl h
      keep l p x (inr (a, b, f)) = inr (a, b, omega arith)

  pub place_all-IsValid :
      (l : Layout) (ps : List Param) → (IsValid c world) l → (IsValid c world) (place_all c l ps)
  unfolding place_all
  place_all-IsValid l [] v = v
  place_all-IsValid l (p ∷ ps) v = elim (Bool-cases p.requires_grad) [
    | inl yes_grad ↦ simp yes_grad (place_all-IsValid (place c l p) ps (place-IsValid l p v))
    | inr no_grad ↦ simp no_grad (place_all-IsValid l ps v)
  ]

  -- What `__init__` computes first: `n` elements, tiled by the buckets.
  pub record IsLaidOut (l : Layout) (n : ℕ) : Type 0 where
    pub tiles : Tiles 0 l.bucket_indices n
    pub evens : All (IsEven c world) l.bucket_indices
    pub inside : All ((LiesIn c world) l.bucket_indices) l.param_index_map
    pub apart : AreApart 0 l.param_index_map n

  no_elements : (xs : List ℕ) → ltb 0 (length xs) ≡ false → xs ≡ []
  no_elements [] h = refl
  no_elements (x ∷ xs) h = ground arith

  close_open :
      (l : Layout)
      → (IsValid c world) l
      → (d : ℕ) → d ≡ l.data_start_index
      → IsLaidOut
          (record l {
            bucket_indices =
                l.bucket_indices ++ (l.bucket_data_start_index, pad_if_needed c d) ∷ [];
          })
          (pad_if_needed c d)
  close_open l v d e =
      let bigger : l.data_start_index ≤ pad_if_needed c d = omega (arith, (pad-le c world) d) in
      record {
        tiles =
            Tiles-snoc 0 l.bucket_indices l.bucket_data_start_index _ v.tiles
              (omega (arith, v.start_le));
        evens =
            All-append (IsEven c world) l.bucket_indices _ v.evens
              ((λ dist. (v.start_even dist, (pad_even c world) d dist)), tt);
        inside =
            All-imp ((IsPlaced c world) l) _
              ((IsPlaced-close c world) l (pad_if_needed c d) v bigger) l.param_index_map v.placed;
        apart = AreApart-widen 0 l.param_index_map l.data_start_index _ v.apart bigger;
      }

  pub close_at-IsLaidOut :
      (l : Layout)
      → (IsValid c world) l
      → (o : Option ℕ) → l.data_end_index ≡ o
      → Ensures (λ r. IsLaidOut r.0 r.1) (close_at c l o)
  unfolding close_at
  close_at-IsLaidOut l v none last = tt
  close_at-IsLaidOut l v (some d) last = elim (Bool-cases (ltb 0 (length l.bucket_params))) [
    | inl some_open ↦ simp some_open (close_open l v d (v.bound d last))
    | inr none_open ↦
        let no_params = no_elements l.bucket_params none_open in
        let same : l.bucket_data_start_index ≡ d = v.empty no_params ∙ sym (v.bound d last) in
        simp none_open (record {
          tiles = subst (Tiles 0 l.bucket_indices) same v.tiles;
          evens = v.evens;
          inside = v.open_only no_params;
          apart = subst (AreApart 0 l.param_index_map) (sym (v.bound d last)) v.apart;
        })
  ]

  -- With a positive data-parallel size, if the first half of `GradBuffer.__init__` succeeds, then
  -- the buckets tile the buffer, their bounds are multiples of the data-parallel size under the
  -- distributed optimizer, every parameter lies inside the bucket that is recorded for it, and no
  -- two parameters overlap.
  pub lay_out-IsLaidOut :
      (params : List Param) {l : Layout} {n : ℕ} → lay_out c params ≡ ok (l, n) → IsLaidOut l n
  unfolding lay_out close_last
  lay_out-IsLaidOut params h =
      Ensures-ok Good
        (Ensures-bind Good (check_unique [] params) _ (λ u unique.
          Ensures-bind Good (close_last c (place_all c initial (reverse params))) _
            (λ r closed. Ensures-bind Good (fits r) (λ w. ok r) (λ w done. planned r closed))))
        h
    where
      Good : Layout × ℕ → Type 0
      Good r = IsLaidOut r.0 r.1

      fits : Layout × ℕ → Result (Unit {0})
      fits r =
          assert (not (c.use_distributed_optimizer && not (r.1 % c.data_parallel_world_size == 0)))

      planned :
          (r : Layout × ℕ)
          → close_at c
              (place_all c initial (reverse params))
              (place_all c initial (reverse params)).data_end_index
            ≡ ok r
          → Good r
      planned r closed =
          Ensures-ok Good
            (close_at-IsLaidOut _
              (place_all-IsValid initial (reverse params) (initial-IsValid c world)) _ refl)
            closed
