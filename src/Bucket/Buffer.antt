-- ===== src/Bucket/Buffer.antt =====
-- megatron/core/distributed/grad_buffer.py: the methods of `GradBuffer` once its buckets are built. A
-- bucket is shared by the list and by `param_to_bucket`, which therefore holds its position in the
-- list. The views that the buckets have of the data tile it, so that each holds its part.
pub mod Apart
mod Tests
use megatron_lm.Prelude.{
  ℕ, zero, suc, Bool, true, false, if◌then◌else◌, ◌==◌, Option, none, some, List, [], ◌∷◌, map,
  get_elem?, Result, ok, raise, key_error, ◌>>=◌, ◌>>◌, assert, >>=-eq-ok, ◌≡◌, ◌≢◌, refl, ap, ◌∙◌,
  sym, subst, ok_inj, Bool-cases, inl, inr, ==→eq, ==→ne, eq→==, ne→==,
}
use megatron_lm.Bucket.{
  Bucket, index, reset, start_grad_sync, finish_grad_sync, register_grad_ready,
}
use megatron_lm.Bucket.Sync.{register_all}

pub record GradBuffer (A : Type 0) : Type 0 where
  pub buckets : List (Bucket A)
  pub param_to_bucket : List (ℕ × ℕ)
  pub overlap_grad_reduce : Bool
  pub is_last_microbatch : Bool

-- `self.param_to_bucket[param]`
pub bucket_of : List (ℕ × ℕ) → ℕ → Option ℕ
bucket_of [] param = none
bucket_of (item ∷ items) param = if item.0 == param then some item.1 else bucket_of items param

-- The change of the bucket at a position.
pub put_at : {X : Type 0} → ℕ → X → List X → List X
put_at i x [] = []
put_at zero x (y ∷ ys) = x ∷ ys
put_at (suc i) x (y ∷ ys) = y ∷ put_at i x ys

module _ {A : Type 0} where
  pub zero_contents : A → Bucket A → Bucket A
  zero_contents nought b = record b { contents = map (λ x. nought) b.contents }

  pub reset_buffer : A → Bool → GradBuffer A → GradBuffer A
  unfolding zero_contents reset
  reset_buffer nought zero_buffer g = record g {
    buckets = map (λ b. reset (if zero_buffer then zero_contents nought b else b)) g.buckets;
    is_last_microbatch = true;
  }

module _ {A : Type 0} (divide : A → ℕ → A) (group_sum scatter_sum : List A → List A) where
  -- A call for each bucket.
  pub for_buckets : (Bucket A → Result (Bucket A)) → List (Bucket A) → Result (List (Bucket A))
  for_buckets call [] = ok []
  for_buckets call (b ∷ bs) = call b >>= (λ b'. for_buckets call bs >>= (λ bs'. ok (b' ∷ bs')))

  pub start_all : GradBuffer A → Result (GradBuffer A)
  unfolding for_buckets
  start_all g = do
    buckets ← for_buckets (start_grad_sync divide group_sum scatter_sum) g.buckets
    ok (record g { buckets = buckets })

  pub finish_all : GradBuffer A → Result (GradBuffer A)
  unfolding for_buckets
  finish_all g = do
    buckets ← for_buckets (finish_grad_sync divide group_sum scatter_sum) g.buckets
    ok (record g { buckets = buckets })

  pub register_in : GradBuffer A → ℕ → Option ℕ → Result (GradBuffer A)
  unfolding put_at
  register_in g param none = raise key_error
  register_in g param (some i) = do
    b ← index g.buckets i
    b' ← register_grad_ready divide group_sum scatter_sum b param
    ok (record g { buckets = put_at i b' g.buckets })

  pub register : GradBuffer A → ℕ → Result (GradBuffer A)
  unfolding register_in bucket_of
  register g param = do
    assert g.overlap_grad_reduce
    (if g.is_last_microbatch then register_in g param (bucket_of g.param_to_bucket param) else ok g)

  -- The gradients that get ready, one after the other.
  pub register_each : GradBuffer A → List ℕ → Result (GradBuffer A)
  unfolding register
  register_each g [] = ok g
  register_each g (p ∷ ps) = register g p >>= (λ g'. register_each g' ps)
