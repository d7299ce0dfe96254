-- ===== src/Layers/Stages.antt =====
-- Which layers the stages of a pipeline build.
use megatron_lm.Prelude.{
  sym, ltb→le, inr, inl, refl, arith, ltb, ap, ◌∙◌, ne→==, Bool-cases, ok, ◌+◌, ◌*◌, range_from,
  ◌≡◌, none, ◌/◌, ◌%◌, some, List, ◌<◌, ℕ,
}
use megatron_lm.Layers.{
  ltb, ok, range_from, none, some, List, ℕ, Place, core_layers, get_num_layers_to_build,
  get_layer_offset,
}
use megatron_lm.Layers.Numbers.{joined, joined-range_from, map-range_from}
use native.Mathlib.Nat.{zero-mul, div-add-mod', div-div-eq-div-mul, mul-div_cancel}

abbrev pub at : ℕ → ℕ → ℕ → Place
at size rank vrank = record { pipeline_size = size; pipeline_rank = rank; virtual_rank = vrank }

module _ (n size : ℕ) (some_stage : 0 < size) where
  pub core_stage :
      (r v : ℕ)
      → r < size
      → core_layers n (at size r v) none ≡ ok (range_from (1 + r * (n / size)) (n / size))
  unfolding core_layers get_num_layers_to_build get_layer_offset
  core_stage r v below = elim (Bool-cases (ltb 1 size)) [
    | inl many ↦
        rw (ne→== size 0 (omega arith), many, map-range_from (r * (n / size)) 0 (n / size))
          (ap (λ t. ok (range_from t (n / size))) (omega arith))
    | inr one ↦
        let first : r ≡ 0 = omega (arith, ltb→le 1 size one) in
        rw (ne→== size 0 (omega arith), one, map-range_from 0 0 (n / size))
          (ap (λ t. ok (range_from t (n / size))) (rw (first, zero-mul) (omega arith)))
  ]

  -- Without virtual stages, if the number of layers is a multiple of the positive number of stages,
  -- the stages build, one after the other, the layers from one to that number, each once and in
  -- order.
  pub core_layers-exact :
      n % size ≡ 0
      → (on : ℕ → List ℕ) × ((r v : ℕ) → r < size → core_layers n (at size r v) none ≡ ok (on r))
        × (joined on size ≡ range_from 1 n)
  core_layers-exact even = (
    λ r. range_from (1 + r * (n / size)) (n / size),
    core_stage,
    joined-range_from _ 1 (n / size) size (λ i. refl)
        ∙ ap (range_from 1) (omega (arith, div-add-mod' n size)),
  )

module _ (n size vp : ℕ) (some_stage : 0 < size) (some_chunk : 0 < vp) where
  abbrev pub share : ℕ
  share = n / size / vp

  abbrev chunk : ℕ → ℕ → List ℕ
  chunk v r = range_from (1 + v * (n / vp) + r * share) share

  pub core_chunk : (r v : ℕ) → core_layers n (at size r v) (some vp) ≡ ok (chunk v r)
  unfolding core_layers get_num_layers_to_build get_layer_offset
  core_chunk r v =
      rw
        (
          ne→== size 0 (omega arith),
          ne→== vp 0 (omega arith),
          map-range_from (v * (n / vp) + r * share) 0 share,
        )
        (ap (λ t. ok (range_from t share)) (omega arith))

  module _ (even : n % (size * vp) ≡ 0) where
    pub whole : n ≡ size * share * vp
    whole =
        let q = n / (size * vp) in
        let e : q * (size * vp) ≡ n = omega (arith, div-add-mod' n (size * vp)) in
        let f : share ≡ q = div-div-eq-div-mul n size vp in rw f (grind arith)

    pub per_chunk : n / vp ≡ size * share
    per_chunk = ap (λ t. t / vp) whole ∙ mul-div_cancel (size * share) some_chunk

    -- If the number of layers is a multiple of the number of stages times the number of chunks,
    -- both positive, every chunk of every stage builds its layers, and the layers of the chunks,
    -- chunk after chunk and in each of these stage after stage, are numbered from one to the number
    -- of layers, each once and in order.
    pub core_layers-exact_virtual :
        (on : ℕ → ℕ → List ℕ) × ((r v : ℕ)
          → r < size
          → v < vp
          → core_layers n (at size r v) (some vp) ≡ ok (on v r))
        × (joined (λ v. joined (on v) size) vp ≡ range_from 1 n)
    core_layers-exact_virtual = (
      chunk,
      λ r v below below'. core_chunk r v,
      joined-range_from _ 1 (n / vp) vp (λ v.
            joined-range_from (chunk v) (1 + v * (n / vp)) share size (λ i. refl)
            ∙ ap (range_from (1 + v * (n / vp))) (sym per_chunk))
          ∙ ap (range_from 1) (rw per_chunk (grind (arith, whole))),
    )
