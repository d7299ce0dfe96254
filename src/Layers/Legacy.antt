-- ===== src/Layers/Legacy.antt =====
-- The layers that `ParallelTransformer` builds, beside those of the core library.
use megatron_lm.Prelude.{
  true, Bool, sym, some, ◌∙◌, map, [], ◌==◌, if◌then◌else◌, ap, List, Result, ◌*◌, none, ltb→le,
  inr, ne→==, eq→==, refl, inl, zero, arith, ltb, le→ltb, index_error, ◌-◌, Bool-cases, lt→ltb,
  raise, ◌/◌, false, ok, suc, range_from, ◌≡◌, ◌%◌, ◌≤◌, ◌<◌, ◌+◌, ℕ,
}
use megatron_lm.Layers.{
  true, Bool, ModelType, Place, some, map, [], List, none, Result, ltb, index_error, raise, false,
  ok, suc, range_from, ℕ, Args, init_layers, get_num_layers, core_layers, encoder_or_decoder,
  build_layers, build_layer, layer_span, stage_offset, even_num_layers, unless_embedding_stage,
  is_encoder_and_decoder, is_retro_encoder,
}
use megatron_lm.Layers.Numbers.{map-range_from}
use megatron_lm.Layers.Stages.{core_chunk, per_chunk, whole, share, at, core_stage}
use native.Mathlib.Nat.{div-one, zero-add, zero-mul, mul_comm, mul-mod_left, div-add-mod'}

fits : (r size n : ℕ) → r < size → 0 < size → n % size ≡ 0 → r * (n / size) + n / size ≤ n
fits r size n below pos even = grind (arith, div-add-mod' n size)

virtual_fits :
    (n size vp r v q : ℕ)
    → n ≡ size * q * vp
    → n / vp ≡ size * q
    → r < size
    → v < vp
    → v * (n / vp) + r * q + q ≤ n
virtual_fits n size vp r v q w c below below' = rw c (grind arith)

positive : (n : ℕ) → 0 < n → (m : ℕ) × (n ≡ suc m)
positive zero h = absurd (omega arith)
positive (suc m) h = (m, refl)

not_zero : (a b n : ℕ) → a * b ≡ n → 0 < n → 0 < a
not_zero zero b n e pos = absurd (omega (arith, zero-mul b))
not_zero (suc a) b n e pos = omega arith

module _ (args : Args) where
  -- Layers up to the number that the arguments give are built.
  build_layers-ok :
      (a m : ℕ)
      → 1 ≤ a
      → a + m ≤ args.num_layers + 1
      → build_layers args (range_from a m) ≡ ok (range_from a m)
  unfolding build_layers build_layer
  build_layers-ok a zero pos h = refl
  build_layers-ok a (suc m) pos h =
      rw
        (
          lt→ltb (a - 1) args.num_layers (omega arith),
          build_layers-ok (a + 1) m (omega arith) (omega arith),
        )
        refl

  build_layers-raise :
      (a m : ℕ) → args.num_layers < a → build_layers args (range_from a (suc m)) ≡ raise index_error
  unfolding build_layers build_layer
  build_layers-raise a m h = rw (le→ltb (a - 1) args.num_layers (omega arith)) refl

  -- What `init_layers` does with a span.
  built : ℕ × ℕ → Result (List ℕ)
  built span =
      if span.0 == 0
      then ok []
      else build_layers args (map (λ i. i + 1 + span.1) (range_from 0 span.0))

  built-ok : (m k : ℕ) → k + m ≤ args.num_layers → built (m, k) ≡ ok (range_from (k + 1) m)
  unfolding built
  built-ok zero k h = refl
  built-ok (suc m) k h =
      rw
        (
          ne→== (suc m) 0 (omega arith),
          map-range_from k 0 (suc m),
          zero-add,
          build_layers-ok (k + 1) (suc m) (omega arith) (omega arith),
        )
        refl

  init_layers-ok :
      (here : Place) (kind : ModelType) (is_decoder : Bool) (n m k : ℕ)
      → get_num_layers args here kind is_decoder ≡ ok n
      → layer_span args here kind is_decoder n args.virtual_pipeline_model_parallel_size ≡ ok (m, k)
      → k + m ≤ args.num_layers
      → init_layers args here kind is_decoder ≡ ok (range_from (k + 1) m)
  unfolding init_layers built
  init_layers-ok here kind is_decoder n m k counted spanned h =
      rw (counted, spanned) (built-ok m k h)

  init_layers-raise :
      (here : Place) (kind : ModelType) (is_decoder : Bool) (n m k : ℕ)
      → get_num_layers args here kind is_decoder ≡ ok n
      → layer_span args here kind is_decoder n args.virtual_pipeline_model_parallel_size
        ≡ ok (suc m, k)
      → args.num_layers ≤ k
      → init_layers args here kind is_decoder ≡ raise index_error
  unfolding init_layers
  init_layers-raise here kind is_decoder n m k counted spanned h =
      rw
        (
          counted,
          spanned,
          ne→== (suc m) 0 (omega arith),
          map-range_from k 0 (suc m),
          build_layers-raise (0 + k + 1) m (omega arith),
        )
        refl

  -- A model with one stack of layers, on stages that all have the same number of them.
  pub record IsPlain (size : ℕ) : Type 0 where
    pub stages : 0 < size
    pub encoder : args.encoder_num_layers ≡ args.num_layers
    pub transformer_stages : args.transformer_pipeline_model_parallel_size ≡ size
    pub standalone : args.standalone_embedding_stage ≡ false

  module _ (size r v : ℕ) (plain : IsPlain size) (even : args.num_layers % size ≡ 0) where
    get_num_layers_even :
        get_num_layers args (at size r v) encoder_or_decoder false ≡ ok (args.num_layers / size)
    unfolding get_num_layers even_num_layers unless_embedding_stage is_encoder_and_decoder
        is_retro_encoder
    get_num_layers_even = elim (Bool-cases (ltb 1 size)) [
      | inl many ↦
          rw
            (
              many,
              plain.encoder,
              plain.transformer_stages,
              plain.standalone,
              eq→== args.num_layers args.num_layers refl,
              ne→== size 0 (omega (arith, plain.stages)),
              even,
            )
            refl
      | inr one ↦
          let first : size ≡ 1 = omega (arith, ltb→le 1 size one, plain.stages) in
          rw (one, plain.encoder, first, div-one) refl
    ]

    -- Without virtual stages, and with layers that the stages divide evenly, a stage builds the same
    -- layers as in the core library.
    pub init_layers-eq-core_layers :
        r < size
        → args.virtual_pipeline_model_parallel_size ≡ none
        → init_layers args (at size r v) encoder_or_decoder false
          ≡ core_layers args.num_layers (at size r v) none
    unfolding layer_span stage_offset is_encoder_and_decoder
    init_layers-eq-core_layers below single =
        let n = args.num_layers / size in
        init_layers-ok (at size r v) encoder_or_decoder false n n (r * n) get_num_layers_even
          (rw single refl) (fits r size args.num_layers below plain.stages even)
        ∙ ap (λ t. ok (range_from t n)) (omega arith)
        ∙ sym (core_stage args.num_layers size plain.stages r v below)

    -- For a model with one stack of layers and no stage for the embedding alone, if the layers are
    -- a multiple of the stages times the chunks, `ParallelTransformer` builds in each chunk of each
    -- stage the same layers as the core library.
    pub init_layers-eq-core_layers_virtual :
        (vp : ℕ)
        → 0 < vp
        → v < vp
        → r < size
        → args.num_layers % (size * vp) ≡ 0
        → args.virtual_pipeline_model_parallel_size ≡ some vp
        → init_layers args (at size r v) encoder_or_decoder false
          ≡ core_layers args.num_layers (at size r v) (some vp)
    unfolding layer_span is_encoder_and_decoder
    init_layers-eq-core_layers_virtual vp some_chunk below' below even' interleaved =
        let all = args.num_layers in
        let q = share all size vp plain.stages some_chunk in
        let k = v * (all / vp) + r * q in
        let w : all ≡ size * q * vp = whole all size vp plain.stages some_chunk even' in
        let c : all / vp ≡ size * q = per_chunk all size vp plain.stages some_chunk even' in
        let divides : all % vp ≡ 0 = rw w (mul-mod_left (size * q) vp) in
        init_layers-ok (at size r v) encoder_or_decoder false (all / size) q k get_num_layers_even
          (rw (interleaved, ne→== vp 0 (omega arith), divides) refl)
          (virtual_fits all size vp r v q w c below below')
        ∙ ap (λ t. ok (range_from t q)) (omega arith)
        ∙ sym (core_chunk all size vp plain.stages some_chunk r v)

  -- With a stage for the embedding alone, no virtual stages, and a positive number of layers that
  -- the other stages divide evenly, `ParallelTransformer` raises an IndexError on the last stage,
  -- since the offset counts the first stage.
  pub standalone_raises :
      (stages : ℕ)
      → 0 < stages
      → 0 < args.num_layers
      → args.num_layers % stages ≡ 0
      → args.encoder_num_layers ≡ args.num_layers
      → args.transformer_pipeline_model_parallel_size ≡ stages
      → args.standalone_embedding_stage ≡ true
      → args.virtual_pipeline_model_parallel_size ≡ none
      → (v : ℕ)
      → init_layers args (at (stages + 1) stages v) encoder_or_decoder false ≡ raise index_error
  unfolding get_num_layers even_num_layers unless_embedding_stage layer_span stage_offset
      is_encoder_and_decoder is_retro_encoder
  standalone_raises stages pos some_layers even encoder transformer_stages standalone single v =
      let n = args.num_layers in
      let whole : n / stages * stages ≡ n = omega (arith, div-add-mod' n stages) in
      let (m, share_eq) =
        positive (n / stages) (not_zero (n / stages) stages n whole some_layers) in
      let last : stages * (n / stages) ≡ n = mul_comm stages (n / stages) ∙ whole in
      init_layers-raise (at (stages + 1) stages v) encoder_or_decoder false (n / stages) m
        (stages * (n / stages))
        (rw
          (
            lt→ltb 1 (stages + 1) (omega arith),
            encoder,
            transformer_stages,
            standalone,
            eq→== n n refl,
            ne→== stages 0 (omega arith),
            even,
          )
          refl)
        (rw (single, ← share_eq) refl) (omega (arith, last))
