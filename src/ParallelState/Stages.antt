-- ===== src/ParallelState/Stages.antt =====
-- The data-parallel groups: the stripes of the pipeline stages.
use megatron_lm.Prelude.{
  assert, ◌>>=◌, ok, none, ◌/◌, ◌%◌, some, ◌∙◌, ℕ, zero, suc, ◌*◌, ◌<◌, ◌≡◌, sym, ap, arith,
}
use native.Mathlib.Nat.{zero-mul, mul-div_cancel, mul_assoc, mul_comm, div-add-mod'}
use megatron_lm.ParallelState.{
  is_none, Sizes, Globals, data_parallel_size, num_pipeline_model_parallel_groups,
  data_parallel_groups, data_parallel_groups_with_cp, init_data_parallel, join,
}
use megatron_lm.ParallelState.Striped.{wide, stripe_of}
use megatron_lm.ParallelState.Joined.{striped, join-striped}

-- What a section on the groups assumes of the sizes: they are positive, their product divides the
-- number of ranks, and the rank is one of them.
pub record IsSized (s : Sizes) : Type 0 where
  pub tp_pos : 0 < s.tensor_model_parallel_size
  pub pp_pos : 0 < s.pipeline_model_parallel_size
  pub cp_pos : 0 < s.context_parallel_size
  pub divides :
      s.world_size
        % (s.tensor_model_parallel_size * s.pipeline_model_parallel_size * s.context_parallel_size)
      ≡ 0
  pub rank_lt : s.rank < s.world_size

regroup : (d t p c : ℕ) → d * (t * p * c) ≡ d * (c * t) * p
regroup d t p c =
    ap (λ x. d * x) (mul_comm (t * p) c ∙ sym (mul_assoc c t p)) ∙ sym (mul_assoc d (c * t) p)

module _ (s : Sizes) (sized : IsSized s) where
  abbrev d : ℕ
  d = data_parallel_size s

  abbrev t : ℕ
  t = s.tensor_model_parallel_size

  abbrev p : ℕ
  p = s.pipeline_model_parallel_size

  abbrev c : ℕ
  c = s.context_parallel_size

  world : s.world_size ≡ d * (c * t) * p
  world = omega (arith, div-add-mod' s.world_size (t * p * c), sized.divides, regroup d t p c)

  -- The ranks of one pipeline stage.
  stage : num_pipeline_model_parallel_groups s ≡ d * (c * t)
  stage = ap (λ x. x / p) world ∙ mul-div_cancel (d * (c * t)) sized.pp_pos

  positive-left : (a b : ℕ) → 0 < a * b → 0 < a
  positive-left zero b h = absurd (omega (arith, zero-mul b))
  positive-left (suc a) b h = omega arith

  stage_pos : 0 < d * (c * t)
  stage_pos = positive-left (d * (c * t)) p (omega (arith, world, sized.rank_lt))

  d_pos : 0 < d
  d_pos = positive-left d (c * t) stage_pos

  ct_pos : 0 < c * t
  ct_pos = omega (arith, wide c t sized.cp_pos, sized.tp_pos)

  dc_pos : 0 < d * c
  dc_pos = positive-left (d * c) t (omega (arith, mul_assoc d c t, stage_pos))

  in_stages : s.rank < p * (d * (c * t))
  in_stages = omega (arith, sized.rank_lt, world, mul_comm p (d * (c * t)))

  data_parallel_groups-striped : data_parallel_groups s ≡ striped p (d * (c * t)) (c * t)
  unfolding data_parallel_groups
  data_parallel_groups-striped = ap (λ block. striped p block (c * t)) stage

  data_parallel_groups_with_cp-striped : data_parallel_groups_with_cp s ≡ striped p (d * c * t) t
  unfolding data_parallel_groups_with_cp
  data_parallel_groups_with_cp-striped =
      ap (λ block. striped p block t) (stage ∙ sym (mul_assoc d c t))

  fresh-ok :
      (g : Globals)
      → g.data_parallel_group ≡ none
      → init_data_parallel s g
        ≡ ok (record g {
          data_parallel_group = join s.rank (data_parallel_groups s) g.data_parallel_group;
          data_parallel_group_with_cp =
              join s.rank (data_parallel_groups_with_cp s) g.data_parallel_group_with_cp;
        })
  unfolding init_data_parallel
  fresh-ok g fresh =
      ap
        (λ o. assert (is_none o) >>= λ _. ok (record g {
          data_parallel_group = join s.rank (data_parallel_groups s) g.data_parallel_group;
          data_parallel_group_with_cp =
              join s.rank (data_parallel_groups_with_cp s) g.data_parallel_group_with_cp;
        }))
        fresh

  -- With positive sizes whose product divides the number of ranks, a rank below that number, and no
  -- data-parallel group yet, the section of the data-parallel groups succeeds: the rank's group is
  -- the stripe of step `cp * tp` through its pipeline stage that the rank is on, and its group with
  -- context parallelism is the stripe of step `tp`.
  pub init_data_parallel-exact :
      (g : Globals)
      → g.data_parallel_group ≡ none
      → (g' : Globals) × (init_data_parallel s g ≡ ok g')
        × (g'.data_parallel_group ≡ some (stripe_of (d * (c * t)) (c * t) s.rank))
        × (g'.data_parallel_group_with_cp ≡ some (stripe_of (d * c * t) t s.rank))
  unfolding init_data_parallel
  init_data_parallel-exact g fresh = (
    record g {
      data_parallel_group = join s.rank (data_parallel_groups s) g.data_parallel_group;
      data_parallel_group_with_cp =
          join s.rank (data_parallel_groups_with_cp s) g.data_parallel_group_with_cp;
    },
    fresh-ok g fresh,
    rw data_parallel_groups-striped
        (join-striped p d (c * t) s.rank g.data_parallel_group d_pos ct_pos in_stages),
    rw data_parallel_groups_with_cp-striped (
        join-striped p (d * c) t s.rank g.data_parallel_group_with_cp dc_pos sized.tp_pos
          (omega (arith, in_stages, ap (λ x. p * x) (mul_assoc d c t)))),
  )
