-- ===== src/DistribOptimizer/Tests.antt =====
-- Runs of the shard maps, and the theorems at concrete inputs.
use megatron_lm.DistribOptimizer.Owners.{element_owned}
use megatron_lm.DistribOptimizer.Shares.{param_ranges_exact, InRange}
use megatron_lm.Prelude.{
  arith, ◌+◌, ◌/◌, ◌<◌, max, min, some, refl, ◌≡◌, ok, raise, [], ◌∷◌, assertion_error,
  zero_division_error, ℕ,
}
use megatron_lm.GradBuffer.{Place}
use megatron_lm.DistribOptimizer.{
  ParamRanges, param_ranges, world_range, Shard, gbuf_range_of, build_model_gbuf_range,
  build_model_gbuf_param_range_map, build_model_gbuf_range_map, gbuf_ranges_from,
}

abbrev weight : Place
weight = record { start = 10; end = 15; bucket_id = 1 }

abbrev bias : Place
bias = record { start = 8; end = 10; bucket_id = 1 }

-- Rank 1 of 2 has the elements 12 to 15 of the bucket from 8 to 16.
abbrev shard : Shard
shard = record {
  data_parallel_rank = 1;
  data_parallel_world_size = 2;
  param_index_map = (0, bias) ∷ (1, weight) ∷ [];
  buckets = (8, 8) ∷ [];
}

abbrev kept : ParamRanges
kept = record {
  gbuf_world = record { start = 12; end = 15 };
  gbuf_world_in_bucket = record { start = 4; end = 7 };
  gbuf_local = record { start = 0; end = 3 };
  param = record { start = 2; end = 5 };
}

program : Unit {0}
unfolding param_ranges world_range gbuf_range_of build_model_gbuf_range gbuf_ranges_from
    build_model_gbuf_param_range_map build_model_gbuf_range_map
program = tt

range_map : build_model_gbuf_range_map ((0, shard) ∷ []) ≡ ok ((0, ((1, kept) ∷ []) ∷ []) ∷ [])
unfolding program
range_map = refl

range-first : build_model_gbuf_range shard 0 ≡ ok ((1, kept) ∷ [])
unfolding program
range-first = refl

range_uneven : gbuf_range_of shard 7 0 ≡ raise assertion_error
unfolding program
range_uneven = refl

range_no_ranks :
    gbuf_range_of (record shard { data_parallel_world_size = 0 }) 8 0 ≡ raise zero_division_error
unfolding program
range_no_ranks = refl

kept_eq : param_ranges (record { start = 12; end = 16 }) 8 weight ≡ some kept
unfolding program
kept_eq = refl

param_ranges_exact_example :
    (kept.gbuf_world.start ≡ max weight.start 12)
    × (kept.gbuf_world.end ≡ min weight.end 16)
    × (kept.gbuf_world_in_bucket.start + 8 ≡ kept.gbuf_world.start)
    × (kept.gbuf_world_in_bucket.end + 8 ≡ kept.gbuf_world.end)
    × (kept.gbuf_local.start + 12 ≡ kept.gbuf_world.start)
    × (kept.gbuf_local.end + 12 ≡ kept.gbuf_world.end)
    × (kept.param.start + weight.start ≡ kept.gbuf_world.start)
    × (kept.param.end + weight.start ≡ kept.gbuf_world.end)
param_ranges_exact_example =
    param_ranges_exact (record { start = 12; end = 16 }) 8 weight {k = kept} (omega arith)
      (omega arith) kept_eq

element_owned_example :
    (r : ℕ) × (r < 2)
    × ((k : ParamRanges) × (param_ranges (world_range 8 (8 / 2) 8 r) 8 weight ≡ some k)
        × InRange 13 k.gbuf_world)
    × ((r' : ℕ) (k' : ParamRanges)
        → r' < 2
        → param_ranges (world_range 8 (8 / 2) 8 r') 8 weight ≡ some k'
        → InRange 13 k'.gbuf_world
        → r' ≡ r)
element_owned_example =
    element_owned 8 2 8 weight 13 (omega arith) refl (omega arith) (omega arith) (omega arith)
      (omega arith)
