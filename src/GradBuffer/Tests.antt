-- ===== src/GradBuffer/Tests.antt =====
-- Four parameters in buckets of about 5 elements on 4 ranks.
use megatron_lm.Prelude.{
  ℕ, ◌≡◌, refl, true, false, some, List, [], ◌∷◌, ok, raise, unbound_local_error, assertion_error,
}
use megatron_lm.Bucket.{contains}
use megatron_lm.GradBuffer.{
  Param, Place, Config, pad_if_needed, Layout, initial, closes, place, place_all, close_at,
  close_last, lay_out, check_unique,
}

abbrev config : Config
config = record {
  bucket_size = some 5;
  data_parallel_world_size = 4;
  data_parallel_rank = 1;
  overlap_grad_reduce = true;
  use_distributed_optimizer = true;
}

abbrev param : ℕ → ℕ → Param
param i n = record { ident = i; numel = n; requires_grad = true }

abbrev params : List Param
params =
    param 0 3
    ∷ param 1 4
    ∷ record { ident = 2; numel = 9; requires_grad = false }
    ∷ param 3 1
    ∷ param 4 6
    ∷ []

abbrev at : ℕ → ℕ → ℕ → Place
at s e b = record { start = s; end = e; bucket_id = b }

abbrev planned : Layout
planned = record {
  data_start_index = 16;
  data_end_index = some 16;
  bucket_data_start_index = 16;
  bucket_params = [];
  bucket_indices = (0, 8) ∷ (8, 16) ∷ [];
  bucket_id = 2;
  param_index_map = (4, at 0 6 0) ∷ (3, at 6 7 0) ∷ (1, at 8 12 1) ∷ (0, at 12 15 1) ∷ [];
}

program : Unit {0}
unfolding lay_out close_last close_at place_all place closes pad_if_needed initial check_unique
    contains
program = tt

lay_out-params : lay_out config params ≡ ok (planned, 16)
unfolding program
lay_out-params = refl

-- Without any parameter that requires a gradient the code reads an unbound variable.
lay_out-nil : lay_out config [] ≡ raise unbound_local_error
unfolding program
lay_out-nil = refl

lay_out_duplicate : lay_out config (param 0 1 ∷ param 0 1 ∷ []) ≡ raise assertion_error
unfolding program
lay_out_duplicate = refl
