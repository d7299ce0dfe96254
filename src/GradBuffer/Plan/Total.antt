-- ===== src/GradBuffer/Plan/Total.antt =====
-- When the layout succeeds.
use megatron_lm.Prelude.{ℕ, ◌≡◌, ◌⊎◌, true, some, List, [], ◌∷◌}
use megatron_lm.GradBuffer.{Param, Layout}

-- Some parameter requires a gradient.
abbrev pub Trains : List Param → Type 0
Trains [] = ⊥
Trains (p ∷ ps) = (p.requires_grad ≡ true) ⊎ Trains ps

abbrev HasEnd : Layout → Type 0
HasEnd l = (d : ℕ) × (l.data_end_index ≡ some d)
