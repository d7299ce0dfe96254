-- ===== src/GradBuffer/Plan.antt =====
-- The layout of a gradient buffer: its buckets tile the buffer, they start and end at multiples of
-- the world size for the distributed optimizer, and each parameter lies in its bucket.
pub mod Build
pub mod Total
use megatron_lm.Prelude.{
  none, assert, not, ◌&&◌, ◌==◌, ◌%◌, Ensures-bind, Ensures-ok, Ensures, some_inj, ℕ, suc, ◌+◌, ◌-◌,
  ◌≤◌, ◌<◌, ◌≡◌, ◌⊎◌, refl, sym, ◌∙◌, subst, inl, inr, true, false, ltb, some, List, [], ◌∷◌, ◌++◌,
  length, get_elem?, get_elem?-append, get_elem?-snoc, All, All-append, All-imp, length-append, ok,
  arith, Bool-cases, Option, Result,
}
use mathlib.Core.List.{reverse}
use native.Mathlib.Nat.{zero-mod, div-add-mod', mod-lt, mul-mod_left}
use megatron_lm.GradBuffer.{
  close_at, Param, Place, Config, pad_if_needed, Layout, initial, closes, place, place_all,
  close_last, lay_out, check_unique,
}

-- The bounds tile the interval from `a` to `b`.
abbrev pub Tiles : ℕ → List (ℕ × ℕ) → ℕ → Type 0
Tiles a [] b = a ≡ b
Tiles a ((s, e) ∷ bounds) b = (s ≡ a) × (s ≤ e) × Tiles e bounds b

-- The places follow one another, apart, between `a` and `b`.
abbrev pub AreApart : ℕ → List (ℕ × Place) → ℕ → Type 0
AreApart a [] b = a ≤ b
AreApart a ((i, p) ∷ places) b = (a ≤ p.start) × (p.start ≤ p.end) × AreApart p.end places b

pub Tiles-snoc :
    (a : ℕ) (bounds : List (ℕ × ℕ)) (b e : ℕ)
    → Tiles a bounds b
    → b ≤ e
    → Tiles a (bounds ++ (b, e) ∷ []) e
Tiles-snoc a [] b e h le = (sym h, le, refl)
Tiles-snoc a ((s, t) ∷ bounds) b e h le = (h.0, h.1, Tiles-snoc t bounds b e h.2 le)

pub AreApart-snoc :
    (a : ℕ) (places : List (ℕ × Place)) (b : ℕ) (i : ℕ) (p : Place) (e : ℕ)
    → AreApart a places b
    → b ≤ p.start
    → p.start ≤ p.end
    → p.end ≤ e
    → AreApart a (places ++ (i, p) ∷ []) e
AreApart-snoc a [] b i p e h h1 h2 h3 = (omega arith, h2, h3)
AreApart-snoc a ((j, q) ∷ places) b i p e h h1 h2 h3 =
    (h.0, h.1, AreApart-snoc q.end places b i p e h.2 h1 h2 h3)

pub AreApart-widen :
    (a : ℕ) (places : List (ℕ × Place)) (b e : ℕ)
    → AreApart a places b
    → b ≤ e
    → AreApart a places e
AreApart-widen a [] b e h le = omega arith
AreApart-widen a ((j, q) ∷ places) b e h le = (h.0, h.1, AreApart-widen q.end places b e h.2 le)

module _ (c : Config) (world : 0 < c.data_parallel_world_size) where
  pub pad-le : (n : ℕ) → n ≤ pad_if_needed c n
  unfolding pad_if_needed
  pad-le n = elim (Bool-cases c.use_distributed_optimizer) [
    | inl dist ↦
        let w = c.data_parallel_world_size in
        simp dist (omega (arith, div-add-mod' (n + (w - 1)) w, mod-lt (n + (w - 1)) world))
    | inr plain ↦ simp plain (omega arith)
  ]

  pub pad_even :
      (n : ℕ)
      → c.use_distributed_optimizer ≡ true
      → pad_if_needed c n % c.data_parallel_world_size ≡ 0
  unfolding pad_if_needed
  pad_even n dist = simp dist (mul-mod_left _ c.data_parallel_world_size)

  -- The bounds of a bucket are multiples of the world size, if the optimizer is distributed.
  abbrev pub IsEven : ℕ × ℕ → Type 0
  IsEven b =
      c.use_distributed_optimizer ≡ true
      → (b.0 % c.data_parallel_world_size ≡ 0) × (b.1 % c.data_parallel_world_size ≡ 0)

  -- The place lies in the bucket that it names.
  pub record LiesIn (bounds : List (ℕ × ℕ)) (e : ℕ × Place) : Type 0 where
    pub bucket : ℕ × ℕ
    pub found : get_elem? bounds e.1.bucket_id ≡ some bucket
    pub above : bucket.0 ≤ e.1.start
    pub below : e.1.end ≤ bucket.1

  -- It lies in a closed bucket, or in the one that is being filled.
  abbrev pub IsPlaced : Layout → ℕ × Place → Type 0
  IsPlaced l e =
      LiesIn l.bucket_indices e
      ⊎ ((e.1.bucket_id ≡ l.bucket_id)
          × (l.bucket_data_start_index ≤ e.1.start)
          × (e.1.end ≤ l.data_start_index))

  pub record IsValid (l : Layout) : Type 0 where
    pub tiles : Tiles 0 l.bucket_indices l.bucket_data_start_index
    pub count : length l.bucket_indices ≡ l.bucket_id
    pub start_le : l.bucket_data_start_index ≤ l.data_start_index
    start_even :
        c.use_distributed_optimizer ≡ true
        → l.bucket_data_start_index % c.data_parallel_world_size ≡ 0
    pub evens : All IsEven l.bucket_indices
    pub placed : All (IsPlaced l) l.param_index_map
    pub apart : AreApart 0 l.param_index_map l.data_start_index
    -- The last end is the next start, and with no open bucket that is where the next one starts.
    pub bound : (n : ℕ) → l.data_end_index ≡ some n → n ≡ l.data_start_index
    pub empty : l.bucket_params ≡ [] → l.bucket_data_start_index ≡ l.data_start_index
    pub open_only : l.bucket_params ≡ [] → All (LiesIn l.bucket_indices) l.param_index_map

  pub initial-IsValid : IsValid initial
  unfolding initial
  initial-IsValid = record {
    tiles = refl;
    count = refl;
    start_le = omega arith;
    start_even = λ d. zero-mod c.data_parallel_world_size;
    evens = tt;
    placed = tt;
    apart = omega arith;
    bound = λ n e. cc;
    empty = λ e. refl;
    open_only = λ e. tt;
  }

  pub LiesIn-append :
      (bounds : List (ℕ × ℕ)) (b : ℕ × ℕ) (e : ℕ × Place)
      → LiesIn bounds e
      → LiesIn (bounds ++ b ∷ []) e
  LiesIn-append bounds b e h = record {
    bucket = h.bucket;
    found = get_elem?-append bounds (b ∷ []) e.1.bucket_id h.found;
    above = h.above;
    below = h.below;
  }

  -- The entry that `place` adds.
  abbrev pub entry : Layout → Param → ℕ × Place
  entry l p = (
    p.ident,
    record {
      start = l.data_start_index;
      end = l.data_start_index + p.numel;
      bucket_id = l.bucket_id;
    },
  )

  pub settle :
      (l : Layout) (end : ℕ)
      → IsValid l
      → (e : ℕ × Place) → e.1.bucket_id ≡ l.bucket_id
      → l.bucket_data_start_index ≤ e.1.start
      → e.1.end ≤ end
      → LiesIn (l.bucket_indices ++ (l.bucket_data_start_index, end) ∷ []) e
  settle l end v e id above below = record {
    bucket = (l.bucket_data_start_index, end);
    found = rw (id, ← v.count) (get_elem?-snoc l.bucket_indices (l.bucket_data_start_index, end));
    above = above;
    below = below;
  }

  -- Closing a bucket settles the places in it.
  pub IsPlaced-close :
      (l : Layout) (end : ℕ)
      → IsValid l
      → l.data_start_index ≤ end
      → (e : ℕ × Place) → IsPlaced l e
      → LiesIn (l.bucket_indices ++ (l.bucket_data_start_index, end) ∷ []) e
  IsPlaced-close l end v le e (inl h) = LiesIn-append l.bucket_indices _ e h
  IsPlaced-close l end v le e (inr (id, above, below)) = settle l end v e id above (omega arith)
