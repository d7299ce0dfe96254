-- ===== src/ParamScheduler/Steps.antt =====
-- Steps of the scheduler: what a step reads and keeps.
use native.Mathlib.Nat.{add-zero}
use megatron_lm.Prelude.{
  ℕ, ◌+◌, Bool, true, false, eq→==, List, [], ◌∷◌, map, Result, ok, raise, ◌>>=◌, ◌>>◌, >>=-eq-ok,
  ok_inj, assert, ◌≡◌, refl, sym, ap, ◌∙◌, subst, Option,
}
use megatron_lm.ParamScheduler.{
  Arithmetic, Style, constant, linear, cosine, inverse_square_root, other, multiplier, same_style,
  OptimizerParamScheduler, Group, set_group, get_lr, get_wd, step, warmup_lr, inverse_root_lr,
  decaying_lr, increasing_wd,
}

pub bind_cong :
    {A B : Type 0} (x y : Result A) (f g : A → Result B)
    → x ≡ y
    → ((a : A) → f a ≡ g a)
    → x >>= f ≡ y >>= g
bind_cong (ok a) y f g e h = h a ∙ ap (λ z. z >>= g) e
bind_cong (raise e') y f g e h = ap (λ z. z >>= g) e

pub bind_assoc :
    {A B C : Type 0} (x : Result A) (f : A → Result B) (g : B → Result C)
    → (x >>= f) >>= g ≡ x >>= (λ a. f a >>= g)
bind_assoc (ok a) f g = refl
bind_assoc (raise e) f g = refl

behind_assert : {A : Type 0} (b : Bool) (r : Result A) {a : A} → (assert b >> r) ≡ ok a → r ≡ ok a
behind_assert true r h = h
behind_assert false r h = cc

-- Assertions, and the rest of a function.
abbrev pub asserts : {A : Type 0} → List Bool → Result A → Result A
asserts [] r = r
asserts (b ∷ bs) r = assert b >> asserts bs r

pub behind_asserts :
    {A : Type 0} (bs : List Bool) (r : Result A) {a : A} → asserts bs r ≡ ok a → r ≡ ok a
behind_asserts [] r h = h
behind_asserts (b ∷ bs) r h = behind_asserts bs r (behind_assert b (asserts bs r) h)

pub same_style_refl : (s : Style) → same_style s s ≡ true
unfolding same_style
same_style_refl constant = refl
same_style_refl linear = refl
same_style_refl cosine = refl
same_style_refl inverse_square_root = refl
same_style_refl (other n) = eq→== n n refl

module _ (floats : Arithmetic) where
  open floats use {F, mul, same}

  unfoldable pub mults : Group floats → Option F × Option F
  mults g = (g.lr_mult, g.wd_mult)

  from_mults : F → F → Option F × Option F → Group floats
  from_mults lr wd m = record {
    lr = mul lr (multiplier floats m.0);
    weight_decay = mul wd (multiplier floats m.1);
    lr_mult = m.0;
    wd_mult = m.1;
  }

  map-from_mults :
      (lr wd : F) (gs : List (Group floats))
      → map (set_group floats lr wd) gs ≡ map (from_mults lr wd) (map mults gs)
  unfolding mults set_group from_mults
  map-from_mults lr wd [] = refl
  map-from_mults lr wd (g ∷ gs) = ap (λ t. set_group floats lr wd g ∷ t) (map-from_mults lr wd gs)

  -- Setting the groups reads only the multipliers.
  map-set_group :
      (lr wd : F) (gs hs : List (Group floats))
      → map mults gs ≡ map mults hs
      → map (set_group floats lr wd) gs ≡ map (set_group floats lr wd) hs
  map-set_group lr wd gs hs h =
      map-from_mults lr wd gs ∙ ap (map (from_mults lr wd)) h ∙ sym (map-from_mults lr wd hs)

  pub map-mults-set_group :
      (lr wd : F) (gs : List (Group floats))
      → map mults (map (set_group floats lr wd) gs) ≡ map mults gs
  unfolding mults set_group
  map-mults-set_group lr wd [] = refl
  map-mults-set_group lr wd (g ∷ gs) = ap (λ t. mults g ∷ t) (map-mults-set_group lr wd gs)

  -- The scheduler without the two flags, which only the loading reads.
  unfoldable pub forget : OptimizerParamScheduler floats → OptimizerParamScheduler floats
  forget s = record s {
    override_opt_param_scheduler = false;
    use_checkpoint_opt_param_scheduler = false;
  }

  abbrev pub with_groups :
      List (Group floats) → OptimizerParamScheduler floats → OptimizerParamScheduler floats
  with_groups gs s = record s { param_groups = gs }

  get_lr-with_groups :
      (gs : List (Group floats)) (s : OptimizerParamScheduler floats)
      → get_lr floats (with_groups gs s) ≡ get_lr floats s
  unfolding get_lr warmup_lr inverse_root_lr decaying_lr
  get_lr-with_groups gs s = refl

  get_wd-with_groups :
      (gs : List (Group floats)) (s : OptimizerParamScheduler floats)
      → get_wd floats (with_groups gs s) ≡ get_wd floats s
  unfolding get_wd increasing_wd
  get_wd-with_groups gs s = refl

  get_lr-forget : (s : OptimizerParamScheduler floats) → get_lr floats (forget s) ≡ get_lr floats s
  unfolding forget get_lr warmup_lr inverse_root_lr decaying_lr
  get_lr-forget s = refl

  get_wd-forget : (s : OptimizerParamScheduler floats) → get_wd floats (forget s) ≡ get_wd floats s
  unfolding forget get_wd increasing_wd
  get_wd-forget s = refl

  pub step-with_groups :
      (k : ℕ) (gs : List (Group floats)) (s : OptimizerParamScheduler floats)
      → map mults gs ≡ map mults s.param_groups
      → step floats k (with_groups gs s) ≡ step floats k s
  unfolding step
  step-with_groups k gs s h =
      let st : OptimizerParamScheduler floats = record s { num_steps = s.num_steps + k } in
      bind_cong (get_lr floats (with_groups gs st)) (get_lr floats st) _ _
        (get_lr-with_groups gs st)
        (λ lr.
          bind_cong (get_wd floats (with_groups gs st)) (get_wd floats st) _ _
            (get_wd-with_groups gs st)
            (λ wd. ap (λ x. ok (with_groups x st)) (map-set_group lr wd gs s.param_groups h)))

  pub step-forget :
      (k : ℕ) (s : OptimizerParamScheduler floats)
      → step floats k (forget s) ≡ step floats k s >>= (λ v. ok (forget v))
  unfolding step forget
  step-forget k s =
      let st : OptimizerParamScheduler floats = record s { num_steps = s.num_steps + k } in
      bind_cong (get_lr floats (forget st)) (get_lr floats st) _ _ (get_lr-forget st) (λ lr.
        bind_cong (get_wd floats (forget st)) (get_wd floats st) _ _ (get_wd-forget st) (λ wd. refl)
        ∙ sym (bind_assoc (get_wd floats st) _ _))
      ∙ sym (bind_assoc (get_lr floats st) _ _)

  -- `step` for each increment.
  unfoldable pub steps :
      List ℕ → OptimizerParamScheduler floats → Result (OptimizerParamScheduler floats)
  steps [] s = ok s
  steps (k ∷ ks) s = step floats k s >>= steps ks

  pub steps-forget :
      (ks : List ℕ) (s : OptimizerParamScheduler floats)
      → steps ks (forget s) ≡ steps ks s >>= (λ v. ok (forget v))
  unfolding steps
  steps-forget [] s = refl
  steps-forget (k ∷ ks) s =
      ap (λ x. x >>= steps ks) (step-forget k s)
      ∙ bind_assoc (step floats k s) _ _
      ∙ bind_cong (step floats k s) (step floats k s) _ _ refl (steps-forget ks)
      ∙ sym (bind_assoc (step floats k s) _ _)

  unfoldable pub stepped_by : ℕ → OptimizerParamScheduler floats → OptimizerParamScheduler floats
  stepped_by k s = record s { num_steps = s.num_steps + k }

  pub step-split :
      (k : ℕ) (s : OptimizerParamScheduler floats)
      → step floats 0 (stepped_by k s) ≡ step floats k s
  unfolding stepped_by step
  step-split k s = rw (add-zero (s.num_steps + k)) refl

  pub step-eq :
      (k : ℕ) (s t : OptimizerParamScheduler floats)
      → step floats k s ≡ ok t
      → (lr : F) × (wd : F) × (with_groups
            (map (set_group floats lr wd) s.param_groups)
            (stepped_by k s)
          ≡ t)
  unfolding stepped_by step
  step-eq k s t h =
      let (lr, has_lr, rest) = >>=-eq-ok (get_lr floats (stepped_by k s)) _ h in
      let (wd, has_wd, built) = >>=-eq-ok (get_wd floats (stepped_by k s)) _ rest in
      (lr, wd, ok_inj built)

  -- What a run of steps keeps.
  pub record Later (s t : OptimizerParamScheduler floats) : Type 0 where
    pub same_values : t ≡ record s { num_steps = t.num_steps; param_groups = t.param_groups }
    pub same_mults : map mults t.param_groups ≡ map mults s.param_groups
    pub just_set : step floats 0 t ≡ ok t

  pub step-Later :
      (k : ℕ) (s t : OptimizerParamScheduler floats) → step floats k s ≡ ok t → Later s t
  unfolding stepped_by
  step-Later k s t h =
      let (lr, wd, built) = step-eq k s t h in
      let gs = map (set_group floats lr wd) s.param_groups in
      let kept = map-mults-set_group lr wd s.param_groups in
      subst (Later s) built (record {
        same_values = refl;
        same_mults = kept;
        just_set =
            step-with_groups 0 gs (stepped_by k s) kept ∙ step-split k s ∙ h ∙ ap ok (sym built);
      })

  Later-trans : (s t u : OptimizerParamScheduler floats) → Later s t → Later t u → Later s u
  Later-trans s t u h k = record {
    same_values =
        k.same_values
        ∙ ap
            (λ (x : OptimizerParamScheduler floats). record x {
              num_steps = u.num_steps;
              param_groups = u.param_groups;
            })
            h.same_values;
    same_mults = k.same_mults ∙ h.same_mults;
    just_set = k.just_set;
  }

  pub steps-Later :
      (ks : List ℕ) (s t : OptimizerParamScheduler floats)
      → step floats 0 s ≡ ok s
      → steps ks s ≡ ok t
      → Later s t
  unfolding steps
  steps-Later [] s t set h =
      subst (Later s) (ok_inj h) (record { same_values = refl; same_mults = refl; just_set = set })
  steps-Later (k ∷ ks) s t set h =
      let (next, stepped, rest) = >>=-eq-ok (step floats k s) _ h in
      let first = step-Later k s next stepped in
      Later-trans s next t first (steps-Later ks next t first.just_set rest)
