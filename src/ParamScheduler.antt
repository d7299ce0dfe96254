-- ===== src/ParamScheduler.antt =====
-- megatron/optimizer_param_scheduler.py: `OptimizerParamScheduler`, which sets the learning rate and
-- the weight decay of the optimizer's parameter groups. Numbers of steps are natural numbers; their
-- differences are taken only where they are not negative. The float operations are parameters.
-- Printing is left out.
pub mod Steps
pub mod Loaded
pub mod Total
mod Tests
use megatron_lm.Prelude.{
  ℕ, zero, suc, ◌+◌, ◌-◌, max, Bool, true, false, not, ◌&&◌, ltb, leb, ◌==◌, if◌then◌else◌, Option,
  none, some, List, [], ◌∷◌, map, Result, ok, raise, exception, key_error, zero_division_error,
  ◌>>=◌, ◌>>◌, assert,
}

-- Floats that are not NaN; `lt` and `same` are `<` and `==`, `root` is `n ** 0.5` of an int.
pub record Arithmetic : Type 1 where
  pub F : Type 0
  pub of_int : ℕ → F
  pub half : F
  pub add : F → F → F
  pub sub : F → F → F
  pub mul : F → F → F
  pub div : F → F → F
  pub lt : F → F → Bool
  pub le : F → F → Bool
  pub same : F → F → Bool
  pub root : ℕ → F
  pub pi : F
  pub cos : F → F

-- The strings that name how a value changes; `other` is any string that the code does not know.
pub data Style : Type 0 where
  constant linear cosine inverse_square_root : Style
  other : ℕ → Style

-- `==` on the strings.
pub same_style : Style → Style → Bool
same_style constant constant = true
same_style linear linear = true
same_style cosine cosine = true
same_style inverse_square_root inverse_square_root = true
same_style (other m) (other n) = m == n
same_style a b = false

module _ (floats : Arithmetic) where
  open floats use {F, of_int, half, add, sub, mul, div, lt, le, same, root, pi, cos}

  pub record Group : Type 0 where
    pub lr : F
    pub weight_decay : F
    pub lr_mult : Option F
    pub wd_mult : Option F

  pub record OptimizerParamScheduler : Type 0 where
    pub param_groups : List Group
    pub init_lr : F
    pub max_lr : F
    pub min_lr : F
    pub lr_warmup_steps : ℕ
    pub num_steps : ℕ
    pub lr_decay_steps : ℕ
    pub lr_decay_style : Style
    pub start_wd : F
    pub end_wd : F
    pub wd_incr_steps : ℕ
    pub wd_incr_style : Style
    pub override_opt_param_scheduler : Bool
    pub use_checkpoint_opt_param_scheduler : Bool

  -- `float(n) / float(d)`
  pub ratio_of : ℕ → ℕ → Result F
  ratio_of n d = if d == 0 then raise zero_division_error else ok (div (of_int n) (of_int d))

  -- `assert ratio >= 0.0`, `assert ratio <= 1.0`
  pub in_unit : F → Result (Unit {0})
  in_unit ratio = assert (le (of_int 0) ratio) >> assert (le ratio (of_int 1))

  -- `0.5 * (math.cos(math.pi * x) + 1.0)`
  pub half_cosine : F → F
  half_cosine x = mul half (add (cos (mul pi x)) (of_int 1))

  pub wd_coeff : Style → F → Result F
  unfolding half_cosine
  wd_coeff linear incr_ratio = ok incr_ratio
  wd_coeff cosine incr_ratio = ok (half_cosine (sub (of_int 1) incr_ratio))
  wd_coeff style incr_ratio = raise exception

  pub increasing_wd : OptimizerParamScheduler → Result F
  unfolding ratio_of in_unit wd_coeff
  increasing_wd s = do
    incr_ratio ← ratio_of s.num_steps s.wd_incr_steps
    in_unit incr_ratio
    coeff ← wd_coeff s.wd_incr_style incr_ratio
    ok (add s.start_wd (mul coeff (sub s.end_wd s.start_wd)))

  pub get_wd : OptimizerParamScheduler → Result F
  unfolding increasing_wd same_style
  get_wd s =
      if ltb s.wd_incr_steps s.num_steps
      then ok s.end_wd
      else (if same_style s.wd_incr_style constant
          then assert (same s.start_wd s.end_wd) >> ok s.end_wd
          else increasing_wd s)

  pub lr_coeff : Style → F → Result F
  unfolding half_cosine
  lr_coeff linear decay_ratio = ok (sub (of_int 1) decay_ratio)
  lr_coeff cosine decay_ratio = ok (half_cosine decay_ratio)
  lr_coeff style decay_ratio = raise exception

  pub warmup_lr : OptimizerParamScheduler → F
  warmup_lr s =
      add s.init_lr
        (div (mul (sub s.max_lr s.init_lr) (of_int s.num_steps)) (of_int s.lr_warmup_steps))

  -- `max(self.min_lr, lr)`, which is its first argument unless the second is greater.
  pub inverse_root_lr : OptimizerParamScheduler → F
  inverse_root_lr s =
      let lr = div (mul s.max_lr (root (max s.lr_warmup_steps 1))) (root (max s.num_steps 1)) in
      if lt s.min_lr lr then lr else s.min_lr

  pub decaying_lr : OptimizerParamScheduler → Result F
  unfolding ratio_of in_unit lr_coeff
  decaying_lr s = do
    decay_ratio ← ratio_of (s.num_steps - s.lr_warmup_steps) (s.lr_decay_steps - s.lr_warmup_steps)
    in_unit decay_ratio
    coeff ← lr_coeff s.lr_decay_style decay_ratio
    ok (add s.min_lr (mul coeff (sub s.max_lr s.min_lr)))

  pub get_lr : OptimizerParamScheduler → Result F
  unfolding warmup_lr inverse_root_lr decaying_lr same_style
  get_lr s =
      if ltb 0 s.lr_warmup_steps && leb s.num_steps s.lr_warmup_steps
      then ok (warmup_lr s)
      else (if same_style s.lr_decay_style constant
          then ok s.max_lr
          else (if ltb s.lr_decay_steps s.num_steps
              then ok s.min_lr
              else (if same_style s.lr_decay_style inverse_square_root
                  then ok (inverse_root_lr s)
                  else decaying_lr s)))

  -- `group.get(key, 1.0)`
  pub multiplier : Option F → F
  multiplier none = of_int 1
  multiplier (some m) = m

  pub set_group : F → F → Group → Group
  unfolding multiplier
  set_group new_lr new_wd g = record g {
    lr = mul new_lr (multiplier g.lr_mult);
    weight_decay = mul new_wd (multiplier g.wd_mult);
  }

  pub step : ℕ → OptimizerParamScheduler → Result OptimizerParamScheduler
  unfolding get_lr get_wd set_group
  step increment s =
      let stepped = record s { num_steps = s.num_steps + increment } in
      get_lr stepped >>= (λ new_lr. get_wd stepped >>= (λ new_wd.
        ok (record stepped { param_groups = map (set_group new_lr new_wd) s.param_groups })))

  -- The constructor: the fields but `num_steps`, which is 0, are those of `s`.
  pub init_scheduler : OptimizerParamScheduler → Result OptimizerParamScheduler
  unfolding step
  init_scheduler s = do
    assert (le (of_int 0) s.min_lr)
    assert (le s.min_lr s.max_lr)
    assert (le s.init_lr s.max_lr)
    assert (ltb 0 s.lr_decay_steps)
    assert (ltb s.lr_warmup_steps s.lr_decay_steps)
    assert (le (of_int 0) s.start_wd)
    assert (le s.start_wd s.end_wd)
    assert (not (s.override_opt_param_scheduler && s.use_checkpoint_opt_param_scheduler))
    step 0 (record s { num_steps = 0 })

  -- The keys that a state dictionary may have; the earlier names of a key come before it.
  pub record StateDict : Type 0 where
    pub start_lr : Option F
    pub max_lr : Option F
    pub min_lr : Option F
    pub warmup_iter : Option ℕ
    pub warmup_steps : Option ℕ
    pub lr_warmup_steps : Option ℕ
    pub end_iter : Option ℕ
    pub decay_steps : Option ℕ
    pub lr_decay_steps : Option ℕ
    pub decay_style : Option Style
    pub lr_decay_style : Option Style
    pub num_iters : Option ℕ
    pub num_steps : Option ℕ
    pub start_wd : Option F
    pub end_wd : Option F
    pub wd_incr_steps : Option ℕ
    pub wd_incr_style : Option Style

  pub state_dict : OptimizerParamScheduler → StateDict
  state_dict s = record {
    start_lr = none;
    max_lr = some s.max_lr;
    min_lr = some s.min_lr;
    warmup_iter = none;
    warmup_steps = none;
    lr_warmup_steps = some s.lr_warmup_steps;
    end_iter = none;
    decay_steps = none;
    lr_decay_steps = some s.lr_decay_steps;
    decay_style = none;
    lr_decay_style = some s.lr_decay_style;
    num_iters = none;
    num_steps = some s.num_steps;
    start_wd = some s.start_wd;
    end_wd = some s.end_wd;
    wd_incr_steps = some s.wd_incr_steps;
    wd_incr_style = some s.wd_incr_style;
  }

-- `sd[key]`, and `sd[earlier] if earlier in sd else ...`.
pub entry : {A : Type 0} → Option A → Result A
entry none = raise key_error
entry (some a) = ok a

pub first_of : {A : Type 0} → Option A → Result A → Result A
first_of none rest = rest
first_of (some a) rest = ok a

module _ (floats : Arithmetic) where
  open floats use {F, same}

  pub check_and_set :
      {A : Type 0} → (A → A → Bool) → OptimizerParamScheduler floats → A → A → Result A
  check_and_set equal s cls_value sd_value =
      if s.override_opt_param_scheduler
      then ok cls_value
      else (assert (if s.use_checkpoint_opt_param_scheduler then true else equal cls_value sd_value)
          >> ok sd_value)

  pub load_lr :
      StateDict floats → OptimizerParamScheduler floats → Result (OptimizerParamScheduler floats)
  unfolding check_and_set entry first_of same_style
  load_lr sd s = do
    max_lr_ ← first_of sd.start_lr (entry sd.max_lr)
    max_lr ← check_and_set same s s.max_lr max_lr_
    min_lr_ ← entry sd.min_lr
    min_lr ← check_and_set same s s.min_lr min_lr_
    warmup_ ← first_of sd.warmup_iter (first_of sd.warmup_steps (entry sd.lr_warmup_steps))
    warmup ← check_and_set (λ a b. a == b) s s.lr_warmup_steps warmup_
    decay_ ← first_of sd.end_iter (first_of sd.decay_steps (entry sd.lr_decay_steps))
    decay ← check_and_set (λ a b. a == b) s s.lr_decay_steps decay_
    style_ ← first_of sd.decay_style (entry sd.lr_decay_style)
    style ← check_and_set same_style s s.lr_decay_style style_
    ok (record s {
      max_lr = max_lr;
      min_lr = min_lr;
      lr_warmup_steps = warmup;
      lr_decay_steps = decay;
      lr_decay_style = style;
    })

  -- `if 'start_wd' in sd`
  pub load_wd :
      StateDict floats → OptimizerParamScheduler floats → Result (OptimizerParamScheduler floats)
  unfolding check_and_set entry same_style
  load_wd sd s = elim sd.start_wd [
    | none ↦ ok s
    | some start_wd_ ↦ do
      start_wd ← check_and_set same s s.start_wd start_wd_
      end_wd_ ← entry sd.end_wd
      end_wd ← check_and_set same s s.end_wd end_wd_
      steps_ ← entry sd.wd_incr_steps
      steps ← check_and_set (λ a b. a == b) s s.wd_incr_steps steps_
      style_ ← entry sd.wd_incr_style
      style ← check_and_set same_style s s.wd_incr_style style_
      ok (record s {
        start_wd = start_wd;
        end_wd = end_wd;
        wd_incr_steps = steps;
        wd_incr_style = style;
      })
  ]

  -- The steps are made before the values of the weight decay are read.
  pub load_state_dict :
      OptimizerParamScheduler floats → StateDict floats → Result (OptimizerParamScheduler floats)
  unfolding load_lr step load_wd first_of entry
  load_state_dict s sd = do
    loaded ← load_lr sd s
    num_steps ← first_of sd.num_iters (entry sd.num_steps)
    stepped ← step floats num_steps loaded
    load_wd sd stepped
