-- ===== src/Prelude/Results.antt =====
-- The outcome of a Python call that may raise, and the operators on numbers that raise.
use Prim.Native.Nat.{ℕ, ◌/◌, ◌%◌}
use mathlib.Core.Path.{◌≡◌, refl, subst}
use mathlib.Core.Bool.{Bool, true, false}
use megatron_lm.Prelude.Tests.{◌==◌, if◌then◌else◌}

-- The classes of exception that the modelled code raises; `exception` is a bare `Exception`.
pub data Error : Type 0 where
  assertion_error runtime_error value_error zero_division_error : Error
  index_error key_error unbound_local_error exception : Error

pub data Result (A : Type 0) : Type 0 where
  ok : A → Result A
  raise : Error → Result A

-- The rest of a function after a call.
infixl 5 ◌>>=◌ ◌>>◌
abbrev pub ◌>>=◌ : {X Y : Type 0} → Result X → (X → Result Y) → Result Y
raise error >>= rest = raise error
ok value >>= rest = rest value

abbrev pub ◌>>◌ : {Y : Type 0} → Result (Unit {0}) → Result Y → Result Y
check >> rest = check >>= (λ nothing. rest)

-- `assert b`
abbrev pub assert : Bool → Result (Unit {0})
assert false = raise assertion_error
assert true = ok tt

-- `if b: raise e`
abbrev pub raise_if : Bool → Error → Result (Unit {0})
raise_if false error = ok tt
raise_if true error = raise error

-- `a // b` and `a % b`
abbrev pub floor_div : ℕ → ℕ → Result ℕ
floor_div a b = if b == 0 then raise zero_division_error else ok (a / b)

abbrev pub modulo : ℕ → ℕ → Result ℕ
modulo a b = if b == 0 then raise zero_division_error else ok (a % b)

-- A call and the rest of the function have both returned.
pub >>=-eq-ok :
    {X Y : Type 0} (call : Result X) (rest : X → Result Y) {y : Y}
    → call >>= rest ≡ ok y
    → (x : X) × (call ≡ ok x) × (rest x ≡ ok y)
>>=-eq-ok (raise error) rest returned = cc
>>=-eq-ok (ok x) rest returned = (x, refl, returned)

pub ok_inj : {A : Type 0} {a b : A} → ok a ≡ ok b → a ≡ b
ok_inj h = cc

-- An assertion that holds lets the code go on.
pub assert-ok :
    {A : Type 0} (b : Bool) (a : A) → b ≡ true → (x : A) × ((assert b >>= λ _. ok a) ≡ ok x)
assert-ok b a h = (a, rw h)

-- The value of a call that returns meets `P`.
abbrev pub Ensures : {A : Type 0} → (A → Type 0) → Result A → Type 0
Ensures P (ok a) = P a
Ensures P (raise e) = Unit

pub Ensures-bind :
    {A B : Type 0} (P : B → Type 0) (r : Result A) (f : A → Result B)
    → ((a : A) → r ≡ ok a → Ensures P (f a))
    → Ensures P (r >>= f)
Ensures-bind P (ok a) f h = h a refl
Ensures-bind P (raise e) f h = tt

pub Ensures-ok : {A : Type 0} (P : A → Type 0) {r : Result A} {a : A} → Ensures P r → r ≡ ok a → P a
Ensures-ok P h e = subst (Ensures P) e h
