-- ===== src/Prelude/Results.antt =====
-- Calls that may throw. `undefined` stands for undefined behaviour of C++: a null or dangling
-- pointer that is followed, an index out of range, a signed overflow.
use mathlib.Core.Path.{◌≡◌, refl, ap, ◌∙◌}
use mathlib.Core.Bool.{Bool, true, false}
use mathlib.Core.Option.{Option, none, some}
use mathlib.Core.Logic.{◌⊎◌, inl, inr}

pub data Error : Type 0 where
  out_of_range logic_error undefined out_of_fuel : Error

pub data Result {ℓ} (X : Type ℓ) : Type ℓ where
  err : Error → Result X
  ok : X → Result X

-- A value that must be there.
abbrev pub or_err {ℓ} : {X : Type ℓ} → Option X → Error → Result X
or_err (some x) e = ok x
or_err none e = err e

-- `if (c) throw e;`
abbrev pub throw_if : Bool → Error → Result (Unit {0})
throw_if c e = elim c [ true ↦ err e | false ↦ ok tt ]

infixl 5 ◌>>◌ ◌>>=◌
abbrev pub ◌>>=◌ {ℓ κ} : {X : Type ℓ} → {Y : Type κ} → Result X → (X → Result Y) → Result Y
err e >>= next = err e
ok x >>= next = next x

abbrev pub ◌>>◌ {ℓ} : {Y : Type ℓ} → Result (Unit {0}) → Result Y → Result Y
check >> next = check >>= (λ _. next)

pub Result-cases {ℓ} :
    {A : Type ℓ} (r : Result A) → ((a : A) × (r ≡ ok a)) ⊎ ((e : Error) × (r ≡ err e))
Result-cases (ok a) = inl (a, refl)
Result-cases (err e) = inr (e, refl)

-- Inversion of a successful bind.
pub >>=-eq-ok {ℓ κ} :
    {X : Type ℓ} {Y : Type κ} (run : Result X) (next : X → Result Y) {y : Y}
    → (run >>= next) ≡ ok y
    → (x : X) × (run ≡ ok x) × (next x ≡ ok y)
>>=-eq-ok (err e) next h = cc
>>=-eq-ok (ok x) next h = (x, refl, h)

pub ok-injective {ℓ} : {A : Type ℓ} {a b : A} → ok a ≡ ok b → a ≡ b
ok-injective h = cc

-- A bind on a run that succeeds.
pub >>=-ok {ℓ κ} :
    {X : Type ℓ} {Y : Type κ} (run : Result X) (next : X → Result Y) (x : X) {y : Result Y}
    → run ≡ ok x
    → next x ≡ y
    → (run >>= next) ≡ y
>>=-ok (err e) next x h k = cc
>>=-ok (ok a) next x h k = ap next (ok-injective h) ∙ k

pub or_err-eq-ok {ℓ} :
    {A : Type ℓ} {a : A} (e : Error) (o : Option A) → or_err o e ≡ ok a → o ≡ some a
or_err-eq-ok e none h = cc
or_err-eq-ok e (some a) h = ap some (ok-injective h)

-- Two binds, the first of which is split.
pub >>=-split {ℓ κ ι} :
    {X : Type ℓ} {Y : Type κ} {Z : Type ι} (run : Result X) (f : X → Result Y) (last : Y → Result Z)
    (whole : X → Result Z)
    → ((x : X) → whole x ≡ (f x >>= last))
    → (run >>= whole) ≡ ((run >>= f) >>= last)
>>=-split (err e) f last whole h = refl
>>=-split (ok x) f last whole h = h x
