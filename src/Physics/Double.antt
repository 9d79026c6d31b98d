-- ===== src/Physics/Double.antt =====
-- The `double` of the C++ compiler and the functions of <cmath>, which are not part of the
-- repository. They are a parameter of the model: no definition makes up their values.
use codecharacter_simulator.Prelude.{◌≡◌, Bool, ℤ, pos, negsuc, ◌-ℤ◌, ◌≤ℤ◌, leb_ℤ, ltb_ℤ}

pub record Double : Type 1 where
  pub F : Type 0
  -- The conversion of an integer.
  pub of_int : ℤ → F
  -- `(int)x`, which drops the fraction.
  pub to_int : F → ℤ
  pub add : F → F → F
  pub sub : F → F → F
  pub mul : F → F → F
  pub div : F → F → F
  pub sqrt : F → F
  pub square : F → F
  pub floor : F → F
  pub ceil : F → F
  -- `x == y`, `x <= y` and `x < y`.
  pub eqb : F → F → Bool
  pub leb : F → F → Bool
  pub ltb : F → F → Bool

-- Moving by a larger whole number moves at least as far: rounding and truncation are monotone.
pub record IsMonotone (D : Double) : Type 0 where
  pub sub_mono :
      (x : D.F) (r s : ℤ)
      → r ≤ℤ s
      → D.to_int (D.sub x (D.of_int s)) ≤ℤ D.to_int (D.sub x (D.of_int r))
  pub add_mono :
      (x : D.F) (r s : ℤ)
      → r ≤ℤ s
      → D.to_int (D.add x (D.of_int r)) ≤ℤ D.to_int (D.add x (D.of_int s))

-- Every `int` converts to a `double` and back exactly, as IEEE 754 has it, and `int`s compare and are
-- subtracted as their `double`s are.
abbrev pub IsInt : ℤ → Type 0
IsInt a = (negsuc 2147483647 ≤ℤ a) × (a ≤ℤ pos 2147483647)

pub record IsExact (D : Double) : Type 0 where
  pub leb_of_int : (a b : ℤ) → IsInt a → IsInt b → D.leb (D.of_int a) (D.of_int b) ≡ leb_ℤ a b
  pub ltb_of_int : (a b : ℤ) → IsInt a → IsInt b → D.ltb (D.of_int a) (D.of_int b) ≡ ltb_ℤ a b
  pub floor_of_int : (a : ℤ) → IsInt a → D.floor (D.of_int a) ≡ D.of_int a
  pub to_int-of_int : (a : ℤ) → IsInt a → D.to_int (D.of_int a) ≡ a
  pub sub_of_int :
      (a b : ℤ)
      → IsInt a
      → IsInt b
      → IsInt (a -ℤ b)
      → D.sub (D.of_int a) (D.of_int b) ≡ D.of_int (a -ℤ b)
