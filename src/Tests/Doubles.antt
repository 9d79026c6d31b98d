-- ===== src/Tests/Doubles.antt =====
-- Whole numbers in place of `double`, for concrete runs.
use codecharacter_simulator.Prelude.{
  ℕ, zero, suc, ◌*◌, ◌-◌, refl, leb, if◌then◌else◌, ℤ, pos, negsuc, ◌+ℤ◌, ◌-ℤ◌, ◌*ℤ◌, leb_ℤ, ltb_ℤ,
  eqb_ℤ, int_laws,
}
use codecharacter_simulator.Physics.Double.{Double, IsMonotone, IsExact}

-- The number of times `b` can be taken from `a`, in at most `k` steps.
unfoldable pub quotient : ℕ → ℕ → ℕ → ℕ
quotient zero a b = 0
quotient (suc k) a b = let rest = quotient k (a - b) b in if leb b a then suc rest else 0

abbrev div_ℤ : ℤ → ℤ → ℤ
div_ℤ (pos a) (pos b) = pos (quotient a a b)
div_ℤ _ _ = pos 0

-- The largest number up to `k` whose square is no larger than `n`.
unfoldable pub root : ℕ → ℕ → ℕ
root zero n = 0
root (suc k) n = let rest = root k n in if leb (suc k * suc k) n then suc k else rest

abbrev sqrt_ℤ : ℤ → ℤ
sqrt_ℤ (pos n) = pos (root n n)
sqrt_ℤ (negsuc n) = pos 0

abbrev pub whole : Double
whole = record {
  F = ℤ;
  of_int = λ a. a;
  to_int = λ a. a;
  add = λ a b. a +ℤ b;
  sub = λ a b. a -ℤ b;
  mul = λ a b. a *ℤ b;
  div = div_ℤ;
  sqrt = sqrt_ℤ;
  square = λ a. a *ℤ a;
  floor = λ a. a;
  ceil = λ a. a;
  eqb = eqb_ℤ;
  leb = leb_ℤ;
  ltb = ltb_ℤ;
}

pub whole-IsMonotone : IsMonotone whole
whole-IsMonotone = record {
  sub_mono = λ x r s h. omega int_laws;
  add_mono = λ x r s h. omega int_laws;
}

pub whole-IsExact : IsExact whole
whole-IsExact = record {
  leb_of_int = λ a b ha hb. refl;
  ltb_of_int = λ a b ha hb. refl;
  floor_of_int = λ a ha. refl;
  to_int-of_int = λ a ha. refl;
  sub_of_int = λ a b ha hb h. refl;
}
