-- ===== src/Physics/Vector.antt =====
-- physics/include/physics/vector.h and physics/src/vector.cpp, over the `double` of the compiler.
use codecharacter_simulator.Prelude.{Bool, ◌&&◌, not, ℤ}
use codecharacter_simulator.Physics.Double.{Double}

pub record Vector (D : Double) : Type 0 where
  pub x : D.F
  pub y : D.F

module _ (D : Double) where
  open D use {F, of_int, add, sub, mul, div, sqrt, square, floor as floor_of, ceil as ceil_of, eqb}

  -- A vector of two integers, as `Vector(i, j)` converts them.
  abbrev pub of_ints : ℤ → ℤ → Vector D
  of_ints i j = record { x = of_int i; y = of_int j }

  -- `operator==` and `operator!=`.
  abbrev pub veq : Vector D → Vector D → Bool
  veq p q = eqb p.x q.x && eqb p.y q.y

  abbrev pub vne : Vector D → Vector D → Bool
  vne p q = not (veq p q)

  -- `operator+` and `operator-` on two vectors.
  unfoldable pub vadd : Vector D → Vector D → Vector D
  vadd p q = record { x = add p.x q.x; y = add p.y q.y }

  unfoldable pub vsub : Vector D → Vector D → Vector D
  vsub p q = record { x = sub p.x q.x; y = sub p.y q.y }

  -- `operator*` and `operator/` by a scalar.
  unfoldable pub vscale : Vector D → F → Vector D
  vscale p k = record { x = mul p.x k; y = mul p.y k }

  unfoldable pub vdiv : Vector D → F → Vector D
  vdiv p k = record { x = div p.x k; y = div p.y k }

  unfoldable pub magnitude : Vector D → F
  magnitude p = sqrt (add (mul p.x p.x) (mul p.y p.y))

  unfoldable pub distance : Vector D → Vector D → F
  distance p q = sqrt (add (square (sub p.x q.x)) (square (sub p.y q.y)))

  unfoldable pub floor : Vector D → Vector D
  floor p = record { x = floor_of p.x; y = floor_of p.y }

  unfoldable pub ceil : Vector D → Vector D
  ceil p = record { x = ceil_of p.x; y = ceil_of p.y }
