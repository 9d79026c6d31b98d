-- ===== src/Prelude/Loops.antt =====
-- Counted loops, and what a double loop over the cells of a rectangle does to each cell.
use Prim.Native.Nat.{ℕ, zero, suc, ◌+◌, ◌≤◌, ◌<◌}
use mathlib.Core.Path.{◌≡◌, refl, sym, ap, subst, ◌∙◌}
use mathlib.Core.Logic.{◌≢◌, inl, inr}
use mathlib.Core.Bool.{Bool, ◌&&◌}
use native.Mathlib.Omega.{arith}
use codecharacter_simulator.Prelude.Tests.{ltb, leb, ◌==◌, if◌then◌else◌, Bool-cases}
use codecharacter_simulator.Prelude.Int.{ℤ, pos, ◌+ℤ◌, ◌-ℤ◌, ◌≤ℤ◌, leb_ℤ, pos_part}

-- `n` rounds of `body(i)` for `i` from `start` on.
unfoldable pub count_up {ℓ} : {S : Type ℓ} → ℕ → ℕ → (ℕ → S → S) → S → S
count_up zero start body s = s
count_up (suc n) start body s = count_up n (suc start) body (body start s)

-- The number of rounds of `for (int i = lo; i <= hi; ++i)`.
abbrev pub rounds : ℤ → ℤ → ℕ
rounds lo hi = pos_part (hi +ℤ pos 1 -ℤ lo)

-- `for (int i = lo; i <= hi; ++i) body(i)`, where `lo` is not negative.
abbrev pub for_each {ℓ} : {S : Type ℓ} → ℤ → ℤ → (ℕ → S → S) → S → S
for_each lo hi = count_up (rounds lo hi) (pos_part lo)

-- Whether the loop comes to `i`.
abbrev pub in_loop : ℤ → ℤ → ℕ → Bool
in_loop lo hi i = leb (pos_part lo) i && ltb i (pos_part lo + rounds lo hi)

-- An invariant of a loop.
pub count_up_inv {ℓ κ} :
    {S : Type ℓ} (P : S → Type κ) (n start : ℕ) (body : ℕ → S → S) (s : S)
    → ((i : ℕ) (t : S) → P t → P (body i t))
    → P s
    → P (count_up n start body s)
unfolding count_up
count_up_inv P zero start body s keep h = h
count_up_inv P (suc n) start body s keep h =
    count_up_inv P n (suc start) body (body start s) keep (keep start s h)

-- Of a state that is seen cell by cell, a body that changes the cell `(i, j)` alone.
abbrev pub IsLocal {ℓ κ} :
    {S : Type ℓ} {V : Type κ} → (S → ℕ → ℕ → V) → (ℕ → ℕ → S → S) → (ℕ → ℕ → V → V) → Type (ℓ ⊔ κ)
IsLocal {S = S} view body change =
    (i j a b : ℕ) (s : S)
    → view (body i j s) a b ≡ (if (i == a) && (j == b) then change a b (view s a b) else view s a b)

module _ {ℓ κ} {S : Type ℓ} {V : Type κ} (view : S → ℕ → ℕ → V) (body : ℕ → ℕ → S → S)
    (change : ℕ → ℕ → V → V) (local : IsLocal view body change) where
  row_lem :
      (n start i a b : ℕ) (s : S)
      → view (count_up n start (body i) s) a b ≡ (
          if (i == a) && (leb start b && ltb b (start + n))
          then change a b (view s a b)
          else view s a b)
  unfolding count_up
  row_lem zero start i a b s = ground arith
  row_lem (suc n) start i a b s =
      row_lem n (suc start) i a b (body i start s) ∙ ground (arith, local i start a b s)

  grid_lem :
      (n start m from a b : ℕ) (s : S)
      → view (count_up n start (λ i. count_up m from (body i)) s) a b ≡ (
          if (leb start a && ltb a (start + n)) && (leb from b && ltb b (from + m))
          then change a b (view s a b)
          else view s a b)
  unfolding count_up
  grid_lem zero start m from a b s = ground arith
  grid_lem (suc n) start m from a b s =
      grid_lem n (suc start) m from a b (count_up m from (body start) s)
      ∙ ground (arith, row_lem m from start a b s)

  -- A double loop changes each cell of its rectangle once, and no other.
  pub for_each_cell :
      (lo_x hi_x lo_y hi_y : ℤ) (a b : ℕ) (s : S)
      → view (for_each lo_x hi_x (λ i. for_each lo_y hi_y (body i)) s) a b ≡ (
          if in_loop lo_x hi_x a && in_loop lo_y hi_y b
          then change a b (view s a b)
          else view s a b)
  for_each_cell lo_x hi_x lo_y hi_y a b s =
      grid_lem (rounds lo_x hi_x) (pos_part lo_x) (rounds lo_y hi_y) (pos_part lo_y) a b s

-- From a start that is not negative the loop comes to the numbers between its bounds.
pub in_loop_lem :
    (lo hi : ℤ) (i : ℕ) → pos 0 ≤ℤ lo → in_loop lo hi i ≡ leb_ℤ lo (pos i) && leb_ℤ (pos i) hi
unfolding ◌+ℤ◌ ◌-ℤ◌
in_loop_lem lo hi i h = ground arith

-- What a loop does to a part of its state that at most one of its rounds changes, under an invariant.
module _ {ℓ κ ι} {S : Type ℓ} {V : Type κ} (P : S → Type ι) (view : S → V) (body : ℕ → S → S)
    (keep : (i : ℕ) (s : S) → P s → P (body i s)) where
  pub loop_misses :
      (n start : ℕ)
      → ((i : ℕ) (s : S) → P s → start ≤ i → i < start + n → view (body i s) ≡ view s)
      → (s : S) → P s
      → view (count_up n start body s) ≡ view s
  unfolding count_up
  loop_misses zero start miss s p = refl
  loop_misses (suc n) start miss s p =
      loop_misses n (suc start) (λ i t q lo hi. miss i t q (omega arith) (omega arith))
        (body start s) (keep start s p)
      ∙ miss start s p (omega arith) (omega arith)

  pub loop_once :
      (n start k : ℕ) (change : V → V)
      → start ≤ k
      → k < start + n
      → ((i : ℕ) (s : S) → P s → start ≤ i → i < start + n → i ≢ k → view (body i s) ≡ view s)
      → ((s : S) → P s → view (body k s) ≡ change (view s))
      → (s : S) → P s
      → view (count_up n start body s) ≡ change (view s)
  unfolding count_up
  loop_once zero start k change lo hi miss hit s p = let c : ⊥ = omega arith in elim c [ ]
  loop_once (suc n) start k change lo hi miss hit s p = elim (Bool-cases (start == k)) [
    | inl e ↦
        let here : start ≡ k = ground arith in
        loop_misses n (suc start)
          (λ i t q l h.
            miss i t q (omega arith) (omega arith) (λ same. let c : ⊥ = omega arith in elim c [ ]))
          (body start s) (keep start s p)
        ∙ subst (λ x. view (body x s) ≡ change (view s)) (sym here) (hit s p)
    | inr e ↦
        let later : suc start ≤ k = ground arith in
        loop_once n (suc start) k change later (omega arith)
          (λ i t q l h. miss i t q (omega arith) (omega arith)) hit (body start s) (keep start s p)
        ∙ ap change (
            miss start s p (omega arith) (omega arith)
              (λ same. let c : ⊥ = omega arith in elim c [ ]))
  ]
