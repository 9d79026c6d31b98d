-- ===== src/View/Around.antt =====
-- `FlipMap` as a whole: the map that player 2 sees.
use codecharacter_simulator.Prelude.{
  ℕ, ◌-◌, ◌/◌, ◌%◌, ◌<◌, ◌==◌, ◌≡◌, ◌≢◌, sym, ap, ap₂, ◌∙◌, subst, get_cell?, count_up_inv,
  if◌then◌else◌, if_yes, if_no, ltb, arith, Bool-cases, inl, inr, ◌⊎◌,
}
use mathlib.Core.Option
use codecharacter_simulator.View.Flip.{PlayerMap, swap_territory, flip_pair, flip_map}
use codecharacter_simulator.View.Turned.{IsSquare, flip_pair-IsSquare, exchange, pair_at, Pair}
use codecharacter_simulator.View.Turns.{
  halves, middle, halves_hit, halves_missed, middle_hit, middle_missed, halves-IsSquare,
  center_missed,
}

module _ (n : ℕ) where
  -- `FlipMap` with the size of the map written as a number.
  abbrev flipped : PlayerMap → PlayerMap
  flipped g = if n % 2 == 0 then halves n g else middle n (halves n g)

  flipped_upper :
      (g : PlayerMap) (i j : ℕ)
      → IsSquare n g
      → i < n / 2
      → j < n
      → pair_at n i j (flipped g) ≡ exchange (pair_at n i j g)
  flipped_upper g i j h hi hj = elim (Bool-cases (n % 2 == 0)) [
    | inl e ↦ ap (pair_at n i j) (if_yes (n % 2 == 0) _ _ e) ∙ halves_hit n g i j h hi hj
    | inr e ↦
        ap (pair_at n i j) (if_no (n % 2 == 0) _ _ e)
        ∙ middle_missed n (halves n g) i j (halves-IsSquare n g h) (ground arith) hi hj
        ∙ halves_hit n g i j h hi hj
  ]

  flipped_middle :
      (g : PlayerMap) (j : ℕ)
      → IsSquare n g
      → n % 2 ≡ 1
      → j < n / 2
      → pair_at n (n / 2) j (flipped g) ≡ exchange (pair_at n (n / 2) j g)
  flipped_middle g j h odd hj =
      ap (pair_at n (n / 2) j) (if_no (n % 2 == 0) _ _ (ground arith))
      ∙ middle_hit n (halves n g) j (halves-IsSquare n g h) odd hj
      ∙ ap exchange (halves_missed n g j h odd (omega arith))

  -- A cell is one of its pair, whichever the loops begin with.
  abbrev IsTurned : PlayerMap → ℕ → ℕ → Type 0
  IsTurned g i j =
      get_cell? (flipped g) i j ≡ Option.map swap_territory (get_cell? g (n - 1 - i) (n - 1 - j))

  first_of :
      (g : PlayerMap) (i j : ℕ)
      → pair_at n i j (flipped g) ≡ exchange (pair_at n i j g)
      → IsTurned g i j
  first_of g i j e = ap (λ (p : Pair). p.0) e

  second_of :
      (g : PlayerMap) (i j : ℕ)
      → i < n
      → j < n
      → pair_at n (n - 1 - i) (n - 1 - j) (flipped g)
        ≡ exchange (pair_at n (n - 1 - i) (n - 1 - j) g)
      → IsTurned g i j
  second_of g i j hi hj e =
      subst
        (λ (c : ℕ × ℕ).
          get_cell? (flipped g) c.0 c.1
          ≡ Option.map swap_territory (get_cell? g (n - 1 - i) (n - 1 - j)))
        (ap₂ (λ a b. (a, b)) (omega arith) (omega arith)) (ap (λ (p : Pair). p.1) e)

  middle-IsTurned :
      (g : PlayerMap) (j : ℕ)
      → IsSquare n g
      → n % 2 ≡ 1
      → j < n
      → j ≢ n - 1 - j
      → IsTurned g (n / 2) j
  middle-IsTurned g j h odd hj off = elim (Bool-cases (ltb j (n / 2))) [
    | inl e ↦ first_of g (n / 2) j (flipped_middle g j h odd (ground arith))
    | inr e ↦ second_of g (n / 2) j (omega arith) hj (
        subst (λ a. pair_at n a (n - 1 - j) (flipped g) ≡ exchange (pair_at n a (n - 1 - j) g))
          (omega arith) (flipped_middle g (n - 1 - j) h odd (ground arith)))
  ]

  turned :
      (g : PlayerMap) (i j : ℕ)
      → IsSquare n g
      → i < n
      → j < n
      → (i ≢ n - 1 - i) ⊎ (j ≢ n - 1 - j)
      → IsTurned g i j
  turned g i j h hi hj off = elim (Bool-cases (ltb i (n / 2))) [
    | inl e ↦ first_of g i j (flipped_upper g i j h (ground arith) hj)
    | inr e ↦ elim (Bool-cases (ltb (n - 1 - i) (n / 2))) [
      | inl e' ↦
          second_of g i j hi hj
            (flipped_upper g (n - 1 - i) (n - 1 - j) h (ground arith) (omega arith))
      | inr e' ↦
          let at_middle : n / 2 ≡ i = ground arith in
          subst (λ a. IsTurned g a j) at_middle
            (middle-IsTurned g j h (ground arith) hj
              (elim off [ inl ne ↦ absurd (ne (ground arith)) | inr ne ↦ ne ]))
    ]
  ]

-- `FlipMap` on a square map turns it around and exchanges the two territories: after it the cell
-- `(i, j)` is the cell `(n - 1 - i, n - 1 - j)` from before, with `territory` and `enemy_territory`
-- exchanged. That holds of every cell but the middle one of a map with an odd number of rows.
pub flip_map_lem :
    (n : ℕ) (g : PlayerMap) (i j : ℕ)
    → IsSquare n g
    → i < n
    → j < n
    → (i ≢ n - 1 - i) ⊎ (j ≢ n - 1 - j)
    → get_cell? (flip_map g) i j ≡ Option.map swap_territory (get_cell? g (n - 1 - i) (n - 1 - j))
unfolding flip_map
flip_map_lem n g i j h hi hj off =
    ap (λ k. get_cell? (flipped k g) i j) h.rows ∙ turned n g i j h hi hj off

-- On a square map with an odd number of rows the middle cell stays as it is: its `territory` and
-- `enemy_territory` are not exchanged.
pub flip_map_center :
    (n : ℕ) (g : PlayerMap)
    → IsSquare n g
    → n % 2 ≡ 1
    → get_cell? (flip_map g) (n / 2) (n / 2) ≡ get_cell? g (n / 2) (n / 2)
unfolding flip_map
flip_map_center n g h odd =
    ap (λ k. get_cell? (flipped k g) (n / 2) (n / 2)) h.rows
    ∙ ap (λ x. get_cell? x (n / 2) (n / 2)) (if_no (n % 2 == 0) _ _ (ground arith))
    ∙ ap (λ (p : Pair). p.0) (center_missed n g h odd)

pub flip_map-IsSquare : (n : ℕ) (g : PlayerMap) → IsSquare n g → IsSquare n (flip_map g)
unfolding flip_map
flip_map-IsSquare n g h =
    subst (λ k. IsSquare n (flipped k g)) (sym h.rows)
      (elim (Bool-cases (n % 2 == 0)) [
        | inl e ↦ subst (IsSquare n) (sym (if_yes (n % 2 == 0) _ _ e)) (halves-IsSquare n g h)
        | inr e ↦ subst (IsSquare n) (sym (if_no (n % 2 == 0) _ _ e)) (
            count_up_inv (IsSquare n) (n / 2) 0 (flip_pair n (n / 2)) (halves n g)
              (flip_pair-IsSquare n (n / 2)) (halves-IsSquare n g h))
      ])
