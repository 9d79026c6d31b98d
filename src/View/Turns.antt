-- ===== src/View/Turns.antt =====
-- The loops of `FlipMap` over the pairs of cells.
use codecharacter_simulator.Prelude.{
  ℕ, ◌-◌, ◌/◌, ◌%◌, ◌<◌, ◌≡◌, ◌≢◌, sym, ◌∙◌, subst, count_up, arith, loop_misses, loop_once,
  count_up_inv,
}
use codecharacter_simulator.View.Flip.{PlayerMap, row_length, flip_pair, flip_row}
use codecharacter_simulator.View.Turned.{
  IsSquare, flip_pair-IsSquare, flip_row-IsSquare, exchange, pair_at, pair_hit, pair_missed,
}

module _ (n : ℕ) where
  -- A row above the middle exchanges the pairs that begin in it, and no others.
  row_hit :
      (g : PlayerMap) (i j : ℕ)
      → IsSquare n g
      → i < n / 2
      → j < n
      → pair_at n i j (flip_row n i g) ≡ exchange (pair_at n i j g)
  unfolding flip_row
  row_hit g i j h hi hj =
      subst (λ k. pair_at n i j (count_up k 0 (flip_pair n i) g) ≡ exchange (pair_at n i j g))
        (sym (h.columns i (omega arith)))
        (loop_once (IsSquare n) (pair_at n i j) (flip_pair n i) (flip_pair-IsSquare n i) n 0 j
          exchange (omega arith) (omega arith)
          (λ k t q lo hi' ne.
            pair_missed n t i k i j q (omega arith) (omega arith) (omega arith) hj (ground arith)
              (ground arith) (ground arith))
          (λ t q. pair_hit n t i j q (omega arith) hj (ground arith)) g h)

  row_missed :
      (g : PlayerMap) (i a b : ℕ)
      → IsSquare n g
      → i < n / 2
      → a < n
      → b < n
      → i ≢ a
      → i ≢ n - 1 - a
      → pair_at n a b (flip_row n i g) ≡ pair_at n a b g
  unfolding flip_row
  row_missed g i a b h hi ha hb ne ne' =
      loop_misses (IsSquare n) (pair_at n a b) (flip_pair n i) (flip_pair-IsSquare n i)
        (row_length g i) 0
        (λ k t q lo hi'.
          pair_missed n t i k a b q (omega arith)
            (subst (λ m. k < m) (h.columns i (omega arith)) (omega arith)) ha hb (ground arith)
            (ground arith) (ground arith))
        g h

  abbrev pub halves : PlayerMap → PlayerMap
  halves g = count_up (n / 2) 0 (flip_row n) g

  abbrev pub middle : PlayerMap → PlayerMap
  middle g = count_up (n / 2) 0 (flip_pair n (n / 2)) g

  pub halves-IsSquare : (g : PlayerMap) → IsSquare n g → IsSquare n (halves g)
  halves-IsSquare g h = count_up_inv (IsSquare n) (n / 2) 0 (flip_row n) g (flip_row-IsSquare n) h

  pub halves_hit :
      (g : PlayerMap) (i j : ℕ)
      → IsSquare n g
      → i < n / 2
      → j < n
      → pair_at n i j (halves g) ≡ exchange (pair_at n i j g)
  halves_hit g i j h hi hj =
      loop_once (IsSquare n) (pair_at n i j) (flip_row n) (flip_row-IsSquare n) (n / 2) 0 i exchange
        (omega arith) (omega arith)
        (λ k t q lo hi' ne.
          row_missed t k i j q (omega arith) (omega arith) hj ne (λ e. omega arith))
        (λ t q. row_hit t i j q hi hj) g h

  pub halves_missed :
      (g : PlayerMap) (j : ℕ)
      → IsSquare n g
      → n % 2 ≡ 1
      → j < n
      → pair_at n (n / 2) j (halves g) ≡ pair_at n (n / 2) j g
  halves_missed g j h odd hj =
      loop_misses (IsSquare n) (pair_at n (n / 2) j) (flip_row n) (flip_row-IsSquare n) (n / 2) 0
        (λ k t q lo hi'.
          row_missed t k (n / 2) j q (omega arith) (omega arith) hj (λ e. omega arith)
            (λ e. omega arith))
        g h

  pub middle_hit :
      (g : PlayerMap) (j : ℕ)
      → IsSquare n g
      → n % 2 ≡ 1
      → j < n / 2
      → pair_at n (n / 2) j (middle g) ≡ exchange (pair_at n (n / 2) j g)
  middle_hit g j h odd hj =
      loop_once (IsSquare n) (pair_at n (n / 2) j) (flip_pair n (n / 2))
        (flip_pair-IsSquare n (n / 2)) (n / 2) 0 j exchange (omega arith) (omega arith)
        (λ k t q lo hi' ne.
          pair_missed n t (n / 2) k (n / 2) j q (omega arith) (omega arith) (omega arith)
            (omega arith) (ground arith) (ground arith) (ground arith))
        (λ t q. pair_hit n t (n / 2) j q (omega arith) (omega arith) (ground arith)) g h

  pub middle_missed :
      (g : PlayerMap) (i j : ℕ)
      → IsSquare n g
      → n % 2 ≡ 1
      → i < n / 2
      → j < n
      → pair_at n i j (middle g) ≡ pair_at n i j g
  middle_missed g i j h odd hi hj =
      loop_misses (IsSquare n) (pair_at n i j) (flip_pair n (n / 2)) (flip_pair-IsSquare n (n / 2))
        (n / 2) 0
        (λ k t q lo hi'.
          pair_missed n t (n / 2) k i j q (omega arith) (omega arith) (omega arith) hj
            (ground arith) (ground arith) (ground arith))
        g h

  -- The loops never come to the middle cell of an odd map.
  pub center_missed :
      (g : PlayerMap)
      → IsSquare n g
      → n % 2 ≡ 1
      → pair_at n (n / 2) (n / 2) (middle (halves g)) ≡ pair_at n (n / 2) (n / 2) g
  center_missed g h odd =
      loop_misses (IsSquare n) (pair_at n (n / 2) (n / 2)) (flip_pair n (n / 2))
        (flip_pair-IsSquare n (n / 2)) (n / 2) 0
        (λ k t q lo hi'.
          pair_missed n t (n / 2) k (n / 2) (n / 2) q (omega arith) (omega arith) (omega arith)
            (omega arith) (ground arith) (ground arith) (ground arith))
        (halves g) (halves-IsSquare g h)
      ∙ halves_missed g (n / 2) h odd (omega arith)
