-- ===== src/Towers/Invariant.antt =====
-- The territory invariant: the reference count of every cell is the number of the manager's towers
-- that hold it, and the player owns the cell exactly if there is one. Every handler keeps it.
use codecharacter_simulator.Prelude.{
  ℕ, suc, ◌+◌, ◌≡◌, refl, ap, sym, ◌∙◌, true, false, ℤ, pos, ◌-ℤ◌, Option, none, some,
  if◌then◌else◌, arith, int_laws, ltb, Bool-cases, inl, inr, subst, eqb_ℤ, if_yes, if_no,
}
use codecharacter_simulator.Players.{PlayerId, player1, player2, at}
use codecharacter_simulator.Physics.Double.{Double}
use codecharacter_simulator.Map.{MapElement, set_ownership, get_size}
use codecharacter_simulator.Towers.Defs.{TowerRules, TowerScene, Bounds, inside}
use codecharacter_simulator.Towers.Territory.{Land, within, claim, claim_new, release}
use codecharacter_simulator.Towers.Cells.{
  Cell, cell, claimed, released, cell-claim, cell-claim_new, cell-release,
}
use codecharacter_simulator.Towers.Counts.{one_if, holders}
use codecharacter_simulator.Towers.Handlers.{land_of}

module _ {D : Double} where
  -- A cell that `n` towers of the player hold. Both tables have the cell, or neither has.
  abbrev pub FitsAt : PlayerId → Option ℤ → Option (MapElement D) → ℕ → Type 0
  FitsAt p (some k) (some e) n = (k ≡ pos n) × (at e.ownership p ≡ ltb 0 n)
  FitsAt p none none n = Unit {0}
  FitsAt p (some k) none n = ⊥
  FitsAt p none (some e) n = ⊥

  abbrev pub Fits : PlayerId → Cell D → ℕ → Type 0
  Fits p c n = FitsAt p c.count c.element n

  abbrev pub IsTerritory : TowerRules → TowerScene D → Type 0
  IsTerritory r s =
      (i j : ℕ)
      → Fits s.manager.player_id (cell (land_of s) i j)
          (holders r (get_size s.map) s.map.element_size s.manager.towers i j)

  claimed-Fits :
      (p : PlayerId) (k : Option ℤ) (e : Option (MapElement D)) (n : ℕ)
      → FitsAt p k e n
      → Fits p (claimed p (record { count = k; element = e })) (suc n)
  claimed-Fits player1 (some k) (some e) n h = (grind int_laws, grind int_laws)
  claimed-Fits player2 (some k) (some e) n h = (grind int_laws, grind int_laws)
  claimed-Fits p none none n h = tt
  claimed-Fits p none (some e) n h = h
  claimed-Fits p (some k) none n h = h

  own_left :
      (p : PlayerId) (k : ℤ) (e : MapElement D) (n : ℕ)
      → k ≡ pos n
      → at e.ownership p ≡ true
      → FitsAt p (some k) (if eqb_ℤ k (pos 0) then some (set_ownership p false e) else some e) n
  own_left player1 k e n h o = ground arith
  own_left player2 k e n h o = ground arith

  released-Fits :
      (p : PlayerId) (k : Option ℤ) (e : Option (MapElement D)) (n : ℕ)
      → FitsAt p k e (suc n)
      → Fits p (released p (record { count = k; element = e })) n
  released-Fits p (some k) (some e) n h =
      own_left p (k -ℤ pos 1) e n (ap (λ (z : ℤ). z -ℤ pos 1) h.0 ∙ omega int_laws)
        (h.1 ∙ ground arith)
  released-Fits p none none n h = tt
  released-Fits p none (some e) n h = h
  released-Fits p (some k) none n h = absurd h

  -- A cell that is equal to one that fits.
  Fits-of : (p : PlayerId) {c c' : Cell D} {n m : ℕ} → c' ≡ c → m ≡ n → Fits p c n → Fits p c' m
  Fits-of p {n = n} {m = m} e q h = subst (λ x. Fits p x m) (sym e) (subst (Fits p _) (sym q) h)

  pub claim-Fits :
      (p : PlayerId) (b : Bounds) (l : Land D) (i j n : ℕ)
      → Fits p (cell l i j) n
      → Fits p (cell (claim p b l) i j) (one_if (inside b i j) + n)
  claim-Fits p b l i j n h = elim (Bool-cases (inside b i j)) [
    | inl c ↦
        Fits-of p (cell-claim p b l i j ∙ if_yes _ _ _ c) (omega (arith, ap one_if c))
          (claimed-Fits p _ _ n h)
    | inr c ↦ Fits-of p (cell-claim p b l i j ∙ if_no _ _ _ c) (omega (arith, ap one_if c)) h
  ]

  -- With the old bounds inside the new ones.
  pub claim_new-Fits :
      (p : PlayerId) (old b : Bounds) (l : Land D) (i j n : ℕ)
      → inside old i j ≡ within old i j
      → (inside old i j ≡ true → inside b i j ≡ true)
      → Fits p (cell l i j) (one_if (inside old i j) + n)
      → Fits p (cell (claim_new p old b l) i j) (one_if (inside b i j) + n)
  claim_new-Fits p old b l i j n w m h = elim (Bool-cases (inside old i j)) [
    | inl o ↦
        Fits-of p (cell-claim_new p old b l i j ∙ if_yes _ _ _ (m o) ∙ if_yes _ _ _ (sym w ∙ o))
          (omega (arith, ap one_if o, ap one_if (m o))) h
    | inr o ↦ elim (Bool-cases (inside b i j)) [
      | inl c ↦
          Fits-of p (cell-claim_new p old b l i j ∙ if_yes _ _ _ c ∙ if_no _ _ _ (sym w ∙ o))
            (omega (arith, ap one_if c))
            (claimed-Fits p _ _ n (subst (Fits p (cell l i j)) (omega (arith, ap one_if o)) h))
      | inr c ↦
          Fits-of p (cell-claim_new p old b l i j ∙ if_no _ _ _ c)
            (omega (arith, ap one_if o, ap one_if c)) h
    ]
  ]

  pub release-Fits :
      (p : PlayerId) (b : Bounds) (l : Land D) (i j n : ℕ)
      → Fits p (cell l i j) (one_if (inside b i j) + n)
      → Fits p (cell (release p b l) i j) n
  release-Fits p b l i j n h = elim (Bool-cases (inside b i j)) [
    | inl c ↦
        Fits-of p (cell-release p b l i j ∙ if_yes _ _ _ c) refl
          (released-Fits p _ _ n (subst (Fits p (cell l i j)) (omega (arith, ap one_if c)) h))
    | inr c ↦ Fits-of p (cell-release p b l i j ∙ if_no _ _ _ c) (omega (arith, ap one_if c)) h
  ]
