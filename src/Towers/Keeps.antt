-- ===== src/Towers/Keeps.antt =====
-- Every handler of a tower manager, and so its update, keeps the territory invariant.
use codecharacter_simulator.Prelude.{
  ℕ, suc, ◌+◌, ◌==◌, ◌≡◌, ap, ap₂, sym, ◌∙◌, true, List, ℤ, pos, get_elem?, erase_at, length, ok,
  or_err, throw_if, out_of_range, undefined, ltb_ℤ, arith, >>=-eq-ok, subst, ok-injective,
  or_err-eq-ok,
}
use codecharacter_simulator.Physics.Double.{Double, IsMonotone}
use codecharacter_simulator.Physics.Vector.{Vector}
use codecharacter_simulator.Actor.Base.{Actor, ActorId, set_hp}
use codecharacter_simulator.Actor.Tower.{Tower, of_level, upgrade, set_tower_hp}
use codecharacter_simulator.Money.{decrease, reward_suicide}
use codecharacter_simulator.Map.{get_size}
use codecharacter_simulator.Towers.Defs.{
  TowerRules, TowerScene, Bounds, inside, bounds_of, calculate_bounds,
}
use codecharacter_simulator.Towers.Territory.{within, claim, claim_new, release}
use codecharacter_simulator.Towers.Cells.{
  cell, claim-SameShape, claim_new-SameShape, release-SameShape,
}
use codecharacter_simulator.Towers.Counts.{
  one_if, holds, holders, holders-append, holders-set, holders-set_erase, holders-erase, IsRising,
  inside-bounds_of, inside_mono,
}
use codecharacter_simulator.Towers.Invariant.{
  IsTerritory, Fits, claim-Fits, claim_new-Fits, release-Fits,
}
use codecharacter_simulator.Towers.Handlers.{
  build_one, upgrade_one, suicide_one, delete_one, bounds_in, land_of, last_index, new_tower,
}

module _ {D : Double} (r : TowerRules) where
  -- The number of holders, once the loops have run over a map of the same shape.
  same_holders :
      (ts : List (Tower D)) (i j : ℕ) {a a' : ℕ} {b b' : ℤ}
      → a' ≡ a
      → b' ≡ b
      → holders r a' b' ts i j ≡ holders r a b ts i j
  same_holders ts i j p q = ap₂ (λ x y. holders r x y ts i j) p q

  -- Building one tower keeps the territory right, if the round returns.
  pub build_one-IsTerritory :
      (v : Vector D) (s s' : TowerScene D)
      → IsTerritory r s
      → build_one r v s ≡ ok s'
      → IsTerritory r s'
  unfolding build_one
  build_one-IsTerritory v s s' h e =
      let (cost, e₁, k₁) = >>=-eq-ok (of_level r.build_costs 1) _ e in
      let (money, e₂, k₂) = >>=-eq-ok (decrease s.money s.manager.player_id cost) _ k₁ in
      let (max_hp, e₃, k₃) = >>=-eq-ok (of_level r.max_hp_levels 1) _ k₂ in
      let (b, e₄, k₄) =
        >>=-eq-ok
          (calculate_bounds r (get_size s.map) s.map.element_size (new_tower s max_hp s.next_id v))
          _ k₃ in
      let (size, es) = claim-SameShape s.manager.player_id b (land_of s) in
      subst (IsTerritory r) (ok-injective k₄) λ i j.
        subst (Fits s.manager.player_id (cell (claim s.manager.player_id b (land_of s)) i j))
          (sym (
            same_holders _ i j size es
            ∙ holders-append r (get_size s.map) s.map.element_size s.manager.towers _ i j
            ∙ ap
                (λ c. one_if c + holders r (get_size s.map) s.map.element_size s.manager.towers i j)
                (ap (holds i j) e₄)))
          (claim-Fits s.manager.player_id b (land_of s) i j _ (h i j))

  -- Taking one tower out of the manager keeps the territory right, if the round returns: the
  -- cells that no other tower holds are nobody's.
  pub delete_one-IsTerritory :
      (k : ℕ) (s s' : TowerScene D) → IsTerritory r s → delete_one r k s ≡ ok s' → IsTerritory r s'
  unfolding delete_one
  delete_one-IsTerritory k s s' h e =
      let (t, e₁, k₁) = >>=-eq-ok (or_err (get_elem? s.manager.towers k) undefined) _ e in
      let (b, e₂, k₂) = >>=-eq-ok (bounds_in r s t) _ k₁ in
      let (size, es) = release-SameShape s.manager.player_id b (land_of s) in
      subst (IsTerritory r) (ok-injective k₂) λ i j.
        subst (Fits s.manager.player_id (cell (release s.manager.player_id b (land_of s)) i j))
          (sym (same_holders _ i j size es))
          (release-Fits s.manager.player_id b (land_of s) i j _ (
            subst (Fits s.manager.player_id (cell (land_of s) i j))
              (sym (
                  holders-erase r (get_size s.map) s.map.element_size s.manager.towers k t i j
                    (or_err-eq-ok _ _ e₁))
                ∙ ap
                    (λ c.
                      one_if c
                      + holders r (get_size s.map) s.map.element_size (erase_at s.manager.towers k)
                          i j)
                    (ap (holds i j) e₂))
              (h i j)))

  -- Taking the hit points leaves a tower where it is.
  set_tower_hp_place :
      (t t' : Tower D) (hp : ℤ)
      → set_tower_hp t hp ≡ ok t'
      → (t'.position ≡ t.position) × (t'.tower_level ≡ t.tower_level)
  unfolding set_tower_hp set_hp
  set_tower_hp_place t t' hp e =
      let (a, e₁, k₁) = >>=-eq-ok (set_hp t.actor hp) _ e in
      let (_, e₂, k₂) = >>=-eq-ok (throw_if (ltb_ℤ hp (pos 0)) out_of_range) _ e₁ in
      let (_, e₃, k₃) = >>=-eq-ok (throw_if (ltb_ℤ t.max_hp hp) out_of_range) _ k₂ in
      (
        ap (λ (x : Tower D). x.position) (sym (ok-injective k₁))
            ∙ ap (λ (x : Actor D). x.position) (sym (ok-injective k₃)),
        ap (λ (x : Tower D). x.tower_level) (sym (ok-injective k₁)),
      )

  pub bounds_same :
      (size : ℕ) (es : ℤ) (t t' : Tower D)
      → t'.position ≡ t.position
      → t'.tower_level ≡ t.tower_level
      → calculate_bounds r size es t' ≡ calculate_bounds r size es t
  unfolding calculate_bounds
  bounds_same size es t t' e q = rw (e, q)

  -- The suicide of one tower keeps the territory right, if the round returns: the tower keeps its
  -- cells until it is deleted.
  pub suicide_one-IsTerritory :
      (id : ActorId) (s s' : TowerScene D)
      → IsTerritory r s
      → suicide_one r id s ≡ ok s'
      → IsTerritory r s'
  unfolding suicide_one
  suicide_one-IsTerritory id s s' h e =
      let (k, e₁, k₁) = >>=-eq-ok (or_err (last_index s.manager.towers id) out_of_range) _ e in
      let (t, e₂, k₂) = >>=-eq-ok (or_err (get_elem? s.manager.towers k) undefined) _ k₁ in
      let (t', e₃, k₃) = >>=-eq-ok (set_tower_hp t (pos 0)) _ k₂ in
      let (money, e₄, k₄) = >>=-eq-ok (reward_suicide s.money t') _ k₃ in
      let (p, l) = set_tower_hp_place t t' (pos 0) e₃ in
      subst (IsTerritory r) (ok-injective k₄) λ i j.
        subst (Fits s.manager.player_id (cell (land_of s) i j))
          (omega (
            arith,
            holders-set r (get_size s.map) s.map.element_size s.manager.towers k t t' i j
                (or_err-eq-ok _ _ e₂),
            ap (λ c. one_if (holds i j c))
                (bounds_same (get_size s.map) s.map.element_size t t' p l),
          ))
          (h i j)

  -- An upgraded tower stands where it stood, one level higher.
  upgrade_place :
      (levels : List ℤ) (t t' : Tower D)
      → upgrade levels t ≡ ok t'
      → (t'.position ≡ t.position) × (t'.tower_level ≡ suc t.tower_level)
  unfolding upgrade
  upgrade_place levels t t' e =
      let (hp, e₁, k₁) = >>=-eq-ok (of_level levels (suc t.tower_level)) _ e in
      (
        ap (λ (x : Tower D). x.position) (sym (ok-injective k₁)),
        ap (λ (x : Tower D). x.tower_level) (sym (ok-injective k₁)),
      )

  -- The bounds of a tower are those of the range of its level.
  bounds_level :
      (size : ℕ) (es : ℤ) (t : Tower D) (b : Bounds)
      → calculate_bounds r size es t ≡ ok b
      → (a : ℤ) × (of_level r.tower_ranges t.tower_level ≡ ok a)
        × (b ≡ bounds_of (pos size) es t.position a)
  unfolding calculate_bounds
  bounds_level size es t b e =
      let (a, e₁, k₁) = >>=-eq-ok (of_level r.tower_ranges t.tower_level) _ e in
      (a, e₁, sym (ok-injective k₁))

  module _ (mono : IsMonotone D) (rising : IsRising r.tower_ranges) where
    -- The bounds grow with the level.
    grows :
        (size : ℕ) (es : ℤ) (t t' : Tower D) (old new : Bounds) (i j : ℕ)
        → t'.position ≡ t.position
        → t'.tower_level ≡ suc t.tower_level
        → calculate_bounds r size es t ≡ ok old
        → calculate_bounds r size es t' ≡ ok new
        → (inside old i j ≡ within old i j) × (inside old i j ≡ true → inside new i j ≡ true)
    grows size es t t' old new i j p l e e' =
        let (a, ea, ba) = bounds_level size es t old e in
        let (b, eb, bb) = bounds_level size es t' new e' in
        (
          subst (λ (x : Bounds). inside x i j ≡ within x i j) (sym ba)
              (inside-bounds_of (pos size) es t.position a i j),
          λ o.
              subst (λ (x : Bounds). inside x i j ≡ true)
                (sym (bb ∙ ap (λ v. bounds_of (pos size) es v b) p))
                (inside_mono (pos size) es t.position mono a b i j
                  (rising t.tower_level a b ea (subst (λ n. of_level r.tower_ranges n ≡ ok b) l eb))
                  (subst (λ (x : Bounds). inside x i j ≡ true) ba o)),
        )

    -- Where conversion and addition of `double`s are monotone and no range shrinks with the
    -- level, upgrading one tower keeps the territory right, if the round returns: cells of the
    -- old range are not counted twice.
    pub upgrade_one-IsTerritory :
        (id : ActorId) (s s' : TowerScene D)
        → IsTerritory r s
        → upgrade_one r id s ≡ ok s'
        → IsTerritory r s'
    unfolding upgrade_one
    upgrade_one-IsTerritory id s s' h e =
        let (k, e₁, k₁) = >>=-eq-ok (or_err (last_index s.manager.towers id) out_of_range) _ e in
        let (t, e₂, k₂) = >>=-eq-ok (or_err (get_elem? s.manager.towers k) undefined) _ k₁ in
        let (_, e₃, k₃) =
          >>=-eq-ok (throw_if (t.tower_level == length r.build_costs) out_of_range) _ k₂ in
        let (cost, e₄, k₄) = >>=-eq-ok (of_level r.build_costs (suc t.tower_level)) _ k₃ in
        let (money, e₅, k₅) = >>=-eq-ok (decrease s.money s.manager.player_id cost) _ k₄ in
        let (old, e₆, k₆) = >>=-eq-ok (bounds_in r s t) _ k₅ in
        let (t', e₇, k₇) = >>=-eq-ok (upgrade r.max_hp_levels t) _ k₆ in
        let (new, e₈, k₈) = >>=-eq-ok (bounds_in r s t') _ k₇ in
        let (p, l) = upgrade_place r.max_hp_levels t t' e₇ in
        let owner = s.manager.player_id in
        let (size, es) = claim_new-SameShape owner old new (land_of s) in
        let others = λ (i j : ℕ).
          holders r (get_size s.map) s.map.element_size (erase_at s.manager.towers k) i j in
        subst (IsTerritory r) (ok-injective k₈) λ i j.
          let (w, m) = grows (get_size s.map) s.map.element_size t t' old new i j p l e₆ e₈ in
          subst (Fits owner (cell (claim_new owner old new (land_of s)) i j))
            (sym (
              same_holders _ i j size es
              ∙ holders-set_erase r (get_size s.map) s.map.element_size s.manager.towers k t t' i j
                  (or_err-eq-ok _ _ e₂)
              ∙ ap (λ c. one_if (holds i j c) + others i j) e₈))
            (claim_new-Fits owner old new (land_of s) i j (others i j) w m (
              subst (Fits owner (cell (land_of s) i j))
                (sym (
                    holders-erase r (get_size s.map) s.map.element_size s.manager.towers k t i j
                      (or_err-eq-ok _ _ e₂))
                  ∙ ap (λ c. one_if (holds i j c) + others i j) e₆)
                (h i j)))
