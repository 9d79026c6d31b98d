-- ===== src/Towers/Updates.antt =====
-- A whole update of a tower manager: territory, and what it leaves of the towers and queues.
use codecharacter_simulator.Prelude.{◌≡◌, List, [], ◌∷◌, Result, ok, >>=-eq-ok, subst, ok-injective}
use codecharacter_simulator.Physics.Double.{Double, IsMonotone}
use codecharacter_simulator.Towers.Defs.{TowerRules, TowerScene}
use codecharacter_simulator.Towers.Counts.{IsRising}
use codecharacter_simulator.Towers.Invariant.{IsTerritory}
use codecharacter_simulator.Towers.Keeps.{
  build_one-IsTerritory, upgrade_one-IsTerritory, suicide_one-IsTerritory, delete_one-IsTerritory,
}
use codecharacter_simulator.Towers.Handlers.{
  build_one, upgrade_one, suicide_one, delete_one, drain, handle_tower_build_updates,
  handle_tower_upgrade_updates, handle_tower_suicide_updates, handle_tower_death_updates, update,
}

module _ {D : Double} where
  -- What every round of a loop over a queue keeps holds after the loop.
  pub drain_inv {ℓ κ} :
      {A : Type ℓ} (P : TowerScene D → Type κ) (f : A → TowerScene D → Result (TowerScene D))
      → ((x : A) (s s' : TowerScene D) → P s → f x s ≡ ok s' → P s')
      → (xs : List A) (s s' : TowerScene D) → P s
      → drain f xs s ≡ ok s'
      → P s'
  drain_inv P f keep [] s s' h e = subst P (ok-injective e) h
  drain_inv P f keep (x ∷ xs) s s' h e =
      let (t, e₁, k₁) = >>=-eq-ok (f x s) _ e in drain_inv P f keep xs t s' (keep x s t h e₁) k₁

  module _ (r : TowerRules) (mono : IsMonotone D) (rising : IsRising r.tower_ranges) where
    -- Where conversion and addition of `double`s are monotone and no range shrinks with the level,
    -- an update that returns keeps the territory right: after it too every cell's reference count
    -- is the number of towers that hold it, and the player owns exactly the cells with a count
    -- above zero.
    pub update-IsTerritory :
        (s s' : TowerScene D) → IsTerritory r s → update r s ≡ ok s' → IsTerritory r s'
    unfolding update handle_tower_build_updates handle_tower_upgrade_updates
        handle_tower_suicide_updates handle_tower_death_updates
    update-IsTerritory s s' h e =
        let (a, e₁, k₁) = >>=-eq-ok (handle_tower_build_updates r s) _ e in
        let (b, e₂, k₂) = >>=-eq-ok (handle_tower_upgrade_updates r a) _ k₁ in
        let (c, e₃, k₃) = >>=-eq-ok (handle_tower_suicide_updates r b) _ k₂ in
        let ha = drain_inv (IsTerritory r) (build_one r) (build_one-IsTerritory r) _ _ a h e₁ in
        let hb =
          drain_inv (IsTerritory r) (upgrade_one r) (upgrade_one-IsTerritory r mono rising) _ _ b ha
            e₂ in
        let hc =
          drain_inv (IsTerritory r) (suicide_one r) (suicide_one-IsTerritory r) _ _ c hb e₃ in
        drain_inv (IsTerritory r) (delete_one r) (delete_one-IsTerritory r) _ _ s' hc k₃
