-- ===== src/Towers/Funds.antt =====
-- The money that a tower manager's update spends and earns.
use codecharacter_simulator.Prelude.{
  ℕ, suc, ◌==◌, ◌≡◌, subst, pos, get_elem?, length, ok, or_err, throw_if, out_of_range, undefined,
  >>=-eq-ok, ok-injective,
}
use codecharacter_simulator.Physics.Double.{Double}
use codecharacter_simulator.Physics.Vector.{Vector}
use codecharacter_simulator.Actor.Base.{ActorId}
use codecharacter_simulator.Actor.Tower.{of_level, upgrade, set_tower_hp}
use codecharacter_simulator.Money.{decrease, reward_suicide}
use codecharacter_simulator.Money.Bounds.{IsValid, decrease-IsValid, reward_suicide-IsValid}
use codecharacter_simulator.Map.{get_size}
use codecharacter_simulator.Towers.Defs.{TowerRules, TowerScene, calculate_bounds}
use codecharacter_simulator.Towers.Handlers.{
  build_one, upgrade_one, suicide_one, delete_one, bounds_in, last_index, new_tower,
  handle_tower_build_updates, handle_tower_upgrade_updates, handle_tower_suicide_updates,
  handle_tower_death_updates, update,
}
use codecharacter_simulator.Towers.Updates.{drain_inv}

module _ {D : Double} (r : TowerRules) where
  abbrev Funded : TowerScene D → Type 0
  Funded s = IsValid s.money

  build_one-Funded :
      (v : Vector D) (s s' : TowerScene D) → Funded s → build_one r v s ≡ ok s' → Funded s'
  unfolding build_one
  build_one-Funded v s s' h e =
      let (cost, e₁, k₁) = >>=-eq-ok (of_level r.build_costs 1) _ e in
      let (money, e₂, k₂) = >>=-eq-ok (decrease s.money s.manager.player_id cost) _ k₁ in
      let (max_hp, e₃, k₃) = >>=-eq-ok (of_level r.max_hp_levels 1) _ k₂ in
      let (b, e₄, k₄) =
        >>=-eq-ok
          (calculate_bounds r (get_size s.map) s.map.element_size (new_tower s max_hp s.next_id v))
          _ k₃ in
      subst Funded (ok-injective k₄) (decrease-IsValid s.money money s.manager.player_id cost h e₂)

  upgrade_one-Funded :
      (id : ActorId) (s s' : TowerScene D) → Funded s → upgrade_one r id s ≡ ok s' → Funded s'
  unfolding upgrade_one
  upgrade_one-Funded id s s' h e =
      let (k, e₁, k₁) = >>=-eq-ok (or_err (last_index s.manager.towers id) out_of_range) _ e in
      let (t, e₂, k₂) = >>=-eq-ok (or_err (get_elem? s.manager.towers k) undefined) _ k₁ in
      let (_, e₃, k₃) =
        >>=-eq-ok (throw_if (t.tower_level == length r.build_costs) out_of_range) _ k₂ in
      let (cost, e₄, k₄) = >>=-eq-ok (of_level r.build_costs (suc t.tower_level)) _ k₃ in
      let (money, e₅, k₅) = >>=-eq-ok (decrease s.money s.manager.player_id cost) _ k₄ in
      let (old, e₆, k₆) = >>=-eq-ok (bounds_in r s t) _ k₅ in
      let (t', e₇, k₇) = >>=-eq-ok (upgrade r.max_hp_levels t) _ k₆ in
      let (new, e₈, k₈) = >>=-eq-ok (bounds_in r s t') _ k₇ in
      subst Funded (ok-injective k₈) (decrease-IsValid s.money money s.manager.player_id cost h e₅)

  suicide_one-Funded :
      (id : ActorId) (s s' : TowerScene D) → Funded s → suicide_one r id s ≡ ok s' → Funded s'
  unfolding suicide_one
  suicide_one-Funded id s s' h e =
      let (k, e₁, k₁) = >>=-eq-ok (or_err (last_index s.manager.towers id) out_of_range) _ e in
      let (t, e₂, k₂) = >>=-eq-ok (or_err (get_elem? s.manager.towers k) undefined) _ k₁ in
      let (t', e₃, k₃) = >>=-eq-ok (set_tower_hp t (pos 0)) _ k₂ in
      let (money, e₄, k₄) = >>=-eq-ok (reward_suicide s.money t') _ k₃ in
      subst Funded (ok-injective k₄) (reward_suicide-IsValid s.money money t' h e₄)

  delete_one-Funded :
      (k : ℕ) (s s' : TowerScene D) → Funded s → delete_one r k s ≡ ok s' → Funded s'
  unfolding delete_one
  delete_one-Funded k s s' h e =
      let (t, e₁, k₁) = >>=-eq-ok (or_err (get_elem? s.manager.towers k) undefined) _ e in
      let (b, e₂, k₂) = >>=-eq-ok (bounds_in r s t) _ k₁ in subst Funded (ok-injective k₂) h

  -- Valid balances are valid after an update that returns.
  pub update-IsValid :
      (s s' : TowerScene D) → IsValid s.money → update r s ≡ ok s' → IsValid s'.money
  unfolding update handle_tower_build_updates handle_tower_upgrade_updates
      handle_tower_suicide_updates handle_tower_death_updates
  update-IsValid s s' h e =
      let (a, e₁, k₁) = >>=-eq-ok (handle_tower_build_updates r s) _ e in
      let (b, e₂, k₂) = >>=-eq-ok (handle_tower_upgrade_updates r a) _ k₁ in
      let (c, e₃, k₃) = >>=-eq-ok (handle_tower_suicide_updates r b) _ k₂ in
      let ha = drain_inv Funded (build_one r) build_one-Funded _ _ a h e₁ in
      let hb = drain_inv Funded (upgrade_one r) upgrade_one-Funded _ _ b ha e₂ in
      let hc = drain_inv Funded (suicide_one r) suicide_one-Funded _ _ c hb e₃ in
      drain_inv Funded (delete_one r) delete_one-Funded _ _ s' hc k₃
