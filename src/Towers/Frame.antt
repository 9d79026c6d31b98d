-- ===== src/Towers/Frame.antt =====
-- A tower manager's update and the other player: what it does not touch.
use codecharacter_simulator.Prelude.{
  ℕ, suc, List, ◌-ℤ◌, ◌==◌, ◌≡◌, refl, ap, ◌∙◌, subst, Bool, true, false, pos, Option, none, some,
  get_elem?, get_cell?, length, ok, or_err, throw_if, out_of_range, undefined, >>=-eq-ok,
  ok-injective, if◌then◌else◌, Result,
}
use mathlib.Core.Option
use codecharacter_simulator.Players.{PlayerId, player1, player2, at, enemy}
use codecharacter_simulator.Physics.Double.{Double}
use codecharacter_simulator.Physics.Vector.{Vector}
use codecharacter_simulator.Actor.Base.{ActorId}
use codecharacter_simulator.Actor.Tower.{of_level, upgrade, set_tower_hp}
use codecharacter_simulator.Money.{decrease, reward_suicide}
use codecharacter_simulator.Map.{MapElement, set_ownership, get_size}
use codecharacter_simulator.Towers.Defs.{TowerRules, TowerScene, Bounds, inside, calculate_bounds}
use codecharacter_simulator.Towers.Territory.{Land, within, claim, claim_new, release, is_zero}
use codecharacter_simulator.Towers.Cells.{
  Cell, cell, claimed, released, cell-claim, cell-claim_new, cell-release, SameShape,
  claim-SameShape, claim_new-SameShape, release-SameShape,
}
use codecharacter_simulator.Towers.Handlers.{
  build_one, upgrade_one, suicide_one, delete_one, bounds_in, land_of, last_index, new_tower, drain,
  handle_tower_build_updates, handle_tower_upgrade_updates, handle_tower_suicide_updates,
  handle_tower_death_updates, update,
}
use codecharacter_simulator.Towers.Updates.{drain_inv}

if_same {ℓ κ} :
    {A : Type ℓ} {B : Type κ} (f : A → B) (b : Bool) (x y : A)
    → f x ≡ f y
    → f (if b then x else y) ≡ f y
if_same f true x y h = h
if_same f false x y h = refl

module _ {D : Double} where
  -- Whether the player owns the cell.
  abbrev pub owned : PlayerId → Option (MapElement D) → Option Bool
  owned q e = Option.map (λ x. at x.ownership q) e

  claimed-owned :
      (p : PlayerId) (c : Cell D)
      → owned (enemy p) (claimed p c).element ≡ owned (enemy p) c.element
  claimed-owned p c = claimed_at p c.element
    where
      claimed_at :
          (p : PlayerId) (e : Option (MapElement D))
          → owned (enemy p) (Option.map (set_ownership p true) e) ≡ owned (enemy p) e
      claimed_at p none = refl
      claimed_at player1 (some e) = refl
      claimed_at player2 (some e) = refl

  released-owned :
      (p : PlayerId) (c : Cell D)
      → owned (enemy p) (released p c).element ≡ owned (enemy p) c.element
  released-owned p c =
      if_same (owned (enemy p)) (is_zero (Option.map (λ n. n -ℤ pos 1) c.count)) _ c.element
        (released_at p c.element)
    where
      released_at :
          (p : PlayerId) (e : Option (MapElement D))
          → owned (enemy p) (Option.map (set_ownership p false) e) ≡ owned (enemy p) e
      released_at p none = refl
      released_at player1 (some e) = refl
      released_at player2 (some e) = refl

  -- What the opponent of the player sees of a map that has changed.
  abbrev SameOwned : PlayerId → Land D → Land D → Type 0
  SameOwned q l l' = (i j : ℕ) → owned q (cell l' i j).element ≡ owned q (cell l i j).element

  claim-SameOwned : (p : PlayerId) (b : Bounds) (l : Land D) → SameOwned (enemy p) l (claim p b l)
  claim-SameOwned p b l i j =
      ap (λ (c : Cell D). owned (enemy p) c.element) (cell-claim p b l i j)
      ∙ if_same (λ (c : Cell D). owned (enemy p) c.element) (inside b i j) _ _
          (claimed-owned p (cell l i j))

  claim_new-SameOwned :
      (p : PlayerId) (old b : Bounds) (l : Land D) → SameOwned (enemy p) l (claim_new p old b l)
  claim_new-SameOwned p old b l i j =
      ap (λ (c : Cell D). owned (enemy p) c.element) (cell-claim_new p old b l i j)
      ∙ if_same (λ (c : Cell D). owned (enemy p) c.element) (inside b i j) _ _
          (new_cell (within old i j))
    where
      new_cell :
          (w : Bool)
          → owned (enemy p) (if w then cell l i j else claimed p (cell l i j)).element
            ≡ owned (enemy p) (cell l i j).element
      new_cell true = refl
      new_cell false = claimed-owned p (cell l i j)

  release-SameOwned :
      (p : PlayerId) (b : Bounds) (l : Land D) → SameOwned (enemy p) l (release p b l)
  release-SameOwned p b l i j =
      ap (λ (c : Cell D). owned (enemy p) c.element) (cell-release p b l i j)
      ∙ if_same (λ (c : Cell D). owned (enemy p) c.element) (inside b i j) _ _
          (released-owned p (cell l i j))

  -- The manager's player is the same, and its opponent owns the same cells of a map of the same shape.
  pub record SameForEnemy (s s' : TowerScene D) : Type 0 where
    pub owner : s'.manager.player_id ≡ s.manager.player_id
    pub shape : SameShape (land_of s) (land_of s')
    pub others :
        (i j : ℕ)
        → owned (enemy s.manager.player_id) (get_cell? s'.map.map_elements i j)
          ≡ owned (enemy s.manager.player_id) (get_cell? s.map.map_elements i j)

  unchanged : (s : TowerScene D) → SameForEnemy s s
  unchanged s = record { owner = refl; shape = (refl, refl); others = λ i j. refl }

  SameForEnemy-trans :
      (s t u : TowerScene D) → SameForEnemy s t → SameForEnemy t u → SameForEnemy s u
  SameForEnemy-trans s t u h k = record {
    owner = k.owner ∙ h.owner;
    shape = (k.shape.0 ∙ h.shape.0, k.shape.1 ∙ h.shape.1);
    others = λ i j.
        subst
          (λ p.
            owned (enemy p) (get_cell? u.map.map_elements i j)
            ≡ owned (enemy p) (get_cell? t.map.map_elements i j))
          h.owner (k.others i j)
        ∙ h.others i j;
  }

  module _ (r : TowerRules) where
    build_one-SameForEnemy :
        (v : Vector D) (s s' : TowerScene D) → build_one r v s ≡ ok s' → SameForEnemy s s'
    unfolding build_one
    build_one-SameForEnemy v s s' e =
        let (cost, e₁, k₁) = >>=-eq-ok (of_level r.build_costs 1) _ e in
        let (money, e₂, k₂) = >>=-eq-ok (decrease s.money s.manager.player_id cost) _ k₁ in
        let (max_hp, e₃, k₃) = >>=-eq-ok (of_level r.max_hp_levels 1) _ k₂ in
        let (b, e₄, k₄) =
          >>=-eq-ok
            (calculate_bounds r (get_size s.map) s.map.element_size
              (new_tower s max_hp s.next_id v))
            _ k₃ in
        subst (SameForEnemy s) (ok-injective k₄) (record {
          owner = refl;
          shape = claim-SameShape s.manager.player_id b (land_of s);
          others = claim-SameOwned s.manager.player_id b (land_of s);
        })

    upgrade_one-SameForEnemy :
        (id : ActorId) (s s' : TowerScene D) → upgrade_one r id s ≡ ok s' → SameForEnemy s s'
    unfolding upgrade_one
    upgrade_one-SameForEnemy id s s' e =
        let (k, e₁, k₁) = >>=-eq-ok (or_err (last_index s.manager.towers id) out_of_range) _ e in
        let (t, e₂, k₂) = >>=-eq-ok (or_err (get_elem? s.manager.towers k) undefined) _ k₁ in
        let (_, e₃, k₃) =
          >>=-eq-ok (throw_if (t.tower_level == length r.build_costs) out_of_range) _ k₂ in
        let (cost, e₄, k₄) = >>=-eq-ok (of_level r.build_costs (suc t.tower_level)) _ k₃ in
        let (money, e₅, k₅) = >>=-eq-ok (decrease s.money s.manager.player_id cost) _ k₄ in
        let (old, e₆, k₆) = >>=-eq-ok (bounds_in r s t) _ k₅ in
        let (t', e₇, k₇) = >>=-eq-ok (upgrade r.max_hp_levels t) _ k₆ in
        let (new, e₈, k₈) = >>=-eq-ok (bounds_in r s t') _ k₇ in
        subst (SameForEnemy s) (ok-injective k₈) (record {
          owner = refl;
          shape = claim_new-SameShape s.manager.player_id old new (land_of s);
          others = claim_new-SameOwned s.manager.player_id old new (land_of s);
        })

    suicide_one-SameForEnemy :
        (id : ActorId) (s s' : TowerScene D) → suicide_one r id s ≡ ok s' → SameForEnemy s s'
    unfolding suicide_one
    suicide_one-SameForEnemy id s s' e =
        let (k, e₁, k₁) = >>=-eq-ok (or_err (last_index s.manager.towers id) out_of_range) _ e in
        let (t, e₂, k₂) = >>=-eq-ok (or_err (get_elem? s.manager.towers k) undefined) _ k₁ in
        let (t', e₃, k₃) = >>=-eq-ok (set_tower_hp t (pos 0)) _ k₂ in
        let (money, e₄, k₄) = >>=-eq-ok (reward_suicide s.money t') _ k₃ in
        subst (SameForEnemy s) (ok-injective k₄)
          (record { owner = refl; shape = (refl, refl); others = λ i j. refl })

    delete_one-SameForEnemy :
        (k : ℕ) (s s' : TowerScene D) → delete_one r k s ≡ ok s' → SameForEnemy s s'
    unfolding delete_one
    delete_one-SameForEnemy k s s' e =
        let (t, e₁, k₁) = >>=-eq-ok (or_err (get_elem? s.manager.towers k) undefined) _ e in
        let (b, e₂, k₂) = >>=-eq-ok (bounds_in r s t) _ k₁ in
        subst (SameForEnemy s) (ok-injective k₂) (record {
          owner = refl;
          shape = release-SameShape s.manager.player_id b (land_of s);
          others = release-SameOwned s.manager.player_id b (land_of s);
        })

    -- A loop over a queue whose rounds leave the opponent alone does too.
    drained {ℓ} :
        {A : Type ℓ} (f : A → TowerScene D → Result (TowerScene D))
        → ((x : A) (s s' : TowerScene D) → f x s ≡ ok s' → SameForEnemy s s')
        → (xs : List A) (s t s' : TowerScene D) → SameForEnemy s t
        → drain f xs t ≡ ok s'
        → SameForEnemy s s'
    drained f each xs s t s' h e =
        drain_inv (SameForEnemy s) f (λ x u u' k d. SameForEnemy-trans s u u' k (each x u u' d)) xs
          t s' h e

    -- An update of a tower manager that returns leaves the cells of the other player to it, and keeps
    -- the shape of the map.
    pub update-SameForEnemy : (s s' : TowerScene D) → update r s ≡ ok s' → SameForEnemy s s'
    unfolding update handle_tower_build_updates handle_tower_upgrade_updates
        handle_tower_suicide_updates handle_tower_death_updates
    update-SameForEnemy s s' e =
        let (a, e₁, k₁) = >>=-eq-ok (handle_tower_build_updates r s) _ e in
        let (b, e₂, k₂) = >>=-eq-ok (handle_tower_upgrade_updates r a) _ k₁ in
        let (c, e₃, k₃) = >>=-eq-ok (handle_tower_suicide_updates r b) _ k₂ in
        SameForEnemy-trans s c s'
          (SameForEnemy-trans s b c
            (SameForEnemy-trans s a b
              (drained (build_one r) build_one-SameForEnemy _ s _ a
                (record { owner = refl; shape = (refl, refl); others = λ i j. refl }) e₁)
              (drained (upgrade_one r) upgrade_one-SameForEnemy _ a _ b
                (record { owner = refl; shape = (refl, refl); others = λ i j. refl }) e₂))
            (drained (suicide_one r) suicide_one-SameForEnemy _ b _ c
              (record { owner = refl; shape = (refl, refl); others = λ i j. refl }) e₃))
          (drained (delete_one r) delete_one-SameForEnemy _ c _ s'
            (record { owner = refl; shape = (refl, refl); others = λ i j. refl }) k₃)
