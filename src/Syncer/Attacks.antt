-- ===== src/Syncer/Attacks.antt =====
-- The commands to soldiers of state/state_syncer/state_syncer.cpp: who may act, and on whom.
use codecharacter_simulator.Prelude.{
  ℕ, suc, ◌≡◌, refl, sym, ap, ◌∙◌, if_yes, if_no, true, false, not, List, [], ◌∷◌, pos, eqb_ℤ,
  get_elem?, some, Result, ok, undefined, or_err, if◌then◌else◌, Bool-cases, >>=-eq-ok,
  ok-injective, or_err-eq-ok, ◌⊎◌, inl, inr, arith,
}
use codecharacter_simulator.Players.{PlayerId, at, enemy}
use codecharacter_simulator.Physics.Double.{Double}
use codecharacter_simulator.Physics.Vector.{Vector}
use codecharacter_simulator.Actor.Base.{ActorId}
use codecharacter_simulator.Map.{GameMap}
use codecharacter_simulator.Actor.Soldier.{Soldier}
use codecharacter_simulator.Actor.Tower.{Tower}
use codecharacter_simulator.Game.Defs
use codecharacter_simulator.Syncer.Commands.{
  ErrorType, Turn, TowerTarget, log_error, on_state, as_seen, is_outside, extent, by_live_soldier,
  is_razed, find_target_tower, move_soldier, attack_tower,
}
use codecharacter_simulator.Syncer.Accepts.{IsRefused, checked, eqb_ℤ_eq}

no_tower_differs : TowerTarget.no_tower ≡ TowerTarget.a_tower → ⊥
no_tower_differs h = cc

base_differs : TowerTarget.base_tower ≡ TowerTarget.a_tower → ⊥
base_differs h = cc

module _ {D : Double} where
  -- The soldier at the index, which has the identifier and is alive.
  pub record Acts (p : PlayerId) (id : ActorId) (i : ℕ) (t : Turn D) : Type 0 where
    pub actor : Soldier D
    pub at_index : get_elem? (at t.state.soldiers p) i ≡ some actor
    pub same_id : id ≡ actor.id
    pub alive : eqb_ℤ actor.hp (pos 0) ≡ false

  pub by_live_soldier_lem :
      (t t' : Turn D) (p : PlayerId) (id : ActorId) (i : ℕ) (rest : Result (Turn D))
      → by_live_soldier t p id i rest ≡ ok t'
      → IsRefused p t t' ⊎ (Acts p id i t × (rest ≡ ok t'))
  unfolding by_live_soldier
  by_live_soldier_lem t t' p id i rest h =
      let (x, hx, h₁) = >>=-eq-ok (or_err (get_elem? (at t.state.soldiers p) i) undefined) _ h in
      elim (checked (not (eqb_ℤ id x.id)) (log_error t p ErrorType.no_alter_actor_id) _ h₁) [
        | inl (b, e) ↦ inl (_, e)
        | inr (same, h₂) ↦
            elim (checked (eqb_ℤ x.hp (pos 0)) (log_error t p ErrorType.no_action_by_dead_soldier) _
              h₂) [
                | inl (b, e) ↦ inl (_, e)
                | inr (alive, h₃) ↦ inr (
                  record {
                    actor = x;
                    at_index = or_err-eq-ok _ _ hx;
                    same_id = eqb_ℤ_eq id x.id same;
                    alive = alive;
                  },
                  h₃,
                )
              ]
      ]

  -- No coordinate compares as less than zero or as at least the extent, which holds of a NaN too.
  pub record IsNotOutside (m : GameMap D) (v : Vector D) : Type 0 where
    pub low_x : D.ltb v.x (D.of_int (pos 0)) ≡ false
    pub high_x : D.leb (D.of_int (extent m)) v.x ≡ false
    pub low_y : D.ltb v.y (D.of_int (pos 0)) ≡ false
    pub high_y : D.leb (D.of_int (extent m)) v.y ≡ false

  not_outside : (m : GameMap D) (v : Vector D) → is_outside m v ≡ false → IsNotOutside m v
  not_outside m v h = record {
    low_x = ground arith;
    high_x = ground arith;
    low_y = ground arith;
    high_y = ground arith;
  }

  -- A command to move that returns is either refused, and then it only logs an error, or the soldier
  -- acts, no coordinate of the position, as the player sees it, compares as less than zero or as at least
  -- the extent of the map, and the state moves the soldier there.
  pub move_soldier_lem :
      (t t' : Turn D) (p : PlayerId) (id : ActorId) (position : Vector D) (i : ℕ)
      → move_soldier t p id position i ≡ ok t'
      → IsRefused p t t'
        ⊎ (Acts p id i t
            × IsNotOutside t.state.map (as_seen p t.state.map position)
            × (on_state t (Defs.move_soldier t.state p id (as_seen p t.state.map position))
                ≡ ok t'))
  unfolding move_soldier
  move_soldier_lem t t' p id position i h = elim (by_live_soldier_lem t t' p id i _ h) [
    | inl e ↦ inl e
    | inr (acts, h₁) ↦
        elim (checked (is_outside t.state.map (as_seen p t.state.map position))
          (log_error t p ErrorType.invalid_position) _ h₁) [
            | inl (b, e) ↦ inl (_, e)
            | inr (inside, h₂) ↦ inr (acts, not_outside _ _ inside, h₂)
          ]
  ]

  -- The first tower with the identifier, which is not a base.
  abbrev pub HasTarget : List (Tower D) → ActorId → Type 0
  HasTarget xs id =
      (j : ℕ) × (x : Tower D) × (get_elem? xs j ≡ some x) × (id ≡ x.id) × (x.is_base ≡ false)

  base_ends :
      (xs : List (Tower D)) (x : Tower D) (id : ActorId) (found : TowerTarget)
      → eqb_ℤ id x.id ≡ true
      → x.is_base ≡ true
      → find_target_tower (x ∷ xs) id found ≡ TowerTarget.a_tower
      → ⊥
  unfolding find_target_tower
  base_ends xs x id found same base h = base_differs (
      sym (if_yes x.is_base TowerTarget.base_tower _ base)
      ∙ (sym (if_yes (eqb_ℤ id x.id) _ _ same) ∙ h))

  passes_by :
      (xs : List (Tower D)) (x : Tower D) (id : ActorId) (found : TowerTarget)
      → eqb_ℤ id x.id ≡ false
      → find_target_tower (x ∷ xs) id found ≡ TowerTarget.a_tower
      → find_target_tower xs id found ≡ TowerTarget.a_tower
  unfolding find_target_tower
  passes_by xs x id found differ h = sym (if_no (eqb_ℤ id x.id) _ _ differ) ∙ h

  find_target_tower_lem :
      (xs : List (Tower D)) (id : ActorId) (found : TowerTarget)
      → find_target_tower xs id found ≡ TowerTarget.a_tower
      → (found ≡ TowerTarget.a_tower) ⊎ HasTarget xs id
  unfolding find_target_tower
  find_target_tower_lem [] id found h = inl h
  find_target_tower_lem (x ∷ xs) id found h = elim (Bool-cases (eqb_ℤ id x.id)) [
    | inl same ↦ elim (Bool-cases x.is_base) [
      | inl base ↦ elim (base_ends xs x id found same base h) [ ]
      | inr other ↦ inr (0, x, refl, eqb_ℤ_eq id x.id (ap not same), other)
    ]
    | inr differ ↦ elim (find_target_tower_lem xs id found (passes_by xs x id found differ h)) [
      | inl e ↦ inl e
      | inr (j, y, there, same, other) ↦ inr (suc j, y, there, same, other)
    ]
  ]

  target_checked :
      (t t' : Turn D) (p : PlayerId) (id tower_id : ActorId) (found : TowerTarget)
      → elim found [
        | TowerTarget.base_tower ↦ ok (log_error t p ErrorType.no_attack_base_tower)
        | TowerTarget.no_tower ↦ ok (log_error t p ErrorType.no_attack_self_tower)
        | TowerTarget.a_tower ↦
            if is_razed t.razed_towers tower_id
            then ok (log_error t p ErrorType.no_attack_razed_tower)
            else on_state t (Defs.attack_actor_by_id t.state p id tower_id)
      ]
        ≡ ok t'
      → IsRefused p t t'
        ⊎ ((found ≡ TowerTarget.a_tower)
            × (is_razed t.razed_towers tower_id ≡ false)
            × (on_state t (Defs.attack_actor_by_id t.state p id tower_id) ≡ ok t'))
  target_checked t t' p id tower_id TowerTarget.base_tower h = inl (_, sym (ok-injective h))
  target_checked t t' p id tower_id TowerTarget.no_tower h = inl (_, sym (ok-injective h))
  target_checked t t' p id tower_id TowerTarget.a_tower h =
      elim (checked (is_razed t.razed_towers tower_id)
        (log_error t p ErrorType.no_attack_razed_tower) _ h) [
          | inl (b, e) ↦ inl (_, e)
          | inr (not_razed, h₁) ↦ inr (refl, not_razed, h₁)
        ]

  -- A command to attack a tower that returns is either refused, and then it only logs an error, or
  -- the soldier acts, the enemy has a tower with the identifier that is not a base and that was not
  -- razed this turn, and the state gives the soldier its target.
  pub attack_tower_lem :
      (t t' : Turn D) (p : PlayerId) (id tower_id : ActorId) (i : ℕ)
      → attack_tower t p id tower_id i ≡ ok t'
      → IsRefused p t t'
        ⊎ (Acts p id i t
            × HasTarget (at t.state.tower_managers (enemy p)).towers tower_id
            × (is_razed t.razed_towers tower_id ≡ false)
            × (on_state t (Defs.attack_actor_by_id t.state p id tower_id) ≡ ok t'))
  unfolding attack_tower
  attack_tower_lem t t' p id tower_id i h = elim (by_live_soldier_lem t t' p id i _ h) [
    | inl e ↦ inl e
    | inr (acts, h₁) ↦ elim (target_checked t t' p id tower_id _ h₁) [
      | inl e ↦ inl e
      | inr (found, not_razed, h₂) ↦
          elim (find_target_tower_lem _ tower_id TowerTarget.no_tower found) [
            | inl b ↦ elim (no_tower_differs b) [ ]
            | inr there ↦ inr (acts, there, not_razed, h₂)
          ]
    ]
  ]
