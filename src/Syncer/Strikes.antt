-- ===== src/Syncer/Strikes.antt =====
-- Attacks on soldiers: `AttackSoldier` of state/state_syncer/state_syncer.cpp.
use codecharacter_simulator.Prelude.{
  ℕ, suc, ◌≡◌, refl, sym, ap, ◌∙◌, if_yes, if_no, Bool, true, false, not, ◌||◌, List, [], ◌∷◌, ℤ,
  pos, eqb_ℤ, get_elem?, some, ok, if◌then◌else◌, Bool-cases, ◌⊎◌, inl, inr, int_laws,
}
use mathlib.Core.Bool.{false≢true}
use codecharacter_simulator.Players.{PlayerId, at, enemy}
use codecharacter_simulator.Physics.Double.{Double}
use codecharacter_simulator.Actor.Base.{ActorId}
use codecharacter_simulator.Actor.Soldier.{Soldier}
use codecharacter_simulator.Game.Defs
use codecharacter_simulator.Syncer.Commands.{
  ErrorType, Turn, log_error, on_state, find_target_soldier, SoldierTarget, no_soldier,
  attack_soldier,
}
use codecharacter_simulator.Syncer.Accepts.{IsRefused, checked, eqb_ℤ_eq}
use codecharacter_simulator.Syncer.Attacks.{Acts, by_live_soldier_lem}

eqb_ℤ_same : (a b : ℤ) → a ≡ b → not (eqb_ℤ a b) ≡ false
eqb_ℤ_same a b h = grind int_laws

is_true : (b : Bool) → not b ≡ false → b ≡ true
is_true true h = refl
is_true false h = cc

or_split : (a b : Bool) → (a || not b) ≡ true → (a ≡ true) ⊎ (b ≡ false)
or_split true b h = inl refl
or_split false true h = cc
or_split false false h = inr refl

module _ {D : Double} where
  -- A soldier with the identifier that has hit points left.
  abbrev pub HasLive : List (Soldier D) → ActorId → Type 0
  HasLive xs id =
      (j : ℕ) × (x : Soldier D) × (get_elem? xs j ≡ some x)
      × (id ≡ x.id)
      × (eqb_ℤ x.hp (pos 0) ≡ false)

  abbrev seen : Soldier D → SoldierTarget → SoldierTarget
  seen x f = record {
    valid_target = true;
    enemy_alive = f.enemy_alive || not (eqb_ℤ x.hp (pos 0));
    enemy_immune = f.enemy_immune || x.is_invulnerable;
  }

  found_here :
      (xs : List (Soldier D)) (x : Soldier D) (id : ActorId) (f : SoldierTarget)
      → (if eqb_ℤ id x.id then seen x f else f).enemy_alive ≡ true
      → (f.enemy_alive ≡ true) ⊎ HasLive (x ∷ xs) id
  found_here xs x id f h = elim (Bool-cases (eqb_ℤ id x.id)) [
    | inr differ ↦ inl (
        sym (ap (λ (g : SoldierTarget). g.enemy_alive) (if_no (eqb_ℤ id x.id) (seen x f) f differ))
        ∙ h)
    | inl same ↦
        let either =
          sym (ap (λ (g : SoldierTarget). g.enemy_alive) (if_yes (eqb_ℤ id x.id) (seen x f) f same))
          ∙ h in
        elim (or_split f.enemy_alive (eqb_ℤ x.hp (pos 0)) either) [
          | inl before ↦ inl before
          | inr alive ↦ inr (0, x, refl, eqb_ℤ_eq id x.id (ap not same), alive)
        ]
  ]

  find_target_soldier_lem :
      (xs : List (Soldier D)) (id : ActorId) (f : SoldierTarget)
      → (find_target_soldier xs id f).enemy_alive ≡ true
      → (f.enemy_alive ≡ true) ⊎ HasLive xs id
  unfolding find_target_soldier
  find_target_soldier_lem [] id f h = inl h
  find_target_soldier_lem (x ∷ xs) id f h =
      elim (find_target_soldier_lem xs id (if eqb_ℤ id x.id then seen x f else f) h) [
        | inl here ↦ found_here xs x id f here
        | inr (j, y, there, same, alive) ↦ inr (suc j, y, there, same, alive)
      ]

  -- A command to attack a soldier that returns is either refused, and then it only logs an error, or
  -- the soldier acts, the enemy has a living soldier with the identifier, and the state gives the
  -- soldier its target, with an error logged if that one is invulnerable.
  pub attack_soldier_lem :
      (t t' : Turn D) (p : PlayerId) (id enemy_soldier_id : ActorId) (i : ℕ)
      → attack_soldier t p id enemy_soldier_id i ≡ ok t'
      → IsRefused p t t'
        ⊎ (Acts p id i t
            × HasLive (at t.state.soldiers (enemy p)) enemy_soldier_id
            × (on_state
                  (if (find_target_soldier
                      (at t.state.soldiers (enemy p))
                      enemy_soldier_id
                      no_soldier).enemy_immune
                    then log_error t p ErrorType.no_attack_immune_soldier
                    else t)
                  (Defs.attack_actor_by_id t.state p id enemy_soldier_id)
                ≡ ok t'))
  unfolding attack_soldier
  attack_soldier_lem t t' p id enemy_soldier_id i h =
      let f = find_target_soldier (at t.state.soldiers (enemy p)) enemy_soldier_id no_soldier in
      elim (by_live_soldier_lem t t' p id i _ h) [
        | inl e ↦ inl e
        | inr (acts, h₁) ↦
            elim (checked (not f.valid_target) (log_error t p ErrorType.no_attack_self_soldier) _
              h₁) [
                | inl (b, e) ↦ inl (_, e)
                | inr (valid, h₂) ↦
                    elim (checked (not f.enemy_alive)
                      (log_error t p ErrorType.no_attack_dead_soldier) _ h₂) [
                        | inl (b, e) ↦ inl (_, e)
                        | inr (alive, h₃) ↦
                            elim (find_target_soldier_lem _ enemy_soldier_id no_soldier
                              (is_true f.enemy_alive alive)) [
                                | inl b ↦ elim (false≢true b) [ ]
                                | inr live ↦ inr (acts, live, h₃)
                              ]
                      ]
              ]
      ]
