-- ===== src/Soldier/States.antt =====
-- The `Update`, `Enter` and `Exit` methods of the five classes under
-- state/src/actor/soldier_states/. An update returns the next state, or none for `nullptr`.
use codecharacter_simulator.Prelude.{
  ℕ, zero, suc, not, Option, none, some, pos, eqb_ℤ, Result, ok, ◌>>=◌, if◌then◌else◌,
}
use codecharacter_simulator.Players.{at}
use codecharacter_simulator.Physics.Double.{Double}
use codecharacter_simulator.Physics.Vector.{Vector, veq}
use codecharacter_simulator.Actor.Soldier.{
  Soldier, SoldierState, idle_state, move_state, attack_state, pursuit_state, dead_state,
  set_position, set_attack_target, clear_destination, set_new_position, is_attack_target_set,
  make_invulnerable, set_soldier_hp,
}
use codecharacter_simulator.Actor.Any.{AnyActor, base, get_latest_hp, damage}
use codecharacter_simulator.Money.{reward_kill}
use codecharacter_simulator.Soldier.Scene.{
  Rules, Scene, get_attack_target, is_attack_target_in_range,
}

-- The next state, and the scene after the call.
abbrev pub Outcome : Double → Type 0
Outcome D = Option SoldierState × Scene D

-- A new `DeadState` starts at zero turns; `Enter` sets them.
abbrev pub new_dead_state : SoldierState
new_dead_state = dead_state 0

module _ {D : Double} where
  abbrev pub with_self : Scene D → Soldier D → Scene D
  with_self s x = record s { self = x }

  abbrev pub become : SoldierState → Scene D → Result (Outcome D)
  become n s = ok (some n, s)

  abbrev pub stay : Scene D → Result (Outcome D)
  stay s = ok (none, s)

  -- `soldier->SetAttackTarget(nullptr)`.
  abbrev pub drop_target : Scene D → Scene D
  drop_target s = with_self s (set_attack_target s.self none)

  -- With a target set: pursue it, or attack it if it is in range.
  abbrev pub engage : Scene D → Result (Outcome D)
  engage s = do
    near ← is_attack_target_in_range s
    if not near then become pursuit_state s else become attack_state s

  unfoldable pub idle_update : Scene D → Result (Outcome D)
  idle_update s =
      if eqb_ℤ s.self.hp (pos 0)
      then become new_dead_state s
      else if s.self.is_destination_set
      then become move_state s
      else if is_attack_target_set s.self
      then engage s
      else stay s

  -- Ask the path planner for the next position on the way to `dest`.
  abbrev pub advance : Rules D → Vector D → Scene D → Result (Outcome D)
  advance r dest s = do
    final_position ← r.get_next_position s.self.position dest s.self.speed
    stay (with_self s (set_new_position s.self final_position))

  unfoldable pub move_update : Rules D → Scene D → Result (Outcome D)
  move_update r s =
      if eqb_ℤ s.self.hp (pos 0)
      then become new_dead_state s
      else if is_attack_target_set s.self
      then engage s
      else if veq D s.self.position s.self.destination
      then become idle_state s
      else advance r s.self.destination s

  -- The blow at the target `a`, and the reward if it kills.
  unfoldable pub strike : AnyActor D → Scene D → Result (Outcome D)
  strike a s = do
    let struck = damage a s.self.attack_damage
    money ←
        (if eqb_ℤ (get_latest_hp struck) (pos 0) then reward_kill s.money struck else ok s.money)
    stay (record s { target = some struck; money = money })

  unfoldable pub attack_update : Scene D → Result (Outcome D)
  attack_update s =
      if eqb_ℤ s.self.hp (pos 0)
      then become new_dead_state (drop_target s)
      else if s.self.is_destination_set
      then become move_state (drop_target s)
      else do
        a ← get_attack_target s
        if eqb_ℤ (get_latest_hp a) (pos 0) then become idle_state (drop_target s) else do
          near ← is_attack_target_in_range s
          if not near then become pursuit_state s else strike a s

  unfoldable pub pursuit_update : Rules D → Scene D → Result (Outcome D)
  pursuit_update r s =
      if eqb_ℤ s.self.hp (pos 0)
      then become new_dead_state (drop_target s)
      else if s.self.is_destination_set
      then become move_state (drop_target s)
      else do
        a ← get_attack_target s
        if eqb_ℤ (get_latest_hp a) (pos 0) then become idle_state (drop_target s) else do
          near ← is_attack_target_in_range s
          if near then become attack_state s else advance r (base a).position s

  -- The respawn timer counts down in the state's own field.
  unfoldable pub dead_update : ℕ → Scene D → Result (Outcome D)
  dead_update zero s = become idle_state s
  dead_update (suc n) s = stay (with_self s (record (s.self) { state = dead_state n }))

  -- `state->Update()`.
  unfoldable pub state_update : Rules D → Scene D → Result (Outcome D)
  state_update r s = elim s.self.state [
    | idle_state ↦ idle_update s
    | move_state ↦ move_update r s
    | attack_state ↦ attack_update s
    | pursuit_state ↦ pursuit_update r s
    | dead_state n ↦ dead_update n s
  ]

  -- `DeadState::Exit`: back at the respawn position with full hit points, and invulnerable.
  unfoldable pub dead_exit : Rules D → Soldier D → Result (Soldier D)
  dead_exit r s = do
    healed ← set_soldier_hp (set_position s (at r.respawn_positions s.player_id)) s.max_hp
    ok (
        make_invulnerable r.total_num_turns_invulnerable
          (clear_destination (set_attack_target healed none)))

  -- `state->Exit()`.
  unfoldable pub state_exit : Rules D → Soldier D → Result (Soldier D)
  state_exit r s = elim s.state [
    | move_state ↦ ok (clear_destination s)
    | dead_state _ ↦ dead_exit r s
    | _ ↦ ok s
  ]

  -- `state->Enter()` of a state that has just been made.
  abbrev pub entered : Rules D → SoldierState → SoldierState
  entered r (dead_state _) = dead_state r.total_turns_to_respawn
  entered r other = other
