-- ===== src/Actor/Soldier.antt =====
-- state/actor/soldier.h: the fields of a soldier and the methods that only read or set them.
use codecharacter_simulator.Prelude.{
  ℕ, Bool, true, false, Option, none, some, ℤ, pos, ◌+ℤ◌, ◌-ℤ◌, min_ℤ, sum_int64, Result, ok, ◌>>=◌,
}
use codecharacter_simulator.Players.{PlayerId}
use codecharacter_simulator.Physics.Double.{Double}
use codecharacter_simulator.Physics.Vector.{Vector}
use codecharacter_simulator.Actor.Base.{ActorId, Actor, set_hp}

pub data SoldierStateName : Type 0 where
  idle move attack pursuit dead : SoldierStateName

-- An object of a class derived from `SoldierState`; only `DeadState` has a field of its own,
-- `remaining_turns_to_respawn`.
pub data SoldierState : Type 0 where
  idle_state move_state attack_state pursuit_state : SoldierState
  dead_state : ℕ → SoldierState

abbrev pub get_name : SoldierState → SoldierStateName
get_name idle_state = idle
get_name move_state = move
get_name attack_state = attack
get_name pursuit_state = pursuit
get_name (dead_state _) = dead

-- An `Actor *`: a soldier by its place in the state's vectors, or a tower by its owner and
-- identifier, since a tower moves between vectors while its address stays.
pub data ActorPtr : Type 0 where
  to_soldier : PlayerId → ℕ → ActorPtr
  to_tower : PlayerId → ActorId → ActorPtr

pub record Soldier (D : Double) : Type 0 where
  pub actor : Actor D
  pub open actor use *
  pub speed : ℤ
  pub attack_range : ℤ
  pub attack_damage : ℤ
  pub attack_target : Option ActorPtr
  pub destination : Vector D
  pub is_destination_set : Bool
  pub new_position : Vector D
  pub is_new_position_set : Bool
  pub damage_incurred : ℤ
  pub state : SoldierState
  pub is_invulnerable : Bool
  pub num_turns_invulnerable : ℤ

module _ {D : Double} where
  abbrev pub set_position : Soldier D → Vector D → Soldier D
  set_position s p = record s { actor = record (s.actor) { position = p } }

  abbrev pub set_attack_target : Soldier D → Option ActorPtr → Soldier D
  set_attack_target s t = record s { attack_target = t }

  abbrev pub clear_destination : Soldier D → Soldier D
  clear_destination s = record s { is_destination_set = false }

  abbrev pub set_new_position : Soldier D → Vector D → Soldier D
  set_new_position s p = record s { new_position = p; is_new_position_set = true }

  abbrev pub clear_new_position : Soldier D → Soldier D
  clear_new_position s = record s { is_new_position_set = false }

  abbrev pub is_attack_target_set : Soldier D → Bool
  is_attack_target_set s = elim s.attack_target [ none ↦ false | some _ ↦ true ]

  -- `Soldier::Move` and `Soldier::Attack`.
  unfoldable pub move_to : Soldier D → Vector D → Soldier D
  move_to s p = record s { destination = p; is_destination_set = true; attack_target = none }

  unfoldable pub attack_actor : Soldier D → ActorPtr → Soldier D
  attack_actor s t = record s { attack_target = some t; is_destination_set = false }

  -- One turn more than the constant: the turn of the respawn is counted too.
  abbrev pub make_invulnerable : ℤ → Soldier D → Soldier D
  make_invulnerable total s = record s {
    is_invulnerable = true;
    num_turns_invulnerable = total +ℤ pos 1;
  }

  abbrev pub latest_hp : Soldier D → ℤ
  latest_hp s = s.hp -ℤ s.damage_incurred

  -- A sum that leaves `int64_t` wraps around; the language leaves it undefined.
  unfoldable pub damage : Soldier D → ℤ → Soldier D
  damage s amount = record s { damage_incurred = min_ℤ s.hp (sum_int64 s.damage_incurred amount) }

  -- `SetHp`, inherited from `Actor`.
  abbrev pub set_soldier_hp : Soldier D → ℤ → Result (Soldier D)
  set_soldier_hp s hp = do a ← set_hp s.actor hp; ok (record s { actor = a })
