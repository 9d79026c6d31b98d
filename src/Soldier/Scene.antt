-- ===== src/Soldier/Scene.antt =====
-- What a soldier's update can reach: the soldier, the actor that its `attack_target` points to, the
-- shared money manager, and the constants. The target is another actor than the soldier.
use codecharacter_simulator.Prelude.{
  ℕ, Bool, Option, none, some, ℤ, Result, ok, err, undefined, logic_error, or_err, ◌>>=◌,
}
use codecharacter_simulator.Players.{PerPlayer}
use codecharacter_simulator.Physics.Double.{Double}
use codecharacter_simulator.Physics.Vector.{Vector, distance}
use codecharacter_simulator.Actor.Soldier.{Soldier}
use codecharacter_simulator.Actor.Any.{AnyActor, base}
use codecharacter_simulator.Money.{MoneyManager}

-- The static members of `Soldier`, and the path planner that all soldiers share.
pub record Rules (D : Double) : Type 0 where
  pub total_turns_to_respawn : ℕ
  pub respawn_positions : PerPlayer (Vector D)
  pub total_num_turns_invulnerable : ℤ
  -- `IPathPlanner::GetNextPosition` of source, destination and speed.
  pub get_next_position : Vector D → Vector D → ℤ → Result (Vector D)

pub record Scene (D : Double) : Type 0 where
  pub self : Soldier D
  -- The object that `self.attack_target` points to.
  pub target : Option (AnyActor D)
  pub money : MoneyManager

module _ {D : Double} where
  -- `soldier->GetAttackTarget()->...`: a null pointer cannot be followed.
  abbrev pub get_attack_target : Scene D → Result (AnyActor D)
  get_attack_target s = elim s.self.attack_target [
    | none ↦ err undefined
    | some _ ↦ or_err s.target undefined
  ]

  -- `Soldier::IsAttackTargetInRange` on the soldier and its target.
  abbrev pub in_range : Soldier D → AnyActor D → Bool
  in_range s a = D.leb (distance D s.position (base a).position) (D.of_int s.attack_range)

  abbrev pub is_attack_target_in_range : Scene D → Result Bool
  is_attack_target_in_range s = elim s.self.attack_target [
    | none ↦ err logic_error
    | some _ ↦ or_err s.target undefined >>= λ a. ok (in_range s.self a)
  ]
