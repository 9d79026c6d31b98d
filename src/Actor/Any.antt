-- ===== src/Actor/Any.antt =====
-- The class hierarchy below `Actor`, and the virtual calls on an `Actor *`.
use codecharacter_simulator.Prelude.{ℤ}
use codecharacter_simulator.Physics.Double.{Double}
use codecharacter_simulator.Actor.Base.{Actor}
use codecharacter_simulator.Actor.Soldier.{Soldier}
use codecharacter_simulator.Actor.Soldier
use codecharacter_simulator.Actor.Tower.{Tower}
use codecharacter_simulator.Actor.Tower

pub data AnyActor (D : Double) : Type 0 where
  soldier : Soldier D → AnyActor D
  tower : Tower D → AnyActor D

module _ {D : Double} where
  abbrev pub base : AnyActor D → Actor D
  base (soldier s) = s.actor
  base (tower t) = t.actor

  abbrev pub get_latest_hp : AnyActor D → ℤ
  get_latest_hp (soldier s) = Soldier.latest_hp s
  get_latest_hp (tower t) = Tower.latest_hp t

  unfoldable pub damage : AnyActor D → ℤ → AnyActor D
  unfolding Soldier.damage Tower.damage
  damage (soldier s) amount = soldier (Soldier.damage s amount)
  damage (tower t) amount = tower (Tower.damage t amount)
