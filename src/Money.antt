-- ===== src/Money.antt =====
-- state/money_manager/: the players' money. `int64_t` additions that leave the type are undefined.
pub mod Balance
pub mod Bounds
use codecharacter_simulator.Prelude.{
  Bool, ◌&&◌, List, ℤ, pos, ◌+ℤ◌, ◌-ℤ◌, ltb_ℤ, leb_ℤ, min_ℤ, int64_max, Result, ok, err,
  out_of_range, undefined, throw_if, ◌>>=◌, ◌>>◌, if◌then◌else◌,
}
use codecharacter_simulator.Players.{
  PlayerId, player1, player2, ActorType, tower_type, soldier_type, PerPlayer, at, put,
}
use codecharacter_simulator.Physics.Double.{Double}
use codecharacter_simulator.Actor.Tower.{Tower, of_level}
use codecharacter_simulator.Actor.Any.{AnyActor, soldier, tower, base}

pub record MoneyManager : Type 0 where
  pub player_money : PerPlayer ℤ
  pub max_money : ℤ
  pub tower_kill_reward_amount : List ℤ
  pub soldier_kill_reward_amount : ℤ
  pub tower_suicide_reward_amount : List ℤ

abbrev pub get_balance : MoneyManager → PlayerId → ℤ
get_balance m p = at m.player_money p

unfoldable pub increase : MoneyManager → PlayerId → ℤ → Result MoneyManager
increase m p amount = do
  throw_if (leb_ℤ amount (pos 0)) out_of_range
  let total = get_balance m p +ℤ amount
  throw_if (ltb_ℤ int64_max total) undefined
  ok (record m {
    player_money = put m.player_money p (if ltb_ℤ m.max_money total then m.max_money else total);
  })

unfoldable pub decrease : MoneyManager → PlayerId → ℤ → Result MoneyManager
decrease m p amount = do
  throw_if (leb_ℤ amount (pos 0)) out_of_range
  throw_if (ltb_ℤ (get_balance m p) amount) out_of_range
  ok (record m { player_money = put m.player_money p (get_balance m p -ℤ amount) })

-- The player who is rewarded for a kill: the owner's opponent.
abbrev pub killer : PlayerId → PlayerId
killer player2 = player1
killer player1 = player2

module _ {D : Double} where
  -- The cast to `Tower` of an actor that is none is undefined.
  abbrev tower_kill_amount : MoneyManager → AnyActor D → Result ℤ
  tower_kill_amount m (tower t) = of_level m.tower_kill_reward_amount t.tower_level
  tower_kill_amount m (soldier s) = err undefined

  abbrev pub kill_amount : MoneyManager → AnyActor D → ActorType → Result ℤ
  kill_amount m a soldier_type = ok m.soldier_kill_reward_amount
  kill_amount m a tower_type = tower_kill_amount m a

  unfoldable pub reward_kill : MoneyManager → AnyActor D → Result MoneyManager
  reward_kill m a = do
    amount ← kill_amount m a (base a).actor_type
    increase m (killer (base a).player_id) amount

  unfoldable pub reward_suicide : MoneyManager → Tower D → Result MoneyManager
  reward_suicide m t = do
    amount ← of_level m.tower_suicide_reward_amount t.tower_level
    increase m t.player_id amount
