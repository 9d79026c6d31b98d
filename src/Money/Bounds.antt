-- ===== src/Money/Bounds.antt =====
-- The balances stay between zero and the limit, whatever is earned or spent.
use codecharacter_simulator.Physics.Double.{Double}
use codecharacter_simulator.Actor.Tower.{Tower, of_level}
use codecharacter_simulator.Actor.Any.{AnyActor, base}
use codecharacter_simulator.Money.{kill_amount, killer, reward_kill, reward_suicide}
use codecharacter_simulator.Prelude.{>>=-eq-ok, ◌≡◌, ℤ, pos, ◌≤ℤ◌, int64_max, int_laws, ok}
use codecharacter_simulator.Players.{PlayerId, player1, player2}
use codecharacter_simulator.Money.{MoneyManager, get_balance, increase, decrease}

-- Every balance lies between zero and `max_money`, which fits an `int64_t`.
pub record IsValid (m : MoneyManager) : Type 0 where
  pub fits : m.max_money ≤ℤ int64_max
  pub low1 : pos 0 ≤ℤ get_balance m player1
  pub low2 : pos 0 ≤ℤ get_balance m player2
  pub high1 : get_balance m player1 ≤ℤ m.max_money
  pub high2 : get_balance m player2 ≤ℤ m.max_money

-- Where every balance is valid, they still are after an increase that returns.
pub increase-IsValid :
    (m n : MoneyManager) (p : PlayerId) (amount : ℤ)
    → IsValid m
    → increase m p amount ≡ ok n
    → IsValid n
unfolding increase
increase-IsValid m n player1 amount v e = grind int_laws
increase-IsValid m n player2 amount v e = grind int_laws

-- Where every balance is valid, they still are after a decrease that returns.
pub decrease-IsValid :
    (m n : MoneyManager) (p : PlayerId) (amount : ℤ)
    → IsValid m
    → decrease m p amount ≡ ok n
    → IsValid n
unfolding decrease
decrease-IsValid m n player1 amount v e = grind int_laws
decrease-IsValid m n player2 amount v e = grind int_laws

module _ {D : Double} where
  pub reward_kill-IsValid :
      (m n : MoneyManager) (a : AnyActor D) → IsValid m → reward_kill m a ≡ ok n → IsValid n
  unfolding reward_kill
  reward_kill-IsValid m n a v e =
      let (amount, e₁, k₁) = >>=-eq-ok (kill_amount m a (base a).actor_type) _ e in
      increase-IsValid m n (killer (base a).player_id) amount v k₁

  pub reward_suicide-IsValid :
      (m n : MoneyManager) (t : Tower D) → IsValid m → reward_suicide m t ≡ ok n → IsValid n
  unfolding reward_suicide
  reward_suicide-IsValid m n t v e =
      let (amount, e₁, k₁) = >>=-eq-ok (of_level m.tower_suicide_reward_amount t.tower_level) _ e in
      increase-IsValid m n t.player_id amount v k₁
