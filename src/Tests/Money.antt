-- ===== src/Tests/Money.antt =====
-- The money of a small game.
use codecharacter_simulator.Prelude.{
  ◌≡◌, refl, [], ◌∷◌, ℤ, pos, ◌+ℤ◌, ◌-ℤ◌, ◌<ℤ◌, ◌≤ℤ◌, min_ℤ, int64_max, ok, err, out_of_range,
  undefined, ◌⊎◌, arith,
}
use codecharacter_simulator.Players.{player1, player2}
use codecharacter_simulator.Money.{MoneyManager, get_balance, increase, decrease}
use codecharacter_simulator.Money.Bounds.{IsValid, increase-IsValid}
use codecharacter_simulator.Money.Balance.{
  increase_credits, increase_at_int64_max, decrease_cases, decrease-increase,
}

-- The limit is the one of constants/money_manager.h.
abbrev pub purse_of : ℤ → ℤ → MoneyManager
purse_of a b = record {
  player_money = record { first = a; second = b };
  max_money = int64_max;
  tower_kill_reward_amount = pos 100 ∷ pos 200 ∷ [];
  soldier_kill_reward_amount = pos 50;
  tower_suicide_reward_amount = pos 25 ∷ pos 75 ∷ [];
}

abbrev pub purse : MoneyManager
purse = purse_of (pos 500) (pos 300)

pub purse-IsValid : IsValid purse
purse-IsValid = record {
  fits = omega arith;
  low1 = omega arith;
  low2 = omega arith;
  high1 = omega arith;
  high2 = omega arith;
}

spent : decrease purse player1 (pos 200) ≡ ok (purse_of (pos 300) (pos 300))
unfolding decrease ◌-ℤ◌
spent = refl

earned : increase purse player2 (pos 200) ≡ ok (purse_of (pos 500) (pos 500))
unfolding increase ◌+ℤ◌
earned = refl

fits : get_balance purse player1 +ℤ pos 100 ≤ℤ int64_max
unfolding ◌+ℤ◌
fits = omega arith

increase_credits_example :
    (n : MoneyManager) × (increase purse player1 (pos 100) ≡ ok n)
    × (get_balance n player1 ≡ min_ℤ int64_max (pos 500 +ℤ pos 100))
    × (get_balance n player2 ≡ pos 300)
    × (n.max_money ≡ purse.max_money)
    × IsValid n
increase_credits_example = increase_credits purse player1 (pos 100) purse-IsValid (omega arith) fits

increase_at_int64_max_example :
    ((n : MoneyManager) × (increase purse player1 (pos 100) ≡ ok n)
      × (get_balance n player1 ≡ pos 500 +ℤ pos 100))
    ⊎ ((int64_max <ℤ pos 500 +ℤ pos 100) × (increase purse player1 (pos 100) ≡ err undefined))
increase_at_int64_max_example = increase_at_int64_max purse player1 (pos 100) refl (omega arith)

decrease_cases_example :
    ((pos 0 <ℤ pos 600)
      × (pos 600 ≤ℤ pos 500)
      × ((n : MoneyManager) × (decrease purse player1 (pos 600) ≡ ok n)
          × (get_balance n player1 +ℤ pos 600 ≡ pos 500)
          × (get_balance n player2 ≡ pos 300)))
    ⊎ (((pos 600 ≤ℤ pos 0) ⊎ (pos 500 <ℤ pos 600))
        × (decrease purse player1 (pos 600) ≡ err out_of_range))
decrease_cases_example = decrease_cases purse player1 (pos 600)

decrease-increase_example : increase (purse_of (pos 300) (pos 300)) player1 (pos 200) ≡ ok purse
decrease-increase_example =
    decrease-increase purse (purse_of (pos 300) (pos 300)) player1 (pos 200) purse-IsValid spent

increase-IsValid_example : IsValid (purse_of (pos 500) (pos 500))
increase-IsValid_example =
    increase-IsValid purse (purse_of (pos 500) (pos 500)) player2 (pos 200) purse-IsValid earned
