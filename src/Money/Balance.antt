-- ===== src/Money/Balance.antt =====
-- What the operations of the money manager do to the two balances.
use codecharacter_simulator.Prelude.{
  ◌≡◌, ℤ, pos, ◌+ℤ◌, ◌-ℤ◌, ◌≤ℤ◌, ◌<ℤ◌, min_ℤ, int64_max, int_laws, arith, ok, err, out_of_range,
  undefined, inl, inr, ◌⊎◌, ◌||◌, Bool-cases, ltb_ℤ, leb_ℤ, refl,
}
use codecharacter_simulator.Players.{PlayerId, player1, player2, enemy}
use codecharacter_simulator.Money.{MoneyManager, get_balance, increase, decrease}
use codecharacter_simulator.Money.Bounds.{IsValid}

-- In a valid manager a positive amount whose sum with the balance fits an `int64_t` is added, up to
-- `max_money`; the opponent's balance and the limit stay as they were.
pub increase_credits :
    (m : MoneyManager) (p : PlayerId) (amount : ℤ)
    → IsValid m
    → pos 0 <ℤ amount
    → get_balance m p +ℤ amount ≤ℤ int64_max
    → (n : MoneyManager) × (increase m p amount ≡ ok n)
      × (get_balance n p ≡ min_ℤ m.max_money (get_balance m p +ℤ amount))
      × (get_balance n (enemy p) ≡ get_balance m (enemy p))
      × (n.max_money ≡ m.max_money)
      × IsValid n
unfolding increase
increase_credits m player1 amount v h f = (
  record m {
    player_money = record (m.player_money) {
      first = min_ℤ m.max_money (get_balance m player1 +ℤ amount);
    };
  },
  grind int_laws,
  grind int_laws,
  grind int_laws,
  refl,
  grind int_laws,
)
increase_credits m player2 amount v h f = (
  record m {
    player_money = record (m.player_money) {
      second = min_ℤ m.max_money (get_balance m player2 +ℤ amount);
    };
  },
  grind int_laws,
  grind int_laws,
  grind int_laws,
  refl,
  grind int_laws,
)

-- With the limit at the largest `int64_t`, as constants/money_manager.h sets it, the clamp never
-- acts: a positive credit is exact, or the addition overflows before the balance is compared.
pub increase_at_int64_max :
    (m : MoneyManager) (p : PlayerId) (amount : ℤ)
    → m.max_money ≡ int64_max
    → pos 0 <ℤ amount
    → ((n : MoneyManager) × (increase m p amount ≡ ok n)
        × (get_balance n p ≡ get_balance m p +ℤ amount))
      ⊎ ((int64_max <ℤ get_balance m p +ℤ amount) × (increase m p amount ≡ err undefined))
unfolding increase
increase_at_int64_max m player1 amount e h =
    elim (Bool-cases (ltb_ℤ int64_max (get_balance m player1 +ℤ amount))) [
      | inl over ↦ inr (grind int_laws, grind int_laws)
      | inr fits ↦ inl (
        record m {
          player_money = record (m.player_money) { first = get_balance m player1 +ℤ amount };
        },
        grind int_laws,
        refl,
      )
    ]
increase_at_int64_max m player2 amount e h =
    elim (Bool-cases (ltb_ℤ int64_max (get_balance m player2 +ℤ amount))) [
      | inl over ↦ inr (grind int_laws, grind int_laws)
      | inr fits ↦ inl (
        record m {
          player_money = record (m.player_money) { second = get_balance m player2 +ℤ amount };
        },
        grind int_laws,
        refl,
      )
    ]

-- A payment that is positive and covered leaves the rest, and the opponent's balance alone; any
-- other is out of range.
pub decrease_cases :
    (m : MoneyManager) (p : PlayerId) (amount : ℤ)
    → ((pos 0 <ℤ amount)
        × (amount ≤ℤ get_balance m p)
        × ((n : MoneyManager) × (decrease m p amount ≡ ok n)
            × (get_balance n p +ℤ amount ≡ get_balance m p)
            × (get_balance n (enemy p) ≡ get_balance m (enemy p))))
      ⊎ (((amount ≤ℤ pos 0) ⊎ (get_balance m p <ℤ amount))
          × (decrease m p amount ≡ err out_of_range))
unfolding decrease
decrease_cases m player1 amount =
    elim (Bool-cases (leb_ℤ amount (pos 0) || ltb_ℤ (get_balance m player1) amount)) [
      | inl bad ↦ inr (ground arith, ground arith)
      | inr good ↦ inl (
        ground arith,
        ground arith,
        (
          record m {
            player_money = record (m.player_money) { first = get_balance m player1 -ℤ amount };
          },
          ground arith,
          omega int_laws,
          refl,
        ),
      )
    ]
decrease_cases m player2 amount =
    elim (Bool-cases (leb_ℤ amount (pos 0) || ltb_ℤ (get_balance m player2) amount)) [
      | inl bad ↦ inr (ground arith, ground arith)
      | inr good ↦ inl (
        ground arith,
        ground arith,
        (
          record m {
            player_money = record (m.player_money) { second = get_balance m player2 -ℤ amount };
          },
          ground arith,
          omega int_laws,
          refl,
        ),
      )
    ]

-- In a manager with valid balances, what a player spends and then earns back is there again: the
-- manager is the one it was.
pub decrease-increase :
    (m n : MoneyManager) (p : PlayerId) (amount : ℤ)
    → IsValid m
    → decrease m p amount ≡ ok n
    → increase n p amount ≡ ok m
unfolding decrease increase
decrease-increase m n player1 amount v e = grind int_laws
decrease-increase m n player2 amount v e = grind int_laws
