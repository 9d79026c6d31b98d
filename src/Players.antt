-- ===== src/Players.antt =====
-- state/utilities.h: the two players, and a vector with one entry for each. Every vector that the
-- program indexes by a `PlayerId` has PLAYER_COUNT = 2 entries (main/main.cpp).
use codecharacter_simulator.Prelude.{◌≡◌, refl, Bool, true, false, if◌then◌else◌}

pub data PlayerId : Type 0 where
  player1 player2 : PlayerId

pub data ActorType : Type 0 where
  tower_type soldier_type : ActorType

abbrev pub player_eqb : PlayerId → PlayerId → Bool
player_eqb player1 player1 = true
player_eqb player2 player2 = true
player_eqb _ _ = false

-- `(player_id + 1) % PLAYER_COUNT`.
abbrev pub enemy : PlayerId → PlayerId
enemy player1 = player2
enemy player2 = player1

pub record PerPlayer {ℓ} (A : Type ℓ) : Type ℓ where
  pub first : A
  pub second : A

module _ {ℓ} {A : Type ℓ} where
  abbrev pub at : PerPlayer A → PlayerId → A
  at v player1 = v.first
  at v player2 = v.second

  abbrev pub put : PerPlayer A → PlayerId → A → PerPlayer A
  put v player1 a = record v { first = a }
  put v player2 a = record v { second = a }

  pub at-put :
      (v : PerPlayer A) (p q : PlayerId) (a : A)
      → at (put v p a) q ≡ (if player_eqb p q then a else at v q)
  at-put v player1 player1 a = refl
  at-put v player1 player2 a = refl
  at-put v player2 player1 a = refl
  at-put v player2 player2 a = refl
