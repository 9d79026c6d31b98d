-- ===== src/Actor/Tower.antt =====
-- state/actor/tower.h, tower.cpp.
use codecharacter_simulator.Prelude.{
  ℕ, zero, suc, Bool, List, ℤ, pos, ◌-ℤ◌, max_ℤ, get_elem?, Result, ok, err, undefined, or_err,
  ◌>>=◌,
}
use codecharacter_simulator.Physics.Double.{Double}
use codecharacter_simulator.Actor.Base.{Actor, set_hp}

-- Levels count from 1 (`TowerLevel` is `int64_t`).
pub record Tower (D : Double) : Type 0 where
  pub actor : Actor D
  pub open actor use *
  pub is_base : Bool
  pub tower_level : ℕ

-- `v[level - 1]` of a vector indexed by the level of a tower.
abbrev pub of_level : List ℤ → ℕ → Result ℤ
of_level v zero = err undefined
of_level v (suc i) = or_err (get_elem? v i) undefined

module _ {D : Double} where
  -- `Tower::Upgrade`, with the static `max_hp_levels`.
  unfoldable pub upgrade : List ℤ → Tower D → Result (Tower D)
  upgrade max_hp_levels t = do
    max_hp ← of_level max_hp_levels (suc t.tower_level)
    ok (record t {
      tower_level = suc t.tower_level;
      actor = record (t.actor) { max_hp = max_hp; hp = max_hp };
    })

  -- `Tower::GetLatestHp` and `Tower::Damage`.
  abbrev pub latest_hp : Tower D → ℤ
  latest_hp t = t.hp

  unfoldable pub damage : Tower D → ℤ → Tower D
  damage t amount = record t { actor = record (t.actor) { hp = max_ℤ (pos 0) (t.hp -ℤ amount) } }

  -- `SetHp`, inherited from `Actor`.
  unfoldable pub set_tower_hp : Tower D → ℤ → Result (Tower D)
  unfolding set_hp
  set_tower_hp t hp = do a ← set_hp t.actor hp; ok (record t { actor = a })
