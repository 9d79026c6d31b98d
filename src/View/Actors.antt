-- ===== src/View/Actors.antt =====
-- state/state_syncer/state_syncer.cpp: `AssignTowerAttributes` and `AssignSoldierAttributes`.
use codecharacter_simulator.Prelude.{
  ℕ, zero, suc, Bool, true, false, List, pos, negsuc, length, get_elem?, set, ltb, not, Result, ok,
  undefined, or_err, throw_if, ◌>>=◌, ◌>>◌,
}
use codecharacter_simulator.Players.{PlayerId, at, enemy}
use codecharacter_simulator.Physics.Double.{Double}
use codecharacter_simulator.Physics.Vector.{of_ints}
use codecharacter_simulator.Actor.Soldier.{Soldier, get_name}
use codecharacter_simulator.Actor.Tower.{Tower}
use codecharacter_simulator.Map.{GameMap}
use codecharacter_simulator.Game.Defs.{State}
use codecharacter_simulator.Syncer.PlayerState.{PlayerSoldier, PlayerTower}
use codecharacter_simulator.Syncer.Commands.{as_seen}
use codecharacter_simulator.Syncer.Turns.{each_round}

-- The player who looks at the actors of player `id`.
abbrev pub viewer : PlayerId → Bool → PlayerId
viewer id true = enemy id
viewer id false = id

-- `v[i] = a`, on an array of fixed length.
abbrev pub put_at {ℓ} : {A : Type ℓ} → List A → ℕ → A → Result (List A)
put_at v i a = do throw_if (not (ltb i (length v))) undefined; ok (set v i a)

-- The rounds of the loop over the soldiers. Its bound is the size of the team of `player_id`, which
-- for the enemy's soldiers is their own team in the first test, and then the viewer's.
abbrev pub soldier_rounds : Bool → ℕ → ℕ → ℕ
soldier_rounds false own other = own
soldier_rounds true zero other = zero
soldier_rounds true (suc own) zero = 1
soldier_rounds true (suc own) (suc other) = suc other

module _ {D : Double} where
  abbrev pub seen_tower : PlayerId → GameMap D → Tower D → PlayerTower D
  seen_tower p m t = record {
    id = t.id;
    position = as_seen p m t.position;
    hp = t.hp;
    level = pos t.tower_level;
    upgrade_tower = false;
    suicide = false;
  }

  abbrev pub seen_soldier : PlayerId → GameMap D → Soldier D → PlayerSoldier D
  seen_soldier p m x = record {
    id = x.id;
    position = as_seen p m x.position;
    hp = x.hp;
    state = get_name x.state;
    is_immune = x.is_invulnerable;
    tower_target = negsuc 0;
    soldier_target = negsuc 0;
    destination = of_ints D (negsuc 0) (negsuc 0);
  }

  -- The bodies of the two loops.
  unfoldable pub assign_tower :
      State D → PlayerId → Bool → ℕ → List (PlayerTower D) → Result (List (PlayerTower D))
  assign_tower s id is_enemy i towers = do
    t ← or_err (get_elem? (at s.tower_managers id).towers i) undefined
    put_at towers i (seen_tower (viewer id is_enemy) s.map t)

  unfoldable pub assign_soldier :
      State D → PlayerId → Bool → ℕ → List (PlayerSoldier D) → Result (List (PlayerSoldier D))
  assign_soldier s id is_enemy i soldiers = do
    x ← or_err (get_elem? (at s.soldiers id) i) undefined
    put_at soldiers i (seen_soldier (viewer id is_enemy) s.map x)

  unfoldable pub assign_tower_attributes :
      State D → PlayerId → Bool → List (PlayerTower D) → Result (List (PlayerTower D))
  assign_tower_attributes s id is_enemy towers =
      each_round (length (at s.tower_managers id).towers) 0 (assign_tower s id is_enemy) towers

  unfoldable pub assign_soldier_attributes :
      State D → PlayerId → Bool → List (PlayerSoldier D) → Result (List (PlayerSoldier D))
  assign_soldier_attributes s id is_enemy soldiers =
      each_round
        (soldier_rounds is_enemy (length (at s.soldiers id)) (length (at s.soldiers (enemy id)))) 0
        (assign_soldier s id is_enemy) soldiers
