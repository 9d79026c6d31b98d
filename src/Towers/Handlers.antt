-- ===== src/Towers/Handlers.antt =====
-- The four handlers of `TowerManager::Update`, in the order in which it calls them.
use codecharacter_simulator.Prelude.{
  ℕ, zero, suc, ◌==◌, false, List, [], ◌∷◌, ◌++◌, ℤ, pos, negsuc, ◌-ℤ◌, ◌/◌, ◌+◌, eqb_ℤ, Option,
  none, some, length, replicate, get_elem?, set, erase_at, Result, ok, out_of_range, undefined,
  or_err, throw_if, ◌>>=◌, ◌>>◌, if◌then◌else◌,
}
use mathlib.Core.List.{reverse}
use codecharacter_simulator.Players.{PlayerId, tower_type}
use codecharacter_simulator.Physics.Double.{Double}
use codecharacter_simulator.Physics.Vector.{Vector}
use codecharacter_simulator.Actor.Base.{ActorId, get_next_actor_id}
use codecharacter_simulator.Actor.Tower.{Tower, of_level, upgrade, set_tower_hp}
use codecharacter_simulator.Money.{decrease, reward_suicide}
use codecharacter_simulator.Map.{GameMap, get_size}
use codecharacter_simulator.Towers.Defs.{
  TowerRules, TowerManager, TowerScene, calculate_bounds, Bounds,
}
use codecharacter_simulator.Towers.Territory.{Land, claim, claim_new, release}

-- `element_size / 2`, which drops the fraction.
abbrev pub half : ℤ → ℤ
half (pos n) = pos (n / 2)
half (negsuc n) = pos 0 -ℤ pos ((n + 1) / 2)

-- The middle of the cell at an offset, where a new tower stands.
unfoldable pub cell_middle : (D : Double) → ℤ → D.F → D.F
cell_middle D element_size x =
    D.add (D.mul (D.of_int element_size) x) (D.of_int (half element_size))

module _ {D : Double} where
  -- `BuildTower`, `UpgradeTower` and `SuicideTower` put a request in its queue.
  unfoldable pub build_tower : TowerManager D → Vector D → TowerManager D
  build_tower m v = record m { towers_to_build_offsets = m.towers_to_build_offsets ++ v ∷ [] }

  unfoldable pub upgrade_tower : TowerManager D → ActorId → TowerManager D
  upgrade_tower m id = record m { towers_to_upgrade = m.towers_to_upgrade ++ id ∷ [] }

  unfoldable pub suicide_tower : TowerManager D → ActorId → TowerManager D
  suicide_tower m id = record m { towers_to_suicide = m.towers_to_suicide ++ id ∷ [] }

  -- The search from the back for a tower with an identifier; `none` for the index -1.
  unfoldable pub last_index : List (Tower D) → ActorId → Option ℕ
  last_index [] id = none
  last_index (t ∷ ts) id = elim (last_index ts id) [
    | some i ↦ some (suc i)
    | none ↦ if eqb_ℤ t.id id then some zero else none
  ]

  -- `GetTowerById`.
  unfoldable pub get_tower_by_id : TowerManager D → ActorId → Result (Tower D)
  unfolding last_index
  get_tower_by_id m id = do
    i ← or_err (last_index m.towers id) out_of_range
    or_err (get_elem? m.towers i) undefined

  abbrev pub bounds_in : TowerRules → TowerScene D → Tower D → Result Bounds
  bounds_in r s t = calculate_bounds r (get_size s.map) s.map.element_size t

  abbrev pub land_of : TowerScene D → Land D
  land_of s = record { refs = s.manager.territory_refs; map = s.map }

  abbrev pub with_land : TowerScene D → Land D → TowerScene D
  with_land s l = record s { manager = record (s.manager) { territory_refs = l.refs }; map = l.map }

  abbrev pub with_towers : TowerScene D → List (Tower D) → TowerScene D
  with_towers s ts = record s { manager = record (s.manager) { towers = ts } }

  abbrev pub new_tower : TowerScene D → ℤ → ActorId → Vector D → Tower D
  new_tower s max_hp id offset = record {
    actor = record {
      id = id;
      player_id = s.manager.player_id;
      actor_type = tower_type;
      hp = max_hp;
      max_hp = max_hp;
      position = record {
        x = cell_middle D s.map.element_size offset.x;
        y = cell_middle D s.map.element_size offset.y;
      };
    };
    is_base = false;
    tower_level = 1;
  }

  -- One round of `HandleTowerBuildUpdates`.
  unfoldable pub build_one : TowerRules → Vector D → TowerScene D → Result (TowerScene D)
  build_one r offset s = do
    cost ← of_level r.build_costs 1
    money ← decrease s.money s.manager.player_id cost
    let (id, next_id) = get_next_actor_id s.next_id
    max_hp ← of_level r.max_hp_levels 1
    let t = new_tower s max_hp id offset
    b ← bounds_in r s t
    ok (
        with_land
          (record (with_towers s (s.manager.towers ++ t ∷ [])) { money = money; next_id = next_id })
          (claim s.manager.player_id b (land_of s)))

  -- One round of `HandleTowerUpgradeUpdates`.
  unfoldable pub upgrade_one : TowerRules → ActorId → TowerScene D → Result (TowerScene D)
  upgrade_one r id s = do
    i ← or_err (last_index s.manager.towers id) out_of_range
    t ← or_err (get_elem? s.manager.towers i) undefined
    throw_if (t.tower_level == length r.build_costs) out_of_range
    cost ← of_level r.build_costs (suc t.tower_level)
    money ← decrease s.money s.manager.player_id cost
    old_bounds ← bounds_in r s t
    t' ← upgrade r.max_hp_levels t
    new_bounds ← bounds_in r s t'
    ok (
        with_land (record (with_towers s (set s.manager.towers i t')) { money = money })
          (claim_new s.manager.player_id old_bounds new_bounds (land_of s)))

  -- One round of `HandleTowerSuicideUpdates`.
  unfoldable pub suicide_one : TowerRules → ActorId → TowerScene D → Result (TowerScene D)
  suicide_one r id s = do
    i ← or_err (last_index s.manager.towers id) out_of_range
    t ← or_err (get_elem? s.manager.towers i) undefined
    t' ← set_tower_hp t (pos 0)
    money ← reward_suicide s.money t'
    ok (record (with_towers s (set s.manager.towers i t')) { money = money })

  -- `while (!queue.empty()) { front, pop, ... }`.
  abbrev pub drain {ℓ} :
      {A : Type ℓ}
      → (A → TowerScene D → Result (TowerScene D))
      → List A
      → TowerScene D
      → Result (TowerScene D)
  drain f [] s = ok s
  drain f (x ∷ xs) s = f x s >>= drain f xs

  unfoldable pub handle_tower_build_updates : TowerRules → TowerScene D → Result (TowerScene D)
  handle_tower_build_updates r s =
      drain (build_one r) s.manager.towers_to_build_offsets
        (record s { manager = record (s.manager) { towers_to_build_offsets = [] } })

  unfoldable pub handle_tower_upgrade_updates : TowerRules → TowerScene D → Result (TowerScene D)
  handle_tower_upgrade_updates r s =
      drain (upgrade_one r) s.manager.towers_to_upgrade
        (record s { manager = record (s.manager) { towers_to_upgrade = [] } })

  unfoldable pub handle_tower_suicide_updates : TowerRules → TowerScene D → Result (TowerScene D)
  handle_tower_suicide_updates r s =
      drain (suicide_one r) s.manager.towers_to_suicide
        (record s { manager = record (s.manager) { towers_to_suicide = [] } })

  -- The indices of the towers with no hit points, in order; `i` is the index of the first tower.
  unfoldable pub dead_indices : ℕ → List (Tower D) → List ℕ
  dead_indices i [] = []
  dead_indices i (t ∷ ts) =
      let rest = dead_indices (suc i) ts in if eqb_ℤ t.hp (pos 0) then i ∷ rest else rest

  -- One round of the loop that deletes dead towers.
  unfoldable pub delete_one : TowerRules → ℕ → TowerScene D → Result (TowerScene D)
  delete_one r i s = do
    t ← or_err (get_elem? s.manager.towers i) undefined
    b ← bounds_in r s t
    let gone = with_land s (release s.manager.player_id b (land_of s))
    ok (record gone {
      manager = record (gone.manager) {
        towers = erase_at s.manager.towers i;
        towers_to_delete_last = s.manager.towers_to_delete_last ++ t ∷ [];
      };
    })

  -- The dead towers of the turn before move on for deletion, then this turn's are taken out, from
  -- the back.
  unfoldable pub handle_tower_death_updates : TowerRules → TowerScene D → Result (TowerScene D)
  handle_tower_death_updates r s =
      drain (delete_one r) (reverse (dead_indices 0 s.manager.towers)) (record s {
        manager = record (s.manager) {
          towers_to_delete_next = s.manager.towers_to_delete_last;
          towers_to_delete_last = [];
        };
      })

  unfoldable pub update : TowerRules → TowerScene D → Result (TowerScene D)
  update r s = do
    built ← handle_tower_build_updates r s
    upgraded ← handle_tower_upgrade_updates r built
    razed ← handle_tower_suicide_updates r upgraded
    handle_tower_death_updates r razed

  -- The constructor's loop: the territory of the towers that the player starts with.
  unfoldable pub claim_all :
      TowerRules → ℕ → ℤ → PlayerId → List (Tower D) → Land D → Result (Land D)
  claim_all r size es p [] l = ok l
  claim_all r size es p (t ∷ ts) l = do
    b ← calculate_bounds r size es t
    claim_all r size es p ts (claim p b l)

  -- `TowerManager::TowerManager`: the manager and the map that it has written.
  unfoldable pub new_manager :
      TowerRules → List (Tower D) → PlayerId → GameMap D → Result (TowerManager D × GameMap D)
  new_manager r ts p m = do
    l ←
        claim_all r (get_size m) m.element_size p ts
          (record { refs = replicate (get_size m) (replicate (get_size m) (pos 0)); map = m })
    ok (
      record {
        towers = ts;
        player_id = p;
        towers_to_build_offsets = [];
        towers_to_upgrade = [];
        towers_to_suicide = [];
        towers_to_delete_next = [];
        towers_to_delete_last = [];
        territory_refs = l.refs;
      },
      l.map,
    )
