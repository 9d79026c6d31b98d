-- ===== src/Syncer/Commands.antt =====
-- state/state_syncer/state_syncer.cpp: the six commands of `StateSyncer`, with their checks in the
-- order of the source. A command that is refused logs an error and returns.
use codecharacter_simulator.Prelude.{
  ℕ, suc, Bool, true, false, not, ◌||◌, List, [], ◌∷◌, ◌++◌, ℤ, pos, ◌-ℤ◌, ◌*ℤ◌, ltb_ℤ, eqb_ℤ,
  length, get_elem?, Result, ok, undefined, or_err, ◌>>=◌, if◌then◌else◌,
}
use codecharacter_simulator.Players.{PlayerId, player1, player2, PerPlayer, at, put, enemy}
use codecharacter_simulator.Physics.Double.{Double}
use codecharacter_simulator.Physics.Vector.{Vector, veq, vdiv, floor}
use codecharacter_simulator.Actor.Base.{ActorId}
use codecharacter_simulator.Actor.Soldier.{Soldier}
use codecharacter_simulator.Actor.Tower.{Tower}
use codecharacter_simulator.Map.{GameMap, get_size, get_element_by_offset}
use codecharacter_simulator.Game.Defs

-- logger/error_type.h.
pub data ErrorType : Type 0 where
  no_multiple_soldier_tasks no_multiple_tower_tasks no_alter_actor_id : ErrorType
  no_action_by_dead_soldier no_attack_base_tower invalid_position : ErrorType
  no_attack_self_tower no_attack_self_soldier no_attack_dead_soldier : ErrorType
  invalid_territory insufficient_funds no_more_upgrades no_suicide_base_tower : ErrorType
  no_more_towers no_attack_razed_tower no_attack_immune_soldier : ErrorType

-- The constructor parameters of `StateSyncer`.
pub record SyncerRules : Type 0 where
  pub tower_build_costs : List ℤ
  pub max_num_towers : ℤ

-- What the commands of a turn read and write: the state, the errors that the logger was given, and
-- the locals of `ExecutePlayerCommands` that are passed by reference.
pub record Turn (D : Double) : Type 0 where
  pub state : Defs.State D
  pub errors : List (PlayerId × ErrorType)
  pub player_money : PerPlayer ℤ
  pub num_towers : ℕ
  pub razed_towers : List ActorId

-- What the loop over the towers of the enemy finds: a base tower with the identifier ends it.
pub data TowerTarget : Type 0 where
  no_tower base_tower a_tower : TowerTarget

unfoldable pub is_razed : List ActorId → ActorId → Bool
is_razed [] id = false
is_razed (x ∷ xs) id = eqb_ℤ x id || is_razed xs id

-- The three flags that the loop over the soldiers of the enemy sets.
pub record SoldierTarget : Type 0 where
  pub valid_target : Bool
  pub enemy_alive : Bool
  pub enemy_immune : Bool

abbrev pub no_soldier : SoldierTarget
no_soldier = record { valid_target = false; enemy_alive = false; enemy_immune = false }

module _ {D : Double} where
  open D use {of_int, sub, leb, ltb}

  abbrev pub log_error : Turn D → PlayerId → ErrorType → Turn D
  log_error t p e = record t { errors = t.errors ++ ((p, e) ∷ []) }

  abbrev pub on_state : Turn D → Result (Defs.State D) → Result (Turn D)
  on_state t r = r >>= λ s. ok (record t { state = s })

  -- `map->GetSize() * map->GetElementSize()`.
  abbrev pub extent : GameMap D → ℤ
  extent m = pos (get_size m) *ℤ m.element_size

  unfoldable pub flip_position : GameMap D → Vector D → Vector D
  flip_position m v = record {
    x = sub (of_int (extent m -ℤ pos 1)) v.x;
    y = sub (of_int (extent m -ℤ pos 1)) v.y;
  }

  -- The position a player means: player 2 sees the map turned around.
  abbrev pub as_seen : PlayerId → GameMap D → Vector D → Vector D
  as_seen player1 m v = v
  as_seen player2 m v = flip_position m v

  abbrev pub offset_as_seen : PlayerId → GameMap D → Vector D → Vector D
  offset_as_seen player1 m v = v
  offset_as_seen player2 m v = record {
    x = sub (of_int (pos (get_size m) -ℤ pos 1)) v.x;
    y = sub (of_int (pos (get_size m) -ℤ pos 1)) v.y;
  }

  abbrev pub is_outside : GameMap D → Vector D → Bool
  is_outside m v =
      ltb v.x (of_int (pos 0))
      || leb (of_int (extent m)) v.x
      || ltb v.y (of_int (pos 0))
      || leb (of_int (extent m)) v.y

  -- The two checks with which every command to a soldier begins, and then the rest of it.
  unfoldable pub by_live_soldier :
      Turn D → PlayerId → ActorId → ℕ → Result (Turn D) → Result (Turn D)
  by_live_soldier t p id i rest = do
    x ← or_err (get_elem? (at t.state.soldiers p) i) undefined
    if not (eqb_ℤ id x.id)
        then ok (log_error t p no_alter_actor_id)
        else if eqb_ℤ x.hp (pos 0)
        then ok (log_error t p no_action_by_dead_soldier)
        else rest

  unfoldable pub move_soldier : Turn D → PlayerId → ActorId → Vector D → ℕ → Result (Turn D)
  move_soldier t p id position i = by_live_soldier t p id i (
      if is_outside t.state.map (as_seen p t.state.map position)
      then ok (log_error t p invalid_position)
      else on_state t (Defs.move_soldier t.state p id (as_seen p t.state.map position)))

  unfoldable pub find_target_tower : List (Tower D) → ActorId → TowerTarget → TowerTarget
  find_target_tower [] id found = found
  find_target_tower (x ∷ xs) id found =
      let rest = find_target_tower xs id in
      if eqb_ℤ id x.id then (if x.is_base then base_tower else rest a_tower) else rest found

  unfoldable pub attack_tower : Turn D → PlayerId → ActorId → ActorId → ℕ → Result (Turn D)
  attack_tower t p id tower_id i =
      by_live_soldier t p id i
        (elim (find_target_tower (at t.state.tower_managers (enemy p)).towers tower_id no_tower) [
          | base_tower ↦ ok (log_error t p no_attack_base_tower)
          | no_tower ↦ ok (log_error t p no_attack_self_tower)
          | a_tower ↦
              if is_razed t.razed_towers tower_id
              then ok (log_error t p no_attack_razed_tower)
              else on_state t (Defs.attack_actor_by_id t.state p id tower_id)
        ])

  unfoldable pub find_target_soldier : List (Soldier D) → ActorId → SoldierTarget → SoldierTarget
  find_target_soldier [] id f = f
  find_target_soldier (x ∷ xs) id f = find_target_soldier xs id (
      if eqb_ℤ id x.id
      then record {
        valid_target = true;
        enemy_alive = f.enemy_alive || not (eqb_ℤ x.hp (pos 0));
        enemy_immune = f.enemy_immune || x.is_invulnerable;
      }
      else f)

  -- The error about an invulnerable target does not end the command, as the others do.
  unfoldable pub attack_soldier : Turn D → PlayerId → ActorId → ActorId → ℕ → Result (Turn D)
  attack_soldier t p id enemy_soldier_id i =
      let f = find_target_soldier (at t.state.soldiers (enemy p)) enemy_soldier_id no_soldier in
      by_live_soldier t p id i (
        if not f.valid_target
        then ok (log_error t p no_attack_self_soldier)
        else if not f.enemy_alive
        then ok (log_error t p no_attack_dead_soldier)
        else on_state (if f.enemy_immune then log_error t p no_attack_immune_soldier else t)
            (Defs.attack_actor_by_id t.state p id enemy_soldier_id))

  -- The loop over the player's towers: is there one in the cell?
  unfoldable pub is_occupied : GameMap D → List (Tower D) → Vector D → Bool
  is_occupied m [] v = false
  is_occupied m (x ∷ xs) v =
      veq D (floor D (vdiv D x.position (of_int m.element_size))) v || is_occupied m xs v

  unfoldable pub build_tower : SyncerRules → Turn D → PlayerId → Vector D → Result (Turn D)
  build_tower c t p offset =
      let v = offset_as_seen p t.state.map offset in
      if ltb_ℤ c.max_num_towers (pos (suc t.num_towers))
      then ok (log_error t p no_more_towers)
      else do
        e ← get_element_by_offset t.state.map v
        if not (at e.ownership p)
              || at e.ownership (enemy p)
              || is_occupied t.state.map (at t.state.tower_managers p).towers v
            then ok (log_error t p invalid_territory)
            else do
              cost ← or_err (get_elem? c.tower_build_costs 0) undefined
              if ltb_ℤ (at t.player_money p) cost
                  then ok (log_error t p insufficient_funds)
                  else ok (record t {
                    player_money = put t.player_money p (at t.player_money p -ℤ cost);
                    num_towers = suc t.num_towers;
                    state = Defs.request_build t.state p v;
                  })

  -- The checks on the tower at an index.
  unfoldable pub upgrade_tower : SyncerRules → Turn D → PlayerId → ActorId → ℕ → Result (Turn D)
  upgrade_tower c t p id i = do
    x ← or_err (get_elem? (at t.state.tower_managers p).towers i) undefined
    if not (eqb_ℤ id x.id)
        then ok (log_error t p no_alter_actor_id)
        else if eqb_ℤ (pos x.tower_level) (pos (length c.tower_build_costs))
        then ok (log_error t p no_more_upgrades)
        else do
          cost ← or_err (get_elem? c.tower_build_costs x.tower_level) undefined
          if ltb_ℤ (at t.player_money p) cost
              then ok (log_error t p insufficient_funds)
              else ok (record t {
                player_money = put t.player_money p (at t.player_money p -ℤ cost);
                state = Defs.request_upgrade t.state p id;
              })

  unfoldable pub suicide_tower : Turn D → PlayerId → ActorId → ℕ → Result (Turn D)
  suicide_tower t p id i = do
    x ← or_err (get_elem? (at t.state.tower_managers p).towers i) undefined
    if not (eqb_ℤ id x.id)
        then ok (log_error t p no_alter_actor_id)
        else if x.is_base
        then ok (log_error t p no_suicide_base_tower)
        else ok (record t {
          razed_towers = t.razed_towers ++ (id ∷ []);
          state = Defs.request_suicide t.state p id;
        })
