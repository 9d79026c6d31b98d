-- ===== src/Logger/Towers.antt =====
-- logger/logger.cpp: the part of `LogState` that logs how a player's towers have changed.
use codecharacter_simulator.Prelude.{
  ℕ, zero, suc, true, false, not, ◌||◌, List, [], ◌∷◌, ◌++◌, ℤ, pos, eqb_ℤ, ltb_ℤ, none, some,
  length, get_elem?, set, erase_at, Result, ok, err, out_of_fuel, ◌>>=◌, if◌then◌else◌,
}
use codecharacter_simulator.Players.{PlayerId}
use codecharacter_simulator.Physics.Double.{Double}
use codecharacter_simulator.Actor.Tower.{Tower}
use codecharacter_simulator.Game.Defs.{player_index}
use codecharacter_simulator.Logger.Messages.{TowerMessage}

pub record TowerLogEntry : Type 0 where
  pub id : ℤ
  pub hp : ℤ
  pub level : ℤ

-- What the loops change: a player's tower log, the two positions and the messages of the frame.
pub record TowerDiff : Type 0 where
  pub log : List TowerLogEntry
  pub log_ptr : ℕ
  pub tower_ptr : ℕ
  pub messages : List TowerMessage

abbrev pub dead_tower : ℤ → TowerMessage
dead_tower id = record {
  id = id;
  player_id = 0;
  hp = pos 0;
  x = pos 0;
  y = pos 0;
  is_base = false;
  tower_level = pos 0;
  is_dead = true;
}

-- The second loop, on what is left of the log, with fuel.
unfoldable pub remove_towers : ℕ → TowerDiff → Result TowerDiff
remove_towers zero d = err out_of_fuel
remove_towers (suc fuel) d = elim (get_elem? d.log d.log_ptr) [
  | none ↦ ok d
  | some l ↦
      remove_towers fuel (record d {
        log = erase_at d.log d.log_ptr;
        messages = d.messages ++ (dead_tower l.id ∷ []);
      })
]

module _ {D : Double} where
  -- The casts to `int` are left out, here and in the messages and comparisons: an identifier or a level
  -- that does not fit 32 bits would be cut.
  abbrev pub entry_of : Tower D → TowerLogEntry
  entry_of t = record { id = t.id; hp = t.hp; level = pos t.tower_level }

  abbrev pub new_tower : Tower D → TowerMessage
  new_tower t = record {
    id = t.id;
    player_id = player_index t.player_id;
    hp = t.hp;
    x = D.to_int t.position.x;
    y = D.to_int t.position.y;
    is_base = t.is_base;
    tower_level = pos t.tower_level;
    is_dead = false;
  }

  abbrev pub changed_tower : PlayerId → Tower D → TowerMessage
  changed_tower p t = record {
    id = t.id;
    player_id = player_index p;
    hp = t.hp;
    x = pos 0;
    y = pos 0;
    is_base = false;
    tower_level = pos t.tower_level;
    is_dead = false;
  }

  -- The body of the first loop.
  unfoldable pub compare_step : PlayerId → TowerLogEntry → Tower D → TowerDiff → TowerDiff
  compare_step p l t d =
      if eqb_ℤ l.id t.id
      then (if not (eqb_ℤ l.hp t.hp) || not (eqb_ℤ l.level (pos t.tower_level))
          then record {
            log = set d.log d.log_ptr (record l { hp = t.hp; level = pos t.tower_level });
            log_ptr = suc d.log_ptr;
            tower_ptr = suc d.tower_ptr;
            messages = d.messages ++ (changed_tower p t ∷ []);
          }
          else record d { log_ptr = suc d.log_ptr; tower_ptr = suc d.tower_ptr })
      else if ltb_ℤ l.id t.id
      then record d {
        log = erase_at d.log d.log_ptr;
        messages = d.messages ++ (dead_tower l.id ∷ []);
      }
      else record d { log_ptr = suc d.log_ptr; tower_ptr = suc d.tower_ptr }

  -- The first loop, with fuel: each round shortens the log from `log_ptr` on.
  unfoldable pub compare_towers : ℕ → PlayerId → List (Tower D) → TowerDiff → Result TowerDiff
  compare_towers zero p ts d = err out_of_fuel
  compare_towers (suc fuel) p ts d = elim (get_elem? d.log d.log_ptr) [
    | none ↦ ok d
    | some l ↦ elim (get_elem? ts d.tower_ptr) [
      | none ↦ ok d
      | some t ↦ compare_towers fuel p ts (compare_step p l t d)
    ]
  ]

  -- The third loop, on what is left of the towers, with fuel.
  unfoldable pub add_towers : ℕ → List (Tower D) → TowerDiff → Result TowerDiff
  add_towers zero ts d = err out_of_fuel
  add_towers (suc fuel) ts d = elim (get_elem? ts d.tower_ptr) [
    | none ↦ ok d
    | some t ↦ add_towers fuel ts (record d {
      log = d.log ++ (entry_of t ∷ []);
      tower_ptr = suc d.tower_ptr;
      messages = d.messages ++ (new_tower t ∷ []);
    })
  ]

  -- The three loops for one player.
  unfoldable pub log_tower_changes :
      PlayerId → List TowerLogEntry → List (Tower D) → List TowerMessage → Result TowerDiff
  log_tower_changes p log ts messages = do
    a ←
        compare_towers (suc (length log)) p ts
          (record { log = log; log_ptr = 0; tower_ptr = 0; messages = messages })
    b ← remove_towers (suc (length log)) a
    add_towers (suc (length ts)) ts b
