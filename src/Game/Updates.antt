-- ===== src/Game/Updates.antt =====
-- `State::Update`: both tower managers, then every soldier, then every soldier's late update.
use codecharacter_simulator.Prelude.{
  ℕ, zero, suc, List, [], ◌∷◌, ◌++◌, eqb_ℤ, Option, none, some, length, get_elem?, Result, ok,
  undefined, or_err, ◌>>=◌, if◌then◌else◌,
}
use codecharacter_simulator.Players.{PlayerId, player1, player2, at}
use codecharacter_simulator.Physics.Double.{Double}
use codecharacter_simulator.Actor.Base.{ActorId}
use codecharacter_simulator.Actor.Soldier.{Soldier, ActorPtr, to_soldier, to_tower}
use codecharacter_simulator.Actor.Tower.{Tower}
use codecharacter_simulator.Actor.Any.{AnyActor, soldier, tower}
use codecharacter_simulator.Soldier.Scene.{Rules, Scene}
use codecharacter_simulator.Soldier.Machine
use codecharacter_simulator.Towers.Defs.{TowerRules, TowerManager}
use codecharacter_simulator.Towers.Handlers
use codecharacter_simulator.Game.Defs.{State, set_soldier, with_manager}

module _ {D : Double} where
  -- The tower that has an identifier, wherever the manager keeps it: alive, or dead for one turn or
  -- two.
  unfoldable pub find_tower : List (Tower D) → ActorId → Option (Tower D)
  find_tower [] id = none
  find_tower (t ∷ ts) id = if eqb_ℤ t.id id then some t else find_tower ts id

  unfoldable pub replace_tower : List (Tower D) → ActorId → Tower D → List (Tower D)
  replace_tower [] id t' = []
  replace_tower (t ∷ ts) id t' = if eqb_ℤ t.id id then t' ∷ ts else t ∷ replace_tower ts id t'

  abbrev any_soldier : Option (Soldier D) → Option (AnyActor D)
  any_soldier none = none
  any_soldier (some x) = some (soldier x)

  abbrev pub any_tower : Option (Tower D) → Option (AnyActor D)
  any_tower none = none
  any_tower (some t) = some (tower t)

  abbrev pub kept_towers : TowerManager D → List (Tower D)
  kept_towers m = m.towers ++ m.towers_to_delete_last ++ m.towers_to_delete_next

  -- The object behind a pointer; none if the tower has been freed.
  abbrev pub deref : State D → Option ActorPtr → Option (AnyActor D)
  deref s none = none
  deref s (some (to_soldier p i)) = any_soldier (get_elem? (at s.soldiers p) i)
  deref s (some (to_tower p id)) = any_tower (find_tower (kept_towers (at s.tower_managers p)) id)

  abbrev pub store_tower : TowerManager D → ActorId → Tower D → TowerManager D
  store_tower m id t = record m {
    towers = replace_tower m.towers id t;
    towers_to_delete_last = replace_tower m.towers_to_delete_last id t;
    towers_to_delete_next = replace_tower m.towers_to_delete_next id t;
  }

  -- The object behind a pointer after it was changed.
  abbrev pub store_target : State D → Option ActorPtr → Option (AnyActor D) → State D
  store_target s (some (to_soldier p i)) (some (soldier x)) = set_soldier s p i x
  store_target s (some (to_tower p id)) (some (tower t)) =
      with_manager s p (store_tower (at s.tower_managers p) id t)
  store_target s ptr other = s

  -- A call of a method of one soldier, on what it can reach. A soldier's target is an actor of the
  -- opponent (`AttackActor`), so not itself.
  unfoldable pub on_scene : (Scene D → Result (Scene D)) → PlayerId → ℕ → State D → Result (State D)
  on_scene f p i s = do
    x ← or_err (get_elem? (at s.soldiers p) i) undefined
    done ← f (record { self = x; target = deref s x.attack_target; money = s.money_manager })
    ok (record (store_target (set_soldier s p i done.self) x.attack_target done.target) {
      money_manager = done.money;
    })

  -- A loop over a player's soldiers: `n` rounds from index `i` on.
  unfoldable pub each_soldier :
      (Scene D → Result (Scene D)) → PlayerId → ℕ → ℕ → State D → Result (State D)
  each_soldier f p zero i s = ok s
  each_soldier f p (suc n) i s = on_scene f p i s >>= each_soldier f p n (suc i)

  unfoldable pub all_soldiers : (Scene D → Result (Scene D)) → State D → Result (State D)
  all_soldiers f s = each_soldier f player1 (length s.soldiers.first) 0 s >>= λ s'.
      each_soldier f player2 (length s'.soldiers.second) 0 s'

  unfoldable pub update_manager : TowerRules → PlayerId → State D → Result (State D)
  update_manager r p s = do
    done ← Handlers.update r (record {
      manager = at s.tower_managers p;
      money = s.money_manager;
      map = s.map;
      next_id = s.next_id;
    })
    ok (record (with_manager s p done.manager) {
      money_manager = done.money;
      map = done.map;
      next_id = done.next_id;
    })

  unfoldable pub update : TowerRules → Rules D → State D → Result (State D)
  update tr r s = do
    s₁ ← update_manager tr player1 s
    s₂ ← update_manager tr player2 s₁
    s₃ ← all_soldiers (Machine.update r) s₂
    all_soldiers (Machine.late_update r) s₃
