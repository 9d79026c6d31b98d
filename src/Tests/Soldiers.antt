-- ===== src/Tests/Soldiers.antt =====
-- A soldier that sees a tower of the enemy, and one that has been hurt.
use codecharacter_simulator.Prelude.{
  ◌≡◌, ◌≤ℤ◌, min_ℤ, int64_max, refl, subst, Bool, true, false, ℤ, pos, ◌+ℤ◌, ◌-ℤ◌, ◌*ℤ◌, none, some,
  ok, arith,
}
use codecharacter_simulator.Players.{PlayerId, player1, player2, tower_type, soldier_type}
use codecharacter_simulator.Physics.Vector.{Vector, of_ints, distance}
use codecharacter_simulator.Actor.Soldier.{
  Soldier, SoldierState, to_tower, idle_state, move_state, attack_state,
}
use codecharacter_simulator.Actor.Soldier
use codecharacter_simulator.Actor.Tower.{Tower}
use codecharacter_simulator.Actor.Tower
use codecharacter_simulator.Actor.Any.{AnyActor, tower}
use codecharacter_simulator.Actor.Any
use codecharacter_simulator.Money.{reward_kill, increase}
use codecharacter_simulator.Soldier.Scene.{Rules, Scene}
use codecharacter_simulator.Soldier.Machine.{
  update, late_update, transitions, switch, commit_position, commit_damage, count_invulnerability,
}
use codecharacter_simulator.Soldier.States.{
  state_update, move_update, attack_update, state_exit, strike,
}
use codecharacter_simulator.Actor.Base.{set_hp}
use codecharacter_simulator.Soldier.Settles.Steps.{Settles}
use codecharacter_simulator.Soldier.Settles.Starts.{IsReady, IsCoherent, update-Settles}
use codecharacter_simulator.Soldier.Coherence.{turn-IsCoherent, late_update-IsCoherent}
use codecharacter_simulator.Soldier.Health.{
  IsHealthy, Committed, damage-IsHealthy, late_update-Committed,
}
use codecharacter_simulator.Tests.Doubles.{whole, root}
use codecharacter_simulator.Tests.Money.{purse, purse_of}

abbrev pub at_cell : ℤ → ℤ → Vector whole
at_cell x y = of_ints whole x y

abbrev pub rules : Rules whole
rules = record {
  total_turns_to_respawn = 3;
  respawn_positions = record { first = at_cell (pos 0) (pos 0); second = at_cell (pos 1) (pos 1) };
  total_num_turns_invulnerable = pos 2;
  get_next_position = λ p q v. ok q;
}

abbrev pub tower_of : PlayerId → ℤ → Vector whole → Bool → Tower whole
tower_of p id v base = record {
  actor = record {
    id = id;
    player_id = p;
    actor_type = tower_type;
    hp = pos 10;
    max_hp = pos 10;
    position = v;
  };
  is_base = base;
  tower_level = 1;
}

abbrev pub soldier_of : PlayerId → ℤ → Vector whole → ℤ → Soldier whole
soldier_of p id v hurt = record {
  actor = record {
    id = id;
    player_id = p;
    actor_type = soldier_type;
    hp = pos 100;
    max_hp = pos 100;
    position = v;
  };
  speed = pos 1;
  attack_range = pos 1;
  attack_damage = pos 20;
  attack_target = none;
  destination = at_cell (pos 1) (pos 1);
  is_destination_set = true;
  new_position = v;
  is_new_position_set = false;
  damage_incurred = hurt;
  state = idle_state;
  is_invulnerable = false;
  num_turns_invulnerable = pos 0;
}

abbrev victim : Tower whole
victim = tower_of player2 (pos 7) (at_cell (pos 0) (pos 1)) false

-- The soldier's blow destroys the tower.
abbrev fight : Scene whole
fight = record {
  self = record (soldier_of player1 (pos 0) (at_cell (pos 0) (pos 0)) (pos 0)) {
    attack_target = some (to_tower player2 (pos 7));
    is_destination_set = false;
    state = move_state;
  };
  target = some (tower victim);
  money = purse;
}

pays : reward_kill purse (Any.damage (tower victim) (pos 20)) ≡ ok (purse_of (pos 600) (pos 300))
unfolding Any.damage Tower.damage Soldier.damage reward_kill increase ◌+ℤ◌ ◌-ℤ◌
pays = refl

paid_for :
    (a : AnyActor whole)
    → some (tower victim) ≡ some a
    → reward_kill purse (Any.damage a (pos 20)) ≡ ok (purse_of (pos 600) (pos 300))
paid_for a e =
    subst (λ x. reward_kill purse (Any.damage x (pos 20)) ≡ ok (purse_of (pos 600) (pos 300))) (cc)
      pays

fight-IsReady : IsReady rules fight
fight-IsReady = record {
  coherent = refl;
  max_hp_pos = omega arith;
  respawn_pos = omega arith;
  target_there = λ p e. (tower victim, refl);
  plans = λ p q v. (q, refl);
  rewards = λ a e. (purse_of (pos 600) (pos 300), paid_for a e);
}

update-Settles_example : Settles (update rules fight)
update-Settles_example = update-Settles rules fight fight-IsReady

abbrev wounded : Soldier whole
wounded = soldier_of player1 (pos 0) (at_cell (pos 0) (pos 0)) (pos 90)

wounded-IsHealthy : IsHealthy wounded
wounded-IsHealthy = record {
  hp_low = omega arith;
  hp_high = omega arith;
  damage_low = omega arith;
  damage_high = omega arith;
}

sum_fits : wounded.damage_incurred +ℤ pos 30 ≤ℤ int64_max
unfolding ◌+ℤ◌
sum_fits = omega arith

damage-IsHealthy_example :
    IsHealthy (Soldier.damage wounded (pos 30))
    × ((Soldier.damage wounded (pos 30)).damage_incurred
        ≡ min_ℤ wounded.hp (wounded.damage_incurred +ℤ pos 30))
damage-IsHealthy_example =
    damage-IsHealthy wounded (pos 30) (omega arith) sum_fits wounded-IsHealthy

abbrev last_turn : Scene whole
last_turn = record { self = wounded; target = none; money = purse }

late_update-Committed_example : Committed wounded (late_update rules last_turn)
late_update-Committed_example = late_update-Committed rules last_turn wounded-IsHealthy

-- The tower has fallen, and its killer was hurt in the same turn.
abbrev fought : Scene whole
fought = record {
  self = record (fight.self) { state = attack_state };
  target = some (tower (record victim { actor = record (victim.actor) { hp = pos 0 } }));
  money = purse_of (pos 600) (pos 300);
}

abbrev over : Scene whole
over = record fought {
  self = record (fought.self) { actor = record (fought.self.actor) { hp = pos 80 } };
}

fights : update rules fight ≡ ok fought
unfolding update transitions switch state_update move_update attack_update state_exit strike
    distance root Any.damage Tower.damage Soldier.damage reward_kill increase ◌+ℤ◌ ◌-ℤ◌ ◌*ℤ◌
fights = refl

ends : late_update rules (record fought { self = Soldier.damage fought.self (pos 20) }) ≡ ok over
unfolding late_update commit_position commit_damage count_invulnerability set_hp Soldier.damage ◌+ℤ◌
    ◌-ℤ◌
ends = refl

turn-IsCoherent_example : IsCoherent over.self
turn-IsCoherent_example = turn-IsCoherent rules fight fought over (pos 20) fight-IsReady fights ends

abbrev hurt_once : Scene whole
hurt_once = record last_turn {
  self = record wounded { actor = record (wounded.actor) { hp = pos 10 }; damage_incurred = pos 0 };
}

takes : late_update rules last_turn ≡ ok hurt_once
unfolding late_update commit_position commit_damage count_invulnerability set_hp ◌+ℤ◌ ◌-ℤ◌
takes = refl

late_update-IsCoherent_example : IsCoherent hurt_once.self
late_update-IsCoherent_example = late_update-IsCoherent rules last_turn hurt_once tt takes
