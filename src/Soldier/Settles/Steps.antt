-- ===== src/Soldier/Settles/Steps.antt =====
-- One step of a soldier's machine at a time: what each state's update does, and how the loop goes on.
use codecharacter_simulator.Prelude.{
  ℕ, suc, ◌≡◌, refl, Bool, true, false, none, some, pos, ◌≤ℤ◌, Result, ok, err, ◌>>=◌, arith, ◌+ℤ◌,
  Bool-cases, inl, inr, eqb_ℤ, if◌then◌else◌, not,
}
use codecharacter_simulator.Players.{at}
use codecharacter_simulator.Physics.Double.{Double}
use codecharacter_simulator.Actor.Base.{Actor, set_hp}
use codecharacter_simulator.Actor.Soldier.{
  Soldier, SoldierState, ActorPtr, idle_state, move_state, attack_state, pursuit_state, dead_state,
  is_attack_target_set,
}
use codecharacter_simulator.Actor.Any.{AnyActor, damage, base, get_latest_hp}
use codecharacter_simulator.Money.{MoneyManager, reward_kill}
use codecharacter_simulator.Soldier.Scene.{Rules, Scene, in_range}
use codecharacter_simulator.Soldier.States.{
  Outcome, state_update, strike, attack_update, pursuit_update, idle_update, move_update,
  dead_update, with_self, state_exit, dead_exit, entered, engage, become, stay, advance,
  drop_target, new_dead_state,
}
use codecharacter_simulator.Soldier.Machine.{switch, transitions}

-- What holds when an update has ended.
abbrev pub IsSettledAt : SoldierState → Bool → Bool → Type 0
IsSettledAt idle_state target destination = (target ≡ false) × (destination ≡ false)
IsSettledAt move_state target destination = (target ≡ false) × (destination ≡ true)
IsSettledAt attack_state target destination = (target ≡ true) × (destination ≡ false)
IsSettledAt pursuit_state target destination = (target ≡ true) × (destination ≡ false)
IsSettledAt (dead_state n) target destination = Unit {0}

-- The states that are left with no change to the soldier.
abbrev pub is_plain : SoldierState → Bool
is_plain move_state = false
is_plain (dead_state n) = false
is_plain other = true

module _ {D : Double} where
  abbrev pub IsSettled : Soldier D → Type 0
  IsSettled s = IsSettledAt s.state (is_attack_target_set s) s.is_destination_set

  -- The update returned, and the soldier is settled.
  abbrev pub Settles : Result (Scene D) → Type 0
  Settles (ok s) = IsSettled s.self
  Settles (err e) = ⊥

  -- A blow that does not make the reward throw ends the update with the soldier unchanged.
  pub strike_lem :
      (s : Scene D) (a : AnyActor D) {m : MoneyManager}
      → reward_kill s.money (damage a s.self.attack_damage) ≡ ok m
      → (s' : Scene D) × (strike a s ≡ ok (none, s')) × (s'.self ≡ s.self)
  unfolding strike
  strike_lem s a {m} h =
      elim (Bool-cases (eqb_ℤ (get_latest_hp (damage a s.self.attack_damage)) (pos 0))) [
        | inl kills ↦ (
          record s { target = some (damage a s.self.attack_damage); money = m },
          rw (kills, h),
          refl,
        )
        | inr not_yet ↦
            (record s { target = some (damage a s.self.attack_damage) }, rw not_yet, refl)
      ]

  -- A living soldier with a target and no destination.
  pub record Engaged (s : Scene D) (p : ActorPtr) (a : AnyActor D) : Type 0 where
    pub alive : eqb_ℤ s.self.hp (pos 0) ≡ false
    pub aimed : s.self.attack_target ≡ some p
    pub here : s.target ≡ some a
    pub free : s.self.is_destination_set ≡ false

  pub attack_cases :
      (s : Scene D) (p : ActorPtr) (a : AnyActor D)
      → Engaged s p a
      → attack_update s ≡ (
          if eqb_ℤ (get_latest_hp a) (pos 0)
          then become idle_state (drop_target s)
          else if not (in_range s.self a)
          then become pursuit_state s
          else strike a s)
  unfolding attack_update
  attack_cases s p a h = ground arith

  pub pursuit_cases :
      (r : Rules D) (s : Scene D) (p : ActorPtr) (a : AnyActor D)
      → Engaged s p a
      → pursuit_update r s ≡ (
          if eqb_ℤ (get_latest_hp a) (pos 0)
          then become idle_state (drop_target s)
          else if in_range s.self a
          then become attack_state s
          else advance r (base a).position s)
  unfolding pursuit_update
  pursuit_cases r s p a h = ground arith

  pub engage_cases :
      (s : Scene D) (p : ActorPtr) (a : AnyActor D)
      → s.self.attack_target ≡ some p
      → s.target ≡ some a
      → engage s
        ≡ (if not (in_range s.self a) then become pursuit_state s else become attack_state s)
  engage_cases s p a h k = ground arith

  pub idle_rests :
      (s : Scene D)
      → eqb_ℤ s.self.hp (pos 0) ≡ false
      → is_attack_target_set s.self ≡ false
      → s.self.is_destination_set ≡ false
      → idle_update s ≡ stay s
  unfolding idle_update
  idle_rests s h t d = rw (h, d, t)

  pub state_is :
      (r : Rules D) (s : Scene D) {st : SoldierState}
      → s.self.state ≡ st
      → state_update r s ≡ elim st [
        | idle_state ↦ idle_update s
        | move_state ↦ move_update r s
        | attack_state ↦ attack_update s
        | pursuit_state ↦ pursuit_update r s
        | dead_state n ↦ dead_update n s
      ]
  unfolding state_update
  state_is r s e = rw (← e)

  -- The update, and the changes of state that follow it, settle.
  abbrev pub After : ℕ → Rules D → Result (Outcome D) → Type 0
  After f r o = Settles (o >>= transitions f r)

  -- A change of state that goes through costs one round of the loop.
  pub After-become :
      (r : Rules D) (f : ℕ) (n : SoldierState) (s s' : Scene D)
      → switch r n s ≡ ok s'
      → After f r (state_update r s')
      → After (suc f) r (become n s)
  unfolding transitions
  After-become r f n s s' e h = rw e h

  pub switch_plain :
      (r : Rules D) (n st : SoldierState) (s : Scene D)
      → s.self.state ≡ st
      → is_plain st ≡ true
      → switch r n s ≡ ok (with_self s (record (s.self) { state = entered r n }))
  unfolding switch state_exit
  switch_plain r n idle_state s e h = rw (e, switch, state_exit)
  switch_plain r n attack_state s e h = rw (e, switch, state_exit)
  switch_plain r n pursuit_state s e h = rw (e, switch, state_exit)
  switch_plain r n move_state s e h = cc
  switch_plain r n (dead_state k) s e h = cc

  pub switch_move :
      (r : Rules D) (n : SoldierState) (s : Scene D)
      → s.self.state ≡ move_state
      → switch r n s
        ≡ ok (with_self s (record (s.self) { state = entered r n; is_destination_set = false }))
  unfolding switch state_exit
  switch_move r n s e = rw (e, switch, state_exit)

  -- The first tests of each update.
  pub idle_dies :
      (s : Scene D) → eqb_ℤ s.self.hp (pos 0) ≡ true → idle_update s ≡ become new_dead_state s
  unfolding idle_update
  idle_dies s h = rw h

  pub idle_moves :
      (s : Scene D)
      → eqb_ℤ s.self.hp (pos 0) ≡ false
      → s.self.is_destination_set ≡ true
      → idle_update s ≡ become move_state s
  unfolding idle_update
  idle_moves s h d = rw (h, d)

  pub idle_engages :
      (s : Scene D)
      → eqb_ℤ s.self.hp (pos 0) ≡ false
      → s.self.is_destination_set ≡ false
      → is_attack_target_set s.self ≡ true
      → idle_update s ≡ engage s
  unfolding idle_update
  idle_engages s h d t = rw (h, d, t)

  pub move_dies :
      (r : Rules D) (s : Scene D)
      → eqb_ℤ s.self.hp (pos 0) ≡ true
      → move_update r s ≡ become new_dead_state s
  unfolding move_update
  move_dies r s h = rw h

  pub attack_dies :
      (s : Scene D)
      → eqb_ℤ s.self.hp (pos 0) ≡ true
      → attack_update s ≡ become new_dead_state (drop_target s)
  unfolding attack_update
  attack_dies s h = rw h

  pub attack_moves :
      (s : Scene D)
      → eqb_ℤ s.self.hp (pos 0) ≡ false
      → s.self.is_destination_set ≡ true
      → attack_update s ≡ become move_state (drop_target s)
  unfolding attack_update
  attack_moves s h d = rw (h, d)

  pub pursuit_dies :
      (r : Rules D) (s : Scene D)
      → eqb_ℤ s.self.hp (pos 0) ≡ true
      → pursuit_update r s ≡ become new_dead_state (drop_target s)
  unfolding pursuit_update
  pursuit_dies r s h = rw h

  pub pursuit_moves :
      (r : Rules D) (s : Scene D)
      → eqb_ℤ s.self.hp (pos 0) ≡ false
      → s.self.is_destination_set ≡ true
      → pursuit_update r s ≡ become move_state (drop_target s)
  unfolding pursuit_update
  pursuit_moves r s h d = rw (h, d)

  -- A soldier that leaves the dead state for the idle one.
  abbrev pub respawned : Rules D → Soldier D → Soldier D
  respawned r s = record s {
    actor = record (s.actor) { position = at r.respawn_positions s.player_id; hp = s.max_hp };
    attack_target = none;
    is_destination_set = false;
    is_invulnerable = true;
    num_turns_invulnerable = r.total_num_turns_invulnerable +ℤ pos 1;
    state = idle_state;
  }

  heals : (a : Actor D) → pos 0 ≤ℤ a.max_hp → set_hp a a.max_hp ≡ ok (record a { hp = a.max_hp })
  unfolding set_hp
  heals a h = ground arith

  pub switch_dead :
      (r : Rules D) (n : ℕ) (s : Scene D)
      → s.self.state ≡ dead_state n
      → pos 0 ≤ℤ s.self.max_hp
      → switch r idle_state s ≡ ok (with_self s (respawned r s.self))
  unfolding switch state_exit dead_exit
  switch_dead r n s e h =
      rw (e, switch, state_exit)
        (rw
          (heals (record (s.self.actor) { position = at r.respawn_positions s.self.player_id }) h))
