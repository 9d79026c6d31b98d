-- ===== src/Soldier/Settles/Chains.antt =====
-- The chains of state changes that one update can make, shortest first.
use codecharacter_simulator.Prelude.{
  ℕ, zero, suc, ◌≡◌, refl, true, false, ◌<◌, some, ℤ, pos, ok, Bool-cases, inl, inr, eqb_ℤ,
}
use codecharacter_simulator.Physics.Double.{Double}
use codecharacter_simulator.Physics.Vector.{Vector}
use codecharacter_simulator.Actor.Soldier.{
  SoldierState, ActorPtr, idle_state, attack_state, pursuit_state, dead_state, is_attack_target_set,
}
use codecharacter_simulator.Actor.Any.{AnyActor, damage, base, get_latest_hp}
use codecharacter_simulator.Money.{MoneyManager, reward_kill}
use codecharacter_simulator.Soldier.Scene.{Rules, Scene, in_range}
use codecharacter_simulator.Soldier.States.{
  state_update, strike, dead_update, with_self, entered, engage, become, advance, drop_target,
  new_dead_state,
}
use codecharacter_simulator.Soldier.Machine.{switch, transitions}
use codecharacter_simulator.Soldier.Settles.Steps.{
  IsSettled, After, Engaged, strike_lem, attack_cases, pursuit_cases, engage_cases, idle_rests,
  state_is, After-become, switch_plain, is_plain,
}

module _ {D : Double} where
  -- At rest: idle, alive, with neither target nor destination.
  pub rests :
      (r : Rules D) (f : ℕ) (s : Scene D)
      → s.self.state ≡ idle_state
      → eqb_ℤ s.self.hp (pos 0) ≡ false
      → is_attack_target_set s.self ≡ false
      → s.self.is_destination_set ≡ false
      → After f r (state_update r s)
  unfolding transitions
  rests r zero s e h t d = rw (state_is r s e, idle_rests s h t d) (rw e (t, d))
  rests r (suc f) s e h t d = rw (state_is r s e, idle_rests s h t d) (rw e (t, d))

  -- The planner does not throw.
  abbrev pub Plans : Rules D → Type 0
  Plans r = (p q : Vector D) (v : ℤ) → (t : Vector D) × (r.get_next_position p q v ≡ ok t)

  -- The reward for the blow at `a`, if it is due, does not throw.
  abbrev pub Rewards : Scene D → AnyActor D → Type 0
  Rewards s a = (m : MoneyManager) × (reward_kill s.money (damage a s.self.attack_damage) ≡ ok m)

  ticks : (r : Rules D) (f n : ℕ) (s : Scene D) → 0 < n → After f r (dead_update n s)
  unfolding transitions dead_update
  ticks r f zero s h = elim h [ ]
  ticks r zero (suc n) s h = tt
  ticks r (suc f) (suc n) s h = tt

  -- The respawn counter starts.
  pub dies :
      (r : Rules D) (f : ℕ) (s s' : Scene D)
      → 0 < r.total_turns_to_respawn
      → switch r new_dead_state s ≡ ok s'
      → s'.self.state ≡ dead_state r.total_turns_to_respawn
      → After (suc f) r (become new_dead_state s)
  dies r f s s' h e e' =
      After-become r f new_dead_state s s' e
        (rw (state_is r s' e') (ticks r f r.total_turns_to_respawn s' h))

  pub advances :
      (r : Rules D) (f : ℕ) (s : Scene D) (q : Vector D)
      → Plans r
      → IsSettled s.self
      → After f r (advance r q s)
  unfolding transitions
  advances r zero s q plan h = let (t, e) = plan s.self.position q s.self.speed in rw e h
  advances r (suc f) s q plan h = let (t, e) = plan s.self.position q s.self.speed in rw e h

  strikes :
      (r : Rules D) (f : ℕ) (s : Scene D) (a : AnyActor D)
      → Rewards s a
      → IsSettled s.self
      → After f r (strike a s)
  unfolding transitions
  strikes r zero s a (m, e) h = let (s', e₁, e₂) = strike_lem s a e in rw e₁ (rw e₂ h)
  strikes r (suc f) s a (m, e) h = let (s', e₁, e₂) = strike_lem s a e in rw e₁ (rw e₂ h)

  -- A target out of range is followed, one in range is struck.
  pursues_far :
      (r : Rules D) (f : ℕ) (s : Scene D) (p : ActorPtr) (a : AnyActor D)
      → s.self.state ≡ pursuit_state
      → Engaged s p a
      → eqb_ℤ (get_latest_hp a) (pos 0) ≡ false
      → in_range s.self a ≡ false
      → Plans r
      → After f r (state_update r s)
  pursues_far r f s p a e g live far plan =
      rw (state_is r s e, pursuit_cases r s p a g, live, far)
        (advances r f s (base a).position plan (rw (e, g.aimed) (refl, g.free)))

  attacks_near :
      (r : Rules D) (f : ℕ) (s : Scene D) (p : ActorPtr) (a : AnyActor D)
      → s.self.state ≡ attack_state
      → Engaged s p a
      → eqb_ℤ (get_latest_hp a) (pos 0) ≡ false
      → in_range s.self a ≡ true
      → Rewards s a
      → After f r (state_update r s)
  attacks_near r f s p a e g live near pay =
      rw (state_is r s e, attack_cases s p a g, live, near)
        (strikes r f s a pay (rw (e, g.aimed) (refl, g.free)))

  -- A dead target is dropped.
  drops :
      (r : Rules D) (f : ℕ) (s : Scene D) (p : ActorPtr) (a : AnyActor D) (st : SoldierState)
      → s.self.state ≡ st
      → is_plain st ≡ true
      → Engaged s p a
      → After (suc f) r (become idle_state (drop_target s))
  drops r f s p a st e plain g =
      After-become r f idle_state (drop_target s) _ (switch_plain r _ st (drop_target s) e plain)
        (rests r f _ refl g.alive refl g.free)

  pub attacks :
      (r : Rules D) (f : ℕ) (s : Scene D) (p : ActorPtr) (a : AnyActor D)
      → s.self.state ≡ attack_state
      → Engaged s p a
      → Rewards s a
      → Plans r
      → After (suc f) r (state_update r s)
  attacks r f s p a e g pay plan = elim (Bool-cases (eqb_ℤ (get_latest_hp a) (pos 0))) [
    | inl gone ↦
        rw (state_is r s e, attack_cases s p a g, gone) (drops r f s p a attack_state e refl g)
    | inr live ↦ elim (Bool-cases (in_range s.self a)) [
      | inl near ↦ attacks_near r (suc f) s p a e g live near pay
      | inr far ↦
          rw (state_is r s e, attack_cases s p a g, live, far)
            (After-become r f pursuit_state s _ (switch_plain r _ attack_state s e refl) (
              pursues_far r f _ p a refl
                (record { alive = g.alive; aimed = g.aimed; here = g.here; free = g.free }) live far
                plan))
    ]
  ]

  pub pursues :
      (r : Rules D) (f : ℕ) (s : Scene D) (p : ActorPtr) (a : AnyActor D)
      → s.self.state ≡ pursuit_state
      → Engaged s p a
      → Rewards s a
      → Plans r
      → After (suc f) r (state_update r s)
  pursues r f s p a e g pay plan = elim (Bool-cases (eqb_ℤ (get_latest_hp a) (pos 0))) [
    | inl gone ↦
        rw (state_is r s e, pursuit_cases r s p a g, gone) (drops r f s p a pursuit_state e refl g)
    | inr live ↦ elim (Bool-cases (in_range s.self a)) [
      | inl near ↦
          rw (state_is r s e, pursuit_cases r s p a g, live, near)
            (After-become r f attack_state s _ (switch_plain r _ pursuit_state s e refl) (
              attacks_near r f _ p a refl
                (record { alive = g.alive; aimed = g.aimed; here = g.here; free = g.free }) live
                near pay))
      | inr far ↦ pursues_far r (suc f) s p a e g live far plan
    ]
  ]

  -- From a state whose exit leaves a soldier with its target and no destination, to the target.
  pub engages :
      (r : Rules D) (f : ℕ) (s : Scene D) (p : ActorPtr) (a : AnyActor D)
      → ((n : SoldierState)
          → switch r n s
            ≡ ok
                (with_self s (record (s.self) { state = entered r n; is_destination_set = false })))
      → eqb_ℤ s.self.hp (pos 0) ≡ false
      → s.self.attack_target ≡ some p
      → s.target ≡ some a
      → Rewards s a
      → Plans r
      → After (suc (suc f)) r (engage s)
  engages r f s p a sw alive aimed here pay plan = elim (Bool-cases (in_range s.self a)) [
    | inl near ↦
        rw (engage_cases s p a aimed here, near)
          (After-become r (suc f) attack_state s _ (sw attack_state) (
            attacks r f _ p a refl
              (record { alive = alive; aimed = aimed; here = here; free = refl }) pay plan))
    | inr far ↦
        rw (engage_cases s p a aimed here, far)
          (After-become r (suc f) pursuit_state s _ (sw pursuit_state) (
            pursues r f _ p a refl
              (record { alive = alive; aimed = aimed; here = here; free = refl }) pay plan))
  ]
