-- ===== src/Soldier/Settles/Starts.antt =====
-- The update of a soldier from each state that it can be in.
use codecharacter_simulator.Prelude.{
  ℕ, zero, suc, ◌≡◌, refl, Bool, true, false, ◌||◌, ◌<◌, none, some, pos, ◌<ℤ◌, ok, arith,
  Bool-cases, Option-cases, inl, inr, eqb_ℤ, ap, ◌∙◌,
}
use mathlib.Core.Bool.{false≢true}
use codecharacter_simulator.Physics.Double.{Double}
use codecharacter_simulator.Physics.Vector.{veq}
use codecharacter_simulator.Actor.Soldier.{
  Soldier, SoldierState, ActorPtr, idle_state, move_state, attack_state, pursuit_state, dead_state,
  is_attack_target_set,
}
use codecharacter_simulator.Actor.Any.{AnyActor}
use codecharacter_simulator.Soldier.Scene.{Rules, Scene}
use codecharacter_simulator.Soldier.States.{
  state_update, move_update, dead_update, with_self, entered, become, drop_target, new_dead_state,
}
use codecharacter_simulator.Soldier.Machine.{switch, transitions, update}
use codecharacter_simulator.Soldier.Settles.Steps.{
  Settles, After, state_is, After-become, switch_plain, switch_move, is_plain, idle_rests,
  idle_dies, idle_moves, idle_engages, attack_dies, attack_moves, pursuit_dies, pursuit_moves,
  respawned, switch_dead,
}
use codecharacter_simulator.Soldier.Settles.Chains.{
  rests, dies, advances, attacks, pursues, engages, Plans, Rewards,
}

-- What a state needs of the target and the destination being set when an update begins.
abbrev pub IsCoherentAt : SoldierState → Bool → Bool → Type 0
IsCoherentAt idle_state target destination = Unit {0}
IsCoherentAt (dead_state n) target destination = Unit {0}
IsCoherentAt move_state target destination = (target || destination) ≡ true
IsCoherentAt attack_state target destination = (target || destination) ≡ true
IsCoherentAt pursuit_state target destination = (target || destination) ≡ true

move_destination :
    (st : SoldierState) (target destination : Bool)
    → IsCoherentAt st target destination
    → st ≡ move_state
    → target ≡ false
    → destination ≡ true
move_destination move_state target destination c e t = ground arith
move_destination idle_state target destination c e t = cc
move_destination attack_state target destination c e t = cc
move_destination pursuit_state target destination c e t = cc
move_destination (dead_state n) target destination c e t = cc

or_true : (b : Bool) → (b || true) ≡ true
or_true b = ground arith

module _ {D : Double} where
  abbrev pub IsCoherent : Soldier D → Type 0
  IsCoherent s = IsCoherentAt s.state (is_attack_target_set s) s.is_destination_set

  destination_of :
      (s : Soldier D)
      → IsCoherent s
      → s.state ≡ move_state
      → is_attack_target_set s ≡ false
      → s.is_destination_set ≡ true
  destination_of s c e t = move_destination s.state _ _ c e t

  -- What the soldier and its surroundings must provide: hit points in range, an object behind the
  -- target pointer, a planner and a reward that do not throw, and a respawn time.
  pub record IsReady (r : Rules D) (s : Scene D) : Type 0 where
    pub coherent : IsCoherent s.self
    pub max_hp_pos : pos 0 <ℤ s.self.max_hp
    pub respawn_pos : 0 < r.total_turns_to_respawn
    pub target_there :
        (p : ActorPtr) → s.self.attack_target ≡ some p → (a : AnyActor D) × (s.target ≡ some a)
    pub plans : Plans r
    pub rewards : (a : AnyActor D) → s.target ≡ some a → Rewards s a

  set_of_some :
      (s : Soldier D) (p : ActorPtr) → s.attack_target ≡ some p → is_attack_target_set s ≡ true
  set_of_some s p e = rw e

  unset_of_none : (s : Soldier D) → s.attack_target ≡ none → is_attack_target_set s ≡ false
  unset_of_none s e = rw e

  -- With no target: to the destination, or to rest where it has been reached.
  walks :
      (r : Rules D) (f : ℕ) (s : Scene D)
      → s.self.state ≡ move_state
      → eqb_ℤ s.self.hp (pos 0) ≡ false
      → is_attack_target_set s.self ≡ false
      → s.self.is_destination_set ≡ true
      → Plans r
      → After (suc f) r (state_update r s)
  unfolding move_update
  walks r f s e alive t d plan = elim (Bool-cases (veq D s.self.position s.self.destination)) [
    | inl there ↦
        rw (state_is r s e, move_update, alive, t, there)
          (After-become r f idle_state s _ (switch_move r idle_state s e)
            (rests r f _ refl alive t refl))
    | inr on_way ↦
        rw (state_is r s e, move_update, alive, t, on_way)
          (advances r (suc f) s s.self.destination plan (rw e (t, d)))
  ]

  from_move :
      (r : Rules D) (f : ℕ) (s : Scene D)
      → IsReady r s
      → s.self.state ≡ move_state
      → After (suc (suc f)) r (state_update r s)
  unfolding move_update
  from_move r f s h e = elim (Bool-cases (eqb_ℤ s.self.hp (pos 0))) [
    | inl dead ↦
        rw (state_is r s e, move_update, dead)
          (dies r (suc f) s _ h.respawn_pos (switch_move r new_dead_state s e) refl)
    | inr alive ↦ elim (Option-cases s.self.attack_target) [
      | inl t ↦
          let unset = unset_of_none s.self t in
          walks r (suc f) s e alive unset (destination_of s.self h.coherent e unset) h.plans
      | inr (p, t) ↦
          let (a, here) = h.target_there p t in
          rw (state_is r s e, move_update, alive, set_of_some s.self p t)
            (engages r f s p a (λ n. switch_move r n s e) alive t here (h.rewards a here) h.plans)
    ]
  ]

  from_dead :
      (r : Rules D) (f n : ℕ) (s : Scene D)
      → IsReady r s
      → s.self.state ≡ dead_state n
      → After (suc f) r (state_update r s)
  unfolding dead_update transitions
  from_dead r f zero s h e = rw (state_is r s e) (
      After-become r f idle_state s (with_self s (respawned r s.self))
        (switch_dead r zero s e (omega (arith, h.max_hp_pos)))
        (rests r f (with_self s (respawned r s.self)) refl (ground (arith, h.max_hp_pos)) refl
          refl))
  from_dead r f (suc n) s h e = rw (state_is r s e) tt

  -- Back to a destination: the moving state can be entered from any plain state.
  enters_move :
      (r : Rules D) (f : ℕ) (s : Scene D) (st : SoldierState)
      → IsReady r s
      → s.self.state ≡ st
      → is_plain st ≡ true
      → s.self.is_destination_set ≡ true
      → After (suc (suc (suc f))) r (become move_state s)
  enters_move r f s st h e plain d =
      After-become r (suc (suc f)) move_state s _ (switch_plain r move_state st s e plain) (
        from_move r f _
          (record {
            coherent = rw d (or_true _);
            max_hp_pos = h.max_hp_pos;
            respawn_pos = h.respawn_pos;
            target_there = h.target_there;
            plans = h.plans;
            rewards = h.rewards;
          })
          refl)

  leaves_free :
      (r : Rules D) (st : SoldierState) (s : Scene D)
      → s.self.state ≡ st
      → is_plain st ≡ true
      → s.self.is_destination_set ≡ false
      → (n : SoldierState)
      → switch r n s
        ≡ ok (with_self s (record (s.self) { state = entered r n; is_destination_set = false }))
  leaves_free r st s e plain free n =
      switch_plain r n st s e plain
      ∙ ap (λ b. ok (with_self s (record (s.self) { state = entered r n; is_destination_set = b })))
          free

  from_idle :
      (r : Rules D) (f : ℕ) (s : Scene D)
      → IsReady r s
      → s.self.state ≡ idle_state
      → After (suc (suc (suc f))) r (state_update r s)
  unfolding transitions
  from_idle r f s h e = rw (state_is r s e) (elim (Bool-cases (eqb_ℤ s.self.hp (pos 0))) [
    | inl dead ↦ rw (idle_dies s dead) (
        dies r (suc (suc f)) s _ h.respawn_pos (switch_plain r new_dead_state idle_state s e refl)
          refl)
    | inr alive ↦ elim (Bool-cases s.self.is_destination_set) [
      | inl d ↦ rw (idle_moves s alive d) (enters_move r f s idle_state h e refl d)
      | inr free ↦ elim (Option-cases s.self.attack_target) [
        | inl t ↦
            let unset = unset_of_none s.self t in
            rw (idle_rests s alive unset free) (rw e (unset, free))
        | inr (p, t) ↦
            let (a, here) = h.target_there p t in
            rw (idle_engages s alive free (set_of_some s.self p t)) (
              engages r (suc f) s p a (leaves_free r idle_state s e refl free) alive t here
                (h.rewards a here) h.plans)
      ]
    ]
  ])

  -- A fighting soldier that was sent to a destination drops its target and walks.
  turns_away :
      (r : Rules D) (f : ℕ) (s : Scene D) (st : SoldierState)
      → s.self.state ≡ st
      → is_plain st ≡ true
      → eqb_ℤ s.self.hp (pos 0) ≡ false
      → s.self.is_destination_set ≡ true
      → Plans r
      → After (suc (suc f)) r (become move_state (drop_target s))
  turns_away r f s st e plain alive d plan =
      After-become r (suc f) move_state (drop_target s) _
        (switch_plain r move_state st (drop_target s) e plain) (walks r f _ refl alive refl d plan)

  coherent_at :
      {st : SoldierState} (s : Soldier D)
      → IsCoherent s
      → s.state ≡ st
      → IsCoherentAt st (is_attack_target_set s) s.is_destination_set
  coherent_at s c e = rw e at c

  -- A fighting soldier with no destination has a target.
  target_of :
      (s : Soldier D)
      → (is_attack_target_set s || s.is_destination_set) ≡ true
      → s.is_destination_set ≡ false
      → (p : ActorPtr) × (s.attack_target ≡ some p)
  target_of s c free = elim (Option-cases s.attack_target) [
    | inl t ↦ absurd (false≢true (rw (unset_of_none s t, free) at c))
    | inr there ↦ there
  ]

  from_attack :
      (r : Rules D) (f : ℕ) (s : Scene D)
      → IsReady r s
      → s.self.state ≡ attack_state
      → After (suc (suc f)) r (state_update r s)
  from_attack r f s h e = elim (Bool-cases (eqb_ℤ s.self.hp (pos 0))) [
    | inl dead ↦
        rw (state_is r s e, attack_dies s dead)
          (dies r (suc f) (drop_target s) _ h.respawn_pos
            (switch_plain r new_dead_state attack_state (drop_target s) e refl) refl)
    | inr alive ↦ elim (Bool-cases s.self.is_destination_set) [
      | inl d ↦
          rw (state_is r s e, attack_moves s alive d)
            (turns_away r f s attack_state e refl alive d h.plans)
      | inr free ↦
          let (p, t) = target_of s.self (coherent_at s.self h.coherent e) free in
          let (a, here) = h.target_there p t in
          attacks r (suc f) s p a e (record { alive = alive; aimed = t; here = here; free = free })
            (h.rewards a here) h.plans
    ]
  ]

  from_pursuit :
      (r : Rules D) (f : ℕ) (s : Scene D)
      → IsReady r s
      → s.self.state ≡ pursuit_state
      → After (suc (suc f)) r (state_update r s)
  from_pursuit r f s h e = elim (Bool-cases (eqb_ℤ s.self.hp (pos 0))) [
    | inl dead ↦
        rw (state_is r s e, pursuit_dies r s dead)
          (dies r (suc f) (drop_target s) _ h.respawn_pos
            (switch_plain r new_dead_state pursuit_state (drop_target s) e refl) refl)
    | inr alive ↦ elim (Bool-cases s.self.is_destination_set) [
      | inl d ↦
          rw (state_is r s e, pursuit_moves r s alive d)
            (turns_away r f s pursuit_state e refl alive d h.plans)
      | inr free ↦
          let (p, t) = target_of s.self (coherent_at s.self h.coherent e) free in
          let (a, here) = h.target_there p t in
          pursues r (suc f) s p a e (record { alive = alive; aimed = t; here = here; free = free })
            (h.rewards a here) h.plans
    ]
  ]

  from_any :
      (r : Rules D) (f : ℕ) (s : Scene D) (st : SoldierState)
      → IsReady r s
      → s.self.state ≡ st
      → After (suc (suc (suc f))) r (state_update r s)
  from_any r f s idle_state h e = from_idle r f s h e
  from_any r f s move_state h e = from_move r (suc f) s h e
  from_any r f s attack_state h e = from_attack r (suc f) s h e
  from_any r f s pursuit_state h e = from_pursuit r (suc f) s h e
  from_any r f s (dead_state n) h e = from_dead r (suc (suc f)) n s h e

  -- Whatever its state, a soldier whose surroundings are in order finishes its update after at most
  -- three changes of state, with no exception and no null pointer followed. Then an idle soldier
  -- has neither target nor destination, a moving one a destination and no target, and an attacking
  -- or pursuing one a target and no destination.
  pub update-Settles : (r : Rules D) (s : Scene D) → IsReady r s → Settles (update r s)
  unfolding update
  update-Settles r s h = from_any r 0 s s.self.state h refl
