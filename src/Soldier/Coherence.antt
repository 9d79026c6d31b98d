-- ===== src/Soldier/Coherence.antt =====
-- From turn to turn: what a soldier's update relies on is there again when the next one begins.
use codecharacter_simulator.Prelude.{
  ◌≡◌, refl, ◌∙◌, sym, ap, subst, Bool, true, false, not, ◌&&◌, ◌||◌, Option, some, none, pos,
  eqb_ℤ, Result, ok, err, >>=-eq-ok, ok-injective, Bool-cases, if_yes, if_no, inl, inr, arith,
  if◌then◌else◌, ℤ,
}
use codecharacter_simulator.Physics.Double.{Double}
use codecharacter_simulator.Physics.Vector.{Vector}
use codecharacter_simulator.Actor.Base.{set_hp}
use codecharacter_simulator.Actor.Soldier.{
  Soldier, SoldierState, ActorPtr, idle_state, move_state, attack_state, pursuit_state, dead_state,
  is_attack_target_set, move_to, attack_actor, latest_hp, set_soldier_hp, damage,
}
use codecharacter_simulator.Soldier.Scene.{Rules, Scene}
use codecharacter_simulator.Soldier.States.{with_self}
use codecharacter_simulator.Soldier.Machine.{
  commit_position, commit_damage, count_invulnerability, is_dead, die, late_update, update,
}
use codecharacter_simulator.Soldier.Health.{Died, buries}
use codecharacter_simulator.Soldier.Settles.Steps.{IsSettledAt, Settles}
use codecharacter_simulator.Soldier.Settles.Starts.{
  IsCoherent, IsCoherentAt, IsReady, update-Settles,
}

settled_at :
    (st : SoldierState) (target destination : Bool)
    → IsSettledAt st target destination
    → IsCoherentAt st target destination
settled_at idle_state target destination h = tt
settled_at (dead_state n) target destination h = tt
settled_at move_state target destination h = ground arith
settled_at attack_state target destination h = ground arith
settled_at pursuit_state target destination h = ground arith

aimed_at :
    (st : SoldierState) (target destination : Bool)
    → (target || destination) ≡ true
    → IsCoherentAt st target destination
aimed_at idle_state target destination h = tt
aimed_at (dead_state n) target destination h = tt
aimed_at move_state target destination h = h
aimed_at attack_state target destination h = h
aimed_at pursuit_state target destination h = h

dead_at :
    (st : SoldierState) (target destination : Bool)
    → is_dead st ≡ true
    → IsCoherentAt st target destination
dead_at idle_state target destination h = tt
dead_at (dead_state n) target destination h = tt
dead_at move_state target destination h = cc
dead_at attack_state target destination h = cc
dead_at pursuit_state target destination h = cc

module _ {D : Double} where
  -- State, target and destination are those of another soldier.
  record SameAims (s t : Soldier D) : Type 0 where
    state_same : t.state ≡ s.state
    target_same : t.attack_target ≡ s.attack_target
    destination_same : t.is_destination_set ≡ s.is_destination_set

  SameAims-trans : (s t u : Soldier D) → SameAims s t → SameAims t u → SameAims s u
  SameAims-trans s t u h k = record {
    state_same = k.state_same ∙ h.state_same;
    target_same = k.target_same ∙ h.target_same;
    destination_same = k.destination_same ∙ h.destination_same;
  }

  commit_position-SameAims : (s : Soldier D) → SameAims s (commit_position s)
  unfolding commit_position
  commit_position-SameAims s = record {
    state_same = ground arith;
    target_same = ground arith;
    destination_same = ground arith;
  }

  unchanged : (s : Soldier D) → SameAims s s
  unchanged s = record { state_same = refl; target_same = refl; destination_same = refl }

  reset_damage :
      (s t : Soldier D) → SameAims s t → SameAims s (record t { damage_incurred = pos 0 })
  reset_damage s t h = record {
    state_same = h.state_same;
    target_same = h.target_same;
    destination_same = h.destination_same;
  }

  set_soldier_hp-SameAims : (s t : Soldier D) (hp : ℤ) → set_soldier_hp s hp ≡ ok t → SameAims s t
  set_soldier_hp-SameAims s t hp e =
      let (a, e₁, k₁) = >>=-eq-ok (set_hp s.actor hp) _ e in
      subst (SameAims s) (ok-injective k₁)
        (record { state_same = refl; target_same = refl; destination_same = refl })

  commit_damage-SameAims : (s t : Soldier D) → commit_damage s ≡ ok t → SameAims s t
  unfolding commit_damage
  commit_damage-SameAims s t e =
      let (hurt, e₁, k₁) =
        >>=-eq-ok (if not s.is_invulnerable then set_soldier_hp s (latest_hp s) else ok s) _ e in
      elim (Bool-cases (not s.is_invulnerable)) [
        | inl hits ↦
            subst (SameAims s) (ok-injective k₁) (
              reset_damage s hurt (set_soldier_hp-SameAims s hurt _ (sym (if_yes _ _ _ hits) ∙ e₁)))
        | inr spared ↦ subst (SameAims s) (ok-injective k₁) (
            reset_damage s hurt
              (subst (SameAims s) (ok-injective (sym (if_no _ _ _ spared) ∙ e₁)) (unchanged s)))
      ]

  count_invulnerability-SameAims : (s : Soldier D) → SameAims s (count_invulnerability s)
  unfolding count_invulnerability
  count_invulnerability-SameAims s = record {
    state_same = ground arith;
    target_same = ground arith;
    destination_same = ground arith;
  }

  target_set_same :
      (s t : Soldier D) → SameAims s t → is_attack_target_set t ≡ is_attack_target_set s
  target_set_same s t h =
      ap (λ (o : Option ActorPtr). elim o as (λ _. Bool) [ none ↦ false | some _ ↦ true ])
        h.target_same

  SameAims-IsCoherent : (s t : Soldier D) → SameAims s t → IsCoherent s → IsCoherent t
  SameAims-IsCoherent s t h c =
      subst (λ x. IsCoherentAt x (is_attack_target_set t) t.is_destination_set) (sym h.state_same)
        (subst (λ x. IsCoherentAt s.state x t.is_destination_set) (sym (target_set_same s t h))
          (subst (λ x. IsCoherentAt s.state (is_attack_target_set s) x) (sym h.destination_same) c))

  Died-IsCoherent :
      (s : Soldier D) (o : Result (Scene D)) (s' : Scene D)
      → Died s o
      → o ≡ ok s'
      → IsCoherent s'.self
  Died-IsCoherent s (err e) s' h k = absurd h
  Died-IsCoherent s (ok u) s' h k =
      subst (λ (x : Scene D). IsCoherent x.self) (ok-injective k) (dead_at u.self.state _ _ h.2)

  -- A late update that returns leaves a coherent soldier coherent: one that is to move, attack or
  -- pursue still has a target or a destination, or it is dead now.
  pub late_update-IsCoherent :
      (r : Rules D) (s s' : Scene D)
      → IsCoherent s.self
      → late_update r s ≡ ok s'
      → IsCoherent s'.self
  unfolding late_update
  late_update-IsCoherent r s s' c e =
      let (hurt, e₁, k₁) = >>=-eq-ok (commit_damage (commit_position s.self)) _ e in
      let t = count_invulnerability hurt in
      elim (Bool-cases (eqb_ℤ t.hp (pos 0) && not (is_dead t.state))) [
        | inl dies ↦
            Died-IsCoherent t (die r (with_self s t)) s' (buries r (with_self s t) dies)
              (sym (if_yes _ _ _ dies) ∙ k₁)
        | inr lives ↦
            subst (λ (x : Scene D). IsCoherent x.self) (ok-injective (sym (if_no _ _ _ lives) ∙ k₁))
              (SameAims-IsCoherent s.self t
                (SameAims-trans s.self _ t (commit_position-SameAims s.self) (
                  SameAims-trans _ hurt t (commit_damage-SameAims _ hurt e₁)
                    (count_invulnerability-SameAims hurt)))
                c)
      ]

  -- Whatever a soldier was about, it is coherent once it has been told to move or to attack.
  pub order-IsCoherent :
      (s : Soldier D) (v : Vector D) (a : ActorPtr)
      → IsCoherent (move_to s v) × IsCoherent (attack_actor s a)
  unfolding move_to attack_actor
  order-IsCoherent s v a = (aimed_at s.state false true refl, aimed_at s.state true false refl)

  settled_of : (o : Result (Scene D)) (s : Scene D) → Settles o → o ≡ ok s → IsCoherent s.self
  settled_of (err e) s h k = absurd h
  settled_of (ok u) s h k =
      subst (λ (x : Scene D). IsCoherent x.self) (ok-injective k) (settled_at u.self.state _ _ h)

  -- A soldier whose surroundings are in order is coherent again after its update and a late update
  -- that returns, with any damage in between.
  pub turn-IsCoherent :
      (r : Rules D) (s t u : Scene D) (amount : ℤ)
      → IsReady r s
      → update r s ≡ ok t
      → late_update r (with_self t (damage t.self amount)) ≡ ok u
      → IsCoherent u.self
  unfolding damage
  turn-IsCoherent r s t u amount h e k =
      late_update-IsCoherent r (with_self t (damage t.self amount)) u
        (settled_of (update r s) t (update-Settles r s h) e) k
