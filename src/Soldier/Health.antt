-- ===== src/Soldier/Health.antt =====
-- `Soldier::Damage` and `Soldier::LateUpdate`: hit points stay in range, the damage of a turn is
-- taken once, and a soldier is dead as soon as it has no hit points left.
use codecharacter_simulator.Prelude.{
  ℕ, zero, suc, ◌≡◌, refl, Bool, true, false, not, ◌&&◌, ◌||◌, ◌∙◌, ap, ap₂, ℤ, pos, ◌≤ℤ◌, ◌+ℤ◌,
  min_ℤ, int64_max, eqb_ℤ, Result, ok, err, arith, int_laws, Bool-cases, inl, inr, if◌then◌else◌,
  ◌>>=◌,
}
use codecharacter_simulator.Physics.Double.{Double}
use codecharacter_simulator.Actor.Base.{Actor, set_hp}
use codecharacter_simulator.Actor.Soldier.{
  Soldier, SoldierState, idle_state, move_state, attack_state, pursuit_state, dead_state, damage,
  latest_hp,
}
use codecharacter_simulator.Soldier.Scene.{Rules, Scene}
use codecharacter_simulator.Soldier.States.{
  state_update, dead_update, with_self, become, drop_target, new_dead_state, move_update,
}
use codecharacter_simulator.Soldier.Machine.{
  switch, is_dead, die, late_update, commit_position, commit_damage, count_invulnerability,
}
use codecharacter_simulator.Soldier.Settles.Steps.{
  state_is, switch_plain, switch_move, idle_dies, move_dies, attack_dies, pursuit_dies,
}

or_of_not : (a b : Bool) → (a && not b) ≡ false → b ≡ (b || a)
or_of_not a b h = ground arith

or_of_and : (a b : Bool) → (a && not b) ≡ true → true ≡ (b || a)
or_of_and a b h = ground arith

module _ {D : Double} where
  -- Hit points between zero and the maximum, and no more damage pending than there are hit points.
  pub record IsHealthy (s : Soldier D) : Type 0 where
    pub hp_low : pos 0 ≤ℤ s.hp
    pub hp_high : s.hp ≤ℤ s.max_hp
    pub damage_low : pos 0 ≤ℤ s.damage_incurred
    pub damage_high : s.damage_incurred ≤ℤ s.hp

  -- The hit points after the turn.
  abbrev pub hp_after : Soldier D → ℤ
  hp_after s = if s.is_invulnerable then s.hp else latest_hp s

  -- Damage that is not negative, and whose sum with the pending damage fits an `int64_t`, keeps a
  -- healthy soldier healthy, and what is pending afterwards is that sum, up to the hit points.
  pub damage-IsHealthy :
      (s : Soldier D) (amount : ℤ)
      → pos 0 ≤ℤ amount
      → s.damage_incurred +ℤ amount ≤ℤ int64_max
      → IsHealthy s
      → IsHealthy (damage s amount)
        × ((damage s amount).damage_incurred ≡ min_ℤ s.hp (s.damage_incurred +ℤ amount))
  unfolding damage
  damage-IsHealthy s amount a f h = (grind int_laws, grind int_laws)

  -- What `LateUpdate` has done, if it returned.
  abbrev pub Committed : Soldier D → Result (Scene D) → Type 0
  Committed s (err e) = ⊥
  Committed s (ok s') =
      (s'.self.hp ≡ hp_after s)
      × (s'.self.damage_incurred ≡ pos 0)
      × (s'.self.max_hp ≡ s.max_hp)
      × (s'.self.position ≡ (if s.is_new_position_set then s.new_position else s.position))
      × (is_dead s'.self.state ≡ (is_dead s.state || eqb_ℤ (hp_after s) (pos 0)))

  -- `die` changes the state, and what goes with the state, only.
  abbrev pub Died : Soldier D → Result (Scene D) → Type 0
  Died s (err e) = ⊥
  Died s (ok s') =
      (s'.self.actor ≡ s.actor)
      × (s'.self.damage_incurred ≡ s.damage_incurred)
      × (is_dead s'.self.state ≡ true)

  ticks_once :
      (s : Soldier D) (n : ℕ) (s₁ : Scene D)
      → is_dead s₁.self.state ≡ true
      → s₁.self.actor ≡ s.actor
      → s₁.self.damage_incurred ≡ s.damage_incurred
      → Died s (dead_update n s₁ >>= λ o. ok o.1)
  unfolding dead_update
  ticks_once s zero s₁ st a d = (a, d, st)
  ticks_once s (suc n) s₁ st a d = (a, d, refl)

  -- The rest of `die` once the state has answered with a new dead state.
  dies_from :
      (r : Rules D) (s s₁ : Scene D) (x : Soldier D)
      → state_update r s ≡ become new_dead_state s₁
      → switch r new_dead_state s₁ ≡ ok (with_self s₁ x)
      → x.state ≡ dead_state r.total_turns_to_respawn
      → x.actor ≡ s.self.actor
      → x.damage_incurred ≡ s.self.damage_incurred
      → Died s.self (die r s)
  unfolding die
  dies_from r s s₁ x u w st a d =
      rw (u, w, state_is r (with_self s₁ x) st)
        (ticks_once s.self r.total_turns_to_respawn (with_self s₁ x) (rw st refl) a d)

  die_lem :
      (r : Rules D) (s : Scene D) (st : SoldierState)
      → s.self.state ≡ st
      → is_dead st ≡ false
      → eqb_ℤ s.self.hp (pos 0) ≡ true
      → Died s.self (die r s)
  unfolding move_update
  die_lem r s idle_state e n z =
      dies_from r s s _ (state_is r s e ∙ idle_dies s z)
        (switch_plain r new_dead_state idle_state s e refl) refl refl refl
  die_lem r s move_state e n z =
      dies_from r s s _ (state_is r s e ∙ move_dies r s z) (switch_move r new_dead_state s e) refl
        refl refl
  die_lem r s attack_state e n z =
      dies_from r s (drop_target s) _ (state_is r s e ∙ attack_dies s z)
        (switch_plain r new_dead_state attack_state (drop_target s) e refl) refl refl refl
  die_lem r s pursuit_state e n z =
      dies_from r s (drop_target s) _ (state_is r s e ∙ pursuit_dies r s z)
        (switch_plain r new_dead_state pursuit_state (drop_target s) e refl) refl refl refl
  die_lem r s (dead_state k) e n z = cc

  -- What the damage step has done, if it returned.
  abbrev Hurt : Soldier D → Result (Soldier D) → Type 0
  Hurt s (err e) = ⊥
  Hurt s (ok t) =
      (t.hp ≡ hp_after s)
      × (t.max_hp ≡ s.max_hp)
      × (t.damage_incurred ≡ pos 0)
      × (t.state ≡ s.state)
      × (t.position ≡ s.position)

  commit_damage-Hurt : (s : Soldier D) → IsHealthy s → Hurt s (commit_damage s)
  unfolding commit_damage set_hp
  commit_damage-Hurt s h = grind int_laws

  position_lem :
      (s : Soldier D)
      → (commit_position s).position
        ≡ (if s.is_new_position_set then s.new_position else s.position)
  unfolding commit_position
  position_lem s = ground arith

  commit_position-IsHealthy : (s : Soldier D) → IsHealthy s → IsHealthy (commit_position s)
  unfolding commit_position
  commit_position-IsHealthy s h = ground arith

  Hurt-commit_position :
      (s : Soldier D) (r : Result (Soldier D))
      → Hurt (commit_position s) r
      → (t : Soldier D) × (r ≡ ok t)
        × (t.hp ≡ hp_after s)
        × (t.max_hp ≡ s.max_hp)
        × (t.damage_incurred ≡ pos 0)
        × (t.state ≡ s.state)
        × (t.position ≡ (if s.is_new_position_set then s.new_position else s.position))
  unfolding commit_position
  Hurt-commit_position s (err e) h = absurd h
  Hurt-commit_position s (ok t) h =
      (t, refl, ground arith, ground arith, h.2, ground arith, h.4 ∙ position_lem s)

  -- Counting the turns of invulnerability leaves the rest of the soldier alone.
  counts :
      (t : Soldier D)
      → ((count_invulnerability t).actor ≡ t.actor)
        × ((count_invulnerability t).damage_incurred ≡ t.damage_incurred)
        × ((count_invulnerability t).state ≡ t.state)
  unfolding count_invulnerability
  counts t = ground arith

  -- The last step of a late update, on a soldier whose damage has been taken.
  pub buries :
      (r : Rules D) (s : Scene D)
      → (eqb_ℤ s.self.hp (pos 0) && not (is_dead s.self.state)) ≡ true
      → Died s.self (die r s)
  buries r s h = die_lem r s s.self.state refl (ground arith) (ground arith)

  late_update_from :
      (r : Rules D) (s : Scene D) (old u : Soldier D)
      → (u.hp ≡ hp_after old)
      → (u.max_hp ≡ old.max_hp)
      → (u.damage_incurred ≡ pos 0)
      → (u.state ≡ old.state)
      → (u.position ≡ (if old.is_new_position_set then old.new_position else old.position))
      → Committed old (
          if eqb_ℤ u.hp (pos 0) && not (is_dead u.state)
          then die r (with_self s u)
          else ok (with_self s u))
  late_update_from r s old u hp max d st p =
      elim (Bool-cases (eqb_ℤ u.hp (pos 0) && not (is_dead u.state))) [
        | inl dies ↦
            rw dies (died-Committed dies (die r (with_self s u)) (buries r (with_self s u) dies))
        | inr stays ↦
            rw stays (hp, d, max, p, or_of_not (eqb_ℤ u.hp (pos 0)) (is_dead u.state) stays ∙ same)
      ]
    where
      same :
          (is_dead u.state || eqb_ℤ u.hp (pos 0))
          ≡ (is_dead old.state || eqb_ℤ (hp_after old) (pos 0))
      same = ap₂ (λ x y. is_dead x || eqb_ℤ y (pos 0)) st hp

      died-Committed :
          (eqb_ℤ u.hp (pos 0) && not (is_dead u.state)) ≡ true
          → (o : Result (Scene D)) → Died u o
          → Committed old o
      died-Committed dies (err e) h = h
      died-Committed dies (ok s') h = (
        ap (λ (x : Actor D). x.hp) h.0 ∙ hp,
        h.1 ∙ d,
        ap (λ (x : Actor D). x.max_hp) h.0 ∙ max,
        ap (λ (x : Actor D). x.position) h.0 ∙ p,
        h.2 ∙ or_of_and (eqb_ℤ u.hp (pos 0)) (is_dead u.state) dies ∙ same,
      )

  -- A healthy soldier's late update returns: it takes the pending damage once, unless it is
  -- invulnerable, moves to its new position if it has one, and is dead afterwards exactly if it was
  -- dead or has no hit points left.
  pub late_update-Committed :
      (r : Rules D) (s : Scene D) → IsHealthy s.self → Committed s.self (late_update r s)
  unfolding late_update
  late_update-Committed r s h =
      let (t, e, hp, max, d, st, p) =
        Hurt-commit_position s.self _ (commit_damage-Hurt _ (commit_position-IsHealthy s.self h)) in
      let (a, cd, cst) = counts t in
      rw e (
        late_update_from r s s.self (count_invulnerability t) (ap (λ (x : Actor D). x.hp) a ∙ hp)
          (ap (λ (x : Actor D). x.max_hp) a ∙ max) (cd ∙ d) (cst ∙ st)
          (ap (λ (x : Actor D). x.position) a ∙ p))
