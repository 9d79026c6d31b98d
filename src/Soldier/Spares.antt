-- ===== src/Soldier/Spares.antt =====
-- What one run of a soldier's state does to the actor at their target, and to the money.
use codecharacter_simulator.Prelude.{
  ℕ, zero, suc, ◌≡◌, refl, sym, ap, ◌∙◌, subst, not, Option, none, some, ℤ, pos, eqb_ℤ, ok, err,
  undefined, or_err, if◌then◌else◌, branch, >>=-eq-ok, ok-injective, or_err-eq-ok, inl, inr,
}
use mathlib.Core.Option
use codecharacter_simulator.Physics.Double.{Double}
use codecharacter_simulator.Physics.Vector.{Vector, veq}
use codecharacter_simulator.Actor.Soldier.{
  Soldier, SoldierState, ActorPtr, idle_state, move_state, attack_state, pursuit_state, dead_state,
  is_attack_target_set, set_new_position,
}
use codecharacter_simulator.Actor.Soldier
use codecharacter_simulator.Actor.Tower
use codecharacter_simulator.Actor.Any.{AnyActor, soldier, tower, damage, base, get_latest_hp}
use codecharacter_simulator.Money.{reward_kill}
use codecharacter_simulator.Money.Bounds.{IsValid, reward_kill-IsValid}
use codecharacter_simulator.Soldier.Scene.{
  Rules, Scene, get_attack_target, is_attack_target_in_range,
}
use codecharacter_simulator.Soldier.States.{
  Outcome, state_update, idle_update, move_update, attack_update, pursuit_update, dead_update,
  strike, with_self, become, stay, drop_target, engage, advance, new_dead_state,
}

module _ {D : Double} where
  -- Where a tower stands and how high it is; a soldier moves.
  abbrev pub place : AnyActor D → Option (Vector D × ℕ)
  place (tower t) = some (t.position, t.tower_level)
  place (soldier x) = none

  -- A tower at the target stays where it is, on its level, and valid balances stay valid.
  pub record Spares (s s' : Scene D) : Type 0 where
    pub target_place : Option.map place s'.target ≡ Option.map place s.target
    pub money_valid : IsValid s.money → IsValid s'.money

  pub Spares-trans : (s t u : Scene D) → Spares s t → Spares t u → Spares s u
  Spares-trans s t u h k = record {
    target_place = k.target_place ∙ h.target_place;
    money_valid = λ v. k.money_valid (h.money_valid v);
  }

  abbrev Spared : Scene D → Outcome D → Type 0
  Spared s o = Spares s o.1

  -- Only the soldier itself has changed.
  pub Spares-self : (s : Scene D) (x : Soldier D) → Spares s (with_self s x)
  Spares-self s x = record { target_place = refl; money_valid = λ v. v }

  became :
      (n : SoldierState) (s : Scene D) (x : Soldier D) (o : Outcome D)
      → become n (with_self s x) ≡ ok o
      → Spared s o
  became n s x o e = subst (Spared s) (ok-injective e) (Spares-self s x)

  place-damage : (a : AnyActor D) (n : ℤ) → place (damage a n) ≡ place a
  unfolding damage Tower.damage Soldier.damage
  place-damage (tower t) n = refl
  place-damage (soldier x) n = refl

  engage-Spares : (s : Scene D) (o : Outcome D) → engage s ≡ ok o → Spared s o
  engage-Spares s o e =
      let (near, e₁, k₁) = >>=-eq-ok (is_attack_target_in_range s) _ e in
      elim (branch (not near) (become pursuit_state s) (become attack_state s) k₁) [
        | inl (_, k) ↦ became pursuit_state s s.self o k
        | inr (_, k) ↦ became attack_state s s.self o k
      ]

  advance-Spares :
      (r : Rules D) (v : Vector D) (s : Scene D) (o : Outcome D) → advance r v s ≡ ok o → Spared s o
  advance-Spares r v s o e =
      let (q, e₁, k₁) = >>=-eq-ok (r.get_next_position s.self.position v s.self.speed) _ e in
      subst (Spared s) (ok-injective k₁) (Spares-self s (set_new_position s.self q))

  strike-Spares :
      (a : AnyActor D) (s : Scene D) (o : Outcome D)
      → s.target ≡ some a
      → strike a s ≡ ok o
      → Spared s o
  unfolding strike
  strike-Spares a s o there e =
      let struck = damage a s.self.attack_damage in
      let (money, e₁, k₁) =
        >>=-eq-ok
          (if eqb_ℤ (get_latest_hp struck) (pos 0) then reward_kill s.money struck else ok s.money)
          _ e in
      subst (Spared s) (ok-injective k₁) (record {
        target_place =
            ap some (place-damage a s.self.attack_damage) ∙ ap (Option.map place) (sym there);
        money_valid = λ v.
            elim (branch (eqb_ℤ (get_latest_hp struck) (pos 0)) (reward_kill s.money struck) _ e₁) [
              | inl (_, paid) ↦ reward_kill-IsValid s.money money struck v paid
              | inr (_, same) ↦ subst IsValid (ok-injective same) v
            ];
      })

  idle_update-Spares : (s : Scene D) (o : Outcome D) → idle_update s ≡ ok o → Spared s o
  unfolding idle_update
  idle_update-Spares s o e = elim (branch (eqb_ℤ s.self.hp (pos 0)) (become new_dead_state s) _ e) [
    | inl (_, k) ↦ became new_dead_state s s.self o k
    | inr (_, k) ↦ elim (branch s.self.is_destination_set (become move_state s) _ k) [
      | inl (_, k') ↦ became move_state s s.self o k'
      | inr (_, k') ↦ elim (branch (is_attack_target_set s.self) (engage s) (stay s) k') [
        | inl (_, kₐ) ↦ engage-Spares s o kₐ
        | inr (_, kₐ) ↦ subst (Spared s) (ok-injective kₐ) (Spares-self s s.self)
      ]
    ]
  ]

  move_update-Spares :
      (r : Rules D) (s : Scene D) (o : Outcome D) → move_update r s ≡ ok o → Spared s o
  unfolding move_update
  move_update-Spares r s o e =
      elim (branch (eqb_ℤ s.self.hp (pos 0)) (become new_dead_state s) _ e) [
        | inl (_, k) ↦ became new_dead_state s s.self o k
        | inr (_, k) ↦ elim (branch (is_attack_target_set s.self) (engage s) _ k) [
          | inl (_, k') ↦ engage-Spares s o k'
          | inr (_, k') ↦
              elim (branch (veq D s.self.position s.self.destination) (become idle_state s) _ k') [
                | inl (_, kₐ) ↦ became idle_state s s.self o kₐ
                | inr (_, kₐ) ↦ advance-Spares r s.self.destination s o kₐ
              ]
        ]
      ]

  -- The object that `GetAttackTarget` points to is the one in the scene.
  target_of : (s : Scene D) (a : AnyActor D) → get_attack_target s ≡ ok a → s.target ≡ some a
  target_of s a e = by_pointer s.self.attack_target e
    where
      by_pointer :
          (p : Option ActorPtr)
          → elim p [ none ↦ err undefined | some _ ↦ or_err s.target undefined ] ≡ ok a
          → s.target ≡ some a
      by_pointer none h = cc
      by_pointer (some _) h = or_err-eq-ok undefined s.target h

  attack_update-Spares : (s : Scene D) (o : Outcome D) → attack_update s ≡ ok o → Spared s o
  unfolding attack_update
  attack_update-Spares s o e =
      elim (branch (eqb_ℤ s.self.hp (pos 0)) (become new_dead_state (drop_target s)) _ e) [
        | inl (_, k) ↦ became new_dead_state s _ o k
        | inr (_, k) ↦
            elim (branch s.self.is_destination_set (become move_state (drop_target s)) _ k) [
              | inl (_, k') ↦ became move_state s _ o k'
              | inr (_, k') ↦
                  let (a, e₁, k₁) = >>=-eq-ok (get_attack_target s) _ k' in
                  elim (branch (eqb_ℤ (get_latest_hp a) (pos 0)) (become idle_state (drop_target s))
                    _ k₁) [
                      | inl (_, kₐ) ↦ became idle_state s _ o kₐ
                      | inr (_, kₐ) ↦
                          let (near, e₂, k₂) = >>=-eq-ok (is_attack_target_in_range s) _ kₐ in
                          elim (branch (not near) (become pursuit_state s) (strike a s) k₂) [
                            | inl (_, far) ↦ became pursuit_state s s.self o far
                            | inr (_, close) ↦ strike-Spares a s o (target_of s a e₁) close
                          ]
                    ]
            ]
      ]

  pursuit_update-Spares :
      (r : Rules D) (s : Scene D) (o : Outcome D) → pursuit_update r s ≡ ok o → Spared s o
  unfolding pursuit_update
  pursuit_update-Spares r s o e =
      elim (branch (eqb_ℤ s.self.hp (pos 0)) (become new_dead_state (drop_target s)) _ e) [
        | inl (_, k) ↦ became new_dead_state s _ o k
        | inr (_, k) ↦
            elim (branch s.self.is_destination_set (become move_state (drop_target s)) _ k) [
              | inl (_, k') ↦ became move_state s _ o k'
              | inr (_, k') ↦
                  let (a, e₁, k₁) = >>=-eq-ok (get_attack_target s) _ k' in
                  elim (branch (eqb_ℤ (get_latest_hp a) (pos 0)) (become idle_state (drop_target s))
                    _ k₁) [
                      | inl (_, kₐ) ↦ became idle_state s _ o kₐ
                      | inr (_, kₐ) ↦
                          let (near, e₂, k₂) = >>=-eq-ok (is_attack_target_in_range s) _ kₐ in
                          elim (branch near (become attack_state s) (advance r (base a).position s)
                            k₂) [
                              | inl (_, close) ↦ became attack_state s s.self o close
                              | inr (_, far) ↦ advance-Spares r (base a).position s o far
                            ]
                    ]
            ]
      ]

  dead_update-Spares : (n : ℕ) (s : Scene D) (o : Outcome D) → dead_update n s ≡ ok o → Spared s o
  unfolding dead_update
  dead_update-Spares zero s o e = became idle_state s s.self o e
  dead_update-Spares (suc n) s o e = subst (Spared s) (ok-injective e) (Spares-self s _)

  pub state_update-Spares :
      (r : Rules D) (s : Scene D) (o : Outcome D) → state_update r s ≡ ok o → Spared s o
  unfolding state_update
  state_update-Spares r s o e = by_state s.self.state e
    where
      by_state :
          (st : SoldierState)
          → elim st [
            | idle_state ↦ idle_update s
            | move_state ↦ move_update r s
            | attack_state ↦ attack_update s
            | pursuit_state ↦ pursuit_update r s
            | dead_state n ↦ dead_update n s
          ]
            ≡ ok o
          → Spared s o
      by_state idle_state h = idle_update-Spares s o h
      by_state move_state h = move_update-Spares r s o h
      by_state attack_state h = attack_update-Spares s o h
      by_state pursuit_state h = pursuit_update-Spares r s o h
      by_state (dead_state n) h = dead_update-Spares n s o h
