-- ===== src/Soldier/Targets.antt =====
-- What a soldier's update and late update do to the actor at their target, and to the money.
use codecharacter_simulator.Prelude.{
  ℕ, zero, suc, ◌≡◌, sym, ap, subst, not, ◌&&◌, none, some, pos, eqb_ℤ, ok, branch, >>=-eq-ok,
  ok-injective, inl, inr,
}
use codecharacter_simulator.Physics.Double.{Double}
use codecharacter_simulator.Actor.Soldier.{SoldierState}
use codecharacter_simulator.Soldier.Scene.{Rules, Scene}
use codecharacter_simulator.Soldier.States.{Outcome, state_update, with_self, state_exit}
use codecharacter_simulator.Soldier.Machine.{
  switch, transitions, max_transitions, update, late_update, die, next_or_null, commit_damage,
  commit_position, count_invulnerability, is_dead,
}
use codecharacter_simulator.Soldier.Spares.{Spares, Spares-trans, Spares-self, state_update-Spares}

module _ {D : Double} where
  switch-Spares :
      (r : Rules D) (n : SoldierState) (s s' : Scene D) → switch r n s ≡ ok s' → Spares s s'
  unfolding switch
  switch-Spares r n s s' e =
      let (left, e₁, k₁) = >>=-eq-ok (state_exit r s.self) _ e in
      subst (Spares s) (ok-injective k₁) (Spares-self s _)

  transitions-Spares :
      (f : ℕ) (r : Rules D) (o : Outcome D) (s' : Scene D)
      → transitions f r o ≡ ok s'
      → Spares o.1 s'
  unfolding transitions
  transitions-Spares zero r (none, s) s' e =
      subst (Spares s) (ok-injective e) (Spares-self s s.self)
  transitions-Spares (suc f) r (none, s) s' e =
      subst (Spares s) (ok-injective e) (Spares-self s s.self)
  transitions-Spares zero r (some n, s) s' e = cc
  transitions-Spares (suc f) r (some n, s) s' e =
      let (t, e₁, k₁) = >>=-eq-ok (switch r n s) _ e in
      let (o, e₂, k₂) = >>=-eq-ok (state_update r t) _ k₁ in
      Spares-trans s t s' (switch-Spares r n s t e₁)
        (Spares-trans t o.1 s' (state_update-Spares r t o e₂) (transitions-Spares f r o s' k₂))

  -- An update of a soldier that returns leaves a tower at its target where it is.
  pub update-Spares : (r : Rules D) (s s' : Scene D) → update r s ≡ ok s' → Spares s s'
  unfolding update
  update-Spares r s s' e =
      let (o, e₁, k₁) = >>=-eq-ok (state_update r s) _ e in
      Spares-trans s o.1 s' (state_update-Spares r s o e₁)
        (transitions-Spares max_transitions r o s' k₁)

  scene_of : (o : Outcome D) (n : SoldierState) (t : Scene D) → next_or_null o ≡ ok (n, t) → t ≡ o.1
  scene_of (none, s) n t e = cc
  scene_of (some m, s) n t e = sym (ap (λ (x : SoldierState × Scene D). x.1) (ok-injective e))

  die-Spares : (r : Rules D) (s s' : Scene D) → die r s ≡ ok s' → Spares s s'
  unfolding die
  die-Spares r s s' e =
      let (o, e₁, k₁) = >>=-eq-ok (state_update r s) _ e in
      let ((n, t), e₂, k₂) = >>=-eq-ok (next_or_null o) _ k₁ in
      let (u, e₃, k₃) = >>=-eq-ok (switch r n t) _ k₂ in
      let (o₂, e₄, k₄) = >>=-eq-ok (state_update r u) _ k₃ in
      Spares-trans s o.1 s' (state_update-Spares r s o e₁) (
        subst (λ (x : Scene D). Spares x s') (scene_of o n t e₂)
          (Spares-trans t u s' (switch-Spares r n t u e₃)
            (subst (Spares u) (ok-injective k₄) (state_update-Spares r u o₂ e₄))))

  -- So does a late update.
  pub late_update-Spares : (r : Rules D) (s s' : Scene D) → late_update r s ≡ ok s' → Spares s s'
  unfolding late_update
  late_update-Spares r s s' e =
      let (hurt, e₁, k₁) = >>=-eq-ok (commit_damage (commit_position s.self)) _ e in
      let t = with_self s (count_invulnerability hurt) in
      elim (branch (eqb_ℤ t.self.hp (pos 0) && not (is_dead t.self.state)) (die r t) (ok t) k₁) [
        | inl (_, k) ↦ Spares-trans s t s' (Spares-self s _) (die-Spares r t s' k)
        | inr (_, k) ↦ subst (Spares s) (ok-injective k) (Spares-self s _)
      ]
