-- ===== src/Syncer/Orders.antt =====
-- What the commands to soldiers leave alone: they change the soldiers of the state and nothing else.
use codecharacter_simulator.Prelude.{
  ℕ, ◌≡◌, refl, ◌∙◌, sym, ap, subst, Bool, true, false, get_elem?, Result, ok, undefined, or_err,
  if◌then◌else◌, >>=-eq-ok, ok-injective, inl, inr,
}
use codecharacter_simulator.Players.{PlayerId, at}
use codecharacter_simulator.Physics.Double.{Double}
use codecharacter_simulator.Physics.Vector.{Vector}
use codecharacter_simulator.Actor.Base.{ActorId}
use codecharacter_simulator.Game.Defs
use codecharacter_simulator.Game.Defs.{get_money, State, soldier_index, attack_target_of}
use codecharacter_simulator.Syncer.Commands.{
  ErrorType, SyncerRules, Turn, log_error, on_state, move_soldier, attack_tower, attack_soldier,
}
use codecharacter_simulator.Syncer.Attacks.{move_soldier_lem, attack_tower_lem}
use codecharacter_simulator.Syncer.Strikes.{attack_soldier_lem}
use codecharacter_simulator.Syncer.Bills.{IsPaid}
use codecharacter_simulator.Syncer.Keeps.{IsKept, refused-IsKept}

module _ {D : Double} (c : SyncerRules) where
  -- The state with other soldiers, and nothing else changed.
  abbrev OnlySoldiers : State D → State D → Type 0
  OnlySoldiers s s' = s' ≡ record s { soldiers = s'.soldiers }

  move_soldier-OnlySoldiers :
      (s s' : State D) (p : PlayerId) (id : ActorId) (v : Vector D)
      → Defs.move_soldier s p id v ≡ ok s'
      → OnlySoldiers s s'
  unfolding Defs.move_soldier
  move_soldier-OnlySoldiers s s' p id v e =
      let (i, e₁, k₁) = >>=-eq-ok (soldier_index s id p) _ e in
      let (x, e₂, k₂) = >>=-eq-ok (or_err (get_elem? (at s.soldiers p) i) undefined) _ k₁ in
      subst (OnlySoldiers s) (ok-injective k₂) refl

  attack_actor_by_id-OnlySoldiers :
      (s s' : State D) (p : PlayerId) (soldier_id id : ActorId)
      → Defs.attack_actor_by_id s p soldier_id id ≡ ok s'
      → OnlySoldiers s s'
  unfolding Defs.attack_actor_by_id
  attack_actor_by_id-OnlySoldiers s s' p soldier_id id e =
      let (i, e₁, k₁) = >>=-eq-ok (soldier_index s soldier_id p) _ e in
      let (target, e₂, k₂) = >>=-eq-ok (attack_target_of s p id) _ k₁ in
      let (x, e₃, k₃) = >>=-eq-ok (or_err (get_elem? (at s.soldiers p) i) undefined) _ k₂ in
      subst (OnlySoldiers s) (ok-injective k₃) refl

  -- A command that changes the soldiers, after errors that may have been logged.
  on_state-IsKept :
      (s : State D) (t t' : Turn D) (r : Result (State D))
      → IsKept c s t
      → ((u : State D) → r ≡ ok u → OnlySoldiers t.state u)
      → on_state t r ≡ ok t'
      → IsKept c s t'
  on_state-IsKept s t t' r h only e =
      let (u, e₁, k₁) = >>=-eq-ok r _ e in
      let same = only u e₁ in
      subst (IsKept c s) (ok-injective k₁) (record {
        money_same = ap (λ (x : State D). x.money_manager) same ∙ h.money_same;
        map_same = ap (λ (x : State D). x.map) same ∙ h.map_same;
        towers_same =
            λ q. ap (λ (x : State D). (at x.tower_managers q).towers) same ∙ h.towers_same q;
        refs_same =
            λ q. ap (λ (x : State D). (at x.tower_managers q).territory_refs) same ∙ h.refs_same q;
        owner_same =
            λ q. ap (λ (x : State D). (at x.tower_managers q).player_id) same ∙ h.owner_same q;
        solvent = h.solvent;
        paid = λ q.
            subst
              (λ m. IsPaid c (at s.tower_managers q) m (at (get_money s) q) (at t.player_money q))
              (sym (ap (λ (x : State D). at x.tower_managers q) same)) (h.paid q);
      })

  pub move_soldier-IsKept :
      (s : State D) (t t' : Turn D) (p : PlayerId) (id : ActorId) (v : Vector D) (i : ℕ)
      → IsKept c s t
      → move_soldier t p id v i ≡ ok t'
      → IsKept c s t'
  move_soldier-IsKept s t t' p id v i h e = elim (move_soldier_lem t t' p id v i e) [
    | inl r ↦ refused-IsKept c s p t t' h r
    | inr (_, _, done) ↦
        on_state-IsKept s t t' _ h (λ u. move_soldier-OnlySoldiers t.state u p id _) done
  ]

  pub attack_tower-IsKept :
      (s : State D) (t t' : Turn D) (p : PlayerId) (id tower_id : ActorId) (i : ℕ)
      → IsKept c s t
      → attack_tower t p id tower_id i ≡ ok t'
      → IsKept c s t'
  attack_tower-IsKept s t t' p id tower_id i h e = elim (attack_tower_lem t t' p id tower_id i e) [
    | inl r ↦ refused-IsKept c s p t t' h r
    | inr (_, _, _, done) ↦
        on_state-IsKept s t t' _ h (λ u. attack_actor_by_id-OnlySoldiers t.state u p id tower_id)
          done
  ]

  logged-IsKept :
      (s : State D) (t : Turn D) (p : PlayerId) (e : ErrorType) (b : Bool)
      → IsKept c s t
      → IsKept c s (if b then log_error t p e else t)
  logged-IsKept s t p e true h = refused-IsKept c s p t _ h (e, refl)
  logged-IsKept s t p e false h = h

  same_state :
      (t : Turn D) (p : PlayerId) (e : ErrorType) (b : Bool)
      → (if b then log_error t p e else t).state ≡ t.state
  same_state t p e true = refl
  same_state t p e false = refl

  pub attack_soldier-IsKept :
      (s : State D) (t t' : Turn D) (p : PlayerId) (id enemy_id : ActorId) (i : ℕ)
      → IsKept c s t
      → attack_soldier t p id enemy_id i ≡ ok t'
      → IsKept c s t'
  attack_soldier-IsKept s t t' p id enemy_id i h e =
      elim (attack_soldier_lem t t' p id enemy_id i e) [
        | inl r ↦ refused-IsKept c s p t t' h r
        | inr (_, _, done) ↦
            on_state-IsKept s _ t' _ (logged-IsKept s t p ErrorType.no_attack_immune_soldier _ h)
              (λ u a.
                subst (λ x. OnlySoldiers x u)
                  (sym (same_state t p ErrorType.no_attack_immune_soldier _))
                  (attack_actor_by_id-OnlySoldiers t.state u p id enemy_id a))
              done
      ]
