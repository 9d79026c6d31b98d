-- ===== src/Syncer/Keeps.antt =====
-- What the commands of a turn leave alone: they spend what there is, and only ask the state.
use codecharacter_simulator.Prelude.{
  ℕ, get_elem?, some, ◌≡◌, refl, ◌∙◌, sym, subst, ℤ, pos, ◌-ℤ◌, ◌≤ℤ◌, ok, inl, inr, int_laws,
}
use codecharacter_simulator.Players.{PlayerId, player1, player2, PerPlayer, at, put}
use codecharacter_simulator.Physics.Double.{Double}
use codecharacter_simulator.Physics.Vector.{Vector}
use codecharacter_simulator.Actor.Base.{ActorId}
use codecharacter_simulator.Towers.Defs.{TowerManager}
use codecharacter_simulator.Towers.Handlers
use codecharacter_simulator.Game.Defs
use codecharacter_simulator.Game.Defs.{State}
use codecharacter_simulator.Syncer.Commands.{
  SyncerRules, Turn, build_tower, upgrade_tower, suicide_tower,
}
use codecharacter_simulator.Syncer.Bills.{
  ArePaid, put-ArePaid, put_manager-ArePaid, build_tower-IsPaid, upgrade_tower-IsPaid,
  suicide_tower-IsPaid,
}
use codecharacter_simulator.Syncer.Accepts.{
  IsRefused, build_tower_lem, upgrade_tower_lem, suicide_tower_lem,
}

-- A component that a replacement agrees on is the same for every player.
put_same {ℓ κ} :
    {A : Type ℓ} {X : Type κ} (f : A → X) (v : PerPlayer A) (p q : PlayerId) (a : A)
    → f a ≡ f (at v p)
    → f (at (put v p a) q) ≡ f (at v q)
put_same f v player1 player1 a h = h
put_same f v player1 player2 a h = refl
put_same f v player2 player1 a h = refl
put_same f v player2 player2 a h = h

stays_paid :
    (v : PerPlayer ℤ) (p q : PlayerId) (cost : ℤ)
    → cost ≤ℤ at v p
    → ((r : PlayerId) → pos 0 ≤ℤ at v r)
    → pos 0 ≤ℤ at (put v p (at v p -ℤ cost)) q
stays_paid v player1 player1 cost h all = omega int_laws
stays_paid v player1 player2 cost h all = all player2
stays_paid v player2 player1 cost h all = all player1
stays_paid v player2 player2 cost h all = omega int_laws

module _ {D : Double} (c : SyncerRules) where
  -- No player owes money, every new request is paid, and the money, the map, the towers, their owners
  -- and the territory are those of the state in which the turn began.
  pub record IsKept (s : State D) (t : Turn D) : Type 0 where
    pub money_same : t.state.money_manager ≡ s.money_manager
    pub map_same : t.state.map ≡ s.map
    pub towers_same :
        (q : PlayerId) → (at t.state.tower_managers q).towers ≡ (at s.tower_managers q).towers
    pub refs_same :
        (q : PlayerId)
        → (at t.state.tower_managers q).territory_refs ≡ (at s.tower_managers q).territory_refs
    pub owner_same :
        (q : PlayerId) → (at t.state.tower_managers q).player_id ≡ (at s.tower_managers q).player_id
    pub solvent : (q : PlayerId) → pos 0 ≤ℤ at t.player_money q
    pub paid : ArePaid c s t.state.tower_managers t.player_money

  pub refused-IsKept :
      (s : State D) (p : PlayerId) (t t' : Turn D) → IsKept s t → IsRefused p t t' → IsKept s t'
  refused-IsKept s p t t' h (e, same) = subst (IsKept s) (sym same) (record {
    money_same = h.money_same;
    map_same = h.map_same;
    towers_same = h.towers_same;
    refs_same = h.refs_same;
    owner_same = h.owner_same;
    solvent = h.solvent;
    paid = h.paid;
  })

  pub build_tower-IsKept :
      (s : State D) (t t' : Turn D) (p : PlayerId) (offset : Vector D)
      → IsKept s t
      → build_tower c t p offset ≡ ok t'
      → IsKept s t'
  unfolding Defs.request_build Handlers.build_tower
  build_tower-IsKept s t t' p offset h e = elim (build_tower_lem c t t' p offset e) [
    | inl r ↦ refused-IsKept s p t t' h r
    | inr b ↦ subst (IsKept s) (sym b.done) (record {
      money_same = h.money_same;
      map_same = h.map_same;
      towers_same = λ q.
          put_same (λ (m : TowerManager D). m.towers) t.state.tower_managers p q _ refl
          ∙ h.towers_same q;
      refs_same = λ q.
          put_same (λ (m : TowerManager D). m.territory_refs) t.state.tower_managers p q _ refl
          ∙ h.refs_same q;
      owner_same = λ q.
          put_same (λ (m : TowerManager D). m.player_id) t.state.tower_managers p q _ refl
          ∙ h.owner_same q;
      solvent = λ q. stays_paid t.player_money p q b.cost b.affordable h.solvent;
      paid =
          put-ArePaid c s t.state.tower_managers t.player_money p _ _ h.paid
            (build_tower-IsPaid c _ _ _ _ b.cost _ (h.paid p) b.first_cost);
    })
  ]

  pub upgrade_tower-IsKept :
      (s : State D) (t t' : Turn D) (p : PlayerId) (id : ActorId) (i : ℕ)
      → IsKept s t
      → upgrade_tower c t p id i ≡ ok t'
      → IsKept s t'
  unfolding Defs.request_upgrade Handlers.upgrade_tower
  upgrade_tower-IsKept s t t' p id i h e = elim (upgrade_tower_lem c t t' p id i e) [
    | inl r ↦ refused-IsKept s p t t' h r
    | inr b ↦ subst (IsKept s) (sym b.done) (record {
      money_same = h.money_same;
      map_same = h.map_same;
      towers_same = λ q.
          put_same (λ (m : TowerManager D). m.towers) t.state.tower_managers p q _ refl
          ∙ h.towers_same q;
      refs_same = λ q.
          put_same (λ (m : TowerManager D). m.territory_refs) t.state.tower_managers p q _ refl
          ∙ h.refs_same q;
      owner_same = λ q.
          put_same (λ (m : TowerManager D). m.player_id) t.state.tower_managers p q _ refl
          ∙ h.owner_same q;
      solvent = λ q. stays_paid t.player_money p q b.cost b.affordable h.solvent;
      paid = put-ArePaid c s t.state.tower_managers t.player_money p _ _ h.paid (
          upgrade_tower-IsPaid c _ _ _ _ b.cost id (h.paid p) (
            i,
            b.target,
            subst (λ ts. get_elem? ts i ≡ some b.target) (h.towers_same p) b.at_index,
            b.same_id,
            b.cost_of_level,
          ));
    })
  ]

  pub suicide_tower-IsKept :
      (s : State D) (t t' : Turn D) (p : PlayerId) (id : ActorId) (i : ℕ)
      → IsKept s t
      → suicide_tower t p id i ≡ ok t'
      → IsKept s t'
  unfolding Defs.request_suicide Handlers.suicide_tower
  suicide_tower-IsKept s t t' p id i h e = elim (suicide_tower_lem t t' p id i e) [
    | inl r ↦ refused-IsKept s p t t' h r
    | inr b ↦ subst (IsKept s) (sym b.done) (record {
      money_same = h.money_same;
      map_same = h.map_same;
      towers_same = λ q.
          put_same (λ (m : TowerManager D). m.towers) t.state.tower_managers p q _ refl
          ∙ h.towers_same q;
      refs_same = λ q.
          put_same (λ (m : TowerManager D). m.territory_refs) t.state.tower_managers p q _ refl
          ∙ h.refs_same q;
      owner_same = λ q.
          put_same (λ (m : TowerManager D). m.player_id) t.state.tower_managers p q _ refl
          ∙ h.owner_same q;
      solvent = h.solvent;
      paid =
          put_manager-ArePaid c s t.state.tower_managers t.player_money p _ h.paid
            (suicide_tower-IsPaid c _ _ _ _ id (h.paid p));
    })
  ]
