-- ===== src/View/Shown.antt =====
-- What `UpdatePlayerStates` shows a player of the towers and the soldiers.
use codecharacter_simulator.Prelude.{
  ℕ, zero, suc, ◌+◌, ◌<◌, ◌≤◌, ◌==◌, ◌≡◌, refl, sym, ap, ◌∙◌, subst, Bool, true, false, not, List,
  some, length, get_elem?, get_elem?-set_self, get_elem?-set_ne, set, ltb, Result, ok, err,
  undefined, or_err, throw_if, ◌>>=◌, ◌>>◌, >>=-eq-ok, ok-injective, or_err-eq-ok, arith,
  Bool-cases, inl, inr,
}
use codecharacter_simulator.Players.{PlayerId, player1, player2, PerPlayer, at, enemy}
use codecharacter_simulator.Physics.Double.{Double}
use codecharacter_simulator.Money.{get_balance}
use codecharacter_simulator.Game.Defs.{State}
use codecharacter_simulator.Game.Lookup.{HasTeams}
use codecharacter_simulator.Syncer.PlayerState.{PlayerState, PlayerTower, PlayerSoldier}
use codecharacter_simulator.Syncer.Turns.{each_round}
use codecharacter_simulator.View.Flip.{PlayerMap, flip_map}
use codecharacter_simulator.View.Actors
use codecharacter_simulator.View.Actors.{
  put_at, seen_tower, seen_soldier, soldier_rounds, assign_tower, assign_soldier,
  assign_tower_attributes, assign_soldier_attributes,
}
use codecharacter_simulator.View.Defs.{
  update_player_state, update_player_states, new_player_map, validate, mark_towers, copy_rows,
}

put_at-eq-ok {ℓ} :
    {A : Type ℓ} (v v' : List A) (i : ℕ) (a : A)
    → put_at v i a ≡ ok v'
    → (i < length v) × (set v i a ≡ v')
put_at-eq-ok v v' i a e = elim (Bool-cases (ltb i (length v))) [
  | inl b ↦ (
    ground arith,
    ok-injective (sym (ap (λ c. throw_if (not c) undefined >> ok (set v i a)) b) ∙ e),
  )
  | inr b ↦ absurd (refused (sym (ap (λ c. throw_if (not c) undefined >> ok (set v i a)) b) ∙ e))
]
  where
    refused : err undefined ≡ ok v' → ⊥
    refused h = cc

module _ {ℓ κ} {A : Type ℓ} {B : Type κ} (source : List A) (show : A → B) where
  abbrev body : ℕ → List B → Result (List B)
  body i v = do a ← or_err (get_elem? source i) undefined; put_at v i (show a)

  -- The entry is the source's, as it is shown.
  abbrev pub IsShown : List B → ℕ → Type (ℓ ⊔ κ)
  IsShown v i = (a : A) × (get_elem? source i ≡ some a) × (get_elem? v i ≡ some (show a))

  kept_below :
      (n start : ℕ) (v v' : List B) (i : ℕ)
      → each_round n start body v ≡ ok v'
      → i < start
      → get_elem? v' i ≡ get_elem? v i
  unfolding each_round
  kept_below zero start v v' i e h = ap (λ x. get_elem? x i) (sym (ok-injective e))
  kept_below (suc n) start v v' i e h =
      let (w, e₁, k₁) = >>=-eq-ok (body start v) _ e in
      let (a, e₂, k₂) = >>=-eq-ok (or_err (get_elem? source start) undefined) _ e₁ in
      kept_below n (suc start) w v' i k₁ (omega arith)
      ∙ ap (λ x. get_elem? x i) (sym (put_at-eq-ok v w start (show a) k₂).1)
      ∙ get_elem?-set_ne v (show a) (λ (same : start ≡ i). let c : ⊥ = omega arith in elim c [ ])

  -- After a loop that returns, every entry that it came to is shown.
  pub assigned :
      (n start : ℕ) (v v' : List B) (i : ℕ)
      → each_round n start body v ≡ ok v'
      → start ≤ i
      → i < start + n
      → IsShown v' i
  unfolding each_round
  assigned zero start v v' i e lo hi = let c : ⊥ = omega arith in elim c [ ]
  assigned (suc n) start v v' i e lo hi =
      let (w, e₁, k₁) = >>=-eq-ok (body start v) _ e in
      let (a, e₂, k₂) = >>=-eq-ok (or_err (get_elem? source start) undefined) _ e₁ in
      let (inside, same) = put_at-eq-ok v w start (show a) k₂ in
      elim (Bool-cases (start == i)) [
        | inl b ↦ subst (IsShown v') (ground arith) (
          a,
          or_err-eq-ok undefined (get_elem? source start) e₂,
          kept_below n (suc start) w v' start k₁ (omega arith)
              ∙ ap (λ x. get_elem? x start) (sym same)
              ∙ get_elem?-set_self v start (show a) inside,
        )
        | inr b ↦ assigned n (suc start) w v' i k₁ (ground arith) (omega arith)
      ]

enemy_rounds : (n : ℕ) → soldier_rounds true n n ≡ n
enemy_rounds zero = refl
enemy_rounds (suc n) = refl

enemy-enemy : (p : PlayerId) → enemy (enemy p) ≡ p
enemy-enemy player1 = refl
enemy-enemy player2 = refl

module _ {D : Double} where
  -- What the player `p` is shown: all towers and soldiers of both players, where the player sees them.
  pub record Shows (s : State D) (p : PlayerId) (view : PlayerState D) : Type 0 where
    pub own_towers :
        (i : ℕ)
        → i < length (at s.tower_managers p).towers
        → IsShown (at s.tower_managers p).towers (seen_tower p s.map) view.towers i
    pub other_towers :
        (i : ℕ)
        → i < length (at s.tower_managers (enemy p)).towers
        → IsShown (at s.tower_managers (enemy p)).towers (seen_tower p s.map) view.enemy_towers i
    pub own_soldiers :
        (i : ℕ)
        → i < length (at s.soldiers p)
        → IsShown (at s.soldiers p) (seen_soldier p s.map) view.soldiers i
    pub other_soldiers :
        (i : ℕ)
        → i < length (at s.soldiers (enemy p))
        → IsShown (at s.soldiers (enemy p)) (seen_soldier p s.map) view.enemy_soldiers i
    pub num_own : view.num_towers ≡ length (at s.tower_managers p).towers
    pub num_other : view.num_enemy_towers ≡ length (at s.tower_managers (enemy p)).towers
    pub money_same : view.money ≡ get_balance s.money_manager p

  team : (s : State D) (n : ℕ) (p : PlayerId) → HasTeams s n → length (at s.soldiers p) ≡ n
  team s n player1 h = h.team1
  team s n player2 h = h.team2

  towers-IsShown :
      (s : State D) (id viewer : PlayerId) (is_enemy : Bool) (v v' : List (PlayerTower D))
      → Actors.viewer id is_enemy ≡ viewer
      → assign_tower_attributes s id is_enemy v ≡ ok v'
      → (i : ℕ) → i < length (at s.tower_managers id).towers
      → IsShown (at s.tower_managers id).towers (seen_tower viewer s.map) v' i
  unfolding assign_tower_attributes assign_tower
  towers-IsShown s id viewer is_enemy v v' same e i h =
      subst (λ q. IsShown (at s.tower_managers id).towers (seen_tower q s.map) v' i) same
        (assigned (at s.tower_managers id).towers (seen_tower (Actors.viewer id is_enemy) s.map) _ 0
          v v' i e (omega arith) (omega arith))

  soldiers-IsShown :
      (s : State D) (id viewer : PlayerId) (is_enemy : Bool) (v v' : List (PlayerSoldier D))
      → Actors.viewer id is_enemy ≡ viewer
      → soldier_rounds is_enemy (length (at s.soldiers id)) (length (at s.soldiers (enemy id)))
        ≡ length (at s.soldiers id)
      → assign_soldier_attributes s id is_enemy v ≡ ok v'
      → (i : ℕ) → i < length (at s.soldiers id)
      → IsShown (at s.soldiers id) (seen_soldier viewer s.map) v' i
  unfolding assign_soldier_attributes assign_soldier
  soldiers-IsShown s id viewer is_enemy v v' same rounds e i h =
      subst (λ q. IsShown (at s.soldiers id) (seen_soldier q s.map) v' i) same
        (assigned (at s.soldiers id) (seen_soldier (Actors.viewer id is_enemy) s.map) _ 0 v v' i e
          (omega arith) (omega (arith, subst (λ k. i < k) (sym rounds) h)))

  player_shown :
      (s : State D) (n : ℕ) (p : PlayerId) (g g' : PlayerMap) (view view' : PlayerState D)
      → HasTeams s n
      → update_player_state s p g view ≡ ok (g', view')
      → Shows s p view'
  unfolding update_player_state
  player_shown s n p g g' view view' teams e =
      let (a, e₁, k₁) = >>=-eq-ok (assign_tower_attributes s p false view.towers) _ e in
      let (b, e₂, k₂) =
        >>=-eq-ok (assign_tower_attributes s (enemy p) true view.enemy_towers) _ k₁ in
      let (c, e₃, k₃) = >>=-eq-ok (assign_soldier_attributes s p false view.soldiers) _ k₂ in
      let (d, e₄, k₄) =
        >>=-eq-ok (assign_soldier_attributes s (enemy p) true view.enemy_soldiers) _ k₃ in
      let (m, e₅, k₅) =
        >>=-eq-ok (mark_towers p s.map (at s.tower_managers p).towers (validate g)) _ k₄ in
      let (w, e₆, k₆) = >>=-eq-ok (copy_rows m view.map) _ k₅ in
      subst (Shows s p) (ap (λ (x : PlayerMap × PlayerState D). x.1) (ok-injective k₆)) (record {
        own_towers = towers-IsShown s p p false _ a refl e₁;
        other_towers = towers-IsShown s (enemy p) p true _ b (enemy-enemy p) e₂;
        own_soldiers = soldiers-IsShown s p p false _ c refl refl e₃;
        other_soldiers =
            soldiers-IsShown s (enemy p) p true _ d (enemy-enemy p)
              (rw (team s n (enemy p) teams, team s n (enemy (enemy p)) teams) (enemy_rounds n)) e₄;
        num_own = refl;
        num_other = refl;
        money_same = refl;
      })

  -- With two teams of the same size, after `UpdatePlayerStates` returns each player is shown all its
  -- towers and soldiers and all of the enemy's, each with its identifier, its hit points and the
  -- position at which the player sees it, the numbers of the towers, and its own balance. The requests
  -- in the entries of the towers and the soldiers are cleared.
  pub update_player_states-Shows :
      (s : State D) (n : ℕ) (views views' : PerPlayer (PlayerState D)) (p : PlayerId)
      → HasTeams s n
      → update_player_states s views ≡ ok views'
      → Shows s p (at views' p)
  unfolding update_player_states
  update_player_states-Shows s n views views' p teams e =
      let (g, e₁, k₁) = >>=-eq-ok (new_player_map s.map) _ e in
      let ((g₁, v₁), e₂, k₂) = >>=-eq-ok (update_player_state s player1 g views.first) _ k₁ in
      let ((g₂, v₂), e₃, k₃) =
        >>=-eq-ok (update_player_state s player2 (flip_map g₁) views.second) _ k₂ in
      subst (λ (v : PerPlayer (PlayerState D)). Shows s p (at v p)) (ok-injective k₃)
        (elim p as (λ q. Shows s q (at (record { first = v₁; second = v₂ }) q)) [
          | player1 ↦ player_shown s n player1 g g₁ views.first v₁ teams e₂
          | player2 ↦ player_shown s n player2 (flip_map g₁) g₂ views.second v₂ teams e₃
        ])
