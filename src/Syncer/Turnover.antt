-- ===== src/Syncer/Turnover.antt =====
-- A whole turn of commands: `ExecutePlayerCommands` only asks, and never overspends.
use codecharacter_simulator.Prelude.{
  branch, ℕ, zero, suc, ltb, ◌≡◌, refl, sym, subst, Bool, true, false, not, ◌&&◌, List, [], ◌∷◌,
  pos, negsuc, ◌≤ℤ◌, eqb_ℤ, length, get_elem?, Result, ok, undefined, or_err, if◌then◌else◌,
  >>=-eq-ok, ok-injective, inl, inr,
}
use codecharacter_simulator.Players.{PlayerId, player1, player2, PerPlayer, at}
use codecharacter_simulator.Physics.Double.{Double}
use codecharacter_simulator.Physics.Vector.{of_ints, vne}
use codecharacter_simulator.Game.Defs.{get_money, State}
use codecharacter_simulator.Money.Bounds.{IsValid}
use codecharacter_simulator.Syncer.PlayerState.{PlayerMapElement, PlayerState}
use codecharacter_simulator.Syncer.Commands.{
  ErrorType, SyncerRules, Turn, log_error, build_tower, upgrade_tower, suicide_tower, move_soldier,
  attack_tower, attack_soldier,
}
use codecharacter_simulator.Syncer.Bills.{nothing-IsPaid}
use codecharacter_simulator.Syncer.Keeps.{
  IsKept, refused-IsKept, build_tower-IsKept, upgrade_tower-IsKept, suicide_tower-IsKept,
}
use codecharacter_simulator.Syncer.Orders.{
  move_soldier-IsKept, attack_tower-IsKept, attack_soldier-IsKept,
}
use codecharacter_simulator.Syncer.Turns.{
  each_round, count_true, tower_command, soldier_command, build_row, build_rows, tower_commands,
  other_commands, new_turn, execute_player_commands,
}

-- What every round of a loop keeps holds after the loop.
each_round_inv {ℓ κ} :
    {S : Type ℓ} (P : S → Type κ) (f : ℕ → S → Result S)
    → ((i : ℕ) (s s' : S) → P s → f i s ≡ ok s' → P s')
    → (n i : ℕ) (s s' : S) → P s
    → each_round n i f s ≡ ok s'
    → P s'
unfolding each_round
each_round_inv P f keep zero i s s' h e = subst P (ok-injective e) h
each_round_inv P f keep (suc n) i s s' h e =
    let (t, e₁, k₁) = >>=-eq-ok (f i s) (each_round n (suc i) f) e in
    each_round_inv P f keep n (suc i) t s' (keep i s t h e₁) k₁

module _ {D : Double} (c : SyncerRules) where
  tower_command-IsKept :
      (s : State D) (p : PlayerId) (view : PlayerState D) (i : ℕ) (t t' : Turn D)
      → IsKept c s t
      → tower_command c p view i t ≡ ok t'
      → IsKept c s t'
  unfolding tower_command
  tower_command-IsKept s p view i t t' h e =
      let (x, _, k) = >>=-eq-ok (or_err (get_elem? view.towers i) undefined) _ e in
      elim (branch (x.upgrade_tower && x.suicide)
        (ok (log_error t p ErrorType.no_multiple_tower_tasks)) _ k) [
          | inl (_, k₁) ↦ refused-IsKept c s p t t' h (_, sym (ok-injective k₁))
          | inr (_, k₁) ↦ elim (branch x.upgrade_tower (upgrade_tower c t p x.id i) _ k₁) [
            | inl (_, k₂) ↦ upgrade_tower-IsKept c s t t' p x.id i h k₂
            | inr (_, k₂) ↦ elim (branch x.suicide (suicide_tower t p x.id i) _ k₂) [
              | inl (_, k₃) ↦ suicide_tower-IsKept c s t t' p x.id i h k₃
              | inr (_, k₃) ↦ subst (IsKept c s) (ok-injective k₃) h
            ]
          ]
        ]

  soldier_command-IsKept :
      (s : State D) (p : PlayerId) (view : PlayerState D) (i : ℕ) (t t' : Turn D)
      → IsKept c s t
      → soldier_command p view i t ≡ ok t'
      → IsKept c s t'
  unfolding soldier_command
  soldier_command-IsKept s p view i t t' h e =
      let (x, _, k) = >>=-eq-ok (or_err (get_elem? view.soldiers i) undefined) _ e in
      let attacks_tower = not (eqb_ℤ x.tower_target (negsuc 0)) in
      let attacks_soldier = not (eqb_ℤ x.soldier_target (negsuc 0)) in
      let moves = vne D x.destination (of_ints D (negsuc 0) (negsuc 0)) in
      elim (branch (ltb 1 (count_true (attacks_soldier ∷ moves ∷ attacks_tower ∷ [])))
        (ok (log_error t p ErrorType.no_multiple_soldier_tasks)) _ k) [
          | inl (_, k₁) ↦ refused-IsKept c s p t t' h (_, sym (ok-injective k₁))
          | inr (_, k₁) ↦
              elim (branch attacks_tower (attack_tower t p x.id x.tower_target i) _ k₁) [
                | inl (_, k₂) ↦ attack_tower-IsKept c s t t' p x.id x.tower_target i h k₂
                | inr (_, k₂) ↦
                    elim (branch attacks_soldier (attack_soldier t p x.id x.soldier_target i) _
                      k₂) [
                        | inl (_, k₃) ↦
                            attack_soldier-IsKept c s t t' p x.id x.soldier_target i h k₃
                        | inr (_, k₃) ↦
                            elim (branch moves (move_soldier t p x.id x.destination i) _ k₃) [
                              | inl (_, k₄) ↦
                                  move_soldier-IsKept c s t t' p x.id x.destination i h k₄
                              | inr (_, k₄) ↦ subst (IsKept c s) (ok-injective k₄) h
                            ]
                      ]
              ]
        ]

  build_row-IsKept :
      (s : State D) (p : PlayerId) (j k : ℕ) (es : List PlayerMapElement) (t t' : Turn D)
      → IsKept c s t
      → build_row c p j k es t ≡ ok t'
      → IsKept c s t'
  unfolding build_row
  build_row-IsKept s p j k [] t t' h e = subst (IsKept c s) (ok-injective e) h
  build_row-IsKept s p j k (x ∷ es) t t' h e =
      let v = of_ints D (pos j) (pos k) in
      let (u, e₁, k₁) = >>=-eq-ok (if x.build_tower then build_tower c t p v else ok t) _ e in
      elim (branch x.build_tower (build_tower c t p v) (ok t) e₁) [
        | inl (_, b) ↦
            build_row-IsKept s p j (suc k) es u t' (build_tower-IsKept c s t u p v h b) k₁
        | inr (_, b) ↦
            build_row-IsKept s p j (suc k) es u t' (subst (IsKept c s) (ok-injective b) h) k₁
      ]

  build_rows-IsKept :
      (s : State D) (p : PlayerId) (j : ℕ) (rows : List (List PlayerMapElement)) (t t' : Turn D)
      → IsKept c s t
      → build_rows c p j rows t ≡ ok t'
      → IsKept c s t'
  unfolding build_rows
  build_rows-IsKept s p j [] t t' h e = subst (IsKept c s) (ok-injective e) h
  build_rows-IsKept s p j (row ∷ rows) t t' h e =
      let (u, e₁, k₁) = >>=-eq-ok (build_row c p j 0 row t) _ e in
      build_rows-IsKept s p (suc j) rows u t' (build_row-IsKept s p j 0 row t u h e₁) k₁

  tower_commands-IsKept :
      (s : State D) (p : PlayerId) (view : PlayerState D) (skip : Bool) (t t' : Turn D)
      → IsKept c s t
      → tower_commands c p view skip t ≡ ok t'
      → IsKept c s t'
  unfolding tower_commands
  tower_commands-IsKept s p view true t t' h e = subst (IsKept c s) (ok-injective e) h
  tower_commands-IsKept s p view false t t' h e =
      each_round_inv (IsKept c s) (tower_command c p view) (tower_command-IsKept s p view) _ 0 t t'
        h e

  counted-IsKept :
      (s : State D) (t : Turn D) (n : ℕ) → IsKept c s t → IsKept c s (record t { num_towers = n })
  counted-IsKept s t n h = record {
    money_same = h.money_same;
    map_same = h.map_same;
    towers_same = h.towers_same;
    refs_same = h.refs_same;
    owner_same = h.owner_same;
    solvent = h.solvent;
    paid = h.paid;
  }

  other_commands-IsKept :
      (s : State D) (p : PlayerId) (view : PlayerState D) (skip : Bool) (t t' : Turn D)
      → IsKept c s t
      → other_commands c p view skip t ≡ ok t'
      → IsKept c s t'
  unfolding other_commands
  other_commands-IsKept s p view true t t' h e = subst (IsKept c s) (ok-injective e) h
  other_commands-IsKept s p view false t t' h e =
      let counted = record t { num_towers = length (at t.state.tower_managers p).towers } in
      let (u, e₁, k₁) =
        >>=-eq-ok (each_round (length (at t.state.soldiers p)) 0 (soldier_command p view) counted) _
          e in
      build_rows-IsKept s p 0 view.map u t'
        (each_round_inv (IsKept c s) (soldier_command p view) (soldier_command-IsKept s p view) _ 0
          counted u (counted-IsKept s t _ h) e₁)
        k₁

  new_turn-IsKept : (s : State D) → IsValid s.money_manager → IsKept c s (new_turn s)
  new_turn-IsKept s v = record {
    money_same = refl;
    map_same = refl;
    towers_same = λ q. refl;
    refs_same = λ q. refl;
    owner_same = λ q. refl;
    solvent =
        λ q. elim q as (λ r. pos 0 ≤ℤ at (get_money s) r) [ player1 ↦ v.low1 | player2 ↦ v.low2 ];
    paid = λ q. nothing-IsPaid c (at s.tower_managers q) (at (get_money s) q);
  }

  -- From a state with valid balances, whatever the two players write and whether or not either is
  -- skipped, a turn of commands that returns has left the balances, the map, the towers and the
  -- territory of the state as they were, no player's money in
  -- the turn is below zero, and every new request is paid: what a player had is what it has left, with
  -- the cost of a first level for each tower that it asks for and, for each upgrade, the cost of the
  -- level after that of one of its towers with the identifier.
  pub execute_player_commands-IsKept :
      (views : PerPlayer (PlayerState D)) (skips : PerPlayer Bool) (s : State D) (t : Turn D)
      → IsValid s.money_manager
      → execute_player_commands c views skips s ≡ ok t
      → IsKept c s t
  unfolding execute_player_commands
  execute_player_commands-IsKept views skips s t v e =
      let (a, e₁, k₁) =
        >>=-eq-ok (tower_commands c player1 views.first skips.first (new_turn s)) _ e in
      let (b, e₂, k₂) = >>=-eq-ok (tower_commands c player2 views.second skips.second a) _ k₁ in
      let (d, e₃, k₃) = >>=-eq-ok (other_commands c player1 views.first skips.first b) _ k₂ in
      let ha =
        tower_commands-IsKept s player1 views.first skips.first _ a (new_turn-IsKept s v) e₁ in
      let hb = tower_commands-IsKept s player2 views.second skips.second a b ha e₂ in
      let hd = other_commands-IsKept s player1 views.first skips.first b d hb e₃ in
      other_commands-IsKept s player2 views.second skips.second d t hd k₃
