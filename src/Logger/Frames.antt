-- ===== src/Logger/Frames.antt =====
-- `LogState` as a whole.
use codecharacter_simulator.Prelude.{
  ◌≡◌, refl, sym, ap, ◌∙◌, subst, ◌==◌, List, [], map, ok, logic_error, >>=-eq-ok, ok-injective,
  inl, inr, ◌⊎◌, branch, if◌then◌else◌, or_err, get_elem?, arith,
}
use codecharacter_simulator.Players.{PlayerId, player1, player2, at}
use codecharacter_simulator.Physics.Double.{Double}
use codecharacter_simulator.Actor.Tower.{Tower}
use codecharacter_simulator.Towers.Defs.{TowerRules}
use codecharacter_simulator.Game.Defs.{State}
use codecharacter_simulator.Logger.Messages.{TowerMessage}
use codecharacter_simulator.Logger.Towers.{TowerLogEntry, TowerDiff, entry_of, log_tower_changes}
use codecharacter_simulator.Logger.Matches.{Follows}
use codecharacter_simulator.Logger.Loops.{log_tower_changes_lem}
use codecharacter_simulator.Logger.Defs.{
  Logger, TowerPart, first_turn, later_turn, soldier_messages, log_state,
}

module _ {D : Double} where
  -- The tower logs stand for the towers of the state.
  abbrev pub Tracks : State D → (PlayerId → List TowerLogEntry) → Type 0
  Tracks s logs = (p : PlayerId) → logs p ≡ map entry_of (at s.tower_managers p).towers

  first_turn-Tracks :
      (r : TowerRules) (s : State D) (l : Logger) (part : TowerPart)
      → first_turn r s l ≡ ok part
      → Tracks s (at part.tower_logs)
  unfolding first_turn
  first_turn-Tracks r s l part e p =
      let (x, e₁, k₁) = >>=-eq-ok (or_err (get_elem? s.soldiers.first 0) logic_error) _ e in
      ap (λ (y : TowerPart). at y.tower_logs p) (sym (ok-injective k₁))
      ∙ elim p
          as (λ q.
            at
              (record {
                first = map entry_of s.tower_managers.first.towers;
                second = map entry_of s.tower_managers.second.towers;
              })
              q
            ≡ map entry_of (at s.tower_managers q).towers) [ player1 ↦ refl | player2 ↦ refl ]

  changed :
      (p : PlayerId) (log : List TowerLogEntry) (ts : List (Tower D)) (messages : List TowerMessage)
      (d : TowerDiff)
      → Follows log ts
      → log_tower_changes p log ts messages ≡ ok d
      → d.log ≡ map entry_of ts
  changed p log ts messages d f e =
      let (d', run, done) = log_tower_changes_lem p log ts messages f in
      ap (λ (x : TowerDiff). x.log) (ok-injective (sym e ∙ run)) ∙ done

  later_turn-Tracks :
      (s : State D) (l : Logger) (part : TowerPart)
      → ((p : PlayerId) → Follows (at l.tower_logs p) (at s.tower_managers p).towers)
      → later_turn s l ≡ ok part
      → Tracks s (at part.tower_logs)
  unfolding later_turn
  later_turn-Tracks s l part f e p =
      let (a, e₁, k₁) =
        >>=-eq-ok (log_tower_changes player1 l.tower_logs.first s.tower_managers.first.towers []) _
          e in
      let (b, e₂, k₂) =
        >>=-eq-ok
          (log_tower_changes player2 l.tower_logs.second s.tower_managers.second.towers a.messages)
          _ k₁ in
      ap (λ (x : TowerPart). at x.tower_logs p) (sym (ok-injective k₂))
      ∙ elim p
          as (λ q.
            at (record { first = a.log; second = b.log }) q
            ≡ map entry_of (at s.tower_managers q).towers) [
              | player1 ↦ changed player1 _ _ _ a (f player1) e₁
              | player2 ↦ changed player2 _ _ _ b (f player2) e₂
            ]

  -- When `LogState` returns, on the first turn or with towers that follow the tower logs, the tower log
  -- of each player stands for exactly the player's towers in the state, in their order, each with its
  -- identifier, its hit points and its level: the next turn's comparison starts from what was logged.
  pub log_state-Tracks :
      (r : TowerRules) (s : State D) (l l' : Logger)
      → (l.turn_count ≡ 0)
        ⊎ ((p : PlayerId) → Follows (at l.tower_logs p) (at s.tower_managers p).towers)
      → log_state r s l ≡ ok l'
      → Tracks s (at l'.tower_logs)
  unfolding log_state
  log_state-Tracks r s l l' f e =
      let (part, e₁, k₁) =
        >>=-eq-ok (if l.turn_count == 0 then first_turn r s l else later_turn s l) _ e in
      let (xs, e₂, k₂) = >>=-eq-ok (soldier_messages s s.soldiers.first) _ k₁ in
      let (ys, e₃, k₃) = >>=-eq-ok (soldier_messages s s.soldiers.second) _ k₂ in
      subst (λ (x : Logger). Tracks s (at x.tower_logs)) (ok-injective k₃)
        (elim (branch (l.turn_count == 0) (first_turn r s l) (later_turn s l) e₁) [
          | inl (_, k) ↦ first_turn-Tracks r s l part k
          | inr (later, k) ↦
              later_turn-Tracks s l part
                (elim f [
                  | inl first ↦ (let c : ⊥ = ground arith in elim c [ ])
                  | inr follows ↦ follows
                ])
                k
        ])
