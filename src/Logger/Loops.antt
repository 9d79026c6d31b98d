-- ===== src/Logger/Loops.antt =====
-- The three loops of `LogState` over a player's towers.
use codecharacter_simulator.Prelude.{
  ℕ, zero, suc, ◌<◌, ◌≤◌, ◌≡◌, refl, sym, ap, ap₂, ◌∙◌, subst, List, [], ◌∷◌, ◌++◌, map, length,
  length-append, get_elem?, erase_at, ok, >>=-ok, arith, inl, inr,
}
use mathlib.Core.List.{append_assoc, append-nil}
use codecharacter_simulator.Players.{PlayerId}
use codecharacter_simulator.Physics.Double.{Double}
use codecharacter_simulator.Actor.Tower.{Tower}
use codecharacter_simulator.Logger.Messages.{TowerMessage}
use codecharacter_simulator.Logger.Towers.{
  TowerLogEntry, TowerDiff, entry_of, new_tower, compare_step, compare_towers, remove_towers,
  add_towers, log_tower_changes,
}
use codecharacter_simulator.Logger.Matches.{
  Follows, Stands, elem_after, erase_after, map_push, length_push, same_Stands, dead_Stands, razed,
}

module _ {D : Double} where
  -- The rest of a player's towers at a position.
  tower_at :
      (seen ts : List (Tower D)) (ls : List TowerLogEntry) (d : TowerDiff)
      → Stands seen ls d
      → get_elem? (seen ++ ts) d.tower_ptr ≡ get_elem? ts 0
  tower_at seen ts ls d h = elem_after seen ts d.tower_ptr h.tower_ptr_is

  entry_at :
      (seen : List (Tower D)) (ls : List TowerLogEntry) (d : TowerDiff)
      → Stands seen ls d
      → get_elem? d.log d.log_ptr ≡ get_elem? ls 0
  entry_at seen ls d h =
      ap (λ g. get_elem? g d.log_ptr) h.log_is
      ∙ elem_after (map entry_of seen) ls d.log_ptr h.log_ptr_is

  -- Where the first loop ends.
  abbrev Compared : List (Tower D) → ℕ → TowerDiff → Type 0
  Compared all size d =
      (seen : List (Tower D)) × (ts : List (Tower D)) × (ls : List TowerLogEntry) × (all
        ≡ seen ++ ts)
      × (length ls ≤ size)
      × Stands seen ls d

  compare_towers_lem :
      (p : PlayerId) (fuel : ℕ) (seen ts : List (Tower D)) (ls : List TowerLogEntry) (d : TowerDiff)
      → length ls < fuel
      → Stands seen ls d
      → Follows ls ts
      → (d' : TowerDiff) × (compare_towers fuel p (seen ++ ts) d ≡ ok d')
        × Compared (seen ++ ts) (length ls) d'
  unfolding compare_towers
  compare_towers_lem p zero seen ts ls d enough h f =
      let c : ⊥ = omega (arith, enough) in elim c [ ]
  compare_towers_lem p (suc fuel) seen ts [] d enough h f =
      (d, rw (compare_towers, entry_at seen [] d h) refl, (seen, ts, [], refl, omega arith, h))
  compare_towers_lem p (suc fuel) seen [] (l ∷ ls) d enough h f = (
    d,
    rw (compare_towers, entry_at seen (l ∷ ls) d h, tower_at seen [] (l ∷ ls) d h) refl,
    (seen, [], l ∷ ls, refl, omega arith, h),
  )
  compare_towers_lem p (suc fuel) seen (t ∷ ts) (l ∷ ls) d enough h (inl (e, f)) =
      let all : (seen ++ (t ∷ [])) ++ ts ≡ seen ++ (t ∷ ts) = append_assoc seen (t ∷ []) ts in
      let (d', run, (seen', ts', ls', split, size, stands)) =
        compare_towers_lem p fuel (seen ++ (t ∷ [])) ts ls (compare_step p l t d)
          (omega (arith, enough)) (same_Stands p seen l ls t d h e) f in
      (
        d',
        rw (compare_towers, entry_at seen (l ∷ ls) d h, tower_at seen (t ∷ ts) (l ∷ ls) d h)
            (subst (λ x. compare_towers fuel p x (compare_step p l t d) ≡ ok d') all run),
        (seen', ts', ls', sym all ∙ split, omega (arith, size), stands),
      )
  compare_towers_lem p (suc fuel) seen (t ∷ ts) (l ∷ ls) d enough h (inr (e, k, f)) =
      let (d', run, (seen', ts', ls', split, size, stands)) =
        compare_towers_lem p fuel seen (t ∷ ts) ls (compare_step p l t d) (omega (arith, enough))
          (dead_Stands p seen l ls t d h e k) f in
      (
        d',
        rw (compare_towers, entry_at seen (l ∷ ls) d h, tower_at seen (t ∷ ts) (l ∷ ls) d h) run,
        (seen', ts', ls', split, omega (arith, size), stands),
      )

  razed-Stands :
      (seen : List (Tower D)) (l : TowerLogEntry) (ls : List TowerLogEntry) (d : TowerDiff)
      → Stands seen (l ∷ ls) d
      → Stands seen ls (razed l d)
  razed-Stands seen l ls d h = record {
    log_is =
        ap₂ (λ g i. erase_at g i) h.log_is h.log_ptr_is
        ∙ erase_after (map entry_of seen) ls l _ refl;
    log_ptr_is = h.log_ptr_is;
    tower_ptr_is = h.tower_ptr_is;
  }

  remove_towers_lem :
      (fuel : ℕ) (seen : List (Tower D)) (ls : List TowerLogEntry) (d : TowerDiff)
      → length ls < fuel
      → Stands seen ls d
      → (d' : TowerDiff) × (remove_towers fuel d ≡ ok d') × Stands seen [] d'
  unfolding remove_towers
  remove_towers_lem zero seen ls d enough h = let c : ⊥ = omega (arith, enough) in elim c [ ]
  remove_towers_lem (suc fuel) seen [] d enough h =
      (d, rw (remove_towers, entry_at seen [] d h) refl, h)
  remove_towers_lem (suc fuel) seen (l ∷ ls) d enough h =
      let (d', run, stands) =
        remove_towers_lem fuel seen ls (razed l d) (omega (arith, enough))
          (razed-Stands seen l ls d h) in
      (d', rw (remove_towers, entry_at seen (l ∷ ls) d h) run, stands)

  abbrev added : Tower D → TowerDiff → TowerDiff
  added t d = record d {
    log = d.log ++ (entry_of t ∷ []);
    tower_ptr = suc d.tower_ptr;
    messages = d.messages ++ (new_tower t ∷ []);
  }

  -- The third loop does not look at `log_ptr`.
  add_towers_lem :
      (fuel : ℕ) (seen ts : List (Tower D)) (d : TowerDiff)
      → length ts < fuel
      → d.log ≡ map entry_of seen
      → d.tower_ptr ≡ length seen
      → (d' : TowerDiff) × (add_towers fuel (seen ++ ts) d ≡ ok d')
        × (d'.log ≡ map entry_of (seen ++ ts))
  unfolding add_towers
  add_towers_lem zero seen ts d enough log ptr = let c : ⊥ = omega (arith, enough) in elim c [ ]
  add_towers_lem (suc fuel) seen [] d enough log ptr = (
    d,
    rw (add_towers, elem_after seen [] d.tower_ptr ptr) refl,
    log ∙ ap (map entry_of) (sym (append-nil seen)),
  )
  add_towers_lem (suc fuel) seen (t ∷ ts) d enough log ptr =
      let all : (seen ++ (t ∷ [])) ++ ts ≡ seen ++ (t ∷ ts) = append_assoc seen (t ∷ []) ts in
      let (d', run, done) =
        add_towers_lem fuel (seen ++ (t ∷ [])) ts (added t d) (omega (arith, enough))
          (ap (λ g. g ++ (entry_of t ∷ [])) log ∙ sym (map_push seen t))
          (ap suc ptr ∙ sym (length_push seen t)) in
      (
        d',
        rw (add_towers, elem_after seen (t ∷ ts) d.tower_ptr ptr)
            (subst (λ x. add_towers fuel x (added t d) ≡ ok d') all run),
        done ∙ ap (map entry_of) all,
      )

  -- When the towers follow the log, the loops that log a player's towers end with the fuel they are
  -- given, and leave in the tower log exactly the player's towers, in their order, each with its
  -- identifier, its hit points and its level.
  pub log_tower_changes_lem :
      (p : PlayerId) (log : List TowerLogEntry) (ts : List (Tower D)) (messages : List TowerMessage)
      → Follows log ts
      → (d : TowerDiff) × (log_tower_changes p log ts messages ≡ ok d) × (d.log ≡ map entry_of ts)
  unfolding log_tower_changes
  log_tower_changes_lem p log ts messages f =
      let start : TowerDiff = record {
        log = log;
        log_ptr = 0;
        tower_ptr = 0;
        messages = messages;
      } in
      let (a, run_a, (seen, rest, ls, split, size, stands)) =
        compare_towers_lem p (suc (length log)) [] ts log start (omega arith)
          (record { log_is = refl; log_ptr_is = refl; tower_ptr_is = refl }) f in
      let (b, run_b, stands_b) =
        remove_towers_lem (suc (length log)) seen ls a (omega (arith, size)) stands in
      let (d, run_d, done) =
        add_towers_lem (suc (length ts)) seen rest b
          (omega (arith, ap length split, length-append seen rest))
          (stands_b.log_is ∙ append-nil (map entry_of seen)) stands_b.tower_ptr_is in
      (
        d,
        >>=-ok (compare_towers (suc (length log)) p ts start) _ a run_a (
            >>=-ok (remove_towers (suc (length log)) a) _ b run_b
              (subst (λ x. add_towers (suc (length ts)) x b ≡ ok d) (sym split) run_d)),
        done ∙ ap (map entry_of) (sym split),
      )
