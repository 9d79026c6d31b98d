-- ===== src/Logger/Matches.antt =====
-- After `LogState` the tower log stands for the towers of the state.
use codecharacter_simulator.Prelude.{
  ℕ, suc, ◌≡◌, refl, sym, ap, ap₂, ◌∙◌, subst, Bool, true, false, not, ◌||◌, List, [], ◌∷◌, ◌++◌,
  map, ℤ, pos, eqb_ℤ, ltb_ℤ, length, length-append, get_elem?, set, erase_at, if◌then◌else◌, if_yes,
  if_no, arith, inl, inr, ◌⊎◌, Bool-cases, eq_of_parts,
}
use codecharacter_simulator.Players.{PlayerId}
use codecharacter_simulator.Physics.Double.{Double}
use codecharacter_simulator.Actor.Tower.{Tower}
use codecharacter_simulator.Logger.Towers.{
  TowerLogEntry, TowerDiff, dead_tower, changed_tower, entry_of, compare_step,
}

module _ {ℓ} {A : Type ℓ} where
  pub elem_after :
      (xs ys : List A) (k : ℕ) → k ≡ length xs → get_elem? (xs ++ ys) k ≡ get_elem? ys 0
  elem_after [] ys k e = ap (get_elem? ys) e
  elem_after (x ∷ xs) ys k e = ap (get_elem? (x ∷ xs ++ ys)) e ∙ elem_after xs ys (length xs) refl

  set_after :
      (xs ys : List A) (y z : A) (k : ℕ) → k ≡ length xs → set (xs ++ (y ∷ ys)) k z ≡ xs ++ (z ∷ ys)
  set_after [] ys y z k e = ap (λ i. set (y ∷ ys) i z) e
  set_after (x ∷ xs) ys y z k e =
      ap (λ i. set (x ∷ xs ++ (y ∷ ys)) i z) e
      ∙ ap (λ w. x ∷ w) (set_after xs ys y z (length xs) refl)

  pub erase_after :
      (xs ys : List A) (y : A) (k : ℕ) → k ≡ length xs → erase_at (xs ++ (y ∷ ys)) k ≡ xs ++ ys
  erase_after [] ys y k e = ap (erase_at (y ∷ ys)) e
  erase_after (x ∷ xs) ys y k e =
      ap (erase_at (x ∷ xs ++ (y ∷ ys))) e ∙ ap (λ w. x ∷ w) (erase_after xs ys y (length xs) refl)

pub length_push {ℓ} : {A : Type ℓ} (xs : List A) (x : A) → length (xs ++ (x ∷ [])) ≡ suc (length xs)
length_push xs x = omega (arith, length-append xs (x ∷ []))

eq_of_eqb : (a b : ℤ) → eqb_ℤ a b ≡ true → a ≡ b
eq_of_eqb a b h = eq_of_parts a b (ground arith)

abbrev entry : ℤ → ℤ → ℤ → TowerLogEntry
entry i h v = record { id = i; hp = h; level = v }

same_fields : (i i' h h' v v' : ℤ) → i ≡ i' → h ≡ h' → v ≡ v' → entry i h v ≡ entry i' h' v'
same_fields i i' h h' v v' a b c = rw (a, b, c) refl

abbrev kept : TowerDiff → TowerDiff
kept d = record d { log_ptr = suc d.log_ptr; tower_ptr = suc d.tower_ptr }

abbrev pub razed : TowerLogEntry → TowerDiff → TowerDiff
razed l d = record d {
  log = erase_at d.log d.log_ptr;
  messages = d.messages ++ (dead_tower l.id ∷ []);
}

module _ {D : Double} where
  -- The towers follow the log: some of the logged ones, in the log's order, and then new ones. A tower
  -- that is missing is seen by the next tower's larger identifier.
  abbrev pub Follows : List TowerLogEntry → List (Tower D) → Type 0
  Follows [] ts = Unit {0}
  Follows (l ∷ ls) [] = Follows ls []
  Follows (l ∷ ls) (t ∷ ts) =
      ((eqb_ℤ l.id t.id ≡ true) × Follows ls ts)
      ⊎ ((eqb_ℤ l.id t.id ≡ false) × (ltb_ℤ l.id t.id ≡ true) × Follows ls (t ∷ ts))

  -- In front of both positions, the log stands for the towers.
  pub record Stands (seen : List (Tower D)) (ls : List TowerLogEntry) (d : TowerDiff) : Type 0 where
    pub log_is : d.log ≡ map entry_of seen ++ ls
    pub log_ptr_is : d.log_ptr ≡ length (map entry_of seen)
    pub tower_ptr_is : d.tower_ptr ≡ length seen

  pub map_push :
      (seen : List (Tower D)) (t : Tower D)
      → map entry_of (seen ++ (t ∷ [])) ≡ map entry_of seen ++ (entry_of t ∷ [])
  map_push [] t = refl
  map_push (x ∷ seen) t = ap (λ w. entry_of x ∷ w) (map_push seen t)

  pushed :
      (seen : List (Tower D)) (t : Tower D) (ls : List TowerLogEntry)
      → map entry_of seen ++ (entry_of t ∷ ls) ≡ map entry_of (seen ++ (t ∷ [])) ++ ls
  pushed [] t ls = refl
  pushed (x ∷ seen) t ls = ap (λ w. entry_of x ∷ w) (pushed seen t ls)

  -- The positions after a tower that is in both lists.
  ptrs :
      (seen : List (Tower D)) (ls : List TowerLogEntry) (t : Tower D) (d : TowerDiff)
      → Stands seen ls d
      → (suc d.log_ptr ≡ length (map entry_of (seen ++ (t ∷ []))))
        × (suc d.tower_ptr ≡ length (seen ++ (t ∷ [])))
  ptrs seen ls t d h = (
    ap suc h.log_ptr_is
        ∙ sym (length_push (map entry_of seen) (entry_of t))
        ∙ ap length (sym (map_push seen t)),
    ap suc h.tower_ptr_is ∙ sym (length_push seen t),
  )

  -- What a round makes of the log and the positions.
  abbrev changed : PlayerId → TowerLogEntry → Tower D → TowerDiff → TowerDiff
  changed p l t d = record {
    log = set d.log d.log_ptr (record l { hp = t.hp; level = pos t.tower_level });
    log_ptr = suc d.log_ptr;
    tower_ptr = suc d.tower_ptr;
    messages = d.messages ++ (changed_tower p t ∷ []);
  }

  abbrev differs : TowerLogEntry → Tower D → Bool
  differs l t = not (eqb_ℤ l.hp t.hp) || not (eqb_ℤ l.level (pos t.tower_level))

  step_same :
      (p : PlayerId) (l : TowerLogEntry) (t : Tower D) (d : TowerDiff)
      → eqb_ℤ l.id t.id ≡ true
      → compare_step p l t d ≡ (if differs l t then changed p l t d else kept d)
  unfolding compare_step
  step_same p l t d e = rw e refl

  step_dead :
      (p : PlayerId) (l : TowerLogEntry) (t : Tower D) (d : TowerDiff)
      → eqb_ℤ l.id t.id ≡ false
      → ltb_ℤ l.id t.id ≡ true
      → compare_step p l t d ≡ razed l d
  unfolding compare_step
  step_dead p l t d e k = rw (e, k) refl

  pub same_Stands :
      (p : PlayerId) (seen : List (Tower D)) (l : TowerLogEntry) (ls : List TowerLogEntry)
      (t : Tower D) (d : TowerDiff)
      → Stands seen (l ∷ ls) d
      → eqb_ℤ l.id t.id ≡ true
      → Stands (seen ++ (t ∷ [])) ls (compare_step p l t d)
  same_Stands p seen l ls t d h e =
      elim (Bool-cases (not (eqb_ℤ l.hp t.hp) || not (eqb_ℤ l.level (pos t.tower_level)))) [
        | inl k ↦
            subst (Stands (seen ++ (t ∷ [])) ls)
              (sym (step_same p l t d e ∙ if_yes _ (changed p l t d) (kept d) k))
              (record {
                log_is =
                    ap₂ (λ g i. set g i (record l { hp = t.hp; level = pos t.tower_level }))
                      h.log_is h.log_ptr_is
                    ∙ set_after (map entry_of seen) ls l _ _ refl
                    ∙ ap
                        (λ z.
                          map entry_of seen
                          ++ ((record { id = z; hp = t.hp; level = pos t.tower_level }) ∷ ls))
                        same_id
                    ∙ pushed seen t ls;
                log_ptr_is = (ptrs seen (l ∷ ls) t d h).0;
                tower_ptr_is = (ptrs seen (l ∷ ls) t d h).1;
              })
        | inr k ↦
            subst (Stands (seen ++ (t ∷ [])) ls)
              (sym (step_same p l t d e ∙ if_no _ (changed p l t d) (kept d) k))
              (record {
                log_is =
                    h.log_is
                    ∙ ap (λ z. map entry_of seen ++ (z ∷ ls)) (same_entry k)
                    ∙ pushed seen t ls;
                log_ptr_is = (ptrs seen (l ∷ ls) t d h).0;
                tower_ptr_is = (ptrs seen (l ∷ ls) t d h).1;
              })
      ]
    where
      same_id : l.id ≡ t.id
      same_id = eq_of_eqb l.id t.id e

      same_entry :
          (not (eqb_ℤ l.hp t.hp) || not (eqb_ℤ l.level (pos t.tower_level))) ≡ false
          → l ≡ entry_of t
      same_entry k =
          same_fields l.id t.id l.hp t.hp l.level (pos t.tower_level) same_id
            (eq_of_eqb l.hp t.hp (ground arith))
            (eq_of_eqb l.level (pos t.tower_level) (ground arith))

  -- A tower that is missing.
  pub dead_Stands :
      (p : PlayerId) (seen : List (Tower D)) (l : TowerLogEntry) (ls : List TowerLogEntry)
      (t : Tower D) (d : TowerDiff)
      → Stands seen (l ∷ ls) d
      → eqb_ℤ l.id t.id ≡ false
      → ltb_ℤ l.id t.id ≡ true
      → Stands seen ls (compare_step p l t d)
  dead_Stands p seen l ls t d h e k = subst (Stands seen ls) (sym (step_dead p l t d e k)) (record {
    log_is =
        ap₂ (λ g i. erase_at g i) h.log_is h.log_ptr_is
        ∙ erase_after (map entry_of seen) ls l _ refl;
    log_ptr_is = h.log_ptr_is;
    tower_ptr_is = h.tower_ptr_is;
  })
