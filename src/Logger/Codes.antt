-- ===== src/Logger/Codes.antt =====
-- The codes of the errors, and the map at the end of the log that explains them.
use codecharacter_simulator.Prelude.{
  ℕ, zero, suc, ◌+◌, ◌<◌, ◌==◌, ◌≡◌, refl, sym, ap, ap₂, ◌∙◌, subst, true, false, List, [], ◌∷◌,
  ◌++◌, Option, none, some, length, length-append, get_elem?, if◌then◌else◌, if_yes, if_no, arith,
  branch, inl, inr, Option-cases, ◌⊎◌,
}
use mathlib.Core.Option.{some-injective}
use codecharacter_simulator.Players.{PlayerId, player1, player2, at, put}
use codecharacter_simulator.Syncer.Commands.{ErrorType}
use codecharacter_simulator.Logger.Messages.{Text}
use codecharacter_simulator.Logger.Errors
use codecharacter_simulator.Logger.Errors.{
  ErrorLog, text_eqb, find_text, full_message, log_error, assign, find_code, log_final_game_params,
}

-- The entries have the codes from `k` on, in the order in which they were made.
abbrev AreNumbered : ℕ → List (Text × ℕ) → Type 0
AreNumbered k [] = Unit {0}
AreNumbered k (e ∷ es) = (e.1 ≡ k) × AreNumbered (suc k) es

-- The counter is the number of texts that have a code.
pub record IsCoded (l : ErrorLog) : Type 0 where
  pub numbered : AreNumbered 0 l.error_map
  pub counter : l.current_error_code ≡ length l.error_map

-- What the error map of the finished log says of a code.
abbrev pub decoded : ErrorLog → ℕ → Option Text
decoded l c = find_code (log_final_game_params l.error_map []) c

eq_of_text_eqb : (s t : Text) → text_eqb s t ≡ true → s ≡ t
eq_of_text_eqb [] [] h = refl
eq_of_text_eqb [] (y ∷ t) h = cc
eq_of_text_eqb (x ∷ s) [] h = cc
eq_of_text_eqb (x ∷ s) (y ∷ t) h =
    let tails : text_eqb s t ≡ true = ground arith in
    let heads : x ≡ y = ground arith in ap₂ (λ a b. a ∷ b) heads (eq_of_text_eqb s t tails)

find_code-assign :
    (m : List (ℕ × Text)) (c c' : ℕ) (t : Text)
    → find_code (assign c t m) c' ≡ (if c == c' then some t else find_code m c')
unfolding find_code assign
find_code-assign [] c c' t = refl
find_code-assign (e ∷ m) c c' t = ground (arith, find_code-assign m c c' t)

final_below :
    (es : List (Text × ℕ)) (k c : ℕ) (m : List (ℕ × Text))
    → AreNumbered k es
    → c < k
    → find_code (log_final_game_params es m) c ≡ find_code m c
unfolding log_final_game_params
final_below [] k c m h lt = refl
final_below (e ∷ es) k c m h lt =
    final_below es (suc k) c (assign e.1 e.0 m) h.1 (omega arith)
    ∙ find_code-assign m e.1 c e.0
    ∙ if_no (e.1 == c) _ _ (subst (λ i. (i == c) ≡ false) (sym h.0) (ground arith))

final_at :
    (es : List (Text × ℕ)) (k i : ℕ) (e : Text × ℕ) (m : List (ℕ × Text))
    → AreNumbered k es
    → get_elem? es i ≡ some e
    → find_code (log_final_game_params es m) (k + i) ≡ some e.0
unfolding log_final_game_params
final_at [] k i e m h there = cc
final_at (x ∷ es) k zero e m h there =
    ap (find_code (log_final_game_params es (assign x.1 x.0 m))) (omega arith)
    ∙ final_below es (suc k) k (assign x.1 x.0 m) h.1 (omega arith)
    ∙ find_code-assign m x.1 k x.0
    ∙ if_yes (x.1 == k) _ _ (subst (λ i. (i == k) ≡ true) (sym h.0) (ground arith))
    ∙ ap (λ (y : Text × ℕ). some y.0) (some-injective _ _ there)
final_at (x ∷ es) k (suc i) e m h there =
    ap (find_code (log_final_game_params es (assign x.1 x.0 m))) (omega arith)
    ∙ final_at es (suc k) i e (assign x.1 x.0 m) h.1 there

find_text_lem :
    (es : List (Text × ℕ)) (k c : ℕ) (t : Text)
    → AreNumbered k es
    → find_text es t ≡ some c
    → (i : ℕ) × (e : Text × ℕ) × (get_elem? es i ≡ some e) × (e.0 ≡ t) × (k + i ≡ c) × (e.1 ≡ c)
unfolding find_text
find_text_lem [] k c t h f = cc
find_text_lem (x ∷ es) k c t h f = elim (branch (text_eqb x.0 t) (some x.1) (find_text es t) f) [
  | inl (same, found) ↦ (
    0,
    x,
    refl,
    eq_of_text_eqb x.0 t same,
    omega arith ∙ sym h.0 ∙ some-injective _ _ found,
    some-injective _ _ found,
  )
  | inr (other, later) ↦
      let (i, e, there, text, code, given) = find_text_lem es (suc k) c t h.1 later in
      (suc i, e, there, text, omega (arith, code), given)
]

numbered_push :
    (es : List (Text × ℕ)) (k c : ℕ) (t : Text)
    → AreNumbered k es
    → c ≡ k + length es
    → AreNumbered k (es ++ ((t, c) ∷ []))
numbered_push [] k c t h e = (omega (arith, e), tt)
numbered_push (x ∷ es) k c t h e = (h.0, numbered_push es (suc k) c t h.1 (omega (arith, e)))

push_before {ℓ} :
    {A : Type ℓ} (xs : List A) (y : A) (i : ℕ)
    → i < length xs
    → (x : A) × (get_elem? xs i ≡ some x) × (get_elem? (xs ++ (y ∷ [])) i ≡ some x)
push_before [] y i h = let c : ⊥ = omega arith in elim c [ ]
push_before (x ∷ xs) y zero h = (x, refl, refl)
push_before (x ∷ xs) y (suc i) h = push_before xs y i (omega arith)

push_at {ℓ} : {A : Type ℓ} (xs : List A) (y : A) → get_elem? (xs ++ (y ∷ [])) (length xs) ≡ some y
push_at [] y = refl
push_at (x ∷ xs) y = push_at xs y

-- An entry gives the text the code.
abbrev pub HasText : List (Text × ℕ) → Text → ℕ → Type 0
HasText es t c = (i : ℕ) × (get_elem? es i ≡ some (t, c))

-- No entry has the text.
abbrev pub LacksText : List (Text × ℕ) → Text → Type 0
LacksText es t = (i : ℕ) (e : Text × ℕ) → get_elem? es i ≡ some e → e.0 ≡ t → ⊥

not_none : {c : ℕ} → some c ≡ none → ⊥
not_none h = cc

text_eqb_refl : (t : Text) → text_eqb t t ≡ true
text_eqb_refl [] = refl
text_eqb_refl (x ∷ t) = ground (arith, text_eqb_refl t)

find_text-none : (es : List (Text × ℕ)) (t : Text) → find_text es t ≡ none → LacksText es t
unfolding find_text
find_text-none [] t h i e there same = cc
find_text-none (x ∷ es) t h zero e there same =
    let first : x.0 ≡ t = ap (λ (y : Text × ℕ). y.0) (some-injective _ _ there) ∙ same in
    let equal : text_eqb x.0 t ≡ true = ap (λ y. text_eqb y t) first ∙ text_eqb_refl t in
    not_none (sym (if_yes _ (some x.1) (find_text es t) equal) ∙ h)
find_text-none (x ∷ es) t h (suc k) e there same =
    elim (branch (text_eqb x.0 t) (some x.1) (find_text es t) h) [
      | inl (_, f) ↦ absurd (not_none f)
      | inr (_, later) ↦ find_text-none es t later k e there same
    ]

-- What `LogError` has done: a code is pushed onto the player's errors, which the finished log explains
-- by the message, and every earlier code still has its meaning.
pub record IsLogged (l l' : ErrorLog) (p : PlayerId) (t : Text) : Type 0 where
  pub coded : IsCoded l'
  pub code : ℕ
  pub pushed : at l'.errors p ≡ at l.errors p ++ (code ∷ [])
  pub explained : decoded l' code ≡ some t
  pub meanings : (c : ℕ) → c < l.current_error_code → decoded l' c ≡ decoded l c
  pub reused_or_new :
      (HasText l.error_map t code × (l'.error_map ≡ l.error_map))
      ⊎ (LacksText l.error_map t × (code ≡ l.current_error_code))

put_pushed :
    (l : ErrorLog) (p : PlayerId) (c : ℕ)
    → at (put l.errors p (at l.errors p ++ (c ∷ []))) p ≡ at l.errors p ++ (c ∷ [])
put_pushed l player1 c = refl
put_pushed l player2 c = refl

-- From a log whose codes are numbered in order, `LogError` pushes onto the player's errors a code that
-- the error map of the finished log explains by the full message: the code that an entry
-- of the map has given to an equal message before, and then the map stays as it was, or else, when no
-- entry has the message, the next new code. The codes given out before keep their meaning, and the codes stay numbered.
pub log_error-IsLogged :
    (l : ErrorLog) (p : PlayerId) (kind : ErrorType) (message : Text)
    → IsCoded l
    → IsLogged l (log_error l p kind message) p (full_message kind message)
unfolding log_error
log_error-IsLogged l p kind message h = elim (Option-cases (find_text l.error_map t)) [
  | inr (c, found) ↦
      let (i, e, there, text, code, given) = find_text_lem l.error_map 0 c t h.numbered found in
      subst (λ l'. IsLogged l l' p t)
        (sym (ap (λ o. Errors.push_error p (Errors.encode l t o)) found))
        (record {
          coded = record { numbered = h.numbered; counter = h.counter };
          code = c;
          pushed = put_pushed l p c;
          explained =
              ap (find_code (log_final_game_params l.error_map [])) (sym code)
              ∙ final_at l.error_map 0 i e [] h.numbered there
              ∙ ap some text;
          meanings = λ d lt. refl;
          reused_or_new = inl ((i, there ∙ ap some (ap₂ (λ x y. (x, y)) text given)), refl);
        })
  | inl missing ↦
      let numbered =
        numbered_push l.error_map 0 l.current_error_code t h.numbered (h.counter ∙ omega arith) in
      subst (λ l'. IsLogged l l' p t)
        (sym (ap (λ o. Errors.push_error p (Errors.encode l t o)) missing))
        (record {
          coded = record {
            numbered = numbered;
            counter =
                ap suc h.counter
                ∙ omega (arith, length-append l.error_map ((t, l.current_error_code) ∷ []));
          };
          code = l.current_error_code;
          pushed = put_pushed l p l.current_error_code;
          explained =
              ap
                (find_code
                  (log_final_game_params (l.error_map ++ ((t, l.current_error_code) ∷ [])) []))
                (h.counter ∙ omega arith)
              ∙ final_at _ 0 (length l.error_map) _ [] numbered
                  (push_at l.error_map (t, l.current_error_code));
          meanings = λ d lt.
              let (e, before, after) =
                push_before l.error_map (t, l.current_error_code) d
                  (subst (λ n. d < n) h.counter lt) in
              ap
                (find_code
                  (log_final_game_params (l.error_map ++ ((t, l.current_error_code) ∷ [])) []))
                (omega arith)
              ∙ final_at _ 0 d e [] numbered after
              ∙ sym (final_at l.error_map 0 d e [] h.numbered before)
              ∙ ap (find_code (log_final_game_params l.error_map [])) (omega arith);
          reused_or_new = inr (find_text-none l.error_map t missing, refl);
        })
]
  where
    t : Text
    t = full_message kind message
