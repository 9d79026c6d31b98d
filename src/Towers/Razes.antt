-- ===== src/Towers/Razes.antt =====
-- The suicide of a tower: `HandleTowerSuicideUpdates` of state/tower_manager/tower_manager.cpp.
use codecharacter_simulator.Prelude.{
  ℕ, zero, suc, true, int_laws, subst, ◌>>◌, Option-cases, ◌≡◌, refl, sym, ap, ◌∙◌, ℤ, pos, List,
  [], ◌∷◌, Option, none, some, get_elem?, set, eqb_ℤ, ltb_ℤ, ok, or_err, throw_if, out_of_range,
  undefined, >>=-eq-ok, ok-injective, or_err-eq-ok, branch, inl, inr, if◌then◌else◌,
}
use mathlib.Core.Option.{some-injective}
use codecharacter_simulator.Physics.Double.{Double}
use codecharacter_simulator.Actor.Base.{Actor, ActorId, set_hp}
use codecharacter_simulator.Actor.Tower.{Tower, set_tower_hp}
use codecharacter_simulator.Money.{MoneyManager, reward_suicide}
use codecharacter_simulator.Towers.Defs.{TowerRules, TowerScene}
use codecharacter_simulator.Towers.Handlers.{suicide_one, last_index}
use codecharacter_simulator.Towers.Invariant.{IsTerritory}
use codecharacter_simulator.Towers.Keeps.{suicide_one-IsTerritory}

eq_of_eqb : (a b : ℤ) → eqb_ℤ a b ≡ true → a ≡ b
eq_of_eqb a b h = grind int_laws

module _ {D : Double} where
  abbrev pub without_hp : Tower D → Tower D
  without_hp t = record t { actor = record (t.actor) { hp = pos 0 } }

  -- A tower with the identifier is left in its place without hit points, its owner has been paid, and
  -- nothing else has changed: the tower is still there, with its cells.
  pub record IsRazed (id : ActorId) (s s' : TowerScene D) : Type 0 where
    pub index : ℕ
    pub target : Tower D
    pub at_index : get_elem? s.manager.towers index ≡ some target
    pub same_id : target.id ≡ id
    pub money : MoneyManager
    pub paid : reward_suicide s.money target ≡ ok money
    pub done : s' ≡ record s {
      manager = record (s.manager) { towers = set s.manager.towers index (without_hp target) };
      money = money;
    }

  abbrev index_from : Tower D → ActorId → Option ℕ → Option ℕ
  index_from x id o = elim o [
    | some i ↦ some (suc i)
    | none ↦ if eqb_ℤ x.id id then some zero else none
  ]

  first_id : (x t : Tower D) (id : ActorId) → eqb_ℤ x.id id ≡ true → x ≡ t → t.id ≡ id
  first_id x t id same e = ap (λ (y : Tower D). y.id) (sym e) ∙ eq_of_eqb x.id id same

  last_index_lem :
      (ts : List (Tower D)) (id : ActorId) (k : ℕ) (t : Tower D)
      → last_index ts id ≡ some k
      → get_elem? ts k ≡ some t
      → t.id ≡ id
  unfolding last_index
  last_index_lem [] id k t e there = cc
  last_index_lem (x ∷ ts) id k t e there = elim (Option-cases (last_index ts id)) [
    | inr (i, found) ↦
        let later = some-injective _ _ (sym (ap (index_from x id) found) ∙ e) in
        last_index_lem ts id i t found
          (subst (λ n. get_elem? (x ∷ ts) n ≡ some t) (sym later) there)
    | inl missing ↦
        elim (branch (eqb_ℤ x.id id) (some zero) none (sym (ap (index_from x id) missing) ∙ e)) [
          | inl (same, here) ↦ first_id x t id same (
              some-injective _ _
                (subst (λ n. get_elem? (x ∷ ts) n ≡ some t) (sym (some-injective _ _ here)) there))
          | inr (_, f) ↦ cc
        ]
  ]

  set_tower_hp_lem : (t t' : Tower D) → set_tower_hp t (pos 0) ≡ ok t' → t' ≡ without_hp t
  unfolding set_tower_hp set_hp
  set_tower_hp_lem t t' e =
      let (a, e₁, k₁) = >>=-eq-ok (set_hp t.actor (pos 0)) _ e in
      let (_, e₂, k₂) =
        >>=-eq-ok (throw_if (ltb_ℤ (pos 0) (pos 0)) out_of_range)
          (λ _. throw_if (ltb_ℤ t.max_hp (pos 0)) out_of_range >> ok (without_hp t).actor) e₁ in
      let (_, e₃, k₃) =
        >>=-eq-ok (throw_if (ltb_ℤ t.max_hp (pos 0)) out_of_range) (λ _. ok (without_hp t).actor)
          k₂ in
      sym (ok-injective k₁) ∙ ap (λ (x : Actor D). record t { actor = x }) (sym (ok-injective k₃))

  same_reward :
      (m : MoneyManager) (t : Tower D) → reward_suicide m t ≡ reward_suicide m (without_hp t)
  unfolding reward_suicide
  same_reward m t = refl

  -- Where the territory is right, the suicide of one tower, if the round returns, has taken the hit
  -- points of a tower with the identifier and paid its owner, and has changed nothing else: the tower
  -- keeps its place and its cells, and the territory is right as before.
  pub suicide_one_lem :
      (r : TowerRules) (id : ActorId) (s s' : TowerScene D)
      → IsTerritory r s
      → suicide_one r id s ≡ ok s'
      → IsRazed id s s' × IsTerritory r s'
  unfolding suicide_one
  suicide_one_lem r id s s' h e =
      let (k, e₁, k₁) = >>=-eq-ok (or_err (last_index s.manager.towers id) out_of_range) _ e in
      let (t, e₂, k₂) = >>=-eq-ok (or_err (get_elem? s.manager.towers k) undefined) _ k₁ in
      let (t', e₃, k₃) = >>=-eq-ok (set_tower_hp t (pos 0)) _ k₂ in
      let (money, e₄, k₄) = >>=-eq-ok (reward_suicide s.money t') _ k₃ in
      let left = set_tower_hp_lem t t' e₃ in
      (
        record {
          index = k;
          target = t;
          at_index = or_err-eq-ok _ _ e₂;
          same_id =
              last_index_lem s.manager.towers id k t (or_err-eq-ok _ _ e₁) (or_err-eq-ok _ _ e₂);
          money = money;
          paid = same_reward s.money t ∙ ap (reward_suicide s.money) (sym left) ∙ e₄;
          done =
              sym (ok-injective k₄)
              ∙ ap
                  (λ x. record s {
                    manager = record (s.manager) { towers = set s.manager.towers k x };
                    money = money;
                  })
                  left;
        },
        suicide_one-IsTerritory r id s s' h e,
      )
