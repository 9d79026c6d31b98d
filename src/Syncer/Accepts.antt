-- ===== src/Syncer/Accepts.antt =====
-- What it takes for a command of state/state_syncer/state_syncer.cpp to be carried out.
use codecharacter_simulator.Prelude.{
  ℕ, suc, ◌≡◌, refl, sym, Bool, true, false, not, ◌||◌, [], ◌∷◌, ◌++◌, ℤ, pos, ◌-ℤ◌, ◌≤ℤ◌, ltb_ℤ,
  eqb_ℤ, length, get_elem?, some, Result, ok, undefined, or_err, if◌then◌else◌, >>=-eq-ok,
  ok-injective, or_err-eq-ok, arith, int_laws, ◌⊎◌, inl, inr,
}
use codecharacter_simulator.Players.{PlayerId, at, put, enemy}
use codecharacter_simulator.Physics.Double.{Double}
use codecharacter_simulator.Physics.Vector.{Vector}
use codecharacter_simulator.Actor.Base.{ActorId}
use codecharacter_simulator.Actor.Tower.{Tower}
use codecharacter_simulator.Map.{MapElement, get_element_by_offset}
use codecharacter_simulator.Game.Defs
use codecharacter_simulator.Syncer.Commands.{
  ErrorType, SyncerRules, Turn, log_error, offset_as_seen, is_occupied, build_tower, upgrade_tower,
  suicide_tower,
}

leb_of_not-ltb : (a b : ℤ) → ltb_ℤ a b ≡ false → b ≤ℤ a
leb_of_not-ltb a b h = ground arith

pub eqb_ℤ_eq : (a b : ℤ) → not (eqb_ℤ a b) ≡ false → a ≡ b
eqb_ℤ_eq a b h = grind int_laws

three_tests : (a b c : Bool) → (not a || b || c) ≡ false → (a ≡ true) × (b ≡ false) × (c ≡ false)
three_tests true false false h = (refl, refl, refl)
three_tests true true c h = cc
three_tests true false true h = cc
three_tests false b c h = cc

-- A check that ends the command, or the rest of the command.
pub checked {ℓ} :
    {A : Type ℓ} {y : A} (b : Bool) (x : A) (r : Result A)
    → (if b then ok x else r) ≡ ok y
    → ((b ≡ true) × (y ≡ x)) ⊎ ((b ≡ false) × (r ≡ ok y))
checked true x r h = inl (refl, sym (ok-injective h))
checked false x r h = inr (refl, h)

module _ {D : Double} where
  -- A refusal changes nothing but the log of the errors.
  abbrev pub IsRefused : PlayerId → Turn D → Turn D → Type 0
  IsRefused p t t' = (e : ErrorType) × (t' ≡ log_error t p e)

  pub record IsBuilt (c : SyncerRules) (p : PlayerId) (v : Vector D) (t t' : Turn D) : Type 0 where
    pub cell : MapElement D
    pub cost : ℤ
    pub in_map : get_element_by_offset t.state.map v ≡ ok cell
    pub own : at cell.ownership p ≡ true
    pub not_enemy : at cell.ownership (enemy p) ≡ false
    pub free : is_occupied t.state.map (at t.state.tower_managers p).towers v ≡ false
    pub room : pos (suc t.num_towers) ≤ℤ c.max_num_towers
    pub first_cost : get_elem? c.tower_build_costs 0 ≡ some cost
    pub affordable : cost ≤ℤ at t.player_money p
    pub done : t' ≡ record t {
      player_money = put t.player_money p (at t.player_money p -ℤ cost);
      num_towers = suc t.num_towers;
      state = Defs.request_build t.state p v;
    }

  -- A command to build that returns is either refused, and then it only logs an error, or builds: the
  -- cell that the player means belongs to the player alone and holds none of the player's towers, one
  -- more tower is allowed and paid for, and the state is asked to build there.
  pub build_tower_lem :
      (c : SyncerRules) (t t' : Turn D) (p : PlayerId) (offset : Vector D)
      → build_tower c t p offset ≡ ok t'
      → IsRefused p t t' ⊎ IsBuilt c p (offset_as_seen p t.state.map offset) t t'
  unfolding build_tower
  build_tower_lem c t t' p offset h =
      elim (checked (ltb_ℤ c.max_num_towers (pos (suc t.num_towers))) _ _ h) [
        | inl (b, e) ↦ inl (_, e)
        | inr (room, h₁) ↦
            let (cell, in_map, h₂) =
              >>=-eq-ok (get_element_by_offset t.state.map (offset_as_seen p t.state.map offset)) _
                h₁ in
            let v = offset_as_seen p t.state.map offset in
            elim (checked
              (not (at cell.ownership p)
                || at cell.ownership (enemy p)
                || is_occupied t.state.map (at t.state.tower_managers p).towers v)
              (log_error t p ErrorType.invalid_territory) _ h₂) [
                | inl (b, e) ↦ inl (_, e)
                | inr (valid, h₃) ↦
                    let (cost, hc, h₄) =
                      >>=-eq-ok (or_err (get_elem? c.tower_build_costs 0) undefined) _ h₃ in
                    elim (checked (ltb_ℤ (at t.player_money p) cost)
                      (log_error t p ErrorType.insufficient_funds) _ h₄) [
                        | inl (b, e) ↦ inl (_, e)
                        | inr (pays, h₅) ↦
                            let (own, not_enemy, free) = three_tests _ _ _ valid in
                            inr (record {
                              cell = cell;
                              cost = cost;
                              in_map = in_map;
                              own = own;
                              not_enemy = not_enemy;
                              free = free;
                              room = leb_of_not-ltb c.max_num_towers (pos (suc t.num_towers)) room;
                              first_cost = or_err-eq-ok _ _ hc;
                              affordable = leb_of_not-ltb (at t.player_money p) cost pays;
                              done = sym (ok-injective h₅);
                            })
                      ]
              ]
      ]

  pub record IsUpgraded (c : SyncerRules) (p : PlayerId) (id : ActorId) (i : ℕ) (t t' : Turn D)
      : Type 0 where
    pub target : Tower D
    pub cost : ℤ
    pub at_index : get_elem? (at t.state.tower_managers p).towers i ≡ some target
    pub same_id : id ≡ target.id
    pub cost_of_level : get_elem? c.tower_build_costs target.tower_level ≡ some cost
    pub affordable : cost ≤ℤ at t.player_money p
    pub done : t' ≡ record t {
      player_money = put t.player_money p (at t.player_money p -ℤ cost);
      state = Defs.request_upgrade t.state p id;
    }

  -- A command to upgrade that returns is either refused, and then it only logs an error, or it names
  -- the player's tower at that index by its own identifier, the cost of the next level is known and
  -- paid, and the state is asked to upgrade that tower.
  pub upgrade_tower_lem :
      (c : SyncerRules) (t t' : Turn D) (p : PlayerId) (id : ActorId) (i : ℕ)
      → upgrade_tower c t p id i ≡ ok t'
      → IsRefused p t t' ⊎ IsUpgraded c p id i t t'
  unfolding upgrade_tower
  upgrade_tower_lem c t t' p id i h =
      let (x, hx, h₁) =
        >>=-eq-ok (or_err (get_elem? (at t.state.tower_managers p).towers i) undefined) _ h in
      elim (checked (not (eqb_ℤ id x.id)) (log_error t p ErrorType.no_alter_actor_id) _ h₁) [
        | inl (b, e) ↦ inl (_, e)
        | inr (same, h₂) ↦
            elim (checked (eqb_ℤ (pos x.tower_level) (pos (length c.tower_build_costs)))
              (log_error t p ErrorType.no_more_upgrades) _ h₂) [
                | inl (b, e) ↦ inl (_, e)
                | inr (more, h₃) ↦
                    let (cost, hc, h₄) =
                      >>=-eq-ok (or_err (get_elem? c.tower_build_costs x.tower_level) undefined) _
                        h₃ in
                    elim (checked (ltb_ℤ (at t.player_money p) cost)
                      (log_error t p ErrorType.insufficient_funds) _ h₄) [
                        | inl (b, e) ↦ inl (_, e)
                        | inr (pays, h₅) ↦ inr (record {
                          target = x;
                          cost = cost;
                          at_index = or_err-eq-ok _ _ hx;
                          same_id = eqb_ℤ_eq id x.id same;
                          cost_of_level = or_err-eq-ok _ _ hc;
                          affordable = leb_of_not-ltb (at t.player_money p) cost pays;
                          done = sym (ok-injective h₅);
                        })
                      ]
              ]
      ]

  pub record IsSuicide (p : PlayerId) (id : ActorId) (i : ℕ) (t t' : Turn D) : Type 0 where
    pub target : Tower D
    pub at_index : get_elem? (at t.state.tower_managers p).towers i ≡ some target
    pub same_id : id ≡ target.id
    pub not_base : target.is_base ≡ false
    pub done : t' ≡ record t {
      razed_towers = t.razed_towers ++ (id ∷ []);
      state = Defs.request_suicide t.state p id;
    }

  -- A command to raze that returns is either refused, and then it only logs an error, or it names the
  -- player's tower at that index by its own identifier, the tower is not a base, and it is noted as
  -- razed and the state is asked for its suicide.
  pub suicide_tower_lem :
      (t t' : Turn D) (p : PlayerId) (id : ActorId) (i : ℕ)
      → suicide_tower t p id i ≡ ok t'
      → IsRefused p t t' ⊎ IsSuicide p id i t t'
  unfolding suicide_tower
  suicide_tower_lem t t' p id i h =
      let (x, hx, h₁) =
        >>=-eq-ok (or_err (get_elem? (at t.state.tower_managers p).towers i) undefined) _ h in
      elim (checked (not (eqb_ℤ id x.id)) (log_error t p ErrorType.no_alter_actor_id) _ h₁) [
        | inl (b, e) ↦ inl (_, e)
        | inr (same, h₂) ↦
            elim (checked x.is_base (log_error t p ErrorType.no_suicide_base_tower) _ h₂) [
              | inl (b, e) ↦ inl (_, e)
              | inr (base, h₃) ↦ inr (record {
                target = x;
                at_index = or_err-eq-ok _ _ hx;
                same_id = eqb_ℤ_eq id x.id same;
                not_base = base;
                done = sym (ok-injective h₃);
              })
            ]
      ]
