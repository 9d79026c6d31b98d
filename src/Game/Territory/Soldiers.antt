-- ===== src/Game/Territory/Soldiers.antt =====
-- The loops over the soldiers: a hit tower keeps its place, so the territory stays right.
use codecharacter_simulator.Prelude.{
  ℕ, zero, suc, ◌≡◌, refl, sym, ap, ◌∙◌, subst, ◌+◌, eqb_ℤ, List, [], ◌∷◌, ◌++◌, Option, none, some,
  length, get_elem?, Result, ok, undefined, or_err, if◌then◌else◌, branch, >>=-eq-ok, ok-injective,
  inl, inr, ℤ,
}
use mathlib.Core.Option
use mathlib.Core.Option.{some-injective, some-ne-none}
use codecharacter_simulator.Players.{PlayerId, player1, player2, at}
use codecharacter_simulator.Physics.Double.{Double}
use codecharacter_simulator.Physics.Vector.{Vector}
use codecharacter_simulator.Actor.Base.{ActorId}
use codecharacter_simulator.Actor.Soldier.{Soldier, ActorPtr, to_soldier, to_tower}
use codecharacter_simulator.Actor.Tower.{Tower}
use codecharacter_simulator.Actor.Any.{AnyActor, soldier, tower}
use codecharacter_simulator.Soldier.Scene.{Scene}
use codecharacter_simulator.Soldier.Spares.{Spares, place}
use codecharacter_simulator.Towers.Defs.{TowerRules, TowerManager, calculate_bounds}
use codecharacter_simulator.Map.{get_size}
use codecharacter_simulator.Towers.Invariant.{IsTerritory}
use codecharacter_simulator.Towers.Counts.{holders, covers, one_if}
use codecharacter_simulator.Game.Defs.{State, set_soldier, with_manager}
use codecharacter_simulator.Game.Updates.{
  find_tower, replace_tower, kept_towers, store_tower, any_tower, deref, store_target, on_scene,
  each_soldier, all_soldiers,
}
use codecharacter_simulator.Game.Territory.Defs.{IsSound, tower_scene, IsTerritory-holders}

module _ {D : Double} (r : TowerRules) (size : ℕ) (es : ℤ) where
  -- A tower's bounds come from its position and its level.
  covers-place :
      (t u : Tower D) (i j : ℕ)
      → t.position ≡ u.position
      → t.tower_level ≡ u.tower_level
      → covers r size es t i j ≡ covers r size es u i j
  unfolding calculate_bounds
  covers-place t u i j p l = rw (p, l)

  -- A tower that is written back on its place does not change what the towers hold.
  holders-replace_tower :
      (ts dead gone : List (Tower D)) (id : ActorId) (t u : Tower D) (i j : ℕ)
      → find_tower (ts ++ dead ++ gone) id ≡ some u
      → t.position ≡ u.position
      → t.tower_level ≡ u.tower_level
      → holders r size es (replace_tower ts id t) i j ≡ holders r size es ts i j
  unfolding find_tower replace_tower holders
  holders-replace_tower [] dead gone id t u i j e p l = refl
  holders-replace_tower (x ∷ ts) dead gone id t u i j e p l =
      elim (branch (eqb_ℤ x.id id) (some x) (find_tower (ts ++ dead ++ gone) id) e) [
        | inl (b, same) ↦
            ap (λ c. holders r size es (if c then t ∷ ts else x ∷ replace_tower ts id t) i j) b
            ∙ ap (λ c. one_if c + holders r size es ts i j) (covers-place t u i j p l)
            ∙ ap (λ (y : Tower D). one_if (covers r size es y i j) + holders r size es ts i j)
                (sym (some-injective _ _ same))
        | inr (b, later) ↦
            ap (λ c. holders r size es (if c then t ∷ ts else x ∷ replace_tower ts id t) i j) b
            ∙ ap (λ n. one_if (covers r size es x i j) + n)
                (holders-replace_tower ts dead gone id t u i j later p l)
      ]

module _ {D : Double} (r : TowerRules) where
  abbrev stored : State D → PlayerId → ActorId → Tower D → State D
  stored s q id t = with_manager s q (store_tower (at s.tower_managers q) id t)

  -- A tower with the place of the one that was found stands for it.
  stored-IsSound :
      (s : State D) (q : PlayerId) (id : ActorId) (t u : Tower D)
      → IsSound r s
      → find_tower (kept_towers (at s.tower_managers q)) id ≡ some u
      → t.position ≡ u.position
      → t.tower_level ≡ u.tower_level
      → IsSound r (stored s q id t)
  stored-IsSound s q id t u h e p l = record {
    owners = owners_after q;
    territory = territory_after q e;
    balances = h.balances;
  }
    where
      owners_after : (q p : PlayerId) → (at (stored s q id t).tower_managers p).player_id ≡ p
      owners_after player1 player1 = h.owners player1
      owners_after player1 player2 = h.owners player2
      owners_after player2 player1 = h.owners player1
      owners_after player2 player2 = h.owners player2

      hit :
          (q : PlayerId) (s' : State D)
          → find_tower (kept_towers (at s.tower_managers q)) id ≡ some u
          → s'.map ≡ s.map
          → at s'.tower_managers q ≡ store_tower (at s.tower_managers q) id t
          → IsTerritory r (tower_scene s' q)
      hit q s' found g m =
          IsTerritory-holders r (tower_scene s q) (tower_scene s' q)
            (ap (λ (x : TowerManager D). x.player_id) m)
            (ap (λ (x : TowerManager D). x.territory_refs) m) g
            (λ i j.
              ap
                (λ (x : TowerManager D). holders r (get_size s.map) s.map.element_size x.towers i j)
                m
              ∙ holders-replace_tower r (get_size s.map) s.map.element_size
                  (at s.tower_managers q).towers _ _ id t u i j found p l)
            (h.territory q)

      territory_after :
          (q : PlayerId)
          → find_tower (kept_towers (at s.tower_managers q)) id ≡ some u
          → (p : PlayerId) → IsTerritory r (tower_scene (stored s q id t) p)
      territory_after player1 found player1 = hit player1 (stored s player1 id t) found refl refl
      territory_after player1 found player2 = h.territory player2
      territory_after player2 found player1 = h.territory player1
      territory_after player2 found player2 = hit player2 (stored s player2 id t) found refl refl

  -- A change of a soldier does not matter.
  soldier_set :
      (s : State D) (p : PlayerId) (i : ℕ) (x : Soldier D)
      → IsSound r s
      → IsSound r (set_soldier s p i x)
  soldier_set s p i x h = record {
    owners = h.owners;
    territory = h.territory;
    balances = h.balances;
  }

  -- The object at a pointer, written back on its place.
  target-IsSound :
      (s : State D) (side : PlayerId) (k : ℕ) (y : Soldier D) (ptr : Option ActorPtr)
      (a : Option (AnyActor D))
      → IsSound r (set_soldier s side k y)
      → Option.map place a ≡ Option.map place (deref s ptr)
      → IsSound r (store_target (set_soldier s side k y) ptr a)
  target-IsSound s side k y none none h e = h
  target-IsSound s side k y none (some (soldier x)) h e = h
  target-IsSound s side k y none (some (tower t)) h e = h
  target-IsSound s side k y (some (to_soldier p i)) none h e = h
  target-IsSound s side k y (some (to_soldier p i)) (some (soldier x)) h e = record {
    owners = h.owners;
    territory = h.territory;
    balances = h.balances;
  }
  target-IsSound s side k y (some (to_soldier p i)) (some (tower t)) h e = h
  target-IsSound s side k y (some (to_tower p id)) none h e = h
  target-IsSound s side k y (some (to_tower p id)) (some (soldier x)) h e = h
  target-IsSound s side k y (some (to_tower p id)) (some (tower t)) h e =
      by_search (find_tower (kept_towers (at s.tower_managers p)) id) refl
    where
      by_search :
          (o : Option (Tower D))
          → find_tower (kept_towers (at s.tower_managers p)) id ≡ o
          → IsSound r
              (with_manager (set_soldier s side k y) p (store_tower (at s.tower_managers p) id t))
      by_search none found =
          absurd (some-ne-none _ (e ∙ ap (λ z. Option.map place (any_tower z)) found))
      by_search (some u) found =
          let same =
            some-injective _ _
              (some-injective _ _ (e ∙ ap (λ z. Option.map place (any_tower z)) found)) in
          stored-IsSound (set_soldier s side k y) p id t u h found
            (ap (λ (z : Vector D × ℕ). z.0) same) (ap (λ (z : Vector D × ℕ). z.1) same)

  module _ (f : Scene D → Result (Scene D))
      (spares : (s s' : Scene D) → f s ≡ ok s' → Spares s s') where
    on_scene-IsSound :
        (p : PlayerId) (i : ℕ) (s s' : State D)
        → IsSound r s
        → on_scene f p i s ≡ ok s'
        → IsSound r s'
    unfolding on_scene
    on_scene-IsSound p i s s' h e =
        let (x, e₁, k₁) = >>=-eq-ok (or_err (get_elem? (at s.soldiers p) i) undefined) _ e in
        let (done, e₂, k₂) =
          >>=-eq-ok
            (f (record { self = x; target = deref s x.attack_target; money = s.money_manager })) _
            k₁ in
        let kept = spares _ done e₂ in
        let sound =
          target-IsSound s p i done.self x.attack_target done.target (soldier_set s p i done.self h)
            kept.target_place in
        subst (IsSound r) (ok-injective k₂) (record {
          owners = sound.owners;
          territory = sound.territory;
          balances = kept.money_valid h.balances;
        })

    each_soldier-IsSound :
        (p : PlayerId) (n i : ℕ) (s s' : State D)
        → IsSound r s
        → each_soldier f p n i s ≡ ok s'
        → IsSound r s'
    unfolding each_soldier
    each_soldier-IsSound p zero i s s' h e = subst (IsSound r) (ok-injective e) h
    each_soldier-IsSound p (suc n) i s s' h e =
        let (t, e₁, k₁) = >>=-eq-ok (on_scene f p i s) _ e in
        each_soldier-IsSound p n (suc i) t s' (on_scene-IsSound p i s t h e₁) k₁

    pub all_soldiers-IsSound :
        (s s' : State D) → IsSound r s → all_soldiers f s ≡ ok s' → IsSound r s'
    unfolding all_soldiers
    all_soldiers-IsSound s s' h e =
        let (t, e₁, k₁) = >>=-eq-ok (each_soldier f player1 (length s.soldiers.first) 0 s) _ e in
        each_soldier-IsSound player2 _ 0 t s' (each_soldier-IsSound player1 _ 0 s t h e₁) k₁
