-- ===== src/Syncer/Bills.antt =====
-- What the requests of a turn cost: every build and every upgrade that is asked for has been paid.
use codecharacter_simulator.Prelude.{
  ℕ, ◌≡◌, refl, sym, ap, ◌∙◌, List, [], ◌∷◌, ◌++◌, ℤ, pos, ◌+ℤ◌, ◌-ℤ◌, get_elem?, some, int_laws,
}
use mathlib.Core.List.{append_assoc, append-nil}
use codecharacter_simulator.Players.{PlayerId, player1, player2, PerPlayer, at, put}
use codecharacter_simulator.Physics.Double.{Double}
use codecharacter_simulator.Physics.Vector.{Vector}
use codecharacter_simulator.Actor.Base.{ActorId}
use codecharacter_simulator.Actor.Tower.{Tower}
use codecharacter_simulator.Towers.Defs.{TowerManager}
use codecharacter_simulator.Towers.Handlers
use codecharacter_simulator.Game.Defs.{get_money, State}
use codecharacter_simulator.Syncer.Commands.{SyncerRules}

-- The sum of what the entries of a list cost.
abbrev pub Bill {ℓ} : {A : Type ℓ} → (A → ℤ → Type 0) → List A → ℤ → Type 0
Bill cost [] b = b ≡ pos 0
Bill cost (x ∷ xs) b = (k : ℤ) × (rest : ℤ) × cost x k × Bill cost xs rest × (b ≡ k +ℤ rest)

add_first : (b k : ℤ) → b ≡ pos 0 → b +ℤ k ≡ k +ℤ pos 0
add_first b k h = grind int_laws

add_later : (b k l rest : ℤ) → b ≡ l +ℤ rest → b +ℤ k ≡ l +ℤ (rest +ℤ k)
add_later b k l rest h = grind int_laws

pays_build : (has k b u had : ℤ) → (has +ℤ b) +ℤ u ≡ had → ((has -ℤ k) +ℤ (b +ℤ k)) +ℤ u ≡ had
pays_build has k b u had h = grind int_laws

pays_upgrade : (has k b u had : ℤ) → (has +ℤ b) +ℤ u ≡ had → ((has -ℤ k) +ℤ b) +ℤ (u +ℤ k) ≡ had
pays_upgrade has k b u had h = grind int_laws

push-Bill {ℓ} :
    {A : Type ℓ} (cost : A → ℤ → Type 0) (xs : List A) (x : A) (b k : ℤ)
    → Bill cost xs b
    → cost x k
    → Bill cost (xs ++ (x ∷ [])) (b +ℤ k)
push-Bill cost [] x b k h c = (k, pos 0, c, refl, add_first b k h)
push-Bill cost (y ∷ xs) x b k (l, rest, cl, more, e) c =
    (l, rest +ℤ k, cl, push-Bill cost xs x rest k more c, add_later b k l rest e)

module _ {D : Double} (c : SyncerRules) where
  -- A tower that is built costs the first entry, whatever its offset.
  abbrev pub BuildCost : Vector D → ℤ → Type 0
  BuildCost v k = get_elem? c.tower_build_costs 0 ≡ some k

  -- An upgrade costs the entry of the level that a tower with the identifier has.
  abbrev pub UpgradeCost : List (Tower D) → ActorId → ℤ → Type 0
  UpgradeCost ts id k =
      (i : ℕ) × (x : Tower D) × (get_elem? ts i ≡ some x)
      × (id ≡ x.id)
      × (get_elem? c.tower_build_costs x.tower_level ≡ some k)

  -- The manager has asked for builds and upgrades since it was `old`, and what the player had is what
  -- it has with what these cost.
  pub record IsPaid (old m : TowerManager D) (had has : ℤ) : Type 0 where
    pub new_builds : List (Vector D)
    pub new_upgrades : List ActorId
    pub build_bill : ℤ
    pub upgrade_bill : ℤ
    pub builds : m.towers_to_build_offsets ≡ old.towers_to_build_offsets ++ new_builds
    pub upgrades : m.towers_to_upgrade ≡ old.towers_to_upgrade ++ new_upgrades
    pub builds_cost : Bill BuildCost new_builds build_bill
    pub upgrades_cost : Bill (UpgradeCost old.towers) new_upgrades upgrade_bill
    pub balance : (has +ℤ build_bill) +ℤ upgrade_bill ≡ had

  pub nothing-IsPaid : (m : TowerManager D) (had : ℤ) → IsPaid m m had had
  nothing-IsPaid m had = record {
    new_builds = [];
    new_upgrades = [];
    build_bill = pos 0;
    upgrade_bill = pos 0;
    builds = sym (append-nil m.towers_to_build_offsets);
    upgrades = sym (append-nil m.towers_to_upgrade);
    builds_cost = refl;
    upgrades_cost = refl;
    balance = omega int_laws;
  }

  pub build_tower-IsPaid :
      (old m : TowerManager D) (had has k : ℤ) (v : Vector D)
      → IsPaid old m had has
      → get_elem? c.tower_build_costs 0 ≡ some k
      → IsPaid old (Handlers.build_tower m v) had (has -ℤ k)
  unfolding Handlers.build_tower
  build_tower-IsPaid old m had has k v h cost = record {
    new_builds = h.new_builds ++ (v ∷ []);
    new_upgrades = h.new_upgrades;
    build_bill = h.build_bill +ℤ k;
    upgrade_bill = h.upgrade_bill;
    builds =
        ap (λ l. l ++ (v ∷ [])) h.builds
        ∙ append_assoc old.towers_to_build_offsets h.new_builds (v ∷ []);
    upgrades = h.upgrades;
    builds_cost = push-Bill BuildCost h.new_builds v h.build_bill k h.builds_cost cost;
    upgrades_cost = h.upgrades_cost;
    balance = pays_build has k h.build_bill h.upgrade_bill had h.balance;
  }

  pub upgrade_tower-IsPaid :
      (old m : TowerManager D) (had has k : ℤ) (id : ActorId)
      → IsPaid old m had has
      → UpgradeCost old.towers id k
      → IsPaid old (Handlers.upgrade_tower m id) had (has -ℤ k)
  unfolding Handlers.upgrade_tower
  upgrade_tower-IsPaid old m had has k id h cost = record {
    new_builds = h.new_builds;
    new_upgrades = h.new_upgrades ++ (id ∷ []);
    build_bill = h.build_bill;
    upgrade_bill = h.upgrade_bill +ℤ k;
    builds = h.builds;
    upgrades =
        ap (λ l. l ++ (id ∷ [])) h.upgrades
        ∙ append_assoc old.towers_to_upgrade h.new_upgrades (id ∷ []);
    builds_cost = h.builds_cost;
    upgrades_cost =
        push-Bill (UpgradeCost old.towers) h.new_upgrades id h.upgrade_bill k h.upgrades_cost cost;
    balance = pays_upgrade has k h.build_bill h.upgrade_bill had h.balance;
  }

  pub suicide_tower-IsPaid :
      (old m : TowerManager D) (had has : ℤ) (id : ActorId)
      → IsPaid old m had has
      → IsPaid old (Handlers.suicide_tower m id) had has
  unfolding Handlers.suicide_tower
  suicide_tower-IsPaid old m had has id h = record {
    new_builds = h.new_builds;
    new_upgrades = h.new_upgrades;
    build_bill = h.build_bill;
    upgrade_bill = h.upgrade_bill;
    builds = h.builds;
    upgrades = h.upgrades;
    builds_cost = h.builds_cost;
    upgrades_cost = h.upgrades_cost;
    balance = h.balance;
  }

  -- Both players' requests are paid.
  abbrev pub ArePaid : State D → PerPlayer (TowerManager D) → PerPlayer ℤ → Type 0
  ArePaid s managers money =
      (q : PlayerId)
      → IsPaid (at s.tower_managers q) (at managers q) (at (get_money s) q) (at money q)

  pub put-ArePaid :
      (s : State D) (managers : PerPlayer (TowerManager D)) (money : PerPlayer ℤ) (p : PlayerId)
      (m : TowerManager D) (has : ℤ)
      → ArePaid s managers money
      → IsPaid (at s.tower_managers p) m (at (get_money s) p) has
      → ArePaid s (put managers p m) (put money p has)
  put-ArePaid s managers money player1 m has all h player1 = h
  put-ArePaid s managers money player1 m has all h player2 = all player2
  put-ArePaid s managers money player2 m has all h player1 = all player1
  put-ArePaid s managers money player2 m has all h player2 = h

  pub put_manager-ArePaid :
      (s : State D) (managers : PerPlayer (TowerManager D)) (money : PerPlayer ℤ) (p : PlayerId)
      (m : TowerManager D)
      → ArePaid s managers money
      → IsPaid (at s.tower_managers p) m (at (get_money s) p) (at money p)
      → ArePaid s (put managers p m) money
  put_manager-ArePaid s managers money player1 m all h player1 = h
  put_manager-ArePaid s managers money player1 m all h player2 = all player2
  put_manager-ArePaid s managers money player2 m all h player1 = all player1
  put_manager-ArePaid s managers money player2 m all h player2 = h
