-- ===== src/Game/Lookup.antt =====
-- `GetSoldierById`: what every identifier finds.
use codecharacter_simulator.Prelude.{
  err, negsuc, ◌-◌, ◌≤◌, ◌≤ℤ◌, ◌<ℤ◌, ◌⊎◌, inl, inr, Bool-cases, subst, ltb, ltb_ℤ, not, throw_if,
  ◌>>=◌, ◌>>◌, ℕ, ◌+◌, ◌*◌, ◌<◌, ◌≡◌, ℤ, pos, ◌-ℤ◌, length, Result, ok, out_of_range, undefined,
  arith,
}
use codecharacter_simulator.Players.{PlayerId, enemy}
use codecharacter_simulator.Physics.Double.{Double}
use codecharacter_simulator.Game.Defs.{to_index, State, soldier_index, player_index}

-- The body of `soldier_index`, on the lengths of the teams.
abbrev lookup : ℕ → ℕ → ℕ → ℤ → Result ℕ
lookup per_team len side id = do
  throw_if (ltb_ℤ id (pos 0)) out_of_range
  throw_if (ltb_ℤ (pos (2 * per_team) -ℤ pos 1) id) out_of_range
  i ← to_index (id -ℤ pos (per_team * side))
  throw_if (not (ltb i len)) undefined
  ok i

-- The four kinds of identifiers: of one of the first `n` soldiers, of one of the next, or of none, too large or negative.
data Side : ℕ → ℤ → Type 0 where
  first_team : {n : ℕ} (i : ℕ) → i < n → Side n (pos (n * 0 + i))
  second_team : {n : ℕ} (i : ℕ) → i < n → Side n (pos (n * 1 + i))
  beyond : {n : ℕ} (k : ℕ) → 2 * n ≤ k → Side n (pos k)
  negative : {n : ℕ} (k : ℕ) → Side n (negsuc k)

side : (n : ℕ) (id : ℤ) → Side n id
side n (negsuc k) = negative k
side n (pos k) = elim (Bool-cases (ltb k n)) [
  | inl low ↦ subst (λ x. Side n (pos x)) (omega arith) (first_team k (ground arith))
  | inr high ↦ elim (Bool-cases (ltb k (2 * n))) [
    | inl low ↦ subst (λ x. Side n (pos x)) (ground arith) (second_team (k - n) (ground arith))
    | inr far ↦ beyond k (ground arith)
  ]
]

module _ {D : Double} where
  -- Two teams of `n` soldiers.
  pub record HasTeams (s : State D) (n : ℕ) : Type 0 where
    pub team1 : length s.soldiers.first ≡ n
    pub team2 : length s.soldiers.second ≡ n

  -- What the identifier `id` finds for the player `p`: the soldier at its place in the player's team;
  -- an exception; or an index outside the player's team.
  abbrev pub FindsSoldier : State D → ℕ → ℤ → PlayerId → Type 0
  FindsSoldier s n id p =
      ((i : ℕ) × (i < n) × (id ≡ pos (n * player_index p + i)) × (soldier_index s id p ≡ ok i))
      ⊎ ((((id <ℤ pos 0) ⊎ (pos (2 * n) ≤ℤ id)) × (soldier_index s id p ≡ err out_of_range))
          ⊎ ((i : ℕ) × (i < n)
              × (id ≡ pos (n * player_index (enemy p) + i))
              × (soldier_index s id p ≡ err undefined)))
