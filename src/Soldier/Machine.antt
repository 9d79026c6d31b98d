-- ===== src/Soldier/Machine.antt =====
-- `Soldier::Update` and `Soldier::LateUpdate`. The loop of `Update` takes fuel.
use codecharacter_simulator.Prelude.{
  ℕ, zero, suc, Bool, true, false, not, none, some, ◌&&◌, pos, ◌-ℤ◌, eqb_ℤ, Result, ok, err,
  undefined, out_of_fuel, ◌>>=◌, if◌then◌else◌,
}
use codecharacter_simulator.Physics.Double.{Double}
use codecharacter_simulator.Actor.Soldier.{
  Soldier, SoldierState, dead_state, set_position, clear_new_position, latest_hp, set_soldier_hp,
}
use codecharacter_simulator.Soldier.Scene.{Rules, Scene}
use codecharacter_simulator.Soldier.States.{Outcome, with_self, state_update, state_exit, entered}

-- At most three states are entered in one update (Soldier/Settles.antt).
abbrev pub max_transitions : ℕ
max_transitions = 3

-- `state->GetName() == SoldierStateName::DEAD`.
abbrev pub is_dead : SoldierState → Bool
is_dead (dead_state _) = true
is_dead _ = false

module _ {D : Double} where
  -- Leave the old state, enter the new one.
  unfoldable pub switch : Rules D → SoldierState → Scene D → Result (Scene D)
  switch r n s = do
    left ← state_exit r s.self
    ok (with_self s (record left { state = entered r n }))

  -- The `while (new_state != nullptr)` loop.
  unfoldable pub transitions : ℕ → Rules D → Outcome D → Result (Scene D)
  transitions fuel r (none, s) = ok s
  transitions zero r (some n, s) = err out_of_fuel
  transitions (suc fuel) r (some n, s) =
      switch r n s >>= λ s'. state_update r s' >>= λ o. transitions fuel r o

  unfoldable pub update : Rules D → Scene D → Result (Scene D)
  update r s = state_update r s >>= transitions max_transitions r

  -- `LateUpdate`, in its four steps.
  unfoldable pub commit_position : Soldier D → Soldier D
  commit_position s =
      if s.is_new_position_set then clear_new_position (set_position s s.new_position) else s

  unfoldable pub commit_damage : Soldier D → Result (Soldier D)
  commit_damage s = do
    hurt ← (if not s.is_invulnerable then set_soldier_hp s (latest_hp s) else ok s)
    ok (record hurt { damage_incurred = pos 0 })

  unfoldable pub count_invulnerability : Soldier D → Soldier D
  count_invulnerability s =
      if s.is_invulnerable
      then (let left = s.num_turns_invulnerable -ℤ pos 1 in
          record s { num_turns_invulnerable = left; is_invulnerable = not (eqb_ℤ left (pos 0)) })
      else s

  -- The state that `state->Update()` returns is followed with no test for `nullptr`.
  abbrev pub next_or_null : Outcome D → Result (SoldierState × Scene D)
  next_or_null (none, s) = err undefined
  next_or_null (some n, s) = ok (n, s)

  unfoldable pub die : Rules D → Scene D → Result (Scene D)
  die r s = do
    o ← state_update r s
    (n, s₁) ← next_or_null o
    s₂ ← switch r n s₁
    o₂ ← state_update r s₂
    ok o₂.1

  unfoldable pub late_update : Rules D → Scene D → Result (Scene D)
  late_update r s = do
    hurt ← commit_damage (commit_position s.self)
    let s' = with_self s (count_invulnerability hurt)
    if eqb_ℤ s'.self.hp (pos 0) && not (is_dead s'.self.state) then die r s' else ok s'
