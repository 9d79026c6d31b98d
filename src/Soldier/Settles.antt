-- ===== src/Soldier/Settles.antt =====
-- `Soldier::Update` ends: the loop over state changes stops after at most three of them, follows no
-- null pointer, and leaves the soldier in a state that fits its target and its destination.
pub mod Steps
pub mod Chains
pub mod Starts
use codecharacter_simulator.Prelude.{
  zero, suc, ◌≡◌, refl, true, false, ◌<◌, some, ℤ, pos, ◌≤ℤ◌, ◌<ℤ◌, Result, ok, Bool-cases,
  Option-cases, inl, inr, eqb_ℤ,
}
