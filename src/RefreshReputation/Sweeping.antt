-- ===== src/RefreshReputation/Sweeping.antt =====
-- pallets/refresh-reputation/src/lib.rs, `harvest_ref_all_sweeper`: what a sweeper gets for clearing
-- the payroll of a pathfinder.
use zero_dao_node.Base.{
  ℕ, ◌+◌, ◌<◌, ◌≡◌, inl, inr, true, none, ◌==◌, if◌then◌else◌, u32, wrapping_add, arith,
}
use zero_dao_node.Base.StorageMap
use zero_dao_node.Base.StorageMap.{lookup-remove}
use zero_dao_node.Dispatch.{ok, Result-cases}
use zero_dao_node.Primitives.Fee.{with_fee, with_fee_sum, checked_with_fee, is_allowed_sweeper}
use zero_dao_node.RefreshReputation.{
  State, Config, get_payroll, payroll_amount, next_step, can_harvest,
}
use zero_dao_node.RefreshReputation.Calls.{
  release, harvest_ref_all_sweeper, without_payroll, without_records,
}
use zero_dao_node.RefreshReputation.Payrolls.{staked, release-staked, next_step-keeps}

module _ {T W : Type 0} (cfg : Config T W) where
  open cfg use {perbill, confirmation_period}

  -- A sweeper clears the payroll of a pathfinder after the confirmation period and the time for
  -- sweepers: the fee and the rest that are paid out make up what the payroll comes to, the payroll
  -- is removed, and those of others are left.
  pub harvest_ref_all_sweeper_lem :
      (sweeper pathfinder k : ℕ) (s s' : State T W)
      → harvest_ref_all_sweeper cfg (ok sweeper) pathfinder s ≡ ok s'
      → (staked cfg s' + payroll_amount cfg (get_payroll pathfinder s) ≡ staked cfg s)
        × (wrapping_add u32 (get_payroll pathfinder s).update_at confirmation_period < s.now)
        × (is_allowed_sweeper (get_payroll pathfinder s).update_at s.now ≡ true)
        × (StorageMap.lookup k s'.payrolls
            ≡ (if k == pathfinder then none else StorageMap.lookup k s.payrolls))
  unfolding harvest_ref_all_sweeper can_harvest checked_with_fee
  harvest_ref_all_sweeper_lem sweeper pathfinder k s s' e =
      let moved = next_step cfg s in
      let amount = payroll_amount cfg (get_payroll pathfinder moved) in
      let split = with_fee perbill amount in
      let taken = without_records cfg pathfinder (without_payroll cfg pathfinder moved) in
      let (same_stake, same) = next_step-keeps cfg s in
      elim (Result-cases (release cfg sweeper split.0 taken)) [
        | inr (x, failed) ↦ absurd (ground arith)
        | inl (swept, done) ↦ elim (Result-cases (release cfg pathfinder split.1 swept)) [
          | inr (x, failed) ↦ absurd (ground arith)
          | inl (paid, last) ↦
              let (fee, kept, _, _) = release-staked cfg sweeper split.0 taken swept done in
              let (rest, left, _, _) = release-staked cfg pathfinder split.1 swept paid last in
              (
                ground (arith, fee, rest, same_stake, same, with_fee_sum perbill amount),
                ground (arith, same),
                ground (arith, same),
                ground (arith, kept, left, same, lookup-remove k pathfinder s.payrolls),
              )
        ]
      ]
