-- ===== src/RefreshReputation/Runs.antt =====
-- pallets/refresh-reputation/src/lib.rs: the calls, and the staked funds beside what is owed, through any
-- of them.
use zero_dao_node.Base.{ℕ, ◌+◌, ◌≤◌, ◌<◌, ◌≡◌, List, length, u32, u128}
use zero_dao_node.Dispatch.{Result, ok}
use zero_dao_node.RefreshReputation.{SeedPath, State, Config, get_payroll}
use zero_dao_node.RefreshReputation.Calls
use zero_dao_node.RefreshReputation.Calls.{
  release, staking, refresh_all, drain_payrolls, disputed, billed_less, record_or_default,
  without_payroll, without_records,
}
use zero_dao_node.RefreshReputation.Payrolls.{staked}
use zero_dao_node.RefreshReputation.Billing.{taken_fee}
use zero_dao_node.RefreshReputation.Funds.{
  Funded, Funding, start-Funded, harvest_ref_all-Funded, harvest_ref_all_sweeper-Funded,
  harvest_challenge-Funded,
}
use zero_dao_node.RefreshReputation.Backing.{
  challenge-Funded, refresh-Funded, arbitral-Funded, challenge_update-Funded,
}

-- The calls as data, as in the `Call` that `pallet::call` generates for them.
pub data Call : Type 0 where
  start harvest_ref_all : Call
  refresh : List (ℕ × ℕ) → Call
  harvest_ref_all_sweeper harvest_challenge : ℕ → Call
  challenge : ℕ → ℕ → ℕ → ℕ → Call
  arbitral challenge_update : ℕ → List ℕ → List SeedPath → Call

module _ {T W : Type 0} (cfg : Config T W) where
  unfoldable pub run : Call → Result ℕ → State T W → Result (State T W)
  run Call.start origin s = Calls.start cfg origin s
  run (Call.refresh user_scores) origin s = Calls.refresh cfg origin user_scores s
  run Call.harvest_ref_all origin s = Calls.harvest_ref_all cfg origin s
  run (Call.harvest_ref_all_sweeper pathfinder) origin s =
      Calls.harvest_ref_all_sweeper cfg origin pathfinder s
  run (Call.harvest_challenge target) origin s = Calls.harvest_challenge cfg origin target s
  run (Call.challenge target pathfinder quantity score) origin s =
      Calls.challenge cfg origin target pathfinder quantity score s
  run (Call.arbitral target seeds paths) origin s = Calls.arbitral cfg origin target seeds paths s
  run (Call.challenge_update target seeds paths) origin s =
      Calls.challenge_update cfg origin target seeds paths s

  -- A call fits: the users of a refresh are a `Vec` of a 32-bit length, and a challenge takes no more
  -- off a payroll than its fees.
  unfoldable pub Fits : Call → State T W → Type 0
  Fits (Call.refresh user_scores) s = length user_scores < u32
  Fits (Call.challenge target pathfinder quantity score) s =
      taken_fee cfg pathfinder target s ≤ (get_payroll pathfinder s).total_fee
  Fits call s = Unit {0}

module _ {T W : Type 0} (cfg : Config T W) (pool others : W → ℕ) (stake : ℕ)
    (funding : Funding cfg pool others stake) where
  -- Whatever call of the pallet succeeds: what the pathfinders are owed and what the games hold grows by
  -- no more than the staked total, where nothing that is staked saturates.
  pub run-Funded :
      (call : Call) (who : ℕ) (s s' : State T W)
      → staked cfg s + stake < u128
      → staked cfg s' + 1 < u128
      → Fits cfg call s
      → run cfg call (ok who) s ≡ ok s'
      → Funded cfg pool others s s'
  unfolding run Fits
  run-Funded Call.start who s s' room room' fits e =
      start-Funded cfg pool others stake funding who s s' e
  run-Funded (Call.refresh user_scores) who s s' room room' fits e =
      refresh-Funded cfg pool others stake funding who user_scores s s' fits room' e
  run-Funded Call.harvest_ref_all who s s' room room' fits e =
      harvest_ref_all-Funded cfg pool others stake funding who s s' e
  run-Funded (Call.harvest_ref_all_sweeper pathfinder) who s s' room room' fits e =
      harvest_ref_all_sweeper-Funded cfg pool others stake funding who pathfinder s s' e
  run-Funded (Call.harvest_challenge target) who s s' room room' fits e =
      harvest_challenge-Funded cfg pool others stake funding who target s s' room e
  run-Funded (Call.challenge target pathfinder quantity score) who s s' room room' fits e =
      challenge-Funded cfg pool others stake funding who target pathfinder quantity score s s' room
        fits e
  run-Funded (Call.arbitral target seeds paths) who s s' room room' fits e =
      arbitral-Funded cfg pool others stake funding who target seeds paths s s' room e
  run-Funded (Call.challenge_update target seeds paths) who s s' room room' fits e =
      challenge_update-Funded cfg pool others stake funding who target seeds paths s s' room e
