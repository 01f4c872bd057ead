-- ===== src/RefreshReputation/Calls.antt =====
-- pallets/refresh-reputation/src/lib.rs: the dispatchable functions. `origin` is the outcome of
-- `ensure_signed`.
use zero_dao_node.Base.{
  ℕ, ◌%◌, Bool, false, not, Option, none, some, List, [], ◌∷◌, length, ltb, leb, ◌==◌,
  if◌then◌else◌, u32, u128, checked_add, checked_mul, saturating_add, saturating_sub, wrapping_add,
}
use zero_dao_node.Base.StorageMap
use zero_dao_node.Base.StorageMap.{StorageMap}
use zero_dao_node.Base.DoubleMap
use zero_dao_node.Dispatch.{Result, ok, ◌>>=◌, ◌>>◌, ensure, ok_or, RefreshError}
use zero_dao_node.Primitives.Fee.{with_fee, checked_with_fee}
use zero_dao_node.Primitives.Metadata.{Metadata, ChallengeStatus, default_metadata}
use zero_dao_node.RefreshReputation.{
  Record, Payroll, SeedPath, State, Config, Event, fails, app_id, max_refresh, get_payroll,
  deposit_event, mutate_payroll, payroll_amount, check_step, next_step, do_refresh,
  check_step_and_stared, check_step_and_not_stared, can_harvest, check_timeout,
}
use zero_dao_node.RefreshReputation.Uploads.{do_update_path, do_update_path_verify}

abbrev pub record_or_default : Option Record → Record
record_or_default (some r) = r
record_or_default none = record { update_at = 0; fee = 0 }

-- The game that `challenge` launches.
abbrev pub disputed : ℕ → ℕ → ℕ → ℕ → ℕ → Metadata
disputed challenger pathfinder quantity score fee = record default_metadata {
  pool = record { staking = 0; earnings = fee };
  remark = score;
  pathfinder = pathfinder;
  challenger = challenger;
  progress = record { total = quantity; done = 0 };
}

-- The payroll without one refresh.
abbrev pub billed_less : Payroll → ℕ → Payroll
billed_less f fee = record f {
  total_fee = saturating_sub f.total_fee fee;
  count = saturating_sub f.count 1;
}

module _ {T W : Type 0} (cfg : Config T W) where
  open cfg use {
    token, reputation, seeds_base, challenge_base, perbill, max_update_count, update_staking_amount,
    confirmation_period,
  }

  -- `T::MultiBaseToken::release` and `T::MultiBaseToken::staking`
  unfoldable pub release : ℕ → ℕ → State T W → Result (State T W)
  release who amount s = do
    ledger ← token.release who amount s.ledger
    ok (record s { ledger = ledger })

  unfoldable pub staking : ℕ → ℕ → State T W → Result (State T W)
  staking who amount s = do
    ledger ← token.staking who amount s.ledger
    ok (record s { ledger = ledger })

  -- The fold over the drained payrolls.
  unfoldable pub drain_payrolls : StorageMap Payroll → ℕ → State T W → Result (ℕ × State T W)
  drain_payrolls [] acc s = ok (acc, s)
  drain_payrolls ((pathfinder, payroll) ∷ rest) acc s = do
    let split = with_fee perbill (payroll_amount cfg payroll)
    s' ← release pathfinder split.1 s
    acc' ← ok_or (checked_add u128 acc split.0) (fails RefreshError.overflow)
    drain_payrolls rest acc' s'

  unfoldable pub start : Result ℕ → State T W → Result (State T W)
  start origin s = do
    who ← origin
    check_step_and_not_stared cfg s
    ensure (challenge_base.is_all_harvest app_id s) (fails RefreshError.challenge_not_claimed)
    (total_fee, drained) ← drain_payrolls s.payrolls 0 (record s { payrolls = [] })
    paid ← release who total_fee drained
    ok (deposit_event (Event.started who) (record paid { started_at = some s.now }))

  -- The fold over the scores of the users.
  unfoldable pub refresh_all : ℕ → List (ℕ × ℕ) → ℕ → State T W → Result (ℕ × State T W)
  refresh_all pathfinder [] acc s = ok (acc, s)
  refresh_all pathfinder (user_score ∷ user_scores) acc s = do
    (s', fee) ← do_refresh cfg pathfinder user_score s.now s
    acc' ← ok_or (checked_add u128 acc fee) (fails RefreshError.overflow)
    refresh_all pathfinder user_scores acc' s'

  unfoldable pub refresh : Result ℕ → List (ℕ × ℕ) → State T W → Result (State T W)
  refresh origin user_scores s = do
    pathfinder ← origin
    let user_count = length user_scores
    ensure (leb (user_count % u32) max_update_count) (fails RefreshError.quantity_limit_reached)
    check_step_and_stared cfg s
    check_timeout cfg s.now s
    let old_count = (get_payroll pathfinder s).count
    ensure (ltb (saturating_add u32 old_count (user_count % u32)) max_refresh)
        (fails RefreshError.exceed_max_refresh)
    amount ← ok_or (checked_mul u128 update_staking_amount user_count) (fails RefreshError.overflow)
    staked ← staking pathfinder amount s
    (total_fee, refreshed) ← refresh_all pathfinder user_scores 0 staked
    billed ← mutate_payroll pathfinder total_fee (user_count % u32) s.now refreshed
    let touched = record billed { world = reputation.set_last_refresh_at billed.world }
    ok (deposit_event (Event.reputation_refreshed pathfinder (user_count % u32) total_fee) touched)

  -- `Payrolls::take` and `Records::remove_prefix`.
  abbrev pub without_payroll : ℕ → State T W → State T W
  without_payroll pathfinder s = record s { payrolls = StorageMap.remove pathfinder s.payrolls }

  abbrev pub without_records : ℕ → State T W → State T W
  without_records pathfinder s = record s { records = DoubleMap.remove_prefix pathfinder s.records }

  unfoldable pub harvest_ref_all : Result ℕ → State T W → Result (State T W)
  harvest_ref_all origin s = do
    pathfinder ← origin
    let moved = next_step cfg s
    let payroll = get_payroll pathfinder moved
    can_harvest cfg payroll s.now
    let total_amount = payroll_amount cfg payroll
    paid ← release pathfinder total_amount (without_payroll pathfinder moved)
    ok (
        deposit_event (Event.refreshed_harvested pathfinder total_amount)
          (without_records pathfinder paid))

  unfoldable pub harvest_ref_all_sweeper : Result ℕ → ℕ → State T W → Result (State T W)
  harvest_ref_all_sweeper origin pathfinder s = do
    sweeper ← origin
    let moved = next_step cfg s
    let payroll = get_payroll pathfinder moved
    can_harvest cfg payroll s.now
    (sweeper_fee, without_fee) ←
        ok_or (checked_with_fee perbill (payroll_amount cfg payroll) payroll.update_at s.now)
          (fails RefreshError.failed_sweeper)
    swept ←
        release sweeper sweeper_fee (without_records pathfinder (without_payroll pathfinder moved))
    paid ← release pathfinder without_fee swept
    ok (
        deposit_event
          (Event.refreshed_harvested_by_sweeper pathfinder sweeper without_fee sweeper_fee) paid)

  unfoldable pub harvest_challenge : Result ℕ → ℕ → State T W → Result (State T W)
  harvest_challenge origin target s = do
    who ← origin
    (_, harvested) ← challenge_base.harvest who app_id target (next_step cfg s)
    ok (deposit_event (Event.challenge_harvested who target) harvested)

  unfoldable pub challenge : Result ℕ → ℕ → ℕ → ℕ → ℕ → State T W → Result (State T W)
  challenge origin target pathfinder quantity score s = do
    challenger ← origin
    check_step cfg s
    ensure (leb quantity (seeds_base.get_seed_count s.world))
        (fails RefreshError.excessive_bumber_of_seeds)
    old ← ok_or (reputation.get_reputation_new target s.world) (fails RefreshError.reputation_error)
    ensure (not (score == old)) (fails RefreshError.same_reputation)
    let taken = record_or_default (DoubleMap.lookup pathfinder target s.records)
    ensure (ltb s.now (wrapping_add u32 taken.update_at confirmation_period))
        (fails RefreshError.challenge_timeout)
    let payroll = billed_less (get_payroll pathfinder s) taken.fee
    let unbilled = record s {
      records = DoubleMap.remove pathfinder target s.records;
      payrolls = StorageMap.insert pathfinder payroll s.payrolls;
    }
    launched ←
        challenge_base.launch app_id target (disputed challenger pathfinder quantity old taken.fee)
          unbilled
    let opened = challenge_base.set_status app_id target ChallengeStatus.arbitral launched
    ok (deposit_event (Event.challenge challenger target) opened)

  -- The callback of `arbitral`.
  abbrev pub judge :
      ℕ → List ℕ → List SeedPath → ℕ → ℕ → State T W → Result (Bool × Bool × ℕ × State T W)
  judge target seeds paths score remark s = do
    (new_score, s') ← do_update_path_verify cfg target seeds paths (score % u32) s
    let corrected = record s' { world = reputation.mutate_reputation target new_score s'.world }
    ok (new_score == remark, false, new_score, corrected)

  unfoldable pub arbitral : Result ℕ → ℕ → List ℕ → List SeedPath → State T W → Result (State T W)
  arbitral origin target seeds paths s = do
    who ← origin
    check_step cfg s
    ensure (length seeds == length paths) (fails RefreshError.not_match)
    judged ← challenge_base.arbitral app_id who target (judge target seeds paths) s
    ok (deposit_event (Event.arbitral who target) judged)

  -- The callback of `challenge_update`.
  abbrev pub upload :
      ℕ → List ℕ → List SeedPath → ℕ → ℕ → Bool → State T W → Result (ℕ × ℕ × State T W)
  upload target seeds paths score remark is_all_done s = do
    (new_score, s') ← do_update_path target seeds paths (score % u32) s
    let corrected = record s' { world = reputation.mutate_reputation target new_score s'.world }
    ok (new_score, remark, if is_all_done then corrected else s')

  unfoldable pub challenge_update :
      Result ℕ → ℕ → List ℕ → List SeedPath → State T W → Result (State T W)
  challenge_update origin target seeds paths s = do
    challenger ← origin
    check_step cfg s
    let count = length seeds
    ensure (count == length paths) (fails RefreshError.not_match)
    updated ←
        challenge_base.next app_id challenger target (count % u32) (upload target seeds paths) s
    ok (deposit_event (Event.path_updated challenger target) updated)
