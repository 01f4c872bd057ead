-- ===== src/Challenges/Methods.antt =====
-- pallets/challenges/src/lib.rs, `impl ChallengeBase for Pallet`: the operations on the challenge
-- games. A callback of the caller takes the world and returns it with its result.
use zero_dao_node.Base.{
  ℕ, Bool, true, not, ◌&&◌, Option, none, some, ◌∷◌, ltb, leb, if◌then◌else◌, u128, checked_add,
}
use zero_dao_node.Dispatch.{Result, ok, ◌>>=◌, ◌>>◌, ensure, ok_or, ChallengesError}
use zero_dao_node.Primitives.Metadata
use zero_dao_node.Primitives.Metadata.{
  Metadata, ChallengeStatus, status_eq, default_metadata, total_amount, is_all_done, check_progress,
  is_challenger, is_pathfinder, new_progress, set_status,
}
use zero_dao_node.Challenges.{
  Config, State, Event, max_update_count, fails, shares_of, metadata_of, get_metadata_exist,
  put_metadata, remove, mutate_metadata, after_upload, staking, release, is_challenge_timeout,
  checked_sweeper_fee, do_settle,
}

module _ {W : Type 0} (cfg : Config W) where
  open cfg use {token, perbill, challenge_timeout, challenge_staking_amount}

  -- A release of nothing is left out.
  abbrev pub release_some : ℕ → ℕ → State W → Result (State W)
  release_some who amount s = if ltb 0 amount then release cfg who amount s else ok s

  -- The three releases of `harvest`, in their order.
  unfoldable pub pay_out : ℕ → Metadata → ℕ → ℕ → ℕ → State W → Result (State W)
  pay_out who challenge sweeper_fee pathfinder_amount challenger_amount s = do
    s1 ← release_some who sweeper_fee s
    s2 ← release_some challenge.pathfinder pathfinder_amount s1
    release_some challenge.challenger challenger_amount s2

  unfoldable pub harvest : ℕ → ℕ → ℕ → State W → Result (Option ℕ × State W)
  harvest who app_id target s = do
    challenge ← get_metadata_exist app_id target s
    total ← ok_or (total_amount challenge) (fails ChallengesError.overflow)
    (sweeper_fee, awards) ← checked_sweeper_fee cfg challenge who total s
    let shares = shares_of challenge challenge.status awards
    s' ← pay_out who challenge sweeper_fee shares.0 shares.1 s
    ok (shares.2, remove app_id target s')

  -- The game that `launch` builds on: the one in storage, if it is free, or a new one.
  abbrev pub launched_on : Option Metadata → Result Metadata
  launched_on (some m) = do
    ensure (status_eq m.status ChallengeStatus.free) (fails ChallengesError.no_challenge_allowed)
    ok m
  launched_on none = ok default_metadata

  unfoldable pub launch : ℕ → ℕ → Metadata → State W → Result (State W)
  launch app_id target metadata s = do
    challenge ← launched_on (metadata_of app_id target s)
    given ←
        ok_or (checked_add u128 challenge.pool.staking metadata.pool.staking)
          (fails ChallengesError.overflow)
    stake ← ok_or (checked_add u128 given challenge_staking_amount) (fails ChallengesError.overflow)
    earnings ←
        ok_or (checked_add u128 challenge.pool.earnings metadata.pool.earnings)
          (fails ChallengesError.overflow)
    s' ← staking cfg metadata.challenger challenge_staking_amount s
    let launched = record metadata {
      pool = record { staking = stake; earnings = earnings };
      joint_benefits = challenge.joint_benefits;
      last_update = s.now;
      status = ChallengeStatus.examine;
    }
    let stored = after_upload app_id (put_metadata app_id target launched s')
    let event =
        Event.challenged metadata.challenger target metadata.pathfinder metadata.progress.total
    ok (record stored { events = event ∷ stored.events })

  -- The closure that `next` hands to `mutate_metadata`.
  abbrev pub next_step :
      ℕ
      → ℕ
      → ℕ
      → (ℕ → ℕ → Bool → W → Result (ℕ × ℕ × W))
      → Metadata
      → State W
      → Result (Metadata × State W)
  next_step app_id who count up challenge s = do
    ensure (leb count max_update_count) (fails ChallengesError.too_many)
    ensure
        (if status_eq challenge.status ChallengeStatus.reply
          then is_pathfinder challenge who
          else is_challenger challenge who)
        (fails ChallengesError.no_permission)
    let advanced = Metadata.next challenge count
    ensure (check_progress advanced) (fails ChallengesError.progress_err)
    (score, remark, w) ← up advanced.score advanced.remark (is_all_done advanced) s.world
    ok (
      record advanced { remark = remark; score = score },
      after_upload app_id (record s { world = w }),
    )

  unfoldable pub next :
      ℕ → ℕ → ℕ → ℕ → (ℕ → ℕ → Bool → W → Result (ℕ × ℕ × W)) → State W → Result (State W)
  next app_id who target count up s =
      mutate_metadata app_id target (next_step app_id who count up) s

  abbrev pub examine_step : ℕ → ℕ → ℕ → Metadata → State W → Result (Metadata × State W)
  examine_step app_id who index challenge s = do
    ensure (status_eq challenge.status ChallengeStatus.reply && is_all_done challenge)
        (fails ChallengesError.no_challenge_allowed)
    ensure (is_challenger challenge who) (fails ChallengesError.no_permission)
    ok (
      record challenge { status = ChallengeStatus.examine; remark = index },
      after_upload app_id s,
    )

  unfoldable pub examine : ℕ → ℕ → ℕ → ℕ → State W → Result (State W)
  examine app_id who target index s =
      mutate_metadata app_id target (examine_step app_id who index) s

  abbrev pub reply_step :
      ℕ
      → ℕ
      → ℕ
      → (Bool → ℕ → ℕ → W → Result (ℕ × W))
      → Metadata
      → State W
      → Result (Metadata × State W)
  reply_step who total count up challenge s = do
    ensure (is_pathfinder challenge who) (fails ChallengesError.no_permission)
    ensure (status_eq challenge.status ChallengeStatus.examine) (fails ChallengesError.status_err)
    let started = Metadata.next (new_progress challenge total) count
    ensure (check_progress started) (fails ChallengesError.progress_err)
    (score, w) ← up (is_all_done started) started.remark started.score s.world
    ok (record started { status = ChallengeStatus.reply; score = score }, record s { world = w })

  unfoldable pub reply :
      ℕ → ℕ → ℕ → ℕ → ℕ → (Bool → ℕ → ℕ → W → Result (ℕ × W)) → State W → Result (State W)
  reply app_id who target total count up s =
      mutate_metadata app_id target (reply_step who total count up) s

  unfoldable pub evidence :
      ℕ → ℕ → ℕ → (ℕ → ℕ → W → Result (Bool × W)) → State W → Result (Option ℕ × State W)
  evidence app_id who target up s = do
    challenge ← get_metadata_exist app_id target s
    ensure (is_challenger challenge who) (fails ChallengesError.no_permission)
    ensure (is_all_done challenge) (fails ChallengesError.progress_err)
    ensure (not (status_eq challenge.status ChallengeStatus.examine))
        (fails ChallengesError.status_err)
    (needs_arbitration, w) ← up challenge.remark challenge.score s.world
    let judged =
        if needs_arbitration
        then set_status challenge ChallengeStatus.arbitral
        else Metadata.restart challenge true
    ok (
      if needs_arbitration then none else some challenge.score,
      after_upload app_id (put_metadata app_id target judged (record s { world = w })),
    )

  -- The part of `arbitral` before the callback: another account than the challenger takes over
  -- after the timeout, for a stake.
  abbrev pub take_over : ℕ → Metadata → State W → Result (Metadata × State W)
  take_over who challenge s = if is_challenger challenge who then ok (challenge, s) else do
    ensure (is_challenge_timeout cfg challenge.last_update s) (fails ChallengesError.no_permission)
    s' ← staking cfg who challenge_staking_amount s
    ok (record challenge { challenger = who }, s')

  abbrev pub arbitral_step :
      ℕ
      → ℕ
      → (ℕ → ℕ → W → Result (Bool × Bool × ℕ × W))
      → Metadata
      → State W
      → Result (Metadata × State W)
  arbitral_step app_id who up challenge s = do
    ensure (not (status_eq challenge.status ChallengeStatus.examine))
        (fails ChallengesError.status_err)
    ensure (is_all_done challenge) (fails ChallengesError.progress_err)
    (taken, s1) ← take_over who challenge s
    (joint_benefits, restart, score, w) ← up taken.score taken.remark s1.world
    (settled, s2) ← do_settle cfg taken restart joint_benefits score (record s1 { world = w })
    ok (settled, after_upload app_id s2)

  unfoldable pub arbitral :
      ℕ → ℕ → ℕ → (ℕ → ℕ → W → Result (Bool × Bool × ℕ × W)) → State W → Result (State W)
  arbitral app_id who target up s = mutate_metadata app_id target (arbitral_step app_id who up) s

  abbrev pub settle_step : Bool → Bool → ℕ → Metadata → State W → Result (Metadata × State W)
  settle_step joint_benefits restart score challenge s = do
    ensure (is_all_done challenge) (fails ChallengesError.progress_err)
    do_settle cfg challenge restart joint_benefits score s

  unfoldable pub settle : ℕ → ℕ → Bool → Bool → ℕ → State W → Result (State W)
  settle app_id target joint_benefits restart score s =
      mutate_metadata app_id target (settle_step joint_benefits restart score) s
