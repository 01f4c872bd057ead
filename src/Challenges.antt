-- ===== src/Challenges.antt =====
-- pallets/challenges/src/lib.rs: the challenge game. The storage of the pallet stands beside the
-- world `W` of the pallets around it: that of the tokens, and what the callbacks of the callers
-- change. An operation returns `err`, and then nothing is changed, or the new storage.
pub mod Methods
pub mod Accounting
pub mod Payout
mod Tests
mod Waiting
pub mod Stages
pub mod Progressing
pub mod Timeout
pub mod Launch
pub mod Played
use zero_dao_node.Base.{
  ℕ, ◌+◌, ◌-◌, ◌/◌, Bool, true, false, not, ◌&&◌, Option, none, some, List, [], ◌∷◌, ltb, leb, ◌==◌,
  if◌then◌else◌, u32, u128, checked_add, checked_div, saturating_sub, wrapping_add,
}
use zero_dao_node.Base.StorageMap
use zero_dao_node.Base.StorageMap.{StorageMap}
use zero_dao_node.Base.DoubleMap
use zero_dao_node.Base.DoubleMap.{DoubleMap}
use zero_dao_node.Dispatch.{
  Result, ok, err, ◌>>=◌, ◌>>◌, ensure, ok_or, DispatchError, ChallengesError,
}
use zero_dao_node.External.{Perbill}
use zero_dao_node.Primitives.Fee.{checked_with_fee}
use zero_dao_node.Primitives.Metadata
use zero_dao_node.Primitives.Metadata.{
  Metadata, ChallengeStatus, status_eq, default_metadata, total_amount, is_all_done, check_progress,
  is_challenger, is_pathfinder, new_progress, set_status,
}
use zero_dao_node.Support.{MultiBaseToken}

-- `MAX_UPDATE_COUNT`
abbrev pub max_update_count : ℕ
max_update_count = 257

pub data Event : Type 0 where
  challenged : ℕ → ℕ → ℕ → ℕ → Event

-- `Metadatas`, `LastAt`, the events (the last one first), the current block and the world.
pub record State (W : Type 0) : Type 0 where
  pub metadatas : DoubleMap Metadata
  pub last_at : StorageMap ℕ
  pub events : List Event
  pub now : ℕ
  pub world : W

pub record Config (W : Type 0) : Type 0 where
  pub token : MultiBaseToken W
  pub perbill : Perbill
  pub challenge_timeout : ℕ
  pub challenge_staking_amount : ℕ

abbrev pub fails : ChallengesError → DispatchError
fails = DispatchError.challenges

-- Who of pathfinder and challenger gets how much of the awards, and the score to record: the match
-- on the status in `harvest`.
unfoldable pub shares_of : Metadata → ChallengeStatus → ℕ → ℕ × ℕ × Option ℕ
shares_of m ChallengeStatus.free awards = (awards, 0, none)
shares_of m ChallengeStatus.reply awards =
    if is_all_done m then (awards, 0, none) else (0, awards, none)
shares_of m ChallengeStatus.examine awards = (0, awards, some m.score)
shares_of m ChallengeStatus.evidence awards =
    if is_all_done m then (0, awards, some m.score) else (awards, 0, some m.score)
shares_of m ChallengeStatus.arbitral awards =
    if m.joint_benefits
    then (awards / 2, saturating_sub awards (awards / 2), none)
    else (awards, 0, some m.score)

-- `ValueQuery`: an entry that is not there is the default one.
abbrev pub or_default : Option Metadata → Metadata
or_default (some m) = m
or_default none = default_metadata

module _ {W : Type 0} where
  -- `Metadatas::try_get`
  abbrev pub metadata_of : ℕ → ℕ → State W → Option Metadata
  metadata_of app_id target s = DoubleMap.lookup app_id target s.metadatas

  abbrev pub get_metadata_exist : ℕ → ℕ → State W → Result Metadata
  get_metadata_exist app_id target s =
      ok_or (metadata_of app_id target s) (fails ChallengesError.non_existent)

  abbrev pub put_metadata : ℕ → ℕ → Metadata → State W → State W
  put_metadata app_id target m s = record s {
    metadatas = DoubleMap.insert app_id target m s.metadatas;
  }

  unfoldable pub remove : ℕ → ℕ → State W → State W
  remove app_id target s = record s { metadatas = DoubleMap.remove app_id target s.metadatas }

  unfoldable pub mutate_metadata :
      ℕ → ℕ → (Metadata → State W → Result (Metadata × State W)) → State W → Result (State W)
  mutate_metadata app_id target f s = do
    challenge ← get_metadata_exist app_id target s
    (challenge', s') ← f challenge s
    ok (put_metadata app_id target (record challenge' { last_update = s.now }) s')

  unfoldable pub after_upload : ℕ → State W → State W
  after_upload app_id s = record s { last_at = StorageMap.insert app_id s.now s.last_at }

  unfoldable pub set_metadata : ℕ → ℕ → Metadata → State W → State W
  set_metadata app_id target m s = put_metadata app_id target m s

  unfoldable pub is_all_harvest : ℕ → State W → Bool
  is_all_harvest app_id s = DoubleMap.is_empty_at app_id s.metadatas

  unfoldable pub set_status_of : ℕ → ℕ → ChallengeStatus → State W → State W
  set_status_of app_id target status s =
      put_metadata app_id target (set_status (or_default (metadata_of app_id target s)) status) s

module _ {W : Type 0} (cfg : Config W) where
  open cfg use {token, perbill, challenge_timeout, challenge_staking_amount}

  unfoldable pub staking : ℕ → ℕ → State W → Result (State W)
  staking who amount s = do w ← token.staking who amount s.world; ok (record s { world = w })

  unfoldable pub release : ℕ → ℕ → State W → Result (State W)
  release who amount s = do w ← token.release who amount s.world; ok (record s { world = w })

  abbrev pub is_challenge_timeout : ℕ → State W → Bool
  is_challenge_timeout last_update s = ltb (wrapping_add u32 challenge_timeout last_update) s.now

  unfoldable pub is_all_timeout : ℕ → ℕ → State W → Bool
  is_all_timeout app_id now s =
      ltb (wrapping_add u32 (StorageMap.get_or 0 app_id s.last_at) challenge_timeout) now

  -- The sweeper's fee and the awards.
  unfoldable pub checked_sweeper_fee : Metadata → ℕ → ℕ → State W → Result (ℕ × ℕ)
  checked_sweeper_fee challenge who total s =
      if not (challenge.challenger == who) && not (challenge.pathfinder == who)
      then ok_or (checked_with_fee perbill total challenge.last_update s.now)
          (fails ChallengesError.not_allowed_sweeper)
      else do
        ensure (is_challenge_timeout challenge.last_update s) (fails ChallengesError.too_soon)
        ok (0, total)

  unfoldable pub do_settle : Metadata → Bool → Bool → ℕ → State W → Result (Metadata × State W)
  do_settle challenge true true score s = do
    arbitral_fee ← ok_or (checked_div challenge.pool.staking 2) (fails ChallengesError.overflow)
    let charged = record challenge {
      pool = record {
        staking = challenge.pool.staking - arbitral_fee;
        earnings = challenge.pool.earnings;
      };
    }
    s' ← release charged.challenger arbitral_fee s
    ok (Metadata.restart charged false, s')
  do_settle challenge true false score s = ok (Metadata.restart challenge true, s)
  do_settle challenge false joint_benefits score s =
      ok (record challenge { joint_benefits = joint_benefits; score = score }, s)
