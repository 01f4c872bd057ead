-- ===== src/RefreshReputation.antt =====
-- pallets/refresh-reputation/src/lib.rs: pathfinders refresh the reputations of users against a fee,
-- and others challenge them by uploading the paths of trust. The storage stands beside the ledger
-- `T` of the tokens and the world `W` of the pallets of reputation, trust and seeds.
pub mod Uploads
pub mod Calls
pub mod Payrolls
pub mod Billing
pub mod Scores
pub mod Sweeping
pub mod Funds
pub mod Backing
pub mod Runs
mod Tests
mod Uploaded
use zero_dao_node.Base.{
  ℕ, ◌+◌, Bool, not, ◌&&◌, true, false, Option, none, some, List, [], ◌∷◌, length, ltb, leb, ◌==◌,
  if◌then◌else◌, u32, u128, checked_add, checked_sub, saturating_add, saturating_mul, wrapping_add,
}
use zero_dao_node.Base.StorageMap
use zero_dao_node.Base.StorageMap.{StorageMap}
use zero_dao_node.Base.DoubleMap
use zero_dao_node.Base.DoubleMap.{DoubleMap}
use zero_dao_node.Dispatch.{
  Result, ok, err, ◌>>=◌, ◌>>◌, ensure, ok_or, DispatchError, RefreshError,
}
use zero_dao_node.External.{Perbill}
use zero_dao_node.Primitives.{TirStep}
use zero_dao_node.Support.{MultiBaseToken, Reputation, TrustBase, SeedsBase, ChallengeBase}

-- `APP_ID`, the bytes of "repu    " as a number; `MAX_NODE_COUNT`; `MAX_REFRESH`
abbrev pub app_id : ℕ
app_id = 8_243_118_341_324_021_792

abbrev pub max_node_count : ℕ
max_node_count = 5

abbrev pub max_refresh : ℕ
max_refresh = 500

pub record Record : Type 0 where
  pub update_at : ℕ
  pub fee : ℕ

-- The earnings record of a pathfinder.
pub record Payroll : Type 0 where
  pub count : ℕ
  pub total_fee : ℕ
  pub update_at : ℕ

abbrev pub default_payroll : Payroll
default_payroll = record { count = 0; total_fee = 0; update_at = 0 }

-- `Path`: the nodes between the seed and the target, and the score that the seed gives.
pub record SeedPath : Type 0 where
  pub nodes : List ℕ
  pub score : ℕ

abbrev pub default_path : SeedPath
default_path = record { nodes = []; score = 0 }

unfoldable pub check_nodes_leng : SeedPath → Bool
check_nodes_leng path = leb (wrapping_add u32 (length path.nodes) 2) max_node_count

unfoldable pub exclude_zero : SeedPath → Bool
exclude_zero path = check_nodes_leng path && not (path.score == 0)

pub data Event : Type 0 where
  reputation_refreshed : ℕ → ℕ → ℕ → Event
  started : ℕ → Event
  refreshed_harvested : ℕ → ℕ → Event
  refreshed_harvested_by_sweeper : ℕ → ℕ → ℕ → ℕ → Event
  challenge_harvested challenge arbitral path_updated : ℕ → ℕ → Event

-- `StartedAt` (`none` where it does not exist), `Payrolls`, `Records`, `Paths`, the events (the last
-- one first) and the current block.
pub record State (T W : Type 0) : Type 0 where
  pub started_at : Option ℕ
  pub payrolls : StorageMap Payroll
  pub records : DoubleMap Record
  pub paths : DoubleMap SeedPath
  pub events : List Event
  pub now : ℕ
  pub ledger : T
  pub world : W

pub record Config (T W : Type 0) : Type 0 where
  pub token : MultiBaseToken T
  pub reputation : Reputation W
  pub trust_base : TrustBase W
  pub seeds_base : SeedsBase W
  pub challenge_base : ChallengeBase (State T W)
  pub perbill : Perbill
  pub max_update_count : ℕ
  pub update_staking_amount : ℕ
  pub confirmation_period : ℕ
  pub ref_repu_tiome_out : ℕ

abbrev pub fails : RefreshError → DispatchError
fails = DispatchError.refresh

-- `ValueQuery`: a path that is not there is the default one.
abbrev pub path_or_default : Option SeedPath → SeedPath
path_or_default (some path) = path
path_or_default none = default_path

module _ {T W : Type 0} where
  abbrev pub deposit_event : Event → State T W → State T W
  deposit_event e s = record s { events = e ∷ s.events }

  abbrev pub get_payroll : ℕ → State T W → Payroll
  get_payroll who s = StorageMap.get_or default_payroll who s.payrolls

  -- `Paths::get`
  abbrev pub get_path : ℕ → ℕ → State T W → SeedPath
  get_path seed target s = path_or_default (DoubleMap.lookup seed target s.paths)

  abbrev pub contains_key : ℕ → ℕ → State T W → Bool
  contains_key seed target s = elim (DoubleMap.lookup seed target s.paths) [
    | none ↦ false
    | some path ↦ true
  ]

  -- `StartedAt::exists` and `StartedAt::get`
  abbrev pub is_started : State T W → Bool
  is_started s = elim s.started_at [ none ↦ false | some at ↦ true ]

  abbrev pub start_or_zero : State T W → ℕ
  start_or_zero s = elim s.started_at [ none ↦ 0 | some at ↦ at ]

  unfoldable pub mutate_payroll : ℕ → ℕ → ℕ → ℕ → State T W → Result (State T W)
  mutate_payroll pathfinder amount count now s = do
    let f = get_payroll pathfinder s
    total_fee ← ok_or (checked_add u128 f.total_fee amount) (fails RefreshError.overflow)
    count ← ok_or (checked_add u32 f.count count) (fails RefreshError.overflow)
    let updated : Payroll = record { count = count; total_fee = total_fee; update_at = now }
    ok (record s { payrolls = StorageMap.insert pathfinder updated s.payrolls })

  unfoldable pub mutate_record : ℕ → ℕ → ℕ → ℕ → State T W → State T W
  mutate_record pathfinder who fee now s = record s {
    records = DoubleMap.insert pathfinder who (record { update_at = now; fee = fee }) s.records;
  }

module _ {T W : Type 0} (cfg : Config T W) where
  open cfg use {
    token, reputation, trust_base, challenge_base, update_staking_amount, confirmation_period,
    ref_repu_tiome_out,
  }

  -- `Payroll::total_amount`: the stakes and the fees.
  unfoldable pub payroll_amount : Payroll → ℕ
  payroll_amount payroll =
      saturating_add u128 (saturating_mul u128 update_staking_amount payroll.count)
        payroll.total_fee

  unfoldable pub check_step : State T W → Result (Unit {0})
  check_step s =
      ensure (reputation.is_step TirStep.reputation s.world) (fails RefreshError.status_err)

  unfoldable pub next_step : State T W → State T W
  next_step s =
      let last = reputation.get_last_refresh_at s.world in
      let is_last_ref_timeout = ltb (wrapping_add u32 last confirmation_period) s.now in
      let is_cha_all_timeout = challenge_base.is_all_timeout app_id s.now s in
      if is_started s && is_last_ref_timeout && is_cha_all_timeout
      then record s {
        world = reputation.set_free (trust_base.remove_all_tmp s.world);
        started_at = none;
      }
      else s

  unfoldable pub share : ℕ → State T W → State T W × ℕ
  share user s =
      let (ledger, fee) = token.share user (trust_base.get_trust_old user s.world) s.ledger in
      (record s { ledger = ledger }, fee)

  unfoldable pub do_refresh : ℕ → ℕ × ℕ → ℕ → State T W → Result (State T W × ℕ)
  do_refresh pathfinder user_score update_at s = do
    world ← reputation.refresh_reputation user_score s.world
    let (shared, fee) = share user_score.0 (record s { world = world })
    ok (mutate_record pathfinder user_score.0 fee update_at shared, fee)

  unfoldable pub check_step_and_stared : State T W → Result (Unit {0})
  check_step_and_stared s = do
    check_step s
    ensure (is_started s) (fails RefreshError.not_yet_started)

  unfoldable pub check_step_and_not_stared : State T W → Result (Unit {0})
  check_step_and_not_stared s = do
    check_step s
    ensure (not (is_started s)) (fails RefreshError.already_started)

  unfoldable pub can_harvest : Payroll → ℕ → Result (Unit {0})
  can_harvest payroll now =
      ensure (ltb (wrapping_add u32 payroll.update_at confirmation_period) now)
        (fails RefreshError.excessive_bumber_of_seeds)

  unfoldable pub check_timeout : ℕ → State T W → Result (Unit {0})
  check_timeout now s =
      ensure (ltb now (wrapping_add u32 (start_or_zero s) ref_repu_tiome_out))
        (fails RefreshError.refresh_tiome_out)
