-- ===== src/Reputation.antt =====
-- pallets/reputation/src/lib.rs: the rounds of the reputation system, and the last two reputations
-- of each account.
pub mod Rounds
pub mod Visible
mod Tests
use zero_dao_node.Base.{
  ℕ, ◌+◌, ◌-◌, ◌%◌, ◌≡◌, Bool, not, Option, none, some, List, ◌∷◌, ltb, leb, ◌==◌, if◌then◌else◌,
  u32, wrapping_add, wrapping_sub,
}
use zero_dao_node.Base.StorageMap.{StorageMap, get_or, insert}
use zero_dao_node.Dispatch.{Result, ok, ◌>>=◌, ◌>>◌, ensure, DispatchError, ReputationError}
use zero_dao_node.Primitives.{TirStep, step_eq}
use zero_dao_node.Support.{Reputation}

-- The state of the entire reputation system.
pub record OperationStatus : Type 0 where
  pub nonce : ℕ
  pub last : ℕ
  pub next : ℕ
  pub period : ℕ
  pub step : TirStep

-- User reputation value, updated in the round `nonce`.
pub record ReputationScore : Type 0 where
  pub score : ℕ
  pub nonce : ℕ

-- `[ReputationScore; 2]`: the index 0, then the index 1.
pub record Scores : Type 0 where
  pub first : ReputationScore
  pub second : ReputationScore

abbrev pub default_score : ReputationScore
default_score = record { score = 0; nonce = 0 }

abbrev pub default_scores : Scores
default_scores = record { first = default_score; second = default_score }

pub data Event : Type 0 where
  updated_period : ℕ → Event

-- `SystemInfo`, `ReputationScores`, the events (the last one first) and the current block.
pub record State : Type 0 where
  pub system_info : OperationStatus
  pub reputation_scores : StorageMap Scores
  pub events : List Event
  pub now : ℕ

abbrev pub fails : ReputationError → DispatchError
fails = DispatchError.reputation

abbrev pub get_ir : ℕ → State → Scores
get_ir who s = get_or default_scores who s.reputation_scores

unfoldable pub set_last_refresh : ℕ → State → State
set_last_refresh now s = record s { system_info = record (s.system_info) { last = now } }

unfoldable pub do_set_period : ℕ → State → Result State
do_set_period period s = do
  ensure (step_eq s.system_info.step TirStep.free) (fails ReputationError.unable_to_set_period)
  ok (record s { system_info = record (s.system_info) { period = period } })

-- The dispatchable function; `origin` is the outcome of `ensure_root`.
unfoldable pub set_period : Result (Unit {0}) → ℕ → State → Result State
set_period origin period s = do
  origin
  s' ← do_set_period period s
  ok (record s' { events = Event.updated_period period ∷ s'.events })

unfoldable pub mutate_reputation : ℕ → ℕ → State → State
mutate_reputation target ir s =
    let x = get_ir target s in
    record s {
      reputation_scores =
          insert target (record x { first = record (x.first) { score = ir } }) s.reputation_scores;
    }

unfoldable pub set_step : TirStep → State → State
set_step step s = record s { system_info = record (s.system_info) { step = step } }

unfoldable pub is_step : TirStep → State → Bool
is_step step s = step_eq step s.system_info.step

unfoldable pub new_round : State → Result State
new_round s = do
  let status = s.system_info
  ensure (step_eq status.step TirStep.free) (fails ReputationError.already_in_updating)
  ensure (leb status.next s.now) (fails ReputationError.interval_is_too_short)
  ok (record s {
    system_info = record {
      nonce = wrapping_add u32 status.nonce 1;
      last = s.now;
      next = wrapping_add u32 s.now status.period;
      period = status.period;
      step = TirStep.seed;
    };
  })

unfoldable pub get_reputation_new : ℕ → State → Option ℕ
get_reputation_new target s =
    let irs = get_ir target s in
    if irs.first.nonce == s.system_info.nonce
    then some irs.first.score
    else if irs.second.nonce == s.system_info.nonce
    then some irs.second.score
    else none

unfoldable pub get_reputation : ℕ → State → Option ℕ
get_reputation target s =
    let irs = get_ir target s in
    let nonce = s.system_info.nonce in
    if step_eq s.system_info.step TirStep.free
    then (if irs.first.nonce == nonce then some irs.first.score else none)
    else if irs.first.nonce == wrapping_sub u32 nonce 1
    then some irs.first.score
    else if irs.second.nonce == wrapping_sub u32 nonce 1
    then some irs.second.score
    else none

unfoldable pub refresh_reputation : ℕ × ℕ → State → Result State
refresh_reputation (who, score) s = do
  let nonce = s.system_info.nonce
  let old = get_ir who s
  ensure (ltb old.first.nonce nonce) (fails ReputationError.reputation_already_updated)
  let refreshed : Scores = record {
    first = record { score = score; nonce = nonce };
    second = old.first;
  }
  ok (record s { reputation_scores = insert who refreshed s.reputation_scores })

abbrev pub get_last_refresh_at : State → ℕ
get_last_refresh_at s = s.system_info.last

unfoldable pub set_last_refresh_at : State → State
set_last_refresh_at s = set_last_refresh s.now s

unfoldable pub set_free : State → State
set_free s =
    if step_eq s.system_info.step TirStep.free
    then s
    else record s { system_info = record (s.system_info) { last = s.now; step = TirStep.free } }

-- The pallet fills the trait by which the others see it.
abbrev pub zd_reputation : Reputation State
zd_reputation = record {
  mutate_reputation = mutate_reputation;
  set_step = set_step;
  is_step = is_step;
  get_reputation_new = get_reputation_new;
  get_reputation = get_reputation;
  refresh_reputation = refresh_reputation;
  get_last_refresh_at = get_last_refresh_at;
  set_last_refresh_at = set_last_refresh_at;
  set_free = set_free;
  new_round = new_round;
}
