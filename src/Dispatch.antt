-- ===== src/Dispatch.antt =====
-- The result of a dispatchable or of a trait method: the `Error` enums of the pallets under
-- pallets/*/src/lib.rs, `DispatchError`, and `Result` with the two ways to chain it (`?` and
-- `ensure!`). Under `#[transactional]` a call that returns `Err` leaves the storage as it was, so
-- `err` carries no state.
use zero_dao_node.Base.{arith, ◌≡◌, refl, ◌⊎◌, inl, inr, Bool, true, false, Option, none, some}

-- pallets/tokens/src/lib.rs
pub data TokensError : Type 0 where
  overflow bonus_too_low staking_amount_too_low : TokensError

-- pallets/reputation/src/lib.rs
pub data ReputationError : Type 0 where
  interval_is_too_short already_in_updating unable_to_set_period : ReputationError
  reputation_already_updated challenge_not_over_yet too_short_an_interval : ReputationError

-- pallets/seeds/src/lib.rs
pub data SeedsError : Type 0 where
  already_seed_user not_seed_user status_err overflow : SeedsError

-- pallets/trust/src/lib.rs
pub data TrustError : Type 0 where
  unable_trust_yourself repeat_trust unable_untrust_yourself non_existent : TrustError
  wrong_path not_seed too_much_trust : TrustError

-- pallets/challenges/src/lib.rs
pub data ChallengesError : Type 0 where
  no_permission not_match overflow no_challenge_allowed reputation_error too_soon : ChallengesError
  err_progress non_existent too_many progress_err status_err not_allowed_sweeper : ChallengesError

-- pallets/refresh-reputation/src/lib.rs
pub data RefreshError : Type 0 where
  quantity_limit_reached error_fee challenge_timeout overflow failed_sweeper : RefreshError
  challenge_not_claimed excessive_bumber_of_seeds reputation_error path_already_exist : RefreshError
  wrong_path dist_err dist_too_long not_match status_err not_yet_started : RefreshError
  already_started same_reputation refresh_tiome_out score_too_low exceed_max_refresh : RefreshError

-- pallets/refresh-seeds/src/lib.rs
pub data RefreshSeedsError : Type 0 where
  already_exist no_candidate_exists not_exist depth_limit_exceeded overflow : RefreshSeedsError
  index_exceeds_maximum quantity_exceeds_limit already_exists non_existent : RefreshSeedsError
  no_path not_match path_too_long exceeded_length_limit : RefreshSeedsError
  depth_does_not_match length_not_equal path_index_error too_few_in_number : RefreshSeedsError
  wrong_path_length still_unharvested_challenges score_list_empty step_not_match : RefreshSeedsError
  path_does_not_exist path_too_short order_not_match conver_error data_empty : RefreshSeedsError
  data_duplication length_too_long hash_mismatch score_mismatch : RefreshSeedsError
  result_hash_not_exit still_unconfirmed sweeprt_fail seed_already_confirmed : RefreshSeedsError
  no_target_node maximum_depth missed_paths_not_exist path_uploaded : RefreshSeedsError
  no_path_exists candidate_not_exist : RefreshSeedsError

-- `currency` and `bad_origin` are errors of code outside this repository; `panic` stands for a
-- Rust panic (an index out of range), after which the call changes nothing either.
pub data DispatchError : Type 0 where
  tokens : TokensError → DispatchError
  reputation : ReputationError → DispatchError
  seeds : SeedsError → DispatchError
  trust : TrustError → DispatchError
  challenges : ChallengesError → DispatchError
  refresh : RefreshError → DispatchError
  refresh_seeds : RefreshSeedsError → DispatchError
  currency bad_origin panic : DispatchError

pub data Result (A : Type 0) : Type 0 where
  ok : A → Result A
  err : DispatchError → Result A

-- `ensure!` and `ok_or`, then `?`.
abbrev pub ensure : Bool → DispatchError → Result (Unit {0})
ensure holds e = elim holds [ true ↦ ok tt | false ↦ err e ]

abbrev pub ok_or : {A : Type 0} → Option A → DispatchError → Result A
ok_or o e = elim o [ none ↦ err e | some a ↦ ok a ]

module _ {A B : Type 0} where
  infixl 5 ◌>>=◌
  abbrev pub ◌>>=◌ : Result A → (A → Result B) → Result B
  m >>= next = elim m [ ok a ↦ next a | err e ↦ err e ]

module _ {B : Type 0} where
  infixl 5 ◌>>◌
  abbrev pub ◌>>◌ : Result (Unit {0}) → Result B → Result B
  m >> rest = m >>= (λ _. rest)

-- To split on the outcome of a call and keep the equation.
pub Result-cases :
    {A : Type 0} (r : Result A) → ((a : A) × (r ≡ ok a)) ⊎ ((e : DispatchError) × (r ≡ err e))
Result-cases (ok a) = inl (a, refl)
Result-cases (err e) = inr (e, refl)

module _ {A B : Type 0} where
  -- What a successful chain has gone through.
  pub >>=-eq-ok :
      (r : Result A) (rest : A → Result B) {out : B}
      → (r >>= rest) ≡ ok out
      → (mid : A) × (r ≡ ok mid) × (rest mid ≡ ok out)
  >>=-eq-ok r rest e = elim (Result-cases r) [
    | inl (mid, done) ↦ (mid, done, ground arith)
    | inr (x, failed) ↦ absurd (ground arith)
  ]
