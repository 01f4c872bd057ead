-- ===== src/Tokens.antt =====
-- pallets/tokens/src/lib.rs: social accounts, staking and the bonus, kept in one pool account of
-- the underlying currency. The storage is `TokensState`; a method takes it and returns the new one.
pub mod Calls
pub mod Flow
pub mod Laws
pub mod Solvency
mod Tests
use zero_dao_node.Base.{
  ℕ, ◌+◌, ◌-◌, ◌/◌, ◌%◌, Bool, not, ◌&&◌, Option, none, some, List, [], ◌∷◌, ltb, leb, ◌==◌,
  if◌then◌else◌, u32, u128, checked_add, checked_sub, saturating_add, saturating_sub,
  saturating_mul, length,
}
use zero_dao_node.Base.StorageMap.{StorageMap, get_or, insert}
use zero_dao_node.Dispatch.{Result, ok, err, ◌>>=◌, ok_or, DispatchError, TokensError}
use zero_dao_node.External.{Perbill, MultiCurrency}
use zero_dao_node.Primitives.{min_trust_count}
use zero_dao_node.Primitives.Fee.{pre_share, pre_reserved, pre_burn, pre_fee}

-- Balance information for an account.
pub record SocialAccount : Type 0 where
  pub pending : ℕ
  pub social : ℕ

abbrev pub default_account : SocialAccount
default_account = record { pending = 0; social = 0 }

-- The total balance in this account.
abbrev pub total : SocialAccount → ℕ
total a = saturating_add u128 a.pending a.social

pub data Event : Type 0 where
  transferred_social : ℕ → ℕ → ℕ → Event
  claimed : ℕ → Event

-- The storage: that of the currency, `Bonus`, `Accounts`, `TotalStaking`, and the events deposited
-- so far, the last one first.
pub record TokensState (Q : Type 0) : Type 0 where
  pub currency : Q
  pub bonus : ℕ
  pub accounts : StorageMap SocialAccount
  pub total_staking : ℕ
  pub events : List Event

-- `Config`: the currency at `BaceToken`, and the account of the pool.
pub record Config (Q : Type 0) : Type 0 where
  pub perbill : Perbill
  pub multi_currency : MultiCurrency Q
  pub social_pool : ℕ

abbrev tokens_err : TokensError → DispatchError
tokens_err = DispatchError.tokens

-- The loop of `share_and_reserv`: every trustee gets the share.
pub share_to : ℕ → List ℕ → StorageMap SocialAccount → StorageMap SocialAccount
share_to amount [] m = m
share_to amount (t ∷ ts) m =
    let a = get_or default_account t m in
    share_to amount ts (insert t (record a { social = saturating_add u128 a.social amount }) m)

-- `checked_div` of the amount by the number of trustees, at least `min_trust_count`; that number
-- is cast to `u32`.
abbrev pub share_amount : List ℕ → ℕ → Option ℕ
share_amount trustees amount =
    let count = length trustees % u32 in
    let divisor = if ltb count min_trust_count then min_trust_count else count in
    if divisor == 0 then none else some (amount / divisor)

abbrev is_empty : List ℕ → Bool
is_empty [] = Bool.true
is_empty (t ∷ ts) = Bool.false

abbrev pub split_share :
    List ℕ → ℕ → Option ℕ → StorageMap SocialAccount → StorageMap SocialAccount × ℕ
split_share trustees amount (some share) m =
    (share_to share trustees m, saturating_sub amount (saturating_mul u128 share (length trustees)))
split_share trustees amount none m = (m, amount)

module _ {Q : Type 0} where
  -- `Accounts::get`
  abbrev pub account_of : ℕ → TokensState Q → SocialAccount
  account_of who s = get_or default_account who s.accounts

  unfoldable pub set_social_balance : ℕ → ℕ → TokensState Q → TokensState Q
  set_social_balance who amount s = record s {
    accounts = insert who (record (account_of who s) { social = amount }) s.accounts;
  }

  unfoldable pub set_pending_balance : ℕ → ℕ → TokensState Q → TokensState Q
  set_pending_balance who amount s = record s {
    accounts = insert who (record (account_of who s) { pending = amount }) s.accounts;
  }

  unfoldable pub do_staking : ℕ → TokensState Q → TokensState Q
  do_staking amount s = record s { total_staking = saturating_add u128 s.total_staking amount }

  unfoldable pub add_bonus : ℕ → TokensState Q → TokensState Q
  add_bonus amount s = record s { bonus = saturating_add u128 s.bonus amount }

  unfoldable pub try_add_bonus : ℕ → TokensState Q → Result (TokensState Q)
  try_add_bonus amount s = do
    b ← ok_or (checked_add u128 s.bonus amount) (tokens_err TokensError.overflow)
    ok (record s { bonus = b })

  unfoldable pub try_cut_bonus : ℕ → TokensState Q → Result (TokensState Q)
  try_cut_bonus amount s = do
    b ← ok_or (checked_sub s.bonus amount) (tokens_err TokensError.bonus_too_low)
    ok (record s { bonus = b })

  unfoldable pub share_and_reserv : ℕ → List ℕ → ℕ → ℕ → TokensState Q → TokensState Q
  share_and_reserv from trustees total_share_amount reserved_amount s =
      let (m, remaining_share) =
        if not (is_empty trustees) && not (total_share_amount == 0)
        then split_share trustees total_share_amount (share_amount trustees total_share_amount)
            s.accounts
        else (s.accounts, 0) in
      record s {
        accounts = insert from (record { pending = reserved_amount; social = remaining_share }) m;
      }

-- `impl MultiBaseToken for Pallet`.
module _ {Q : Type 0} (cfg : Config Q) where
  open cfg use {multi_currency, social_pool}

  abbrev pub get_bonus_amount : TokensState Q → ℕ
  get_bonus_amount s = s.bonus

  abbrev pub free_balance : ℕ → TokensState Q → ℕ
  free_balance who s = multi_currency.free_balance who s.currency

  abbrev pub actual_balance : ℕ → TokensState Q → ℕ
  actual_balance who s = saturating_add u128 (free_balance who s) (total (account_of who s))

  abbrev pub pending_balance : ℕ → TokensState Q → ℕ
  pending_balance who s = (account_of who s).pending

  abbrev pub social_balance : ℕ → TokensState Q → ℕ
  social_balance who s = (account_of who s).social

  unfoldable pub pay_with_pending : ℕ → ℕ → TokensState Q → Result (TokensState Q)
  pay_with_pending from amount s =
      let pending = pending_balance from s in
      if leb amount pending then ok (set_pending_balance from (pending - amount) s) else do
        q ← multi_currency.transfer from social_pool (amount - pending) s.currency
        ok (set_pending_balance from 0 (record s { currency = q }))

  unfoldable pub transfer_social : ℕ → ℕ → ℕ → TokensState Q → Result (TokensState Q)
  transfer_social from to amount s = do
    to_social_balance ←
        ok_or (checked_add u128 (social_balance to s) amount) (tokens_err TokensError.overflow)
    s' ← pay_with_pending from amount s
    ok (set_social_balance to to_social_balance s')

  unfoldable pub staking : ℕ → ℕ → TokensState Q → Result (TokensState Q)
  staking who amount s = do s' ← pay_with_pending who amount s; ok (do_staking amount s')

  unfoldable pub release : ℕ → ℕ → TokensState Q → Result (TokensState Q)
  release who amount s = do
    total_staking ←
        ok_or (checked_sub s.total_staking amount) (tokens_err TokensError.staking_amount_too_low)
    q ← multi_currency.transfer social_pool who amount s.currency
    ok (record s { currency = q; total_staking = total_staking })

  unfoldable pub share : ℕ → List ℕ → TokensState Q → TokensState Q × ℕ
  share who targets s =
      let pb = cfg.perbill in
      let social = social_balance who s in
      let total_share_amount = pb.mul_floor (pre_share pb) social in
      let reserved_amount = pb.mul_floor (pre_reserved pb) social in
      let burn_amount = pb.mul_floor (pre_burn pb) social in
      let fee_amount = pb.mul_floor (pre_fee pb) social in
      let pre_reward =
        saturating_sub
          (saturating_sub
            (saturating_sub (saturating_sub social total_share_amount) reserved_amount) burn_amount)
          fee_amount in
      let slashed = record s {
        currency = multi_currency.slash social_pool burn_amount s.currency;
      } in
      let shared = share_and_reserv who targets total_share_amount reserved_amount slashed in
      (add_bonus pre_reward (do_staking fee_amount shared), fee_amount)

  unfoldable pub increase_bonus : ℕ → ℕ → TokensState Q → Result (TokensState Q)
  increase_bonus who amount s = do s' ← staking who amount s; try_add_bonus amount s'

  unfoldable pub cut_bonus : ℕ → TokensState Q → Result (TokensState Q)
  cut_bonus amount s = try_cut_bonus amount s

  unfoldable pub claim : ℕ → TokensState Q → Result (TokensState Q)
  claim who s = do
    let account = account_of who s
    q ← multi_currency.transfer social_pool who account.pending s.currency
    ok (record s {
      currency = q;
      accounts = insert who (record account { pending = 0 }) s.accounts;
    })
