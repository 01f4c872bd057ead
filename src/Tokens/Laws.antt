-- ===== src/Tokens/Laws.antt =====
-- pallets/tokens/src/lib.rs: what the operations do to the accounts they name, and how they fail.
use zero_dao_node.Base.{
  ◌<◌, ℕ, ◌+◌, ◌*◌, ◌≤◌, ◌≡◌, refl, ◌≢◌, inl, inr, List, arith, ◌==◌, if◌then◌else◌, saturating_add,
  u128,
}
use zero_dao_node.Base.StorageMap.{get_or-insert}
use zero_dao_node.Dispatch.{ok, >>=-eq-ok, Result-cases}
use zero_dao_node.Primitives.Fee.{mul_floor_percent, pre_reserved}
use zero_dao_node.Support.{MultiBaseToken}
use zero_dao_node.Tokens.{
  cut_bonus, try_cut_bonus, get_bonus_amount, Config, TokensState, SocialAccount, default_account,
  account_of, free_balance, pay_with_pending, set_social_balance, transfer_social, staking, release,
  share, share_and_reserv, do_staking, add_bonus, claim,
}
use zero_dao_node.Tokens.Flow.{pool_funds, pay_with_pending_totals, pay_with_pending_socials}

module _ {Q : Type 0} (cfg : Config Q) where
  open cfg use {multi_currency, social_pool, perbill}

  -- A successful transfer raises the social balance of `to` by the amount and changes no other
  -- social balance, no pending balance but that of `from`, and neither the staked total nor the
  -- bonus.
  pub transfer_social_lem :
      (from to amount : ℕ) (s s' : TokensState Q)
      → transfer_social cfg from to amount s ≡ ok s'
      → (who : ℕ)
      → ((account_of who s').social
          ≡ (if who == to then (account_of to s).social + amount else (account_of who s).social))
        × ((account_of who s').pending
            ≡ (if who == from then (account_of from s').pending else (account_of who s).pending))
        × (s'.total_staking ≡ s.total_staking)
        × (s'.bonus ≡ s.bonus)
  unfolding transfer_social set_social_balance
  transfer_social_lem from to amount s s' e who =
      elim (Result-cases (pay_with_pending cfg from amount s)) [
        | inl (p, paid) ↦
            let credited = record (account_of to p) {
              social = (account_of to s).social + amount;
            } in
            ground (
              arith,
              pay_with_pending_socials cfg from amount s p paid who,
              pay_with_pending_socials cfg from amount s p paid to,
              pay_with_pending_socials cfg from amount s p paid from,
              pay_with_pending_totals cfg from amount s p paid,
              get_or-insert default_account who to credited p.accounts,
              get_or-insert default_account from to credited p.accounts,
            )
        | inr (x, failed) ↦ ground arith
      ]

  -- A successful release lowers the staked total and the pool's free balance by the amount and
  -- raises the receiver's free balance by it; the social accounts and the bonus stay.
  pub release_lem :
      (who amount : ℕ) (s s' : TokensState Q)
      → who ≢ social_pool
      → release cfg who amount s ≡ ok s'
      → (s'.total_staking + amount ≡ s.total_staking)
        × (free_balance cfg who s' ≡ free_balance cfg who s + amount)
        × (pool_funds cfg s' + amount ≡ pool_funds cfg s)
        × (s'.accounts ≡ s.accounts)
        × (s'.bonus ≡ s.bonus)
  unfolding release
  release_lem who amount s s' h e =
      elim (Result-cases (multi_currency.transfer social_pool who amount s.currency)) [
        | inl (q, sent) ↦ ground (
          arith,
          multi_currency.transfer_from social_pool who amount s.currency q,
          multi_currency.transfer_to social_pool who amount s.currency q,
        )
        | inr (x, failed) ↦ ground arith
      ]

  -- A successful claim pays the whole pending balance out of the pool account to the caller and
  -- leaves no pending balance; the caller's social balance, every other account, the staked total
  -- and the bonus stay as they are.
  pub claim_lem :
      (who other : ℕ) (s s' : TokensState Q)
      → who ≢ social_pool
      → claim cfg who s ≡ ok s'
      → (account_of other s' ≡ (
          if other == who
          then record { pending = 0; social = (account_of who s).social }
          else account_of other s))
        × (free_balance cfg who s' ≡ free_balance cfg who s + (account_of who s).pending)
        × (pool_funds cfg s' + (account_of who s).pending ≡ pool_funds cfg s)
        × (s'.total_staking ≡ s.total_staking)
        × (s'.bonus ≡ s.bonus)
  unfolding claim
  claim_lem who other s s' h e =
      let a = account_of who s in
      let paid : SocialAccount = record { pending = 0; social = a.social } in
      elim (Result-cases (multi_currency.transfer social_pool who a.pending s.currency)) [
        | inl (q, sent) ↦ ground (
          arith,
          multi_currency.transfer_from social_pool who a.pending s.currency q,
          multi_currency.transfer_to social_pool who a.pending s.currency q,
          get_or-insert default_account other who paid s.accounts,
        )
        | inr (x, failed) ↦ ground arith
      ]

  share_and_reserv_pending :
      (from : ℕ) (ts : List ℕ) (t r : ℕ) (s : TokensState Q)
      → (account_of from (share_and_reserv from ts t r s)).pending ≡ r
  unfolding share_and_reserv
  share_and_reserv_pending from ts t r s = grind (arith, get_or-insert)

  -- Sharing sets the owner's pending balance to the reserved share of the social balance, whatever
  -- was pending before, and the reserve is at most a tenth of the social balance.
  pub share_pending :
      (who : ℕ) (ts : List ℕ) (s : TokensState Q)
      → ((account_of who (share cfg who ts s).0).pending
          ≡ perbill.mul_floor (pre_reserved perbill) (account_of who s).social)
        × ((account_of who (share cfg who ts s).0).pending * 10 ≤ (account_of who s).social)
  unfolding share do_staking add_bonus
  share_pending who ts s =
      let tenth = perbill.mul_floor (perbill.from_percent 10) (account_of who s).social in
      let burnt = record s { currency = multi_currency.slash social_pool tenth s.currency } in
      let kept = share_and_reserv_pending who ts tenth tenth burnt in
      (kept, omega (arith, kept, mul_floor_percent perbill 10 (account_of who s).social))

  -- Sharing out a social balance puts at least six tenths of it in the bonus and stakes the fee alone,
  -- where the staked total and the bonus do not saturate: the bonus is not among the staked funds.
  pub share_bonus :
      (who : ℕ) (ts : List ℕ) (s : TokensState Q)
      → s.total_staking + (account_of who s).social < u128
      → s.bonus + (account_of who s).social < u128
      → let shared = share cfg who ts s in
        (shared.0.total_staking ≡ s.total_staking + shared.1)
        × (shared.1 * 10 ≤ (account_of who s).social)
        × (s.bonus * 10 + (account_of who s).social * 6 ≤ shared.0.bonus * 10)
  unfolding share share_and_reserv do_staking add_bonus
  share_bonus who ts s room room' =
      let tenth = mul_floor_percent perbill 10 (account_of who s).social (omega arith) in
      (ground (arith, tenth), ground (arith, tenth), ground (arith, tenth))

  pub staked-release :
      (who amount : ℕ) (s s' : TokensState Q)
      → release cfg who amount s ≡ ok s'
      → s'.total_staking + amount ≡ s.total_staking
  unfolding release
  staked-release who amount s s' e =
      elim (Result-cases (multi_currency.transfer social_pool who amount s.currency)) [
        | inl (q, sent) ↦ ground arith
        | inr (x, failed) ↦ ground arith
      ]

  pub staked-share :
      (who : ℕ) (ts : List ℕ) (s : TokensState Q)
      → (share cfg who ts s).0.total_staking
        ≡ saturating_add u128 s.total_staking (share cfg who ts s).1
  unfolding share share_and_reserv do_staking add_bonus
  staked-share who ts s = refl

  pub staked-staking :
      (who amount : ℕ) (s s' : TokensState Q)
      → staking cfg who amount s ≡ ok s'
      → s'.total_staking ≡ saturating_add u128 s.total_staking amount
  unfolding staking do_staking
  staked-staking who amount s s' e =
      let paid = >>=-eq-ok (pay_with_pending cfg who amount s) (λ p. ok (do_staking amount p)) e in
      ground (arith, paid.2, pay_with_pending_totals cfg who amount s paid.0 paid.1)

  pub staked-cut_bonus :
      (amount : ℕ) (s s' : TokensState Q)
      → cut_bonus cfg amount s ≡ ok s'
      → (s'.total_staking ≡ s.total_staking) × (s'.bonus + amount ≡ s.bonus)
  unfolding cut_bonus try_cut_bonus
  staked-cut_bonus amount s s' e = (ground arith, ground arith)

  pub bonus-staking :
      (who amount : ℕ) (s s' : TokensState Q)
      → staking cfg who amount s ≡ ok s'
      → s'.bonus ≡ s.bonus
  unfolding staking do_staking
  bonus-staking who amount s s' e =
      let paid = >>=-eq-ok (pay_with_pending cfg who amount s) (λ p. ok (do_staking amount p)) e in
      ground (arith, paid.2, pay_with_pending_totals cfg who amount s paid.0 paid.1)

  pub bonus-release :
      (who amount : ℕ) (s s' : TokensState Q)
      → release cfg who amount s ≡ ok s'
      → s'.bonus ≡ s.bonus
  unfolding release
  bonus-release who amount s s' e =
      elim (Result-cases (multi_currency.transfer social_pool who amount s.currency)) [
        | inl (q, sent) ↦ ground arith
        | inr (x, failed) ↦ ground arith
      ]

  -- The pallet fills the trait by which the others see it.
  abbrev pub zd_tokens : MultiBaseToken (TokensState Q)
  zd_tokens = record {
    staking = staking cfg;
    release = release cfg;
    share = share cfg;
    get_bonus_amount = get_bonus_amount cfg;
    cut_bonus = cut_bonus cfg;
    staked = λ s. s.total_staking;
    staked-release = staked-release;
    staked-staking = staked-staking;
    staked-share = staked-share;
    staked-cut_bonus = staked-cut_bonus;
    bonus-staking = bonus-staking;
    bonus-release = bonus-release;
  }
