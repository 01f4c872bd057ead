-- ===== src/Tokens/Flow.antt =====
-- pallets/tokens/src/lib.rs: what each operation moves between the accounts, the staked total and
-- the free balance of the pool account. `held` is what the pool owes to the social accounts.
use zero_dao_node.Base.{
  ℕ, ◌+◌, ◌-◌, ◌*◌, ◌≤◌, ◌<◌, ◌≡◌, refl, ◌≢◌, inl, inr, Bool-cases, List, [], ◌∷◌, arith, leb,
  saturating_add, saturating_add-le, u128, length,
}
use zero_dao_node.Base.StorageMap.{
  StorageMap, get_or, insert, sum_by, sum_by-insert, get_or-insert, get_or-le-sum_by,
}
use zero_dao_node.Dispatch.{ok, >>=-eq-ok, Result-cases}
use zero_dao_node.Tokens.{
  Config, TokensState, SocialAccount, default_account, account_of, free_balance, pay_with_pending,
  set_pending_balance, share_to,
}

abbrev pub funds : SocialAccount → ℕ
funds a = a.pending + a.social

abbrev pub held : StorageMap SocialAccount → ℕ
held = sum_by funds

pub held-insert :
    (who : ℕ) (a : SocialAccount) (m : StorageMap SocialAccount)
    → held (insert who a m) + funds (get_or default_account who m) ≡ held m + funds a
held-insert who a m = sum_by-insert funds default_account who a m refl

pub funds-le-held :
    (who : ℕ) (m : StorageMap SocialAccount) → funds (get_or default_account who m) ≤ held m
funds-le-held who m = get_or-le-sum_by funds default_account who m refl

module _ {Q : Type 0} (cfg : Config Q) where
  open cfg use {multi_currency, social_pool}

  -- The free balance of the pool account.
  abbrev pub pool_funds : TokensState Q → ℕ
  pool_funds s = free_balance cfg social_pool s

  -- A payment of `amount` is made up of what the payer's account loses and what the pool gains.
  pub pay_with_pending_flow :
      (from amount : ℕ) (s s' : TokensState Q)
      → from ≢ social_pool
      → pay_with_pending cfg from amount s ≡ ok s'
      → (pool_funds s' + held s.accounts ≡ pool_funds s + held s'.accounts + amount)
        × (s'.total_staking ≡ s.total_staking)
        × (s'.bonus ≡ s.bonus)
  unfolding pay_with_pending set_pending_balance
  pay_with_pending_flow from amount s s' h e =
      let old = account_of from s in
      elim (Bool-cases (leb amount old.pending)) [
        | inl covered ↦ ground (
          arith,
          held-insert from (record { pending = old.pending - amount; social = old.social })
              s.accounts,
        )
        | inr short ↦
            let pay =
              >>=-eq-ok (multi_currency.transfer from social_pool (amount - old.pending) s.currency)
                (λ q. ok (set_pending_balance from 0 (record s { currency = q })))
                (rw short at e) in
            ground (
              arith,
              pay.2,
              held-insert from (record { pending = 0; social = old.social }) s.accounts,
              multi_currency.transfer_to from social_pool (amount - old.pending) s.currency pay.0 h
                  pay.1,
            )
      ]

  -- A payment changes no social balance, and no account but the payer's.
  pub pay_with_pending_socials :
      (from amount : ℕ) (s s' : TokensState Q)
      → pay_with_pending cfg from amount s ≡ ok s'
      → (who : ℕ)
      → ((account_of who s').social ≡ (account_of who s).social)
        × (who ≢ from → account_of who s' ≡ account_of who s)
  unfolding pay_with_pending set_pending_balance
  pay_with_pending_socials from amount s s' e who =
      let old = account_of from s in
      elim (Result-cases
        (multi_currency.transfer from social_pool (amount - old.pending) s.currency)) [
          | inl (q, sent) ↦ ground (
            arith,
            get_or-insert default_account who from
                (record { pending = old.pending - amount; social = old.social }) s.accounts,
            get_or-insert default_account who from (record { pending = 0; social = old.social })
                s.accounts,
          )
          | inr (x, failed) ↦ ground (
            arith,
            get_or-insert default_account who from
                (record { pending = old.pending - amount; social = old.social }) s.accounts,
          )
        ]

  -- A payment leaves the staked total and the bonus as they are.
  pub pay_with_pending_totals :
      (from amount : ℕ) (s s' : TokensState Q)
      → pay_with_pending cfg from amount s ≡ ok s'
      → (s'.total_staking ≡ s.total_staking) × (s'.bonus ≡ s.bonus)
  unfolding pay_with_pending set_pending_balance
  pay_with_pending_totals from amount s s' e =
      let old = account_of from s in
      elim (Result-cases
        (multi_currency.transfer from social_pool (amount - old.pending) s.currency)) [
          | inl (q, sent) ↦ ground arith
          | inr (x, failed) ↦ ground arith
        ]

-- The shares make up at most their number times the amount.
pub share_to-held :
    (amount : ℕ) (ts : List ℕ) (m : StorageMap SocialAccount)
    → held (share_to amount ts m) ≤ held m + length ts * amount
unfolding share_to
share_to-held amount [] m = omega arith
share_to-held amount (t ∷ ts) m =
    let a = get_or default_account t m in
    let b = record a { social = saturating_add u128 a.social amount } in
    grind (
      arith,
      share_to-held amount ts (insert t b m),
      held-insert t b m,
      saturating_add-le u128 a.social amount,
    )

-- An account never shrinks while shares are handed out.
pub share_to_keeps :
    (amount who : ℕ) (ts : List ℕ) (m : StorageMap SocialAccount)
    → (get_or default_account who m).social < u128
    → (get_or default_account who m).social
      ≤ (get_or default_account who (share_to amount ts m)).social
unfolding share_to
share_to_keeps amount who [] m h = omega arith
share_to_keeps amount who (t ∷ ts) m h =
    let a = get_or default_account t m in
    let b = record a { social = saturating_add u128 a.social amount } in
    ground
      (arith, share_to_keeps amount who ts (insert t b m), get_or-insert default_account who t b m)
