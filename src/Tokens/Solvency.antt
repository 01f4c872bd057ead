-- ===== src/Tokens/Solvency.antt =====
-- pallets/tokens/src/lib.rs: the pool account covers all that the pallet owes. The reachable
-- storages are those that any sequence of successful calls by accounts other than the pool leads to.
use zero_dao_node.Base.{
  ℕ, ◌+◌, ◌*◌, ◌/◌, ◌≤◌, ◌<◌, ◌≡◌, refl, subst, ◌≢◌, inl, inr, Bool-cases, Option, some, none, List,
  [], ◌∷◌, arith, ltb, ◌==◌, saturating_add-le, u32, u128, length,
}
use zero_dao_node.Base.StorageMap.{StorageMap, get_or}
use zero_dao_node.Tokens.{
  Config, TokensState, SocialAccount, default_account, account_of, pay_with_pending, share_amount,
  split_share, share_and_reserv, set_social_balance, do_staking, add_bonus, transfer_social,
  staking, release, share, increase_bonus, cut_bonus, try_add_bonus, try_cut_bonus, claim,
}
use zero_dao_node.Primitives.Fee.{mul_floor_percent}
use zero_dao_node.Dispatch.{ok, >>=-eq-ok, Result-cases}
use zero_dao_node.Tokens.Flow.{
  held, held-insert, funds-le-held, pool_funds, pay_with_pending_flow, pay_with_pending_socials,
  share_to-held, share_to_keeps,
}

div_share : (n d t : ℕ) → n ≤ d → 0 < d → n * (t / d) ≤ t
div_share n d t h p = grind arith

-- The shares of all trustees together are at most the amount that is shared.
share_amount-le :
    (ts : List ℕ) (t share : ℕ)
    → length ts < u32
    → share_amount ts t ≡ some share
    → length ts * share ≤ t
share_amount-le ts t share h e = elim (Bool-cases (ltb (length ts) 150)) [
  | inl few ↦ ground (arith, div_share (length ts) 150 t)
  | inr many ↦ ground (arith, div_share (length ts) (length ts) t)
]

-- Handing out the shares keeps the sum of what is held and left over, and lowers no account.
split_share-held :
    (who : ℕ) (ts : List ℕ) (t : ℕ) (o : Option ℕ) (m : StorageMap SocialAccount)
    → ((share : ℕ) → o ≡ some share → length ts * share ≤ t)
    → (get_or default_account who m).social < u128
    → t < u128
    → let (m', rest) = split_share ts t o m in
      (held m' + rest ≤ held m + t)
      × ((get_or default_account who m).social ≤ (get_or default_account who m').social)
split_share-held who ts t (some share) m h k b =
    ground (arith, h share refl, share_to-held share ts m, share_to_keeps share who ts m)
split_share-held who ts t none m h k b = omega arith

module _ {Q : Type 0} where
  -- The owner's social balance is replaced by the shares, the rest of them and the reserve.
  share_and_reserv-held :
      (from : ℕ) (ts : List ℕ) (t r : ℕ) (s : TokensState Q)
      → length ts < u32
      → (account_of from s).social < u128
      → t < u128
      → let s' = share_and_reserv from ts t r s in
        (held s'.accounts + (account_of from s).social ≤ held s.accounts + t + r)
        × (s'.currency ≡ s.currency)
        × (s'.total_staking ≡ s.total_staking)
        × (s'.bonus ≡ s.bonus)
  unfolding share_and_reserv
  share_and_reserv-held from [] t r s h k b =
      ground (arith, held-insert from (record { pending = r; social = 0 }) s.accounts)
  share_and_reserv-held from (x ∷ xs) t r s h k b = elim (Bool-cases (t == 0)) [
    | inl nothing ↦ ground (arith, held-insert from (record { pending = r; social = 0 }) s.accounts)
    | inr something ↦
        let o = share_amount (x ∷ xs) t in
        let (m', rest) = split_share (x ∷ xs) t o s.accounts in
        rw something (
          ground (
            arith,
            split_share-held from (x ∷ xs) t o s.accounts
                (λ share e. share_amount-le (x ∷ xs) t share h e) k b,
            held-insert from (record { pending = r; social = rest }) m',
          ))
  ]

module _ {Q : Type 0} (cfg : Config Q) where
  open cfg use {multi_currency, social_pool, perbill}

  -- The pool account holds every pending and social balance and the staked total.
  pub record IsSolvent (s : TokensState Q) : Type 0 where
    pub covered : held s.accounts + s.total_staking ≤ pool_funds cfg s

  -- A successful call of one operation.
  pub data Step (s s' : TokensState Q) : Type 0 where
    transfers :
        (from to amount : ℕ)
        → from ≢ social_pool
        → transfer_social cfg from to amount s ≡ ok s'
        → Step s s'
    pays :
        (from amount : ℕ)
        → from ≢ social_pool
        → pay_with_pending cfg from amount s ≡ ok s'
        → Step s s'
    stakes : (who amount : ℕ) → who ≢ social_pool → staking cfg who amount s ≡ ok s' → Step s s'
    releases : (who amount : ℕ) → who ≢ social_pool → release cfg who amount s ≡ ok s' → Step s s'
    shares : (who : ℕ) (ts : List ℕ) → length ts < u32 → (share cfg who ts s).0 ≡ s' → Step s s'
    increases :
        (who amount : ℕ) → who ≢ social_pool → increase_bonus cfg who amount s ≡ ok s' → Step s s'
    cuts : (amount : ℕ) → cut_bonus cfg amount s ≡ ok s' → Step s s'
    claims : (who : ℕ) → who ≢ social_pool → claim cfg who s ≡ ok s' → Step s s'

  pay_with_pending-IsSolvent :
      (from amount : ℕ) (s s' : TokensState Q)
      → from ≢ social_pool
      → pay_with_pending cfg from amount s ≡ ok s'
      → IsSolvent s
      → (held s'.accounts + s'.total_staking + amount ≤ pool_funds cfg s')
  pay_with_pending-IsSolvent from amount s s' h e v =
      omega (arith, pay_with_pending_flow cfg from amount s s' h e)

  staking-IsSolvent :
      (who amount : ℕ) (s s' : TokensState Q)
      → who ≢ social_pool
      → staking cfg who amount s ≡ ok s'
      → IsSolvent s
      → IsSolvent s'
  unfolding staking do_staking
  staking-IsSolvent who amount s s' h e v =
      let paid = >>=-eq-ok (pay_with_pending cfg who amount s) (λ p. ok (do_staking amount p)) e in
      ground (
        arith,
        paid.2,
        pay_with_pending-IsSolvent who amount s paid.0 h paid.1 v,
        saturating_add-le u128 paid.0.total_staking amount,
      )

  transfer_social-IsSolvent :
      (from to amount : ℕ) (s s' : TokensState Q)
      → from ≢ social_pool
      → transfer_social cfg from to amount s ≡ ok s'
      → IsSolvent s
      → IsSolvent s'
  unfolding transfer_social set_social_balance
  transfer_social-IsSolvent from to amount s s' h e v =
      elim (Result-cases (pay_with_pending cfg from amount s)) [
        | inl (p, paid) ↦ ground (
          arith,
          pay_with_pending-IsSolvent from amount s p h paid v,
          held-insert to
              (record {
                pending = (account_of to p).pending;
                social = (account_of to s).social + amount;
              })
              p.accounts,
          pay_with_pending_socials cfg from amount s p paid to,
        )
        | inr (x, failed) ↦ ground arith
      ]

  release-IsSolvent :
      (who amount : ℕ) (s s' : TokensState Q)
      → who ≢ social_pool
      → release cfg who amount s ≡ ok s'
      → IsSolvent s
      → IsSolvent s'
  unfolding release
  release-IsSolvent who amount s s' h e v =
      elim (Result-cases (multi_currency.transfer social_pool who amount s.currency)) [
        | inl (q, sent) ↦
            ground (arith, multi_currency.transfer_from social_pool who amount s.currency q, sent)
        | inr (x, failed) ↦ ground arith
      ]

  share-IsSolvent :
      (who : ℕ) (ts : List ℕ) (s : TokensState Q)
      → length ts < u32
      → IsSolvent s
      → IsSolvent (share cfg who ts s).0
  unfolding share do_staking add_bonus
  share-IsSolvent who ts s h v =
      let t = perbill.mul_floor (perbill.from_percent 10) (account_of who s).social in
      let burnt = record s { currency = multi_currency.slash social_pool t s.currency } in
      grind (
        arith,
        mul_floor_percent perbill 10 (account_of who s).social (omega arith),
        multi_currency.slash_at_most social_pool t s.currency,
        multi_currency.free_balance_bound social_pool s.currency,
        funds-le-held who s.accounts,
        share_and_reserv-held who ts t t burnt h,
        saturating_add-le u128 s.total_staking t,
      )

  claim-IsSolvent :
      (who : ℕ) (s s' : TokensState Q)
      → who ≢ social_pool
      → claim cfg who s ≡ ok s'
      → IsSolvent s
      → IsSolvent s'
  unfolding claim
  claim-IsSolvent who s s' h e v =
      let a = account_of who s in
      elim (Result-cases (multi_currency.transfer social_pool who a.pending s.currency)) [
        | inl (q, sent) ↦ ground (
          arith,
          multi_currency.transfer_from social_pool who a.pending s.currency q,
          sent,
          held-insert who (record { pending = 0; social = a.social }) s.accounts,
        )
        | inr (x, failed) ↦ ground arith
      ]

  -- Every successful operation by an account other than the pool keeps the pool solvent: its free
  -- balance stays at least the sum of all pending and social balances and the staked total.
  pub Step-IsSolvent : {s s' : TokensState Q} → Step s s' → IsSolvent s → IsSolvent s'
  unfolding increase_bonus try_add_bonus cut_bonus try_cut_bonus
  Step-IsSolvent {s} {s'} (transfers from to amount h e) v =
      transfer_social-IsSolvent from to amount s s' h e v
  Step-IsSolvent {s} {s'} (pays from amount h e) v =
      omega (arith, pay_with_pending-IsSolvent from amount s s' h e v)
  Step-IsSolvent {s} {s'} (stakes who amount h e) v = staking-IsSolvent who amount s s' h e v
  Step-IsSolvent {s} {s'} (releases who amount h e) v = release-IsSolvent who amount s s' h e v
  Step-IsSolvent {s} (shares who ts h e) v = subst IsSolvent e (share-IsSolvent who ts s h v)
  Step-IsSolvent {s} {s'} (increases who amount h e) v =
      let staked = >>=-eq-ok (staking cfg who amount s) (try_add_bonus amount) e in
      ground (arith, staked.2, staking-IsSolvent who amount s staked.0 h staked.1 v)
  Step-IsSolvent (cuts amount e) v = ground arith
  Step-IsSolvent {s} {s'} (claims who h e) v = claim-IsSolvent who s s' h e v

  -- A sequence of such operations.
  pub data Reach (s : TokensState Q) : TokensState Q → Type 0 where
    here : Reach s s
    next : {t u : TokensState Q} → Reach s t → Step t u → Reach s u

  -- From a solvent storage every sequence of such operations leads to a solvent one.
  pub Reach-IsSolvent : {s t : TokensState Q} → IsSolvent s → Reach s t → IsSolvent t
  Reach-IsSolvent v here = v
  Reach-IsSolvent v (next r st) = Step-IsSolvent st (Reach-IsSolvent v r)
