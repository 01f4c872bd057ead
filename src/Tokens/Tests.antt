-- ===== src/Tokens/Tests.antt =====
-- pallets/tokens/src/lib.rs at concrete storages: account 0 is the pool.
use zero_dao_node.Base.{◌+◌, ℕ, ◌*◌, ◌≤◌, ◌≡◌, refl, [], ◌∷◌, arith}
use zero_dao_node.Base.StorageMap.{StorageMap, get_or, insert, sum_by}
use zero_dao_node.Dispatch.{ok, err, DispatchError, TokensError}
use zero_dao_node.Fixtures.{parts, ledger, balance, move, burn}
use zero_dao_node.Primitives.Fee.{pre_reserved}
use zero_dao_node.Tokens.{
  Config, TokensState, account_of, pay_with_pending, set_pending_balance, set_social_balance,
  do_staking, add_bonus, share_to, share_and_reserv, transfer_social, staking, release, share,
  claim,
}
use zero_dao_node.Tokens.Laws.{share_pending, share_bonus}
use zero_dao_node.Tokens.Solvency.{IsSolvent, stakes, shares, here, next, Reach-IsSolvent}

abbrev config : Config (StorageMap ℕ)
config = record { perbill = parts; multi_currency = ledger; social_pool = 0 }

abbrev start : TokensState (StorageMap ℕ)
start = record {
  currency = (0, 600) ∷ (1, 500) ∷ (2, 30) ∷ [];
  bonus = 10;
  accounts =
      (1, record { pending = 50; social = 200 }) ∷ (2, record { pending = 0; social = 9 }) ∷ [];
  total_staking = 300;
  events = [];
}

-- 50 of the stake come out of the pending balance, 30 out of the free balance.
abbrev staked : TokensState (StorageMap ℕ)
staked = record start {
  currency = (0, 630) ∷ (1, 470) ∷ (2, 30) ∷ [];
  accounts =
      (1, record { pending = 0; social = 200 }) ∷ (2, record { pending = 0; social = 9 }) ∷ [];
  total_staking = 380;
}

staking-start : staking config 1 80 start ≡ ok staked
unfolding staking pay_with_pending set_pending_balance do_staking move balance get_or insert
staking-start = refl

-- With one trustee the shares of the missing trustees stay with the owner.
abbrev shared : TokensState (StorageMap ℕ)
shared = record staked {
  currency = (0, 610) ∷ (1, 470) ∷ (2, 30) ∷ [];
  accounts =
      (1, record { pending = 20; social = 20 }) ∷ (2, record { pending = 0; social = 9 }) ∷ [];
  total_staking = 400;
  bonus = 130;
}

share-staked_state : share config 1 (2 ∷ []) staked ≡ (shared, 20)
unfolding share share_and_reserv share_to do_staking add_bonus burn balance get_or insert
share-staked_state = refl

start-IsSolvent : IsSolvent config start
unfolding sum_by balance get_or
start-IsSolvent = record { covered = omega arith }

Reach-IsSolvent_example : IsSolvent config shared
unfolding share share_and_reserv share_to do_staking add_bonus burn balance get_or insert
Reach-IsSolvent_example = Reach-IsSolvent config start-IsSolvent (
    next (next here (stakes 1 80 (omega arith) staking-start))
      (shares 1 (2 ∷ []) (omega arith) refl))

abbrev transferred : TokensState (StorageMap ℕ)
transferred = record start {
  currency = (0, 610) ∷ (1, 490) ∷ (2, 30) ∷ [];
  accounts =
      (1, record { pending = 0; social = 200 }) ∷ (2, record { pending = 0; social = 69 }) ∷ [];
}

transfer_social-start : transfer_social config 1 2 60 start ≡ ok transferred
unfolding transfer_social pay_with_pending set_pending_balance set_social_balance move balance
    get_or insert
transfer_social-start = refl

abbrev released : TokensState (StorageMap ℕ)
released = record start { currency = (0, 500) ∷ (1, 500) ∷ (2, 130) ∷ []; total_staking = 200 }

release-start : release config 2 100 start ≡ ok released
unfolding release move balance get_or insert
release-start = refl

release_short :
    release config 2 301 start ≡ err (DispatchError.tokens TokensError.staking_amount_too_low)
unfolding release
release_short = refl

abbrev paid_out : TokensState (StorageMap ℕ)
paid_out = record start {
  currency = (0, 550) ∷ (1, 550) ∷ (2, 30) ∷ [];
  accounts =
      (1, record { pending = 0; social = 200 }) ∷ (2, record { pending = 0; social = 9 }) ∷ [];
}

claim-start : claim config 1 start ≡ ok paid_out
unfolding claim move balance get_or insert
claim-start = refl

share_pending_example :
    ((account_of 1 (share config 1 (2 ∷ []) start).0).pending
      ≡ parts.mul_floor (pre_reserved parts) (account_of 1 start).social)
    × ((account_of 1 (share config 1 (2 ∷ []) start).0).pending * 10 ≤ (account_of 1 start).social)
share_pending_example = share_pending config 1 (2 ∷ []) start

share_bonus_example :
    ((share config 1 (2 ∷ []) start).0.total_staking
      ≡ start.total_staking + (share config 1 (2 ∷ []) start).1)
    × ((share config 1 (2 ∷ []) start).1 * 10 ≤ (account_of 1 start).social)
    × (start.bonus * 10 + (account_of 1 start).social * 6
        ≤ (share config 1 (2 ∷ []) start).0.bonus * 10)
unfolding get_or
share_bonus_example = share_bonus config 1 (2 ∷ []) start (omega arith) (omega arith)
