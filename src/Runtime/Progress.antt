-- ===== src/Runtime/Progress.antt =====
-- runtime/src/lib.rs with pallets/refresh-reputation/src/lib.rs, `harvest_ref_all`: the harvest of a
-- pathfinder some blocks after the last activity of an update of the reputations.
use zero_dao_node.Base.{ℕ, zero, suc, ◌+◌, ◌<◌, ◌≤◌, ◌≡◌, inl, inr, true, none, arith, u32}
use zero_dao_node.Base.StorageMap.{get_or}
use zero_dao_node.Dispatch.{Result, ok, ◌>>=◌, Result-cases}
use zero_dao_node.Primitives.{TirStep}
use zero_dao_node.Tokens
use zero_dao_node.RefreshReputation.Calls
use zero_dao_node.RefreshReputation.Runs
use zero_dao_node.Reputation
use zero_dao_node.Challenges
use zero_dao_node.RefreshReputation.{
  Payroll, app_id, is_started, next_step, get_payroll, payroll_amount, can_harvest,
}
use zero_dao_node.Trust
use zero_dao_node.Runtime.{
  Storage, Crates, Call, dispatch, reputation_part, refresh_config, block, as_refreshes,
  social_pool,
}

module _ {Q S : Type 0} where
  -- The storage some blocks later.
  abbrev pub later : ℕ → Storage Q S → Storage Q S
  later n s =
      let reputation = s.pallets.world.world in
      reputation_part.set (record reputation { now = reputation.now + n }) s

  -- The blocks of the last refresh and of the last challenge.
  abbrev pub refreshed_at : Storage Q S → ℕ
  refreshed_at s = s.pallets.world.world.system_info.last

  abbrev pub challenged_at : Storage Q S → ℕ
  challenged_at s = get_or 0 app_id s.games.last_at

module _ {Q S : Type 0} (crates : Crates Q S) where
  next_block-later :
      (who n : ℕ) (s : Storage Q S)
      → dispatch crates Call.next_block who (later n s) ≡ ok (later (n + 1) s)
  unfolding dispatch
  next_block-later who n s = ground arith

  -- Some blocks, one after the other.
  unfoldable pub blocks : ℕ → Storage Q S → Result (Storage Q S)
  blocks zero s = ok s
  blocks (suc n) s = do s' ← blocks n s; dispatch crates Call.next_block 0 s'

  blocks-later : (n : ℕ) (s : Storage Q S) → blocks n s ≡ ok (later n s)
  unfolding blocks
  blocks-later zero s = ground arith
  blocks-later (suc n) s = ground (arith, blocks-later n s, next_block-later 0 n s)

  -- The payroll of an account.
  abbrev pub payroll_of : ℕ → Storage Q S → Payroll
  payroll_of who s = get_payroll who (as_refreshes s)

  -- What a payroll comes to.
  abbrev pub amount_of : ℕ → Storage Q S → ℕ
  amount_of who s = payroll_amount (refresh_config crates) (payroll_of who s)

  -- While an update of the reputations is under way, after any number of blocks that passes the
  -- confirmation period since the last refresh and since the payroll of an account was changed, and the
  -- challenge timeout since the last challenge, where the block fits 32 bits, the staked funds cover the
  -- payroll and the currency lets the pool account transfer it: the harvest of that account succeeds,
  -- pays the payroll out of the staked funds, frees the system and ends the update.
  pub harvest_ref_all_ends :
      (who n : ℕ) (q : Q) (s : Storage Q S)
      → is_started (as_refreshes s) ≡ true
      → refreshed_at s + 10 < block s + n
      → challenged_at s + 100 < block s + n
      → (payroll_of who s).update_at + 10 < block s + n
      → block s + n < u32
      → amount_of who s ≤ s.tokens.total_staking
      → crates.multi_currency.transfer social_pool who (amount_of who s) s.tokens.currency ≡ ok q
      → (s' : Storage Q S) × ((blocks n s
            >>= dispatch crates (Call.refresh_reputation Runs.Call.harvest_ref_all) who)
          ≡ ok s')
        × (s'.pallets.world.world.system_info.step ≡ TirStep.free)
        × (s'.refreshes.started_at ≡ none)
        × (s'.tokens.total_staking + amount_of who s ≡ s.tokens.total_staking)
  unfolding dispatch Runs.run Calls.harvest_ref_all Calls.release can_harvest next_step
      Reputation.set_free Trust.remove_all_tmp Challenges.is_all_timeout Tokens.release
  harvest_ref_all_ends who n q s started refreshed challenged payroll room covered sent =
      let t = later n s in
      let call = Call.refresh_reputation Runs.Call.harvest_ref_all in
      elim (Result-cases (dispatch crates call who t)) [
        | inr (x, failed) ↦ absurd (ground arith)
        | inl (s', done) ↦ (
          s',
          ground (arith, blocks-later n s, done),
          ground (arith, done),
          ground (arith, done),
          ground (arith, done),
        )
      ]
