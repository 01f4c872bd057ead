-- ===== src/Runtime/Traces.antt =====
-- runtime/src/lib.rs: successful calls of the pallets, in any order.
use zero_dao_node.Base.{ℕ, ◌+◌, ◌-◌, ◌≤◌, ◌<◌, ◌≡◌, inl, inr, some, arith, u128}
use zero_dao_node.Base.StorageMap.{lookup}
use zero_dao_node.Dispatch.{ok, Result-cases}
use zero_dao_node.Tokens
use zero_dao_node.Tokens.Calls as TokensCalls
use zero_dao_node.Tokens.Flow.{pay_with_pending_totals}
use zero_dao_node.RefreshSeeds.{Candidate}
use zero_dao_node.RefreshSeeds.Calls as RefreshSeedsCalls
use zero_dao_node.RefreshSeeds.Disputes
use zero_dao_node.RefreshSeeds.Harvest
use zero_dao_node.RefreshSeeds.Backing as SeedsBacking
use zero_dao_node.RefreshReputation.Runs
use zero_dao_node.Runtime.{
  Storage, Crates, Call, dispatch, RootCall, dispatch_root, tokens_config, candidates_config,
  refresh_config, as_candidates, as_refreshes, challenge_staking_amount, seed_challenge_amount,
  seed_reserv_staking,
}
use zero_dao_node.Runtime.Backing.{
  claims, pooled, stakes, owed, candidates-Funding, refreshes-Funding,
}

module _ {Q S : Type 0} (crates : Crates Q S) where
  abbrev pub staked : Storage Q S → ℕ
  staked s = s.tokens.total_staking

  -- A call is about a candidate that is there, where it needs one, and fits the payroll.
  unfoldable pub Meets : Call → Storage Q S → Type 0
  Meets (Call.refresh_reputation call) s = Runs.Fits (refresh_config crates) call (as_refreshes s)
  Meets (Call.refresh_seeds call) s = Disputes.IsAbout call (as_candidates s)
  Meets (Call.harvest_challenge target) s =
      (c : Candidate) × (lookup target s.candidates.candidates ≡ some c)
  Meets call s = Unit {0}

  -- What is staked next fits beside the staked total.
  abbrev pub HasRoom : Storage Q S → Type 0
  HasRoom s =
      staked s + challenge_staking_amount + (seed_challenge_amount + seed_reserv_staking) < u128

  -- What the shares of a call put in the bonus.
  unfoldable pub minted : Call → Storage Q S → Storage Q S → ℕ
  minted (Call.refresh_reputation call) s s' = s'.tokens.bonus - s.tokens.bonus
  minted call s s' = 0

  dispatch-Funded :
      (call : Call) (who : ℕ) (s s' : Storage Q S)
      → HasRoom s
      → HasRoom s'
      → Meets call s
      → dispatch crates call who s ≡ ok s'
      → staked s + claims crates s' ≤ staked s' + claims crates s + minted call s s'
  unfolding dispatch Meets minted TokensCalls.claim Tokens.claim TokensCalls.transfer_social
      Tokens.transfer_social Tokens.set_social_balance
  dispatch-Funded Call.claim who s s' room room' meets e =
      let config = tokens_config crates in
      let a = Tokens.account_of who s.tokens in
      elim (Result-cases
        (config.multi_currency.transfer config.social_pool who a.pending s.tokens.currency)) [
          | inr (x, failed) ↦ absurd (ground arith)
          | inl (q, sent) ↦ ground arith
        ]
  dispatch-Funded (Call.transfer_social dest amount) who s s' room room' meets e =
      let config = tokens_config crates in
      elim (Result-cases (Tokens.pay_with_pending config who amount s.tokens)) [
        | inr (x, failed) ↦ absurd (ground arith)
        | inl (p, paid) ↦ ground (arith, pay_with_pending_totals config who amount s.tokens p paid)
      ]
  dispatch-Funded (Call.trust target) who s s' room room' meets e = ground arith
  dispatch-Funded (Call.untrust target) who s s' room room' meets e = ground arith
  dispatch-Funded Call.next_block who s s' room room' meets e = ground arith
  dispatch-Funded (Call.refresh_reputation call) who s s' room room' meets e =
      elim (Result-cases (Runs.run (refresh_config crates) call (ok who) (as_refreshes s))) [
        | inr (x, failed) ↦ absurd (ground arith)
        | inl (r, done) ↦
            let funded =
              Runs.run-Funded (refresh_config crates) (pooled crates) (stakes crates)
                challenge_staking_amount (refreshes-Funding crates) call who (as_refreshes s) r
                (ground arith) (ground arith) meets done in
            ground (arith, funded)
      ]
  dispatch-Funded (Call.refresh_seeds call) who s s' room room' meets e =
      elim (Result-cases
        (Disputes.run (candidates_config crates) call (ok who) (as_candidates s))) [
          | inr (x, failed) ↦ absurd (ground arith)
          | inl (r, done) ↦
              let funded =
                SeedsBacking.run-Funded (candidates_config crates) (pooled crates) (owed crates)
                  challenge_staking_amount (candidates-Funding crates) call who (as_candidates s) r
                  (ground arith) meets done in
              ground (arith, funded)
        ]
  dispatch-Funded (Call.harvest_challenge target) who s s' room room' (c, there) e =
      elim (Result-cases (
        RefreshSeedsCalls.harvest_challenge (candidates_config crates) (ok who) target
          (as_candidates s))) [
            | inr (x, failed) ↦ absurd (ground arith)
            | inl (r, done) ↦
                let funded =
                  SeedsBacking.harvest_challenge-Funded (candidates_config crates) (pooled crates)
                    (owed crates) challenge_staking_amount (candidates-Funding crates) who target c
                    (as_candidates s) r (ground arith) there done in
                ground (arith, funded)
          ]
  dispatch-Funded (Call.harvest_seed target) who s s' room room' meets e =
      elim (Result-cases
        (Harvest.harvest_seed (candidates_config crates) (ok who) target (as_candidates s))) [
          | inr (x, failed) ↦ absurd (ground arith)
          | inl (r, done) ↦
              let funded =
                SeedsBacking.harvest_seed-Funded (candidates_config crates) (pooled crates)
                  (owed crates) challenge_staking_amount (candidates-Funding crates) who target
                  (as_candidates s) r done in
              ground (arith, funded)
        ]

  dispatch_root-Funded :
      (call : RootCall) (s s' : Storage Q S)
      → dispatch_root crates call s ≡ ok s'
      → staked s + claims crates s' ≤ staked s' + claims crates s
  unfolding dispatch_root
  dispatch_root-Funded (RootCall.set_period period) s s' e = ground arith
  dispatch_root-Funded (RootCall.new_seed seed) s s' e = ground arith
  dispatch_root-Funded (RootCall.remove_seed seed) s s' e = ground arith

  -- Successful calls of accounts and of root, one after the other. Those of accounts meet what they are
  -- about, and the next stakes have room.
  pub data Trace (start : Storage Q S) : Storage Q S → Type 0 where
    stay : Trace start start
    then :
        {mid out : Storage Q S}
        → Trace start mid
        → (call : Call) (who : ℕ) → HasRoom mid
        → HasRoom out
        → Meets call mid
        → dispatch crates call who mid ≡ ok out
        → Trace start out
    sudo :
        {mid out : Storage Q S}
        → Trace start mid
        → (call : RootCall) → dispatch_root crates call mid ≡ ok out
        → Trace start out

  -- What the shares of all the calls put in the bonus.
  unfoldable pub all_minted : (s s' : Storage Q S) → Trace s s' → ℕ
  all_minted s _ Trace.stay = 0
  all_minted s s' (Trace.then {mid} before call who room room' meets e) =
      all_minted s mid before + minted call mid s'
  all_minted s s' (Trace.sudo {mid} before call e) = all_minted s mid before

  -- Along any successful calls of accounts and of root, in any order, where before and after the calls of
  -- accounts the next stakes fit beside the staked total, evidence and shares are about candidates that are
  -- there, refreshes are of a 32-bit length and challenges take no more off a payroll than its fees: what
  -- is promised out of the staked funds, which is the pools of the games, the stakes of the candidates, what
  -- the pathfinders are owed and the bonus, grows by no more than the staked total and what the shares of
  -- refreshes put in the bonus.
  pub Trace-Funded :
      (s s' : Storage Q S) (trace : Trace s s')
      → staked s + claims crates s' ≤ staked s' + claims crates s + all_minted s s' trace
  unfolding all_minted
  Trace-Funded s _ Trace.stay = omega arith
  Trace-Funded s s' (Trace.then {mid} before call who room room' meets e) =
      omega (arith, Trace-Funded s mid before, dispatch-Funded call who mid s' room room' meets e)
  Trace-Funded s s' (Trace.sudo {mid} before call e) =
      omega (arith, Trace-Funded s mid before, dispatch_root-Funded call mid s' e)
