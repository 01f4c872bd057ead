-- ===== src/RefreshSeeds/Funds.antt =====
-- pallets/refresh-seeds/src: what is promised out of the staked funds, and how the calls move it.
use zero_dao_node.Base.{ℕ, ◌+◌, ◌≤◌, ◌<◌, ◌≡◌, inl, inr, some, arith, u128}
use zero_dao_node.Base.StorageMap.{StorageMap, lookup, sum_by}
use zero_dao_node.Dispatch.{ok}
use zero_dao_node.Primitives.{TirStep}
use zero_dao_node.Support.Framed.{Framed, LaunchKeeps, framed_both}
use zero_dao_node.Support.Backed.{Covered, SameStaked, Backed}
use zero_dao_node.RefreshSeeds.{
  Candidate, State, Config, Event, deposit_event, get_candidate, score_list_insert, mutate_score,
  restart, remove_challenge,
}
use zero_dao_node.RefreshSeeds.Harvest.{staking_amount}
use zero_dao_node.RefreshSeeds.Frame.{IsKept, IsSame, IsQuiet}
use zero_dao_node.RefreshSeeds.Accounts.{sum_by-insert_old, get_or-lookup}
use zero_dao_node.RefreshSeeds.Answers.{Answered}
use zero_dao_node.RefreshSeeds.Restarts.{Judged}

module _ {T W : Type 0} (cfg : Config T W) (pool others : W → ℕ) where
  open cfg use {
    token, reputation, seeds_base, challenge_base, seed_staking_amount, seed_challenge_amount,
    seed_reserv_staking,
  }

  abbrev pub staked : State T W → ℕ
  staked s = token.staked s.ledger

  abbrev pub bonus : State T W → ℕ
  bonus s = token.get_bonus_amount s.ledger

  -- What the games hold.
  abbrev pub pooled : State T W → ℕ
  pooled s = pool s.world

  -- What the candidates have staked.
  abbrev pub stakes : StorageMap Candidate → ℕ
  stakes candidates = sum_by (staking_amount cfg) candidates

  -- All that is to be paid out of the staked funds, with `others`, what is promised by other pallets.
  abbrev pub claims : State T W → ℕ
  claims s = pooled s + stakes s.candidates + bonus s + others s.world

  -- The claims grow by no more than the staked total.
  abbrev pub Funded : State T W → State T W → Type 0
  Funded s s' = staked s + claims s' ≤ staked s' + claims s

  -- The candidates, the scores, the bonus and the promises of others stay.
  abbrev pub Steady : State T W → State T W → Type 0
  Steady s s' = IsKept s s' × (bonus s' ≡ bonus s) × (others s'.world ≡ others s.world)

  -- The pallets beside this one leave a measure alone.
  pub record Stays (measure : W → ℕ) : Type 0 where
    pub at-set_last_refresh_at : (w : W) → measure (reputation.set_last_refresh_at w) ≡ measure w
    pub at-set_step : (step : TirStep) (w : W) → measure (reputation.set_step step w) ≡ measure w
    pub at-new_round : (w w' : W) → reputation.new_round w ≡ ok w' → measure w' ≡ measure w
    pub at-remove_all : (w : W) → measure (seeds_base.remove_all w) ≡ measure w
    pub at-add_seed : (target : ℕ) (w : W) → measure (seeds_base.add_seed target w) ≡ measure w

  -- What the pallet needs of the games, and of the pallets beside them, which leave the games alone.
  pub record Funding (stake : ℕ) : Type 0 where
    pub backed : Backed staked pooled stake challenge_base
    pub steady : Framed Steady Steady challenge_base
    pub steady_launch : LaunchKeeps Steady challenge_base
    pub split : seed_staking_amount ≡ seed_challenge_amount + seed_reserv_staking
    pub pool_stays : Stays pool
    pub others_stay : Stays others

module _ {T W : Type 0} (cfg : Config T W) (pool others : W → ℕ) (stake : ℕ)
    (funding : Funding cfg pool others stake) where
  open cfg use {
    token, reputation, seeds_base, challenge_base, seed_staking_amount, seed_challenge_amount,
    seed_reserv_staking,
  }

  -- A method of the games keeps the candidates and the bonus, and covers the pools.
  abbrev pub Called : State T W → State T W → Type 0
  Called s t = Steady cfg pool others s t × SameStaked (staked cfg pool others) s t

  abbrev pub Kept : State T W → State T W → Type 0
  Kept s t =
      Steady cfg pool others s t
      × Covered (staked cfg pool others) (pooled cfg pool others) stake s t

  pub framed : Framed Called Kept challenge_base
  framed =
      framed_both (Steady cfg pool others) (SameStaked (staked cfg pool others))
        (Steady cfg pool others) (Covered (staked cfg pool others) (pooled cfg pool others) stake)
        challenge_base (funding.steady) (funding.backed.framed)

  pub called : (s t : State T W) → IsSame s t → Called s t
  unfolding IsSame IsKept
  called s t same = ((same.0, ground (arith, same), ground (arith, same)), ground (arith, same))

  -- What follows a game moves no claim.
  IsQuiet-claims :
      (s s' : State T W)
      → IsQuiet cfg s s'
      → (staked cfg pool others s' ≡ staked cfg pool others s)
        × (claims cfg pool others s' ≡ claims cfg pool others s)
  unfolding IsQuiet IsSame IsKept
  IsQuiet-claims s s' (kept, ledger, inl world) =
      (ground (arith, ledger), ground (arith, kept, ledger, world))
  IsQuiet-claims s s' (kept, ledger, inr world) = (
    ground (arith, ledger),
    ground (
      arith,
      kept,
      ledger,
      world,
      funding.pool_stays.at-set_last_refresh_at s.world,
      funding.others_stay.at-set_last_refresh_at s.world,
    ),
  )

  pub Answered-Funded :
      (s s' : State T W)
      → staked cfg pool others s + stake < u128
      → Answered cfg Called Kept framed called s s'
      → Funded cfg pool others s s'
  unfolding IsKept
  Answered-Funded s s' room (t, ((kept, same, beside), covered), quiet) =
      let (one, two) = IsQuiet-claims t s' quiet in
      ground (arith, one, two, same, beside, covered room)

  -- A restart moves no claim.
  restart-claims :
      (who target score : ℕ) (event : Event) (c : Candidate) (t s' : State T W)
      → lookup target t.candidates ≡ some c
      → deposit_event event (restart target who score t) ≡ s'
      → (staked cfg pool others s' ≡ staked cfg pool others t)
        × (claims cfg pool others s' ≡ claims cfg pool others t)
  unfolding restart mutate_score score_list_insert remove_challenge
  restart-claims who target score event c t s' there at =
      let old = get_candidate target t in
      let c' : Candidate = record old { score = score; pathfinder = who } in
      let same : old ≡ c = get_or-lookup target c t.candidates there in
      let there_old : lookup target t.candidates ≡ some old = ground (arith, same, there) in
      (
        ground arith,
        ground (arith, sum_by-insert_old (staking_amount cfg) target c' old t.candidates there_old),
      )

  pub Judged-Funded :
      (target : ℕ) (c : Candidate) (s s' : State T W)
      → staked cfg pool others s + stake < u128
      → lookup target s.candidates ≡ some c
      → Judged cfg Called Kept framed called target s s'
      → Funded cfg pool others s s'
  unfolding IsKept
  Judged-Funded target c s s' room there (t, kept, inl quiet) =
      Answered-Funded s s' room (t, kept, quiet)
  Judged-Funded target c s s' room there
        (t, ((kept, same, beside), covered), inr (who, score, event, at)) =
      let (one, two) =
        restart-claims who target score event c t s' (ground (arith, kept, there)) at in
      ground (arith, one, two, same, beside, covered room)
