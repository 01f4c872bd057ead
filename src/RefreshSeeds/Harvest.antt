-- ===== src/RefreshSeeds/Harvest.antt =====
-- pallets/refresh-seeds/src/lib.rs, `harvest_seed`: the selection of the seeds, one candidate at a
-- time. `origin` is the outcome of `ensure_signed`.
use zero_dao_node.Base.{
  ℕ, ◌/◌, Bool, true, false, Option, none, some, List, [], ◌∷◌, length, leb, ◌==◌, if◌then◌else◌,
  u128, checked_add, remove_at,
}
use zero_dao_node.Base.StorageMap
use zero_dao_node.Dispatch.{Result, ok, ◌>>=◌, ◌>>◌, ensure, ok_or, RefreshSeedsError}
use zero_dao_node.Primitives.{TirStep}
use zero_dao_node.Primitives.Fee.{checked_with_fee}
use zero_dao_node.RefreshSeeds.{
  Candidate, State, Config, Event, fails, check_step, deposit_event, is_all_harvest, is_all_timeout,
  hand_first_time,
}
use zero_dao_node.RefreshSeeds.ScoreList.{Search, binary_search}
use zero_dao_node.RefreshSeeds.Orders.{app_id}

-- The index of a candidate's score among the highest ones, where it is one of them.
unfoldable pub seed_index : List ℕ → ℕ → Option ℕ
seed_index [] score = none
seed_index (lowest ∷ rest) score = elim (leb lowest score) [
  | false ↦ none
  | true ↦ elim (binary_search (lowest ∷ rest) score) [
    | Search.found index ↦ some index
    | Search.missing index ↦ none
  ]
]

module _ {T W : Type 0} (cfg : Config T W) where
  open cfg use {
    token, reputation, seeds_base, challenge_base, perbill, seed_staking_amount,
    seed_reserv_staking,
  }

  -- The list of scores that a harvest works on: the first harvest of a round takes the highest ones
  -- and removes the old seeds.
  unfoldable pub selected : State T W → Result (List ℕ × State T W)
  selected s = elim s.seeds_confirmed [
    | true ↦ ok (s.score_list, s)
    | false ↦ do
      ensure (challenge_base.is_all_harvest app_id s)
          (fails RefreshSeedsError.still_unharvested_challenges)
      ensure (is_all_timeout cfg s) (fails RefreshSeedsError.still_unconfirmed)
      ok (hand_first_time cfg s.score_list s)
  ]

  -- What a candidate has staked.
  abbrev pub staking_amount : Candidate → ℕ
  staking_amount candidate =
      if candidate.has_challenge then seed_reserv_staking else seed_staking_amount

  -- A seed's share of the bonus.
  abbrev pub seed_bonus : Option ℕ → List ℕ → T → ℕ
  seed_bonus maybe_index score_list ledger = elim maybe_index [
    | none ↦ 0
    | some index ↦ token.get_bonus_amount ledger / length score_list
  ]

  -- A caller other than the pathfinder sweeps: it takes a part of the amount.
  unfoldable pub pay : ℕ → ℕ → ℕ → State T W → Result (State T W)
  pay who pathfinder total_amount s = elim (who == pathfinder) [
    | false ↦ do
      (s_amount, p_amount) ←
          ok_or
            (checked_with_fee perbill total_amount (reputation.get_last_refresh_at s.world) s.now)
            (fails RefreshSeedsError.sweeprt_fail)
      swept ← token.release who s_amount s.ledger
      paid ← token.release pathfinder p_amount swept
      ok (record s { ledger = paid })
    | true ↦ do
      paid ← token.release pathfinder total_amount s.ledger
      ok (record s { ledger = paid })
  ]

  -- A candidate whose score is among the highest becomes a seed, and its score leaves the list.
  unfoldable pub seated : Option ℕ → ℕ → List ℕ → State T W → List ℕ × State T W
  seated none target score_list s = (score_list, s)
  seated (some index) target score_list s =
      (remove_at index score_list, record s { world = seeds_base.add_seed target s.world })

  -- After the last candidate the round goes on to the reputation; `is_all_confirmed` is the flag
  -- before the call.
  unfoldable pub closed : Bool → State T W → State T W
  closed is_all_confirmed s = elim (is_all_harvest s) [
    | true ↦ record s {
      seeds_confirmed = false;
      world = reputation.set_step TirStep.reputation s.world;
    }
    | false ↦ elim is_all_confirmed [ true ↦ s | false ↦ record s { seeds_confirmed = true } ]
  ]

  unfoldable pub harvest_seed : Result ℕ → ℕ → State T W → Result (State T W)
  harvest_seed origin target s = do
    who ← origin
    check_step cfg s
    (score_list, opened) ← selected s
    candidate ←
        ok_or (StorageMap.lookup target opened.candidates)
          (fails RefreshSeedsError.candidate_not_exist)
    let taken = record opened { candidates = StorageMap.remove target opened.candidates }
    let maybe_index = seed_index score_list candidate.score
    let bonus = seed_bonus maybe_index score_list taken.ledger
    total_amount ←
        ok_or (checked_add u128 bonus (staking_amount candidate)) (fails RefreshSeedsError.overflow)
    paid ← pay who candidate.pathfinder total_amount taken
    ledger ← token.cut_bonus bonus paid.ledger
    let (rest, chosen) = seated maybe_index target score_list (record paid { ledger = ledger })
    let done = deposit_event (Event.seed_harvested who target) (closed s.seeds_confirmed chosen)
    ok (record done { score_list = rest })
