-- ===== src/RefreshSeeds/Calls.antt =====
-- pallets/refresh-seeds/src/lib.rs: the dispatchable functions that start a round, propose and dispute
-- a candidate, present evidence and share a challenge's pool. `origin` is the outcome of
-- `ensure_signed`.
use zero_dao_node.Base.{
  ℕ, ◌+◌, Bool, true, false, not, Option, none, some, List, [], ◌∷◌, length, ltb, leb, ◌==◌,
  if◌then◌else◌, u32, wrapping_add,
}
use zero_dao_node.Base.StorageMap
use zero_dao_node.Dispatch.{Result, ok, ◌>>=◌, ◌>>◌, ensure, ok_or, RefreshSeedsError}
use zero_dao_node.Primitives.Metadata.{Metadata, default_metadata}
use zero_dao_node.RefreshSeeds.{
  State, Config, Event, fails, check_step, deposit_event, is_some, contains, get_candidate,
  put_candidate, candidate_insert, get_pathfinder_paths, get_ends, get_nodes_ends, check_mid_path,
  restart, do_harvest_challenge,
}
use zero_dao_node.RefreshSeeds.Orders.{app_id, max_shortest_path}
use zero_dao_node.RefreshSeeds.PathData.{sort_dedup_nodes}
use zero_dao_node.RefreshSeeds.Evidence.{evidence_of_missed}
use zero_dao_node.RefreshSeeds.Replies.{touch}

-- `unwrap_or_default`
abbrev pub score_or_default : Option ℕ → ℕ
score_or_default (some score) = score
score_or_default none = 0

-- The game that `challenge` launches.
abbrev pub disputed : ℕ → ℕ → ℕ → ℕ → Metadata
disputed challenger pathfinder staking score = record default_metadata {
  challenger = challenger;
  pathfinder = pathfinder;
  pool = record { staking = staking; earnings = 0 };
  score = score;
}

module _ {T W : Type 0} (cfg : Config T W) where
  open cfg use {
    token, reputation, challenge_base, seed_staking_amount, seed_challenge_amount,
    confirmation_period,
  }

  unfoldable pub start : Result ℕ → State T W → Result (State T W)
  start origin s = do
    who ← origin
    world ← reputation.new_round s.world
    ok (deposit_event (Event.refersh_seed_stared who) (record s { world = world }))

  unfoldable pub add : Result ℕ → ℕ → ℕ → State T W → Result (State T W)
  add origin target score s = do
    pathfinder ← origin
    check_step cfg s
    ensure (not (is_some (StorageMap.lookup target s.candidates)))
        (fails RefreshSeedsError.already_exist)
    ledger ← token.staking pathfinder seed_staking_amount s.ledger
    let inserted = candidate_insert target pathfinder score (record s { ledger = ledger })
    ok (deposit_event (Event.new_candidate pathfinder target score) (touch cfg inserted))

  unfoldable pub challenge : Result ℕ → ℕ → ℕ → State T W → Result (State T W)
  challenge origin target score s = do
    challenger ← origin
    check_step cfg s
    candidate ←
        ok_or (StorageMap.lookup target s.candidates) (fails RefreshSeedsError.no_candidate_exists)
    let staking = if candidate.has_challenge then 0 else seed_challenge_amount
    (if candidate.has_challenge
        then ok tt
        else ensure (ltb s.now (wrapping_add u32 candidate.add_at confirmation_period))
            (fails RefreshSeedsError.seed_already_confirmed))
    launched ←
        challenge_base.launch app_id target (disputed challenger candidate.pathfinder staking score)
          s
    let c = get_candidate target launched
    let marked = put_candidate target (record c { has_challenge = true }) launched
    ok (deposit_event (Event.new_challenge challenger target) (touch cfg marked))

  unfoldable pub missed_in_hashs : Result ℕ → ℕ → List ℕ → ℕ → State T W → Result (State T W)
  missed_in_hashs origin target nodes index s = do
    challenger ← origin
    ensure (not (is_some (StorageMap.lookup target s.paths)))
        (fails RefreshSeedsError.path_uploaded)
    evidence_of_missed cfg challenger target nodes index s

  unfoldable pub missed_in_paths : Result ℕ → ℕ → List ℕ → State T W → Result (State T W)
  missed_in_paths origin target nodes s = do
    challenger ← origin
    ensure (is_some (StorageMap.lookup target s.paths)) (fails RefreshSeedsError.no_path_exists)
    evidence_of_missed cfg challenger target nodes 0 s

  -- The callback of `evidence_of_shorter`, by which the dispute does not go to arbitration.
  abbrev pub shorter : ℕ → ℕ → State T W → Result (Bool × State T W)
  shorter remark order s = ok (false, s)

  unfoldable pub evidence_of_shorter : Result ℕ → ℕ → ℕ → List ℕ → State T W → Result (State T W)
  evidence_of_shorter origin target index mid_path s = do
    challenger ← origin
    check_step cfg s
    p_path ← get_pathfinder_paths target index s
    ends ← get_ends p_path
    nodes ← check_mid_path cfg mid_path ends.0 ends.1 s
    (maybe_score, judged) ← challenge_base.evidence app_id challenger target shorter s
    let restarted = restart target challenger (score_or_default maybe_score) judged
    ok (deposit_event (Event.shorter_presented challenger target index) restarted)

  -- The loop in `number_too_low`.
  unfoldable pub check_low_paths : List (List ℕ) → List ℕ → ℕ × ℕ → State T W → Result (Unit {0})
  check_low_paths [] p_nodes ends s = ok tt
  check_low_paths (mid_path ∷ mid_paths) p_nodes ends s = do
    ensure (length mid_path + 2 == length p_nodes) (fails RefreshSeedsError.length_not_equal)
    nodes ← check_mid_path cfg mid_path ends.0 ends.1 s
    check_low_paths mid_paths p_nodes ends s

  -- The callback of `number_too_low`.
  abbrev pub too_low :
      List (List ℕ) → List ℕ → ℕ → ℕ × ℕ → ℕ → ℕ → State T W → Result (Bool × State T W)
  too_low mid_paths p_nodes p_total ends remark order s = do
    check_low_paths mid_paths p_nodes ends s
    ensure (ltb p_total (length mid_paths)) (fails RefreshSeedsError.too_few_in_number)
    ok (false, s)

  unfoldable pub number_too_low : Result ℕ → ℕ → ℕ → List (List ℕ) → State T W → Result (State T W)
  number_too_low origin target index mid_paths s = do
    challenger ← origin
    check_step cfg s
    p_path ← get_pathfinder_paths target index s
    let sorted = sort_dedup_nodes mid_paths
    ensure (leb (length sorted) (max_shortest_path + 1))
        (fails RefreshSeedsError.exceeded_length_limit)
    ends ← get_ends p_path
    (maybe_score, judged) ←
        challenge_base.evidence app_id challenger target
          (too_low sorted p_path.nodes p_path.total ends) s
    let restarted = restart target challenger (score_or_default maybe_score) judged
    ok (deposit_event (Event.evidence_of_num_too_low_presented challenger target index) restarted)

  -- The callback of `invalid_evidence`.
  abbrev pub invalid : Bool → ℕ → ℕ → ℕ → State T W → Result (Bool × Bool × ℕ × State T W)
  invalid through_target score remark order s = ok (through_target, true, score, s)

  unfoldable pub invalid_evidence : Result ℕ → ℕ → List ℕ → ℕ → State T W → Result (State T W)
  invalid_evidence origin target mid_path score s = do
    challenger ← origin
    check_step cfg s
    missed_path ←
        ok_or (StorageMap.lookup target s.missed_paths)
          (fails RefreshSeedsError.missed_paths_not_exist)
    ensure (ltb (length mid_path + 2) (length missed_path))
        (fails RefreshSeedsError.wrong_path_length)
    ends ← get_nodes_ends missed_path
    nodes ← check_mid_path cfg mid_path ends.0 ends.1 s
    let through_target = contains target mid_path
    judged ← challenge_base.arbitral app_id challenger target (invalid through_target score) s
    let answered = if through_target then restart target challenger score judged else judged
    ok (deposit_event (Event.evidence_of_invalid_presented challenger target score) answered)

  unfoldable pub harvest_challenge : Result ℕ → ℕ → State T W → Result (State T W)
  harvest_challenge origin target s = do
    who ← origin
    check_step cfg s
    harvested ← do_harvest_challenge cfg who target s
    ok (deposit_event (Event.challenge_harvested who target) harvested)
