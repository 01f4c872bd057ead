-- ===== src/RefreshSeeds.antt =====
-- pallets/refresh-seeds/src: the candidates for the seeds of a round. A pathfinder proposes a
-- candidate with a score, others dispute the score in a challenge game, and in the end the best
-- candidates become the seeds. The storage stands beside the ledger `T` of the tokens and the world
-- `W` of the pallets of reputation, trust and seeds.
pub mod ScoreList
pub mod ScoreLaws
pub mod Orders
pub mod Hashes
pub mod PathData
pub mod Evidence
pub mod Replies
pub mod Calls
pub mod Harvest
pub mod Frame
pub mod Accounts
pub mod Answers
pub mod Restarts
pub mod Disputes
pub mod Shares
pub mod Selection
pub mod Seating
pub mod Levels
pub mod PathChecks
pub mod Funds
pub mod Backing
pub mod Rounds
pub mod Games
pub mod Composed
mod Tests
mod Examples
mod Playing
use zero_dao_node.Base.{
  ℕ, ◌+◌, ◌-◌, ◌%◌, Bool, true, false, not, ◌&&◌, ◌||◌, Option, none, some, List, [], ◌∷◌, ◌++◌,
  length, ltb, leb, ◌==◌, if◌then◌else◌, get_elem?, last?, drop, u32, wrapping_add,
}
use zero_dao_node.Base.StorageMap
use zero_dao_node.Base.StorageMap.{StorageMap}
use zero_dao_node.Dispatch.{
  Result, ok, err, ◌>>=◌, ◌>>◌, ensure, ok_or, DispatchError, RefreshSeedsError,
}
use zero_dao_node.External.{Perbill, SortedSet}
use zero_dao_node.Primitives.{TirStep}
use zero_dao_node.Support.{MultiBaseToken, Reputation, TrustBase, SeedsBase, ChallengeBase}
use ScoreList.{score_inserted, score_removed}
use Orders.{Order, order_bytes, app_id, deep_limit}

pub record Candidate : Type 0 where
  pub score : ℕ
  pub pathfinder : ℕ
  pub has_challenge : Bool
  pub add_at : ℕ

abbrev pub default_candidate : Candidate
default_candidate = record { score = 0; pathfinder = 0; has_challenge = false; add_at = 0 }

pub record ResultHash : Type 0 where
  pub order : Order
  pub score : ℕ

-- `PostResultHash`, a tuple.
abbrev pub PostResultHash : Type 0
PostResultHash = Order × ℕ

abbrev pub to_result_hash : PostResultHash → ResultHash
to_result_hash (order, score) = record { order = order; score = score }

-- `<` of two slices of bytes, lexicographically, and `==`.
unfoldable pub slice_lt : List ℕ → List ℕ → Bool
slice_lt [] [] = false
slice_lt [] (y ∷ ys) = true
slice_lt (x ∷ xs) [] = false
slice_lt (x ∷ xs) (y ∷ ys) = ltb x y || (x == y && slice_lt xs ys)

unfoldable pub slice_eq : List ℕ → List ℕ → Bool
slice_eq [] [] = true
slice_eq [] (y ∷ ys) = false
slice_eq (x ∷ xs) [] = false
slice_eq (x ∷ xs) (y ∷ ys) = x == y && slice_eq xs ys

-- `Ord` of `ResultHash`: by the order alone.
abbrev pub hash_before : ResultHash → ResultHash → Bool
hash_before r r' = slice_lt (order_bytes r.order) (order_bytes r'.order)

-- `Path`: the nodes, and the number of shortest paths between its two ends.
pub record NodePath : Type 0 where
  pub nodes : List ℕ
  pub total : ℕ

pub data Event : Type 0 where
  refersh_seed_stared : ℕ → Event
  new_candidate : ℕ → ℕ → ℕ → Event
  new_challenge new_examine : ℕ → ℕ → Event
  replied_hash replied_path : ℕ → ℕ → ℕ → Bool → Event
  continue_replied_hash continue_replied_path : ℕ → ℕ → Bool → Event
  replied_num : ℕ → ℕ → Event
  missed_path_presented shorter_presented evidence_of_num_too_low_presented : ℕ → ℕ → ℕ → Event
  evidence_of_invalid_presented : ℕ → ℕ → ℕ → Event
  challenge_harvested seed_harvested : ℕ → ℕ → Event
  challenge_restarted : ℕ → ℕ → Event
  seeds_selected : ℕ → Event

-- `ResultHashsSets`, `Candidates`, `ScoreList`, `Paths`, `MissedPaths`, `SeedsConfirmed`, the events
-- (the last one first) and the current block.
pub record State (T W : Type 0) : Type 0 where
  pub result_hashs_sets : StorageMap (List (List ResultHash))
  pub candidates : StorageMap Candidate
  pub score_list : List ℕ
  pub paths : StorageMap (List NodePath)
  pub missed_paths : StorageMap (List ℕ)
  pub seeds_confirmed : Bool
  pub events : List Event
  pub now : ℕ
  pub ledger : T
  pub world : W

-- `encode` is the codec's encoding of an account, `sha1` the digest of the crate sha1.
pub record Config (T W : Type 0) : Type 0 where
  pub token : MultiBaseToken T
  pub reputation : Reputation W
  pub trust_base : TrustBase W
  pub seeds_base : SeedsBase W
  pub challenge_base : ChallengeBase (State T W)
  pub perbill : Perbill
  pub hash_set : SortedSet ResultHash hash_before
  pub encode : ℕ → List ℕ
  pub sha1 : List ℕ → List ℕ
  pub seed_staking_amount : ℕ
  pub seed_challenge_amount : ℕ
  pub seed_reserv_staking : ℕ
  pub max_seed_count : ℕ
  pub confirmation_period : ℕ

abbrev pub fails : RefreshSeedsError → DispatchError
fails = DispatchError.refresh_seeds

-- `nodes[0]` and `nodes.last().unwrap()`, which panic without a node.
unfoldable pub get_nodes_ends : List ℕ → Result (ℕ × ℕ)
get_nodes_ends nodes = do
  stop ← ok_or (last? nodes) DispatchError.panic
  start ← ok_or (get_elem? nodes 0) DispatchError.panic
  ok (start, stop)

abbrev pub get_ends : NodePath → Result (ℕ × ℕ)
get_ends path = get_nodes_ends path.nodes

-- `contains`
unfoldable pub contains : ℕ → List ℕ → Bool
contains x [] = false
contains x (y ∷ ys) = x == y || contains x ys

-- `is_some` and `is_ok`
abbrev pub is_some : {A : Type 0} → Option A → Bool
is_some o = elim o [ none ↦ false | some a ↦ true ]

module _ {T W : Type 0} where
  abbrev pub deposit_event : Event → State T W → State T W
  deposit_event e s = record s { events = e ∷ s.events }

  abbrev pub get_candidate : ℕ → State T W → Candidate
  get_candidate target s = StorageMap.get_or default_candidate target s.candidates

  abbrev pub put_candidate : ℕ → Candidate → State T W → State T W
  put_candidate target c s = record s { candidates = StorageMap.insert target c s.candidates }

  -- `ResultHashsSets::get`
  abbrev pub get_result_hashs : ℕ → State T W → List (List ResultHash)
  get_result_hashs target s = StorageMap.get_or [] target s.result_hashs_sets

  unfoldable pub insert_hash : ℕ → List ResultHash → State T W → Result (State T W)
  insert_hash target hash_set s = do
    let c = get_result_hashs target s
    ensure (ltb (length c % 256) deep_limit) (fails RefreshSeedsError.maximum_depth)
    ok (record s {
      result_hashs_sets = StorageMap.insert target (c ++ (hash_set ∷ [])) s.result_hashs_sets;
    })

  unfoldable pub score_list_insert : List ℕ → ℕ → State T W → State T W
  score_list_insert score_list score s = record s { score_list = score_inserted score_list score }

  unfoldable pub try_get_rhash : ℕ → State T W → Result (List (List ResultHash))
  try_get_rhash target s =
      ok_or (StorageMap.lookup target s.result_hashs_sets) (fails RefreshSeedsError.non_existent)

  -- `Candidates::iter_values().next().is_none()`
  unfoldable pub is_all_harvest : State T W → Bool
  is_all_harvest s = elim s.candidates [ [] ↦ true | c ∷ rest ↦ false ]

  unfoldable pub get_pathfinder_paths : ℕ → ℕ → State T W → Result NodePath
  get_pathfinder_paths target index s = do
    paths ← ok_or (StorageMap.lookup target s.paths) (fails RefreshSeedsError.path_does_not_exist)
    ok_or (get_elem? paths index) (fails RefreshSeedsError.index_exceeds_maximum)

  unfoldable pub candidate_insert : ℕ → ℕ → ℕ → State T W → State T W
  candidate_insert target pathfinder score s =
      let candidate : Candidate = record {
        score = score;
        pathfinder = pathfinder;
        has_challenge = false;
        add_at = s.now;
      } in
      score_list_insert s.score_list score (put_candidate target candidate s)

  unfoldable pub mutate_score : ℕ → ℕ → State T W → State T W
  mutate_score old_score new_score s =
      score_list_insert (score_removed s.score_list old_score) new_score s

  unfoldable pub remove_challenge : ℕ → State T W → State T W
  remove_challenge target s = record s {
    paths = StorageMap.remove target s.paths;
    result_hashs_sets = StorageMap.remove target s.result_hashs_sets;
    missed_paths = StorageMap.remove target s.missed_paths;
  }

  unfoldable pub restart : ℕ → ℕ → ℕ → State T W → State T W
  restart target pathfinder score s =
      let c = get_candidate target s in
      let scored = mutate_score c.score score s in
      let changed =
        put_candidate target (record c { score = score; pathfinder = pathfinder }) scored in
      deposit_event (Event.challenge_restarted target score) (remove_challenge target changed)

module _ {T W : Type 0} (cfg : Config T W) where
  open cfg use {
    reputation, trust_base, seeds_base, challenge_base, confirmation_period, max_seed_count,
  }

  unfoldable pub is_all_timeout : State T W → Bool
  is_all_timeout s =
      ltb (wrapping_add u32 (reputation.get_last_refresh_at s.world) confirmation_period) s.now

  unfoldable pub check_step : State T W → Result (Unit {0})
  check_step s =
      ensure (reputation.is_step TirStep.seed s.world) (fails RefreshSeedsError.step_not_match)

  -- The highest scores, and the storage without the old seeds.
  unfoldable pub hand_first_time : List ℕ → State T W → List ℕ × State T W
  hand_first_time score_list s =
      let len = length score_list in
      let best =
        if ltb max_seed_count len then drop (len - max_seed_count) score_list else score_list in
      (
        best,
        deposit_event (Event.seeds_selected (length best % u32))
            (record s { world = seeds_base.remove_all s.world }),
      )

  -- The closure of `try_mutate` works on the candidate that it has read, which is written last.
  unfoldable pub do_harvest_challenge : ℕ → ℕ → State T W → Result (State T W)
  do_harvest_challenge who target s = do
    let c = get_candidate target s
    (maybe_score, harvested) ← challenge_base.harvest who app_id target s
    let scored : Candidate = elim maybe_score [ none ↦ c | some score ↦ record c { score = score } ]
    ok (put_candidate target scored (remove_challenge target harvested))

  unfoldable pub check_mid_path : List ℕ → ℕ → ℕ → State T W → Result (List ℕ)
  check_mid_path mid_path start stop s = do
    let nodes = start ∷ (mid_path ++ (stop ∷ []))
    trust_base.valid_nodes nodes s.world
    ok nodes

  unfoldable pub checked_nodes : List ℕ → ℕ → State T W → Result (Unit {0})
  checked_nodes nodes target s = do
    ensure (leb 2 (length nodes)) (fails RefreshSeedsError.path_too_short)
    ensure (contains target nodes) (fails RefreshSeedsError.no_target_node)
    trust_base.valid_nodes nodes s.world
