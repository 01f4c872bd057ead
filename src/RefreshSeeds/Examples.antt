-- ===== src/RefreshSeeds/Examples.antt =====
-- pallets/refresh-seeds/src at the concrete storage of `Tests`: its theorems at runs of the calls.
use zero_dao_node.Base.{
  ℕ, ◌+◌, ◌*◌, ◌≡◌, ◌≤◌, ◌<◌, refl, true, false, none, some, List, [], ◌∷◌, length, arith, u64,
  drop, last?,
}
use zero_dao_node.Base.StorageMap.{lookup, insert, get_or, remove, sum_by}
use zero_dao_node.Dispatch.{ok}
use zero_dao_node.External.{sum_of}
use zero_dao_node.RefreshSeeds.{
  Candidate, ResultHash, PostResultHash, NodePath, State, Event, get_candidate, get_result_hashs,
  slice_lt, contains, checked_nodes, do_harvest_challenge, remove_challenge, check_step,
}
use zero_dao_node.RefreshSeeds.Calls
use zero_dao_node.RefreshSeeds.Harvest.{staking_amount}
use zero_dao_node.Sorting
use zero_dao_node.RefreshSeeds.Orders.{
  from_u64, connect, connect_to_u64, from_u64-connect_to_u64, IsBytes, range, FullOrder,
}
use zero_dao_node.RefreshSeeds.ScoreList.{IsSorted}
use zero_dao_node.RefreshSeeds.Accounts.{IsAccounted}
use zero_dao_node.RefreshSeeds.Shares.{harvest_challenge-IsAccounted, harvest_challenge-unstaked}
use zero_dao_node.RefreshSeeds.Disputes.{Call, Reach, IsAbout, disputes-IsAccounted}
use zero_dao_node.RefreshSeeds.Frame.{keep}
use zero_dao_node.RefreshSeeds.Hashes.{
  update_result_hashs, extended, verify_result_hashs, fold_scores, parent_score,
}
use zero_dao_node.RefreshSeeds.Levels.{IsLevels, AllAscending, IsBalanced, update_result_hashs_lem}
use zero_dao_node.RefreshSeeds.PathChecks.{
  path_share, ArePaths, verify_paths_lem, make_full_order-deeper,
}
use zero_dao_node.RefreshSeeds.PathData.{
  verify_paths, path_scores, make_full_order, sha1_hasher, hex,
}
use zero_dao_node.RefreshSeeds.Seating.{Harvested, harvest_seed-Harvested, Harvests, Harvests-bound}
use zero_dao_node.RefreshSeeds.Tests.{
  config, T, W, games-Framed, games-LaunchKeeps, laws, before, one_added, both_added, restarted,
  ready, one_seated, all_harvested, before-IsAccounted, add-5, add-6, shorter-5, harvest-5,
  harvest-6, proposal_5, proposal_6,
}

IsAbout-add : (target score : ℕ) (s : State T W) → IsAbout (Call.add target score) s
unfolding IsAbout
IsAbout-add target score s other e = absurd (ground arith)

IsAbout-shorter : IsAbout (Call.evidence_of_shorter 5 0 []) both_added
unfolding IsAbout lookup
IsAbout-shorter target e = (proposal_5, ground (arith, e))

dispute_run : Reach config before restarted
dispute_run =
    Reach.call
      (Reach.call (Reach.call Reach.stay (Call.add 5 30) 2 (IsAbout-add 5 30 before) add-5)
        (Call.add 6 20) 2 (IsAbout-add 6 20 one_added) add-6)
      (Call.evidence_of_shorter 5 0 []) 4 IsAbout-shorter shorter-5

disputes-IsAccounted_example : IsAccounted restarted
disputes-IsAccounted_example =
    disputes-IsAccounted config games-Framed games-LaunchKeeps before restarted dispute_run
      before-IsAccounted

added-IsAccounted : IsAccounted both_added
added-IsAccounted =
    disputes-IsAccounted config games-Framed games-LaunchKeeps before both_added
      (Reach.call (Reach.call Reach.stay (Call.add 5 30) 2 (IsAbout-add 5 30 before) add-5)
        (Call.add 6 20) 2 (IsAbout-add 6 20 one_added) add-6)
      before-IsAccounted

added-IsSorted : IsSorted (20 ∷ 30 ∷ [])
unfolding IsAccounted
added-IsSorted = added-IsAccounted.0

abbrev scores : List ℕ
scores = 20 ∷ 30 ∷ []

harvest_seed-Harvested_example : (c : Candidate) × Harvested config 5 ready one_seated c
harvest_seed-Harvested_example =
    harvest_seed-Harvested config 2 5 ready one_seated added-IsSorted harvest-5

Harvests-bound_example :
    IsSorted all_harvested.score_list
    × (config.seeds_base.get_seed_count all_harvested.world + length all_harvested.score_list ≤ 1)
Harvests-bound_example =
    Harvests-bound config laws ready all_harvested added-IsSorted refl
      (Harvests.more (Harvests.first 2 5 harvest-5) 2 6 harvest-6)

-- The pathfinder has not answered, and the share of the game gives the candidate 5 the score 7.
abbrev challenge_harvested : State T W
challenge_harvested = record both_added {
  candidates = (5, record proposal_5 { score = 7 }) ∷ (6, record proposal_5 { score = 20 }) ∷ [];
  paths = [];
  events = Event.challenge_harvested 4 5 ∷ both_added.events;
}

harvest_challenge-5 : Calls.harvest_challenge config (ok 4) 5 both_added ≡ ok challenge_harvested
unfolding Calls.harvest_challenge do_harvest_challenge remove_challenge check_step
    zero_dao_node.Reputation.is_step get_or insert remove
harvest_challenge-5 = refl

lookup-5 : lookup 5 both_added.candidates ≡ some proposal_5
unfolding lookup
lookup-5 = refl

harvest_challenge-IsAccounted_example : ¬ IsAccounted challenge_harvested
harvest_challenge-IsAccounted_example =
    harvest_challenge-IsAccounted config 4 5 7 proposal_5 both_added both_added challenge_harvested
      added-IsAccounted lookup-5 (λ e. absurd (omega (arith, e))) refl (keep both_added)
      harvest_challenge-5

-- The share of a game whose target 9 is no candidate.
abbrev unstaked : State T W
unstaked = record both_added {
  candidates =
      (5, proposal_5)
      ∷ (6, proposal_6)
      ∷ (9, record { score = 7; pathfinder = 0; has_challenge = false; add_at = 0 })
      ∷ [];
  events = Event.challenge_harvested 4 9 ∷ both_added.events;
}

harvest_challenge-9 : Calls.harvest_challenge config (ok 4) 9 both_added ≡ ok unstaked
unfolding Calls.harvest_challenge do_harvest_challenge remove_challenge check_step
    zero_dao_node.Reputation.is_step get_or insert remove
harvest_challenge-9 = refl

lookup-9 : lookup 9 both_added.candidates ≡ none
unfolding lookup
lookup-9 = refl

harvest_challenge-unstaked_example :
    ((get_candidate 9 unstaked).pathfinder ≡ 0)
    × (sum_by (staking_amount config) unstaked.candidates
        ≡ sum_by (staking_amount config) both_added.candidates + 50)
    × (unstaked.ledger ≡ both_added.ledger)
unfolding get_or
harvest_challenge-unstaked_example =
    harvest_challenge-unstaked config 4 9 (some 7) both_added both_added unstaked lookup-9 refl
      (keep both_added) harvest_challenge-9

-- The pathfinder uploads a first level, whose scores add up to the score of the candidate.
abbrev hashs : List PostResultHash
hashs = (record { byte0 = 49; byte1 = 50 }, 10) ∷ (record { byte0 = 51; byte1 = 50 }, 20) ∷ []

abbrev uploaded : State T W
uploaded = record both_added {
  result_hashs_sets =
      (
        5,
        (record { order = record { byte0 = 49; byte1 = 50 }; score = 10 }
              ∷ record { order = record { byte0 = 51; byte1 = 50 }; score = 20 }
              ∷ [])
            ∷ [],
      )
      ∷ [];
}

first_upload : update_result_hashs config 5 hashs true 0 false both_added ≡ ok uploaded
unfolding update_result_hashs extended Sorting.from_list Sorting.insert_new slice_lt
    verify_result_hashs fold_scores parent_score last? get_or insert
first_upload = refl

none_yet : IsLevels (get_result_hashs 5 both_added)
unfolding IsLevels AllAscending get_or
none_yet = (omega arith, tt)

update_result_hashs_lem_example :
    IsLevels (get_result_hashs 5 uploaded)
    × (true ≡ true → IsBalanced config 5 0 (get_result_hashs 5 uploaded) both_added)
update_result_hashs_lem_example =
    update_result_hashs_lem config 5 0 hashs true false both_added uploaded none_yet first_upload

abbrev paths : List NodePath
paths =
    record { nodes = 7 ∷ 5 ∷ 8 ∷ []; total = 4 } ∷ record { nodes = 7 ∷ 6 ∷ 5 ∷ []; total = 3 } ∷ []

abbrev examined : ResultHash
examined = record { order = record { byte0 = 49; byte1 = 50 }; score = 58 }

verify : verify_paths config paths 5 examined both_added ≡ ok tt
unfolding verify_paths path_scores checked_nodes contains
verify = refl

verify_paths_lem_example :
    (sum_of path_share paths ≡ examined.score) × ArePaths config 5 both_added paths
verify_paths_lem_example = verify_paths_lem config paths 5 examined both_added (omega arith) verify

two-IsBytes : IsBytes (49 ∷ 50 ∷ [])
unfolding IsBytes
two-IsBytes = (omega arith, (omega arith, tt))

from_u64-connect_to_u64_example :
    (n : ℕ) × (filled : FullOrder) × (connect_to_u64
        (49 ∷ 50 ∷ [])
        (record { byte0 = 51; byte1 = 52 })
      ≡ some (n, filled))
    × (n < u64)
    × (from_u64 n (2 + 1) ≡ ok (connect (49 ∷ 50 ∷ []) (record { byte0 = 51; byte1 = 52 })))
from_u64-connect_to_u64_example =
    from_u64-connect_to_u64 (49 ∷ 50 ∷ []) (record { byte0 = 51; byte1 = 52 }) 2 two-IsBytes
      (omega arith) (omega arith) (omega arith) (omega arith) refl

-- With the encoding and the digest of `config`, the ends 1 and 2 have the hash "0102".
abbrev order_1_2 : List ℕ
order_1_2 = 48 ∷ 49 ∷ 48 ∷ 50 ∷ []

make_1_2 : make_full_order config 1 2 (1 + 1) ≡ ok order_1_2
unfolding make_full_order sha1_hasher hex drop
make_1_2 = refl

make_full_order-deeper_example :
    (length order_1_2 ≡ (1 + 1) * range)
    × (make_full_order config 1 2 1 ≡ ok (drop range order_1_2))
make_full_order-deeper_example = make_full_order-deeper config 1 2 1 order_1_2 make_1_2
