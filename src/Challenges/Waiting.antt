-- ===== src/Challenges/Waiting.antt =====
-- pallets/challenges/src/lib.rs: the activity record of an application at a concrete storage.
use zero_dao_node.Base.{◌≡◌, refl, [], ◌∷◌, arith}
use zero_dao_node.Base.DoubleMap
use zero_dao_node.Base.DoubleMap.{lookup}
use zero_dao_node.Base.StorageMap.{get_or}
use zero_dao_node.Dispatch.{ok}
use zero_dao_node.Primitives.Metadata.{ChallengeStatus}
use zero_dao_node.Challenges.{State, mutate_metadata}
use zero_dao_node.Challenges.Methods.{reply}
use zero_dao_node.Challenges.Tests.{World, config, game, start}
use zero_dao_node.Challenges.Timeout.{IsRecorded, reply_unrecorded}

start-IsRecorded : IsRecorded 7 start
unfolding lookup get_or
start-IsRecorded = record { past = omega arith; latest = λ target m found. ground arith }

-- The pathfinder answers at block 200, the last recorded activity was at block 10.
abbrev asked : State World
asked = record start {
  metadatas =
      record { key1 = 7; key2 = 9; value = record game { status = ChallengeStatus.examine } } ∷ [];
}

abbrev answered : State World
answered = record start {
  metadatas =
      record {
        key1 = 7;
        key2 = 9;
        value = record game { progress = record { total = 5; done = 2 }; last_update = 200 };
      }
      ∷ [];
}

reply-asked : reply config 7 2 9 5 2 (λ done remark score w. ok (score, w)) asked ≡ ok answered
unfolding reply mutate_metadata lookup DoubleMap.insert
reply-asked = refl

reply_unrecorded_example : ¬ IsRecorded 7 answered
unfolding get_or
reply_unrecorded_example =
    reply_unrecorded config 7 2 9 5 2 (λ done remark score w. ok (score, w)) asked answered
      (omega arith) reply-asked
