-- ===== src/Reputation/Tests.antt =====
-- pallets/reputation/src/lib.rs: a round by hand.
use zero_dao_node.Base.{ℕ, ◌≡◌, inr, [], ◌∷◌, refl, arith, some, none}
use zero_dao_node.Base.StorageMap.{get_or, insert}
use zero_dao_node.Dispatch.{ok, err, ReputationError}
use zero_dao_node.Primitives.{TirStep}
use zero_dao_node.Reputation.{
  State, fails, new_round, refresh_reputation, get_reputation, get_reputation_new, set_free,
}
use zero_dao_node.Reputation.Rounds.{IsSound, IsOrdered, Step, Reach, Reach-IsSound}
use zero_dao_node.Reputation.Visible.{refresh_reputation_lem, new_round_lem, set_free_lem}

-- Before the first round, at block 7.
abbrev genesis : State
genesis = record {
  system_info = record { nonce = 0; last = 0; next = 0; period = 10; step = TirStep.free };
  reputation_scores = [];
  events = [];
  now = 7;
}

-- In the first round.
abbrev started : State
started = record genesis {
  system_info = record { nonce = 1; last = 7; next = 17; period = 10; step = TirStep.seed };
}

-- The account 3 has been refreshed to 50.
abbrev scored : State
scored = record started {
  reputation_scores =
      (
        3,
        record {
          first = record { score = 50; nonce = 1 };
          second = record { score = 0; nonce = 0 };
        },
      )
      ∷ [];
}

genesis-IsSound : IsSound genesis
unfolding IsSound IsOrdered get_or
genesis-IsSound = (omega arith, λ who. (omega arith, inr (refl, refl)))

refresh-started : refresh_reputation (3, 50) started ≡ ok scored
unfolding refresh_reputation get_or insert
refresh-started = refl

run : Reach genesis scored
unfolding new_round
run =
    Reach.then (Reach.then Reach.here (Step.starting (omega arith) refl))
      (Step.refreshing (3, 50) refresh-started)

started-IsSound : IsSound started
unfolding new_round
started-IsSound =
    Reach-IsSound (Reach.then Reach.here (Step.starting (omega arith) refl)) genesis-IsSound

Reach-IsSound_example : IsSound scored
Reach-IsSound_example = Reach-IsSound run genesis-IsSound

refresh_reputation_lem_example :
    (get_reputation 3 scored ≡ get_reputation 3 started)
    × (get_reputation_new 3 scored ≡ some 50)
    × ((again : ℕ)
        → refresh_reputation (3, again) scored
          ≡ err (fails ReputationError.reputation_already_updated))
refresh_reputation_lem_example =
    refresh_reputation_lem 3 50 3 started scored started-IsSound refl refresh-started

new_round_lem_example :
    (get_reputation 3 started ≡ get_reputation 3 genesis) × (get_reputation_new 3 started ≡ none)
unfolding new_round
new_round_lem_example = new_round_lem 3 genesis started genesis-IsSound (omega arith) refl

set_free_lem_example : get_reputation 3 (set_free scored) ≡ get_reputation_new 3 scored
set_free_lem_example = set_free_lem 3 scored (Reach-IsSound run genesis-IsSound) refl
