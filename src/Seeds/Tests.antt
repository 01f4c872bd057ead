-- ===== src/Seeds/Tests.antt =====
-- pallets/seeds/src/lib.rs at a concrete storage, over the reputation pallet in the free step.
use zero_dao_node.Base.{ℕ, ◌≡◌, refl, List, [], ◌∷◌, arith}
use zero_dao_node.Dispatch.{ok}
use zero_dao_node.Fixtures.{listed, contains, add, without, count}
use zero_dao_node.Primitives.{TirStep}
use zero_dao_node.Reputation
use zero_dao_node.Reputation.{zd_reputation}
use zero_dao_node.Seeds.{
  Config, State, Event, is_seed, get_seed_count, add_seed, new_seed, remove_seed,
}
use zero_dao_node.Seeds.Laws.{remove_seed-new_seed}

abbrev config : Config (List ℕ) Reputation.State
config = record { ordered_set = listed; reputation = zd_reputation }

abbrev start : State (List ℕ) Reputation.State
start = record {
  seeds = 4 ∷ [];
  events = [];
  world = record {
    system_info = record { nonce = 2; last = 7; next = 17; period = 10; step = TirStep.free };
    reputation_scores = [];
    events = [];
    now = 9;
  };
}

abbrev grown : State (List ℕ) Reputation.State
grown = record start { seeds = 5 ∷ 4 ∷ []; events = Event.seed_added 5 ∷ [] }

abbrev back : State (List ℕ) Reputation.State
back = record start { events = Event.seed_removed 5 ∷ Event.seed_added 5 ∷ [] }

new-start : new_seed config (ok tt) 5 start ≡ ok grown
unfolding new_seed add_seed is_seed Reputation.is_step contains add
new-start = refl

remove-grown : remove_seed config (ok tt) 5 grown ≡ ok back
unfolding remove_seed is_seed Reputation.is_step contains without
remove-grown = refl

remove_seed-new_seed_example :
    (is_seed config 4 back ≡ is_seed config 4 start)
    × (get_seed_count config back ≡ get_seed_count config start)
unfolding count contains
remove_seed-new_seed_example =
    remove_seed-new_seed config (ok tt) 5 4 start grown back (omega arith) (omega arith) new-start
      remove-grown
