-- ===== src/RefreshSeeds/Playing.antt =====
-- pallets/refresh-seeds/src over pallets/challenges at a concrete storage: 2 proposes the candidate 5,
-- and 4 challenges it.
use zero_dao_node.Base.{ℕ, ◌≡◌, refl, true, false, none, [], ◌∷◌, length, get_elem?, insert_at}
use zero_dao_node.Base.StorageMap.{lookup, insert, get_or}
use zero_dao_node.Base.DoubleMap
use zero_dao_node.Dispatch.{ok}
use zero_dao_node.Fixtures.{parts, balance, move}
use zero_dao_node.Primitives.Metadata.{default_metadata}
use zero_dao_node.Tokens
use zero_dao_node.Challenges
use zero_dao_node.Challenges.Methods
use zero_dao_node.RefreshSeeds.{
  State, Config, Event, check_step, candidate_insert, score_list_insert,
}
use zero_dao_node.RefreshSeeds.Calls
use zero_dao_node.RefreshSeeds.ScoreList.{score_inserted, binary_search, search_loop}
use zero_dao_node.RefreshSeeds.Disputes.{Call, run}
use zero_dao_node.RefreshSeeds.Games.{GameWorld, seeds_games}
use zero_dao_node.RefreshSeeds.Composed.{over_challenges}
use zero_dao_node.RefreshSeeds.Tests
use zero_dao_node.RefreshSeeds.Tests.{T, tokens}

abbrev W : Type 0
W = GameWorld ℕ

-- The step is that of the seeds; the rest of the world is the block of the last activity.
abbrev config : Config T W
config = record {
  token = Tests.config.token;
  reputation = record {
    mutate_reputation = λ who score w. w;
    set_step = λ step w. w;
    is_step = λ step w. true;
    get_reputation_new = λ who w. none;
    get_reputation = λ who w. none;
    refresh_reputation = λ user_score w. ok w;
    get_last_refresh_at = λ w. w.world;
    set_last_refresh_at = λ w. record w { world = 30 };
    set_free = λ w. w;
    new_round = λ w. ok w;
  };
  trust_base = record {
    remove_all_tmp = λ w. w;
    get_trust_count = λ who w. 1;
    get_trust_count_old = λ who w. 1;
    is_trust = λ who target w. true;
    is_trust_old = λ who target w. true;
    get_trust_old = λ who w. [];
    computed_path = λ nodes w. ok (length nodes, 7);
    valid_nodes = λ nodes w. ok tt;
  };
  seeds_base = record {
    is_seed = λ who w. false;
    get_seed_count = λ w. 0;
    remove_all = λ w. w;
    add_seed = λ who w. w;
  };
  challenge_base = seeds_games (Tests.config.token) parts 20 10;
  perbill = parts;
  hash_set = Tests.config.hash_set;
  encode = Tests.config.encode;
  sha1 = Tests.config.sha1;
  seed_staking_amount = 50;
  seed_challenge_amount = 20;
  seed_reserv_staking = 10;
  max_seed_count = 1;
  confirmation_period = 20;
}

abbrev before : State T W
before = record {
  result_hashs_sets = [];
  candidates = [];
  score_list = [];
  paths = [];
  missed_paths = [];
  seeds_confirmed = false;
  events = [];
  now = 30;
  ledger = tokens;
  world = record { metadatas = []; last_at = []; events = []; now = 30; world = 0 };
}

abbrev proposed : State T W
proposed = record before {
  candidates = (5, record { score = 30; pathfinder = 2; has_challenge = false; add_at = 30 }) ∷ [];
  score_list = 30 ∷ [];
  events = Event.new_candidate 2 5 30 ∷ [];
  ledger = record tokens {
    currency = (0, 550) ∷ (2, 50) ∷ (4, 100) ∷ [];
    accounts = (2, record { pending = 0; social = 0 }) ∷ [];
    total_staking = 350;
  };
  world = record before.world { world = 30 };
}

propose : run (over_challenges config 20 10) (Call.add 5 30) (ok 2) before ≡ ok proposed
unfolding run Calls.add check_step lookup Tokens.staking Tokens.pay_with_pending Tokens.do_staking
    Tokens.set_pending_balance get_or move balance insert candidate_insert score_list_insert
    score_inserted search_loop binary_search insert_at get_elem?
propose = refl

abbrev played : State T W
played = record proposed {
  candidates = (5, record { score = 30; pathfinder = 2; has_challenge = true; add_at = 30 }) ∷ [];
  events = Event.new_challenge 4 5 ∷ Event.new_candidate 2 5 30 ∷ [];
  ledger = record proposed.ledger {
    currency = (0, 560) ∷ (2, 50) ∷ (4, 90) ∷ [];
    accounts =
        (2, record { pending = 0; social = 0 }) ∷ (4, record { pending = 0; social = 0 }) ∷ [];
    total_staking = 360;
  };
  world = record proposed.world {
    metadatas =
        record {
          key1 = 8_315_163_767_719_600_160;
          key2 = 5;
          value = record default_metadata {
            challenger = 4;
            pathfinder = 2;
            pool = record { staking = 30; earnings = 0 };
            score = 40;
            last_update = 30;
          };
        }
        ∷ [];
    last_at = (8_315_163_767_719_600_160, 30) ∷ [];
    events = Challenges.Event.challenged 4 5 2 0 ∷ [];
  };
}

play : run (over_challenges config 20 10) (Call.challenge 5 40) (ok 4) proposed ≡ ok played
unfolding run Calls.challenge check_step lookup Methods.launch Challenges.staking DoubleMap.lookup
    DoubleMap.insert Challenges.after_upload Tokens.staking Tokens.pay_with_pending
    Tokens.do_staking Tokens.set_pending_balance get_or move balance insert
play = refl
