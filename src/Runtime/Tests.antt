-- ===== src/Runtime/Tests.antt =====
-- runtime/src/lib.rs at a concrete storage: 2 proposes the candidate 5, 4 disputes it, and a block
-- passes.
use zero_dao_node.Base.{
  insert_at, get_elem?, ℕ, ◌+◌, ◌≤◌, ◌≡◌, refl, true, false, none, some, List, [], ◌∷◌, arith,
}
use zero_dao_node.Base.StorageMap.{StorageMap, lookup, insert, get_or}
use zero_dao_node.Base.DoubleMap
use zero_dao_node.Dispatch.{ok, ◌>>=◌}
use zero_dao_node.Fixtures.{parts, ledger, listed, balance, move}
use zero_dao_node.Sorting.{sorting}
use zero_dao_node.Primitives.{TirStep}
use zero_dao_node.Tokens
use zero_dao_node.Challenges
use zero_dao_node.Challenges.Methods
use zero_dao_node.RefreshSeeds
use zero_dao_node.RefreshSeeds.{hash_before}
use zero_dao_node.RefreshSeeds.Calls
use zero_dao_node.RefreshSeeds.Disputes
use zero_dao_node.RefreshSeeds.ScoreList.{IsSorted, score_inserted, binary_search, search_loop}
use zero_dao_node.Reputation
use zero_dao_node.Primitives.Metadata.{default_metadata}
use zero_dao_node.Tokens.{TokensState}
use zero_dao_node.Tokens.Laws.{zd_tokens}
use zero_dao_node.Support.Backed.{Backed}
use zero_dao_node.Challenges.Played.{zd_challenges}
use zero_dao_node.Challenges.Played.Funds.{pools, zd_challenges-Backed}
use zero_dao_node.RefreshReputation.{payroll_amount}
use zero_dao_node.RefreshReputation.Runs
use zero_dao_node.RefreshSeeds.Games.{on_storage}
use zero_dao_node.RefreshSeeds.Funds
use zero_dao_node.RefreshSeeds.Rounds.{Round, Round-Funded, Course, Course-IsSorted}
use zero_dao_node.Runtime.{
  Storage, Crates, Call, dispatch, Pallets, as_candidates, tokens_config, candidates_config,
  candidate_games,
}
use zero_dao_node.Runtime.Backing.{pooled, owed, claims, candidates-Funding}
use zero_dao_node.Runtime.Traces.{Trace, Trace-Funded, Meets, staked, all_minted}
use zero_dao_node.Runtime.Progress.{blocks, harvest_ref_all_ends}

abbrev crates : Crates (StorageMap ℕ) (List ℕ)
crates = record {
  perbill = parts;
  multi_currency = ledger;
  ordered_set = listed;
  hash_set = sorting hash_before;
  encode = λ who. who ∷ [];
  sha1 = λ bytes. bytes;
}

abbrev pallets : Pallets (List ℕ)
pallets = record {
  trusted_list = [];
  trust_temp_list = [];
  events = [];
  world = record {
    seeds = [];
    events = [];
    world = record {
      system_info = record { nonce = 1; last = 0; next = 0; period = 100; step = TirStep.seed };
      reputation_scores = [];
      events = [];
      now = 30;
    };
  };
}

abbrev before : Storage (StorageMap ℕ) (List ℕ)
before = record {
  tokens = record {
    currency = (0, 3_000_000_000) ∷ (2, 2_000_000_000) ∷ (4, 2_000_000_000) ∷ [];
    bonus = 0;
    accounts = [];
    total_staking = 2_000_000_000;
    events = [];
  };
  pallets = pallets;
  games = record { metadatas = []; last_at = []; events = []; now = 0; world = tt };
  candidates = record {
    result_hashs_sets = [];
    candidates = [];
    score_list = [];
    paths = [];
    missed_paths = [];
    seeds_confirmed = false;
    events = [];
    now = 0;
    ledger = tt;
    world = tt;
  };
  refreshes = record {
    started_at = none;
    payrolls = [];
    records = [];
    paths = [];
    events = [];
    now = 0;
    ledger = tt;
    world = tt;
  };
}

abbrev touched : Pallets (List ℕ)
touched = record pallets {
  world = record pallets.world {
    world = record pallets.world.world {
      system_info = record pallets.world.world.system_info { last = 30 };
    };
  };
}

abbrev proposed : Storage (StorageMap ℕ) (List ℕ)
proposed = record before {
  tokens = record before.tokens {
    currency = (0, 4_000_000_000) ∷ (2, 1_000_000_000) ∷ (4, 2_000_000_000) ∷ [];
    accounts = (2, record { pending = 0; social = 0 }) ∷ [];
    total_staking = 3_000_000_000;
  };
  pallets = touched;
  candidates = record before.candidates {
    candidates =
        (5, record { score = 30; pathfinder = 2; has_challenge = false; add_at = 30 }) ∷ [];
    score_list = 30 ∷ [];
    events = RefreshSeeds.Event.new_candidate 2 5 30 ∷ [];
    now = 30;
  };
}

propose : dispatch crates (Call.refresh_seeds (Disputes.Call.add 5 30)) 2 before ≡ ok proposed
unfolding dispatch Disputes.run Calls.add RefreshSeeds.check_step lookup Tokens.staking
    Tokens.pay_with_pending Tokens.do_staking Tokens.set_pending_balance get_or move balance insert
    RefreshSeeds.candidate_insert RefreshSeeds.score_list_insert score_inserted search_loop
    binary_search insert_at get_elem? Reputation.is_step Reputation.set_last_refresh
    Reputation.set_last_refresh_at
propose = refl

-- The challenge moves a tenth of the candidate's stake into the pool of the game.
abbrev played : Storage (StorageMap ℕ) (List ℕ)
played = record proposed {
  tokens = record proposed.tokens {
    currency = (0, 4_000_000_100) ∷ (2, 1_000_000_000) ∷ (4, 1_999_999_900) ∷ [];
    accounts =
        (2, record { pending = 0; social = 0 }) ∷ (4, record { pending = 0; social = 0 }) ∷ [];
    total_staking = 3_000_000_100;
  };
  games = record {
    metadatas =
        record {
          key1 = 8_315_163_767_719_600_160;
          key2 = 5;
          value = record default_metadata {
            challenger = 4;
            pathfinder = 2;
            pool = record { staking = 100_000_100; earnings = 0 };
            score = 40;
            last_update = 30;
          };
        }
        ∷ [];
    last_at = (8_315_163_767_719_600_160, 30) ∷ [];
    events = Challenges.Event.challenged 4 5 2 0 ∷ [];
    now = 0;
    world = tt;
  };
  candidates = record proposed.candidates {
    candidates = (5, record { score = 30; pathfinder = 2; has_challenge = true; add_at = 30 }) ∷ [];
    events = RefreshSeeds.Event.new_challenge 4 5 ∷ RefreshSeeds.Event.new_candidate 2 5 30 ∷ [];
  };
}

dispute : dispatch crates (Call.refresh_seeds (Disputes.Call.challenge 5 40)) 4 proposed ≡ ok played
unfolding dispatch Disputes.run Calls.challenge RefreshSeeds.check_step lookup Methods.launch
    Challenges.staking DoubleMap.lookup DoubleMap.insert Challenges.after_upload Tokens.staking
    Tokens.pay_with_pending Tokens.do_staking Tokens.set_pending_balance get_or move balance insert
    Reputation.is_step Reputation.set_last_refresh Reputation.set_last_refresh_at
dispute = refl

Meets-propose : Meets crates (Call.refresh_seeds (Disputes.Call.add 5 30)) before
unfolding Meets Disputes.IsAbout
Meets-propose target e = absurd (ground arith)

Meets-dispute : Meets crates (Call.refresh_seeds (Disputes.Call.challenge 5 40)) proposed
unfolding Meets Disputes.IsAbout
Meets-dispute target e = absurd (ground arith)

abbrev trace : Trace crates before played
trace =
    Trace.then
      (Trace.then Trace.stay (Call.refresh_seeds (Disputes.Call.add 5 30)) 2 (omega arith)
        (omega arith) Meets-propose propose)
      (Call.refresh_seeds (Disputes.Call.challenge 5 40)) 4 (omega arith) (omega arith)
      Meets-dispute dispute

Trace-Funded_example :
    staked crates before + claims crates played
    ≤ staked crates played + claims crates before + all_minted crates before played trace
Trace-Funded_example = Trace-Funded crates before played trace

abbrev games_config :
    Challenges.Config
      (RefreshSeeds.State (TokensState (StorageMap ℕ)) (Storage (StorageMap ℕ) (List ℕ)))
games_config = on_storage (zd_tokens (tokens_config crates)) parts 100 100

zd_challenges-Backed_example :
    Backed
      (games_config.token.staked)
      (pools candidate_games)
      100
      (zd_challenges candidate_games (λ r. r.now) games_config)
zd_challenges-Backed_example =
    zd_challenges-Backed candidate_games (λ r. r.now) games_config (λ g s. refl)

-- The same two calls, as those of the pallet of candidates.
add :
    Disputes.run (candidates_config crates) (Disputes.Call.add 5 30) (ok 2) (as_candidates before)
    ≡ ok (record (as_candidates proposed) { world = record before { pallets = touched } })
unfolding Disputes.run Calls.add RefreshSeeds.check_step lookup Tokens.staking
    Tokens.pay_with_pending Tokens.do_staking Tokens.set_pending_balance get_or move balance insert
    RefreshSeeds.candidate_insert RefreshSeeds.score_list_insert score_inserted search_loop
    binary_search insert_at get_elem? Reputation.is_step Reputation.set_last_refresh
    Reputation.set_last_refresh_at
add = refl

abbrev added : RefreshSeeds.State (TokensState (StorageMap ℕ)) (Storage (StorageMap ℕ) (List ℕ))
added = record (as_candidates proposed) { world = record before { pallets = touched } }

IsAbout-add : Disputes.IsAbout (Disputes.Call.add 5 30) (as_candidates before)
unfolding Disputes.IsAbout
IsAbout-add target e = absurd (ground arith)

abbrev round :
    Round (candidates_config crates) (pooled crates) (owed crates) 100 (as_candidates before) added
round = Round.call Round.stay (Disputes.Call.add 5 30) 2 (omega arith) IsAbout-add add

Round-Funded_example :
    Funds.Funded
      (candidates_config crates)
      (pooled crates)
      (owed crates)
      (as_candidates before)
      added
Round-Funded_example =
    Round-Funded (candidates_config crates) (pooled crates) (owed crates) 100
      (candidates-Funding crates) (as_candidates before) added round

nil-IsSorted : IsSorted []
unfolding IsSorted
nil-IsSorted i j le lt = absurd (omega arith)

course : Course (candidates_config crates) (as_candidates before) added
course = Course.call Course.stay (Disputes.Call.add 5 30) 2 add

Course-IsSorted_example : IsSorted (30 ∷ [])
Course-IsSorted_example =
    Course-IsSorted (candidates_config crates) (pooled crates) (owed crates) 100
      (candidates-Funding crates) (as_candidates before) added nil-IsSorted course

-- An update of the reputations that began at the block 20, and one user refreshed for the fee 5.
abbrev updating : Storage (StorageMap ℕ) (List ℕ)
updating = record before {
  pallets = record pallets {
    world = record pallets.world {
      world = record pallets.world.world {
        system_info = record pallets.world.world.system_info { step = TirStep.reputation };
      };
    };
  };
  refreshes = record before.refreshes {
    started_at = some 20;
    payrolls = (2, record { count = 1; total_fee = 5; update_at = 25 }) ∷ [];
  };
}

harvest_ref_all_ends_example :
    (s' : Storage (StorageMap ℕ) (List ℕ)) × ((blocks crates 80 updating
        >>= dispatch crates (Call.refresh_reputation Runs.Call.harvest_ref_all) 2)
      ≡ ok s')
    × (s'.pallets.world.world.system_info.step ≡ TirStep.free)
    × (s'.refreshes.started_at ≡ none)
    × (s'.tokens.total_staking + 1_000_000_005 ≡ 2_000_000_000)
unfolding get_or payroll_amount move balance insert
harvest_ref_all_ends_example =
    harvest_ref_all_ends crates 2 80
      ((0, 1_999_999_995) ∷ (2, 3_000_000_005) ∷ (4, 2_000_000_000) ∷ []) updating refl
      (omega arith) (omega arith) (omega arith) (omega arith) (omega arith) refl
