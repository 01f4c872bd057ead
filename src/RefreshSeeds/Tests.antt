-- ===== src/RefreshSeeds/Tests.antt =====
-- pallets/refresh-seeds/src at a concrete storage, over the pallets of tokens, seeds and reputation:
-- account 0 is the pool, 2 a pathfinder, 4 a challenger, 5 and 6 candidates.
use zero_dao_node.Base.{
  ℕ, if◌then◌else◌, ◌%◌, ◌≡◌, inl, inr, refl, true, false, none, some, List, [], ◌∷◌, length, arith,
  last?, get_elem?, insert_at, remove_at, drop,
}
use zero_dao_node.Base.StorageMap.{StorageMap, get_or, insert, remove, lookup, sum_by}
use zero_dao_node.Dispatch.{ok, ◌>>=◌, Result-cases}
use zero_dao_node.Fixtures
use zero_dao_node.Fixtures.{parts, ledger, listed, count-nil, count-add, balance, move, burn}
use zero_dao_node.Sorting.{sorting}
use zero_dao_node.Primitives.{TirStep}
use zero_dao_node.Support.{Reputation, ChallengeBase}
use zero_dao_node.Tokens
use zero_dao_node.Tokens.{TokensState}
use zero_dao_node.Tokens.Laws.{zd_tokens}
use zero_dao_node.Reputation
use zero_dao_node.Reputation.{zd_reputation}
use zero_dao_node.Seeds
use zero_dao_node.Seeds.{zd_seeds}
use zero_dao_node.RefreshSeeds.{
  Candidate, State, Config, Event, hash_before, check_step, get_pathfinder_paths, get_nodes_ends,
  check_mid_path, restart, mutate_score, remove_challenge, score_list_insert, candidate_insert,
  is_all_timeout, hand_first_time, is_all_harvest,
}
use zero_dao_node.RefreshSeeds.ScoreList.{
  IsSorted, count, search_loop, binary_search, score_inserted, score_removed,
}
use zero_dao_node.Support.Framed.{Framed, LaunchKeeps}
use zero_dao_node.RefreshSeeds.Frame.{IsKept}
use zero_dao_node.RefreshSeeds.Accounts.{IsAccounted}
use zero_dao_node.RefreshSeeds.Disputes.{Call, run}
use zero_dao_node.RefreshSeeds.Calls
use zero_dao_node.RefreshSeeds.Harvest.{harvest_seed, selected, seed_index, pay, seated, closed}
use zero_dao_node.RefreshSeeds.Selection.{SeedsLaws}

abbrev pub T : Type 0
T = TokensState (StorageMap ℕ)

abbrev pub W : Type 0
W = Seeds.State (List ℕ) Reputation.State

-- The pallet of reputation on the world of the pallet of seeds.
abbrev pub reputation : Reputation W
reputation = record {
  mutate_reputation =
      λ who score w. record w { world = zd_reputation.mutate_reputation who score w.world };
  set_step = λ step w. record w { world = zd_reputation.set_step step w.world };
  is_step = λ step w. zd_reputation.is_step step w.world;
  get_reputation_new = λ who w. zd_reputation.get_reputation_new who w.world;
  get_reputation = λ who w. zd_reputation.get_reputation who w.world;
  refresh_reputation = λ user_score w.
      (zd_reputation.refresh_reputation user_score w.world >>= λ world.
      ok (record w { world = world }));
  get_last_refresh_at = λ w. zd_reputation.get_last_refresh_at w.world;
  set_last_refresh_at = λ w. record w { world = zd_reputation.set_last_refresh_at w.world };
  set_free = λ w. record w { world = zd_reputation.set_free w.world };
  new_round = λ w. (zd_reputation.new_round w.world >>= λ world. ok (record w { world = world }));
}

-- Games that run the callback once, in which evidence ends the dispute with the score 3 and a share
-- with the score 7.
abbrev pub games : ChallengeBase (State T W)
games = record {
  is_all_harvest = λ app s. true;
  is_all_timeout = λ app now s. true;
  set_status = λ app target status s. s;
  launch = λ app target m s. ok s;
  harvest = λ who app target s. ok (some 7, s);
  examine = λ app who target index s. ok s;
  reply = λ app who target total count up s. (up true 0 0 s >>= λ done. ok done.1);
  evidence =
      λ app who target up s. (up 0 0 s >>= λ done. ok ((if done.0 then none else some 3), done.1));
  next = λ app who target count up s. (up 0 0 true s >>= λ done. ok done.2);
  arbitral = λ app who target up s. (up 0 0 s >>= λ done. ok done.3);
}

-- Everybody trusts everybody; at most one seed.
abbrev pub config : Config T W
config = record {
  token = zd_tokens (record { perbill = parts; multi_currency = ledger; social_pool = 0 });
  reputation = reputation;
  trust_base = record {
    remove_all_tmp = λ w. w;
    get_trust_count = λ who w. 1;
    get_trust_count_old = λ who w. 1;
    is_trust = λ who target w. true;
    is_trust_old = λ who target w. true;
    get_trust_old = λ who w. [];
    computed_path = λ nodes w. ok (length nodes, 7);
    valid_nodes = λ nodes w. ok tt;
  };
  seeds_base = zd_seeds (record { ordered_set = listed; reputation = zd_reputation });
  challenge_base = games;
  perbill = parts;
  hash_set = sorting hash_before;
  encode = λ who. who % 256 ∷ [];
  sha1 = λ bytes. bytes;
  seed_staking_amount = 50;
  seed_challenge_amount = 20;
  seed_reserv_staking = 10;
  max_seed_count = 1;
  confirmation_period = 20;
}

pub games-LaunchKeeps : LaunchKeeps IsKept games
unfolding IsKept
games-LaunchKeeps app target m s s' e = ground arith

pub games-Framed : Framed IsKept IsKept games
unfolding IsKept
games-Framed = record {
  harvest_keeps = λ who app target o s s' e. ground arith;
  examine_keeps = λ app who target index s s' e. ground arith;
  reply_keeps = λ app who target total count up s s' kept e. elim (Result-cases (up true 0 0 s)) [
    | inr (x, failed) ↦ absurd (ground arith)
    | inl ((n, t), done) ↦ ground (arith, kept true 0 0 n s t done)
  ];
  next_keeps = λ app who target count up s s' kept e. elim (Result-cases (up 0 0 true s)) [
    | inr (x, failed) ↦ absurd (ground arith)
    | inl ((n, m, t), done) ↦ ground (arith, kept 0 0 n m true s t done)
  ];
  evidence_keeps = λ app who target up m s s' kept e. elim (Result-cases (up 0 0 s)) [
    | inr (x, failed) ↦ absurd (ground arith)
    | inl ((b, t), done) ↦ ground (arith, kept 0 0 b s t done)
  ];
  arbitral_keeps = λ app who target up s s' kept e. elim (Result-cases (up 0 0 s)) [
    | inr (x, failed) ↦ absurd (ground arith)
    | inl ((b, c, n, t), done) ↦ ground (arith, kept 0 0 n b c s t done)
  ];
}

pub laws : SeedsLaws config
unfolding Seeds.get_seed_count Seeds.remove_all Seeds.add_seed
laws = record {
  count-remove_all = λ w. ground (arith, count-nil);
  count-add_seed = λ target w. ground (arith, count-add target w.seeds);
  count-set_step = λ step w. refl;
}

abbrev pub tokens : T
tokens = record {
  currency = (0, 500) ∷ (2, 100) ∷ (4, 100) ∷ [];
  bonus = 40;
  accounts = [];
  total_staking = 300;
  events = [];
}

abbrev pub world : W
world = record {
  seeds = 9 ∷ [];
  events = [];
  world = record {
    system_info = record { nonce = 1; last = 0; next = 0; period = 10; step = TirStep.seed };
    reputation_scores = [];
    events = [];
    now = 30;
  };
}

abbrev pub before : State T W
before = record {
  result_hashs_sets = [];
  candidates = [];
  score_list = [];
  paths = (5, record { nodes = 7 ∷ 5 ∷ 8 ∷ []; total = 1 } ∷ []) ∷ [];
  missed_paths = [];
  seeds_confirmed = false;
  events = [];
  now = 30;
  ledger = tokens;
  world = world;
}

pub before-IsAccounted : IsAccounted before
unfolding IsAccounted IsSorted count sum_by
before-IsAccounted = (λ i j le lt. absurd (omega arith), λ a. refl)

-- The pathfinder proposes the candidates 5 and 6.
abbrev pub proposal_5 : Candidate
proposal_5 = record { score = 30; pathfinder = 2; has_challenge = false; add_at = 30 }

abbrev pub proposal_6 : Candidate
proposal_6 = record { score = 20; pathfinder = 2; has_challenge = false; add_at = 30 }

abbrev pub busy : W
busy = record world {
  world = record (world.world) {
    system_info = record { nonce = 1; last = 30; next = 0; period = 10; step = TirStep.seed };
  };
}

abbrev pub one_added : State T W
one_added = record before {
  candidates = (5, proposal_5) ∷ [];
  score_list = 30 ∷ [];
  events = Event.new_candidate 2 5 30 ∷ [];
  ledger = record tokens {
    currency = (0, 550) ∷ (2, 50) ∷ (4, 100) ∷ [];
    accounts = (2, record { pending = 0; social = 0 }) ∷ [];
    total_staking = 350;
  };
  world = busy;
}

abbrev pub both_added : State T W
both_added = record one_added {
  candidates = (5, proposal_5) ∷ (6, proposal_6) ∷ [];
  score_list = 20 ∷ 30 ∷ [];
  events = Event.new_candidate 2 6 20 ∷ Event.new_candidate 2 5 30 ∷ [];
  ledger = record one_added.ledger {
    currency = (0, 600) ∷ (2, 0) ∷ (4, 100) ∷ [];
    total_staking = 400;
  };
}

-- A challenger presents another path between the ends of the path that was uploaded for 5.
abbrev pub restarted : State T W
restarted = record both_added {
  candidates = (5, record proposal_5 { score = 3; pathfinder = 4 }) ∷ (6, proposal_6) ∷ [];
  score_list = 3 ∷ 20 ∷ [];
  paths = [];
  events =
      Event.shorter_presented 4 5 0
      ∷ Event.challenge_restarted 5 3
      ∷ Event.new_candidate 2 6 20
      ∷ Event.new_candidate 2 5 30
      ∷ [];
}

-- Long after the proposals, the pathfinder harvests.
abbrev pub ready : State T W
ready = record both_added { now = 60 }

abbrev pub one_seated : State T W
one_seated = record ready {
  candidates = (6, proposal_6) ∷ [];
  score_list = [];
  seeds_confirmed = true;
  events =
      Event.seed_harvested 2 5
      ∷ Event.seeds_selected 1
      ∷ Event.new_candidate 2 6 20
      ∷ Event.new_candidate 2 5 30
      ∷ [];
  ledger = record ready.ledger {
    currency = (0, 510) ∷ (2, 90) ∷ (4, 100) ∷ [];
    bonus = 0;
    total_staking = 310;
  };
  world = record busy { seeds = 5 ∷ []; events = Seeds.Event.seed_added 5 ∷ [] };
}

abbrev pub all_harvested : State T W
all_harvested = record one_seated {
  candidates = [];
  seeds_confirmed = false;
  events =
      Event.seed_harvested 2 6
      ∷ Event.seed_harvested 2 5
      ∷ Event.seeds_selected 1
      ∷ Event.new_candidate 2 6 20
      ∷ Event.new_candidate 2 5 30
      ∷ [];
  ledger = record one_seated.ledger {
    currency = (0, 460) ∷ (2, 140) ∷ (4, 100) ∷ [];
    total_staking = 260;
  };
  world = record one_seated.world {
    world = record (busy.world) {
      system_info = record {
        nonce = 1;
        last = 30;
        next = 0;
        period = 10;
        step = TirStep.reputation;
      };
    };
  };
}

pub add-5 : run config (Call.add 5 30) (ok 2) before ≡ ok one_added
unfolding run Calls.add check_step zero_dao_node.Reputation.is_step lookup Tokens.staking
    Tokens.pay_with_pending Tokens.do_staking Tokens.set_pending_balance get_or move balance insert
    zero_dao_node.Reputation.set_last_refresh_at zero_dao_node.Reputation.set_last_refresh
    candidate_insert score_list_insert score_inserted search_loop binary_search insert_at get_elem?
add-5 = refl

pub add-6 : run config (Call.add 6 20) (ok 2) one_added ≡ ok both_added
unfolding run Calls.add check_step zero_dao_node.Reputation.is_step lookup Tokens.staking
    Tokens.pay_with_pending Tokens.do_staking Tokens.set_pending_balance get_or move balance insert
    zero_dao_node.Reputation.set_last_refresh_at zero_dao_node.Reputation.set_last_refresh
    candidate_insert score_list_insert score_inserted search_loop binary_search insert_at get_elem?
add-6 = refl

pub shorter-5 : run config (Call.evidence_of_shorter 5 0 []) (ok 4) both_added ≡ ok restarted
unfolding run Calls.evidence_of_shorter check_step zero_dao_node.Reputation.is_step
    get_pathfinder_paths lookup get_nodes_ends last? get_elem? check_mid_path restart mutate_score
    remove_challenge score_list_insert score_inserted score_removed search_loop binary_search
    insert_at remove_at insert remove get_or
shorter-5 = refl

pub harvest-5 : harvest_seed config (ok 2) 5 ready ≡ ok one_seated
unfolding harvest_seed check_step zero_dao_node.Reputation.is_step selected is_all_timeout
    hand_first_time drop Seeds.remove_all lookup remove seed_index binary_search search_loop
    get_elem? pay Tokens.release move balance get_or insert Tokens.cut_bonus Tokens.try_cut_bonus
    seated Seeds.add_seed Fixtures.add Fixtures.contains remove_at closed is_all_harvest
    zero_dao_node.Reputation.set_step
harvest-5 = refl

pub harvest-6 : harvest_seed config (ok 2) 6 one_seated ≡ ok all_harvested
unfolding harvest_seed check_step zero_dao_node.Reputation.is_step selected is_all_timeout
    hand_first_time drop Seeds.remove_all lookup remove seed_index binary_search search_loop
    get_elem? pay Tokens.release move balance get_or insert Tokens.cut_bonus Tokens.try_cut_bonus
    seated Seeds.add_seed Fixtures.add Fixtures.contains remove_at closed is_all_harvest
    zero_dao_node.Reputation.set_step
harvest-6 = refl
