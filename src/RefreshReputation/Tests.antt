-- ===== src/RefreshReputation/Tests.antt =====
-- pallets/refresh-reputation/src/lib.rs at a concrete storage, over the pallets of tokens and of
-- reputation: account 0 is the pool, 2 a pathfinder, 3 and 4 users, 9 a seed.
use zero_dao_node.Base.{ℕ, ◌+◌, ◌<◌, ◌≡◌, refl, true, none, some, [], ◌∷◌, length, arith}
use zero_dao_node.Base.StorageMap
use zero_dao_node.Base.StorageMap.{StorageMap, get_or, insert, remove}
use zero_dao_node.Base.DoubleMap
use zero_dao_node.Dispatch.{ok}
use zero_dao_node.Fixtures.{parts, ledger, balance, move, burn}
use zero_dao_node.Primitives.{TirStep}
use zero_dao_node.Primitives.Fee
use zero_dao_node.Tokens
use zero_dao_node.Tokens.{TokensState}
use zero_dao_node.Tokens.Laws.{zd_tokens}
use zero_dao_node.Reputation
use zero_dao_node.Reputation.{zd_reputation}
use zero_dao_node.RefreshReputation.{
  State, Config, Event, get_payroll, mutate_payroll, mutate_record, share, payroll_amount,
  check_step, next_step, do_refresh, check_step_and_stared, check_step_and_not_stared, can_harvest,
  check_timeout,
}
use zero_dao_node.RefreshReputation.Calls.{
  release, staking, drain_payrolls, start, refresh_all, refresh, harvest_ref_all, challenge,
}
use zero_dao_node.RefreshReputation.Payrolls.{
  staked, owed, payable, pay_all, wages, fees, start_lem, harvest_ref_all_lem,
}
use zero_dao_node.RefreshReputation.Billing.{Disputed, refresh_lem, challenge_lem}

abbrev pub T : Type 0
T = TokensState (StorageMap ℕ)

abbrev pub W : Type 0
W = Reputation.State

-- Everybody trusts everybody, and a path is as long as its nodes.
abbrev pub config : Config T W
config = record {
  token = zd_tokens (record { perbill = parts; multi_currency = ledger; social_pool = 0 });
  reputation = zd_reputation;
  trust_base = record {
    remove_all_tmp = λ w. w;
    get_trust_count = λ who w. 1;
    get_trust_count_old = λ who w. 1;
    is_trust = λ who target w. true;
    is_trust_old = λ who target w. true;
    get_trust_old = λ who w. [];
    computed_path = λ nodes w. ok (length nodes, 7);
    valid_nodes = λ nodes w. ok tt;
  };
  seeds_base = record {
    is_seed = λ who w. true;
    get_seed_count = λ w. 4;
    remove_all = λ w. w;
    add_seed = λ who w. w;
  };
  challenge_base = record {
    is_all_harvest = λ app s. true;
    is_all_timeout = λ app now s. true;
    set_status = λ app target status s. s;
    launch = λ app target m s. ok s;
    harvest = λ who app target s. ok (none, s);
    examine = λ app who target index s. ok s;
    reply = λ app who target total count up s. ok s;
    evidence = λ app who target up s. ok (none, s);
    next = λ app who target count up s. ok s;
    arbitral = λ app who target up s. ok s;
  };
  perbill = parts;
  max_update_count = 10;
  update_staking_amount = 5;
  confirmation_period = 20;
  ref_repu_tiome_out = 50;
}

abbrev pub tokens : T
tokens = record {
  currency = (0, 500) ∷ (2, 100) ∷ [];
  bonus = 0;
  accounts = (3, record { pending = 0; social = 100 }) ∷ [];
  total_staking = 300;
  events = [];
}

abbrev world : W
world = record {
  system_info = record { nonce = 1; last = 0; next = 0; period = 10; step = TirStep.reputation };
  reputation_scores = [];
  events = [];
  now = 30;
}

-- Two refreshes of the pathfinder, from the round before, are not paid yet.
abbrev pub before : State T W
before = record {
  started_at = none;
  payrolls = (2, record { count = 2; total_fee = 40; update_at = 4 }) ∷ [];
  records = [];
  paths = [];
  events = [];
  now = 30;
  ledger = tokens;
  world = world;
}

abbrev started : State T W
started = record before {
  started_at = some 30;
  payrolls = [];
  events = Event.started 1 ∷ [];
  ledger = record tokens { currency = (0, 450) ∷ (2, 149) ∷ (1, 1) ∷ []; total_staking = 250 };
}

start-before : start config (ok 1) before ≡ ok started
unfolding start check_step_and_not_stared check_step Reputation.is_step drain_payrolls release
    Tokens.release Fee.with_fee payroll_amount move balance get_or insert
start-before = refl

start_lem_example :
    (pay_all config ((2, 49) ∷ (1, 1) ∷ []) before.ledger ≡ ok started.ledger)
    × (staked config started + payable config before.payrolls ≡ staked config before)
    × (started.payrolls ≡ [])
    × (started.started_at ≡ some 30)
unfolding wages fees payroll_amount
start_lem_example = start_lem config 1 before started start-before

-- The pathfinder refreshes the users 3 and 4; the fee of 10 comes from the social balance of 3.
abbrev refreshed : State T W
refreshed = record started {
  payrolls = (2, record { count = 2; total_fee = 10; update_at = 30 }) ∷ [];
  records =
      record { key1 = 2; key2 = 3; value = record { update_at = 30; fee = 10 } }
      ∷ record { key1 = 2; key2 = 4; value = record { update_at = 30; fee = 0 } }
      ∷ [];
  events = Event.reputation_refreshed 2 2 10 ∷ Event.started 1 ∷ [];
  ledger = record tokens {
    currency = (0, 450) ∷ (2, 139) ∷ (1, 1) ∷ [];
    bonus = 60;
    accounts =
        (3, record { pending = 10; social = 0 })
        ∷ (2, record { pending = 0; social = 0 })
        ∷ (4, record { pending = 0; social = 0 })
        ∷ [];
    total_staking = 270;
  };
  world = record world {
    system_info = record (world.system_info) { last = 30 };
    reputation_scores =
        (
          3,
          record {
            first = record { score = 50; nonce = 1 };
            second = record { score = 0; nonce = 0 };
          },
        )
        ∷ (
          4,
          record {
            first = record { score = 60; nonce = 1 };
            second = record { score = 0; nonce = 0 };
          },
        )
        ∷ [];
  };
}

refresh-started : refresh config (ok 2) ((3, 50) ∷ (4, 60) ∷ []) started ≡ ok refreshed
unfolding refresh check_step_and_stared check_step Reputation.is_step check_timeout get_or staking
    Tokens.staking Tokens.pay_with_pending Tokens.set_pending_balance DoubleMap.insert insert
    mutate_payroll mutate_record Tokens.add_bonus Tokens.share_and_reserv move balance burn
    refresh_all do_refresh Reputation.refresh_reputation Reputation.set_last_refresh_at
    Reputation.set_last_refresh share Tokens.share Tokens.do_staking
refresh-started = refl

refresh_lem_example :
    (staked config refreshed + owed config started ≡ staked config started + owed config refreshed)
    × ((get_payroll 2 refreshed).count ≡ (get_payroll 2 started).count + 2)
    × ((get_payroll 2 refreshed).update_at ≡ 30)
    × (get_payroll 5 refreshed ≡ get_payroll 5 started)
unfolding get_or
refresh_lem_example =
    refresh_lem config 2 5 ((3, 50) ∷ (4, 60) ∷ []) started refreshed (omega arith) (omega arith)
      refresh-started

-- The account 1 challenges the reputation of 3: the fee of 10 and one refresh leave the payroll.
abbrev pub challenged : State T W
challenged = record refreshed {
  payrolls = (2, record { count = 1; total_fee = 0; update_at = 30 }) ∷ [];
  records = record { key1 = 2; key2 = 4; value = record { update_at = 30; fee = 0 } } ∷ [];
  events = Event.challenge 1 3 ∷ refreshed.events;
}

challenge-refreshed : challenge config (ok 1) 3 2 4 70 refreshed ≡ ok challenged
unfolding challenge check_step Reputation.is_step Reputation.get_reputation_new get_or
    DoubleMap.lookup insert DoubleMap.remove
challenge-refreshed = refl

challenge_lem_example :
    (old : ℕ) × (launched : State T W) × Disputed config 1 3 2 4 old refreshed launched challenged
unfolding get_or DoubleMap.lookup
challenge_lem_example =
    challenge_lem config 1 3 2 4 70 refreshed challenged (omega arith) (omega arith)
      challenge-refreshed

-- After the confirmation period the pathfinder harvests 20, and the update ends.
abbrev later : State T W
later = record refreshed { now = 51 }

abbrev paid : State T W
paid = record later {
  started_at = none;
  payrolls = [];
  records = [];
  events = Event.refreshed_harvested 2 20 ∷ refreshed.events;
  ledger = record (refreshed.ledger) {
    currency = (0, 430) ∷ (2, 159) ∷ (1, 1) ∷ [];
    total_staking = 250;
  };
  world = record (refreshed.world) {
    system_info = record (refreshed.world.system_info) { step = TirStep.free };
  };
}

harvest-later : harvest_ref_all config (ok 2) later ≡ ok paid
unfolding harvest_ref_all can_harvest get_or next_step release Tokens.release payroll_amount move
    balance remove DoubleMap.remove_prefix insert Reputation.set_free
harvest-later = refl

harvest_ref_all_lem_example :
    (config.token.release 2 20 later.ledger ≡ ok paid.ledger)
    × (staked config paid + 20 ≡ staked config later)
    × ((30 + 20) < 51)
    × (StorageMap.lookup 2 paid.payrolls ≡ none)
unfolding get_or payroll_amount
harvest_ref_all_lem_example = harvest_ref_all_lem config 2 2 later paid harvest-later
