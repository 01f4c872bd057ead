-- ===== src/Runtime.antt =====
-- runtime/src/lib.rs: the pallets composed over one storage. A pallet that is generic in the world
-- around it takes the whole storage for its world, and the traits that it uses are filled by the other
-- pallets, each on its part of the storage.
pub mod Backing
pub mod Traces
pub mod Progress
mod Tests
use zero_dao_node.Base.{ℕ, ◌+◌, refl, Option, List}
use zero_dao_node.Base.Lens.{Lens}
use zero_dao_node.Dispatch.{Result, ok, ◌>>=◌}
use zero_dao_node.External.{Perbill, MultiCurrency, OrderedSet, SortedSet}
use zero_dao_node.Support.{MultiBaseToken}
use zero_dao_node.Support.Placed.{place_token, place_reputation, place_seeds, place_trust}
use zero_dao_node.Tokens
use zero_dao_node.Tokens.{TokensState}
use zero_dao_node.Tokens.Laws.{zd_tokens}
use zero_dao_node.Tokens.Calls as TokensCalls
use zero_dao_node.Reputation
use zero_dao_node.Reputation.{zd_reputation}
use zero_dao_node.Seeds
use zero_dao_node.Seeds.{zd_seeds}
use zero_dao_node.Trust
use zero_dao_node.Trust.{zd_trust}
use zero_dao_node.Challenges
use zero_dao_node.Challenges.Played.{zd_challenges}
use zero_dao_node.RefreshReputation
use zero_dao_node.RefreshReputation.Runs
use zero_dao_node.RefreshSeeds
use zero_dao_node.RefreshSeeds.{ResultHash, hash_before}
use zero_dao_node.RefreshSeeds.Calls as RefreshSeedsCalls
use zero_dao_node.RefreshSeeds.Harvest
use zero_dao_node.RefreshSeeds.Disputes
use zero_dao_node.RefreshSeeds.Games.{on_storage, ledger_part}

-- `SEED_CHALLENGE_AMOUNT` and `SEED_RESERV_STAKING`
abbrev pub seed_challenge_amount : ℕ
seed_challenge_amount = 100_000_000

abbrev pub seed_reserv_staking : ℕ
seed_reserv_staking = 900_000_000

-- `ChallengeTimeout` and `ChallengeStakingAmount`
abbrev pub challenge_timeout : ℕ
challenge_timeout = 100

abbrev pub challenge_staking_amount : ℕ
challenge_staking_amount = 100

-- `SocialPoolAccountId`, the account of 32 zero bytes.
abbrev pub social_pool : ℕ
social_pool = 0

-- The storages of trust, seeds and reputation, each beside those that it uses.
abbrev pub Pallets : Type 0 → Type 0
Pallets S = Trust.State S (Seeds.State S Reputation.State)

-- The storage items of all the pallets. `candidates` and `refreshes` are those of the pallets of refresh,
-- whose ledger and world are the parts beside them; the block is that of the pallet of reputation.
pub record Storage (Q S : Type 0) : Type 0 where
  pub tokens : TokensState Q
  pub pallets : Pallets S
  pub games : Challenges.State (Unit {0})
  pub candidates : RefreshSeeds.State (Unit {0}) (Unit {0})
  pub refreshes : RefreshReputation.State (Unit {0}) (Unit {0})

-- The crates that the pallets call.
pub record Crates (Q S : Type 0) : Type 0 where
  pub perbill : Perbill
  pub multi_currency : MultiCurrency Q
  pub ordered_set : OrderedSet S
  pub hash_set : SortedSet ResultHash hash_before
  pub encode : ℕ → List ℕ
  pub sha1 : List ℕ → List ℕ

module _ {Q S : Type 0} where
  -- `frame_system`'s block number.
  abbrev pub block : Storage Q S → ℕ
  block s = s.pallets.world.world.now

  abbrev pub trust_part : Lens (Storage Q S) (Pallets S)
  trust_part = record {
    get = λ s. s.pallets;
    set = λ p s. record s { pallets = p };
    get-set = λ p s. refl;
  }

  abbrev pub seeds_part : Lens (Storage Q S) (Seeds.State S Reputation.State)
  seeds_part = record {
    get = λ s. s.pallets.world;
    set = λ p s. record s { pallets = record s.pallets { world = p } };
    get-set = λ p s. refl;
  }

  abbrev pub reputation_part : Lens (Storage Q S) Reputation.State
  reputation_part = record {
    get = λ s. s.pallets.world.world;
    set = λ p s. record s {
      pallets = record s.pallets { world = record s.pallets.world { world = p } };
    };
    get-set = λ p s. refl;
  }

  -- The storage as the pallets of refresh see it, and back.
  abbrev pub as_candidates : Storage Q S → RefreshSeeds.State (TokensState Q) (Storage Q S)
  as_candidates s = record {
    result_hashs_sets = s.candidates.result_hashs_sets;
    candidates = s.candidates.candidates;
    score_list = s.candidates.score_list;
    paths = s.candidates.paths;
    missed_paths = s.candidates.missed_paths;
    seeds_confirmed = s.candidates.seeds_confirmed;
    events = s.candidates.events;
    now = block s;
    ledger = s.tokens;
    world = s;
  }

  abbrev pub from_candidates : RefreshSeeds.State (TokensState Q) (Storage Q S) → Storage Q S
  from_candidates r = record r.world {
    tokens = r.ledger;
    candidates = record {
      result_hashs_sets = r.result_hashs_sets;
      candidates = r.candidates;
      score_list = r.score_list;
      paths = r.paths;
      missed_paths = r.missed_paths;
      seeds_confirmed = r.seeds_confirmed;
      events = r.events;
      now = r.now;
      ledger = tt;
      world = tt;
    };
  }

  abbrev pub as_refreshes : Storage Q S → RefreshReputation.State (TokensState Q) (Storage Q S)
  as_refreshes s = record {
    started_at = s.refreshes.started_at;
    payrolls = s.refreshes.payrolls;
    records = s.refreshes.records;
    paths = s.refreshes.paths;
    events = s.refreshes.events;
    now = block s;
    ledger = s.tokens;
    world = s;
  }

  abbrev pub from_refreshes : RefreshReputation.State (TokensState Q) (Storage Q S) → Storage Q S
  from_refreshes r = record r.world {
    tokens = r.ledger;
    refreshes = record {
      started_at = r.started_at;
      payrolls = r.payrolls;
      records = r.records;
      paths = r.paths;
      events = r.events;
      now = r.now;
      ledger = tt;
      world = tt;
    };
  }

  -- The games on the two views.
  abbrev pub candidate_games :
      Lens (RefreshSeeds.State (TokensState Q) (Storage Q S)) (Challenges.State (Unit {0}))
  candidate_games = record {
    get = λ r. r.world.games;
    set = λ g r. record r { world = record r.world { games = g } };
    get-set = λ g r. refl;
  }

  abbrev pub refresh_games :
      Lens (RefreshReputation.State (TokensState Q) (Storage Q S)) (Challenges.State (Unit {0}))
  refresh_games = record {
    get = λ r. r.world.games;
    set = λ g r. record r { world = record r.world { games = g } };
    get-set = λ g r. refl;
  }

  abbrev pub refresh_ledger :
      Lens (RefreshReputation.State (TokensState Q) (Storage Q S)) (TokensState Q)
  refresh_ledger = record {
    get = λ r. r.ledger;
    set = λ l r. record r { ledger = l };
    get-set = λ l r. refl;
  }

  module _ (crates : Crates Q S) where
    open crates use {perbill, multi_currency, ordered_set, hash_set, encode, sha1}

    abbrev pub tokens_config : Tokens.Config Q
    tokens_config = record {
      perbill = perbill;
      multi_currency = multi_currency;
      social_pool = social_pool;
    }

    abbrev pub seeds_config : Seeds.Config S Reputation.State
    seeds_config = record { ordered_set = ordered_set; reputation = zd_reputation }

    abbrev pub trust_config : Trust.Config S (Seeds.State S Reputation.State)
    trust_config = record {
      ordered_set = ordered_set;
      reputation =
          place_reputation
            (record {
              get = λ s. s.world;
              set = λ p s. record s { world = p };
              get-set = λ p s. refl;
            })
            zd_reputation;
      seeds_base = zd_seeds seeds_config;
      perbill = perbill;
      damping_factor = perbill.from_percent 100;
      max_trust_count = 600;
    }

    -- The challenges that pallets/refresh-reputation launches.
    abbrev pub refresh_challenges :
        Challenges.Config (RefreshReputation.State (TokensState Q) (Storage Q S))
    refresh_challenges = record {
      token = place_token refresh_ledger (zd_tokens tokens_config);
      perbill = perbill;
      challenge_timeout = challenge_timeout;
      challenge_staking_amount = challenge_staking_amount;
    }

    abbrev pub refresh_config : RefreshReputation.Config (TokensState Q) (Storage Q S)
    refresh_config = record {
      token = zd_tokens tokens_config;
      reputation = place_reputation reputation_part zd_reputation;
      trust_base = place_trust trust_part (zd_trust trust_config);
      seeds_base = place_seeds seeds_part (zd_seeds seeds_config);
      challenge_base = zd_challenges refresh_games (λ r. r.now) refresh_challenges;
      perbill = perbill;
      max_update_count = 20;
      update_staking_amount = 1_000_000_000;
      confirmation_period = 10;
      ref_repu_tiome_out = 14_400;
    }

    abbrev pub candidates_config : RefreshSeeds.Config (TokensState Q) (Storage Q S)
    candidates_config = record {
      token = zd_tokens tokens_config;
      reputation = place_reputation reputation_part zd_reputation;
      trust_base = place_trust trust_part (zd_trust trust_config);
      seeds_base = place_seeds seeds_part (zd_seeds seeds_config);
      challenge_base =
          zd_challenges candidate_games (λ r. r.now)
            (on_storage (zd_tokens tokens_config) perbill challenge_timeout
              challenge_staking_amount);
      perbill = perbill;
      hash_set = hash_set;
      encode = encode;
      sha1 = sha1;
      seed_staking_amount = seed_challenge_amount + seed_reserv_staking;
      seed_challenge_amount = seed_challenge_amount;
      seed_reserv_staking = seed_reserv_staking;
      max_seed_count = 200;
      confirmation_period = 10;
    }

-- The signed calls of the pallets, and that of a new block.
pub data Call : Type 0 where
  claim next_block : Call
  transfer_social : ℕ → ℕ → Call
  trust untrust : ℕ → Call
  refresh_reputation : Runs.Call → Call
  refresh_seeds : Disputes.Call → Call
  harvest_challenge harvest_seed : ℕ → Call

-- The calls of root, which come in by `Sudo`.
pub data RootCall : Type 0 where
  set_period new_seed remove_seed : ℕ → RootCall

module _ {Q S : Type 0} (crates : Crates Q S) where
  unfoldable pub dispatch_root : RootCall → Storage Q S → Result (Storage Q S)
  dispatch_root (RootCall.set_period period) s = do
    p ← Reputation.set_period (ok tt) period s.pallets.world.world
    ok (reputation_part.set p s)
  dispatch_root (RootCall.new_seed seed) s = do
    p ← Seeds.new_seed (seeds_config crates) (ok tt) seed s.pallets.world
    ok (seeds_part.set p s)
  dispatch_root (RootCall.remove_seed seed) s = do
    p ← Seeds.remove_seed (seeds_config crates) (ok tt) seed s.pallets.world
    ok (seeds_part.set p s)

  -- What a call of an account does.
  unfoldable pub dispatch : Call → ℕ → Storage Q S → Result (Storage Q S)
  dispatch Call.claim who s = do
    tokens ← TokensCalls.claim (tokens_config crates) (ok who) s.tokens
    ok (record s { tokens = tokens })
  dispatch (Call.transfer_social dest amount) who s = do
    tokens ← TokensCalls.transfer_social (tokens_config crates) (ok who) (ok dest) amount s.tokens
    ok (record s { tokens = tokens })
  dispatch (Call.trust target) who s = do
    pallets ← Trust.trust (trust_config crates) (ok who) target s.pallets
    ok (record s { pallets = pallets })
  dispatch (Call.untrust target) who s = do
    pallets ← Trust.untrust (trust_config crates) (ok who) target s.pallets
    ok (record s { pallets = pallets })
  dispatch (Call.refresh_reputation call) who s = do
    r ← Runs.run (refresh_config crates) call (ok who) (as_refreshes s)
    ok (from_refreshes r)
  dispatch (Call.refresh_seeds call) who s = do
    r ← Disputes.run (candidates_config crates) call (ok who) (as_candidates s)
    ok (from_candidates r)
  dispatch (Call.harvest_challenge target) who s = do
    r ←
        RefreshSeedsCalls.harvest_challenge (candidates_config crates) (ok who) target
          (as_candidates s)
    ok (from_candidates r)
  dispatch (Call.harvest_seed target) who s = do
    r ← Harvest.harvest_seed (candidates_config crates) (ok who) target (as_candidates s)
    ok (from_candidates r)
  dispatch Call.next_block who s =
      let reputation = s.pallets.world.world in
      ok (reputation_part.set (record reputation { now = reputation.now + 1 }) s)
