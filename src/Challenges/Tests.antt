-- ===== src/Challenges/Tests.antt =====
-- pallets/challenges/src/lib.rs at a concrete storage, over the token pallet: account 0 is the
-- pool, 1 the challenger, 2 the pathfinder; the game is that of target 9 under application 7.
use zero_dao_node.Base.{ℕ, ◌+◌, ◌<◌, ◌≡◌, refl, ◌⊎◌, true, false, none, [], ◌∷◌, arith}
use zero_dao_node.Base.StorageMap.{StorageMap, get_or, insert}
use zero_dao_node.Base.DoubleMap
use zero_dao_node.Base.DoubleMap.{lookup, remove, sum_by}
use zero_dao_node.Dispatch.{ok, err, DispatchError, ChallengesError}
use zero_dao_node.Fixtures.{parts, ledger, balance, move}
use zero_dao_node.Primitives.Metadata.{Metadata, ChallengeStatus, is_all_done}
use zero_dao_node.Tokens
use zero_dao_node.Tokens.{TokensState}
use zero_dao_node.Tokens.Laws.{zd_tokens}
use zero_dao_node.Challenges
use zero_dao_node.Challenges.{
  Config, State, Event, shares_of, metadata_of, mutate_metadata, after_upload, checked_sweeper_fee,
  do_settle,
}
use zero_dao_node.Challenges.Methods.{next, examine, arbitral, settle, harvest, launch, pay_out}
use zero_dao_node.Challenges.Accounting.{amount, pooled, staked, arbitral_balance}
use zero_dao_node.Challenges.Payout.{
  beneficiary, split, shares_of-beneficiary, harvest_pays, harvest_waits,
}
use zero_dao_node.Challenges.Launch.{launch_lem}
use zero_dao_node.Challenges.Stages.{examines}
use zero_dao_node.Challenges.Progressing.{AllFit, Reach, plays, Reach-AllFit}

abbrev pub World : Type 0
World = TokensState (StorageMap ℕ)

abbrev tokens : World
tokens = record {
  currency = (0, 700) ∷ (1, 1000) ∷ (2, 5) ∷ (3, 400) ∷ [];
  bonus = 0;
  accounts = [];
  total_staking = 500;
  events = [];
}

abbrev pub config : Config World
config = record {
  token = zd_tokens (record { perbill = parts; multi_currency = ledger; social_pool = 0 });
  perbill = parts;
  challenge_timeout = 100;
  challenge_staking_amount = 100;
}

-- The pathfinder has replied with all the data.
abbrev pub game : Metadata
game = record {
  pool = record { staking = 101; earnings = 50 };
  joint_benefits = false;
  progress = record { total = 3; done = 3 };
  last_update = 10;
  remark = 4;
  score = 8;
  pathfinder = 2;
  status = ChallengeStatus.reply;
  challenger = 1;
}

abbrev pub start : State World
start = record {
  metadatas =
      record { key1 = 7; key2 = 9; value = game }
      ∷ record { key1 = 7; key2 = 8; value = record game { status = ChallengeStatus.free } }
      ∷ [];
  last_at = (7, 10) ∷ [];
  events = [];
  now = 200;
  world = tokens;
}

abbrev harvested : State World
harvested = record start {
  metadatas =
      record { key1 = 7; key2 = 8; value = record game { status = ChallengeStatus.free } } ∷ [];
  world = record tokens {
    currency = (0, 549) ∷ (1, 1000) ∷ (2, 156) ∷ (3, 400) ∷ [];
    total_staking = 349;
  };
}

harvest-start : harvest config 2 7 9 start ≡ ok (none, harvested)
unfolding harvest checked_sweeper_fee shares_of pay_out Challenges.release Challenges.remove lookup
    remove Tokens.release move balance get_or insert
harvest-start = refl

harvest_pays_example :
    (staked config harvested + amount game ≡ staked config start)
    × (pooled harvested + amount game ≡ pooled start)
    × (metadata_of 7 8 harvested ≡ metadata_of 7 8 start)
unfolding lookup
harvest_pays_example =
    harvest_pays config 2 7 9 7 8 game none start harvested (refl, (refl, tt)) refl harvest-start

harvest_waits_example : 10 + 100 < 200
unfolding lookup
harvest_waits_example =
    harvest_waits config 2 7 9 game none start harvested refl (omega arith) (omega arith)
      harvest-start

shares_of-beneficiary_example :
    let (p, c) = split (beneficiary ChallengeStatus.arbitral (is_all_done game) true) 7 in
    ((shares_of (record game { joint_benefits = true }) ChallengeStatus.arbitral 7).0 ≡ p)
    × ((shares_of (record game { joint_benefits = true }) ChallengeStatus.arbitral 7).1 ≡ c)
    × (p + c ≡ 7)
shares_of-beneficiary_example =
    shares_of-beneficiary (record game { joint_benefits = true }) ChallengeStatus.arbitral 7

abbrev examined_game : Metadata
examined_game = record game { status = ChallengeStatus.examine; remark = 2; last_update = 200 }

abbrev examined : State World
examined = record start {
  metadatas =
      record { key1 = 7; key2 = 9; value = examined_game }
      ∷ record { key1 = 7; key2 = 8; value = record game { status = ChallengeStatus.free } }
      ∷ [];
  last_at = (7, 200) ∷ [];
}

examine-start : examine config 7 1 9 2 start ≡ ok examined
unfolding examine mutate_metadata after_upload lookup DoubleMap.insert insert
examine-start = refl

start-AllFit : AllFit start
unfolding AllFit lookup
start-AllFit app_id target m found = ground arith

Reach-AllFit_example : AllFit examined
Reach-AllFit_example =
    Reach-AllFit config (Reach.then Reach.here (plays 7 9 (examines 1 2 examine-start)))
      start-AllFit

-- The pathfinder uploads one more item than promised.
next_too_much :
    next config 7 2 9 1 (λ score remark done w. ok (score, remark, w)) start
    ≡ err (DispatchError.challenges ChallengesError.progress_err)
unfolding next mutate_metadata lookup
next_too_much = refl

abbrev uploaded : State World
uploaded = record examined {
  metadatas =
      record { key1 = 7; key2 = 9; value = record game { last_update = 200 } }
      ∷ record { key1 = 7; key2 = 8; value = record game { status = ChallengeStatus.free } }
      ∷ [];
}

next-start : next config 7 2 9 0 (λ score remark done w. ok (score, remark, w)) start ≡ ok uploaded
unfolding next mutate_metadata after_upload lookup DoubleMap.insert insert
next-start = refl

-- Account 3 takes the game over after the timeout and wins it.
abbrev arbitrated : State World
arbitrated = record examined {
  metadatas =
      record {
        key1 = 7;
        key2 = 9;
        value = record game {
          status = ChallengeStatus.free;
          last_update = 200;
          pathfinder = 3;
          challenger = 3;
        };
      }
      ∷ record { key1 = 7; key2 = 8; value = record game { status = ChallengeStatus.free } }
      ∷ [];
  world = record tokens {
    currency = (0, 800) ∷ (1, 1000) ∷ (2, 5) ∷ (3, 300) ∷ [];
    total_staking = 600;
    accounts = (3, record { pending = 0; social = 0 }) ∷ [];
  };
}

arbitral-start :
    arbitral config 7 3 9 (λ score remark w. ok (false, true, score, w)) start ≡ ok arbitrated
unfolding arbitral mutate_metadata after_upload do_settle Challenges.staking lookup DoubleMap.insert
    Tokens.staking Tokens.pay_with_pending Tokens.set_pending_balance Tokens.do_staking move balance
    get_or insert
arbitral-start = refl

arbitral_balance_example :
    staked config arbitrated + pooled start ≡ staked config start + pooled arbitrated + 100
unfolding lookup
arbitral_balance_example =
    arbitral_balance config 7 3 9 (λ score remark w. ok (false, true, score, w)) game start
      arbitrated (λ a b w r e. cc) (omega arith) refl arbitral-start

-- The even half of the stake goes to the challenger.
abbrev settled : State World
settled = record start {
  metadatas =
      record {
        key1 = 7;
        key2 = 9;
        value = record game {
          pool = record { staking = 51; earnings = 50 };
          status = ChallengeStatus.free;
          last_update = 200;
        };
      }
      ∷ record { key1 = 7; key2 = 8; value = record game { status = ChallengeStatus.free } }
      ∷ [];
  world = record tokens {
    currency = (0, 650) ∷ (1, 1050) ∷ (2, 5) ∷ (3, 400) ∷ [];
    total_staking = 450;
  };
}

settle-start : settle config 7 9 true true 8 start ≡ ok settled
unfolding settle mutate_metadata do_settle Challenges.release lookup DoubleMap.insert Tokens.release
    move balance get_or insert
settle-start = refl

abbrev given : Metadata
given = record game {
  pool = record { staking = 20; earnings = 3 };
  progress = record { total = 5; done = 0 };
  challenger = 3;
}

abbrev relaunched : State World
relaunched = record start {
  metadatas =
      record { key1 = 7; key2 = 9; value = game }
      ∷ record {
        key1 = 7;
        key2 = 8;
        value = record given {
          pool = record { staking = 221; earnings = 53 };
          last_update = 200;
          status = ChallengeStatus.examine;
        };
      }
      ∷ [];
  last_at = (7, 200) ∷ [];
  events = Event.challenged 3 8 2 5 ∷ [];
  world = record tokens {
    currency = (0, 800) ∷ (1, 1000) ∷ (2, 5) ∷ (3, 300) ∷ [];
    total_staking = 600;
    accounts = (3, record { pending = 0; social = 0 }) ∷ [];
  };
}

launch-start : launch config 7 8 given start ≡ ok relaunched
unfolding launch after_upload Challenges.staking lookup DoubleMap.insert Tokens.staking
    Tokens.pay_with_pending Tokens.set_pending_balance Tokens.do_staking move balance get_or insert
launch-start = refl

launch_lem_example :
    (metadata_of 7 9 relaunched ≡ metadata_of 7 9 start)
    × ((metadata_of 7 8 start ≡ none) ⊎ (ChallengeStatus.free ≡ ChallengeStatus.free))
    × (staked config relaunched + pooled start + amount given
        ≡ staked config start + pooled relaunched)
unfolding lookup
launch_lem_example = launch_lem config 7 8 7 9 given start relaunched (omega arith) launch-start
