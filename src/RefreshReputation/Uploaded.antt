-- ===== src/RefreshReputation/Uploaded.antt =====
-- pallets/refresh-reputation/src/lib.rs: uploads of paths, and a sweeper, at a concrete storage.
use zero_dao_node.Base.{◌+◌, ◌<◌, ◌≡◌, refl, none, some, true, [], ◌∷◌}
use zero_dao_node.Base.DoubleMap
use zero_dao_node.Dispatch.{ok}
use zero_dao_node.RefreshReputation.{State, SeedPath, exclude_zero, check_nodes_leng}
use zero_dao_node.RefreshReputation.Uploads.{
  zip, added_score, insert_paths, do_update_path, get_dist, verified_score, mutate_paths,
  do_update_path_verify,
}
use zero_dao_node.RefreshReputation.Scores.{
  gained, replaced, Reaching, last_for, do_update_path_verify_lem,
}
use zero_dao_node.RefreshReputation.Calls.{harvest_ref_all_sweeper}
use zero_dao_node.Base.StorageMap
use zero_dao_node.Base.StorageMap.{insert, remove, get_or}
use zero_dao_node.Fixtures.{move, balance}
use zero_dao_node.Primitives.Fee
use zero_dao_node.Tokens
use zero_dao_node.RefreshReputation.{Event, get_payroll, payroll_amount, next_step, can_harvest}
use zero_dao_node.RefreshReputation.Calls.{release}
use zero_dao_node.RefreshReputation.Payrolls.{staked}
use zero_dao_node.RefreshReputation.Sweeping.{harvest_ref_all_sweeper_lem}
use zero_dao_node.RefreshReputation.Tests.{before, tokens, T, W, config, challenged}

-- A challenger uploads a path from the seed 9, and an arbitration shortens it.
abbrev long_path : SeedPath
long_path = record { nodes = 5 ∷ 6 ∷ []; score = 7 }

abbrev uploaded : State T W
uploaded = record challenged { paths = record { key1 = 9; key2 = 3; value = long_path } ∷ [] }

upload-challenged : do_update_path 3 (9 ∷ []) (long_path ∷ []) 0 challenged ≡ ok (7, uploaded)
unfolding do_update_path added_score insert_paths exclude_zero check_nodes_leng DoubleMap.lookup
    DoubleMap.insert
upload-challenged = refl

abbrev short_path : SeedPath
short_path = record { nodes = 5 ∷ []; score = 7 }

abbrev verified : State T W
verified = record uploaded { paths = record { key1 = 9; key2 = 3; value = short_path } ∷ [] }

verify-uploaded :
    do_update_path_verify config 3 (9 ∷ []) (short_path ∷ []) 7 uploaded ≡ ok (7, verified)
unfolding do_update_path_verify verified_score mutate_paths get_dist check_nodes_leng
    DoubleMap.lookup DoubleMap.insert
verify-uploaded = refl

do_update_path_verify_lem_example :
    (7 + replaced 3 (zip (9 ∷ []) (short_path ∷ [])) uploaded
      ≡ 7 + gained (zip (9 ∷ []) (short_path ∷ [])))
    × Reaching config 3 (zip (9 ∷ []) (short_path ∷ [])) uploaded
    × (DoubleMap.lookup 9 3 verified.paths ≡ some short_path)
    × (verified ≡ record uploaded { paths = verified.paths })
unfolding last_for
do_update_path_verify_lem_example =
    do_update_path_verify_lem config 3 7 7 9 3 (9 ∷ []) (short_path ∷ []) uploaded verified
      verify-uploaded

-- The payroll of 50 from the round before is overdue; the sweeper 1 gets 1 of it.
abbrev overdue : State T W
overdue = record before { now = 1000 }

abbrev swept : State T W
swept = record overdue {
  payrolls = [];
  events = Event.refreshed_harvested_by_sweeper 2 1 49 1 ∷ [];
  ledger = record tokens { currency = (0, 450) ∷ (2, 149) ∷ (1, 1) ∷ []; total_staking = 250 };
}

sweep-overdue : harvest_ref_all_sweeper config (ok 1) 2 overdue ≡ ok swept
unfolding harvest_ref_all_sweeper can_harvest next_step release Tokens.release payroll_amount
    Fee.checked_with_fee Fee.with_fee Fee.is_allowed_sweeper move balance remove
    DoubleMap.remove_prefix insert get_or
sweep-overdue = refl

harvest_ref_all_sweeper_lem_example :
    (staked config swept + payroll_amount config (get_payroll 2 overdue) ≡ staked config overdue)
    × ((4 + 20) < 1000)
    × (Fee.is_allowed_sweeper 4 1000 ≡ true)
    × (StorageMap.lookup 2 swept.payrolls ≡ none)
unfolding get_or
harvest_ref_all_sweeper_lem_example =
    harvest_ref_all_sweeper_lem config 1 2 2 overdue swept sweep-overdue
