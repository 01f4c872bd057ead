-- ===== src/RefreshSeeds/Replies.antt =====
-- pallets/refresh-seeds/src/lib.rs: the dispatchable functions by which a challenger examines the
-- data of a candidate and its pathfinder replies. `origin` is the outcome of `ensure_signed`.
use zero_dao_node.Base.{
  ℕ, ◌+◌, ◌%◌, Bool, true, false, not, none, some, List, [], ◌++◌, length, ltb, leb, ◌==◌,
  if◌then◌else◌, get_elem?, last?, u32,
}
use zero_dao_node.Base.StorageMap
use zero_dao_node.Dispatch.{
  Result, ok, ◌>>=◌, ◌>>◌, ensure, ok_or, DispatchError, RefreshSeedsError,
}
use zero_dao_node.RefreshSeeds.{
  NodePath, ResultHash, PostResultHash, State, Config, Event, fails, try_get_rhash, check_step,
  deposit_event, is_some,
}
use zero_dao_node.RefreshSeeds.Orders.{app_id, deep_limit, max_hash_count, try_to_u64, from_u64}
use zero_dao_node.RefreshSeeds.Hashes.{get_full_order, get_next_order, update_result_hashs}
use zero_dao_node.RefreshSeeds.PathData.{
  sort_dedup_paths, sort_dedup_nodes, checked_paths_vec, verify_paths, do_reply_num,
}

module _ {T W : Type 0} (cfg : Config T W) where
  open cfg use {reputation, challenge_base}

  -- `T::Reputation::set_last_refresh_at`
  abbrev pub touch : State T W → State T W
  touch s = record s { world = reputation.set_last_refresh_at s.world }

  -- The bound on the index in `examine`: the paths where there are some, else the last level.
  unfoldable pub check_index : ℕ → ℕ → State T W → Result (Unit {0})
  check_index target index s = do
    result_hash_sets ← try_get_rhash target s
    count ← (elim (StorageMap.lookup target s.paths) [
      | some paths ↦ ok (length paths)
      | none ↦ ok_or (last? result_hash_sets) DispatchError.panic >>= λ set. ok (length set)
    ])
    ensure (ltb index count) (fails RefreshSeedsError.index_exceeds_maximum)

  unfoldable pub examine : Result ℕ → ℕ → ℕ → State T W → Result (State T W)
  examine origin target index s = do
    challenger ← origin
    check_step cfg s
    check_index target index s
    examined ← challenge_base.examine app_id challenger target index s
    ok (deposit_event (Event.new_examine challenger target) (touch examined))

  -- The callback of `reply_hash`.
  abbrev pub hash_reply :
      ℕ → ℕ → List PostResultHash → ℕ → Bool → ℕ → ℕ → State T W → Result (ℕ × State T W)
  hash_reply pathfinder target hashs quantity is_all_done index order s = do
    new_order ← get_next_order target order index s
    updated ← update_result_hashs cfg target hashs is_all_done index false s
    ok (
      new_order,
      deposit_event (Event.replied_hash pathfinder target quantity is_all_done) updated,
    )

  unfoldable pub reply_hash :
      Result ℕ → ℕ → List PostResultHash → ℕ → State T W → Result (State T W)
  reply_hash origin target hashs quantity s = do
    pathfinder ← origin
    check_step cfg s
    ensure (leb quantity max_hash_count) (fails RefreshSeedsError.quantity_exceeds_limit)
    replied ←
        challenge_base.reply app_id pathfinder target quantity (length hashs % u32)
          (hash_reply pathfinder target hashs quantity) s
    ok (touch replied)

  -- The callback of `reply_hash_next`.
  abbrev pub hash_reply_next :
      ℕ → ℕ → List PostResultHash → ℕ → ℕ → Bool → State T W → Result (ℕ × ℕ × State T W)
  hash_reply_next challenger target hashs score index is_all_done s = do
    updated ← update_result_hashs cfg target hashs is_all_done index true s
    ok (0, index, deposit_event (Event.continue_replied_hash challenger target is_all_done) updated)

  unfoldable pub reply_hash_next :
      Result ℕ → ℕ → List PostResultHash → State T W → Result (State T W)
  reply_hash_next origin target hashs s = do
    challenger ← origin
    check_step cfg s
    challenge_base.next app_id challenger target (length hashs % u32)
        (hash_reply_next challenger target hashs) s

  -- The callback of `reply_path`. The order is filled up in place before the paths are checked.
  abbrev pub path_reply :
      ℕ
      → ℕ
      → List NodePath
      → ℕ
      → List (List ResultHash)
      → Bool
      → ℕ
      → ℕ
      → State T W
      → Result (ℕ × State T W)
  path_reply pathfinder target paths quantity r_hashs_sets is_all_done index order s = do
    full_order ← get_full_order r_hashs_sets order index
    (new_order, filled) ← ok_or (try_to_u64 full_order) (fails RefreshSeedsError.conver_error)
    checked_paths_vec cfg paths target filled (length r_hashs_sets) s
    (if is_all_done
        then (ok_or (last? r_hashs_sets) DispatchError.panic >>= λ last.
            ok_or (get_elem? last index) DispatchError.panic >>= λ r_hash.
            verify_paths cfg paths target r_hash s)
        else ok tt)
    let stored = record s { paths = StorageMap.insert target paths s.paths }
    ok (new_order, deposit_event (Event.replied_path pathfinder target quantity is_all_done) stored)

  unfoldable pub reply_path : Result ℕ → ℕ → List NodePath → ℕ → State T W → Result (State T W)
  reply_path origin target paths quantity s = do
    pathfinder ← origin
    check_step cfg s
    ensure (not (is_some (StorageMap.lookup target s.paths)))
        (fails RefreshSeedsError.already_exists)
    r_hashs_sets ← try_get_rhash target s
    ensure (length r_hashs_sets == deep_limit) (fails RefreshSeedsError.depth_does_not_match)
    ensure (not (length paths == 0)) (fails RefreshSeedsError.no_path)
    let sorted = sort_dedup_paths paths
    ensure (length paths == length sorted) (fails RefreshSeedsError.not_match)
    replied ←
        challenge_base.reply app_id pathfinder target quantity (length paths % u32)
          (path_reply pathfinder target sorted quantity r_hashs_sets) s
    ok (touch replied)

  -- The callback of `reply_path_next`.
  abbrev pub path_reply_next :
      ℕ → ℕ → List NodePath → ℕ → ℕ → Bool → State T W → Result (ℕ × ℕ × State T W)
  path_reply_next pathfinder target paths order index is_all_done s = do
    r_hashs_sets ← try_get_rhash target s
    last ← ok_or (last? r_hashs_sets) DispatchError.panic
    r_hash ← ok_or (get_elem? last index) DispatchError.panic
    let joined = StorageMap.get_or [] target s.paths ++ paths
    let full_paths = sort_dedup_paths joined
    ensure (length joined == length full_paths) (fails RefreshSeedsError.not_match)
    full_order ← from_u64 order (length r_hashs_sets + 1)
    checked_paths_vec cfg paths target full_order (length r_hashs_sets) s
    (if is_all_done then verify_paths cfg full_paths target r_hash s else ok tt)
    let stored = record s { paths = StorageMap.insert target full_paths s.paths }
    ok (
      order,
      index,
      deposit_event (Event.continue_replied_path pathfinder target is_all_done) stored,
    )

  unfoldable pub reply_path_next : Result ℕ → ℕ → List NodePath → State T W → Result (State T W)
  reply_path_next origin target paths s = do
    pathfinder ← origin
    check_step cfg s
    replied ←
        challenge_base.next app_id pathfinder target (length paths % u32)
          (path_reply_next pathfinder target paths) s
    ok (touch replied)

  unfoldable pub reply_num : Result ℕ → ℕ → List (List ℕ) → State T W → Result (State T W)
  reply_num origin target mid_paths s = do
    challenger ← origin
    check_step cfg s
    let sorted = sort_dedup_nodes mid_paths
    ensure (length mid_paths == length sorted) (fails RefreshSeedsError.not_match)
    replied ← do_reply_num cfg challenger target sorted s
    ok (deposit_event (Event.replied_num challenger target) (touch replied))
