-- ===== src/RefreshSeeds/Hashes.antt =====
-- pallets/refresh-seeds/src/functions.rs: the levels of the hash tree that a pathfinder uploads.
use zero_dao_node.Base.{
  ℕ, ◌-◌, ◌%◌, Bool, true, false, List, [], ◌∷◌, ◌++◌, length, ltb, leb, ◌==◌, if◌then◌else◌,
  get_elem?, last?, u64, checked_add,
}
use zero_dao_node.Base.StorageMap
use zero_dao_node.Dispatch.{
  Result, ok, err, ◌>>=◌, ◌>>◌, ensure, ok_or, DispatchError, RefreshSeedsError,
}
use zero_dao_node.RefreshSeeds.{
  ResultHash, PostResultHash, to_result_hash, State, Config, fails, get_candidate, get_result_hashs,
  try_get_rhash,
}
use zero_dao_node.RefreshSeeds.Orders.{
  order_bytes, FullOrder, deep_limit, range, try_to_u64, from_u64, connect,
}

-- `map(|h| h.to_result_hash())`
abbrev pub to_result_hashs : List PostResultHash → List ResultHash
to_result_hashs [] = []
to_result_hashs (h ∷ hs) = to_result_hash h ∷ to_result_hashs hs

-- `get_full_order`; an index past the end of the last level panics.
unfoldable pub get_full_order : List (List ResultHash) → ℕ → ℕ → Result FullOrder
get_full_order [] old_order index = ok []
get_full_order (level ∷ levels) old_order index = do
  last ← ok_or (last? (level ∷ levels)) DispatchError.panic
  next_level ← ok_or (get_elem? last index) DispatchError.panic
  full_order ← from_u64 old_order (length (level ∷ levels))
  ok (connect full_order next_level.order)

-- The `try_fold` of `verify_result_hashs`.
unfoldable pub fold_scores : List ResultHash → ℕ → Result ℕ
fold_scores [] acc = ok acc
fold_scores (r ∷ rs) acc = do
  ensure (length (order_bytes r.order) == range) (fails RefreshSeedsError.order_not_match)
  acc' ← ok_or (checked_add u64 acc r.score) (fails RefreshSeedsError.overflow)
  fold_scores rs acc'

-- `r_hashs_sets[current_deep - 1] = set`
unfoldable pub set_last : List ResultHash → List (List ResultHash) → List (List ResultHash)
set_last level [] = []
set_last level (l ∷ []) = level ∷ []
set_last level (l ∷ l' ∷ ls) = l ∷ set_last level (l' ∷ ls)

module _ {T W : Type 0} where
  unfoldable pub get_next_order : ℕ → ℕ → ℕ → State T W → Result ℕ
  get_next_order target old_order index s = elim (try_get_rhash target s) [
    | err e ↦ ok 0
    | ok r_hashs_sets ↦ do
      full_order ← get_full_order r_hashs_sets old_order index
      (order, filled) ← ok_or (try_to_u64 full_order) (fails RefreshSeedsError.conver_error)
      ok order
  ]

  -- What the scores of the last level must add up to: the candidate's score, or the score of the
  -- entry that was examined in the level above.
  unfoldable pub parent_score : List (List ResultHash) → ℕ → ℕ → State T W → Result ℕ
  parent_score result_hashs index target s =
      let deep = length result_hashs in
      if deep == 1
      then ok (get_candidate target s).score
      else (ok_or (get_elem? result_hashs (deep - 2)) DispatchError.panic >>= λ above.
          ok_or (get_elem? above index) DispatchError.panic >>= λ examined. ok examined.score)

  unfoldable pub verify_result_hashs :
      List (List ResultHash) → ℕ → ℕ → State T W → Result (Unit {0})
  verify_result_hashs [] index target s = ok tt
  verify_result_hashs (level ∷ levels) index target s = do
    last ← ok_or (last? (level ∷ levels)) DispatchError.panic
    fold_score ← fold_scores last 0
    total_score ← parent_score (level ∷ levels) index target s
    ensure (fold_score == total_score) (fails RefreshSeedsError.score_mismatch)

module _ {T W : Type 0} (cfg : Config T W) where
  open cfg use {hash_set}

  -- The levels with the new hashes: appended to the last level where `next`, else as another level.
  -- The depth is cast to a byte.
  unfoldable pub extended :
      List ResultHash → Bool → List (List ResultHash) → Result (List (List ResultHash))
  extended new_r_hashs true r_hashs_sets = do
    ensure (leb (length r_hashs_sets % 256) deep_limit) (fails RefreshSeedsError.maximum_depth)
    last ← ok_or (last? r_hashs_sets) (fails RefreshSeedsError.data_empty)
    let full_hashs_set = hash_set.from (last ++ new_r_hashs)
    ensure (length (last ++ new_r_hashs) == length full_hashs_set)
        (fails RefreshSeedsError.data_duplication)
    ok (set_last full_hashs_set r_hashs_sets)
  extended new_r_hashs false r_hashs_sets = do
    ensure (ltb (length r_hashs_sets % 256) deep_limit) (fails RefreshSeedsError.maximum_depth)
    let r_hashs_set = hash_set.from new_r_hashs
    ensure (length new_r_hashs == length r_hashs_set) (fails RefreshSeedsError.data_duplication)
    ok (r_hashs_sets ++ (r_hashs_set ∷ []))

  unfoldable pub update_result_hashs :
      ℕ → List PostResultHash → Bool → ℕ → Bool → State T W → Result (State T W)
  update_result_hashs target hashs do_verify index next s = do
    r_hashs_sets ← extended (to_result_hashs hashs) next (get_result_hashs target s)
    (if do_verify then verify_result_hashs r_hashs_sets index target s else ok tt)
    ok (record s { result_hashs_sets = StorageMap.insert target r_hashs_sets s.result_hashs_sets })
