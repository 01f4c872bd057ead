-- ===== src/RefreshSeeds/Evidence.antt =====
-- pallets/refresh-seeds/src/functions.rs, `evidence_of_missed`: a challenger presents a path that the
-- pathfinder has left out.
use zero_dao_node.Base.{
  ℕ, ◌+◌, ◌-◌, ◌*◌, Bool, true, false, not, ◌&&◌, ◌||◌, none, some, List, [], ◌∷◌, length, ltb, leb,
  ◌==◌, if◌then◌else◌, take, get_elem?, last?,
}
use zero_dao_node.Base.StorageMap
use zero_dao_node.Dispatch.{
  Result, ok, ◌>>=◌, ◌>>◌, ensure, ok_or, DispatchError, RefreshSeedsError,
}
use zero_dao_node.RefreshSeeds.{
  NodePath, ResultHash, State, Config, Event, fails, get_nodes_ends, get_ends, slice_lt, slice_eq,
  try_get_rhash, check_step, checked_nodes, restart, deposit_event,
}
use zero_dao_node.RefreshSeeds.Orders.{app_id, range, from_u64, order_bytes}
use zero_dao_node.RefreshSeeds.PathData.{make_full_order}

-- The loop over the stored paths: whether one of them has the same ends.
unfoldable pub same_ends : List NodePath → ℕ → ℕ → List ℕ → Result Bool
same_ends [] start stop nodes = ok false
same_ends (p ∷ path_vec) start stop nodes = do
  ends ← get_ends p
  (if start == ends.0 && stop == ends.1
      then (ensure (length p.nodes == length nodes) (fails RefreshSeedsError.length_not_equal)
          >> ensure (not (slice_eq p.nodes nodes)) (fails RefreshSeedsError.already_exist))
      else ok tt)
  rest ← same_ends path_vec start stop nodes
  ok ((start == ends.0 && stop == ends.1) || rest)

-- The orders before and at the index, of which one may be past an end, lie around the first `RANGE`
-- characters of the order.
unfoldable pub check_position : List ResultHash → ℕ → List ℕ → Result (Unit {0})
check_position last_r_hash index user_full_order = do
  let first = take range user_full_order
  (elim (get_elem? last_r_hash (index - 1)) [
    | none ↦ ok tt
    | some r ↦
        ensure (index == 0 || slice_lt (order_bytes r.order) first)
          (fails RefreshSeedsError.path_index_error)
  ])
  (elim (get_elem? last_r_hash index) [
    | none ↦ ok tt
    | some r ↦
        ensure (slice_lt first (order_bytes r.order)) (fails RefreshSeedsError.path_index_error)
  ])

module _ {T W : Type 0} (cfg : Config T W) where
  open cfg use {challenge_base}

  -- The callback of `evidence`: whether the dispute has to go to arbitration.
  unfoldable pub missed :
      ℕ → List ℕ → ℕ → ℕ × ℕ → ℕ → List ℕ → ℕ → ℕ → State T W → Result (Bool × State T W)
  missed target nodes index (start, stop) deep user_full_order remark order s =
      elim (StorageMap.lookup target s.paths) [
        | some path_vec ↦ do
          full_order ← from_u64 order (deep + 1)
          ensure (slice_eq full_order user_full_order) (fails RefreshSeedsError.not_match)
          same ← same_ends path_vec start stop nodes
          ok (not same, s)
        | none ↦ do
          result_hash_sets ← try_get_rhash target s
          last_r_hash ← ok_or (last? result_hash_sets) DispatchError.panic
          ensure (leb index (length last_r_hash)) (fails RefreshSeedsError.index_exceeds_maximum)
          (if ltb 1 deep
              then (from_u64 order deep >>= λ full_order.
                  ensure (slice_eq full_order (take (range * (deep - 1)) user_full_order))
                    (fails RefreshSeedsError.not_match))
              else ok tt)
          check_position last_r_hash index user_full_order
          ok (true, s)
      ]

  unfoldable pub evidence_of_missed : ℕ → ℕ → List ℕ → ℕ → State T W → Result (State T W)
  evidence_of_missed challenger target nodes index s = do
    check_step cfg s
    checked_nodes cfg nodes target s
    ends ← get_nodes_ends nodes
    sets ←
        ok_or (StorageMap.lookup target s.result_hashs_sets)
          (fails RefreshSeedsError.result_hash_not_exit)
    let deep = length sets
    user_full_order ← make_full_order cfg ends.0 ends.1 deep
    (maybe_score, judged) ←
        challenge_base.evidence app_id challenger target
          (missed target nodes index ends deep user_full_order) s
    let answered : State T W = elim maybe_score [
      | some score ↦ restart target challenger score judged
      | none ↦ record judged { missed_paths = StorageMap.insert target nodes judged.missed_paths }
    ]
    ok (deposit_event (Event.missed_path_presented challenger target index) answered)
