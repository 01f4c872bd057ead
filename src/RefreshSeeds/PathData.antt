-- ===== src/RefreshSeeds/PathData.antt =====
-- pallets/refresh-seeds/src/functions.rs: the serial number of two ends of a path by their hash, and
-- the checks of uploaded paths.
use zero_dao_node.Base.{
  ℕ, ◌+◌, ◌-◌, ◌*◌, ◌/◌, ◌%◌, Bool, not, ◌&&◌, ◌||◌, List, [], ◌∷◌, ◌++◌, length, ltb, leb, ◌==◌,
  if◌then◌else◌, drop, u32, saturating_add,
}
use zero_dao_node.Dispatch.{Result, ok, err, ◌>>=◌, ◌>>◌, ensure, DispatchError, RefreshSeedsError}
use zero_dao_node.RefreshSeeds.{
  NodePath, ResultHash, State, Config, fails, get_ends, slice_lt, slice_eq, get_pathfinder_paths,
  check_mid_path, checked_nodes,
}
use zero_dao_node.RefreshSeeds.Orders.{app_id, range, max_shortest_path}

-- `sort` and `dedup` on vectors and on paths, both ordered lexicographically.
abbrev pub path_lt : NodePath → NodePath → Bool
path_lt p q = slice_lt p.nodes q.nodes || (slice_eq p.nodes q.nodes && ltb p.total q.total)

abbrev pub path_eq : NodePath → NodePath → Bool
path_eq p q = slice_eq p.nodes q.nodes && p.total == q.total

module _ {A : Type 0} (before : A → A → Bool) where
  unfoldable pub insert_sorted : A → List A → List A
  insert_sorted x [] = x ∷ []
  insert_sorted x (y ∷ ys) =
      let rest = insert_sorted x ys in if before y x then y ∷ rest else x ∷ y ∷ ys

  unfoldable pub sort : List A → List A
  sort [] = []
  sort (x ∷ xs) = insert_sorted x (sort xs)

-- `dedup` keeps the first of consecutive equal elements.
unfoldable pub dedup : {A : Type 0} → (A → A → Bool) → List A → List A
dedup same [] = []
dedup same (x ∷ []) = x ∷ []
dedup same (x ∷ y ∷ ys) = let rest = dedup same (y ∷ ys) in if same x y then rest else x ∷ rest

abbrev pub sort_dedup_paths : List NodePath → List NodePath
sort_dedup_paths paths = dedup path_eq (sort path_lt paths)

abbrev pub sort_dedup_nodes : List (List ℕ) → List (List ℕ)
sort_dedup_nodes paths = dedup slice_eq (sort slice_lt paths)

-- The two digits of a byte as hexadecimal characters.
abbrev pub hex_digit : ℕ → ℕ
hex_digit u = if ltb u 10 then u + 48 else u - 10 + 97

unfoldable pub hex : List ℕ → List ℕ
hex [] = []
hex (n ∷ ns) = hex_digit (n / 16) ∷ hex_digit (n % 16) ∷ hex ns

module _ {T W : Type 0} (cfg : Config T W) where
  open cfg use {sha1, encode, challenge_base}

  unfoldable pub sha1_hasher : List ℕ → List ℕ
  sha1_hasher bytes = hex (sha1 bytes)

  -- The nodes of a path, each followed by `,`.
  unfoldable pub hash_nodes : List ℕ → List ℕ
  hash_nodes [] = []
  hash_nodes (node ∷ nodes) = encode node ++ (44 ∷ hash_nodes nodes)

  -- The total in decimal, of at most two digits, and `;`.
  abbrev pub hash_total : ℕ → List ℕ
  hash_total total =
      let low = (total % 10 + 48) ∷ 59 ∷ [] in
      if ltb 9 total then ((total / 10) % 256 + 48) % 256 ∷ low else low

  unfoldable pub hash_paths : List NodePath → List ℕ
  hash_paths [] = []
  hash_paths (path ∷ paths) = hash_nodes path.nodes ++ (hash_total path.total ++ hash_paths paths)

  -- The last `deep * RANGE` characters of the hash of both ends; a slice from before its start
  -- panics.
  unfoldable pub make_full_order : ℕ → ℕ → ℕ → Result (List ℕ)
  make_full_order start stop deep =
      let points_hash = sha1_hasher (encode start ++ encode stop) in
      if leb (deep * range) (length points_hash)
      then ok (drop (length points_hash - deep * range) points_hash)
      else err DispatchError.panic

  unfoldable pub checked_paths_vec : List NodePath → ℕ → List ℕ → ℕ → State T W → Result (Unit {0})
  checked_paths_vec [] target order deep s = ok tt
  checked_paths_vec (p ∷ paths) target order deep s = do
    ensure (ltb 0 p.total && ltb p.total max_shortest_path) (fails RefreshSeedsError.path_too_long)
    ends ← get_ends p
    full_order ← make_full_order ends.0 ends.1 deep
    ensure (slice_eq full_order order) (fails RefreshSeedsError.order_not_match)
    checked_nodes cfg p.nodes target s
    checked_paths_vec paths target order deep s

  -- The `try_fold` of `verify_paths`; a division by zero panics.
  unfoldable pub path_scores : List NodePath → ℕ → ℕ → State T W → Result ℕ
  path_scores [] target acc s = ok acc
  path_scores (p ∷ paths) target acc s = do
    checked_nodes cfg p.nodes target s
    ensure (ltb p.total 100) (fails RefreshSeedsError.length_too_long)
    ensure (not (p.total == 0)) DispatchError.panic
    path_scores paths target (saturating_add u32 acc (100 / p.total)) s

  unfoldable pub verify_paths : List NodePath → ℕ → ResultHash → State T W → Result (Unit {0})
  verify_paths paths target result_hash s = do
    total_score ← path_scores paths target 0 s
    ensure (total_score == result_hash.score) (fails RefreshSeedsError.score_mismatch)

  -- The loop of `do_reply_num`, and of `number_too_low` after its check of the length.
  unfoldable pub check_mid_paths : List (List ℕ) → ℕ → ℕ → State T W → Result (Unit {0})
  check_mid_paths [] start stop s = ok tt
  check_mid_paths (mid_path ∷ mid_paths) start stop s = do
    nodes ← check_mid_path cfg mid_path start stop s
    check_mid_paths mid_paths start stop s

  -- The callback of `do_reply_num`.
  abbrev pub num_reply : ℕ → List (List ℕ) → Bool → ℕ → ℕ → State T W → Result (ℕ × State T W)
  num_reply target mid_paths is_all_done index order s = do
    p_path ← get_pathfinder_paths target index s
    ensure (length mid_paths % u32 == p_path.total) (fails RefreshSeedsError.length_not_equal)
    ends ← get_ends p_path
    check_mid_paths mid_paths ends.0 ends.1 s
    ok (0, s)

  unfoldable pub do_reply_num : ℕ → ℕ → List (List ℕ) → State T W → Result (State T W)
  do_reply_num challenger target mid_paths s =
      challenge_base.reply app_id challenger target 0 0 (num_reply target mid_paths) s
