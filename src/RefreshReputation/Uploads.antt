-- ===== src/RefreshReputation/Uploads.antt =====
-- pallets/refresh-reputation/src/lib.rs: how uploaded paths are checked and change the score.
use zero_dao_node.Base.{
  ℕ, true, not, Option, none, some, List, [], ◌∷◌, ◌++◌, ltb, leb, ◌==◌, if◌then◌else◌, u32,
  checked_add, checked_sub,
}
use zero_dao_node.Base.DoubleMap
use zero_dao_node.Dispatch.{Result, ok, err, ◌>>=◌, ◌>>◌, ensure, ok_or, RefreshError}
use zero_dao_node.RefreshReputation.{
  SeedPath, State, Config, fails, check_nodes_leng, exclude_zero, get_path, contains_key,
}

-- The iterator `seeds.iter().zip(paths.iter())`.
abbrev pub zip : List ℕ → List SeedPath → List (ℕ × SeedPath)
zip [] paths = []
zip (seed ∷ seeds) [] = []
zip (seed ∷ seeds) (path ∷ paths) = (seed, path) ∷ zip seeds paths

abbrev pub dist_of : ℕ → Result (ℕ × ℕ) → Option ℕ
dist_of score (ok (dist, computed)) = if computed == score then some dist else none
dist_of score (err e) = none

-- The comparison with the distance of the old path.
abbrev pub improves : Option ℕ → ℕ → SeedPath → SeedPath → Result (Unit {0})
improves none dist_new old_path path = ok tt
improves (some old_dist) dist_new old_path path = do
  ensure (leb dist_new old_dist) (fails RefreshError.dist_too_long)
  ensure (if old_dist == dist_new then ltb path.score old_path.score else true)
      (fails RefreshError.score_too_low)

module _ {T W : Type 0} where
  -- The `try_fold` and then the loop of `do_update_path`.
  unfoldable pub added_score : ℕ → List (ℕ × SeedPath) → ℕ → State T W → Result ℕ
  added_score target [] acc s = ok acc
  added_score target ((seed, path) ∷ uploads) acc s = do
    ensure (not (contains_key seed target s)) (fails RefreshError.path_already_exist)
    ensure (exclude_zero path) (fails RefreshError.wrong_path)
    acc' ← ok_or (checked_add u32 acc path.score) (fails RefreshError.overflow)
    added_score target uploads acc' s

  unfoldable pub insert_paths : ℕ → List (ℕ × SeedPath) → State T W → State T W
  insert_paths target [] s = s
  insert_paths target ((seed, path) ∷ uploads) s =
      insert_paths target uploads (record s { paths = DoubleMap.insert seed target path s.paths })

  unfoldable pub do_update_path :
      ℕ → List ℕ → List SeedPath → ℕ → State T W → Result (ℕ × State T W)
  do_update_path target seeds paths score s = do
    new_score ← added_score target (zip seeds paths) score s
    ok (new_score, insert_paths target (zip seeds paths) s)

  -- The loop of `do_update_path_verify`.
  unfoldable pub mutate_paths : ℕ → List (ℕ × SeedPath) → State T W → State T W
  mutate_paths target [] s = s
  mutate_paths target ((seed, path) ∷ uploads) s = mutate_paths target uploads (record s {
    paths =
        if path.score == 0
        then DoubleMap.remove seed target s.paths
        else DoubleMap.insert seed target path s.paths;
  })

module _ {T W : Type 0} (cfg : Config T W) where
  open cfg use {trust_base}

  unfoldable pub get_dist : SeedPath → ℕ → ℕ → State T W → Option ℕ
  get_dist path seed target s =
      let nodes = seed ∷ (path.nodes ++ (target ∷ [])) in
      if check_nodes_leng path
      then dist_of path.score (trust_base.computed_path nodes s.world)
      else none

  -- The `try_fold` of `do_update_path_verify`.
  unfoldable pub verified_score : ℕ → List (ℕ × SeedPath) → ℕ → State T W → Result ℕ
  verified_score target [] acc s = ok acc
  verified_score target ((seed, path) ∷ uploads) acc s = do
    dist_new ← ok_or (get_dist path seed target s) (fails RefreshError.dist_err)
    let old_path = get_path seed target s
    improves (get_dist old_path seed target s) dist_new old_path path
    rest ← ok_or (checked_sub acc old_path.score) (fails RefreshError.overflow)
    acc' ← ok_or (checked_add u32 rest path.score) (fails RefreshError.overflow)
    verified_score target uploads acc' s

  unfoldable pub do_update_path_verify :
      ℕ → List ℕ → List SeedPath → ℕ → State T W → Result (ℕ × State T W)
  do_update_path_verify target seeds paths score s = do
    new_score ← verified_score target (zip seeds paths) score s
    ok (new_score, mutate_paths target (zip seeds paths) s)
