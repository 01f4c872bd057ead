-- ===== src/RefreshReputation/Scores.antt =====
-- pallets/refresh-reputation/src/lib.rs: what uploads that were accepted have in common, and the
-- score that they lead to.
use zero_dao_node.Base.{
  ℕ, ◌+◌, ◌-◌, ◌≤◌, ◌<◌, ◌≡◌, ◌==◌, if◌then◌else◌, Option, length, ◌++◌, wrapping_add, inl, inr,
  refl, Bool, true, not, ◌&&◌, none, some, Option-cases, List, [], ◌∷◌, u32, arith,
}
use zero_dao_node.Base.DoubleMap
use zero_dao_node.Base.DoubleMap.{lookup-insert, lookup-remove}
use zero_dao_node.Dispatch.{ok, Result-cases}
use zero_dao_node.RefreshReputation.{
  SeedPath, State, Config, exclude_zero, get_path, contains_key, check_nodes_leng,
}
use zero_dao_node.RefreshReputation.Uploads.{
  zip, added_score, insert_paths, do_update_path, get_dist, improves, verified_score, mutate_paths,
  do_update_path_verify,
}

-- The sum of the scores of uploaded paths.
unfoldable pub gained : List (ℕ × SeedPath) → ℕ
gained [] = 0
gained ((seed, path) ∷ uploads) = path.score + gained uploads

-- The last upload for a seed.
unfoldable pub last_for : ℕ → List (ℕ × SeedPath) → Option SeedPath
last_for k [] = none
last_for k ((seed, path) ∷ uploads) = elim (last_for k uploads) [
  | some later ↦ some later
  | none ↦ if k == seed then some path else none
]

-- What an upload leaves of what was stored.
abbrev pub replacing : Option SeedPath → Option SeedPath → Option SeedPath
replacing none old = old
replacing (some path) old = if path.score == 0 then none else some path

module _ {T W : Type 0} where
  mutate_paths_lem :
      (target k t : ℕ) (uploads : List (ℕ × SeedPath)) (s : State T W)
      → (DoubleMap.lookup k t (mutate_paths target uploads s).paths ≡ (
          if t == target
          then replacing (last_for k uploads) (DoubleMap.lookup k t s.paths)
          else DoubleMap.lookup k t s.paths))
        × (mutate_paths target uploads s
            ≡ record s { paths = (mutate_paths target uploads s).paths })
  unfolding mutate_paths last_for
  mutate_paths_lem target k t [] s = (ground arith, refl)
  mutate_paths_lem target k t ((seed, path) ∷ uploads) s =
      let stored = record s {
        paths =
            if path.score == 0
            then DoubleMap.remove seed target s.paths
            else DoubleMap.insert seed target path s.paths;
      } in
      let (rest, same) = mutate_paths_lem target k t uploads stored in
      let put = lookup-insert k t seed target path s.paths in
      let gone = lookup-remove k t seed target s.paths in
      elim (Option-cases (last_for k uploads)) [
        | inl alone ↦ (ground (arith, rest, put, gone, alone), ground (arith, same))
        | inr (later, found) ↦ (ground (arith, rest, put, gone, found), ground (arith, same))
      ]

  -- Every upload is a path with a score and not too many nodes, for a seed that has no path yet.
  unfoldable pub fresh : ℕ → List (ℕ × SeedPath) → State T W → Bool
  fresh target [] s = true
  fresh target ((seed, path) ∷ uploads) s =
      not (contains_key seed target s) && exclude_zero path && fresh target uploads s

  -- The sum of the scores that the uploads replace.
  unfoldable pub replaced : ℕ → List (ℕ × SeedPath) → State T W → ℕ
  replaced target [] s = 0
  replaced target ((seed, path) ∷ uploads) s =
      (get_path seed target s).score + replaced target uploads s

  added_score_lem :
      (target acc out : ℕ) (uploads : List (ℕ × SeedPath)) (s : State T W)
      → acc < u32
      → added_score target uploads acc s ≡ ok out
      → (out ≡ acc + gained uploads) × (out < u32) × (fresh target uploads s ≡ true)
  unfolding added_score gained fresh
  added_score_lem target acc out [] s small e = (ground arith, ground arith, refl)
  added_score_lem target acc out ((seed, path) ∷ uploads) s small e =
      ground (arith, added_score_lem target (acc + path.score) out uploads s)

  -- Paths that a challenger adds are new ones, each of at most three nodes and with a score, and the
  -- score grows by theirs, within 32 bits.
  pub do_update_path_lem :
      (target score out : ℕ) (seeds : List ℕ) (paths : List SeedPath) (s s' : State T W)
      → score < u32
      → do_update_path target seeds paths score s ≡ ok (out, s')
      → (out ≡ score + gained (zip seeds paths))
        × (out < u32)
        × (fresh target (zip seeds paths) s ≡ true)
        × (s' ≡ insert_paths target (zip seeds paths) s)
  unfolding do_update_path
  do_update_path_lem target score out seeds paths s s' small e =
      elim (Result-cases (added_score target (zip seeds paths) score s)) [
        | inr (x, failed) ↦ absurd (ground arith)
        | inl (total, done) ↦
            let (sum, room, new) =
              added_score_lem target score total (zip seeds paths) s small done in
            (ground (arith, sum), ground (arith, room), new, ground arith)
      ]

module _ {T W : Type 0} (cfg : Config T W) where
  -- Every upload has at most three nodes between its seed and the target, counted in 32 bits, and the path of trust through
  -- them has a distance and just the score that the upload claims.
  unfoldable pub Reaching : ℕ → List (ℕ × SeedPath) → State T W → Type 0
  Reaching target [] s = Unit {0}
  Reaching target ((seed, path) ∷ uploads) s =
      ((wrapping_add u32 (length path.nodes) 2 ≤ 5)
        × ((dist : ℕ) × (cfg.trust_base.computed_path (seed ∷ (path.nodes ++ (target ∷ []))) s.world
              ≡ ok (dist, path.score))))
      × Reaching target uploads s

  get_dist-reaches :
      (target seed dist : ℕ) (path : SeedPath) (s : State T W)
      → get_dist cfg path seed target s ≡ some dist
      → (wrapping_add u32 (length path.nodes) 2 ≤ 5)
        × (cfg.trust_base.computed_path (seed ∷ (path.nodes ++ (target ∷ []))) s.world
            ≡ ok (dist, path.score))
  unfolding get_dist check_nodes_leng
  get_dist-reaches target seed dist path s e =
      let nodes = seed ∷ (path.nodes ++ (target ∷ [])) in
      elim (Result-cases (cfg.trust_base.computed_path nodes s.world)) [
        | inr (x, failed) ↦ absurd (ground arith)
        | inl ((far, score), run) ↦ (ground arith, ground arith)
      ]

  verified_score_lem :
      (target acc out : ℕ) (uploads : List (ℕ × SeedPath)) (s : State T W)
      → verified_score cfg target uploads acc s ≡ ok out
      → (out + replaced target uploads s ≡ acc + gained uploads) × Reaching target uploads s
  unfolding verified_score gained replaced Reaching
  verified_score_lem target acc out [] s e = (ground arith, tt)
  verified_score_lem target acc out ((seed, path) ∷ uploads) s e =
      let old = get_path seed target s in
      elim (Option-cases (get_dist cfg path seed target s)) [
        | inl none_found ↦ absurd (ground arith)
        | inr (dist, found) ↦
            elim (Result-cases (improves (get_dist cfg old seed target s) dist old path)) [
              | inr (x, failed) ↦ absurd (ground arith)
              | inl (_, better) ↦
                  let (sum, reached) =
                    verified_score_lem target (acc - old.score + path.score) out uploads s
                      (ground arith) in
                  let (short, exists) = get_dist-reaches target seed dist path s found in
                  (ground (arith, sum), ((short, (dist, exists)), reached))
            ]
      ]

  -- Paths that an arbitration accepts are of at most three nodes, counted with the wrap-around of 32
  -- bits, and exist along trust, each with the score that it claims; the score changes by what they give more than the paths that they
  -- replace. For a seed of the uploads the last of them counts: it is stored, or the path of the seed
  -- goes if its score is 0. All other paths stay, and nothing but the paths changes.
  pub do_update_path_verify_lem :
      (target score out k t : ℕ) (seeds : List ℕ) (paths : List SeedPath) (s s' : State T W)
      → do_update_path_verify cfg target seeds paths score s ≡ ok (out, s')
      → (out + replaced target (zip seeds paths) s ≡ score + gained (zip seeds paths))
        × Reaching target (zip seeds paths) s
        × (DoubleMap.lookup k t s'.paths ≡ (
            if t == target
            then replacing (last_for k (zip seeds paths)) (DoubleMap.lookup k t s.paths)
            else DoubleMap.lookup k t s.paths))
        × (s' ≡ record s { paths = s'.paths })
  unfolding do_update_path_verify
  do_update_path_verify_lem target score out k t seeds paths s s' e =
      elim (Result-cases (verified_score cfg target (zip seeds paths) score s)) [
        | inr (x, failed) ↦ absurd (ground arith)
        | inl (total, done) ↦
            let (sum, real) = verified_score_lem target score total (zip seeds paths) s done in
            let (stored, rest) = mutate_paths_lem target k t (zip seeds paths) s in
            (ground (arith, sum), real, ground (arith, stored), ground (arith, rest))
      ]
