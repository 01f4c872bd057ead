-- ===== src/RefreshSeeds/PathChecks.antt =====
-- pallets/refresh-seeds/src/functions.rs, `verify_paths` and `checked_paths_vec`: what accepted paths
-- satisfy, and how the serial numbers of two depths are related.
use zero_dao_node.Base.{
  ℕ, zero, suc, ◌+◌, ◌-◌, ◌++◌, ◌*◌, ◌/◌, ◌≤◌, ◌<◌, ◌≡◌, inl, inr, refl, sym, subst, ap, List, [],
  ◌∷◌, true, length, drop, length-drop, arith, u32,
}
use zero_dao_node.Dispatch.{ok, Result-cases}
use zero_dao_node.External.{sum_of}
use zero_dao_node.RefreshSeeds.{NodePath, ResultHash, State, Config, contains, checked_nodes}
use zero_dao_node.RefreshSeeds.Orders.{range}
use zero_dao_node.RefreshSeeds.PathData.{sha1_hasher, make_full_order, path_scores, verify_paths}

drop-nil : {A : Type 0} (m : ℕ) → drop {A = A} m [] ≡ []
unfolding drop
drop-nil zero = refl
drop-nil (suc m) = refl

drop-drop : {A : Type 0} (m n : ℕ) (xs : List A) → drop m (drop n xs) ≡ drop (n + m) xs
unfolding drop
drop-drop m zero xs = ground arith
drop-drop {A} m (suc n) [] = ground (arith, drop-nil {A = A} m, drop-nil {A = A} (suc n + m))
drop-drop m (suc n) (x ∷ xs) =
    let one_more : suc n + m ≡ suc (n + m) = omega arith in
    subst (λ k. drop m (drop n xs) ≡ drop k (x ∷ xs)) (sym one_more) (drop-drop m n xs)

-- What a path adds to the score of a candidate, with two digits.
abbrev pub path_share : NodePath → ℕ
path_share p = 100 / p.total

module _ {T W : Type 0} (cfg : Config T W) where
  open cfg use {trust_base}

  -- A path of at least two nodes, one of them the target, of users who trust one another; there are 1
  -- to 99 shortest paths between its ends.
  unfoldable pub IsPath : ℕ → State T W → NodePath → Type 0
  IsPath target s p =
      (1 ≤ p.total)
      × (p.total < 100)
      × (2 ≤ length p.nodes)
      × (contains target p.nodes ≡ true)
      × (trust_base.valid_nodes p.nodes s.world ≡ ok tt)

  unfoldable pub ArePaths : ℕ → State T W → List NodePath → Type 0
  ArePaths target s [] = Unit {0}
  ArePaths target s (p ∷ ps) = IsPath target s p × ArePaths target s ps

  path_scores-sum :
      (paths : List NodePath) (target acc out : ℕ) (s : State T W)
      → acc + sum_of path_share paths < u32
      → path_scores cfg paths target acc s ≡ ok out
      → (out ≡ acc + sum_of path_share paths) × ArePaths target s paths
  unfolding path_scores checked_nodes ArePaths IsPath
  path_scores-sum [] target acc out s small e = (ground (arith, e), tt)
  path_scores-sum (p ∷ paths) target acc out s small e =
      elim (Result-cases (trust_base.valid_nodes p.nodes s.world)) [
        | inr (x, failed) ↦ absurd (ground arith)
        | inl (u, valid) ↦
            let next : path_scores cfg paths target (acc + path_share p) s ≡ ok out =
              ground arith in
            let (sum, rest) =
              path_scores-sum paths target (acc + path_share p) out s (omega arith) next in
            (
              ground (arith, sum),
              ((ground arith, ground arith, ground arith, ground arith, valid), rest),
            )
      ]

  -- Verified paths are valid, and their shares add up to the score of the examined hash, where the sum
  -- is in the range of `u32`.
  pub verify_paths_lem :
      (paths : List NodePath) (target : ℕ) (result_hash : ResultHash) (s : State T W)
      → sum_of path_share paths < u32
      → verify_paths cfg paths target result_hash s ≡ ok tt
      → (sum_of path_share paths ≡ result_hash.score) × ArePaths target s paths
  unfolding verify_paths
  verify_paths_lem paths target result_hash s small e =
      elim (Result-cases (path_scores cfg paths target 0 s)) [
        | inr (x, failed) ↦ absurd (ground arith)
        | inl (out, done) ↦
            let (sum, valid) = path_scores-sum paths target 0 out s (omega arith) done in
            (ground (arith, sum), valid)
      ]

  -- The serial number of two ends at a depth is the end of the one at the next depth.
  pub make_full_order-deeper :
      (start stop deep : ℕ) (order : List ℕ)
      → make_full_order cfg start stop (deep + 1) ≡ ok order
      → (length order ≡ (deep + 1) * range)
        × (make_full_order cfg start stop deep ≡ ok (drop range order))
  unfolding make_full_order
  make_full_order-deeper start stop deep order e =
      let hash = sha1_hasher cfg (cfg.encode start ++ cfg.encode stop) in
      let n = length hash in
      let long : (deep + 1) * 2 ≤ n = ground arith in
      let split : n - (deep + 1) * 2 + 2 ≡ n - deep * 2 = omega (arith, long) in
      let cut : drop (n - (deep + 1) * 2) hash ≡ order = ground (arith, long, e) in
      (
        ground (arith, cut, long, length-drop (n - (deep + 1) * 2) hash),
        ground
            (arith, long, cut, drop-drop 2 (n - (deep + 1) * 2) hash, ap (λ k. drop k hash) split),
      )
