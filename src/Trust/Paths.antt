-- ===== src/Trust/Paths.antt =====
-- pallets/trust/src/lib.rs, `computed_path` and `valid_nodes`: which paths count, and between what
-- bounds the distance and the reputation of the last user lie.
use zero_dao_node.Base.{
  ℕ, zero, suc, some, get_elem?, ◌↔◌, ◌+◌, ◌-◌, ◌*◌, ◌/◌, ◌%◌, ◌<◌, ◌≤◌, ◌≡◌, inl, inr, Bool, true,
  false, ◌&&◌, if◌then◌else◌, List, [], ◌∷◌, arith, u32, refl, Bool-cases, length, saturating_sub,
}
use native.Mathlib.Nat.{mul-le-mul_right, mul-le-mul_left, div-mul-le_self, div-le_self}
use zero_dao_node.Dispatch.{ok, err, TrustError}
use zero_dao_node.Primitives.{appro_ln, appro_ln_monotone}
use zero_dao_node.Trust.{
  State, Config, fails, is_trust, is_trust_old, valid_nodes, accumulated, fold_path, computed_path,
  init_seed_rank, max, option_or, min_trust_count, get_trust_count_old,
}

-- Whether a relation holds along a path.
unfoldable pub along : (ℕ → ℕ → Bool) → List ℕ → Bool
along trusts [] = true
along trusts (u0 ∷ []) = true
along trusts (u0 ∷ u1 ∷ users) = trusts u0 u1 && along trusts (u1 ∷ users)

-- A score multiplied by five for every step of a path.
unfoldable pub fives : List ℕ → ℕ → ℕ
fives [] score = score
fives (u0 ∷ []) score = score
fives (u0 ∷ u1 ∷ users) score = 5 * fives (u1 ∷ users) score

module _ {S W : Type 0} (cfg : Config S W) where
  open cfg use {seeds_base, reputation, perbill, damping_factor}

  valid_nodes-each :
      (nodes : List ℕ) (s : State S W)
      → valid_nodes cfg nodes s ≡ ok tt
      → (i w0 w1 : ℕ) → get_elem? nodes i ≡ some w0
      → get_elem? nodes (suc i) ≡ some w1
      → is_trust_old cfg w0 w1 s ≡ true
  unfolding valid_nodes get_elem?
  valid_nodes-each [] s e i w0 w1 at next = absurd (ground arith)
  valid_nodes-each (n0 ∷ []) s e i w0 w1 at next = absurd (ground arith)
  valid_nodes-each (n0 ∷ n1 ∷ nodes) s e zero w0 w1 at next = ground arith
  valid_nodes-each (n0 ∷ n1 ∷ nodes) s e (suc i) w0 w1 at next =
      valid_nodes-each (n1 ∷ nodes) s (ground arith) i w0 w1 at next

  valid_nodes-ok :
      (nodes : List ℕ) (s : State S W)
      → ((i w0 w1 : ℕ)
          → get_elem? nodes i ≡ some w0
          → get_elem? nodes (suc i) ≡ some w1
          → is_trust_old cfg w0 w1 s ≡ true)
      → valid_nodes cfg nodes s ≡ ok tt
  unfolding valid_nodes get_elem?
  valid_nodes-ok [] s each = refl
  valid_nodes-ok (n0 ∷ []) s each = refl
  valid_nodes-ok (n0 ∷ n1 ∷ nodes) s each =
      ground (arith, each 0 n0 n1 refl refl, valid_nodes-ok (n1 ∷ nodes) s (λ i. each (suc i)))

  -- A path is valid exactly when, at every index, the user there trusts the one at the next index by
  -- the old trust relation.
  pub valid_nodes_lem :
      (nodes : List ℕ) (s : State S W)
      → (valid_nodes cfg nodes s ≡ ok tt) ↔ (
          (i w0 w1 : ℕ)
          → get_elem? nodes i ≡ some w0
          → get_elem? nodes (suc i) ≡ some w1
          → is_trust_old cfg w0 w1 s ≡ true)
  valid_nodes_lem nodes s = (valid_nodes-each nodes s, valid_nodes-ok nodes s)

  -- One step divides the score by five at least, where the factor does not raise it.
  accumulated_score :
      (total score dist trust_count : ℕ)
      → damping_factor ≤ 1_000_000_000
      → 1 ≤ dist
      → let (_, item) = accumulated cfg (total, score) dist trust_count in 5 * item ≤ score
  accumulated_score total score dist trust_count part far =
      let damped = perbill.mul_floor damping_factor score in
      let divisor = max trust_count min_trust_count in
      let shared = damped / divisor in
      let at_most : damped ≤ score =
        omega (arith, perbill.mul_floor_below damping_factor score, mul-le-mul_right score part) in
      let wide : 5 ≤ divisor = ground arith in
      let fifth : shared * 5 ≤ damped =
        omega (arith, div-mul-le_self damped divisor, mul-le-mul_left shared wide) in
      omega (arith, div-le_self shared dist)

  fold_path_lem :
      (start_ir total score : ℕ) (users : List ℕ) (s : State S W)
      → damping_factor ≤ 1_000_000_000
      → total + 8 * length users < u32
      → along (λ u0 u1. is_trust cfg u0 u1 s) users ≡ true
      → (dist : ℕ) × (last : ℕ) × (fold_path cfg start_ir (total, score) users s ≡ ok (dist, last))
        × (total + length users ≤ dist + 1)
        × (dist ≤ total + 8 * (length users - 1))
        × (fives users last ≤ score)
  unfolding fold_path along fives
  fold_path_lem start_ir total score [] s part fits linked =
      (total, score, refl, omega arith, omega arith, omega arith)
  fold_path_lem start_ir total score (u0 ∷ []) s part fits linked =
      (total, score, refl, omega arith, omega arith, omega arith)
  fold_path_lem start_ir total score (u0 ∷ u1 ∷ users) s part fits linked =
      let end_ir = option_or 0 (reputation.get_reputation u1 s.world) in
      let trust_count = get_trust_count_old cfg u0 s % u32 in
      let step = appro_ln (saturating_sub start_ir end_ir) in
      let (far, _, near) =
        appro_ln_monotone (saturating_sub start_ir end_ir) (saturating_sub start_ir end_ir)
          (omega arith) in
      let here : is_trust cfg u0 u1 s ≡ true = ground arith in
      let (total', item) = accumulated cfg (total, score) step trust_count in
      let (dist, last, run, low, high, bound) =
        fold_path_lem end_ir total' item (u1 ∷ users) s part (ground arith) (ground arith) in
      (
        dist,
        last,
        ground (arith, here, run),
        ground arith,
        ground arith,
        omega (arith, bound, accumulated_score total score step trust_count part far),
      )

  -- A path with an untrusted step is refused.
  fold_path_refused :
      (start_ir : ℕ) (acc : ℕ × ℕ) (users : List ℕ) (s : State S W)
      → along (λ u0 u1. is_trust cfg u0 u1 s) users ≡ false
      → fold_path cfg start_ir acc users s ≡ err (fails TrustError.wrong_path)
  unfolding fold_path along
  fold_path_refused start_ir acc [] s broken = absurd (ground arith)
  fold_path_refused start_ir acc (u0 ∷ []) s broken = absurd (ground arith)
  fold_path_refused start_ir acc (u0 ∷ u1 ∷ users) s broken =
      let end_ir = option_or 0 (reputation.get_reputation u1 s.world) in
      let trust_count = get_trust_count_old cfg u0 s % u32 in
      let step = appro_ln (saturating_sub start_ir end_ir) in
      let rest = fold_path_refused end_ir (accumulated cfg acc step trust_count) (u1 ∷ users) s in
      elim (Bool-cases (is_trust cfg u0 u1 s)) [
        | inl here ↦ ground (arith, here, rest)
        | inr gone ↦ ground (arith, gone)
      ]

  -- A path from a seed along which every user trusts the next one has a distance of 1 to 8 for each
  -- step, and a score that is at most 1000, divided by five for each step, where the damping factor
  -- is a part of the whole and the distance fits 32 bits.
  pub computed_path_lem :
      (u0 : ℕ) (users : List ℕ) (s : State S W)
      → damping_factor ≤ 1_000_000_000
      → 8 * length (u0 ∷ users) < u32
      → seeds_base.is_seed u0 s.world ≡ true
      → along (λ a b. is_trust cfg a b s) (u0 ∷ users) ≡ true
      → (dist : ℕ) × (score : ℕ) × (computed_path cfg (u0 ∷ users) s ≡ ok (dist, score))
        × (length users ≤ dist)
        × (dist ≤ 8 * length users)
        × (fives (u0 ∷ users) score ≤ 1000)
  unfolding computed_path
  computed_path_lem u0 users s part fits seed linked =
      let (dist, score, run, low, high, bound) =
        fold_path_lem init_seed_rank 0 init_seed_rank (u0 ∷ users) s part (omega arith) linked in
      (dist, score, ground (arith, run), omega arith, omega arith, omega arith)

  -- Any other path is refused: without a user by a panic, then for its start, then for a step.
  pub computed_path_refused :
      (u0 : ℕ) (users : List ℕ) (s : State S W)
      → (seeds_base.is_seed u0 s.world && along (λ a b. is_trust cfg a b s) (u0 ∷ users)) ≡ false
      → computed_path cfg (u0 ∷ users) s
        ≡ err (
            fails (
              if seeds_base.is_seed u0 s.world then TrustError.wrong_path else TrustError.not_seed))
  unfolding computed_path
  computed_path_refused u0 users s wrong = elim (Bool-cases (seeds_base.is_seed u0 s.world)) [
    | inl seed ↦
        ground (arith, seed, fold_path_refused init_seed_rank (0, init_seed_rank) (u0 ∷ users) s)
    | inr other ↦ ground (arith, other)
  ]
