-- ===== src/Challenges/Played/Steps.antt =====
-- runtime/src/lib.rs, `type ChallengeBase = ZdChallenges`: what the steps of a game leave
-- alone of the storage around it.
use zero_dao_node.Base.{ℕ, ◌/◌, ◌≡◌, inl, inr, subst, Bool, true, false, ltb, Bool-cases, arith}
use zero_dao_node.Base.Lens.{Lens}
use zero_dao_node.Dispatch.{Result, ok, Result-cases}
use zero_dao_node.Primitives.Metadata.{Metadata}
use zero_dao_node.Support.Framed.{Preorder, ArbitralKeeps}
use zero_dao_node.Challenges.{
  State, Config, mutate_metadata, after_upload, do_settle, staking, release,
}
use zero_dao_node.Challenges.Methods.{pay_out, release_some, arbitral_step, take_over}
use zero_dao_node.Challenges.Accounting.{mutate_metadata-ok}

-- What the games need of a relation between storages, to keep it: releasing, staking and writing the
-- games back keep it.
pub record Keeps {S W : Type 0} (games : Lens S (State W)) (cfg : Config S) (Kept : S → S → Type 0)
    : Type 0 where
  pub order : Preorder Kept
  pub games_keep : (g : State W) (s : S) → Kept s (games.set g s)
  pub staking_keeps :
      (who amount : ℕ) (s s' : S) → cfg.token.staking who amount s ≡ ok s' → Kept s s'
  pub release_keeps :
      (who amount : ℕ) (s s' : S) → cfg.token.release who amount s ≡ ok s' → Kept s s'

module _ {S W : Type 0} {games : Lens S (State W)} (cfg : Config S) {Kept : S → S → Type 0}
    (keeps : Keeps games cfg Kept) where
  open keeps use {order, staking_keeps, release_keeps}
  open order use {keep, keep_on}

  pub staking-Kept :
      (who amount : ℕ) (c c' : State S) → staking cfg who amount c ≡ ok c' → Kept c.world c'.world
  unfolding staking
  staking-Kept who amount c c' e = elim (Result-cases (cfg.token.staking who amount c.world)) [
    | inr (x, failed) ↦ absurd (ground arith)
    | inl (w, done) ↦ ground (arith, staking_keeps who amount c.world w done)
  ]

  release-Kept :
      (who amount : ℕ) (c c' : State S) → release cfg who amount c ≡ ok c' → Kept c.world c'.world
  unfolding release
  release-Kept who amount c c' e = elim (Result-cases (cfg.token.release who amount c.world)) [
    | inr (x, failed) ↦ absurd (ground arith)
    | inl (w, done) ↦ ground (arith, release_keeps who amount c.world w done)
  ]

  release_some-Kept :
      (who amount : ℕ) (c c' : State S)
      → release_some cfg who amount c ≡ ok c'
      → Kept c.world c'.world
  release_some-Kept who amount c c' e = elim (Bool-cases (ltb 0 amount)) [
    | inl some_amount ↦ release-Kept who amount c c' (ground arith)
    | inr nothing ↦ ground (arith, keep c.world)
  ]

  pub pay_out-Kept :
      (who fee p q : ℕ) (m : Metadata) (c c' : State S)
      → pay_out cfg who m fee p q c ≡ ok c'
      → Kept c.world c'.world
  unfolding pay_out
  pay_out-Kept who fee p q m c c' e = elim (Result-cases (release_some cfg who fee c)) [
    | inr (x, failed) ↦ absurd (ground arith)
    | inl (c1, first) ↦ elim (Result-cases (release_some cfg m.pathfinder p c1)) [
      | inr (x, failed) ↦ absurd (ground arith)
      | inl (c2, second) ↦
          keep_on c.world c1.world c'.world (release_some-Kept who fee c c1 first) (
            keep_on c1.world c2.world c'.world (release_some-Kept m.pathfinder p c1 c2 second)
              (release_some-Kept m.challenger q c2 c' (ground arith)))
    ]
  ]

  -- A change of one game keeps what its step keeps.
  pub mutate_metadata-Kept :
      (app target : ℕ) (f : Metadata → State S → Result (Metadata × State S)) (c c' : State S)
      → ((m m' : Metadata) (t : State S) → f m c ≡ ok (m', t) → Kept c.world t.world)
      → mutate_metadata app target f c ≡ ok c'
      → Kept c.world c'.world
  mutate_metadata-Kept app target f c c' step e =
      let (m, m', t, _, done, at) = mutate_metadata-ok app target f c c' e in
      ground (arith, at, step m m' t done)

  do_settle-Kept :
      (m m' : Metadata) (restart joint : Bool) (score : ℕ) (c c' : State S)
      → do_settle cfg m restart joint score c ≡ ok (m', c')
      → Kept c.world c'.world
  unfolding do_settle
  do_settle-Kept m m' true true score c c' e =
      elim (Result-cases (release cfg m.challenger (m.pool.staking / 2) c)) [
        | inr (x, failed) ↦ absurd (ground arith)
        | inl (t, done) ↦ ground (arith, release-Kept m.challenger (m.pool.staking / 2) c t done)
      ]
  do_settle-Kept m m' true false score c c' e = ground (arith, keep c.world)
  do_settle-Kept m m' false joint score c c' e = ground (arith, keep c.world)

  take_over-Kept :
      (who : ℕ) (m m' : Metadata) (c c' : State S)
      → take_over cfg who m c ≡ ok (m', c')
      → Kept c.world c'.world
  take_over-Kept who m m' c c' e =
      elim (Result-cases (staking cfg who (cfg.challenge_staking_amount) c)) [
        | inr (x, failed) ↦ ground (arith, keep c.world)
        | inl (t, done) ↦
            ground (arith, keep c.world, staking-Kept who (cfg.challenge_staking_amount) c t done)
      ]

  pub arbitral_step-Kept :
      (app who : ℕ) (up : ℕ → ℕ → S → Result (Bool × Bool × ℕ × S)) (m m' : Metadata)
      (c c' : State S)
      → ArbitralKeeps Kept up
      → arbitral_step cfg app who up m c ≡ ok (m', c')
      → Kept c.world c'.world
  unfolding after_upload
  arbitral_step-Kept app who up m m' c c' kept e = elim (Result-cases (take_over cfg who m c)) [
    | inr (x, failed) ↦ absurd (ground arith)
    | inl ((m1, c1), taken) ↦ elim (Result-cases (up m1.score m1.remark c1.world)) [
      | inr (x, failed) ↦ absurd (ground arith)
      | inl ((joint, restart, score, w), did) ↦
          let c2 : State S = record c1 { world = w } in
          elim (Result-cases (do_settle cfg m1 restart joint score c2)) [
            | inr (x, failed) ↦ absurd (ground arith)
            | inl ((m3, c3), settled) ↦
                let last : c3.world ≡ c'.world = ground arith in
                subst (λ (v : S). Kept c.world v) last
                  (keep_on c.world c1.world c3.world (take_over-Kept who m m1 c c1 taken) (
                    keep_on c1.world w c3.world
                      (kept m1.score m1.remark score joint restart c1.world w did)
                      (do_settle-Kept m1 m3 restart joint score c2 c3 settled)))
          ]
    ]
  ]
