-- ===== src/Challenges/Accounting.antt =====
-- pallets/challenges/src/lib.rs: the pools of the games beside the staked funds, operation by
-- operation. `pooled` sums the pools.
use zero_dao_node.Base.{
  ℕ, ◌+◌, ◌/◌, ◌<◌, ◌≡◌, subst, inl, inr, Bool, true, false, Option, some, Option-cases, arith,
  ◌==◌, if◌then◌else◌, u32, u128, saturating_add,
}
use zero_dao_node.Base.DoubleMap.{sum_by, sum_by-insert}
use zero_dao_node.Dispatch.{Result, ok, Result-cases}
use zero_dao_node.Primitives.Metadata.{
  Metadata, ChallengeStatus, set_status, restart, is_challenger,
}
use zero_dao_node.Challenges.{
  Config, State, metadata_of, put_metadata, mutate_metadata, staking, release, do_settle,
  after_upload,
}
use zero_dao_node.Challenges.Methods.{
  next, next_step, examine, examine_step, reply, reply_step, evidence, arbitral, arbitral_step,
  take_over, settle, settle_step,
}

-- The pool of one game.
abbrev pub amount : Metadata → ℕ
amount m = m.pool.staking + m.pool.earnings

module _ {W : Type 0} where
  -- The pools of all games.
  abbrev pub pooled : State W → ℕ
  pooled s = sum_by amount s.metadatas

  -- What a successful `mutate_metadata` went through.
  pub mutate_metadata-ok :
      (app_id target : ℕ) (f : Metadata → State W → Result (Metadata × State W)) (s s' : State W)
      → mutate_metadata app_id target f s ≡ ok s'
      → (m m' : Metadata) × (t : State W) × (metadata_of app_id target s ≡ some m)
        × (f m s ≡ ok (m', t))
        × (s' ≡ put_metadata app_id target (record m' { last_update = s.now }) t)
  unfolding mutate_metadata
  mutate_metadata-ok app_id target f s s' e = elim (Option-cases (metadata_of app_id target s)) [
    | inl missing ↦ ground arith
    | inr (m, found) ↦ elim (Result-cases (f m s)) [
      | inl ((m', t), done) ↦ (m, m', t, found, done, ground arith)
      | inr (x, failed) ↦ ground arith
    ]
  ]

module _ {W : Type 0} (cfg : Config W) where
  open cfg use {token, challenge_staking_amount}

  abbrev pub staked : State W → ℕ
  staked s = token.staked s.world

  -- A step on one game that leaves the other games alone and moves the staked total by what it
  -- moves the pool, and by `extra` beyond.
  abbrev IsBalanced : ℕ → Metadata → State W → Metadata × State W → Type 0
  IsBalanced extra m s (m', t) =
      (t.metadatas ≡ s.metadatas) × (staked t + amount m ≡ staked s + amount m' + extra)

  mutate_metadata_balance :
      (app_id target extra : ℕ) (f : Metadata → State W → Result (Metadata × State W))
      (s s' : State W) (m m' : Metadata) (t : State W)
      → metadata_of app_id target s ≡ some m
      → IsBalanced extra m s (m', t)
      → s' ≡ put_metadata app_id target (record m' { last_update = s.now }) t
      → staked s' + pooled s ≡ staked s + pooled s' + extra
  mutate_metadata_balance app_id target extra f s s' m m' t found h e =
      ground
        (arith, sum_by-insert amount app_id target (record m' { last_update = s.now }) s.metadatas)

  pub release_balance :
      (who n : ℕ) (s s' : State W)
      → release cfg who n s ≡ ok s'
      → (s'.metadatas ≡ s.metadatas) × (staked s' + n ≡ staked s)
  unfolding release
  release_balance who n s s' e = elim (Result-cases (token.release who n s.world)) [
    | inl (w, done) ↦ ground (arith, token.staked-release who n s.world w done)
    | inr (x, failed) ↦ ground arith
  ]

  do_settle-IsBalanced :
      (m m' : Metadata) (restart joint : Bool) (score : ℕ) (s t : State W)
      → do_settle cfg m restart joint score s ≡ ok (m', t)
      → IsBalanced 0 m s (m', t)
  unfolding do_settle
  do_settle-IsBalanced m m' true true score s t e =
      elim (Result-cases (release cfg m.challenger (m.pool.staking / 2) s)) [
        | inl (p, done) ↦ ground (arith, release_balance m.challenger (m.pool.staking / 2) s p done)
        | inr (x, failed) ↦ ground arith
      ]
  do_settle-IsBalanced m m' true false score s t e = ground arith
  do_settle-IsBalanced m m' false joint score s t e = ground arith

  -- A callback that leaves the staked funds alone.
  abbrev pub NextKeeps : (ℕ → ℕ → Bool → W → Result (ℕ × ℕ × W)) → Type 0
  NextKeeps up =
      (a b : ℕ) (c : Bool) (w : W) (r : ℕ × ℕ × W)
      → up a b c w ≡ ok r
      → token.staked r.2 ≡ token.staked w

  -- Uploading more data moves no funds: the staked total and the pools stay in step.
  pub next_balance :
      (app_id who target count : ℕ) (up : ℕ → ℕ → Bool → W → Result (ℕ × ℕ × W)) (s s' : State W)
      → NextKeeps up
      → next cfg app_id who target count up s ≡ ok s'
      → staked s' + pooled s ≡ staked s + pooled s'
  unfolding next after_upload
  next_balance app_id who target count up s s' keeps e =
      let (m, m', t, found, done, put) =
        mutate_metadata-ok app_id target (next_step cfg app_id who count up) s s' e in
      elim (Result-cases (
        up m.score m.remark (m.progress.total == saturating_add u32 m.progress.done count)
          s.world)) [
            | inl (r, called) ↦ omega (
              arith,
              mutate_metadata_balance app_id target 0 (next_step cfg app_id who count up) s s' m m'
                  t found (ground (arith, keeps _ _ _ _ r called)) put,
            )
            | inr (x, failed) ↦ ground arith
          ]

  -- Examining moves no funds.
  pub examine_balance :
      (app_id who target index : ℕ) (s s' : State W)
      → examine cfg app_id who target index s ≡ ok s'
      → staked s' + pooled s ≡ staked s + pooled s'
  unfolding examine after_upload
  examine_balance app_id who target index s s' e =
      let f = examine_step cfg app_id who index in
      let (m, m', t, found, done, put) = mutate_metadata-ok app_id target f s s' e in
      omega (arith, mutate_metadata_balance app_id target 0 f s s' m m' t found (ground arith) put)

  abbrev pub ReplyKeeps : (Bool → ℕ → ℕ → W → Result (ℕ × W)) → Type 0
  ReplyKeeps up =
      (a : Bool) (b c : ℕ) (w : W) (r : ℕ × W)
      → up a b c w ≡ ok r
      → token.staked r.1 ≡ token.staked w

  -- Replying moves no funds.
  pub reply_balance :
      (app_id who target total count : ℕ) (up : Bool → ℕ → ℕ → W → Result (ℕ × W)) (s s' : State W)
      → ReplyKeeps up
      → reply cfg app_id who target total count up s ≡ ok s'
      → staked s' + pooled s ≡ staked s + pooled s'
  unfolding reply
  reply_balance app_id who target total count up s s' keeps e =
      let f = reply_step cfg who total count up in
      let (m, m', t, found, done, put) = mutate_metadata-ok app_id target f s s' e in
      let started = total == saturating_add u32 0 count in
      elim (Result-cases (up started m.remark m.score s.world)) [
        | inl (r, called) ↦
            let kept = keeps started m.remark m.score s.world r called in
            omega (
              arith,
              mutate_metadata_balance app_id target 0 f s s' m m' t found (ground (arith, kept))
                  put,
            )
        | inr (x, failed) ↦ ground arith
      ]

  abbrev pub EvidenceKeeps : (ℕ → ℕ → W → Result (Bool × W)) → Type 0
  EvidenceKeeps up =
      (a b : ℕ) (w : W) (r : Bool × W) → up a b w ≡ ok r → token.staked r.1 ≡ token.staked w

  -- Evidence moves no funds.
  pub evidence_balance :
      (app_id who target : ℕ) (up : ℕ → ℕ → W → Result (Bool × W)) (o : Option ℕ) (s s' : State W)
      → EvidenceKeeps up
      → evidence cfg app_id who target up s ≡ ok (o, s')
      → staked s' + pooled s ≡ staked s + pooled s'
  unfolding evidence after_upload
  evidence_balance app_id who target up o s s' keeps e =
      elim (Option-cases (metadata_of app_id target s)) [
        | inl missing ↦ ground arith
        | inr (m, found) ↦ elim (Result-cases (up m.remark m.score s.world)) [
          | inl ((true, w), called) ↦ ground (
            arith,
            keeps m.remark m.score s.world (true, w) called,
            sum_by-insert amount app_id target (set_status m ChallengeStatus.arbitral) s.metadatas,
          )
          | inl ((false, w), called) ↦ ground (
            arith,
            keeps m.remark m.score s.world (false, w) called,
            sum_by-insert amount app_id target (restart m true) s.metadatas,
          )
          | inr (x, failed) ↦ ground arith
        ]
      ]

  abbrev pub ArbitralKeeps : (ℕ → ℕ → W → Result (Bool × Bool × ℕ × W)) → Type 0
  ArbitralKeeps up =
      (a b : ℕ) (w : W) (r : Bool × Bool × ℕ × W)
      → up a b w ≡ ok r
      → token.staked r.3 ≡ token.staked w

  take_over-IsBalanced :
      (who : ℕ) (m m' : Metadata) (s t : State W)
      → staked s + challenge_staking_amount < u128
      → take_over cfg who m s ≡ ok (m', t)
      → IsBalanced (if is_challenger m who then 0 else challenge_staking_amount) m s (m', t)
  unfolding staking
  take_over-IsBalanced who m m' s t h e =
      elim (Result-cases (token.staking who challenge_staking_amount s.world)) [
        | inl (w, done) ↦
            ground (arith, token.staked-staking who challenge_staking_amount s.world w done)
        | inr (x, failed) ↦ ground arith
      ]

  arbitral_step-IsBalanced :
      (app_id who : ℕ) (up : ℕ → ℕ → W → Result (Bool × Bool × ℕ × W)) (m m' : Metadata)
      (s t : State W)
      → ArbitralKeeps up
      → staked s + challenge_staking_amount < u128
      → arbitral_step cfg app_id who up m s ≡ ok (m', t)
      → IsBalanced (if is_challenger m who then 0 else challenge_staking_amount) m s (m', t)
  unfolding after_upload
  arbitral_step-IsBalanced app_id who up m m' s t keeps bound e =
      elim (Result-cases (take_over cfg who m s)) [
        | inr (x, failed) ↦ ground arith
        | inl ((m1, s1), taken) ↦ elim (Result-cases (up m1.score m1.remark s1.world)) [
          | inr (x, failed) ↦ ground arith
          | inl ((joint, again, score, w), called) ↦
              let s2 = record s1 { world = w } in
              elim (Result-cases (do_settle cfg m1 again joint score s2)) [
                | inr (x, failed) ↦ ground arith
                | inl ((m3, s3), done) ↦ ground (
                  arith,
                  take_over-IsBalanced who m m1 s s1 bound taken,
                  keeps m1.score m1.remark s1.world (joint, again, score, w) called,
                  do_settle-IsBalanced m1 m3 again joint score s2 s3 done,
                )
              ]
        ]
      ]

  -- Arbitration by the challenger moves no funds but what it releases from the pool. An account
  -- that takes over stakes the challenge amount, and no pool grows by that amount.
  pub arbitral_balance :
      (app_id who target : ℕ) (up : ℕ → ℕ → W → Result (Bool × Bool × ℕ × W)) (m : Metadata)
      (s s' : State W)
      → ArbitralKeeps up
      → staked s + challenge_staking_amount < u128
      → metadata_of app_id target s ≡ some m
      → arbitral cfg app_id who target up s ≡ ok s'
      → staked s' + pooled s
        ≡ staked s + pooled s' + (if is_challenger m who then 0 else challenge_staking_amount)
  unfolding arbitral after_upload
  arbitral_balance app_id who target up m s s' keeps bound at e =
      let f = arbitral_step cfg app_id who up in
      let (n, n', t, found, done, put) = mutate_metadata-ok app_id target f s s' e in
      let same : n ≡ m = cc in
      let extra : ℕ = if is_challenger n who then 0 else challenge_staking_amount in
      subst
        (λ k.
          staked s' + pooled s
          ≡ staked s + pooled s' + (if is_challenger k who then 0 else challenge_staking_amount))
        same
        (mutate_metadata_balance app_id target extra f s s' n n' t found
          (arbitral_step-IsBalanced app_id who up n n' s t keeps bound done) put)

  -- Settling moves no funds but what it releases from the pool.
  pub settle_balance :
      (app_id target score : ℕ) (joint restart : Bool) (s s' : State W)
      → settle cfg app_id target joint restart score s ≡ ok s'
      → staked s' + pooled s ≡ staked s + pooled s'
  unfolding settle
  settle_balance app_id target score joint restart s s' e =
      let f = settle_step cfg joint restart score in
      let (m, m', t, found, done, put) = mutate_metadata-ok app_id target f s s' e in
      let settled = do_settle-IsBalanced m m' restart joint score s t (ground arith) in
      omega (arith, mutate_metadata_balance app_id target 0 f s s' m m' t found settled put)
