-- ===== src/Challenges/Played/Frame.antt =====
-- runtime/src/lib.rs, `type ChallengeBase = ZdChallenges`: what the games leave alone of the storage
-- that they are a part of.
use zero_dao_node.Base.{ℕ, ◌≡◌, inl, inr, subst, Bool, Option, Option-cases, arith}
use zero_dao_node.Base.Lens.{Lens}
use zero_dao_node.Dispatch.{Result, ok, ◌>>=◌, Result-cases}
use zero_dao_node.Primitives.Metadata
use zero_dao_node.Primitives.Metadata.{Metadata, ChallengeStatus}
use zero_dao_node.Support.Framed.{
  Framed, StatusKeeps, LaunchKeeps, ReplyKeeps, NextKeeps, EvidenceKeeps, ArbitralKeeps,
}
use zero_dao_node.Challenges.{
  State, Config, metadata_of, remove, shares_of, set_status_of, mutate_metadata, after_upload,
  staking,
}
use zero_dao_node.Challenges.Methods.{
  launch, harvest, examine, examine_step, reply, reply_step, evidence, next, next_step, arbitral,
  arbitral_step,
}
use zero_dao_node.Challenges.Payout.{harvest-ok}
use zero_dao_node.Challenges.Played.{focus, unfocus, zd_challenges}
use zero_dao_node.Challenges.Played.Steps.{
  Keeps, staking-Kept, pay_out-Kept, mutate_metadata-Kept, arbitral_step-Kept,
}

module _ {S W : Type 0} (games : Lens S (State W)) (now : S → ℕ) (cfg : Config S)
    (Kept : S → S → Type 0) (keeps : Keeps games cfg Kept) where
  open keeps use {order, games_keep}
  open order use {keep, keep_on}

  -- What is kept up to the games is kept when they are written back.
  back : (s : S) (c : State S) → Kept s c.world → Kept s (unfocus games now c)
  back s c kept = keep_on s c.world (unfocus games now c) kept (games_keep _ c.world)

  pub zd_challenges-StatusKeeps : StatusKeeps Kept (zd_challenges games now cfg)
  unfolding set_status_of
  zd_challenges-StatusKeeps app target status s =
      back s (set_status_of app target status (focus games now s)) (keep s)

  pub zd_challenges-LaunchKeeps : LaunchKeeps Kept (zd_challenges games now cfg)
  unfolding launch after_upload
  zd_challenges-LaunchKeeps app target m s s' e =
      elim (Result-cases (launch cfg app target m (focus games now s))) [
        | inr (x, failed) ↦ absurd (ground arith)
        | inl (c, done) ↦
            elim (Result-cases
              (staking cfg m.challenger (cfg.challenge_staking_amount) (focus games now s))) [
                | inr (x, failed) ↦ absurd (ground arith)
                | inl (t, staked) ↦
                    let kept =
                      staking-Kept cfg keeps m.challenger (cfg.challenge_staking_amount)
                        (focus games now s) t staked in
                    let same : t.world ≡ c.world = ground arith in
                    let at : unfocus games now c ≡ s' = ground arith in
                    subst (λ (v : S). Kept s v) at
                      (back s c (subst (λ (v : S). Kept s v) same kept))
              ]
      ]

  -- A method that changes one game.
  played :
      (app target : ℕ) (f : Metadata → State S → Result (Metadata × State S)) (s s' : S)
      → ((m m' : Metadata) (t : State S) → f m (focus games now s) ≡ ok (m', t) → Kept s t.world)
      → (mutate_metadata app target f (focus games now s) >>= λ c. ok (unfocus games now c)) ≡ ok s'
      → Kept s s'
  played app target f s s' step e =
      elim (Result-cases (mutate_metadata app target f (focus games now s))) [
        | inr (x, failed) ↦ absurd (ground arith)
        | inl (c, done) ↦
            let at : unfocus games now c ≡ s' = ground arith in
            subst (λ (v : S). Kept s v) at
              (back s c
                (mutate_metadata-Kept cfg keeps app target f (focus games now s) c step done))
      ]

  examine_keeps :
      (app who target index : ℕ) (s s' : S)
      → (zd_challenges games now cfg).examine app who target index s ≡ ok s'
      → Kept s s'
  unfolding examine after_upload
  examine_keeps app who target index s s' e =
      played app target (examine_step cfg app who index) s s' (λ m m' t h. ground (arith, keep s)) e

  reply_keeps :
      (app who target total count : ℕ) (up : Bool → ℕ → ℕ → S → Result (ℕ × S)) (s s' : S)
      → ReplyKeeps Kept up
      → (zd_challenges games now cfg).reply app who target total count up s ≡ ok s'
      → Kept s s'
  unfolding reply
  reply_keeps app who target total count up s s' kept e =
      played app target (reply_step cfg who total count up) s s'
        (λ m m' t h.
          let m1 = Metadata.next (Metadata.new_progress m total) count in
          elim (Result-cases (up (Metadata.is_all_done m1) m1.remark m1.score s)) [
            | inr (x, failed) ↦ absurd (ground arith)
            | inl ((n, s1), did) ↦
                ground (arith, kept (Metadata.is_all_done m1) m1.remark m1.score n s s1 did)
          ])
        e

  next_keeps :
      (app who target count : ℕ) (up : ℕ → ℕ → Bool → S → Result (ℕ × ℕ × S)) (s s' : S)
      → NextKeeps Kept up
      → (zd_challenges games now cfg).next app who target count up s ≡ ok s'
      → Kept s s'
  unfolding next after_upload
  next_keeps app who target count up s s' kept e =
      played app target (next_step cfg app who count up) s s'
        (λ m m' t h.
          let m1 = Metadata.next m count in
          elim (Result-cases (up m1.score m1.remark (Metadata.is_all_done m1) s)) [
            | inr (x, failed) ↦ absurd (ground arith)
            | inl ((n, k, s1), did) ↦
                ground (arith, kept m1.score m1.remark n k (Metadata.is_all_done m1) s s1 did)
          ])
        e

  arbitral_keeps :
      (app who target : ℕ) (up : ℕ → ℕ → S → Result (Bool × Bool × ℕ × S)) (s s' : S)
      → ArbitralKeeps Kept up
      → (zd_challenges games now cfg).arbitral app who target up s ≡ ok s'
      → Kept s s'
  unfolding arbitral
  arbitral_keeps app who target up s s' kept e =
      played app target (arbitral_step cfg app who up) s s'
        (λ m m' t h. arbitral_step-Kept cfg keeps app who up m m' (focus games now s) t kept h) e

  evidence_keeps :
      (app who target : ℕ) (up : ℕ → ℕ → S → Result (Bool × S)) (o : Option ℕ) (s s' : S)
      → EvidenceKeeps Kept up
      → (zd_challenges games now cfg).evidence app who target up s ≡ ok (o, s')
      → Kept s s'
  unfolding evidence after_upload
  evidence_keeps app who target up o s s' kept e =
      elim (Result-cases (evidence cfg app who target up (focus games now s))) [
        | inr (x, failed) ↦ absurd (ground arith)
        | inl ((p, c), done) ↦ elim (Option-cases (metadata_of app target (focus games now s))) [
          | inl missing ↦ absurd (ground arith)
          | inr (m, found) ↦ elim (Result-cases (up m.remark m.score s)) [
            | inr (x, failed) ↦ absurd (ground arith)
            | inl ((b, s1), did) ↦
                let same : s1 ≡ c.world = ground arith in
                let at : unfocus games now c ≡ s' = ground arith in
                let called = kept m.remark m.score b s s1 did in
                subst (λ (v : S). Kept s v) at (back s c (subst (λ (v : S). Kept s v) same called))
          ]
        ]
      ]

  harvest_keeps :
      (who app target : ℕ) (o : Option ℕ) (s s' : S)
      → (zd_challenges games now cfg).harvest who app target s ≡ ok (o, s')
      → Kept s s'
  unfolding harvest remove
  harvest_keeps who app target o s s' e =
      elim (Result-cases (harvest cfg who app target (focus games now s))) [
        | inr (x, failed) ↦ absurd (ground arith)
        | inl ((p, c), done) ↦
            let (m, fee, awards, t, paid, same, _, _, _) =
              harvest-ok cfg who app target p (focus games now s) c done in
            let at : unfocus games now c ≡ s' = ground arith in
            let shares = shares_of m m.status awards in
            let kept =
              pay_out-Kept cfg keeps who fee shares.0 shares.1 m (focus games now s) t paid in
            subst (λ (v : S). Kept s v) at (back s c (subst (λ (v : S). Kept s v) same kept))
      ]

  -- The pallet of challenges leaves alone what releasing and staking and the games leave alone, as far as
  -- the callbacks do.
  pub zd_challenges-Framed : Framed Kept Kept (zd_challenges games now cfg)
  zd_challenges-Framed = record {
    harvest_keeps = harvest_keeps;
    examine_keeps = examine_keeps;
    reply_keeps = reply_keeps;
    next_keeps = next_keeps;
    evidence_keeps = evidence_keeps;
    arbitral_keeps = arbitral_keeps;
  }
