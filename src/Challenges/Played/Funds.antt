-- ===== src/Challenges/Played/Funds.antt =====
-- runtime/src/lib.rs, `type ChallengeBase = ZdChallenges`: the funds behind the games that are played
-- on a part of a storage.
use zero_dao_node.Base.{ℕ, ◌+◌, ◌≤◌, ◌<◌, ◌≡◌, inl, inr, Bool, Option, Option-cases, arith, u128}
use zero_dao_node.Base.DoubleMap.{sum_by, sum_by-insert}
use zero_dao_node.Base.Lens.{Lens}
use zero_dao_node.Dispatch.{Result, ok, Result-cases}
use zero_dao_node.Primitives.Metadata.{Metadata, ChallengeStatus, set_status}
use zero_dao_node.Support.Framed.{ReplyKeeps, NextKeeps, EvidenceKeeps, ArbitralKeeps}
use zero_dao_node.Support.Backed.{Covers, SameStaked, Backed}
use zero_dao_node.Challenges.{State, Config, metadata_of, set_status_of, or_default}
use zero_dao_node.Challenges.Methods.{
  arbitral_step, launch, harvest, examine, reply, evidence, next, arbitral,
}
use zero_dao_node.Challenges.Accounting.{
  amount, pooled, staked, mutate_metadata-ok, next_balance, examine_balance, reply_balance,
  evidence_balance, arbitral_balance,
}
use zero_dao_node.Challenges.Launch.{launch_lem}
use zero_dao_node.Challenges.Payout.{harvest_covers}
use zero_dao_node.Challenges.Played.{focus, unfocus, zd_challenges}

-- The pools of the games.
abbrev pub pools : {S W : Type 0} → Lens S (State W) → S → ℕ
pools games s = sum_by amount (games.get s).metadatas

module _ {S W : Type 0} (games : Lens S (State W)) (now : S → ℕ) (cfg : Config S)
    (games_staked : (g : State W) (s : S)
      → cfg.token.staked (games.set g s) ≡ cfg.token.staked s) where
  open cfg use {token, challenge_staking_amount}

  -- What a method does to the funds stays when the games are written back.
  back :
      (extra : ℕ) (s : S) (c : State S)
      → staked cfg (focus games now s) + pooled c
        ≤ staked cfg c + pooled (focus games now s) + extra
      → Covers (token.staked) (pools games) extra s (unfocus games now c)
  back extra s c covered = ground (
    arith,
    games_staked
        (record (games.get c.world) {
          metadatas = c.metadatas;
          last_at = c.last_at;
          events = c.events;
        })
        c.world,
    games.get-set
        (record (games.get c.world) {
          metadatas = c.metadatas;
          last_at = c.last_at;
          events = c.events;
        })
        c.world,
  )

  examine_covers :
      (app who target index : ℕ) (s s' : S)
      → (zd_challenges games now cfg).examine app who target index s ≡ ok s'
      → Covers (token.staked) (pools games) 0 s s'
  examine_covers app who target index s s' e =
      elim (Result-cases (examine cfg app who target index (focus games now s))) [
        | inr (x, failed) ↦ absurd (ground arith)
        | inl (c, done) ↦
            ground (
              arith,
              back 0 s c,
              examine_balance cfg app who target index (focus games now s) c done,
            )
      ]

  set_status_covers :
      (app target : ℕ) (status : ChallengeStatus) (s : S)
      → Covers
          (token.staked)
          (pools games)
          0
          s
          ((zd_challenges games now cfg).set_status app target status s)
  unfolding set_status_of
  set_status_covers app target status s =
      let m = set_status (or_default (metadata_of app target (focus games now s))) status in
      elim (Option-cases (metadata_of app target (focus games now s))) [
        | inl missing ↦ ground (
          arith,
          back 0 s (set_status_of app target status (focus games now s)),
          sum_by-insert amount app target m (games.get s).metadatas,
        )
        | inr (old, found) ↦ ground (
          arith,
          back 0 s (set_status_of app target status (focus games now s)),
          sum_by-insert amount app target m (games.get s).metadatas,
        )
      ]

  launch_covers :
      (app target : ℕ) (m : Metadata) (s s' : S)
      → token.staked s + challenge_staking_amount < u128
      → (zd_challenges games now cfg).launch app target m s ≡ ok s'
      → Covers (token.staked) (pools games) (amount m) s s'
  launch_covers app target m s s' room e =
      elim (Result-cases (launch cfg app target m (focus games now s))) [
        | inr (x, failed) ↦ absurd (ground arith)
        | inl (c, done) ↦
            let (_, _, sum) = launch_lem cfg app target 0 0 m (focus games now s) c room done in
            ground (arith, back (amount m) s c, sum)
      ]

  harvest_covered :
      (who app target : ℕ) (o : Option ℕ) (s s' : S)
      → (zd_challenges games now cfg).harvest who app target s ≡ ok (o, s')
      → Covers (token.staked) (pools games) 0 s s'
  harvest_covered who app target o s s' e =
      elim (Result-cases (harvest cfg who app target (focus games now s))) [
        | inr (x, failed) ↦ absurd (ground arith)
        | inl ((p, c), done) ↦
            ground
              (arith, back 0 s c, harvest_covers cfg who app target p (focus games now s) c done)
      ]

  reply_covers :
      (app who target total count : ℕ) (up : Bool → ℕ → ℕ → S → Result (ℕ × S)) (s s' : S)
      → ReplyKeeps (SameStaked (token.staked)) up
      → (zd_challenges games now cfg).reply app who target total count up s ≡ ok s'
      → Covers (token.staked) (pools games) 0 s s'
  reply_covers app who target total count up s s' kept e =
      elim (Result-cases (reply cfg app who target total count up (focus games now s))) [
        | inr (x, failed) ↦ absurd (ground arith)
        | inl (c, done) ↦
            let sum =
              reply_balance cfg app who target total count up (focus games now s) c
                (λ a i o t r did. kept a i o r.0 t r.1 did) done in
            ground (arith, back 0 s c, sum)
      ]

  next_covers :
      (app who target count : ℕ) (up : ℕ → ℕ → Bool → S → Result (ℕ × ℕ × S)) (s s' : S)
      → NextKeeps (SameStaked (token.staked)) up
      → (zd_challenges games now cfg).next app who target count up s ≡ ok s'
      → Covers (token.staked) (pools games) 0 s s'
  next_covers app who target count up s s' kept e =
      elim (Result-cases (next cfg app who target count up (focus games now s))) [
        | inr (x, failed) ↦ absurd (ground arith)
        | inl (c, done) ↦
            let sum =
              next_balance cfg app who target count up (focus games now s) c
                (λ a i all t r did. kept a i r.0 r.1 all t r.2 did) done in
            ground (arith, back 0 s c, sum)
      ]

  evidence_covers :
      (app who target : ℕ) (up : ℕ → ℕ → S → Result (Bool × S)) (o : Option ℕ) (s s' : S)
      → EvidenceKeeps (SameStaked (token.staked)) up
      → (zd_challenges games now cfg).evidence app who target up s ≡ ok (o, s')
      → Covers (token.staked) (pools games) 0 s s'
  evidence_covers app who target up o s s' kept e =
      elim (Result-cases (evidence cfg app who target up (focus games now s))) [
        | inr (x, failed) ↦ absurd (ground arith)
        | inl ((p, c), done) ↦
            let sum =
              evidence_balance cfg app who target up p (focus games now s) c
                (λ a i t r did. kept a i r.0 t r.1 did) done in
            ground (arith, back 0 s c, sum)
      ]

  arbitral_covers :
      (app who target : ℕ) (up : ℕ → ℕ → S → Result (Bool × Bool × ℕ × S)) (s s' : S)
      → token.staked s + challenge_staking_amount < u128
      → ArbitralKeeps (SameStaked (token.staked)) up
      → (zd_challenges games now cfg).arbitral app who target up s ≡ ok s'
      → Covers (token.staked) (pools games) 0 s s'
  unfolding arbitral
  arbitral_covers app who target up s s' room kept e =
      elim (Result-cases (arbitral cfg app who target up (focus games now s))) [
        | inr (x, failed) ↦ absurd (ground arith)
        | inl (c, done) ↦
            let f = arbitral_step cfg app who up in
            let (m, _, _, found, _, _) =
              mutate_metadata-ok app target f (focus games now s) c (ground arith) in
            let sum =
              arbitral_balance cfg app who target up m (focus games now s) c
                (λ a i t r did. kept a i r.2 r.0 r.1 t r.3 did) room found done in
            ground (arith, back 0 s c, sum)
      ]

  -- Whatever is played, the pools of the games grow by no more than the staked total and what a launch is
  -- given: each unit of a pool stays backed.
  pub zd_challenges-Backed :
      Backed (token.staked) (pools games) challenge_staking_amount (zd_challenges games now cfg)
  zd_challenges-Backed = record {
    framed = record {
      harvest_keeps = λ who app target o s s' e room. harvest_covered who app target o s s' e;
      examine_keeps =
          λ app who target index s s' e room. examine_covers app who target index s s' e;
      reply_keeps = λ app who target total count up s s' kept e room.
          reply_covers app who target total count up s s' kept e;
      next_keeps = λ app who target count up s s' kept e room.
          next_covers app who target count up s s' kept e;
      evidence_keeps =
          λ app who target up o s s' kept e room. evidence_covers app who target up o s s' kept e;
      arbitral_keeps =
          λ app who target up s s' kept e room. arbitral_covers app who target up s s' room kept e;
    };
    launch_covers = launch_covers;
    set_status_covers = set_status_covers;
  }
