-- ===== src/RefreshSeeds/Backing.antt =====
-- pallets/refresh-seeds/src/lib.rs: the staked funds beside the pools of the games, the stakes of the
-- candidates and the bonus, call by call.
use zero_dao_node.Base.{
  ℕ, ◌+◌, ◌<◌, ◌≡◌, inl, inr, refl, true, false, some, if◌then◌else◌, Option-cases, arith, u128,
}
use zero_dao_node.Base.StorageMap.{lookup, sum_by-remove_le}
use zero_dao_node.Dispatch.{ok, Result-cases}
use zero_dao_node.RefreshSeeds.{
  Candidate, State, Config, get_candidate, candidate_insert, score_list_insert, remove_challenge,
  do_harvest_challenge,
}
use zero_dao_node.RefreshSeeds.Calls
use zero_dao_node.RefreshSeeds.Calls.{disputed}
use zero_dao_node.RefreshSeeds.Orders.{app_id}
use zero_dao_node.RefreshSeeds.Harvest.{staking_amount, harvest_seed}
use zero_dao_node.RefreshSeeds.Frame.{IsKept}
use zero_dao_node.RefreshSeeds.Seating.{Paid, harvest_seed-Paid}
use zero_dao_node.RefreshSeeds.Accounts.{sum_by-insert_new, sum_by-insert_old, get_or-lookup}
use zero_dao_node.RefreshSeeds.Funds.{
  Funding, Funded, staked, pooled, Called, Kept, framed, called, Answered-Funded, Judged-Funded,
}
use zero_dao_node.RefreshSeeds.Disputes.{Call, IsAbout, run}
use zero_dao_node.RefreshSeeds.Answers.{
  examine-Answered, reply_hash-Answered, reply_hash_next-Answered, reply_path-Answered,
  reply_path_next-Answered, reply_num-Answered,
}
use zero_dao_node.RefreshSeeds.Restarts.{
  evidence_of_shorter-Judged, number_too_low-Judged, invalid_evidence-Judged,
  evidence_of_missed-Judged,
}
use zero_dao_node.RefreshSeeds.Selection.{world_of}
use zero_dao_node.Primitives.{TirStep}

module _ {T W : Type 0} (cfg : Config T W) (pool others : W → ℕ) (stake : ℕ)
    (funding : Funding cfg pool others stake) where
  open cfg use {
    token, reputation, seeds_base, challenge_base, seed_staking_amount, seed_challenge_amount,
    seed_reserv_staking,
  }

  -- A candidate's stake is staked when it is proposed.
  add-Funded :
      (who target score : ℕ) (s s' : State T W)
      → staked cfg pool others s + seed_staking_amount < u128
      → Calls.add cfg (ok who) target score s ≡ ok s'
      → Funded cfg pool others s s'
  unfolding Calls.add candidate_insert score_list_insert
  add-Funded who target score s s' room e =
      elim (Result-cases (token.staking who seed_staking_amount s.ledger)) [
        | inr (x, failed) ↦ absurd (ground arith)
        | inl (ledger, paid) ↦ elim (Option-cases (lookup target s.candidates)) [
          | inr (c, there) ↦ absurd (ground arith)
          | inl absent ↦
              let c : Candidate = record {
                score = score;
                pathfinder = who;
                has_challenge = false;
                add_at = s.now;
              } in
              ground (
                arith,
                sum_by-insert_new (staking_amount cfg) target c s.candidates absent,
                token.staked-staking who seed_staking_amount s.ledger ledger paid,
                token.bonus-staking who seed_staking_amount s.ledger ledger paid,
                funding.pool_stays.at-set_last_refresh_at s.world,
                funding.others_stay.at-set_last_refresh_at s.world,
              )
        ]
      ]

  -- The first challenge moves a part of the candidate's stake into the pool of the game.
  challenge-Funded :
      (who target score : ℕ) (s s' : State T W)
      → staked cfg pool others s + stake < u128
      → Calls.challenge cfg (ok who) target score s ≡ ok s'
      → Funded cfg pool others s s'
  unfolding Calls.challenge IsKept
  challenge-Funded who target score s s' room e = elim (Option-cases (lookup target s.candidates)) [
    | inl absent ↦ absurd (ground arith)
    | inr (c, there) ↦
        let given = if c.has_challenge then 0 else seed_challenge_amount in
        let game = disputed who c.pathfinder given score in
        elim (Result-cases (challenge_base.launch app_id target game s)) [
          | inr (x, failed) ↦ absurd (ground arith)
          | inl (launched, done) ↦
              let (kept, same_bonus, same_others) =
                funding.steady_launch app_id target game s launched done in
              let covered = funding.backed.launch_covers app_id target game s launched room done in
              let there' : lookup target launched.candidates ≡ some c =
                ground (arith, kept, there) in
              let old = get_candidate target launched in
              let same : old ≡ c = get_or-lookup target c launched.candidates there' in
              let marked : Candidate = record old { has_challenge = true } in
              ground (
                arith,
                kept,
                same_bonus,
                same_others,
                covered,
                same,
                funding.split,
                funding.pool_stays.at-set_last_refresh_at launched.world,
                funding.others_stay.at-set_last_refresh_at launched.world,
                sum_by-insert_old (staking_amount cfg) target marked c launched.candidates there',
              )
        ]
  ]

  start-Funded :
      (who : ℕ) (s s' : State T W)
      → Calls.start cfg (ok who) s ≡ ok s'
      → Funded cfg pool others s s'
  unfolding Calls.start
  start-Funded who s s' e = elim (Result-cases (reputation.new_round s.world)) [
    | inr (x, failed) ↦ absurd (ground arith)
    | inl (world, done) ↦ ground (
      arith,
      funding.pool_stays.at-new_round s.world world done,
      funding.others_stay.at-new_round s.world world done,
    )
  ]

  -- Sharing the pool of a game pays it out; the score that it ends with is not a claim.
  pub harvest_challenge-Funded :
      (who target : ℕ) (c : Candidate) (s s' : State T W)
      → staked cfg pool others s + stake < u128
      → lookup target s.candidates ≡ some c
      → Calls.harvest_challenge cfg (ok who) target s ≡ ok s'
      → Funded cfg pool others s s'
  unfolding Calls.harvest_challenge do_harvest_challenge remove_challenge IsKept
  harvest_challenge-Funded who target c s s' room there e =
      elim (Result-cases (challenge_base.harvest who app_id target s)) [
        | inr (x, failed) ↦ absurd (ground arith)
        | inl ((maybe_score, t), done) ↦
            let (kept, same_bonus, same_others) =
              funding.steady.harvest_keeps who app_id target maybe_score s t done in
            let covered =
              funding.backed.framed.harvest_keeps who app_id target maybe_score s t done room in
            let old = get_candidate target s in
            let same : old ≡ c = get_or-lookup target c s.candidates there in
            let there' : lookup target t.candidates ≡ some c = ground (arith, kept, there) in
            elim (Option-cases maybe_score) [
              | inl nothing ↦ ground (
                arith,
                kept,
                same_bonus,
                same_others,
                covered,
                same,
                sum_by-insert_old (staking_amount cfg) target old c t.candidates there',
              )
              | inr (score, some_score) ↦ ground (
                arith,
                kept,
                same_bonus,
                same_others,
                covered,
                same,
                sum_by-insert_old (staking_amount cfg) target (record old { score = score }) c
                    t.candidates there',
              )
            ]
      ]

  -- The world after a harvest has the games that it had before.
  pool_after :
      (target : ℕ) (s s' : State T W) (c : Candidate)
      → Paid cfg target s s' c
      → (pooled cfg pool others s' ≡ pooled cfg pool others s) × (others s'.world ≡ others s.world)
  pool_after target s s' c h = ground (
    arith,
    h.placed,
    funding.pool_stays.at-set_step TirStep.reputation s'.world,
    funding.others_stay.at-set_step TirStep.reputation s'.world,
    funding.pool_stays.at-set_step TirStep.reputation (world_of cfg s),
    funding.others_stay.at-set_step TirStep.reputation (world_of cfg s),
    funding.pool_stays.at-set_step TirStep.reputation (seeds_base.add_seed target (world_of cfg s)),
    funding.others_stay.at-set_step TirStep.reputation
        (seeds_base.add_seed target (world_of cfg s)),
    funding.pool_stays.at-add_seed target (world_of cfg s),
    funding.others_stay.at-add_seed target (world_of cfg s),
    funding.pool_stays.at-remove_all s.world,
    funding.others_stay.at-remove_all s.world,
  )

  pub harvest_seed-Funded :
      (who target : ℕ) (s s' : State T W)
      → harvest_seed cfg (ok who) target s ≡ ok s'
      → Funded cfg pool others s s'
  harvest_seed-Funded who target s s' e =
      let (c, h) = harvest_seed-Paid cfg who target s s' e in
      ground (
        arith,
        h.paid,
        h.shared,
        h.removed,
        pool_after target s s' c h,
        sum_by-remove_le (staking_amount cfg) target c s.candidates h.was_candidate,
      )

  pub run-Funded :
      (call : Call) (who : ℕ) (s s' : State T W)
      → staked cfg pool others s + stake + seed_staking_amount < u128
      → IsAbout call s
      → run cfg call (ok who) s ≡ ok s'
      → Funded cfg pool others s s'
  unfolding run IsAbout Calls.missed_in_hashs Calls.missed_in_paths
  run-Funded Call.start who s s' room about e = start-Funded who s s' e
  run-Funded (Call.add target score) who s s' room about e =
      add-Funded who target score s s' (omega (arith, room)) e
  run-Funded (Call.challenge target score) who s s' room about e =
      challenge-Funded who target score s s' (omega (arith, room)) e
  run-Funded (Call.examine target index) who s s' room about e =
      Answered-Funded cfg pool others stake funding s s' (omega (arith, room)) (
        examine-Answered cfg (Called cfg pool others stake funding)
          (Kept cfg pool others stake funding) (framed cfg pool others stake funding)
          (called cfg pool others stake funding) who target index s s' e)
  run-Funded (Call.reply_hash target hashs quantity) who s s' room about e =
      Answered-Funded cfg pool others stake funding s s' (omega (arith, room)) (
        reply_hash-Answered cfg (Called cfg pool others stake funding)
          (Kept cfg pool others stake funding) (framed cfg pool others stake funding)
          (called cfg pool others stake funding) who target quantity hashs s s' e)
  run-Funded (Call.reply_hash_next target hashs) who s s' room about e =
      Answered-Funded cfg pool others stake funding s s' (omega (arith, room)) (
        reply_hash_next-Answered cfg (Called cfg pool others stake funding)
          (Kept cfg pool others stake funding) (framed cfg pool others stake funding)
          (called cfg pool others stake funding) who target hashs s s' e)
  run-Funded (Call.reply_path target paths quantity) who s s' room about e =
      Answered-Funded cfg pool others stake funding s s' (omega (arith, room)) (
        reply_path-Answered cfg (Called cfg pool others stake funding)
          (Kept cfg pool others stake funding) (framed cfg pool others stake funding)
          (called cfg pool others stake funding) who target quantity paths s s' e)
  run-Funded (Call.reply_path_next target paths) who s s' room about e =
      Answered-Funded cfg pool others stake funding s s' (omega (arith, room)) (
        reply_path_next-Answered cfg (Called cfg pool others stake funding)
          (Kept cfg pool others stake funding) (framed cfg pool others stake funding)
          (called cfg pool others stake funding) who target paths s s' e)
  run-Funded (Call.reply_num target mid_paths) who s s' room about e =
      Answered-Funded cfg pool others stake funding s s' (omega (arith, room)) (
        reply_num-Answered cfg (Called cfg pool others stake funding)
          (Kept cfg pool others stake funding) (framed cfg pool others stake funding)
          (called cfg pool others stake funding) who target mid_paths s s' e)
  run-Funded (Call.missed_in_hashs target nodes index) who s s' room about e =
      let (c, there) = about target refl in
      Judged-Funded cfg pool others stake funding target c s s' (omega (arith, room)) there (
        evidence_of_missed-Judged cfg (Called cfg pool others stake funding)
          (Kept cfg pool others stake funding) (framed cfg pool others stake funding)
          (called cfg pool others stake funding) who target index nodes s s' (ground arith))
  run-Funded (Call.missed_in_paths target nodes) who s s' room about e =
      let (c, there) = about target refl in
      Judged-Funded cfg pool others stake funding target c s s' (omega (arith, room)) there (
        evidence_of_missed-Judged cfg (Called cfg pool others stake funding)
          (Kept cfg pool others stake funding) (framed cfg pool others stake funding)
          (called cfg pool others stake funding) who target 0 nodes s s' (ground arith))
  run-Funded (Call.evidence_of_shorter target index mid_path) who s s' room about e =
      let (c, there) = about target refl in
      Judged-Funded cfg pool others stake funding target c s s' (omega (arith, room)) there (
        evidence_of_shorter-Judged cfg (Called cfg pool others stake funding)
          (Kept cfg pool others stake funding) (framed cfg pool others stake funding)
          (called cfg pool others stake funding) who target index mid_path s s' e)
  run-Funded (Call.number_too_low target index mid_paths) who s s' room about e =
      let (c, there) = about target refl in
      Judged-Funded cfg pool others stake funding target c s s' (omega (arith, room)) there (
        number_too_low-Judged cfg (Called cfg pool others stake funding)
          (Kept cfg pool others stake funding) (framed cfg pool others stake funding)
          (called cfg pool others stake funding) who target index mid_paths s s' e)
  run-Funded (Call.invalid_evidence target mid_path score) who s s' room about e =
      let (c, there) = about target refl in
      Judged-Funded cfg pool others stake funding target c s s' (omega (arith, room)) there (
        invalid_evidence-Judged cfg (Called cfg pool others stake funding)
          (Kept cfg pool others stake funding) (framed cfg pool others stake funding)
          (called cfg pool others stake funding) who target score mid_path s s' e)
