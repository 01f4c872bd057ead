-- ===== src/RefreshSeeds/Rounds.antt =====
-- pallets/refresh-seeds/src/lib.rs: all the calls of the pallet, in any order.
use zero_dao_node.Base.{
  if◌then◌else◌, ℕ, ◌+◌, ◌<◌, ◌≡◌, inl, inr, subst, some, Option-cases, arith, u128,
}
use zero_dao_node.Base.StorageMap.{lookup}
use zero_dao_node.Dispatch.{ok, Result-cases}
use zero_dao_node.RefreshSeeds.{
  Candidate, State, Config, get_candidate, candidate_insert, score_list_insert, mutate_score,
  restart, remove_challenge, do_harvest_challenge,
}
use zero_dao_node.RefreshSeeds.Calls
use zero_dao_node.RefreshSeeds.Calls.{disputed}
use zero_dao_node.RefreshSeeds.Orders.{app_id}
use zero_dao_node.RefreshSeeds.Harvest.{harvest_seed}
use zero_dao_node.RefreshSeeds.Frame.{IsKept, IsSame, IsQuiet}
use zero_dao_node.RefreshSeeds.ScoreList.{IsSorted, score_inserted, score_removed}
use zero_dao_node.RefreshSeeds.ScoreLaws.{score_inserted_lem, score_removed_lem}
use zero_dao_node.RefreshSeeds.Seating.{harvest_seed-Harvested}
use zero_dao_node.RefreshSeeds.Funds.{Funding, Funded, staked, Called, Kept, framed, called}
use zero_dao_node.RefreshSeeds.Backing.{run-Funded, harvest_challenge-Funded, harvest_seed-Funded}
use zero_dao_node.RefreshSeeds.Disputes.{Call, IsAbout, run}
use zero_dao_node.RefreshSeeds.Answers.{
  Answered, examine-Answered, reply_hash-Answered, reply_hash_next-Answered, reply_path-Answered,
  reply_path_next-Answered, reply_num-Answered,
}
use zero_dao_node.RefreshSeeds.Restarts.{
  Judged, evidence_of_shorter-Judged, number_too_low-Judged, invalid_evidence-Judged,
  evidence_of_missed-Judged,
}

module _ {T W : Type 0} (cfg : Config T W) (pool others : W → ℕ) (stake : ℕ) where
  -- What is staked next fits beside the staked total.
  abbrev pub HasRoom : State T W → Type 0
  HasRoom s = staked cfg pool others s + stake + cfg.seed_staking_amount < u128

  -- The storages that successful calls of accounts lead to, where the next stakes have room: proposals
  -- and disputes, whose evidence is about candidates that are there, shares of the pools of games whose
  -- targets are candidates, and harvests of seeds.
  pub data Round (start : State T W) : State T W → Type 0 where
    stay : Round start start
    call :
        {mid out : State T W}
        → Round start mid
        → (c : Call) (who : ℕ) → HasRoom mid
        → IsAbout c mid
        → run cfg c (ok who) mid ≡ ok out
        → Round start out
    share :
        {mid out : State T W}
        → Round start mid
        → (who target : ℕ) (c : Candidate) → HasRoom mid
        → lookup target mid.candidates ≡ some c
        → Calls.harvest_challenge cfg (ok who) target mid ≡ ok out
        → Round start out
    seat :
        {mid out : State T W}
        → Round start mid
        → (who target : ℕ) → harvest_seed cfg (ok who) target mid ≡ ok out
        → Round start out

module _ {T W : Type 0} (cfg : Config T W) where
  -- The storages that any successful calls of accounts lead to.
  pub data Course (start : State T W) : State T W → Type 0 where
    stay : Course start start
    call :
        {mid out : State T W}
        → Course start mid
        → (c : Call) (who : ℕ) → run cfg c (ok who) mid ≡ ok out
        → Course start out
    share :
        {mid out : State T W}
        → Course start mid
        → (who target : ℕ) → Calls.harvest_challenge cfg (ok who) target mid ≡ ok out
        → Course start out
    seat :
        {mid out : State T W}
        → Course start mid
        → (who target : ℕ) → harvest_seed cfg (ok who) target mid ≡ ok out
        → Course start out

module _ {T W : Type 0} (cfg : Config T W) (pool others : W → ℕ) (stake : ℕ)
    (funding : Funding cfg pool others stake) where
  open cfg use {token, reputation, challenge_base, seed_staking_amount, seed_challenge_amount}

  Answered-IsSorted :
      (s s' : State T W)
      → IsSorted s.score_list
      → Answered cfg
          (Called cfg pool others stake funding)
          (Kept cfg pool others stake funding)
          (framed cfg pool others stake funding)
          (called cfg pool others stake funding)
          s
          s'
      → IsSorted s'.score_list
  unfolding IsKept IsQuiet IsSame
  Answered-IsSorted s s' sorted (t, ((kept, _, _), _), quiet) =
      let at : s.score_list ≡ s'.score_list = ground (arith, kept, quiet) in
      subst (λ l. IsSorted l) at sorted

  Judged-IsSorted :
      (target : ℕ) (s s' : State T W)
      → IsSorted s.score_list
      → Judged cfg
          (Called cfg pool others stake funding)
          (Kept cfg pool others stake funding)
          (framed cfg pool others stake funding)
          (called cfg pool others stake funding)
          target
          s
          s'
      → IsSorted s'.score_list
  unfolding IsKept restart mutate_score score_list_insert remove_challenge
  Judged-IsSorted target s s' sorted (t, kept, inl quiet) =
      Answered-IsSorted s s' sorted (t, kept, quiet)
  Judged-IsSorted target s s' sorted (t, ((kept, _, _), _), inr (who, score, event, at)) =
      let old = (get_candidate target t).score in
      let same : s.score_list ≡ t.score_list = ground (arith, kept) in
      let sorted_t : IsSorted t.score_list = subst (λ l. IsSorted l) same sorted in
      let rest = score_removed t.score_list old in
      subst (λ v. IsSorted v.score_list) at
        (score_inserted_lem rest score 0 (score_removed_lem t.score_list old 0 sorted_t).0).0

  run-IsSorted :
      (call : Call) (who : ℕ) (s s' : State T W)
      → IsSorted s.score_list
      → run cfg call (ok who) s ≡ ok s'
      → IsSorted s'.score_list
  unfolding run Calls.missed_in_hashs Calls.missed_in_paths Calls.start Calls.add Calls.challenge
      candidate_insert score_list_insert IsKept
  run-IsSorted Call.start who s s' sorted e = elim (Result-cases (reputation.new_round s.world)) [
    | inr (x, failed) ↦ absurd (ground arith)
    | inl (world, done) ↦
        let at : s.score_list ≡ s'.score_list = ground arith in subst (λ l. IsSorted l) at sorted
  ]
  run-IsSorted (Call.add target score) who s s' sorted e =
      elim (Result-cases (token.staking who seed_staking_amount s.ledger)) [
        | inr (x, failed) ↦ absurd (ground arith)
        | inl (ledger, paid) ↦
            let at : score_inserted s.score_list score ≡ s'.score_list = ground arith in
            subst (λ l. IsSorted l) at (score_inserted_lem s.score_list score 0 sorted).0
      ]
  run-IsSorted (Call.challenge target score) who s s' sorted e =
      elim (Option-cases (lookup target s.candidates)) [
        | inl absent ↦ absurd (ground arith)
        | inr (c, there) ↦
            let given = if c.has_challenge then 0 else seed_challenge_amount in
            let game = disputed who c.pathfinder given score in
            elim (Result-cases (challenge_base.launch app_id target game s)) [
              | inr (x, failed) ↦ absurd (ground arith)
              | inl (launched, done) ↦
                  let (kept, _, _) = funding.steady_launch app_id target game s launched done in
                  let at : s.score_list ≡ s'.score_list = ground (arith, kept) in
                  subst (λ l. IsSorted l) at sorted
            ]
      ]
  run-IsSorted (Call.examine target index) who s s' sorted e = Answered-IsSorted s s' sorted (
      examine-Answered cfg (Called cfg pool others stake funding)
        (Kept cfg pool others stake funding) (framed cfg pool others stake funding)
        (called cfg pool others stake funding) who target index s s' e)
  run-IsSorted (Call.reply_hash target hashs quantity) who s s' sorted e =
      Answered-IsSorted s s' sorted (
        reply_hash-Answered cfg (Called cfg pool others stake funding)
          (Kept cfg pool others stake funding) (framed cfg pool others stake funding)
          (called cfg pool others stake funding) who target quantity hashs s s' e)
  run-IsSorted (Call.reply_hash_next target hashs) who s s' sorted e =
      Answered-IsSorted s s' sorted (
        reply_hash_next-Answered cfg (Called cfg pool others stake funding)
          (Kept cfg pool others stake funding) (framed cfg pool others stake funding)
          (called cfg pool others stake funding) who target hashs s s' e)
  run-IsSorted (Call.reply_path target paths quantity) who s s' sorted e =
      Answered-IsSorted s s' sorted (
        reply_path-Answered cfg (Called cfg pool others stake funding)
          (Kept cfg pool others stake funding) (framed cfg pool others stake funding)
          (called cfg pool others stake funding) who target quantity paths s s' e)
  run-IsSorted (Call.reply_path_next target paths) who s s' sorted e =
      Answered-IsSorted s s' sorted (
        reply_path_next-Answered cfg (Called cfg pool others stake funding)
          (Kept cfg pool others stake funding) (framed cfg pool others stake funding)
          (called cfg pool others stake funding) who target paths s s' e)
  run-IsSorted (Call.reply_num target mid_paths) who s s' sorted e = Answered-IsSorted s s' sorted (
      reply_num-Answered cfg (Called cfg pool others stake funding)
        (Kept cfg pool others stake funding) (framed cfg pool others stake funding)
        (called cfg pool others stake funding) who target mid_paths s s' e)
  run-IsSorted (Call.missed_in_hashs target nodes index) who s s' sorted e =
      Judged-IsSorted target s s' sorted (
        evidence_of_missed-Judged cfg (Called cfg pool others stake funding)
          (Kept cfg pool others stake funding) (framed cfg pool others stake funding)
          (called cfg pool others stake funding) who target index nodes s s' (ground arith))
  run-IsSorted (Call.missed_in_paths target nodes) who s s' sorted e =
      Judged-IsSorted target s s' sorted (
        evidence_of_missed-Judged cfg (Called cfg pool others stake funding)
          (Kept cfg pool others stake funding) (framed cfg pool others stake funding)
          (called cfg pool others stake funding) who target 0 nodes s s' (ground arith))
  run-IsSorted (Call.evidence_of_shorter target index mid_path) who s s' sorted e =
      Judged-IsSorted target s s' sorted (
        evidence_of_shorter-Judged cfg (Called cfg pool others stake funding)
          (Kept cfg pool others stake funding) (framed cfg pool others stake funding)
          (called cfg pool others stake funding) who target index mid_path s s' e)
  run-IsSorted (Call.number_too_low target index mid_paths) who s s' sorted e =
      Judged-IsSorted target s s' sorted (
        number_too_low-Judged cfg (Called cfg pool others stake funding)
          (Kept cfg pool others stake funding) (framed cfg pool others stake funding)
          (called cfg pool others stake funding) who target index mid_paths s s' e)
  run-IsSorted (Call.invalid_evidence target mid_path score) who s s' sorted e =
      Judged-IsSorted target s s' sorted (
        invalid_evidence-Judged cfg (Called cfg pool others stake funding)
          (Kept cfg pool others stake funding) (framed cfg pool others stake funding)
          (called cfg pool others stake funding) who target score mid_path s s' e)

  harvest_challenge-IsSorted :
      (who target : ℕ) (s s' : State T W)
      → IsSorted s.score_list
      → Calls.harvest_challenge cfg (ok who) target s ≡ ok s'
      → IsSorted s'.score_list
  unfolding Calls.harvest_challenge do_harvest_challenge remove_challenge IsKept
  harvest_challenge-IsSorted who target s s' sorted e =
      elim (Result-cases (challenge_base.harvest who app_id target s)) [
        | inr (x, failed) ↦ absurd (ground arith)
        | inl ((maybe_score, t), done) ↦
            let (kept, _, _) =
              funding.steady.harvest_keeps who app_id target maybe_score s t done in
            let at : s.score_list ≡ s'.score_list = ground (arith, kept) in
            subst (λ l. IsSorted l) at sorted
      ]

  -- Along the successful calls of a round, in any order, where the games and the pallets beside are as
  -- `Funding` asks, before each dispute and each share the next stakes fit beside the staked total, each
  -- dispute is about a candidate that is there, as far as it presents evidence, and each share is of a
  -- game whose target is a candidate: what is promised out of the staked funds, which is the pools of the
  -- games, the stakes of the candidates, the bonus and what other pallets promise, grows by no more than
  -- the staked total.
  pub Round-Funded :
      (s s' : State T W) → Round cfg pool others stake s s' → Funded cfg pool others s s'
  Round-Funded s _ Round.stay = omega arith
  Round-Funded s s' (Round.call {mid} before c who room about e) = omega (
    arith,
    Round-Funded s mid before,
    run-Funded cfg pool others stake funding c who mid s' room about e,
  )
  Round-Funded s s' (Round.share {mid} before who target c room there e) = omega (
    arith,
    Round-Funded s mid before,
    harvest_challenge-Funded cfg pool others stake funding who target c mid s' (omega (arith, room))
        there e,
  )
  Round-Funded s s' (Round.seat {mid} before who target e) = omega (
    arith,
    Round-Funded s mid before,
    harvest_seed-Funded cfg pool others stake funding who target mid s' e,
  )

  -- Whatever calls of accounts succeed, in any order and about any targets, proposals, disputes, shares and
  -- harvests of seeds: from a sorted list of scores, with games as `Funding` asks, the list stays sorted,
  -- as the binary searches in it need.
  pub Course-IsSorted :
      (s s' : State T W) → IsSorted s.score_list → Course cfg s s' → IsSorted s'.score_list
  Course-IsSorted s _ sorted Course.stay = sorted
  Course-IsSorted s s' sorted (Course.call {mid} before c who e) =
      run-IsSorted c who mid s' (Course-IsSorted s mid sorted before) e
  Course-IsSorted s s' sorted (Course.share {mid} before who target e) =
      harvest_challenge-IsSorted who target mid s' (Course-IsSorted s mid sorted before) e
  Course-IsSorted s s' sorted (Course.seat {mid} before who target e) =
      (harvest_seed-Harvested cfg who target mid s' (Course-IsSorted s mid sorted before)
        e).1.ordered
