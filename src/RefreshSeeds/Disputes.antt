-- ===== src/RefreshSeeds/Disputes.antt =====
-- pallets/refresh-seeds/src/lib.rs: the calls as data, as in the `Call` that `pallet::call` generates
-- for them, and what any sequence of the disputing ones keeps.
use zero_dao_node.Base.{
  ℕ, ◌≡◌, inl, inr, refl, subst, List, true, Option, none, some, if◌then◌else◌, arith, Option-cases,
}
use zero_dao_node.Base.StorageMap.{lookup}
use zero_dao_node.Dispatch.{Result, ok, Result-cases}
use zero_dao_node.RefreshSeeds.{
  Candidate, PostResultHash, NodePath, State, Config, Event, deposit_event, get_candidate,
  put_candidate, candidate_insert,
}
use zero_dao_node.RefreshSeeds.Calls
use zero_dao_node.RefreshSeeds.Replies
use zero_dao_node.RefreshSeeds.Orders.{app_id}
use zero_dao_node.RefreshSeeds.Calls.{disputed}
use zero_dao_node.RefreshSeeds.Replies.{touch}
use zero_dao_node.Support.Framed.{Framed, LaunchKeeps}
use zero_dao_node.RefreshSeeds.Frame.{IsKept, keep_on, IsQuiet-IsKept, IsSame-IsKept}
use zero_dao_node.RefreshSeeds.Accounts.{
  IsAccounted, IsAccounted-kept, candidate_insert-IsAccounted, put_candidate-IsAccounted,
  restart-IsAccounted, get_or-lookup,
}
use zero_dao_node.RefreshSeeds.Answers.{
  Answered, examine-Answered, reply_hash-Answered, reply_hash_next-Answered, reply_path-Answered,
  reply_path_next-Answered, reply_num-Answered,
}
use zero_dao_node.RefreshSeeds.Restarts.{
  Judged, evidence_of_shorter-Judged, number_too_low-Judged, invalid_evidence-Judged,
  evidence_of_missed-Judged,
}

pub data Call : Type 0 where
  start : Call
  add challenge : ℕ → ℕ → Call
  examine : ℕ → ℕ → Call
  reply_hash : ℕ → List PostResultHash → ℕ → Call
  reply_hash_next : ℕ → List PostResultHash → Call
  reply_path : ℕ → List NodePath → ℕ → Call
  reply_path_next : ℕ → List NodePath → Call
  reply_num : ℕ → List (List ℕ) → Call
  missed_in_hashs : ℕ → List ℕ → ℕ → Call
  missed_in_paths : ℕ → List ℕ → Call
  evidence_of_shorter : ℕ → ℕ → List ℕ → Call
  number_too_low : ℕ → ℕ → List (List ℕ) → Call
  invalid_evidence : ℕ → List ℕ → ℕ → Call

-- The candidate that a call of evidence is about; such a call may restart the dispute.
abbrev pub restarts : Call → Option ℕ
restarts (Call.missed_in_hashs target nodes index) = some target
restarts (Call.missed_in_paths target nodes) = some target
restarts (Call.evidence_of_shorter target index mid_path) = some target
restarts (Call.number_too_low target index mid_paths) = some target
restarts (Call.invalid_evidence target mid_path score) = some target
restarts call = none

module _ {T W : Type 0} where
  -- A call of evidence is about a candidate.
  unfoldable pub IsAbout : Call → State T W → Type 0
  IsAbout call s =
      (target : ℕ)
      → restarts call ≡ some target
      → (c : Candidate) × (lookup target s.candidates ≡ some c)

module _ {T W : Type 0} (cfg : Config T W) where
  unfoldable pub run : Call → Result ℕ → State T W → Result (State T W)
  run Call.start origin s = Calls.start cfg origin s
  run (Call.add target score) origin s = Calls.add cfg origin target score s
  run (Call.challenge target score) origin s = Calls.challenge cfg origin target score s
  run (Call.examine target index) origin s = Replies.examine cfg origin target index s
  run (Call.reply_hash target hashs quantity) origin s =
      Replies.reply_hash cfg origin target hashs quantity s
  run (Call.reply_hash_next target hashs) origin s =
      Replies.reply_hash_next cfg origin target hashs s
  run (Call.reply_path target paths quantity) origin s =
      Replies.reply_path cfg origin target paths quantity s
  run (Call.reply_path_next target paths) origin s =
      Replies.reply_path_next cfg origin target paths s
  run (Call.reply_num target mid_paths) origin s = Replies.reply_num cfg origin target mid_paths s
  run (Call.missed_in_hashs target nodes index) origin s =
      Calls.missed_in_hashs cfg origin target nodes index s
  run (Call.missed_in_paths target nodes) origin s = Calls.missed_in_paths cfg origin target nodes s
  run (Call.evidence_of_shorter target index mid_path) origin s =
      Calls.evidence_of_shorter cfg origin target index mid_path s
  run (Call.number_too_low target index mid_paths) origin s =
      Calls.number_too_low cfg origin target index mid_paths s
  run (Call.invalid_evidence target mid_path score) origin s =
      Calls.invalid_evidence cfg origin target mid_path score s

module _ {T W : Type 0} (cfg : Config T W) where
  -- The storages that successful calls of accounts lead to.
  pub data Reach (start : State T W) : State T W → Type 0 where
    stay : Reach start start
    call :
        {mid out : State T W}
        → Reach start mid
        → (c : Call) (who : ℕ) → IsAbout c mid
        → run cfg c (ok who) mid ≡ ok out
        → Reach start out

module _ {T W : Type 0} (cfg : Config T W) (framed : Framed IsKept IsKept (cfg.challenge_base))
    (launch_keeps : LaunchKeeps IsKept (cfg.challenge_base)) where
  open cfg use {token, reputation, challenge_base, seed_staking_amount, seed_challenge_amount}

  add-IsAccounted :
      (who target score : ℕ) (s s' : State T W)
      → IsAccounted s
      → Calls.add cfg (ok who) target score s ≡ ok s'
      → IsAccounted s'
  unfolding Calls.add IsAccounted
  add-IsAccounted who target score s s' accounted e =
      elim (Result-cases (token.staking who seed_staking_amount s.ledger)) [
        | inr (x, failed) ↦ absurd (ground arith)
        | inl (ledger, staked) ↦ elim (Option-cases (lookup target s.candidates)) [
          | inr (c, there) ↦ absurd (ground arith)
          | inl absent ↦
              let paid = record s { ledger = ledger } in
              let event = Event.new_candidate who target score in
              let at : deposit_event event (touch cfg (candidate_insert target who score paid))
                  ≡ s' =
                ground arith in
              subst (λ t. IsAccounted t) at
                (candidate_insert-IsAccounted target who score paid accounted absent)
        ]
      ]

  challenge-IsAccounted :
      (who target score : ℕ) (s s' : State T W)
      → IsAccounted s
      → Calls.challenge cfg (ok who) target score s ≡ ok s'
      → IsAccounted s'
  unfolding Calls.challenge IsAccounted IsKept
  challenge-IsAccounted who target score s s' accounted e =
      elim (Option-cases (lookup target s.candidates)) [
        | inl absent ↦ absurd (ground arith)
        | inr (c, there) ↦
            let staking = if c.has_challenge then 0 else seed_challenge_amount in
            let game = disputed who c.pathfinder staking score in
            elim (Result-cases (challenge_base.launch app_id target game s)) [
              | inr (x, failed) ↦ absurd (ground arith)
              | inl (launched, done) ↦
                  let kept = launch_keeps app_id target game s launched done in
                  let there' : lookup target launched.candidates ≡ some c =
                    ground (arith, kept, there) in
                  let old = get_candidate target launched in
                  let same : old ≡ c = get_or-lookup target c launched.candidates there' in
                  let marked =
                    put_candidate target (record old { has_challenge = true }) launched in
                  let event = Event.new_challenge who target in
                  let at : deposit_event event (touch cfg marked) ≡ s' = ground arith in
                  subst (λ t. IsAccounted t) at
                    (put_candidate-IsAccounted target c (record old { has_challenge = true })
                      launched (IsAccounted-kept s launched kept accounted) there'
                      (ground (arith, same)))
            ]
      ]

  Answered-IsAccounted :
      (s s' : State T W)
      → IsAccounted s
      → Answered cfg IsKept IsKept framed IsSame-IsKept s s'
      → IsAccounted s'
  Answered-IsAccounted s s' accounted (t, kept, quiet) =
      IsAccounted-kept s s' (keep_on s t s' kept (IsQuiet-IsKept cfg t s' quiet)) accounted

  Judged-IsAccounted :
      (target : ℕ) (c : Candidate) (s s' : State T W)
      → IsAccounted s
      → lookup target s.candidates ≡ some c
      → Judged cfg IsKept IsKept framed IsSame-IsKept target s s'
      → IsAccounted s'
  unfolding IsKept IsAccounted
  Judged-IsAccounted target c s s' accounted there (t, kept, inl quiet) =
      Answered-IsAccounted s s' accounted (t, kept, quiet)
  Judged-IsAccounted target c s s' accounted there (t, kept, inr (who, score, event, at)) =
      subst (λ v. IsAccounted v) at
        (restart-IsAccounted target who score c t (IsAccounted-kept s t kept accounted)
          (ground (arith, kept, there)))

  run-IsAccounted :
      (call : Call) (who : ℕ) (s s' : State T W)
      → IsAccounted s
      → IsAbout call s
      → run cfg call (ok who) s ≡ ok s'
      → IsAccounted s'
  unfolding run IsAbout Calls.missed_in_hashs Calls.missed_in_paths Calls.start IsAccounted
  run-IsAccounted Call.start who s s' accounted about e =
      elim (Result-cases (reputation.new_round s.world)) [
        | inr (x, failed) ↦ absurd (ground arith)
        | inl (world, done) ↦
            let opened = record s { world = world } in
            let event = Event.refersh_seed_stared who in
            let at : deposit_event event opened ≡ s' = ground arith in
            subst (λ t. IsAccounted t) at accounted
      ]
  run-IsAccounted (Call.add target score) who s s' accounted about e =
      add-IsAccounted who target score s s' accounted e
  run-IsAccounted (Call.challenge target score) who s s' accounted about e =
      challenge-IsAccounted who target score s s' accounted e
  run-IsAccounted (Call.examine target index) who s s' accounted about e =
      Answered-IsAccounted s s' accounted
        (examine-Answered cfg IsKept IsKept framed IsSame-IsKept who target index s s' e)
  run-IsAccounted (Call.reply_hash target hashs quantity) who s s' accounted about e =
      Answered-IsAccounted s s' accounted (
        reply_hash-Answered cfg IsKept IsKept framed IsSame-IsKept who target quantity hashs s s' e)
  run-IsAccounted (Call.reply_hash_next target hashs) who s s' accounted about e =
      Answered-IsAccounted s s' accounted
        (reply_hash_next-Answered cfg IsKept IsKept framed IsSame-IsKept who target hashs s s' e)
  run-IsAccounted (Call.reply_path target paths quantity) who s s' accounted about e =
      Answered-IsAccounted s s' accounted (
        reply_path-Answered cfg IsKept IsKept framed IsSame-IsKept who target quantity paths s s' e)
  run-IsAccounted (Call.reply_path_next target paths) who s s' accounted about e =
      Answered-IsAccounted s s' accounted
        (reply_path_next-Answered cfg IsKept IsKept framed IsSame-IsKept who target paths s s' e)
  run-IsAccounted (Call.reply_num target mid_paths) who s s' accounted about e =
      Answered-IsAccounted s s' accounted
        (reply_num-Answered cfg IsKept IsKept framed IsSame-IsKept who target mid_paths s s' e)
  run-IsAccounted (Call.missed_in_hashs target nodes index) who s s' accounted about e =
      let (c, there) = about target refl in
      Judged-IsAccounted target c s s' accounted there (
        evidence_of_missed-Judged cfg IsKept IsKept framed IsSame-IsKept who target index nodes s s'
          (ground arith))
  run-IsAccounted (Call.missed_in_paths target nodes) who s s' accounted about e =
      let (c, there) = about target refl in
      Judged-IsAccounted target c s s' accounted there (
        evidence_of_missed-Judged cfg IsKept IsKept framed IsSame-IsKept who target 0 nodes s s'
          (ground arith))
  run-IsAccounted (Call.evidence_of_shorter target index mid_path) who s s' accounted about e =
      let (c, there) = about target refl in
      Judged-IsAccounted target c s s' accounted there (
        evidence_of_shorter-Judged cfg IsKept IsKept framed IsSame-IsKept who target index mid_path
          s s' e)
  run-IsAccounted (Call.number_too_low target index mid_paths) who s s' accounted about e =
      let (c, there) = about target refl in
      Judged-IsAccounted target c s s' accounted there (
        number_too_low-Judged cfg IsKept IsKept framed IsSame-IsKept who target index mid_paths s s'
          e)
  run-IsAccounted (Call.invalid_evidence target mid_path score) who s s' accounted about e =
      let (c, there) = about target refl in
      Judged-IsAccounted target c s s' accounted there (
        invalid_evidence-Judged cfg IsKept IsKept framed IsSame-IsKept who target score mid_path s
          s' e)

  -- While candidates are proposed and disputed, by any calls in any order that are about candidates,
  -- the list of scores stays sorted and has each score as often as there are candidates with it.
  pub disputes-IsAccounted : (s s' : State T W) → Reach cfg s s' → IsAccounted s → IsAccounted s'
  disputes-IsAccounted s _ Reach.stay accounted = accounted
  disputes-IsAccounted s s' (Reach.call {mid} reached c who about e) accounted =
      run-IsAccounted c who mid s' (disputes-IsAccounted s mid reached accounted) about e
