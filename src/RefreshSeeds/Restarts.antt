-- ===== src/RefreshSeeds/Restarts.antt =====
-- pallets/refresh-seeds/src/lib.rs: the calls of evidence, play one game,
-- and then may restart the dispute.
use zero_dao_node.Base.{ℕ, ◌≡◌, ◌⊎◌, inl, inr, List, arith, Option-cases, Bool-cases, length}
use zero_dao_node.Base.StorageMap.{lookup, insert}
use zero_dao_node.Dispatch.{ok, Result-cases}
use zero_dao_node.RefreshSeeds.{
  State, Config, Event, app_id, contains, deposit_event, restart, get_pathfinder_paths, get_ends,
  get_nodes_ends,
}
use zero_dao_node.RefreshSeeds.Calls.{
  score_or_default, shorter, evidence_of_shorter, too_low, number_too_low, invalid,
  invalid_evidence,
}
use zero_dao_node.Support.Framed.{Framed}
use zero_dao_node.RefreshSeeds.Frame.{
  IsSame, IsQuiet, IsQuiet-event, IsQuiet-asked, same, too_low-IsSame, missed-IsSame,
}
use zero_dao_node.RefreshSeeds.PathData.{sort_dedup_nodes, make_full_order}
use zero_dao_node.RefreshSeeds.Evidence.{missed, evidence_of_missed}

module _ {T W : Type 0} (cfg : Config T W) (Called Kept : State T W → State T W → Type 0)
    (framed : Framed Called Kept (cfg.challenge_base))
    (called : (s s' : State T W) → IsSame s s' → Called s s') where
  open cfg use {challenge_base}

  -- A game whose callback keeps what `Called` says, after which the dispute is restarted, or the
  -- candidates and the ledger are left alone.
  abbrev pub Judged : ℕ → State T W → State T W → Type 0
  Judged target s s' =
      (t : State T W) × Kept s t
      × (IsQuiet cfg t s'
          ⊎ ((who score : ℕ) × (event : Event) × (deposit_event event (restart target who score t)
                ≡ s')))

  pub evidence_of_shorter-Judged :
      (who target index : ℕ) (mid_path : List ℕ) (s s' : State T W)
      → evidence_of_shorter cfg (ok who) target index mid_path s ≡ ok s'
      → Judged target s s'
  unfolding evidence_of_shorter
  evidence_of_shorter-Judged who target index mid_path s s' e =
      elim (Result-cases (challenge_base.evidence app_id who target (shorter cfg) s)) [
        | inr (x, failed) ↦ absurd (ground arith)
        | inl ((m, judged), done) ↦
            let kept =
              framed.evidence_keeps app_id who target (shorter cfg) m s judged
                (λ r o b t t' h. called t t' (ground (arith, same t))) done in
            let event = Event.shorter_presented who target index in
            let at : deposit_event event (restart target who (score_or_default m) judged) ≡ s' =
              ground arith in
            (judged, kept, inr (who, (score_or_default m), event, at))
      ]

  pub number_too_low-Judged :
      (who target index : ℕ) (mid_paths : List (List ℕ)) (s s' : State T W)
      → number_too_low cfg (ok who) target index mid_paths s ≡ ok s'
      → Judged target s s'
  unfolding number_too_low
  number_too_low-Judged who target index mid_paths s s' e =
      let sorted = sort_dedup_nodes mid_paths in
      elim (Result-cases (get_pathfinder_paths target index s)) [
        | inr (x, failed) ↦ absurd (ground arith)
        | inl (p_path, found) ↦ elim (Result-cases (get_ends p_path)) [
          | inr (x, failed) ↦ absurd (ground arith)
          | inl (ends, has_ends) ↦
              let up = too_low cfg sorted p_path.nodes p_path.total ends in
              elim (Result-cases (challenge_base.evidence app_id who target up s)) [
                | inr (x, failed) ↦ absurd (ground arith)
                | inl ((m, judged), done) ↦
                    let kept =
                      framed.evidence_keeps app_id who target up m s judged
                        (λ r o b t t' h.
                          called t t'
                            (too_low-IsSame cfg sorted p_path.nodes p_path.total ends r o b t t' h))
                        done in
                    let event = Event.evidence_of_num_too_low_presented who target index in
                    let at : deposit_event event (restart target who (score_or_default m) judged)
                        ≡ s' =
                      ground arith in
                    (judged, kept, inr (who, (score_or_default m), event, at))
              ]
        ]
      ]

  pub invalid_evidence-Judged :
      (who target score : ℕ) (mid_path : List ℕ) (s s' : State T W)
      → invalid_evidence cfg (ok who) target mid_path score s ≡ ok s'
      → Judged target s s'
  unfolding invalid_evidence
  invalid_evidence-Judged who target score mid_path s s' e =
      let through = contains target mid_path in
      let up = invalid cfg through score in
      let event = Event.evidence_of_invalid_presented who target score in
      elim (Result-cases (challenge_base.arbitral app_id who target up s)) [
        | inr (x, failed) ↦ absurd (ground arith)
        | inl (judged, done) ↦
            let kept =
              framed.arbitral_keeps app_id who target up s judged
                (λ r o n b b' t t' h. called t t' (ground (arith, same t))) done in
            elim (Bool-cases through) [
              | inl passes ↦
                  let at : deposit_event event (restart target who score judged) ≡ s' =
                    ground arith in
                  (judged, kept, inr (who, score, event, at))
              | inr avoids ↦
                  let at : deposit_event event judged ≡ s' = ground arith in
                  (judged, kept, inl (IsQuiet-event cfg event judged s' at))
            ]
      ]

  pub evidence_of_missed-Judged :
      (who target index : ℕ) (nodes : List ℕ) (s s' : State T W)
      → evidence_of_missed cfg who target nodes index s ≡ ok s'
      → Judged target s s'
  unfolding evidence_of_missed
  evidence_of_missed-Judged who target index nodes s s' e =
      elim (Result-cases (get_nodes_ends nodes)) [
        | inr (x, failed) ↦ absurd (ground arith)
        | inl (ends, has_ends) ↦ elim (Option-cases (lookup target s.result_hashs_sets)) [
          | inl nothing ↦ absurd (ground arith)
          | inr (sets, found) ↦
              elim (Result-cases (make_full_order cfg ends.0 ends.1 (length sets))) [
                | inr (x, failed) ↦ absurd (ground arith)
                | inl (order, made) ↦
                    let up = missed cfg target nodes index ends (length sets) order in
                    elim (Result-cases (challenge_base.evidence app_id who target up s)) [
                      | inr (x, failed) ↦ absurd (ground arith)
                      | inl ((m, judged), done) ↦
                          let kept =
                            framed.evidence_keeps app_id who target up m s judged
                              (λ r o b t t' h. called t t' (
                                missed-IsSame cfg target index (length sets) nodes order ends r o b
                                  t t' h))
                              done in
                          let event = Event.missed_path_presented who target index in
                          elim (Option-cases m) [
                            | inr (score, is) ↦
                                let at : deposit_event event (restart target who score judged)
                                    ≡ s' =
                                  ground arith in
                                (judged, kept, inr (who, score, event, at))
                            | inl nothing ↦ (
                              judged,
                              kept,
                              inl (
                                  IsQuiet-asked cfg event (insert target nodes judged.missed_paths)
                                    judged s' (ground arith)),
                            )
                          ]
                    ]
              ]
        ]
      ]
