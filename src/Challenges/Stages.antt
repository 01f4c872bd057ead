-- ===== src/Challenges/Stages.antt =====
-- pallets/challenges/src/lib.rs: the stages of a game, its status and how much of its data is there.
use zero_dao_node.Base.{
  ℕ, ◌≤◌, ◌≡◌, ◌≢◌, refl, inl, inr, Bool, true, false, Option, none, some, arith,
}
use zero_dao_node.Base.DoubleMap
use zero_dao_node.Base.DoubleMap.{DoubleMap, lookup-insert}
use zero_dao_node.Dispatch.{Result, ok, Result-cases}
use zero_dao_node.Primitives.Metadata.{Metadata, ChallengeStatus, status_eq, restart, set_status}
use zero_dao_node.Challenges.{
  Config, State, metadata_of, mutate_metadata, staking, release, do_settle, after_upload,
}
use zero_dao_node.Challenges.Methods.{
  next, next_step, examine, examine_step, reply, reply_step, evidence, arbitral, arbitral_step,
  take_over, settle, settle_step,
}

-- The statuses that may follow one another by `next`, `examine`, `reply`, `evidence`, `arbitral` and
-- `settle`. A launch, `set_status` and `set_metadata` set others.
unfoldable pub may_follow : ChallengeStatus → ChallengeStatus → Bool
may_follow ChallengeStatus.free ChallengeStatus.reply = false
may_follow ChallengeStatus.free ChallengeStatus.evidence = false
may_follow ChallengeStatus.free ChallengeStatus.examine = false
may_follow ChallengeStatus.examine ChallengeStatus.evidence = false
may_follow ChallengeStatus.examine ChallengeStatus.arbitral = false
may_follow ChallengeStatus.reply ChallengeStatus.evidence = false
may_follow ChallengeStatus.evidence ChallengeStatus.examine = false
may_follow ChallengeStatus.evidence ChallengeStatus.reply = false
may_follow ChallengeStatus.arbitral ChallengeStatus.examine = false
may_follow ChallengeStatus.arbitral ChallengeStatus.reply = false
may_follow ChallengeStatus.arbitral ChallengeStatus.evidence = false
may_follow _ _ = true

may_follow_self : (x : ChallengeStatus) → may_follow x x ≡ true
unfolding may_follow
may_follow_self ChallengeStatus.free = refl
may_follow_self ChallengeStatus.examine = refl
may_follow_self ChallengeStatus.reply = refl
may_follow_self ChallengeStatus.evidence = refl
may_follow_self ChallengeStatus.arbitral = refl

may_follow-free : (x : ChallengeStatus) → may_follow x ChallengeStatus.free ≡ true
unfolding may_follow
may_follow-free ChallengeStatus.free = refl
may_follow-free ChallengeStatus.examine = refl
may_follow-free ChallengeStatus.reply = refl
may_follow-free ChallengeStatus.evidence = refl
may_follow-free ChallengeStatus.arbitral = refl

may_follow-arbitral :
    (x : ChallengeStatus)
    → status_eq x ChallengeStatus.examine ≡ false
    → may_follow x ChallengeStatus.arbitral ≡ true
unfolding may_follow
may_follow-arbitral ChallengeStatus.free h = refl
may_follow-arbitral ChallengeStatus.examine h = cc
may_follow-arbitral ChallengeStatus.reply h = refl
may_follow-arbitral ChallengeStatus.evidence h = refl
may_follow-arbitral ChallengeStatus.arbitral h = refl

abbrev pub Fits : Metadata → Type 0
Fits m = m.progress.done ≤ m.progress.total

-- What an operation makes of one game: a status that may follow, and progress that stays within
-- the total.
abbrev pub Follows : Metadata → Metadata → Type 0
Follows m m' = (may_follow m.status m'.status ≡ true) × Fits m'

Follows-refl : (m : Metadata) → Fits m → Follows m m
Follows-refl m h = (may_follow_self m.status, h)

module _ {W : Type 0} (cfg : Config W) where
  do_settle-Follows :
      (m m' : Metadata) (again joint : Bool) (score : ℕ) (s t : State W)
      → Fits m
      → do_settle cfg m again joint score s ≡ ok (m', t)
      → Follows m m' × (t.metadatas ≡ s.metadatas)
  unfolding do_settle release
  do_settle-Follows m m' true joint score s t h e = ground (arith, may_follow-free m.status)
  do_settle-Follows m m' false joint score s t h e = ground (arith, may_follow_self m.status)

  take_over-Follows :
      (who : ℕ) (m m' : Metadata) (s t : State W)
      → Fits m
      → take_over cfg who m s ≡ ok (m', t)
      → (m'.status ≡ m.status) × Fits m' × (t.metadatas ≡ s.metadatas)
  unfolding staking
  take_over-Follows who m m' s t h e = ground arith

  arbitral_step-Follows :
      (app_id who : ℕ) (up : ℕ → ℕ → W → Result (Bool × Bool × ℕ × W)) (m m' : Metadata)
      (s t : State W)
      → Fits m
      → arbitral_step cfg app_id who up m s ≡ ok (m', t)
      → Follows m m' × (t.metadatas ≡ s.metadatas)
  unfolding after_upload
  arbitral_step-Follows app_id who up m m' s t h e = elim (Result-cases (take_over cfg who m s)) [
    | inr (x, failed) ↦ ground arith
    | inl ((m1, s1), taken) ↦ elim (Result-cases (up m1.score m1.remark s1.world)) [
      | inr (x, failed) ↦ ground arith
      | inl ((joint, again, score, w), called) ↦
          let s2 = record s1 { world = w } in
          elim (Result-cases (do_settle cfg m1 again joint score s2)) [
            | inr (x, failed) ↦ ground arith
            | inl ((m3, s3), done) ↦ ground (
              arith,
              take_over-Follows who m m1 s s1 h taken,
              do_settle-Follows m1 m3 again joint score s2 s3,
            )
          ]
    ]
  ]

  -- A successful operation that plays on in the game of `target` under `app_id`.
  pub data Step (app_id target : ℕ) (s s' : State W) : Type 0 where
    uploads :
        (who count : ℕ) (up : ℕ → ℕ → Bool → W → Result (ℕ × ℕ × W))
        → next cfg app_id who target count up s ≡ ok s'
        → Step app_id target s s'
    examines :
        (who index : ℕ) → examine cfg app_id who target index s ≡ ok s' → Step app_id target s s'
    replies :
        (who total count : ℕ) (up : Bool → ℕ → ℕ → W → Result (ℕ × W))
        → reply cfg app_id who target total count up s ≡ ok s'
        → Step app_id target s s'
    proves :
        (who : ℕ) (up : ℕ → ℕ → W → Result (Bool × W)) (o : Option ℕ)
        → evidence cfg app_id who target up s ≡ ok (o, s')
        → Step app_id target s s'
    arbitrates :
        (who : ℕ) (up : ℕ → ℕ → W → Result (Bool × Bool × ℕ × W))
        → arbitral cfg app_id who target up s ≡ ok s'
        → Step app_id target s s'
    settles :
        (score : ℕ) (joint again : Bool)
        → settle cfg app_id target joint again score s ≡ ok s'
        → Step app_id target s s'

  next_step-Follows :
      (app_id who count : ℕ) (up : ℕ → ℕ → Bool → W → Result (ℕ × ℕ × W)) (m m' : Metadata)
      (s t : State W)
      → next_step cfg app_id who count up m s ≡ ok (m', t)
      → Follows m m' × (t.metadatas ≡ s.metadatas)
  unfolding after_upload
  next_step-Follows app_id who count up m m' s t e = ground (arith, may_follow_self m.status)

  examine_step-Follows :
      (app_id who index : ℕ) (m m' : Metadata) (s t : State W)
      → Fits m
      → examine_step cfg app_id who index m s ≡ ok (m', t)
      → Follows m m' × (t.metadatas ≡ s.metadatas)
  unfolding after_upload may_follow
  examine_step-Follows app_id who index m m' s t h e = ground arith

  reply_step-Follows :
      (who total count : ℕ) (up : Bool → ℕ → ℕ → W → Result (ℕ × W)) (m m' : Metadata)
      (s t : State W)
      → reply_step cfg who total count up m s ≡ ok (m', t)
      → Follows m m' × (t.metadatas ≡ s.metadatas)
  unfolding may_follow
  reply_step-Follows who total count up m m' s t e = ground arith

  settle_step-Follows :
      (joint again : Bool) (score : ℕ) (m m' : Metadata) (s t : State W)
      → Fits m
      → settle_step cfg joint again score m s ≡ ok (m', t)
      → Follows m m' × (t.metadatas ≡ s.metadatas)
  settle_step-Follows joint again score m m' s t h e =
      ground (arith, do_settle-Follows m m' again joint score s t h)

  -- What an operation on one game leaves in storage.
  abbrev pub Leaves : ℕ → ℕ → State W → State W → Metadata → Metadata → Type 0
  Leaves app_id target s s' m m' =
      Follows m m' × (s'.metadatas ≡ DoubleMap.insert app_id target m' s.metadatas)

  mutate_metadata-Leaves :
      (app_id target : ℕ) (f : Metadata → State W → Result (Metadata × State W)) (s s' : State W)
      (m : Metadata)
      → metadata_of app_id target s ≡ some m
      → ((m' : Metadata) (t : State W)
          → f m s ≡ ok (m', t)
          → Follows m m' × (t.metadatas ≡ s.metadatas))
      → mutate_metadata app_id target f s ≡ ok s'
      → (m' : Metadata) × (Leaves app_id target s s' m m')
  unfolding mutate_metadata
  mutate_metadata-Leaves app_id target f s s' m found follows e = elim (Result-cases (f m s)) [
    | inl ((m', t), done) ↦
        let kept = follows m' t done in
        (record m' { last_update = s.now }, (kept.0, ground (arith, kept.1)))
    | inr (x, failed) ↦ absurd (ground arith)
  ]

  evidence-Leaves :
      (app_id who target : ℕ) (up : ℕ → ℕ → W → Result (Bool × W)) (o : Option ℕ) (s s' : State W)
      (m : Metadata)
      → metadata_of app_id target s ≡ some m
      → Fits m
      → evidence cfg app_id who target up s ≡ ok (o, s')
      → (m' : Metadata) × (Leaves app_id target s s' m m')
  unfolding evidence after_upload
  evidence-Leaves app_id who target up o s s' m found h e =
      elim (Result-cases (up m.remark m.score s.world)) [
        | inl ((true, w), called) ↦ (
          set_status m ChallengeStatus.arbitral,
          (ground (arith, may_follow-arbitral m.status), ground arith),
        )
        | inl ((false, w), called) ↦ (restart m true, ((may_follow-free m.status, h), ground arith))
        | inr (x, failed) ↦ absurd (ground arith)
      ]

  -- Where an operation plays on in a game whose data fit its total, the game goes to a status that may
  -- follow, and its data fit again; every other game stays as it is.
  pub Step-Follows :
      {app_id target : ℕ} {s s' : State W} (m : Metadata)
      → Step app_id target s s'
      → metadata_of app_id target s ≡ some m
      → Fits m
      → (m' : Metadata) × (Leaves app_id target s s' m m')
  unfolding next examine reply arbitral settle
  Step-Follows {app_id} {target} {s} {s'} m (uploads who count up e) found fits =
      mutate_metadata-Leaves app_id target (next_step cfg app_id who count up) s s' m found
        (λ m' t. next_step-Follows app_id who count up m m' s t) e
  Step-Follows {app_id} {target} {s} {s'} m (examines who index e) found fits =
      mutate_metadata-Leaves app_id target (examine_step cfg app_id who index) s s' m found
        (λ m' t. examine_step-Follows app_id who index m m' s t fits) e
  Step-Follows {app_id} {target} {s} {s'} m (replies who total count up e) found fits =
      mutate_metadata-Leaves app_id target (reply_step cfg who total count up) s s' m found
        (λ m' t. reply_step-Follows who total count up m m' s t) e
  Step-Follows {app_id} {target} {s} {s'} m (proves who up o e) found fits =
      evidence-Leaves app_id who target up o s s' m found fits e
  Step-Follows {app_id} {target} {s} {s'} m (arbitrates who up e) found fits =
      mutate_metadata-Leaves app_id target (arbitral_step cfg app_id who up) s s' m found
        (λ m' t. arbitral_step-Follows app_id who up m m' s t fits) e
  Step-Follows {app_id} {target} {s} {s'} m (settles score joint again e) found fits =
      mutate_metadata-Leaves app_id target (settle_step cfg joint again score) s s' m found
        (λ m' t. settle_step-Follows joint again score m m' s t fits) e

  -- An operation that plays on needs its game.
  pub Step-found :
      {app_id target : ℕ} {s s' : State W}
      → Step app_id target s s'
      → metadata_of app_id target s ≢ none
  unfolding next examine reply evidence arbitral settle mutate_metadata
  Step-found (uploads who count up e) missing = ground arith
  Step-found (examines who index e) missing = ground arith
  Step-found (replies who total count up e) missing = ground arith
  Step-found (proves who up o e) missing = ground arith
  Step-found (arbitrates who up e) missing = ground arith
  Step-found (settles score joint again e) missing = ground arith
