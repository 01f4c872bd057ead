-- ===== src/Challenges/Timeout.antt =====
-- pallets/challenges/src/lib.rs, `is_all_timeout`: what the last activity recorded for an
-- application says about its games, and which operations keep the record up to date.
use zero_dao_node.Base.{ℕ, ◌+◌, ◌≤◌, ◌<◌, ◌≡◌, inl, inr, Bool, true, some, Option-cases, arith, u32}
use zero_dao_node.Base.StorageMap
use zero_dao_node.Base.StorageMap.{get_or, get_or-insert}
use zero_dao_node.Base.DoubleMap.{lookup-insert}
use zero_dao_node.Dispatch.{Result, ok, Result-cases}
use zero_dao_node.Primitives.Metadata.{Metadata}
use zero_dao_node.Challenges.{
  Config, State, metadata_of, mutate_metadata, after_upload, is_all_timeout, is_challenge_timeout,
}
use zero_dao_node.Challenges.Methods.{next, next_step, reply, reply_step}
use zero_dao_node.Challenges.Accounting.{mutate_metadata-ok}

module _ {W : Type 0} where
  -- `LastAt::get`
  abbrev pub last_active : ℕ → State W → ℕ
  last_active app_id s = get_or 0 app_id s.last_at

  -- No game of the application was updated after its last recorded activity.
  pub record IsRecorded (app_id : ℕ) (s : State W) : Type 0 where
    pub past : last_active app_id s ≤ s.now
    pub latest :
        (target : ℕ) (m : Metadata)
        → metadata_of app_id target s ≡ some m
        → m.last_update ≤ last_active app_id s

  mutate_metadata-IsRecorded :
      (app_id target : ℕ) (f : Metadata → State W → Result (Metadata × State W)) (s s' : State W)
      → ((m m' : Metadata) (t : State W)
          → f m s ≡ ok (m', t)
          → (t.metadatas ≡ s.metadatas)
            × (t.now ≡ s.now)
            × (t.last_at ≡ StorageMap.insert app_id s.now s.last_at))
      → IsRecorded app_id s
      → mutate_metadata app_id target f s ≡ ok s'
      → IsRecorded app_id s'
  unfolding mutate_metadata
  mutate_metadata-IsRecorded app_id target f s s' does h e =
      elim (Option-cases (metadata_of app_id target s)) [
        | inl missing ↦ absurd (ground arith)
        | inr (m, found) ↦ elim (Result-cases (f m s)) [
          | inr (x, failed) ↦ absurd (ground arith)
          | inl ((m', t), done) ↦
              let step = does m m' t done in
              let stored = record m' { last_update = s.now } in
              record {
                past = ground (arith, step, get_or-insert 0 app_id app_id s.now s.last_at);
                latest = λ other n at. ground (
                  arith,
                  step,
                  get_or-insert 0 app_id app_id s.now s.last_at,
                  lookup-insert app_id other app_id target stored s.metadatas,
                  h.latest other n,
                  h.past,
                );
              }
        ]
      ]

module _ {W : Type 0} (cfg : Config W) where
  open cfg use {challenge_timeout}

  -- Once all games of an application count as timed out, each of them has passed its timeout, if
  -- the activity record is up to date.
  pub is_all_timeout-each :
      (app_id target : ℕ) (m : Metadata) (s : State W)
      → IsRecorded app_id s
      → last_active app_id s + challenge_timeout < u32
      → is_all_timeout cfg app_id s.now s ≡ true
      → metadata_of app_id target s ≡ some m
      → is_challenge_timeout cfg m.last_update s ≡ true
  unfolding is_all_timeout
  is_all_timeout-each app_id target m s h bound all found = ground (arith, h.latest target m found)

  -- Uploading keeps the activity record up to date.
  pub next-IsRecorded :
      (app_id who target count : ℕ) (up : ℕ → ℕ → Bool → W → Result (ℕ × ℕ × W)) (s s' : State W)
      → IsRecorded app_id s
      → next cfg app_id who target count up s ≡ ok s'
      → IsRecorded app_id s'
  unfolding next after_upload
  next-IsRecorded app_id who target count up s s' h e =
      mutate_metadata-IsRecorded app_id target (next_step cfg app_id who count up) s s'
        (λ m m' t done. ground arith) h e

  -- A reply does not touch the record: where the last activity lay before the current block, the
  -- game just answered counts as updated later than the record says.
  pub reply_unrecorded :
      (app_id who target total count : ℕ) (up : Bool → ℕ → ℕ → W → Result (ℕ × W)) (s s' : State W)
      → last_active app_id s < s.now
      → reply cfg app_id who target total count up s ≡ ok s'
      → ¬ IsRecorded app_id s'
  unfolding reply
  reply_unrecorded app_id who target total count up s s' old e h =
      let f = reply_step cfg who total count up in
      let (m, m', t, found, done, put) = mutate_metadata-ok app_id target f s s' e in
      let stored = record m' { last_update = s.now } in
      let kept : t.last_at ≡ s.last_at = ground arith in
      let at : metadata_of app_id target s' ≡ some stored =
        ground (arith, lookup-insert app_id target app_id target stored t.metadatas) in
      absurd (ground (arith, kept, h.latest target stored at))
