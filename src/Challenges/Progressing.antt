-- ===== src/Challenges/Progressing.antt =====
-- pallets/challenges/src/lib.rs: how much of the data of the games is there, operation by operation.
use zero_dao_node.Base.{ℕ, ◌≡◌, refl, inl, inr, Option, some, Option-cases, arith}
use zero_dao_node.Base.DoubleMap
use zero_dao_node.Base.DoubleMap.{lookup-insert, lookup-remove}
use zero_dao_node.Dispatch.{ok, Result-cases}
use zero_dao_node.Primitives.Metadata.{Metadata, ChallengeStatus, set_status}
use zero_dao_node.Challenges.{
  Config, State, metadata_of, or_default, set_metadata, set_status_of, release, shares_of,
}
use zero_dao_node.Challenges.Methods.{harvest, launch, pay_out, release_some}
use zero_dao_node.Challenges.Launch.{launched, launch-ok}
use zero_dao_node.Challenges.Payout.{harvest-ok}
use zero_dao_node.Challenges.Stages.{Fits, Step, Step-Follows, Step-found}

module _ {W : Type 0} where
  -- No game has more data than it asks for.
  unfoldable pub AllFit : State W → Type 0
  AllFit s = (app_id target : ℕ) (m : Metadata) → metadata_of app_id target s ≡ some m → Fits m

  AllFit-at :
      (s : State W) (app_id target : ℕ) (m : Metadata)
      → AllFit s
      → metadata_of app_id target s ≡ some m
      → Fits m
  unfolding AllFit
  AllFit-at s app_id target m all found = all app_id target m found

  AllFit-insert :
      (app_id target : ℕ) (m : Metadata) (s s' : State W)
      → AllFit s
      → Fits m
      → s'.metadatas ≡ DoubleMap.insert app_id target m s.metadatas
      → AllFit s'
  unfolding AllFit
  AllFit-insert app_id target m s s' all fits stored a t n found =
      ground (arith, all a t n, fits, stored, lookup-insert a t app_id target m s.metadatas)

  AllFit-remove :
      (app_id target : ℕ) (s s' : State W)
      → AllFit s
      → s'.metadatas ≡ DoubleMap.remove app_id target s.metadatas
      → AllFit s'
  unfolding AllFit
  AllFit-remove app_id target s s' all stored a t n found =
      ground (arith, all a t n, stored, lookup-remove a t app_id target s.metadatas)

module _ {W : Type 0} (cfg : Config W) where
  open cfg use {token, challenge_staking_amount}

  -- An operation of the pallet, or the passing of blocks. What a pallet launches a game with, and sets
  -- one to, has no more data than it asks for.
  pub data Turn (s : State W) : State W → Type 0 where
    plays : {out : State W} (app_id target : ℕ) → Step cfg app_id target s out → Turn s out
    launches :
        {out : State W} (app_id target : ℕ) (given : Metadata)
        → Fits given
        → launch cfg app_id target given s ≡ ok out
        → Turn s out
    harvests :
        {out : State W} (who app_id target : ℕ) (o : Option ℕ)
        → harvest cfg who app_id target s ≡ ok (o, out)
        → Turn s out
    marks :
        (app_id target : ℕ) (status : ChallengeStatus)
        → Turn s (set_status_of app_id target status s)
    sets : (app_id target : ℕ) (m : Metadata) → Fits m → Turn s (set_metadata app_id target m s)
    waits : (later : ℕ) → Turn s (record s { now = later })

  pub data Reach (start : State W) : State W → Type 0 where
    here : Reach start start
    then : {mid out : State W} → Reach start mid → Turn mid out → Reach start out

  release_some-kept :
      (who amount : ℕ) (s s' : State W)
      → release_some cfg who amount s ≡ ok s'
      → s'.metadatas ≡ s.metadatas
  unfolding release
  release_some-kept who amount s s' e = ground arith

  pay_out-kept :
      (who fee pathfinder challenger : ℕ) (m : Metadata) (s s' : State W)
      → pay_out cfg who m fee pathfinder challenger s ≡ ok s'
      → s'.metadatas ≡ s.metadatas
  unfolding pay_out
  pay_out-kept who fee pathfinder challenger m s s' e =
      elim (Result-cases (release_some cfg who fee s)) [
        | inr (x, failed) ↦ absurd (ground arith)
        | inl (s1, one) ↦ elim (Result-cases (release_some cfg m.pathfinder pathfinder s1)) [
          | inr (x, failed) ↦ absurd (ground arith)
          | inl (s2, two) ↦ ground (
            arith,
            release_some-kept who fee s s1 one,
            release_some-kept m.pathfinder pathfinder s1 s2 two,
            release_some-kept m.challenger challenger s2 s',
          )
        ]
      ]

  Turn-AllFit : {s s' : State W} → Turn s s' → AllFit s → AllFit s'
  unfolding set_metadata set_status_of AllFit
  Turn-AllFit {s} {s'} (Turn.plays app_id target step) all =
      elim (Option-cases (metadata_of app_id target s)) [
        | inl missing ↦ absurd (Step-found cfg step missing)
        | inr (m, found) ↦
            let (m', ((status, fits), stored)) =
              Step-Follows cfg m step found (AllFit-at s app_id target m all found) in
            AllFit-insert app_id target m' s s' all fits stored
      ]
  Turn-AllFit {s} {s'} (Turn.launches app_id target given fits e) all =
      let (w, done, world, stored) = launch-ok cfg app_id target given s s' e in
      AllFit-insert app_id target (launched cfg (or_default (metadata_of app_id target s)) given s)
        s s' all fits stored
  Turn-AllFit {s} {s'} (Turn.harvests who app_id target o e) all =
      let (m, fee, awards, p, paid, world, found, sum, gone) =
        harvest-ok cfg who app_id target o s s' e in
      AllFit-remove app_id target s s' all (
        ground (
          arith,
          gone,
          pay_out-kept who fee (shares_of m m.status awards).0 (shares_of m m.status awards).1 m s p
              paid,
        ))
  Turn-AllFit {s} (Turn.marks app_id target status) all =
      let m = or_default (metadata_of app_id target s) in
      let fits : Fits m = elim (Option-cases (metadata_of app_id target s)) [
        | inl missing ↦ ground (arith, missing)
        | inr (n, found) ↦ ground (arith, found, AllFit-at s app_id target n all found)
      ] in
      AllFit-insert app_id target (set_status m status) s (set_status_of app_id target status s) all
        fits refl
  Turn-AllFit {s} (Turn.sets app_id target m fits) all =
      AllFit-insert app_id target m s (set_metadata app_id target m s) all fits refl
  Turn-AllFit (Turn.waits later) all = all

  -- Whatever operations succeed, in any order, where games are launched and set with data that fit: from
  -- games of which none has more data than it asks for, none ever has.
  pub Reach-AllFit : {start s : State W} → Reach start s → AllFit start → AllFit s
  Reach-AllFit Reach.here all = all
  Reach-AllFit (Reach.then before turn) all = Turn-AllFit turn (Reach-AllFit before all)
