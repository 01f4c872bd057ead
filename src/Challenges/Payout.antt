-- ===== src/Challenges/Payout.antt =====
-- pallets/challenges/src/lib.rs, `harvest`, against the table of beneficiaries in
-- pallets/support/src/challenges.rs: who is paid, how much, and when.
use zero_dao_node.Base.{
  ℕ, ◌+◌, ◌-◌, ◌/◌, ◌<◌, ◌≤◌, ◌≡◌, inl, inr, Bool, true, false, ◌&&◌, ◌||◌, Option, some, none,
  Option-cases, arith, ◌==◌, if◌then◌else◌, u64, u32,
}
use zero_dao_node.Base.DoubleMap
use zero_dao_node.Base.DoubleMap.{lookup-remove, sum_by-remove, sum_by-remove_le, IsUnique}
use zero_dao_node.Dispatch.{ok, Result-cases}
use zero_dao_node.Primitives.Fee.{
  with_fee_sum, checked_with_fee, is_allowed_sweeper, sweeper_period,
}
use zero_dao_node.Primitives.Metadata.{
  Metadata, ChallengeStatus, is_all_done, is_challenger, is_pathfinder,
}
use zero_dao_node.Challenges.{Config, State, shares_of, metadata_of, remove, checked_sweeper_fee}
use zero_dao_node.Challenges.Methods.{harvest, release_some, pay_out}
use zero_dao_node.Challenges.Accounting.{amount, pooled, staked, release_balance}

-- The table in the documentation of the trait.
pub data Beneficiary : Type 0 where
  pathfinder challenger both : Beneficiary

unfoldable pub beneficiary : ChallengeStatus → Bool → Bool → Beneficiary
beneficiary ChallengeStatus.free done joint = Beneficiary.pathfinder
beneficiary ChallengeStatus.reply true joint = Beneficiary.pathfinder
beneficiary ChallengeStatus.reply false joint = Beneficiary.challenger
beneficiary ChallengeStatus.examine done joint = Beneficiary.challenger
beneficiary ChallengeStatus.evidence true joint = Beneficiary.challenger
beneficiary ChallengeStatus.evidence false joint = Beneficiary.pathfinder
beneficiary ChallengeStatus.arbitral done true = Beneficiary.both
beneficiary ChallengeStatus.arbitral done false = Beneficiary.pathfinder

-- What a beneficiary leaves to pathfinder and challenger.
unfoldable pub split : Beneficiary → ℕ → ℕ × ℕ
split Beneficiary.pathfinder awards = (awards, 0)
split Beneficiary.challenger awards = (0, awards)
split Beneficiary.both awards = (awards / 2, awards - awards / 2)

-- The awards go to the beneficiary of the table, an equal split when both benefit (the odd unit to
-- the challenger), and nothing of them is lost.
pub shares_of-beneficiary :
    (m : Metadata) (status : ChallengeStatus) (awards : ℕ)
    → let (p, c) = split (beneficiary status (is_all_done m) m.joint_benefits) awards in
      ((shares_of m status awards).0 ≡ p) × ((shares_of m status awards).1 ≡ c) × (p + c ≡ awards)
unfolding shares_of beneficiary split
shares_of-beneficiary m ChallengeStatus.free awards = ground arith
shares_of-beneficiary m ChallengeStatus.examine awards = ground arith
shares_of-beneficiary m ChallengeStatus.reply awards = ground arith
shares_of-beneficiary m ChallengeStatus.evidence awards = ground arith
shares_of-beneficiary m ChallengeStatus.arbitral awards = ground arith

shares_of_sum :
    (m : Metadata) (status : ChallengeStatus) (awards : ℕ)
    → (shares_of m status awards).0 + (shares_of m status awards).1 ≡ awards
shares_of_sum m status awards = omega (arith, shares_of-beneficiary m status awards)

module _ {W : Type 0} (cfg : Config W) where
  open cfg use {token, perbill, challenge_timeout}

  checked_sweeper_fee_sum :
      (m : Metadata) (who total : ℕ) (s : State W) (fee awards : ℕ)
      → checked_sweeper_fee cfg m who total s ≡ ok (fee, awards)
      → fee + awards ≡ total
  unfolding checked_sweeper_fee checked_with_fee
  checked_sweeper_fee_sum m who total s fee awards e = ground (arith, with_fee_sum perbill total)

  release_some_balance :
      (who n : ℕ) (s s' : State W)
      → release_some cfg who n s ≡ ok s'
      → (s'.metadatas ≡ s.metadatas) × (staked cfg s' + n ≡ staked cfg s)
  release_some_balance who n s s' e = ground (arith, release_balance cfg who n s s')

  pay_out_balance :
      (who fee p c : ℕ) (m : Metadata) (s s' : State W)
      → pay_out cfg who m fee p c s ≡ ok s'
      → (s'.metadatas ≡ s.metadatas) × (staked cfg s' + (fee + p + c) ≡ staked cfg s)
  unfolding pay_out
  pay_out_balance who fee p c m s s' e = elim (Result-cases (release_some cfg who fee s)) [
    | inr (x, failed) ↦ ground arith
    | inl (s1, first) ↦ elim (Result-cases (release_some cfg m.pathfinder p s1)) [
      | inr (x, failed) ↦ ground arith
      | inl (s2, second) ↦ ground (
        arith,
        release_some_balance who fee s s1 first,
        release_some_balance m.pathfinder p s1 s2 second,
        release_some_balance m.challenger c s2 s',
      )
    ]
  ]

  -- What a successful harvest went through.
  pub harvest-ok :
      (who app_id target : ℕ) (o : Option ℕ) (s s' : State W)
      → harvest cfg who app_id target s ≡ ok (o, s')
      → (m : Metadata) × (fee awards : ℕ) × (p : State W) × (pay_out cfg who m fee
            (shares_of m m.status awards).0
            (shares_of m m.status awards).1
            s
          ≡ ok p)
        × (p.world ≡ s'.world)
        × (metadata_of app_id target s ≡ some m)
        × (fee + awards ≡ amount m)
        × (s'.metadatas ≡ DoubleMap.remove app_id target p.metadatas)
  unfolding harvest remove
  harvest-ok who app_id target o s s' e = elim (Option-cases (metadata_of app_id target s)) [
    | inl missing ↦ absurd (ground arith)
    | inr (m, found) ↦ elim (Result-cases (checked_sweeper_fee cfg m who (amount m) s)) [
      | inr (x, failed) ↦ absurd (ground arith)
      | inl ((fee, awards), checked) ↦
          let shares = shares_of m m.status awards in
          elim (Result-cases (pay_out cfg who m fee shares.0 shares.1 s)) [
            | inr (x, failed) ↦ absurd (ground arith)
            | inl (p, paid) ↦ (
              m,
              fee,
              awards,
              p,
              paid,
              ground arith,
              found,
              checked_sweeper_fee_sum m who (amount m) s fee awards checked,
              ground arith,
            )
          ]
    ]
  ]

  -- A harvest takes from the staked total and from the pools alike; where a game stood more than once,
  -- all of its pools go.
  pub harvest_covers :
      (who app_id target : ℕ) (o : Option ℕ) (s s' : State W)
      → harvest cfg who app_id target s ≡ ok (o, s')
      → staked cfg s + pooled s' ≤ staked cfg s' + pooled s
  harvest_covers who app_id target o s s' e =
      let (m, fee, awards, p, paid, world, found, sum, stored) =
        harvest-ok who app_id target o s s' e in
      let shares = shares_of m m.status awards in
      ground (
        arith,
        shares_of_sum m m.status awards,
        pay_out_balance who fee shares.0 shares.1 m s p paid,
        sum_by-remove_le amount app_id target s.metadatas,
      )

  -- A harvest pays out the whole pool of the game, to the unit, and removes the game; the other
  -- games stay, and the staked total and the pools stay in step.
  pub harvest_pays :
      (who app_id target a t : ℕ) (m : Metadata) (o : Option ℕ) (s s' : State W)
      → IsUnique s.metadatas
      → metadata_of app_id target s ≡ some m
      → harvest cfg who app_id target s ≡ ok (o, s')
      → (staked cfg s' + amount m ≡ staked cfg s)
        × (pooled s' + amount m ≡ pooled s)
        × (metadata_of a t s' ≡ (if a == app_id && t == target then none else metadata_of a t s))
  harvest_pays who app_id target a t m o s s' unique found e =
      let (m', fee, awards, p, paid, _, found', sum, stored) =
        harvest-ok who app_id target o s s' e in
      let shares = shares_of m' m'.status awards in
      ground (
        arith,
        found,
        found',
        sum,
        stored,
        shares_of_sum m' m'.status awards,
        pay_out_balance who fee shares.0 shares.1 m' s p paid,
        sum_by-remove amount app_id target s.metadatas unique,
        lookup-remove a t app_id target s.metadatas,
      )

  -- A harvest succeeds only after the wait: the challenge timeout for the challenger and the
  -- pathfinder, the sweeper's period for everybody else.
  pub harvest_waits :
      (who app_id target : ℕ) (m : Metadata) (o : Option ℕ) (s s' : State W)
      → metadata_of app_id target s ≡ some m
      → challenge_timeout + m.last_update < u32
      → m.last_update + sweeper_period < u64
      → harvest cfg who app_id target s ≡ ok (o, s')
      → m.last_update
          + (if is_challenger m who || is_pathfinder m who
              then challenge_timeout
              else sweeper_period)
        < s.now
  unfolding harvest checked_sweeper_fee checked_with_fee is_allowed_sweeper
  harvest_waits who app_id target m o s s' found h k e = ground arith
