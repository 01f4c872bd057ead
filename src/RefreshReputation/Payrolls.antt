-- ===== src/RefreshReputation/Payrolls.antt =====
-- pallets/refresh-reputation/src/lib.rs: what the pathfinders are owed, and how `start` and
-- `harvest_ref_all` pay it.
use zero_dao_node.Base.{
  ℕ, ◌+◌, ◌-◌, ◌*◌, ◌<◌, ◌≡◌, inl, inr, true, none, some, List, [], ◌∷◌, ltb, ◌==◌, if◌then◌else◌,
  u32, u128, saturating_add, wrapping_add, arith, ◌∙◌,
}
use zero_dao_node.Base.StorageMap
use zero_dao_node.Base.StorageMap.{
  StorageMap, get_or, get_or-insert, sum_by, sum_by-insert, lookup-remove,
}
use zero_dao_node.Dispatch.{Result, ok, ◌>>=◌, Result-cases}
use zero_dao_node.Primitives.Fee.{with_fee, with_fee_sum}
use zero_dao_node.RefreshReputation.{
  Payroll, State, Config, get_payroll, payroll_amount, next_step, can_harvest,
}
use zero_dao_node.RefreshReputation.Calls.{
  release, staking, drain_payrolls, start, harvest_ref_all, without_payroll,
}

module _ {T W : Type 0} (cfg : Config T W) where
  open cfg use {token, update_staking_amount, perbill, challenge_base, confirmation_period}

  -- The total staked with the tokens.
  abbrev pub staked : State T W → ℕ
  staked s = token.staked s.ledger

  -- What a payroll comes to, without saturation, and all of them.
  abbrev pub due : Payroll → ℕ
  due payroll = update_staking_amount * payroll.count + payroll.total_fee

  abbrev pub owed : State T W → ℕ
  owed s = sum_by due s.payrolls

  pub release-staked :
      (who amount : ℕ) (s s' : State T W)
      → release cfg who amount s ≡ ok s'
      → (staked s' + amount ≡ staked s)
        × (s'.payrolls ≡ s.payrolls)
        × (s'.now ≡ s.now)
        × (s'.records ≡ s.records)
  unfolding release
  release-staked who amount s s' e = elim (Result-cases (token.release who amount s.ledger)) [
    | inl (l, done) ↦ (
      ground (arith, token.staked-release who amount s.ledger l done),
      ground arith,
      ground arith,
      ground arith,
    )
    | inr (x, failed) ↦ absurd (ground arith)
  ]

  -- What staking and releasing leave.
  pub staking-staked :
      (who amount : ℕ) (s s' : State T W)
      → staking cfg who amount s ≡ ok s'
      → (staked s' ≡ saturating_add u128 (staked s) amount)
        × (s'.payrolls ≡ s.payrolls)
        × (s'.now ≡ s.now)
  unfolding staking
  staking-staked who amount s s' e = elim (Result-cases (token.staking who amount s.ledger)) [
    | inl (l, done) ↦ (
      ground (arith, token.staked-staking who amount s.ledger l done),
      ground arith,
      ground arith,
    )
    | inr (x, failed) ↦ absurd (ground arith)
  ]

  -- What the payrolls in a list come to, as `total_amount` counts.
  unfoldable pub payable : StorageMap Payroll → ℕ
  payable [] = 0
  payable ((pathfinder, payroll) ∷ rest) = payroll_amount cfg payroll + payable rest

  -- Payments out of the staked funds, one after the other.
  unfoldable pub pay_all : List (ℕ × ℕ) → T → Result T
  pay_all [] ledger = ok ledger
  pay_all ((who, amount) ∷ rest) ledger = do
    paid ← token.release who amount ledger
    pay_all rest paid

  -- Of what a payroll comes to, the 20 per mille that are the fee.
  abbrev pub fee_of : Payroll → ℕ
  fee_of payroll = perbill.mul_floor (perbill.from_perthousand 20) (payroll_amount cfg payroll)

  unfoldable pub fees : StorageMap Payroll → ℕ
  fees [] = 0
  fees ((pathfinder, payroll) ∷ rest) = fee_of payroll + fees rest

  -- To every pathfinder what its payroll comes to without the fee, and then `last`.
  unfoldable pub wages : StorageMap Payroll → List (ℕ × ℕ) → List (ℕ × ℕ)
  wages [] last = last
  wages ((pathfinder, payroll) ∷ rest) last =
      (pathfinder, payroll_amount cfg payroll - fee_of payroll) ∷ wages rest last

  drain_payrolls-pays :
      (m : StorageMap Payroll) (acc out : ℕ) (last : List (ℕ × ℕ)) (s s' : State T W)
      → drain_payrolls cfg m acc s ≡ ok (out, s')
      → (out ≡ acc + fees m) × (pay_all (wages m last) s.ledger ≡ pay_all last s'.ledger)
  unfolding drain_payrolls release fees wages pay_all with_fee
  drain_payrolls-pays [] acc out last s s' e = (ground arith, ground arith)
  drain_payrolls-pays ((pathfinder, payroll) ∷ rest) acc out last s s' e =
      let split = with_fee perbill (payroll_amount cfg payroll) in
      elim (Result-cases (token.release pathfinder split.1 s.ledger)) [
        | inr (x, failed) ↦ absurd (ground arith)
        | inl (ledger, done) ↦
            let mid = record s { ledger = ledger } in
            let (sum, paid) =
              drain_payrolls-pays rest (acc + split.0) out last mid s' (ground arith) in
            (ground (arith, sum), ground (arith, paid))
      ]

  drain_payrolls-staked :
      (m : StorageMap Payroll) (acc out : ℕ) (s s' : State T W)
      → drain_payrolls cfg m acc s ≡ ok (out, s')
      → (staked s' + acc + payable m ≡ staked s + out)
        × (s'.payrolls ≡ s.payrolls)
        × (s'.now ≡ s.now)
  unfolding drain_payrolls payable
  drain_payrolls-staked [] acc out s s' e = (ground arith, ground arith, ground arith)
  drain_payrolls-staked ((pathfinder, payroll) ∷ rest) acc out s s' e =
      let split = with_fee perbill (payroll_amount cfg payroll) in
      elim (Result-cases (release cfg pathfinder split.1 s)) [
        | inr (x, failed) ↦ absurd (ground arith)
        | inl (mid, done) ↦
            let (paid, same, now, _) = release-staked pathfinder split.1 s mid done in
            let fits : ltb (acc + split.0) u128 ≡ true = ground arith in
            let (sum, kept, same_now) =
              drain_payrolls-staked rest (acc + split.0) out mid s' (ground arith) in
            (
              omega (arith, sum, paid, with_fee_sum perbill (payroll_amount cfg payroll)),
              kept ∙ same,
              same_now ∙ now,
            )
      ]

  -- Starting a round pays every pathfinder what its payroll comes to without the fee, and then the
  -- caller the sum of the fees. The ledger is what just these payments leave, and the staked funds fall
  -- by what all the payrolls come to. No payroll is left, and the current block is the start.
  pub start_lem :
      (who : ℕ) (s s' : State T W)
      → start cfg (ok who) s ≡ ok s'
      → (pay_all (wages s.payrolls ((who, fees s.payrolls) ∷ [])) s.ledger ≡ ok s'.ledger)
        × (staked s' + payable s.payrolls ≡ staked s)
        × (s'.payrolls ≡ [])
        × (s'.started_at ≡ some s.now)
  unfolding start release pay_all
  start_lem who s s' e =
      let cleared = record s { payrolls = [] } in
      elim (Result-cases (drain_payrolls cfg s.payrolls 0 cleared)) [
        | inr (x, failed) ↦ absurd (ground arith)
        | inl ((total, drained), run) ↦
            elim (Result-cases (token.release who total drained.ledger)) [
              | inr (x, failed) ↦ absurd (ground arith)
              | inl (ledger, done) ↦
                  let paid = record drained { ledger = ledger } in
                  let (sum, kept, _) =
                    drain_payrolls-staked s.payrolls 0 total cleared drained run in
                  let (all, pays) =
                    drain_payrolls-pays s.payrolls 0 total ((who, fees s.payrolls) ∷ []) cleared
                      drained run in
                  let (last, same, _, _) = release-staked who total drained paid (ground arith) in
                  (
                    ground (arith, pays, all, done),
                    ground (arith, sum, last),
                    ground (arith, kept, same),
                    ground arith,
                  )
            ]
      ]

  -- The end of an update moves no funds.
  pub next_step-keeps :
      (s : State T W)
      → (staked (next_step cfg s) ≡ staked s) × ((next_step cfg s).payrolls ≡ s.payrolls)
  unfolding next_step
  next_step-keeps s = (ground arith, ground arith)

  next_step-ledger : (s : State T W) → (next_step cfg s).ledger ≡ s.ledger
  unfolding next_step
  next_step-ledger s = ground arith

  -- A harvest comes after the confirmation period since the payroll was changed. It releases what the
  -- payroll comes to, to the pathfinder and nobody else, so that the staked funds fall by that, removes
  -- the payroll and leaves those of others.
  pub harvest_ref_all_lem :
      (pathfinder k : ℕ) (s s' : State T W)
      → harvest_ref_all cfg (ok pathfinder) s ≡ ok s'
      → (token.release pathfinder (payroll_amount cfg (get_payroll pathfinder s)) s.ledger
          ≡ ok s'.ledger)
        × (staked s' + payroll_amount cfg (get_payroll pathfinder s) ≡ staked s)
        × (wrapping_add u32 (get_payroll pathfinder s).update_at confirmation_period < s.now)
        × (StorageMap.lookup k s'.payrolls
            ≡ (if k == pathfinder then none else StorageMap.lookup k s.payrolls))
  unfolding harvest_ref_all can_harvest release
  harvest_ref_all_lem pathfinder k s s' e =
      let moved = next_step cfg s in
      let amount = payroll_amount cfg (get_payroll pathfinder moved) in
      let taken = without_payroll cfg pathfinder moved in
      let (same_stake, same) = next_step-keeps s in
      let same_ledger = next_step-ledger s in
      elim (Result-cases (token.release pathfinder amount moved.ledger)) [
        | inr (x, failed) ↦ absurd (ground arith)
        | inl (ledger, done) ↦
            let paid = record taken { ledger = ledger } in
            let (stake, kept, _, _) =
              release-staked pathfinder amount taken paid (ground (arith, done)) in
            (
              ground (arith, done, same_ledger, same),
              ground (arith, stake, same_stake, same),
              ground (arith, same),
              ground (arith, kept, same, lookup-remove k pathfinder s.payrolls),
            )
      ]
