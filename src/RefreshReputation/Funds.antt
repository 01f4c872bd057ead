-- ===== src/RefreshReputation/Funds.antt =====
-- pallets/refresh-reputation/src/lib.rs: the staked funds beside what the pathfinders are owed and the
-- pools of the games, when payrolls and the pools are paid out.
use zero_dao_node.Base.{ℕ, ◌+◌, ◌≤◌, ◌<◌, ◌≡◌, ◌∙◌, inl, inr, [], ◌∷◌, arith, u128}
use zero_dao_node.Base.StorageMap.{StorageMap, sum_by, sum_by-take_le}
use zero_dao_node.Dispatch.{ok, Result-cases}
use zero_dao_node.Primitives.Fee.{with_fee, with_fee_sum, checked_with_fee}
use zero_dao_node.Support.Framed.{Framed, LaunchKeeps, StatusKeeps}
use zero_dao_node.Support.Backed.{Backed}
use zero_dao_node.RefreshReputation.{
  Payroll, State, Config, app_id, default_payroll, get_payroll, payroll_amount, next_step,
  can_harvest,
}
use zero_dao_node.RefreshReputation.Calls
use zero_dao_node.RefreshReputation.Calls.{
  release, staking, refresh_all, drain_payrolls, disputed, billed_less, record_or_default,
  without_payroll, without_records,
}
use zero_dao_node.RefreshReputation.Payrolls.{
  staked, due, owed, payable, release-staked, start_lem, next_step-keeps,
}

module _ {T W : Type 0} (cfg : Config T W) (pool others : W → ℕ) where
  open cfg use {reputation, trust_base, challenge_base}

  -- What the games hold.
  abbrev pub pooled : State T W → ℕ
  pooled s = pool s.world

  -- What is to be paid out of the staked funds, with `others`, what is promised by other pallets.
  abbrev pub claims : State T W → ℕ
  claims s = pooled s + owed cfg s + others s.world

  -- The claims grow by no more than the staked total.
  abbrev pub Funded : State T W → State T W → Type 0
  Funded s s' = staked cfg s + claims s' ≤ staked cfg s' + claims s

  -- The payrolls and the promises of others stay.
  abbrev pub Steady : State T W → State T W → Type 0
  Steady s s' = (s'.payrolls ≡ s.payrolls) × (others s'.world ≡ others s.world)

  -- The pallets beside this one leave a measure alone.
  pub record Stays (measure : W → ℕ) : Type 0 where
    pub at-set_last_refresh_at : (w : W) → measure (reputation.set_last_refresh_at w) ≡ measure w
    pub at-set_free : (w : W) → measure (reputation.set_free w) ≡ measure w
    pub at-remove_all_tmp : (w : W) → measure (trust_base.remove_all_tmp w) ≡ measure w
    pub at-refresh_reputation :
        (user_score : ℕ × ℕ) (w w' : W)
        → reputation.refresh_reputation user_score w ≡ ok w'
        → measure w' ≡ measure w

  -- What the pallet needs of the games, and of the pallets beside them, which leave the games alone.
  pub record Funding (stake : ℕ) : Type 0 where
    pub backed : Backed (staked cfg) pooled stake challenge_base
    pub steady : Framed Steady Steady challenge_base
    pub steady_launch : LaunchKeeps Steady challenge_base
    pub steady_status : StatusKeeps Steady challenge_base
    pub pool_stays : Stays pool
    pub others_stay : Stays others
    pub at-mutate_reputation :
        (who score : ℕ) (w : W) → others (reputation.mutate_reputation who score w) ≡ others w

module _ {T W : Type 0} (cfg : Config T W) (pool others : W → ℕ) (stake : ℕ)
    (funding : Funding cfg pool others stake) where
  open cfg use {token, reputation, trust_base, challenge_base, perbill, update_staking_amount}

  next_step-claims :
      (s : State T W)
      → (pooled cfg pool others (next_step cfg s) ≡ pooled cfg pool others s)
        × (others (next_step cfg s).world ≡ others s.world)
  unfolding next_step
  next_step-claims s = (
    ground (
      arith,
      funding.pool_stays.at-set_free (trust_base.remove_all_tmp s.world),
      funding.pool_stays.at-remove_all_tmp s.world,
    ),
    ground (
      arith,
      funding.others_stay.at-set_free (trust_base.remove_all_tmp s.world),
      funding.others_stay.at-remove_all_tmp s.world,
    ),
  )

  release-world :
      (who amount : ℕ) (s s' : State T W) → release cfg who amount s ≡ ok s' → s'.world ≡ s.world
  unfolding release
  release-world who amount s s' e = ground arith

  drain_payrolls-world :
      (m : StorageMap Payroll) (acc out : ℕ) (s s' : State T W)
      → drain_payrolls cfg m acc s ≡ ok (out, s')
      → s'.world ≡ s.world
  unfolding drain_payrolls
  drain_payrolls-world [] acc out s s' e = ground arith
  drain_payrolls-world ((pathfinder, payroll) ∷ rest) acc out s s' e =
      let split = with_fee perbill (payroll_amount cfg payroll) in
      elim (Result-cases (release cfg pathfinder split.1 s)) [
        | inr (x, failed) ↦ absurd (ground arith)
        | inl (mid, done) ↦
            drain_payrolls-world rest (acc + split.0) out mid s' (ground arith)
            ∙ release-world pathfinder split.1 s mid done
      ]

  -- What is paid is at most what is due.
  payroll_amount-le : (p : Payroll) → payroll_amount cfg p ≤ due cfg p
  unfolding payroll_amount
  payroll_amount-le p = ground arith

  payable-le : (m : StorageMap Payroll) → payable cfg m ≤ sum_by (due cfg) m
  unfolding payable sum_by
  payable-le [] = omega arith
  payable-le ((pathfinder, payroll) ∷ rest) =
      omega (arith, payroll_amount-le payroll, payable-le rest)

  owed-nil : (s : State T W) → s.payrolls ≡ [] → owed cfg s ≡ 0
  unfolding sum_by
  owed-nil s gone = ground (arith, gone)

  pub start-Funded :
      (who : ℕ) (s s' : State T W)
      → Calls.start cfg (ok who) s ≡ ok s'
      → Funded cfg pool others s s'
  unfolding Calls.start
  start-Funded who s s' e =
      let cleared = record s { payrolls = [] } in
      elim (Result-cases (drain_payrolls cfg s.payrolls 0 cleared)) [
        | inr (x, failed) ↦ absurd (ground arith)
        | inl ((total, drained), run) ↦ elim (Result-cases (release cfg who total drained)) [
          | inr (x, failed) ↦ absurd (ground arith)
          | inl (paid, done) ↦
              let (_, sum, gone, _) = start_lem cfg who s s' e in
              let same : s'.world ≡ s.world = ground (
                arith,
                drain_payrolls-world s.payrolls 0 total cleared drained run,
                release-world who total drained paid done,
              ) in
              let none_left : owed cfg s' ≡ 0 = owed-nil s' gone in
              ground (arith, sum, none_left, same, payable-le s.payrolls)
        ]
      ]

  pub harvest_ref_all-Funded :
      (pathfinder : ℕ) (s s' : State T W)
      → Calls.harvest_ref_all cfg (ok pathfinder) s ≡ ok s'
      → Funded cfg pool others s s'
  unfolding Calls.harvest_ref_all can_harvest
  harvest_ref_all-Funded pathfinder s s' e =
      let moved = next_step cfg s in
      let payroll = get_payroll pathfinder moved in
      let taken = without_payroll cfg pathfinder moved in
      elim (Result-cases (release cfg pathfinder (payroll_amount cfg payroll) taken)) [
        | inr (x, failed) ↦ absurd (ground arith)
        | inl (paid, done) ↦
            let (stake, kept, _, _) =
              release-staked cfg pathfinder (payroll_amount cfg payroll) taken paid done in
            ground (
              arith,
              stake,
              kept,
              release-world pathfinder (payroll_amount cfg payroll) taken paid done,
              next_step-keeps cfg s,
              next_step-claims s,
              payroll_amount-le payroll,
              sum_by-take_le (due cfg) default_payroll pathfinder s.payrolls (omega arith),
            )
      ]

  pub harvest_ref_all_sweeper-Funded :
      (sweeper pathfinder : ℕ) (s s' : State T W)
      → Calls.harvest_ref_all_sweeper cfg (ok sweeper) pathfinder s ≡ ok s'
      → Funded cfg pool others s s'
  unfolding Calls.harvest_ref_all_sweeper can_harvest checked_with_fee
  harvest_ref_all_sweeper-Funded sweeper pathfinder s s' e =
      let moved = next_step cfg s in
      let payroll = get_payroll pathfinder moved in
      let amount = payroll_amount cfg payroll in
      let split = with_fee perbill amount in
      let taken = without_records cfg pathfinder (without_payroll cfg pathfinder moved) in
      elim (Result-cases (release cfg sweeper split.0 taken)) [
        | inr (x, failed) ↦ absurd (ground arith)
        | inl (swept, done) ↦ elim (Result-cases (release cfg pathfinder split.1 swept)) [
          | inr (x, failed) ↦ absurd (ground arith)
          | inl (paid, last) ↦
              let (fee, kept, _, _) = release-staked cfg sweeper split.0 taken swept done in
              let (rest, left, _, _) = release-staked cfg pathfinder split.1 swept paid last in
              ground (
                arith,
                fee,
                kept,
                rest,
                left,
                release-world sweeper split.0 taken swept done,
                release-world pathfinder split.1 swept paid last,
                next_step-keeps cfg s,
                next_step-claims s,
                with_fee_sum perbill amount,
                payroll_amount-le payroll,
                sum_by-take_le (due cfg) default_payroll pathfinder s.payrolls (omega arith),
              )
        ]
      ]

  pub harvest_challenge-Funded :
      (who target : ℕ) (s s' : State T W)
      → staked cfg s + stake < u128
      → Calls.harvest_challenge cfg (ok who) target s ≡ ok s'
      → Funded cfg pool others s s'
  unfolding Calls.harvest_challenge
  harvest_challenge-Funded who target s s' room e =
      let moved = next_step cfg s in
      elim (Result-cases (challenge_base.harvest who app_id target moved)) [
        | inr (x, failed) ↦ absurd (ground arith)
        | inl ((o, t), done) ↦
            let (same, payrolls) = next_step-keeps cfg s in
            let covered =
              funding.backed.framed.harvest_keeps who app_id target o moved t done
                (ground (arith, same, room)) in
            ground (
              arith,
              same,
              payrolls,
              next_step-claims s,
              covered,
              funding.steady.harvest_keeps who app_id target o moved t done,
            )
      ]
