-- ===== src/RefreshReputation/Billing.antt =====
-- pallets/refresh-reputation/src/lib.rs: how a refresh bills the pathfinder, and what a challenge takes
-- off the bill.
use zero_dao_node.Base.{
  ℕ, ◌+◌, ◌-◌, ◌*◌, ◌<◌, ◌≤◌, ◌≡◌, inl, inr, some, false, List, [], ◌∷◌, length, ◌==◌,
  if◌then◌else◌, u32, u128, saturating_add, arith, Option-cases, ◌∙◌, ap,
}
use native.Mathlib.Nat.{mul-add}
use zero_dao_node.Base.StorageMap
use zero_dao_node.Base.StorageMap.{
  StorageMap, get_or, get_or-insert, sum_by, sum_by-insert, lookup-remove,
}
use zero_dao_node.Base.DoubleMap
use zero_dao_node.Dispatch.{ok, Result-cases}
use zero_dao_node.RefreshReputation.{
  Payroll, State, Config, app_id, default_payroll, get_payroll, mutate_payroll, mutate_record,
  share, do_refresh, Event, deposit_event,
}
use zero_dao_node.RefreshReputation.Calls.{
  staking, refresh_all, refresh, challenge, disputed, billed_less, record_or_default,
}
use zero_dao_node.Primitives.Metadata.{ChallengeStatus}
use zero_dao_node.RefreshReputation.Payrolls.{staked, due, owed, staking-staked}

module _ {T W : Type 0} (cfg : Config T W) where
  open cfg use {token, update_staking_amount, perbill, challenge_base, confirmation_period}

  -- A refresh of one user stakes the fee, where nothing saturates, and writes the record.
  do_refresh-staked :
      (pathfinder at fee : ℕ) (user_score : ℕ × ℕ) (s s' : State T W)
      → do_refresh cfg pathfinder user_score at s ≡ ok (s', fee)
      → (staked cfg s' ≡ saturating_add u128 (staked cfg s) fee)
        × (s'.payrolls ≡ s.payrolls)
        × (s'.now ≡ s.now)
  unfolding do_refresh share mutate_record
  do_refresh-staked pathfinder at fee user_score s s' e =
      let targets = cfg.trust_base.get_trust_old user_score.0 in
      elim (Result-cases (cfg.reputation.refresh_reputation user_score s.world)) [
        | inr (x, failed) ↦ absurd (ground arith)
        | inl (w, done) ↦ (
          ground (arith, token.staked-share user_score.0 (targets w) s.ledger),
          ground arith,
          ground arith,
        )
      ]

  refresh_all-staked :
      (pathfinder acc out : ℕ) (user_scores : List (ℕ × ℕ)) (s s' : State T W)
      → staked cfg s' + 1 < u128
      → refresh_all cfg pathfinder user_scores acc s ≡ ok (out, s')
      → (staked cfg s' + acc ≡ staked cfg s + out)
        × (acc ≤ out)
        × (s'.payrolls ≡ s.payrolls)
        × (s'.now ≡ s.now)
  unfolding refresh_all
  refresh_all-staked pathfinder acc out [] s s' room e =
      (ground arith, ground arith, ground arith, ground arith)
  refresh_all-staked pathfinder acc out (user_score ∷ user_scores) s s' room e =
      elim (Result-cases (do_refresh cfg pathfinder user_score s.now s)) [
        | inr (x, failed) ↦ absurd (ground arith)
        | inl ((mid, fee), done) ↦
            let (one, same, now) = do_refresh-staked pathfinder s.now fee user_score s mid done in
            let (sum, grown, kept, same_now) =
              refresh_all-staked pathfinder (acc + fee) out user_scores mid s' room
                (ground arith) in
            (
              ground (arith, one, sum, grown, room),
              omega (arith, grown),
              kept ∙ same,
              same_now ∙ now,
            )
      ]

  -- A refresh bills the pathfinder for the users and the fees, at the current block, and stakes just
  -- that on top of what is staked, where the stakes fit and the number of users is one of 32 bits: so
  -- much more is owed as is staked. The payrolls of others do not change.
  pub refresh_lem :
      (pathfinder k : ℕ) (user_scores : List (ℕ × ℕ)) (s s' : State T W)
      → length user_scores < u32
      → staked cfg s' + 1 < u128
      → refresh cfg (ok pathfinder) user_scores s ≡ ok s'
      → (staked cfg s' + owed cfg s ≡ staked cfg s + owed cfg s')
        × ((get_payroll pathfinder s').count
            ≡ (get_payroll pathfinder s).count + length user_scores)
        × ((get_payroll pathfinder s').update_at ≡ s.now)
        × (get_payroll k s'
            ≡ (if k == pathfinder then get_payroll pathfinder s' else get_payroll k s))
  unfolding refresh mutate_payroll
  refresh_lem pathfinder k user_scores s s' short room e =
      let count = length user_scores in
      let amount = update_staking_amount * count in
      elim (Result-cases (staking cfg pathfinder amount s)) [
        | inr (x, failed) ↦ absurd (ground arith)
        | inl (mid, paid) ↦ elim (Result-cases (refresh_all cfg pathfinder user_scores 0 mid)) [
          | inr (x, failed) ↦ absurd (ground arith)
          | inl ((total, done), run) ↦
              let f = get_payroll pathfinder done in
              let updated : Payroll = record {
                count = f.count + count;
                total_fee = f.total_fee + total;
                update_at = s.now;
              } in
              let (stake, same, _) = staking-staked cfg pathfinder amount s mid paid in
              let same_ledger : staked cfg s' ≡ staked cfg done = ground arith in
              let (sum, _, kept, now) =
                refresh_all-staked pathfinder 0 total user_scores mid done (ground arith) run in
              let stored : s'.payrolls ≡ StorageMap.insert pathfinder updated s.payrolls =
                ground (arith, same, kept, now) in
              let at = get_or-insert default_payroll k pathfinder updated s.payrolls in
              let self = get_or-insert default_payroll pathfinder pathfinder updated s.payrolls in
              let bill = sum_by-insert (due cfg) default_payroll pathfinder updated s.payrolls in
              let owed_at : owed cfg s' + due cfg (get_payroll pathfinder s)
                  ≡ owed cfg s + due cfg updated =
                ground (arith, stored, bill (omega arith)) in
              let grown : due cfg updated ≡ due cfg (get_payroll pathfinder s) + amount + total =
                ground (
                  arith,
                  same,
                  kept,
                  mul-add update_staking_amount (get_payroll pathfinder s).count count,
                ) in
              (
                ground (arith, owed_at, grown, stake, sum, room, same_ledger),
                ground (arith, stored, self, same, kept),
                ground (arith, stored, self),
                ground (arith, stored, self, at),
              )
        ]
      ]

  -- The fee in the record of the pathfinder for the target.
  abbrev pub taken_fee : ℕ → ℕ → State T W → ℕ
  taken_fee pathfinder target s =
      (record_or_default (DoubleMap.lookup pathfinder target s.records)).fee

  -- The storage from which a game is launched: without the record of the refresh, and with one refresh
  -- and its fee off the payroll of the pathfinder.
  abbrev pub unbilled : ℕ → ℕ → State T W → State T W
  unbilled pathfinder target s =
      let f = get_payroll pathfinder s in
      record s {
        records = DoubleMap.remove pathfinder target s.records;
        payrolls =
            StorageMap.insert pathfinder
              (record f {
                total_fee = f.total_fee - taken_fee pathfinder target s;
                count = f.count - 1;
              })
              s.payrolls;
      }

  -- What a challenge leaves, where the reputation of the target was `old` and the launch led to
  -- `launched`.
  pub record Disputed (challenger target pathfinder quantity old : ℕ) (s launched s' : State T W)
      : Type 0 where
    pub disputes : cfg.reputation.get_reputation_new target s.world ≡ some old
    pub launches :
        challenge_base.launch app_id target
          (record {
            pool = record { staking = 0; earnings = taken_fee pathfinder target s };
            joint_benefits = false;
            progress = record { total = quantity; done = 0 };
            last_update = 0;
            remark = old;
            score = 0;
            pathfinder = pathfinder;
            status = ChallengeStatus.examine;
            challenger = challenger;
          })
          (unbilled pathfinder target s)
        ≡ ok launched
    pub ends :
        s'
        ≡ deposit_event
            (Event.challenge challenger target)
            (challenge_base.set_status app_id target ChallengeStatus.arbitral launched)
    pub less :
        owed cfg (unbilled pathfinder target s)
          + update_staking_amount
          + taken_fee pathfinder target s
        ≡ owed cfg s

  -- A challenge takes the record of one refresh, its stake and its fee off what the pathfinder is owed,
  -- and from there launches a game about the current reputation of the target, whose pool is given the
  -- fee and nothing of the stake. The storage that it leaves is the one of the launch, with the game
  -- in arbitration and the event. The payroll has a refresh and the fee.
  pub challenge_lem :
      (challenger target pathfinder quantity score : ℕ) (s s' : State T W)
      → 1 ≤ (get_payroll pathfinder s).count
      → taken_fee pathfinder target s ≤ (get_payroll pathfinder s).total_fee
      → challenge cfg (ok challenger) target pathfinder quantity score s ≡ ok s'
      → (old : ℕ) × (launched : State T W) × Disputed challenger target pathfinder quantity old s
          launched s'
  unfolding challenge
  challenge_lem challenger target pathfinder quantity score s s' some_count some_fee e =
      let fee = taken_fee pathfinder target s in
      let f = get_payroll pathfinder s in
      let payroll = billed_less f fee in
      elim (Option-cases (cfg.reputation.get_reputation_new target s.world)) [
        | inl none_new ↦ absurd (ground arith)
        | inr (old, seen) ↦
            elim (Result-cases (
              challenge_base.launch app_id target (disputed challenger pathfinder quantity old fee)
                (unbilled pathfinder target s))) [
                  | inr (x, failed) ↦ absurd (ground arith)
                  | inl (launched, done) ↦
                      let bill =
                        sum_by-insert (due cfg) default_payroll pathfinder payroll s.payrolls
                          (omega arith) in
                      let less : due cfg payroll + update_staking_amount + fee ≡ due cfg f =
                        let back : f.count - 1 + 1 ≡ f.count = omega arith in
                        ground (
                          arith,
                          mul-add update_staking_amount (f.count - 1) 1,
                          ap (λ (n : ℕ). update_staking_amount * n) back,
                        ) in
                      (
                        old,
                        launched,
                        record {
                          disputes = seen;
                          launches = done;
                          ends = ground arith;
                          less = omega (arith, bill, less);
                        },
                      )
                ]
      ]
