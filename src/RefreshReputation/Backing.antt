-- ===== src/RefreshReputation/Backing.antt =====
-- pallets/refresh-reputation/src/lib.rs: the staked funds beside what the pathfinders are owed and the
-- pools of the games, when users are refreshed and challenged.
use native.Mathlib.Nat.{mul-le-mul_left}
use zero_dao_node.RefreshReputation.Uploads.{
  zip, mutate_paths, insert_paths, do_update_path, do_update_path_verify,
}
use zero_dao_node.Base.{
  ap, ◌%◌, ◌==◌, if◌then◌else◌, Bool, ℕ, ◌+◌, ◌*◌, ◌-◌, ◌≤◌, ◌<◌, ◌≡◌, ◌∙◌, inl, inr, refl, List,
  [], ◌∷◌, length, Option-cases, arith, u32, u128,
}
use zero_dao_node.Base.StorageMap
use zero_dao_node.Base.StorageMap.{StorageMap, sum_by, sum_by-insert, sum_by-take_le}
use zero_dao_node.Base.DoubleMap
use zero_dao_node.Dispatch.{ok, Result-cases}
use zero_dao_node.Primitives.Metadata.{ChallengeStatus}
use zero_dao_node.Support.Framed.{Framed, framed_both}
use zero_dao_node.Support.Backed.{Covered, SameStaked}
use zero_dao_node.RefreshReputation.{
  SeedPath, State, Config, app_id, default_payroll, get_payroll, do_refresh, share, mutate_payroll,
  mutate_record,
}
use zero_dao_node.RefreshReputation.Calls
use zero_dao_node.RefreshReputation.Calls.{
  release, staking, refresh_all, drain_payrolls, disputed, billed_less, record_or_default,
  without_payroll, without_records,
}
use zero_dao_node.RefreshReputation.Payrolls.{staked, due}
use zero_dao_node.RefreshReputation.Billing.{refresh_lem, taken_fee}
use zero_dao_node.RefreshReputation.Funds.{Stays, pooled, Funded, Steady, Funding}

less_one : (n : ℕ) → n - 1 ≤ n
less_one n = omega arith

module _ {T W : Type 0} (cfg : Config T W) (pool others : W → ℕ) (stake : ℕ)
    (funding : Funding cfg pool others stake) where
  open cfg use {token, reputation, trust_base, challenge_base, perbill, update_staking_amount}

  -- A challenge moves the fee of a refresh from the payroll to the pool of the game.
  pub challenge-Funded :
      (who target pathfinder quantity score : ℕ) (s s' : State T W)
      → staked cfg s + stake < u128
      → taken_fee cfg pathfinder target s ≤ (get_payroll pathfinder s).total_fee
      → Calls.challenge cfg (ok who) target pathfinder quantity score s ≡ ok s'
      → Funded cfg pool others s s'
  unfolding Calls.challenge
  challenge-Funded who target pathfinder quantity score s s' room fits e =
      let fee = taken_fee cfg pathfinder target s in
      let f = get_payroll pathfinder s in
      let payroll = billed_less f fee in
      let unbilled = record s {
        records = DoubleMap.remove pathfinder target s.records;
        payrolls = StorageMap.insert pathfinder payroll s.payrolls;
      } in
      elim (Option-cases (reputation.get_reputation_new target s.world)) [
        | inl none_new ↦ absurd (ground arith)
        | inr (old, seen) ↦
            let game = disputed who pathfinder quantity old fee in
            elim (Result-cases (challenge_base.launch app_id target game unbilled)) [
              | inr (x, failed) ↦ absurd (ground arith)
              | inl (launched, done) ↦
                  let bill =
                    sum_by-insert (due cfg) default_payroll pathfinder payroll s.payrolls
                      (omega arith) in
                  let less : due cfg payroll + fee ≤ due cfg f =
                    omega (arith, fits, mul-le-mul_left update_staking_amount (less_one f.count)) in
                  ground (
                    arith,
                    bill,
                    less,
                    funding.backed.launch_covers app_id target game unbilled launched room done,
                    funding.steady_launch app_id target game unbilled launched done,
                    funding.backed.set_status_covers app_id target ChallengeStatus.arbitral
                        launched,
                    funding.steady_status app_id target ChallengeStatus.arbitral launched,
                  )
            ]
      ]

  refresh_all-Stays :
      (measure : W → ℕ) (pathfinder acc out : ℕ) (user_scores : List (ℕ × ℕ)) (s s' : State T W)
      → Stays cfg pool others measure
      → refresh_all cfg pathfinder user_scores acc s ≡ ok (out, s')
      → measure s'.world ≡ measure s.world
  unfolding refresh_all do_refresh share mutate_record
  refresh_all-Stays measure pathfinder acc out [] s s' stays e = ground arith
  refresh_all-Stays measure pathfinder acc out (user_score ∷ user_scores) s s' stays e =
      elim (Result-cases (reputation.refresh_reputation user_score s.world)) [
        | inr (x, failed) ↦ absurd (ground arith)
        | inl (w, done) ↦ elim (Result-cases (do_refresh cfg pathfinder user_score s.now s)) [
          | inr (x, failed) ↦ absurd (ground arith)
          | inl ((mid, fee), did) ↦
              let same : mid.world ≡ w = ground arith in
              refresh_all-Stays measure pathfinder (acc + fee) out user_scores mid s' stays
                (ground arith)
              ∙ (ap measure same ∙ stays.at-refresh_reputation user_score s.world w done)
        ]
      ]

  -- A refresh stakes what it bills.
  pub refresh-Funded :
      (pathfinder : ℕ) (user_scores : List (ℕ × ℕ)) (s s' : State T W)
      → length user_scores < u32
      → staked cfg s' + 1 < u128
      → Calls.refresh cfg (ok pathfinder) user_scores s ≡ ok s'
      → Funded cfg pool others s s'
  unfolding Calls.refresh mutate_payroll staking
  refresh-Funded pathfinder user_scores s s' short room e =
      let (sum, _, _, _) = refresh_lem cfg pathfinder 0 user_scores s s' short room e in
      let amount = update_staking_amount * length user_scores in
      elim (Result-cases (staking cfg pathfinder amount s)) [
        | inr (x, failed) ↦ absurd (ground arith)
        | inl (mid, paid) ↦ elim (Result-cases (refresh_all cfg pathfinder user_scores 0 mid)) [
          | inr (x, failed) ↦ absurd (ground arith)
          | inl ((total, done), run) ↦
              let last : s'.world ≡ reputation.set_last_refresh_at done.world = ground arith in
              let first : mid.world ≡ s.world = ground arith in
              ground (
                arith,
                sum,
                last,
                first,
                refresh_all-Stays pool pathfinder 0 total user_scores mid done (funding.pool_stays)
                    run,
                refresh_all-Stays others pathfinder 0 total user_scores mid done
                    (funding.others_stay) run,
                funding.pool_stays.at-set_last_refresh_at done.world,
                funding.others_stay.at-set_last_refresh_at done.world,
              )
        ]
      ]

  -- Uploaded paths change nothing but the paths.
  mutate_paths-keeps :
      (target : ℕ) (uploads : List (ℕ × SeedPath)) (s : State T W)
      → ((mutate_paths target uploads s).ledger ≡ s.ledger)
        × ((mutate_paths target uploads s).payrolls ≡ s.payrolls)
        × ((mutate_paths target uploads s).world ≡ s.world)
  unfolding mutate_paths
  mutate_paths-keeps target [] s = (refl, refl, refl)
  mutate_paths-keeps target ((seed, path) ∷ uploads) s =
      mutate_paths-keeps target uploads (record s {
        paths =
            if path.score == 0
            then DoubleMap.remove seed target s.paths
            else DoubleMap.insert seed target path s.paths;
      })

  insert_paths-keeps :
      (target : ℕ) (uploads : List (ℕ × SeedPath)) (s : State T W)
      → ((insert_paths target uploads s).ledger ≡ s.ledger)
        × ((insert_paths target uploads s).payrolls ≡ s.payrolls)
        × ((insert_paths target uploads s).world ≡ s.world)
  unfolding insert_paths
  insert_paths-keeps target [] s = (refl, refl, refl)
  insert_paths-keeps target ((seed, path) ∷ uploads) s =
      insert_paths-keeps target uploads
        (record s { paths = DoubleMap.insert seed target path s.paths })

  -- A callback keeps the ledger and the payrolls, a method covers the pools and keeps the payrolls.
  abbrev Called : State T W → State T W → Type 0
  Called s t = SameStaked (staked cfg) s t × Steady cfg pool others s t

  abbrev Kept : State T W → State T W → Type 0
  Kept s t = Covered (staked cfg) (pooled cfg pool others) stake s t × Steady cfg pool others s t

  framed : Framed Called Kept challenge_base
  framed =
      framed_both (SameStaked (staked cfg)) (Steady cfg pool others)
        (Covered (staked cfg) (pooled cfg pool others) stake) (Steady cfg pool others)
        challenge_base (funding.backed.framed) (funding.steady)

  judge-Called :
      (target r o n : ℕ) (seeds : List ℕ) (paths : List SeedPath) (b c : Bool) (t t' : State T W)
      → Calls.judge cfg target seeds paths r o t ≡ ok (b, c, n, t')
      → Called t t'
  unfolding do_update_path_verify
  judge-Called target r o n seeds paths b c t t' e =
      let kept = mutate_paths-keeps target (zip seeds paths) t in
      (
        ground (arith, kept),
        (ground (arith, kept), ground (arith, kept, funding.at-mutate_reputation target n t.world)),
      )

  upload-Called :
      (target r i n m : ℕ) (seeds : List ℕ) (paths : List SeedPath) (all : Bool) (t t' : State T W)
      → Calls.upload cfg target seeds paths r i all t ≡ ok (n, m, t')
      → Called t t'
  unfolding do_update_path
  upload-Called target r i n m seeds paths all t t' e =
      let kept = insert_paths-keeps target (zip seeds paths) t in
      (
        ground (arith, kept),
        (ground (arith, kept), ground (arith, kept, funding.at-mutate_reputation target n t.world)),
      )

  pub arbitral-Funded :
      (who target : ℕ) (seeds : List ℕ) (paths : List SeedPath) (s s' : State T W)
      → staked cfg s + stake < u128
      → Calls.arbitral cfg (ok who) target seeds paths s ≡ ok s'
      → Funded cfg pool others s s'
  unfolding Calls.arbitral
  arbitral-Funded who target seeds paths s s' room e =
      let up = Calls.judge cfg target seeds paths in
      elim (Result-cases (challenge_base.arbitral app_id who target up s)) [
        | inr (x, failed) ↦ absurd (ground arith)
        | inl (t, done) ↦
            let (covered, same) =
              framed.arbitral_keeps app_id who target up s t
                (λ r o n b c u v h. judge-Called target r o n seeds paths b c u v h) done in
            ground (arith, covered room, same)
      ]

  pub challenge_update-Funded :
      (who target : ℕ) (seeds : List ℕ) (paths : List SeedPath) (s s' : State T W)
      → staked cfg s + stake < u128
      → Calls.challenge_update cfg (ok who) target seeds paths s ≡ ok s'
      → Funded cfg pool others s s'
  unfolding Calls.challenge_update
  challenge_update-Funded who target seeds paths s s' room e =
      let up = Calls.upload cfg target seeds paths in
      elim (Result-cases (challenge_base.next app_id who target (length seeds % u32) up s)) [
        | inr (x, failed) ↦ absurd (ground arith)
        | inl (t, done) ↦
            let (covered, same) =
              framed.next_keeps app_id who target (length seeds % u32) up s t
                (λ r i n m all u v h. upload-Called target r i n m seeds paths all u v h) done in
            ground (arith, covered room, same)
      ]
