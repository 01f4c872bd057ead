-- ===== src/RefreshSeeds/Seating.antt =====
-- pallets/refresh-seeds/src/lib.rs, `harvest_seed`: what a harvest pays, and the most seeds of a round.
use zero_dao_node.Base.{
  List, ℕ, ◌+◌, ◌-◌, ◌/◌, leb, not, ◌==◌, ltb, drop, ◌≤◌, ◌<◌, ◌≡◌, inl, inr, sym, subst, true,
  false, Option, none, some, refl, Option-cases, Bool-cases, length, if◌then◌else◌, arith, u128,
  checked_add,
}
use zero_dao_node.Base.StorageMap.{lookup, remove}
use zero_dao_node.Dispatch.{ok, Result-cases}
use zero_dao_node.Primitives.{TirStep}
use zero_dao_node.RefreshSeeds.{
  Candidate, State, Config, Event, deposit_event, hand_first_time, is_some, is_all_harvest,
}
use zero_dao_node.RefreshSeeds.ScoreList.{IsSorted, count, nth}
use zero_dao_node.RefreshSeeds.ScoreLaws.{drop-IsSorted, count-remove_at}
use zero_dao_node.RefreshSeeds.Harvest.{
  seed_index, selected, staking_amount, seed_bonus, pay, seated, closed, harvest_seed,
}
use zero_dao_node.RefreshSeeds.Selection.{
  SeedsLaws, seed_index_lem, hand_first_time_lem, highest, world_of, selected-ok, pay-staked, seats,
  seated-world, seated-list, seated-length, seated-IsSorted, closed-ok,
}

module _ {T W : Type 0} (cfg : Config T W) where
  open cfg use {
    token, seeds_base, reputation, max_seed_count, seed_staking_amount, seed_reserv_staking,
  }

  highest-IsSorted : (s : State T W) → IsSorted s.score_list → IsSorted (highest cfg s)
  unfolding hand_first_time
  highest-IsSorted s sorted =
      let xs = s.score_list in
      elim (Bool-cases s.seeds_confirmed) [
        | inl confirmed ↦
            let at : xs ≡ highest cfg s = ground arith in subst (λ l. IsSorted l) at sorted
        | inr first ↦ elim (Bool-cases (ltb max_seed_count (length xs))) [
          | inl many ↦
              let at : drop (length xs - max_seed_count) xs ≡ highest cfg s = ground arith in
              subst (λ l. IsSorted l) at (drop-IsSorted (length xs - max_seed_count) xs sorted)
          | inr few ↦
              let at : xs ≡ highest cfg s = ground arith in subst (λ l. IsSorted l) at sorted
        ]
      ]

  -- The world after a candidate is harvested, before the round is closed.
  abbrev seated_world : ℕ → State T W → Candidate → W
  seated_world target s c =
      if is_some (seed_index (highest cfg s) c.score)
      then seeds_base.add_seed target (world_of cfg s)
      else world_of cfg s

  -- What a harvest pays as a share of the bonus: a new seed gets an equal part for each score that is
  -- left.
  abbrev pub bonus : State T W → Candidate → ℕ
  bonus s c =
      if is_some (seed_index (highest cfg s) c.score)
      then token.get_bonus_amount s.ledger / length (highest cfg s)
      else 0

  -- What a harvest gives back: a candidate that was challenged has only its reserve left.
  abbrev pub refund : Candidate → ℕ
  refund c = if c.has_challenge then seed_reserv_staking else seed_staking_amount

  seed_bonus_lem :
      (i : Option ℕ) (xs : List ℕ) (ledger : T)
      → seed_bonus cfg i xs ledger
        ≡ (if is_some i then token.get_bonus_amount ledger / length xs else 0)
  seed_bonus_lem none xs ledger = refl
  seed_bonus_lem (some j) xs ledger = refl

  -- The list that a harvest works on has the best scores, in the first harvest of a round.
  highest_lem :
      (s : State T W)
      → highest cfg s ≡ (
          if s.seeds_confirmed
          then s.score_list
          else drop (length s.score_list - max_seed_count) s.score_list)
  unfolding hand_first_time drop
  highest_lem s =
      let none_dropped : length s.score_list ≤ max_seed_count
          → length s.score_list - max_seed_count ≡ 0 =
        λ le. omega (arith, le) in
      ground (arith, none_dropped)

  -- The scores that are left.
  abbrev left : ℕ → State T W → Candidate → List ℕ
  left target s c = (seated cfg (seed_index (highest cfg s) c.score) target (highest cfg s) s).0

  -- A seat takes its score off the list once, and no other.
  seated-count :
      (i : Option ℕ) (target : ℕ) (xs : List ℕ) (s : State T W) (a score : ℕ)
      → ((j : ℕ) → i ≡ some j → (j < length xs) × (nth xs j ≡ score))
      → count a (seated cfg i target xs s).0
          + (if a == score then if is_some i then 1 else 0 else 0)
        ≡ count a xs
  unfolding seated
  seated-count none target xs s a score at = ground arith
  seated-count (some j) target xs s a score at =
      let (lt, is) = at j refl in ground (arith, is, count-remove_at a j xs lt)

  -- What a harvest does, whatever the list of scores is like.
  pub record Paid (target : ℕ) (s s' : State T W) (c : Candidate) : Type 0 where
    pub was_candidate : lookup target s.candidates ≡ some c
    pub removed : s'.candidates ≡ remove target s.candidates
    pub paid : token.staked s'.ledger + (bonus s c + refund c) ≡ token.staked s.ledger
    pub shared : token.get_bonus_amount s'.ledger + bonus s c ≡ token.get_bonus_amount s.ledger
    pub listed : s'.score_list ≡ left target s c
    pub flagged : s'.seeds_confirmed ≡ not (is_all_harvest s')
    pub placed : s'.world ≡ (
        if is_all_harvest s'
        then reputation.set_step TirStep.reputation (seated_world target s c)
        else seated_world target s c)

  -- What a harvest leaves.
  pub record Harvested (target : ℕ) (s s' : State T W) (c : Candidate) : Type 0 where
    pub pays : Paid target s s' c
    pub best : highest cfg s ≡ (
        if s.seeds_confirmed
        then s.score_list
        else drop (length s.score_list - max_seed_count) s.score_list)
    pub seat : is_some (seed_index (highest cfg s) c.score) ≡ leb 1 (count c.score (highest cfg s))
    pub taken :
        (a : ℕ)
        → count a s'.score_list + (if a == c.score then seats cfg s c else 0)
          ≡ count a (highest cfg s)
    pub shortened : length s'.score_list + seats cfg s c ≡ length (highest cfg s)
    pub ordered : IsSorted s'.score_list

  pub harvest_seed-Paid :
      (who target : ℕ) (s s' : State T W)
      → harvest_seed cfg (ok who) target s ≡ ok s'
      → (c : Candidate) × Paid target s s' c
  unfolding harvest_seed is_all_harvest
  harvest_seed-Paid who target s s' e = elim (Result-cases (selected cfg s)) [
    | inr (x, failed) ↦ absurd (ground arith)
    | inl ((xs, opened), done) ↦ elim (Option-cases (lookup target opened.candidates)) [
      | inl absent ↦ absurd (ground arith)
      | inr (c, there) ↦
          let (xs_is, same_candidates, same_ledger, world_is, same_flag) =
            selected-ok cfg xs s opened done in
          let taken : State T W = record opened { candidates = remove target opened.candidates } in
          let i = seed_index xs c.score in
          let share = seed_bonus cfg i xs taken.ledger in
          let total = share + staking_amount cfg c in
          let fits : checked_add u128 share (staking_amount cfg c) ≡ some total =
            ground (arith, e) in
          elim (Result-cases (pay cfg who c.pathfinder total taken)) [
            | inr (x, failed) ↦ absurd (ground arith)
            | inl (paid, pays) ↦ elim (Result-cases (token.cut_bonus share paid.ledger)) [
              | inr (x, failed) ↦ absurd (ground arith)
              | inl (ledger, cut) ↦
                  let cut_paid = record paid { ledger = ledger } in
                  let (only_world, world') = seated-world cfg i target xs cut_paid in
                  let (rest, chosen) = seated cfg i target xs cut_paid in
                  let (staked_paid, bonus_paid, only_ledger) =
                    pay-staked cfg who c.pathfinder total taken paid pays in
                  let flag : chosen.seeds_confirmed ≡ s.seeds_confirmed =
                    ground (arith, only_world, only_ledger, same_flag) in
                  let (c1, l1, f1, t1, w1) = closed-ok cfg chosen in
                  let ended : State T W =
                    record (deposit_event (Event.seed_harvested who target)
                      (closed cfg chosen.seeds_confirmed chosen)) { score_list = rest } in
                  let at : s' ≡ ended = ground (arith, flag, e) in
                  let (cut_staked, cut_bonus) =
                    token.staked-cut_bonus share paid.ledger ledger cut in
                  let candidates : chosen.candidates ≡ remove target s.candidates =
                    ground (arith, only_world, only_ledger, same_candidates) in
                  let paid_ledger : chosen.ledger ≡ ledger = ground (arith, only_world) in
                  let share_is : share ≡ bonus s c =
                    ground (arith, xs_is, same_ledger, seed_bonus_lem i xs taken.ledger) in
                  let paid_world : paid.world ≡ world_of cfg s =
                    ground (arith, only_ledger, world_is) in
                  (
                    c,
                    record {
                      was_candidate = ground (arith, same_candidates, there);
                      removed = ground (arith, at, c1, candidates);
                      paid = ground (
                        arith, at, l1, paid_ledger, share_is, cut_staked, staked_paid, same_ledger,
                      );
                      shared = ground (
                        arith, at, l1, paid_ledger, share_is, cut_bonus, bonus_paid, same_ledger,
                      );
                      listed = ground (arith, at, xs_is, seated-list cfg i target xs cut_paid s);
                      flagged = ground (arith, at, c1, f1, t1);
                      placed = ground (arith, at, c1, w1, world', paid_world, xs_is);
                    },
                  )
            ]
          ]
    ]
  ]

  -- Where the list of scores is sorted, a harvest takes a candidate away and pays its stake, which is the
  -- reserve if it was challenged, and its share of the bonus out of the staked funds and of the bonus.
  -- The candidate gets a seat just when its score is in the list, of which the first harvest takes the
  -- best `MaxSeedCount` scores; the share is then the bonus divided by the length of the list, else 0.
  -- With a seat its score leaves the list once and all else stays; the list stays sorted. The round
  -- goes on to the reputations after the last candidate.
  pub harvest_seed-Harvested :
      (who target : ℕ) (s s' : State T W)
      → IsSorted s.score_list
      → harvest_seed cfg (ok who) target s ≡ ok s'
      → (c : Candidate) × Harvested target s s' c
  harvest_seed-Harvested who target s s' sorted e =
      let (c, p) = harvest_seed-Paid who target s s' e in
      let xs = highest cfg s in
      let sorted_xs : IsSorted xs = highest-IsSorted s sorted in
      let i = seed_index xs c.score in
      let chosen_at : (j : ℕ) → i ≡ some j → (j < length xs) × (nth xs j ≡ c.score) =
        (seed_index_lem xs c.score sorted_xs).0 in
      let inside : (j : ℕ) → i ≡ some j → j < length xs =
        λ j h. ((seed_index_lem xs c.score sorted_xs).0 j h).0 in
      (
        c,
        record {
          pays = p;
          best = highest_lem s;
          seat = elim (Option-cases i) [
            | inl unseated ↦
                ground (arith, unseated, (seed_index_lem xs c.score sorted_xs).1 unseated)
            | inr (j, at) ↦
                let (lt, is) = (seed_index_lem xs c.score sorted_xs).0 j at in
                ground (arith, at, count-remove_at c.score j xs lt, is)
          ];
          taken = λ a. ground (arith, p.listed, seated-count i target xs s a c.score chosen_at);
          shortened = ground (arith, p.listed, seated-length cfg i target xs s inside);
          ordered =
              subst (λ l. IsSorted l) (sym p.listed)
                (seated-IsSorted cfg i target xs s inside sorted_xs);
        },
      )

  -- Some harvests of seeds, one after the other.
  pub data Harvests (start : State T W) : State T W → Type 0 where
    first :
        {out : State T W} (who target : ℕ)
        → harvest_seed cfg (ok who) target start ≡ ok out
        → Harvests start out
    more :
        {mid out : State T W}
        → Harvests start mid
        → (who target : ℕ) → harvest_seed cfg (ok who) target mid ≡ ok out
        → Harvests start out

module _ {T W : Type 0} (cfg : Config T W) (laws : SeedsLaws cfg) where
  open cfg use {seeds_base, reputation, max_seed_count}

  -- Where a round has begun to give seats, the seeds and the scores that are left are not too many.
  harvest_seed-bound :
      (who target : ℕ) (s s' : State T W)
      → IsSorted s.score_list
      → (s.seeds_confirmed ≡ true
          → seeds_base.get_seed_count s.world + length s.score_list ≤ max_seed_count)
      → harvest_seed cfg (ok who) target s ≡ ok s'
      → seeds_base.get_seed_count s'.world + length s'.score_list ≤ max_seed_count
  harvest_seed-bound who target s s' sorted bound e =
      let (c, h) = harvest_seed-Harvested cfg who target s s' sorted e in
      let old = world_of cfg s in
      let opened : seeds_base.get_seed_count old + length (highest cfg s) ≤ max_seed_count =
        elim (Bool-cases s.seeds_confirmed) [
          | inl confirmed ↦ ground (arith, bound confirmed)
          | inr fresh ↦
              ground (arith, laws.count-remove_all s.world, hand_first_time_lem cfg s.score_list s)
        ] in
      ground (
        arith,
        opened,
        h.shortened,
        h.pays.placed,
        laws.count-add_seed target old,
        laws.count-set_step TirStep.reputation old,
        laws.count-set_step TirStep.reputation (seeds_base.add_seed target old),
      )

  -- However many candidates are harvested in a round, in whatever order, the new seeds and the scores
  -- that may still become seeds are at most `MaxSeedCount`.
  pub Harvests-bound :
      (s s' : State T W)
      → IsSorted s.score_list
      → s.seeds_confirmed ≡ false
      → Harvests cfg s s'
      → IsSorted s'.score_list
        × (seeds_base.get_seed_count s'.world + length s'.score_list ≤ max_seed_count)
  Harvests-bound s s' sorted fresh (Harvests.first who target e) = (
    (harvest_seed-Harvested cfg who target s s' sorted e).1.ordered,
    harvest_seed-bound who target s s' sorted (λ h. absurd (ground arith)) e,
  )
  Harvests-bound s s' sorted fresh (Harvests.more {mid} before who target e) =
      let (sorted_mid, bound) = Harvests-bound s mid sorted fresh before in
      (
        (harvest_seed-Harvested cfg who target mid s' sorted_mid e).1.ordered,
        harvest_seed-bound who target mid s' sorted_mid (λ h. bound) e,
      )
