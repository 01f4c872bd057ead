-- ===== src/RefreshSeeds/Selection.antt =====
-- pallets/refresh-seeds/src/lib.rs, `harvest_seed`: who becomes a seed, and how many there are.
use zero_dao_node.Base.{
  ℕ, ◌+◌, ◌-◌, ◌≤◌, ◌<◌, ◌≡◌, inl, inr, refl, subst, List, [], ◌∷◌, true, false, Option, none, some,
  Bool-cases, ◌==◌, ltb, leb, length, length-drop, length-remove_at, if◌then◌else◌, arith,
}
use zero_dao_node.Dispatch.{ok, Result-cases}
use zero_dao_node.Primitives.{TirStep}
use zero_dao_node.Primitives.Fee.{with_fee, with_fee_sum, checked_with_fee}
use zero_dao_node.RefreshSeeds.{Candidate, State, Config, hand_first_time, is_some, is_all_harvest}
use zero_dao_node.RefreshSeeds.ScoreList.{
  Search, Answers, binary_search, binary_search-Answers, IsSorted, nth, count,
}
use zero_dao_node.RefreshSeeds.ScoreLaws.{Search-cases, count-nth, remove_at-IsSorted}
use zero_dao_node.RefreshSeeds.Harvest.{seed_index, selected, pay, seated, closed}

count-nil : (a : ℕ) → count a [] ≡ 0
unfolding count
count-nil a = refl

-- An index that is chosen is one of the score, and every score of the list has one.
pub seed_index_lem :
    (xs : List ℕ) (score : ℕ)
    → IsSorted xs
    → ((i : ℕ) → seed_index xs score ≡ some i → (i < length xs) × (nth xs i ≡ score))
      × (seed_index xs score ≡ none → count score xs ≡ 0)
unfolding seed_index Answers IsSorted nth
seed_index_lem [] score sorted = (λ i e. absurd (ground arith), λ e. count-nil score)
seed_index_lem (lowest ∷ rest) score sorted =
    let xs = lowest ∷ rest in
    let answer = binary_search-Answers xs score sorted in
    elim (Search-cases (binary_search xs score)) [
      | inl (i, at) ↦
          let (inside, same) : Answers xs score (Search.found i) =
            subst (λ r. Answers xs score r) at answer in
          let least : lowest ≤ nth xs i = sorted 0 i (omega arith) inside in
          (λ j e. ground (arith, at, inside, same), λ e. absurd (ground (arith, at, same, least)))
      | inr (i, at) ↦
          let (inside, below, above) : Answers xs score (Search.missing i) =
            subst (λ r. Answers xs score r) at answer in
          (
            λ j e. absurd (ground (arith, at)),
            λ e. elim (Bool-cases (leb 1 (count score xs))) [
              | inr few ↦ ground arith
              | inl some_there ↦
                  let (j, lt, is) = count-nth score xs (ground arith) in
                  absurd (ground (arith, below j, above j))
            ],
          )
    ]

-- What the theorems on the number of seeds need of the pallets of seeds and of reputation.
pub record SeedsLaws {T W : Type 0} (cfg : Config T W) : Type 0 where
  pub count-remove_all : (w : W) → cfg.seeds_base.get_seed_count (cfg.seeds_base.remove_all w) ≡ 0
  pub count-add_seed :
      (target : ℕ) (w : W)
      → cfg.seeds_base.get_seed_count (cfg.seeds_base.add_seed target w)
        ≤ cfg.seeds_base.get_seed_count w + 1
  pub count-set_step :
      (step : TirStep) (w : W)
      → cfg.seeds_base.get_seed_count (cfg.reputation.set_step step w)
        ≡ cfg.seeds_base.get_seed_count w

module _ {T W : Type 0} (cfg : Config T W) where
  open cfg use {token, seeds_base, perbill, reputation, max_seed_count}

  -- The list that a harvest works on.
  abbrev pub highest : State T W → List ℕ
  highest s = elim s.seeds_confirmed [
    | true ↦ s.score_list
    | false ↦ (hand_first_time cfg s.score_list s).0
  ]

  -- The best scores are no more than the most seeds, and the end of the list.
  pub hand_first_time_lem :
      (xs : List ℕ) (s : State T W)
      → length (hand_first_time cfg xs s).0
        ≡ (if ltb max_seed_count (length xs) then max_seed_count else length xs)
  unfolding hand_first_time
  hand_first_time_lem xs s = ground (arith, length-drop (length xs - max_seed_count) xs)

  pub pay-staked :
      (who pathfinder amount : ℕ) (s s' : State T W)
      → pay cfg who pathfinder amount s ≡ ok s'
      → (token.staked s'.ledger + amount ≡ token.staked s.ledger)
        × (token.get_bonus_amount s'.ledger ≡ token.get_bonus_amount s.ledger)
        × (s' ≡ record s { ledger = s'.ledger })
  unfolding pay checked_with_fee
  pay-staked who pathfinder amount s s' e = elim (Bool-cases (who == pathfinder)) [
    | inl own ↦ elim (Result-cases (token.release pathfinder amount s.ledger)) [
      | inr (x, failed) ↦ absurd (ground arith)
      | inl (paid, done) ↦
          let at : record s { ledger = paid } ≡ s' = ground arith in
          (
            ground (arith, at, token.staked-release pathfinder amount s.ledger paid done),
            ground (arith, at, token.bonus-release pathfinder amount s.ledger paid done),
            ground (arith, at),
          )
    ]
    | inr sweeps ↦
        let (fee, rest) = with_fee perbill amount in
        elim (Result-cases (token.release who fee s.ledger)) [
          | inr (x, failed) ↦ absurd (ground arith)
          | inl (swept, done) ↦ elim (Result-cases (token.release pathfinder rest swept)) [
            | inr (x, failed) ↦ absurd (ground arith)
            | inl (paid, done') ↦
                let at : record s { ledger = paid } ≡ s' = ground arith in
                (
                  ground (
                    arith,
                    at,
                    with_fee_sum perbill amount,
                    token.staked-release who fee s.ledger swept done,
                    token.staked-release pathfinder rest swept paid done',
                  ),
                  ground (
                    arith,
                    at,
                    token.bonus-release who fee s.ledger swept done,
                    token.bonus-release pathfinder rest swept paid done',
                  ),
                  ground (arith, at),
                )
          ]
        ]
  ]

  -- The world that a harvest works on: the first one of a round has removed the old seeds.
  abbrev pub world_of : State T W → W
  world_of s = elim s.seeds_confirmed [ true ↦ s.world | false ↦ seeds_base.remove_all s.world ]

  pub selected-ok :
      (xs : List ℕ) (s opened : State T W)
      → selected cfg s ≡ ok (xs, opened)
      → (xs ≡ highest s)
        × (opened.candidates ≡ s.candidates)
        × (opened.ledger ≡ s.ledger)
        × (opened.world ≡ world_of s)
        × (opened.seeds_confirmed ≡ s.seeds_confirmed)
  unfolding selected hand_first_time
  selected-ok xs s opened e = elim (Bool-cases s.seeds_confirmed) [
    | inl confirmed ↦ (ground arith, ground arith, ground arith, ground arith, ground arith)
    | inr first ↦ (ground arith, ground arith, ground arith, ground arith, ground arith)
  ]

  pub closed-ok :
      (s : State T W)
      → ((closed cfg s.seeds_confirmed s).candidates ≡ s.candidates)
        × ((closed cfg s.seeds_confirmed s).ledger ≡ s.ledger)
        × (is_all_harvest s ≡ true → (closed cfg s.seeds_confirmed s).seeds_confirmed ≡ false)
        × (is_all_harvest s ≡ false → (closed cfg s.seeds_confirmed s).seeds_confirmed ≡ true)
        × ((closed cfg s.seeds_confirmed s).world ≡ (
            if is_all_harvest s then reputation.set_step TirStep.reputation s.world else s.world))
  unfolding closed
  closed-ok s = elim (Bool-cases (is_all_harvest s)) [
    | inl all ↦
        (ground arith, ground arith, λ h. ground arith, λ h. absurd (ground arith), ground arith)
    | inr some_left ↦
        (ground arith, ground arith, λ h. absurd (ground arith), λ h. ground arith, ground arith)
  ]

  -- How many seats a harvest gives.
  abbrev pub seats : State T W → Candidate → ℕ
  seats s c = if is_some (seed_index (highest s) c.score) then 1 else 0

  pub seated-world :
      (i : Option ℕ) (target : ℕ) (xs : List ℕ) (s : State T W)
      → ((seated cfg i target xs s).1 ≡ record s { world = (seated cfg i target xs s).1.world })
        × ((seated cfg i target xs s).1.world
            ≡ (if is_some i then seeds_base.add_seed target s.world else s.world))
  unfolding seated
  seated-world none target xs s = (refl, refl)
  seated-world (some j) target xs s = (refl, refl)

  -- Which scores are left does not depend on the storage.
  pub seated-list :
      (i : Option ℕ) (target : ℕ) (xs : List ℕ) (s t : State T W)
      → (seated cfg i target xs s).0 ≡ (seated cfg i target xs t).0
  unfolding seated
  seated-list none target xs s t = refl
  seated-list (some j) target xs s t = refl

  pub seated-length :
      (i : Option ℕ) (target : ℕ) (xs : List ℕ) (s : State T W)
      → ((j : ℕ) → i ≡ some j → j < length xs)
      → length (seated cfg i target xs s).0 + (if is_some i then 1 else 0) ≡ length xs
  unfolding seated
  seated-length none target xs s h = ground arith
  seated-length (some j) target xs s h = ground (arith, length-remove_at j xs (h j refl))

  pub seated-IsSorted :
      (i : Option ℕ) (target : ℕ) (xs : List ℕ) (s : State T W)
      → ((j : ℕ) → i ≡ some j → j < length xs)
      → IsSorted xs
      → IsSorted (seated cfg i target xs s).0
  unfolding seated
  seated-IsSorted none target xs s h sorted = sorted
  seated-IsSorted (some j) target xs s h sorted = remove_at-IsSorted xs j sorted (h j refl)
