-- ===== src/RefreshSeeds/Accounts.antt =====
-- pallets/refresh-seeds/src/functions.rs: the list of scores beside the candidates.
use zero_dao_node.Base.{
  ℕ, ◌+◌, ◌≤◌, ◌≡◌, [], ◌∷◌, false, sym, subst, none, some, ◌==◌, if◌then◌else◌, arith,
}
use zero_dao_node.Base.StorageMap.{StorageMap, lookup, get_or, insert, sum_by}
use zero_dao_node.RefreshSeeds.{
  Candidate, default_candidate, State, put_candidate, score_list_insert, candidate_insert,
  mutate_score, remove_challenge, restart,
}
use zero_dao_node.RefreshSeeds.ScoreList.{IsSorted, count, score_removed}
use zero_dao_node.RefreshSeeds.ScoreLaws.{score_inserted_lem, score_removed_lem}
use zero_dao_node.RefreshSeeds.Frame.{IsKept}

-- 1 for a candidate of that score.
abbrev pub has_score : ℕ → Candidate → ℕ
has_score a c = if a == c.score then 1 else 0

-- How many candidates have a score.
abbrev pub with_score : ℕ → StorageMap Candidate → ℕ
with_score a candidates = sum_by (has_score a) candidates

pub sum_by-insert_new :
    (f : Candidate → ℕ) (k : ℕ) (v : Candidate) (m : StorageMap Candidate)
    → lookup k m ≡ none
    → sum_by f (insert k v m) ≡ sum_by f m + f v
unfolding sum_by insert lookup
sum_by-insert_new f k v [] h = omega arith
sum_by-insert_new f k v ((j, w) ∷ m) h = ground (arith, sum_by-insert_new f k v m)

pub sum_by-insert_old :
    (f : Candidate → ℕ) (k : ℕ) (v c : Candidate) (m : StorageMap Candidate)
    → lookup k m ≡ some c
    → sum_by f (insert k v m) + f c ≡ sum_by f m + f v
unfolding sum_by insert lookup
sum_by-insert_old f k v c [] h = absurd (ground arith)
sum_by-insert_old f k v c ((j, w) ∷ m) h = ground (arith, sum_by-insert_old f k v c m)

pub get_or-lookup :
    (k : ℕ) (c : Candidate) (m : StorageMap Candidate)
    → lookup k m ≡ some c
    → get_or default_candidate k m ≡ c
unfolding lookup get_or
get_or-lookup k c [] h = absurd (ground arith)
get_or-lookup k c ((j, w) ∷ m) h = ground (arith, get_or-lookup k c m)

pub get_or-missing :
    (k : ℕ) (m : StorageMap Candidate)
    → lookup k m ≡ none
    → get_or default_candidate k m ≡ default_candidate
unfolding lookup get_or
get_or-missing k [] h = ground arith
get_or-missing k ((j, w) ∷ m) h = ground (arith, get_or-missing k m)

le-sum_by :
    (f : Candidate → ℕ) (k : ℕ) (c : Candidate) (m : StorageMap Candidate)
    → lookup k m ≡ some c
    → f c ≤ sum_by f m
unfolding sum_by lookup
le-sum_by f k c [] h = absurd (ground arith)
le-sum_by f k c ((j, w) ∷ m) h = ground (arith, le-sum_by f k c m)

module _ {T W : Type 0} where
  -- `ScoreList` is sorted, and has a score as often as there are candidates with it.
  unfoldable pub IsAccounted : State T W → Type 0
  IsAccounted s =
      IsSorted s.score_list × ((a : ℕ) → count a s.score_list ≡ with_score a s.candidates)

  pub IsAccounted-kept : (s s' : State T W) → IsKept s s' → IsAccounted s → IsAccounted s'
  unfolding IsAccounted IsKept
  IsAccounted-kept s s' (c, l) (sorted, counts) = (
    subst (λ xs. IsSorted xs) (sym l) sorted,
    λ a.
        subst (λ xs. count a xs ≡ with_score a s'.candidates) (sym l)
          (subst (λ m. count a s.score_list ≡ with_score a m) (sym c) (counts a)),
  )

  pub candidate_insert-IsAccounted :
      (target pathfinder score : ℕ) (s : State T W)
      → IsAccounted s
      → lookup target s.candidates ≡ none
      → IsAccounted (candidate_insert target pathfinder score s)
  unfolding IsAccounted candidate_insert score_list_insert
  candidate_insert-IsAccounted target pathfinder score s (sorted, counts) absent =
      let c : Candidate = record {
        score = score;
        pathfinder = pathfinder;
        has_challenge = false;
        add_at = s.now;
      } in
      (
        (score_inserted_lem s.score_list score 0 sorted).0,
        λ a. omega (
          arith,
          (score_inserted_lem s.score_list score a sorted).2,
          sum_by-insert_new (has_score a) target c s.candidates absent,
          counts a,
        ),
      )

  pub put_candidate-IsAccounted :
      (target : ℕ) (c c' : Candidate) (s : State T W)
      → IsAccounted s
      → lookup target s.candidates ≡ some c
      → c'.score ≡ c.score
      → IsAccounted (put_candidate target c' s)
  unfolding IsAccounted
  put_candidate-IsAccounted target c c' s (sorted, counts) there same = (
    sorted,
    λ a. ground (arith, counts a, sum_by-insert_old (has_score a) target c' c s.candidates there),
  )

  -- A restart moves the candidate's score in the list.
  pub restart-IsAccounted :
      (target pathfinder score : ℕ) (c : Candidate) (s : State T W)
      → IsAccounted s
      → lookup target s.candidates ≡ some c
      → IsAccounted (restart target pathfinder score s)
  unfolding IsAccounted restart mutate_score score_list_insert remove_challenge
  restart-IsAccounted target pathfinder score c s (sorted, counts) there =
      let old = get_or default_candidate target s.candidates in
      let c' : Candidate = record old { score = score; pathfinder = pathfinder } in
      let same : old ≡ c = get_or-lookup target c s.candidates there in
      let there_old : lookup target s.candidates ≡ some old = ground (arith, same, there) in
      let rest = score_removed s.score_list old.score in
      let rest_sorted = (score_removed_lem s.score_list old.score 0 sorted).0 in
      (
        (score_inserted_lem rest score 0 rest_sorted).0,
        λ a. ground (
          arith,
          (score_inserted_lem rest score a rest_sorted).2,
          (score_removed_lem s.score_list old.score a sorted).1,
          sum_by-insert_old (has_score a) target c' old s.candidates there_old,
          le-sum_by (has_score old.score) target old s.candidates there_old,
          counts a,
          counts old.score,
        ),
      )
