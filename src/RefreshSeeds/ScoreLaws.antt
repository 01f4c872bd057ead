-- ===== src/RefreshSeeds/ScoreLaws.antt =====
-- pallets/refresh-seeds/src/functions.rs: the sorted list of scores after an insertion and a removal.
use zero_dao_node.Base.{
  ℕ, zero, suc, ◌+◌, ◌-◌, ◌≤◌, ◌<◌, ◌≡◌, refl, sym, subst, ◌⊎◌, Bool-cases, inl, inr, List, [], ◌∷◌,
  length, ltb, leb, ◌==◌, ◌&&◌, if◌then◌else◌, insert_at, remove_at, drop, length-insert_at,
  length-remove_at, length-drop, arith,
}
use zero_dao_node.RefreshSeeds.ScoreList.{
  Search, index_of, binary_search, score_inserted, score_removed, nth, IsSorted, count, Answers,
  binary_search-Answers,
}

nth-insert_at :
    (k i x : ℕ) (xs : List ℕ)
    → k ≤ length xs
    → nth (insert_at k x xs) i
      ≡ (if ltb i k then nth xs i else if i == k then x else nth xs (i - 1))
unfolding nth insert_at
nth-insert_at zero zero x xs h = refl
nth-insert_at zero (suc i) x xs h = ground arith
nth-insert_at (suc k) i x [] h = absurd (omega arith)
nth-insert_at (suc k) zero x (y ∷ ys) h = ground arith
nth-insert_at (suc k) (suc zero) x (y ∷ ys) h = ground (arith, nth-insert_at k zero x ys)
nth-insert_at (suc k) (suc (suc i)) x (y ∷ ys) h = ground (arith, nth-insert_at k (suc i) x ys)

nth-remove_at :
    (k i : ℕ) (xs : List ℕ)
    → k < length xs
    → nth (remove_at k xs) i ≡ (if ltb i k then nth xs i else nth xs (i + 1))
unfolding nth remove_at
nth-remove_at k i [] h = absurd (omega arith)
nth-remove_at zero zero (y ∷ ys) h = ground arith
nth-remove_at zero (suc i) (y ∷ ys) h = ground arith
nth-remove_at (suc k) zero (y ∷ ys) h = ground arith
nth-remove_at (suc k) (suc i) (y ∷ ys) h = ground (arith, nth-remove_at k i ys)

nth-drop : (n i : ℕ) (xs : List ℕ) → nth (drop n xs) i ≡ nth xs (n + i)
unfolding nth drop
nth-drop zero i xs = ground arith
nth-drop (suc n) i [] = ground arith
nth-drop (suc n) i (y ∷ ys) = ground (arith, nth-drop n i ys)

count-insert_at :
    (a k x : ℕ) (xs : List ℕ) → count a (insert_at k x xs) ≡ (if a == x then 1 else 0) + count a xs
unfolding count insert_at
count-insert_at a zero x xs = refl
count-insert_at a (suc k) x [] = refl
count-insert_at a (suc k) x (y ∷ ys) = omega (arith, count-insert_at a k x ys)

pub count-remove_at :
    (a k : ℕ) (xs : List ℕ)
    → k < length xs
    → count a (remove_at k xs) + (if a == nth xs k then 1 else 0) ≡ count a xs
unfolding count remove_at nth
count-remove_at a k [] h = absurd (omega arith)
count-remove_at a zero (y ∷ ys) h = omega arith
count-remove_at a (suc k) (y ∷ ys) h = ground (arith, count-remove_at a k ys)

-- A score that occurs stands at some index.
pub count-nth : (a : ℕ) (xs : List ℕ) → 1 ≤ count a xs → (i : ℕ) × (i < length xs) × (nth xs i ≡ a)
unfolding count nth
count-nth a [] h = absurd (omega arith)
count-nth a (x ∷ xs) h = elim (Bool-cases (a == x)) [
  | inl same ↦ (0, omega arith, ground arith)
  | inr other ↦ let (i, lt, at) = count-nth a xs (ground arith) in (suc i, omega arith, at)
]

-- An index at which the key can stand.
Splits : List ℕ → ℕ → ℕ → Type 0
Splits xs key k =
    (k ≤ length xs)
    × ((j : ℕ) → j < k → nth xs j ≤ key)
    × ((j : ℕ) → k ≤ j → j < length xs → key ≤ nth xs j)

index_of-Splits :
    (xs : List ℕ) (key : ℕ) (r : Search)
    → IsSorted xs
    → Answers xs key r
    → Splits xs key (index_of r)
unfolding Splits Answers IsSorted
index_of-Splits xs key (Search.found i) sorted (inside, at) =
    (omega arith, λ j h. ground (arith, sorted j i), λ j h h'. ground (arith, sorted i j))
index_of-Splits xs key (Search.missing i) sorted (inside, below, above) =
    (inside, λ j h. omega (arith, below j h), λ j h h'. omega (arith, above j h h'))

insert_at-IsSorted :
    (xs : List ℕ) (key k : ℕ) → IsSorted xs → Splits xs key k → IsSorted (insert_at k key xs)
unfolding Splits IsSorted
insert_at-IsSorted xs key k sorted (inside, below, above) i j le lt = ground (
  arith,
  nth-insert_at k i key xs inside,
  nth-insert_at k j key xs inside,
  length-insert_at k key xs,
  sorted i j,
  sorted i (j - 1),
  sorted (i - 1) (j - 1),
  below i,
  above (j - 1),
)

pub remove_at-IsSorted :
    (xs : List ℕ) (k : ℕ) → IsSorted xs → k < length xs → IsSorted (remove_at k xs)
unfolding IsSorted
remove_at-IsSorted xs k sorted inside i j le lt = ground (
  arith,
  nth-remove_at k i xs inside,
  nth-remove_at k j xs inside,
  length-remove_at k xs inside,
  sorted i j,
  sorted i (j + 1),
  sorted (i + 1) (j + 1),
)

pub Search-cases :
    (r : Search) → ((i : ℕ) × (r ≡ Search.found i)) ⊎ ((i : ℕ) × (r ≡ Search.missing i))
Search-cases (Search.found i) = inl (i, refl)
Search-cases (Search.missing i) = inr (i, refl)

-- Inserting a score keeps the list sorted and adds one occurrence of it.
pub score_inserted_lem :
    (xs : List ℕ) (score a : ℕ)
    → IsSorted xs
    → IsSorted (score_inserted xs score)
      × (length (score_inserted xs score) ≡ length xs + 1)
      × (count a (score_inserted xs score) ≡ (if a == score then 1 else 0) + count a xs)
unfolding score_inserted
score_inserted_lem xs score a sorted =
    let r = binary_search xs score in
    (
      insert_at-IsSorted xs score (index_of r) sorted
          (index_of-Splits xs score r sorted (binary_search-Answers xs score sorted)),
      length-insert_at (index_of r) score xs,
      count-insert_at a (index_of r) score xs,
    )

-- Removing a score that occurs keeps the list sorted and takes one occurrence away; one that does
-- not occur changes nothing.
pub score_removed_lem :
    (xs : List ℕ) (score a : ℕ)
    → IsSorted xs
    → IsSorted (score_removed xs score)
      × (count a (score_removed xs score) + (if a == score && leb 1 (count score xs) then 1 else 0)
          ≡ count a xs)
unfolding score_removed Answers
score_removed_lem xs score a sorted =
    let answer = binary_search-Answers xs score sorted in
    elim (Search-cases (binary_search xs score)) [
      | inl (i, at) ↦
          let (inside, same) : Answers xs score (Search.found i) =
            subst (λ r. Answers xs score r) at answer in
          let same_list : score_removed xs score ≡ remove_at i xs = ground (arith, at) in
          (
            subst (λ l. IsSorted l) (sym same_list) (remove_at-IsSorted xs i sorted inside),
            ground (arith, at, count-remove_at a i xs inside, count-remove_at score i xs inside),
          )
      | inr (i, at) ↦
          let (inside, below, above) : Answers xs score (Search.missing i) =
            subst (λ r. Answers xs score r) at answer in
          let none_there : count score xs ≡ 0 = elim (Bool-cases (leb 1 (count score xs))) [
            | inr few ↦ ground arith
            | inl some_there ↦
                let (j, lt, is) = count-nth score xs (ground arith) in
                absurd (ground (arith, below j, above j))
          ] in
          let same_list : score_removed xs score ≡ xs = ground (arith, at) in
          (subst (λ l. IsSorted l) (sym same_list) sorted, ground (arith, at))
    ]

-- The scores from an index on are sorted.
pub drop-IsSorted : (n : ℕ) (xs : List ℕ) → IsSorted xs → IsSorted (drop n xs)
unfolding IsSorted
drop-IsSorted n xs sorted i j le lt =
    ground (arith, nth-drop n i xs, nth-drop n j xs, length-drop n xs, sorted (n + i) (n + j))
