-- ===== src/RefreshSeeds/ScoreList.antt =====
-- pallets/refresh-seeds/src/functions.rs: the sorted list of the candidates' scores, with the binary
-- search of the standard library by which it is read and changed.
use zero_dao_node.Base.{
  ℕ, zero, suc, ◌+◌, ◌-◌, ◌/◌, ◌≤◌, ◌<◌, ◌≡◌, refl, true, false, Bool-cases, inl, inr, none, some,
  List, [], ◌∷◌, length, ltb, ◌==◌, if◌then◌else◌, get_elem?, insert_at, remove_at, arith,
}

-- The result of `binary_search`: `Ok` with an index of the key, or `Err` with the index at which it
-- can be inserted.
pub data Search : Type 0 where
  found missing : ℕ → Search

-- The halving loop of `binary_search`, on fuel; `lo` and `hi` bound the range that is left.
unfoldable pub search_loop : ℕ → List ℕ → ℕ → ℕ → ℕ → Search
search_loop zero xs key lo hi = Search.missing lo
search_loop (suc fuel) xs key lo hi =
    let mid = lo + (hi - lo) / 2 in
    elim (ltb lo hi) [
      | false ↦ Search.missing lo
      | true ↦ elim (get_elem? xs mid) [
        | none ↦ Search.missing lo
        | some v ↦ elim (ltb v key) [
          | true ↦ search_loop fuel xs key (mid + 1) hi
          | false ↦ elim (ltb key v) [
            | true ↦ search_loop fuel xs key lo mid
            | false ↦ Search.found mid
          ]
        ]
      ]
    ]

unfoldable pub binary_search : List ℕ → ℕ → Search
binary_search xs key = search_loop (length xs + 1) xs key 0 (length xs)

-- `unwrap_or_else(|index| index)`
abbrev pub index_of : Search → ℕ
index_of (Search.found i) = i
index_of (Search.missing i) = i

-- `score_list_insert`, up to the write of `ScoreList`.
unfoldable pub score_inserted : List ℕ → ℕ → List ℕ
score_inserted score_list score =
    insert_at (index_of (binary_search score_list score)) score score_list

-- The removal in `mutate_score`.
unfoldable pub score_removed : List ℕ → ℕ → List ℕ
score_removed score_list old_score = elim (binary_search score_list old_score) [
  | found index ↦ remove_at index score_list
  | missing index ↦ score_list
]

-- The element at an index, 0 past the end.
unfoldable pub nth : List ℕ → ℕ → ℕ
nth [] i = 0
nth (x ∷ xs) zero = x
nth (x ∷ xs) (suc i) = nth xs i

unfoldable pub IsSorted : List ℕ → Type 0
IsSorted xs = (i j : ℕ) → i ≤ j → j < length xs → nth xs i ≤ nth xs j

-- How often a score occurs.
unfoldable pub count : ℕ → List ℕ → ℕ
count a [] = 0
count a (x ∷ xs) = (if a == x then 1 else 0) + count a xs

-- What a search promises: an index where the key stands, or one that has the smaller elements before
-- it and the larger ones behind.
unfoldable pub Answers : List ℕ → ℕ → Search → Type 0
Answers xs key (Search.found i) = (i < length xs) × (nth xs i ≡ key)
Answers xs key (Search.missing i) =
    (i ≤ length xs)
    × ((j : ℕ) → j < i → nth xs j < key)
    × ((j : ℕ) → i ≤ j → j < length xs → key < nth xs j)

get_elem?-nth : (xs : List ℕ) (i : ℕ) → i < length xs → get_elem? xs i ≡ some (nth xs i)
unfolding get_elem? nth
get_elem?-nth [] i h = absurd (omega arith)
get_elem?-nth (x ∷ xs) zero h = refl
get_elem?-nth (x ∷ xs) (suc i) h = get_elem?-nth xs i (omega arith)

search_loop-Answers :
    (fuel : ℕ) (xs : List ℕ) (key lo hi : ℕ)
    → IsSorted xs
    → hi - lo < fuel
    → lo ≤ hi
    → hi ≤ length xs
    → ((j : ℕ) → j < lo → nth xs j < key)
    → ((j : ℕ) → hi ≤ j → j < length xs → key < nth xs j)
    → Answers xs key (search_loop fuel xs key lo hi)
unfolding search_loop Answers IsSorted
search_loop-Answers zero xs key lo hi sorted enough le fits below above = absurd (omega arith)
search_loop-Answers (suc fuel) xs key lo hi sorted enough le fits below above =
    let mid = lo + (hi - lo) / 2 in
    elim (Bool-cases (ltb lo hi)) [
      | inr empty ↦ ground arith
      | inl more ↦
          let at = get_elem?-nth xs mid (ground arith) in
          elim (Bool-cases (ltb (nth xs mid) key)) [
            | inl small ↦ ground (
              arith,
              at,
              search_loop-Answers fuel xs key (mid + 1) hi sorted (ground arith) (ground arith) fits
                  (λ j h. ground (arith, sorted j mid)) above,
            )
            | inr not_small ↦ elim (Bool-cases (ltb key (nth xs mid))) [
              | inl large ↦ ground (
                arith,
                at,
                search_loop-Answers fuel xs key lo mid sorted (ground arith) (ground arith)
                    (ground arith) below (λ j h h'. ground (arith, sorted mid j)),
              )
              | inr same ↦ ground (arith, at)
            ]
          ]
    ]

-- On a sorted list the search ends within its fuel, one round more than the list is long, with an
-- index of the key or with the place where it belongs.
pub binary_search-Answers :
    (xs : List ℕ) (key : ℕ) → IsSorted xs → Answers xs key (binary_search xs key)
unfolding binary_search
binary_search-Answers xs key sorted =
    search_loop-Answers (length xs + 1) xs key 0 (length xs) sorted (omega arith) (omega arith)
      (omega arith) (λ j h. absurd (omega arith)) (λ j h h'. absurd (omega arith))
