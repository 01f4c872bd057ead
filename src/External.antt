-- ===== src/External.antt =====
-- What the pallets use of code outside this repository, each as a record of operations with the
-- documented behaviour that the proofs rely on. Every pallet takes these as parameters.
use zero_dao_node.Base.{
  ℕ, ◌+◌, ◌*◌, ◌≤◌, ◌<◌, ◌≡◌, ◌≢◌, Bool, false, not, ◌&&◌, ◌||◌, ◌==◌, if◌then◌else◌, u128, List,
  [], ◌∷◌, length, true,
}
use zero_dao_node.Dispatch.{Result, ok}

-- `sp_runtime::Perbill`: parts per billion, with a multiplication that rounds down.
pub record Perbill : Type 0 where
  pub from_percent : ℕ → ℕ
  pub from_perthousand : ℕ → ℕ
  pub mul_floor : ℕ → ℕ → ℕ
  pub from_percent_parts : (n : ℕ) → n ≤ 100 → from_percent n ≡ n * 10_000_000
  pub from_perthousand_parts : (n : ℕ) → n ≤ 1000 → from_perthousand n ≡ n * 1_000_000
  pub mul_floor_below : (p x : ℕ) → mul_floor p x * 1_000_000_000 ≤ p * x
  pub mul_floor_above : (p x : ℕ) → p * x < (mul_floor p x + 1) * 1_000_000_000

-- `orml_traits::MultiCurrency` at one currency, over a storage `Q`.
pub record MultiCurrency (Q : Type 0) : Type 0 where
  pub free_balance : ℕ → Q → ℕ
  pub transfer : ℕ → ℕ → ℕ → Q → Result Q
  pub slash : ℕ → ℕ → Q → Q
  pub free_balance_bound : (a : ℕ) (q : Q) → free_balance a q < u128
  pub transfer_from :
      (a b n : ℕ) (q q' : Q)
      → a ≢ b
      → transfer a b n q ≡ ok q'
      → free_balance a q' + n ≡ free_balance a q
  pub transfer_to :
      (a b n : ℕ) (q q' : Q)
      → a ≢ b
      → transfer a b n q ≡ ok q'
      → free_balance b q' ≡ free_balance b q + n
  pub slash_at_most : (a n : ℕ) (q : Q) → free_balance a q ≤ free_balance a (slash a n q) + n

-- `orml_utilities::OrderedSet` of account identifiers. `to_vec` is its field `0`, `sub_set`
-- removes every element of a vector.
pub record OrderedSet (S : Type 0) : Type 0 where
  pub empty : S
  pub contains : ℕ → S → Bool
  pub insert : ℕ → S → S
  pub remove : ℕ → S → S
  pub len : S → ℕ
  pub to_vec : S → List ℕ
  pub sub_set : List ℕ → S → S
  pub contains-empty : (x : ℕ) → contains x empty ≡ false
  pub contains-insert : (x y : ℕ) (s : S) → contains x (insert y s) ≡ (x == y || contains x s)
  pub contains-remove : (x y : ℕ) (s : S) → contains x (remove y s) ≡ (not (x == y) && contains x s)
  pub len-empty : len empty ≡ 0
  pub len-insert : (x : ℕ) (s : S) → len (insert x s) ≡ (if contains x s then len s else len s + 1)
  pub len-remove : (x : ℕ) (s : S) → len (remove x s) + (if contains x s then 1 else 0) ≡ len s

-- The list is strictly ascending.
abbrev pub IsAscending : {A : Type 0} → (A → A → Bool) → List A → Type 0
IsAscending before [] = Unit {0}
IsAscending before (x ∷ []) = Unit {0}
IsAscending before (x ∷ y ∷ ys) = (before x y ≡ true) × IsAscending before (y ∷ ys)

abbrev pub sum_of : {A : Type 0} → (A → ℕ) → List A → ℕ
sum_of f [] = 0
sum_of f (x ∷ xs) = f x + sum_of f xs

-- `orml_utilities::OrderedSet` of another type, as its field `0`: `from` sorts a vector and removes
-- repetitions, so that it keeps the elements where it keeps their number.
pub record SortedSet (A : Type 0) (before : A → A → Bool) : Type 0 where
  pub from : List A → List A
  pub from-IsAscending : (v : List A) → IsAscending before (from v)
  pub from-sum :
      (v : List A) (f : A → ℕ) → length (from v) ≡ length v → sum_of f (from v) ≡ sum_of f v
