-- ===== src/Base/DoubleMap.antt =====
-- A storage double map keyed by two numbers: an association list, which the operations keep free of
-- repeated keys.
use zero_dao_node.Base.Tests.{◌==◌, if◌then◌else◌}
use Prim.Native.Nat.{ℕ, ◌+◌, ◌≤◌}
use mathlib.Core.Path.{◌≡◌, refl}
use mathlib.Core.Bool.{Bool, true, false, ◌&&◌}
use mathlib.Core.Option.{Option, none, some}
use mathlib.Core.List.{List, [], ◌∷◌}
use native.Mathlib.Omega.{arith}

pub record Entry (V : Type 0) : Type 0 where
  pub key1 : ℕ
  pub key2 : ℕ
  pub value : V

abbrev pub DoubleMap : Type 0 → Type 0
DoubleMap V = List (Entry V)

module _ {V : Type 0} where
  abbrev pub is_at : ℕ → ℕ → Entry V → Bool
  is_at a b e = a == e.key1 && b == e.key2

  unfoldable pub lookup : ℕ → ℕ → DoubleMap V → Option V
  lookup a b [] = none
  lookup a b (e ∷ m) = if is_at a b e then some e.value else lookup a b m

  unfoldable pub insert : ℕ → ℕ → V → DoubleMap V → DoubleMap V
  insert a b v [] = record { key1 = a; key2 = b; value = v } ∷ []
  insert a b v (e ∷ m) =
      if is_at a b e then record { key1 = a; key2 = b; value = v } ∷ m else e ∷ insert a b v m

  unfoldable pub remove : ℕ → ℕ → DoubleMap V → DoubleMap V
  remove a b [] = []
  remove a b (e ∷ m) = let rest = remove a b m in if is_at a b e then rest else e ∷ rest

  unfoldable pub remove_prefix : ℕ → DoubleMap V → DoubleMap V
  remove_prefix a [] = []
  remove_prefix a (e ∷ m) = let rest = remove_prefix a m in if a == e.key1 then rest else e ∷ rest

  -- `iter_prefix_values(a).next().is_none()`
  unfoldable pub is_empty_at : ℕ → DoubleMap V → Bool
  is_empty_at a [] = true
  is_empty_at a (e ∷ m) = let rest = is_empty_at a m in if a == e.key1 then false else rest

  unfoldable pub sum_by : (V → ℕ) → DoubleMap V → ℕ
  sum_by f [] = 0
  sum_by f (e ∷ m) = f e.value + sum_by f m

  -- No key has two entries.
  abbrev pub IsUnique : DoubleMap V → Type 0
  IsUnique [] = Unit {0}
  IsUnique (e ∷ m) = (lookup e.key1 e.key2 m ≡ none) × IsUnique m

  pub lookup-insert :
      (c d a b : ℕ) (v : V) (m : DoubleMap V)
      → lookup c d (insert a b v m) ≡ (if c == a && d == b then some v else lookup c d m)
  unfolding lookup insert
  lookup-insert c d a b v [] = refl
  lookup-insert c d a b v (e ∷ m) = ground (arith, lookup-insert c d a b v m)

  pub lookup-remove :
      (c d a b : ℕ) (m : DoubleMap V)
      → lookup c d (remove a b m) ≡ (if c == a && d == b then none else lookup c d m)
  unfolding lookup remove
  lookup-remove c d a b [] = ground arith
  lookup-remove c d a b (e ∷ m) = ground (arith, lookup-remove c d a b m)

  pub insert-IsUnique : (a b : ℕ) (v : V) (m : DoubleMap V) → IsUnique m → IsUnique (insert a b v m)
  unfolding insert lookup
  insert-IsUnique a b v [] h = (refl, tt)
  insert-IsUnique a b v (e ∷ m) h =
      ground (arith, insert-IsUnique a b v m h.1, lookup-insert e.key1 e.key2 a b v m)

  pub remove-IsUnique : (a b : ℕ) (m : DoubleMap V) → IsUnique m → IsUnique (remove a b m)
  unfolding remove
  remove-IsUnique a b [] h = tt
  remove-IsUnique a b (e ∷ m) h =
      ground (arith, remove-IsUnique a b m h.1, lookup-remove e.key1 e.key2 a b m)

  abbrev pub measure : (V → ℕ) → Option V → ℕ
  measure f none = 0
  measure f (some v) = f v

  pub sum_by-insert :
      (f : V → ℕ) (a b : ℕ) (v : V) (m : DoubleMap V)
      → sum_by f (insert a b v m) + measure f (lookup a b m) ≡ sum_by f m + f v
  unfolding sum_by insert lookup
  sum_by-insert f a b v [] = omega arith
  sum_by-insert f a b v (e ∷ m) = ground (arith, sum_by-insert f a b v m)

  remove_none : (f : V → ℕ) (a b : ℕ) (m : DoubleMap V) → lookup a b m ≡ none → remove a b m ≡ m
  unfolding lookup remove
  remove_none f a b [] h = refl
  remove_none f a b (e ∷ m) h = ground (arith, remove_none f a b m)

  pub sum_by-remove :
      (f : V → ℕ) (a b : ℕ) (m : DoubleMap V)
      → IsUnique m
      → sum_by f (remove a b m) + measure f (lookup a b m) ≡ sum_by f m
  unfolding sum_by remove lookup
  sum_by-remove f a b [] h = refl
  sum_by-remove f a b (e ∷ m) h = ground (arith, sum_by-remove f a b m h.1, remove_none f a b m)

  -- With repeated keys a removal takes at least the first entry.
  pub sum_by-remove_le :
      (f : V → ℕ) (a b : ℕ) (m : DoubleMap V)
      → sum_by f (remove a b m) + measure f (lookup a b m) ≤ sum_by f m
  unfolding sum_by remove lookup
  sum_by-remove_le f a b [] = omega arith
  sum_by-remove_le f a b (e ∷ m) = ground (arith, sum_by-remove_le f a b m)

  -- Under an empty prefix no key is found.
  pub is_empty_at-lookup :
      (a b : ℕ) (m : DoubleMap V) → is_empty_at a m ≡ true → lookup a b m ≡ none
  unfolding is_empty_at lookup
  is_empty_at-lookup a b [] h = refl
  is_empty_at-lookup a b (e ∷ m) h = ground (arith, is_empty_at-lookup a b m)
