-- ===== src/Base/StorageMap.antt =====
-- A storage map keyed by numbers (account identifiers, application identifiers): an association
-- list in which the first entry of a key counts. `lookup` is `try_get`, `get_or` is `get` with
-- `ValueQuery`, `insert` is `insert` and the write of `mutate`, `remove` is `remove`.
use zero_dao_node.Base.Tests.{◌==◌, if◌then◌else◌}
use Prim.Native.Nat.{ℕ, ◌+◌, ◌≤◌}
use mathlib.Core.Path.{◌≡◌, refl}
use mathlib.Core.Option.{Option, none, some}
use mathlib.Core.List.{List, [], ◌∷◌}
use native.Mathlib.Omega.{arith}

abbrev pub StorageMap {ℓ} : Type ℓ → Type ℓ
StorageMap V = List (ℕ × V)

module _ {ℓ} {V : Type ℓ} where
  unfoldable pub lookup : ℕ → StorageMap V → Option V
  lookup k [] = none
  lookup k ((j, v) ∷ m) = if k == j then some v else lookup k m

  unfoldable pub get_or : V → ℕ → StorageMap V → V
  get_or d k [] = d
  get_or d k ((j, v) ∷ m) = if k == j then v else get_or d k m

  unfoldable pub insert : ℕ → V → StorageMap V → StorageMap V
  insert k v [] = (k, v) ∷ []
  insert k v ((j, w) ∷ m) = if k == j then (k, v) ∷ m else (j, w) ∷ insert k v m

  unfoldable pub remove : ℕ → StorageMap V → StorageMap V
  remove k [] = []
  remove k ((j, w) ∷ m) = let rest = remove k m in if k == j then rest else (j, w) ∷ rest

  pub lookup-insert :
      (j k : ℕ) (v : V) (m : StorageMap V)
      → lookup j (insert k v m) ≡ (if j == k then some v else lookup j m)
  unfolding lookup insert
  lookup-insert j k v [] = refl
  lookup-insert j k v ((i, w) ∷ m) = ground (arith, lookup-insert j k v m)

  pub get_or-insert :
      (d : V) (j k : ℕ) (v : V) (m : StorageMap V)
      → get_or d j (insert k v m) ≡ (if j == k then v else get_or d j m)
  unfolding get_or insert
  get_or-insert d j k v [] = refl
  get_or-insert d j k v ((i, w) ∷ m) = ground (arith, get_or-insert d j k v m)

  pub lookup-remove :
      (j k : ℕ) (m : StorageMap V) → lookup j (remove k m) ≡ (if j == k then none else lookup j m)
  unfolding lookup remove
  lookup-remove j k [] = ground arith
  lookup-remove j k ((i, w) ∷ m) = ground (arith, lookup-remove j k m)

  -- The sum of a measure over the entries.
  unfoldable pub sum_by : (V → ℕ) → StorageMap V → ℕ
  sum_by f [] = 0
  sum_by f ((j, v) ∷ m) = f v + sum_by f m

  pub sum_by-insert :
      (f : V → ℕ) (d : V) (k : ℕ) (v : V) (m : StorageMap V)
      → f d ≡ 0
      → sum_by f (insert k v m) + f (get_or d k m) ≡ sum_by f m + f v
  unfolding sum_by insert get_or
  sum_by-insert f d k v [] h = omega arith
  sum_by-insert f d k v ((i, w) ∷ m) h = ground (arith, sum_by-insert f d k v m h)

  pub get_or-le-sum_by :
      (f : V → ℕ) (d : V) (k : ℕ) (m : StorageMap V) → f d ≡ 0 → f (get_or d k m) ≤ sum_by f m
  unfolding sum_by get_or
  get_or-le-sum_by f d k [] h = omega arith
  get_or-le-sum_by f d k ((i, w) ∷ m) h = ground (arith, get_or-le-sum_by f d k m h)

  sum_by-remove_fewer : (f : V → ℕ) (k : ℕ) (m : StorageMap V) → sum_by f (remove k m) ≤ sum_by f m
  unfolding sum_by remove
  sum_by-remove_fewer f k [] = omega arith
  sum_by-remove_fewer f k ((j, w) ∷ m) = ground (arith, sum_by-remove_fewer f k m)

  -- A removal takes at least the first entry.
  pub sum_by-remove_le :
      (f : V → ℕ) (k : ℕ) (v : V) (m : StorageMap V)
      → lookup k m ≡ some v
      → sum_by f (remove k m) + f v ≤ sum_by f m
  unfolding sum_by remove lookup
  sum_by-remove_le f k v [] h = absurd (ground arith)
  sum_by-remove_le f k v ((j, w) ∷ m) h =
      ground (arith, sum_by-remove_le f k v m, sum_by-remove_fewer f k m)

  pub sum_by-take_le :
      (f : V → ℕ) (d : V) (k : ℕ) (m : StorageMap V)
      → f d ≡ 0
      → sum_by f (remove k m) + f (get_or d k m) ≤ sum_by f m
  unfolding sum_by remove get_or
  sum_by-take_le f d k [] h = omega arith
  sum_by-take_le f d k ((j, w) ∷ m) h =
      ground (arith, sum_by-take_le f d k m h, sum_by-remove_fewer f k m)
