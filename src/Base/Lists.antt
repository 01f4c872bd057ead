-- ===== src/Base/Lists.antt =====
-- Lists measured and indexed by native numbers.
use Prim.Native.Nat.{ℕ, zero, suc, ◌+◌, ◌-◌, ◌≤◌, ◌<◌}
use mathlib.Core.Path.{◌≡◌}
use mathlib.Core.List.{List, [], ◌∷◌, ◌++◌}
use mathlib.Core.Option.{Option, none, some}
use native.Mathlib.Omega.{arith}

module _ {ℓ} {A : Type ℓ} where
  abbrev pub length : List A → ℕ
  length [] = 0
  length (x ∷ xs) = suc (length xs)

  pub length-append : (xs ys : List A) → length (xs ++ ys) ≡ length xs + length ys
  length-append [] ys = omega arith
  length-append (x ∷ xs) ys = omega (arith, length-append xs ys)

  -- The element at an index, `none` past the end.
  unfoldable pub get_elem? : List A → ℕ → Option A
  get_elem? [] i = none
  get_elem? (x ∷ xs) zero = some x
  get_elem? (x ∷ xs) (suc i) = get_elem? xs i

  -- `Vec::insert`, `Vec::remove` and the slices `[n..]` and `[..n]`, at an index in the range.
  unfoldable pub insert_at : ℕ → A → List A → List A
  insert_at zero x ys = x ∷ ys
  insert_at (suc i) x [] = x ∷ []
  insert_at (suc i) x (y ∷ ys) = y ∷ insert_at i x ys

  unfoldable pub remove_at : ℕ → List A → List A
  remove_at i [] = []
  remove_at zero (y ∷ ys) = ys
  remove_at (suc i) (y ∷ ys) = y ∷ remove_at i ys

  unfoldable pub drop : ℕ → List A → List A
  drop zero ys = ys
  drop (suc n) [] = []
  drop (suc n) (y ∷ ys) = drop n ys

  unfoldable pub take : ℕ → List A → List A
  take zero ys = []
  take (suc n) [] = []
  take (suc n) (y ∷ ys) = y ∷ take n ys

  unfoldable pub last? : List A → Option A
  last? [] = none
  last? (x ∷ []) = some x
  last? (x ∷ y ∷ ys) = last? (y ∷ ys)

  pub length-insert_at : (i : ℕ) (x : A) (ys : List A) → length (insert_at i x ys) ≡ length ys + 1
  unfolding insert_at
  length-insert_at zero x ys = omega arith
  length-insert_at (suc i) x [] = omega arith
  length-insert_at (suc i) x (y ∷ ys) = omega (arith, length-insert_at i x ys)

  pub length-remove_at :
      (i : ℕ) (ys : List A) → i < length ys → length (remove_at i ys) + 1 ≡ length ys
  unfolding remove_at
  length-remove_at i [] h = absurd (omega arith)
  length-remove_at zero (y ∷ ys) h = omega arith
  length-remove_at (suc i) (y ∷ ys) h = omega (arith, length-remove_at i ys (omega arith))

  pub length-drop : (n : ℕ) (ys : List A) → length (drop n ys) ≡ length ys - n
  unfolding drop
  length-drop zero ys = omega arith
  length-drop (suc n) [] = omega arith
  length-drop (suc n) (y ∷ ys) = omega (arith, length-drop n ys)

  pub length-take : (n : ℕ) (ys : List A) → n ≤ length ys → length (take n ys) ≡ n
  unfolding take
  length-take zero ys h = omega arith
  length-take (suc n) [] h = absurd (omega arith)
  length-take (suc n) (y ∷ ys) h = omega (arith, length-take n ys (omega arith))
