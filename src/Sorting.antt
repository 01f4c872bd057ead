-- ===== src/Sorting.antt =====
-- A concrete set that is kept as an ascending list, for the examples: `from` inserts the elements one
-- by one, in which one that is not before or behind another counts as a repetition.
use zero_dao_node.Base.{
  ℕ, ◌+◌, ◌≤◌, ◌≡◌, inl, inr, refl, subst, List, [], ◌∷◌, Bool, true, Bool-cases, length,
  if◌then◌else◌, arith,
}
use zero_dao_node.External.{IsAscending, sum_of, SortedSet}

module _ {A : Type 0} (before : A → A → Bool) where
  unfoldable pub insert_new : A → List A → List A
  insert_new x [] = x ∷ []
  insert_new x (y ∷ ys) =
      let rest = insert_new x ys in
      if before x y then x ∷ y ∷ ys else if before y x then y ∷ rest else y ∷ ys

  unfoldable pub from_list : List A → List A
  from_list [] = []
  from_list (x ∷ xs) = insert_new x (from_list xs)

  insert_new-above :
      (x y : A) (ys : List A)
      → before y x ≡ true
      → IsAscending before (y ∷ ys)
      → IsAscending before (y ∷ insert_new x ys)
  unfolding insert_new
  insert_new-above x y [] h asc = (h, tt)
  insert_new-above x y (z ∷ zs) h (yz, asc) =
      let rest = insert_new x zs in
      elim (Bool-cases (before x z)) [
        | inl less ↦
            let at : x ∷ z ∷ zs ≡ insert_new x (z ∷ zs) = ground arith in
            let ordered : IsAscending before (y ∷ x ∷ z ∷ zs) = (h, (less, asc)) in
            subst (λ l. IsAscending before (y ∷ l)) at ordered
        | inr not_less ↦ elim (Bool-cases (before z x)) [
          | inl more ↦
              let at : z ∷ rest ≡ insert_new x (z ∷ zs) = ground arith in
              let ordered : IsAscending before (y ∷ z ∷ rest) =
                (yz, insert_new-above x z zs more asc) in
              subst (λ l. IsAscending before (y ∷ l)) at ordered
          | inr same ↦
              let at : z ∷ zs ≡ insert_new x (z ∷ zs) = ground arith in
              let ordered : IsAscending before (y ∷ z ∷ zs) = (yz, asc) in
              subst (λ l. IsAscending before (y ∷ l)) at ordered
        ]
      ]

  insert_new-IsAscending :
      (x : A) (ys : List A) → IsAscending before ys → IsAscending before (insert_new x ys)
  unfolding insert_new
  insert_new-IsAscending x [] asc = tt
  insert_new-IsAscending x (y ∷ ys) asc =
      let rest = insert_new x ys in
      elim (Bool-cases (before x y)) [
        | inl less ↦
            let at : x ∷ y ∷ ys ≡ insert_new x (y ∷ ys) = ground arith in
            let ordered : IsAscending before (x ∷ y ∷ ys) = (less, asc) in
            subst (λ l. IsAscending before l) at ordered
        | inr not_less ↦ elim (Bool-cases (before y x)) [
          | inl more ↦
              let at : y ∷ rest ≡ insert_new x (y ∷ ys) = ground arith in
              subst (λ l. IsAscending before l) at (insert_new-above x y ys more asc)
          | inr same ↦
              let at : y ∷ ys ≡ insert_new x (y ∷ ys) = ground arith in
              subst (λ l. IsAscending before l) at asc
        ]
      ]

  pub from_list-IsAscending : (v : List A) → IsAscending before (from_list v)
  unfolding from_list
  from_list-IsAscending [] = tt
  from_list-IsAscending (x ∷ xs) =
      insert_new-IsAscending x (from_list xs) (from_list-IsAscending xs)

  insert_new-length : (x : A) (ys : List A) → length (insert_new x ys) ≤ length ys + 1
  unfolding insert_new
  insert_new-length x [] = ground arith
  insert_new-length x (y ∷ ys) = ground (arith, insert_new-length x ys)

  insert_new-sum :
      (f : A → ℕ) (x : A) (ys : List A)
      → length (insert_new x ys) ≡ length ys + 1
      → sum_of f (insert_new x ys) ≡ f x + sum_of f ys
  unfolding insert_new
  insert_new-sum f x [] e = ground arith
  insert_new-sum f x (y ∷ ys) e = ground (arith, insert_new-sum f x ys)

  from_list-length : (v : List A) → length (from_list v) ≤ length v
  unfolding from_list
  from_list-length [] = ground arith
  from_list-length (x ∷ xs) =
      ground (arith, from_list-length xs, insert_new-length x (from_list xs))

  pub from_list-sum :
      (v : List A) (f : A → ℕ)
      → length (from_list v) ≡ length v
      → sum_of f (from_list v) ≡ sum_of f v
  unfolding from_list
  from_list-sum [] f e = refl
  from_list-sum (x ∷ xs) f e = ground (
    arith,
    from_list-length xs,
    insert_new-length x (from_list xs),
    insert_new-sum f x (from_list xs),
    from_list-sum xs f,
  )

  abbrev pub sorting : SortedSet A before
  sorting = record {
    from = from_list;
    from-IsAscending = from_list-IsAscending;
    from-sum = from_list-sum;
  }
