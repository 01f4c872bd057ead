-- ===== src/Fixtures.antt =====
-- Concrete functions that meet the assumptions of `External`, for the examples: a percentage by
-- division, a ledger of balances, and a set as a list, in which a
-- repetition does not count.
use zero_dao_node.Base.{
  ℕ, ◌+◌, ◌-◌, ◌*◌, ◌/◌, ◌%◌, ◌≤◌, ◌<◌, ◌≡◌, refl, ◌≢◌, ◌&&◌, arith, ltb, leb, ◌==◌, if◌then◌else◌,
  u128, List, [], ◌∷◌, Bool, false, not, ◌||◌,
}
use zero_dao_node.Base.StorageMap.{StorageMap, get_or, insert, get_or-insert}
use zero_dao_node.Dispatch.{Result, ok, err, DispatchError}
use zero_dao_node.External.{Perbill, MultiCurrency, OrderedSet}

pub mul_floor_below : (p x : ℕ) → p * x / 1_000_000_000 * 1_000_000_000 ≤ p * x
mul_floor_below p x = omega arith

pub mul_floor_above : (p x : ℕ) → p * x < (p * x / 1_000_000_000 + 1) * 1_000_000_000
mul_floor_above p x = omega arith

abbrev pub parts : Perbill
parts = record {
  from_percent = λ n. n * 10_000_000;
  from_perthousand = λ n. n * 1_000_000;
  mul_floor = λ p x. p * x / 1_000_000_000;
  from_percent_parts = λ n h. refl;
  from_perthousand_parts = λ n h. refl;
  mul_floor_below = mul_floor_below;
  mul_floor_above = mul_floor_above;
}

-- The balance of an account, as a `u128`.
unfoldable pub balance : ℕ → StorageMap ℕ → ℕ
balance a q = get_or 0 a q % u128

unfoldable pub move : ℕ → ℕ → ℕ → StorageMap ℕ → Result (StorageMap ℕ)
move a b n q =
    if a == b
    then ok q
    else if leb n (balance a q) && ltb (balance b q + n) u128
    then ok (insert b (balance b q + n) (insert a (balance a q - n) q))
    else err DispatchError.currency

unfoldable pub burn : ℕ → ℕ → StorageMap ℕ → StorageMap ℕ
burn a n q = insert a (balance a q - n) q

pub balance_bound : (a : ℕ) (q : StorageMap ℕ) → balance a q < u128
unfolding balance
balance_bound a q = omega arith

pub move_from :
    (a b n : ℕ) (q q' : StorageMap ℕ)
    → a ≢ b
    → move a b n q ≡ ok q'
    → balance a q' + n ≡ balance a q
unfolding move balance
move_from a b n q q' h e =
    let m = insert a (balance a q - n) q in
    ground (arith, get_or-insert 0 a b (balance b q + n) m, get_or-insert 0 a a (balance a q - n) q)

pub move_to :
    (a b n : ℕ) (q q' : StorageMap ℕ)
    → a ≢ b
    → move a b n q ≡ ok q'
    → balance b q' ≡ balance b q + n
unfolding move balance
move_to a b n q q' h e =
    ground (arith, get_or-insert 0 b b (balance b q + n) (insert a (balance a q - n) q))

pub burn_at_most : (a n : ℕ) (q : StorageMap ℕ) → balance a q ≤ balance a (burn a n q) + n
unfolding burn balance
burn_at_most a n q = ground (arith, get_or-insert 0 a a (balance a q - n) q)

abbrev pub ledger : MultiCurrency (StorageMap ℕ)
ledger = record {
  free_balance = balance;
  transfer = move;
  slash = burn;
  free_balance_bound = balance_bound;
  transfer_from = move_from;
  transfer_to = move_to;
  slash_at_most = burn_at_most;
}

unfoldable pub contains : ℕ → List ℕ → Bool
contains x [] = false
contains x (y ∷ ys) = x == y || contains x ys

unfoldable pub add : ℕ → List ℕ → List ℕ
add x ys = if contains x ys then ys else x ∷ ys

unfoldable pub without : ℕ → List ℕ → List ℕ
without x [] = []
without x (y ∷ ys) = let rest = without x ys in if x == y then rest else y ∷ rest

unfoldable pub count : List ℕ → ℕ
count [] = 0
count (y ∷ ys) = if contains y ys then count ys else count ys + 1

unfoldable pub without_all : List ℕ → List ℕ → List ℕ
without_all [] ys = ys
without_all (x ∷ xs) ys = without x (without_all xs ys)

pub contains-nil : (x : ℕ) → contains x [] ≡ false
unfolding contains
contains-nil x = refl

pub count-nil : count [] ≡ 0
unfolding count
count-nil = refl

pub contains-add : (x y : ℕ) (ys : List ℕ) → contains x (add y ys) ≡ (x == y || contains x ys)
unfolding contains add
contains-add x y ys = ground arith

pub contains-without :
    (x y : ℕ) (ys : List ℕ) → contains x (without y ys) ≡ (not (x == y) && contains x ys)
unfolding contains without
contains-without x y [] = ground arith
contains-without x y (z ∷ ys) = ground (arith, contains-without x y ys)

pub count-add :
    (x : ℕ) (ys : List ℕ) → count (add x ys) ≡ (if contains x ys then count ys else count ys + 1)
unfolding count add
count-add x ys = ground arith

pub count-without :
    (x : ℕ) (ys : List ℕ) → count (without x ys) + (if contains x ys then 1 else 0) ≡ count ys
unfolding count without contains
count-without x [] = refl
count-without x (y ∷ ys) = ground (arith, count-without x ys, contains-without y x ys)

abbrev pub listed : OrderedSet (List ℕ)
listed = record {
  empty = [];
  contains = contains;
  insert = add;
  remove = without;
  len = count;
  to_vec = λ ys. ys;
  sub_set = without_all;
  contains-empty = contains-nil;
  contains-insert = contains-add;
  contains-remove = contains-without;
  len-empty = count-nil;
  len-insert = count-add;
  len-remove = count-without;
}
