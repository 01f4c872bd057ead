-- ===== src/RefreshSeeds/Orders.antt =====
-- pallets/refresh-seeds/src/types.rs: the serial numbers of the hash tree, and how they are kept in
-- the 64-bit score of a challenge game.
use zero_dao_node.Base.{
  ℕ, zero, suc, ◌+◌, ◌-◌, ◌*◌, ◌/◌, ◌%◌, ◌≤◌, ◌<◌, ◌≡◌, refl, Option, none, some, List, [], ◌∷◌,
  ◌++◌, length, take, length-append, ltb, leb, if◌then◌else◌, arith, u64,
}
use zero_dao_node.Dispatch.{Result, ok, err, DispatchError}

-- `APP_ID`, the bytes of "seed    " as a number; `DEEP`, `RANGE`, `MAX_SHORTEST_PATH` and
-- `MAX_HASH_COUNT`.
abbrev pub app_id : ℕ
app_id = 8_315_163_767_719_600_160

abbrev pub deep_limit : ℕ
deep_limit = 4

abbrev pub range : ℕ
range = 2

abbrev pub max_shortest_path : ℕ
max_shortest_path = 100

abbrev pub max_hash_count : ℕ
max_hash_count = 256

-- `[u8; RANGE]`
pub record Order : Type 0 where
  pub byte0 : ℕ
  pub byte1 : ℕ

abbrev pub order_bytes : Order → List ℕ
order_bytes order = order.byte0 ∷ order.byte1 ∷ []

-- `FullOrder`
abbrev pub FullOrder : Type 0
FullOrder = List ℕ

-- `u64::from_le_bytes` and `u64::to_le_bytes`, for any number of bytes.
unfoldable pub from_le_bytes : List ℕ → ℕ
from_le_bytes [] = 0
from_le_bytes (b ∷ bs) = b + 256 * from_le_bytes bs

unfoldable pub to_le_bytes : ℕ → ℕ → List ℕ
to_le_bytes zero n = []
to_le_bytes (suc k) n = n % 256 ∷ to_le_bytes k (n / 256)

unfoldable pub zeros : ℕ → List ℕ
zeros zero = []
zeros (suc n) = 0 ∷ zeros n

-- The number, and the order filled up to eight bytes in place.
unfoldable pub try_to_u64 : FullOrder → Option (ℕ × FullOrder)
try_to_u64 full_order =
    let filled = full_order ++ zeros (8 - length full_order) in
    if ltb 8 (length full_order) then none else some (from_le_bytes filled, filled)

-- The slice of nine or ten of eight bytes panics.
unfoldable pub from_u64 : ℕ → ℕ → Result FullOrder
from_u64 from deep =
    let len = (deep - 1) * range in
    if leb deep 1
    then ok []
    else if ltb 10 len
    then ok (to_le_bytes 8 from)
    else if leb len 8
    then ok (take len (to_le_bytes 8 from))
    else err DispatchError.panic

abbrev pub connect : FullOrder → Order → FullOrder
connect full_order order = full_order ++ order_bytes order

unfoldable pub connect_to_u64 : FullOrder → Order → Option (ℕ × FullOrder)
connect_to_u64 full_order order = try_to_u64 (connect full_order order)

-- Every element is a byte.
unfoldable pub IsBytes : List ℕ → Type 0
IsBytes [] = Unit {0}
IsBytes (b ∷ bs) = (b < 256) × IsBytes bs

from_le_bytes-zeros : (bs : List ℕ) (n : ℕ) → from_le_bytes (bs ++ zeros n) ≡ from_le_bytes bs
unfolding from_le_bytes zeros
from_le_bytes-zeros [] zero = refl
from_le_bytes-zeros [] (suc n) = omega (arith, from_le_bytes-zeros [] n)
from_le_bytes-zeros (b ∷ bs) n = omega (arith, from_le_bytes-zeros bs n)

take-to_le_bytes :
    (k : ℕ) (bs : List ℕ)
    → IsBytes bs
    → length bs ≤ k
    → take (length bs) (to_le_bytes k (from_le_bytes bs)) ≡ bs
unfolding IsBytes from_le_bytes to_le_bytes take
take-to_le_bytes k [] h le = refl
take-to_le_bytes zero (b ∷ bs) h le = absurd (omega arith)
take-to_le_bytes (suc k) (b ∷ bs) (byte, bytes) le =
    let low : (b + 256 * from_le_bytes bs) % 256 ≡ b = omega arith in
    let high : (b + 256 * from_le_bytes bs) / 256 ≡ from_le_bytes bs = omega arith in
    ground (arith, low, high, take-to_le_bytes k bs bytes (omega arith))

-- How many numbers `k` bytes hold.
values : ℕ → ℕ
values zero = 1
values (suc k) = 256 * values k

from_le_bytes-lt : (k : ℕ) (bs : List ℕ) → IsBytes bs → length bs ≤ k → from_le_bytes bs < values k
unfolding IsBytes from_le_bytes values
from_le_bytes-lt zero [] h le = omega arith
from_le_bytes-lt (suc k) [] h le = omega (arith, from_le_bytes-lt k [] h (omega arith))
from_le_bytes-lt zero (b ∷ bs) h le = absurd (omega arith)
from_le_bytes-lt (suc k) (b ∷ bs) (byte, bytes) le =
    omega (arith, from_le_bytes-lt k bs bytes (omega arith))

connect-IsBytes :
    (bs : List ℕ) (order : Order)
    → IsBytes bs
    → order.byte0 < 256
    → order.byte1 < 256
    → IsBytes (connect bs order)
unfolding IsBytes
connect-IsBytes [] order h b0 b1 = (b0, (b1, tt))
connect-IsBytes (b ∷ bs) order (byte, bytes) b0 b1 = (byte, connect-IsBytes bs order bytes b0 b1)

-- A serial number of a depth within the limit fits 64 bits, and is read back from the number and its
-- depth, also after another level is connected to it.
pub from_u64-connect_to_u64 :
    (full_order : FullOrder) (order : Order) (deep : ℕ)
    → IsBytes full_order
    → order.byte0 < 256
    → order.byte1 < 256
    → 1 ≤ deep
    → deep ≤ deep_limit
    → length full_order ≡ (deep - 1) * range
    → (n : ℕ) × (filled : FullOrder) × (connect_to_u64 full_order order ≡ some (n, filled))
      × (n < u64)
      × (from_u64 n (deep + 1) ≡ ok (connect full_order order))
unfolding connect_to_u64 try_to_u64 from_u64 values
from_u64-connect_to_u64 full_order order deep bytes b0 b1 some_deep in_deep len =
    let whole = connect full_order order in
    let size : length whole ≡ deep * 2 =
      omega (arith, length-append full_order (order_bytes order)) in
    let all_bytes = connect-IsBytes full_order order bytes b0 b1 in
    let same = from_le_bytes-zeros whole (8 - length whole) in
    (
      from_le_bytes (whole ++ zeros (8 - length whole)),
      whole ++ zeros (8 - length whole),
      ground (arith, size),
      omega (arith, same, from_le_bytes-lt 8 whole all_bytes (omega (arith, size))),
      ground (arith, size, same, take-to_le_bytes 8 whole all_bytes (omega (arith, size))),
    )
