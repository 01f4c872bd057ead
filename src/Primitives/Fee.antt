-- ===== src/Primitives/Fee.antt =====
-- primitives/src/lib.rs, `per_social_currency` and `fee`: the percentages of a distribution, and
-- what a sweeper may take.
use zero_dao_node.Base.{
  ℕ, ◌+◌, ◌*◌, ◌≤◌, ◌<◌, ◌≡◌, ap, ◌⊎◌, Bool, Option, none, some, arith, ltb, if◌then◌else◌,
  wrapping_add, saturating_sub, u64,
}
use zero_dao_node.External.{Perbill}

-- `SWEEPER_PERIOD`
abbrev pub sweeper_period : ℕ
sweeper_period = 500

-- Whether a sweeper may take part at block `now`, when the last activity was at block `last`.
unfoldable pub is_allowed_sweeper : ℕ → ℕ → Bool
is_allowed_sweeper last now = ltb (wrapping_add u64 last sweeper_period) now

module _ (pb : Perbill) where
  open pb use {from_percent, from_perthousand, mul_floor}

  -- `SWEEPER_PICKUP_RATIO`
  abbrev pub sweeper_pickup_ratio : ℕ
  sweeper_pickup_ratio = from_perthousand 20

  -- `PRE_RESERVED`, `PRE_SHARE`, `PRE_BURN` and `PRE_FEE`
  abbrev pub pre_reserved : ℕ
  pre_reserved = from_percent 10

  abbrev pub pre_share : ℕ
  pre_share = from_percent 10

  abbrev pub pre_burn : ℕ
  pre_burn = from_percent 10

  abbrev pub pre_fee : ℕ
  pre_fee = from_percent 10

  -- The fee and the remaining amount.
  unfoldable pub with_fee : ℕ → ℕ × ℕ
  with_fee amount =
      let sweeper_fee = mul_floor sweeper_pickup_ratio amount in
      (sweeper_fee, saturating_sub amount sweeper_fee)

  unfoldable pub checked_with_fee : ℕ → ℕ → ℕ → Option (ℕ × ℕ)
  checked_with_fee amount last now =
      if is_allowed_sweeper last now then some (with_fee amount) else none

  -- A share of `n` percent is at most that.
  pub mul_floor_percent : (n x : ℕ) → n ≤ 100 → mul_floor (from_percent n) x * 100 ≤ n * x
  mul_floor_percent n x h = omega (
    arith,
    pb.mul_floor_below (from_percent n) x,
    pb.from_percent_parts n h,
    ap (λ (t : ℕ). t * x) (pb.from_percent_parts n h),
  )

  mul_floor_perthousand : (n x : ℕ) → n ≤ 1000 → mul_floor (from_perthousand n) x * 1000 ≤ n * x
  mul_floor_perthousand n x h = omega (
    arith,
    pb.mul_floor_below (from_perthousand n) x,
    pb.from_perthousand_parts n h,
    ap (λ (t : ℕ). t * x) (pb.from_perthousand_parts n h),
  )

  -- A sweeper is paid exactly when more than `sweeper_period` blocks have passed; the fee is then
  -- at most a fiftieth, and fee and remainder make up the amount.
  pub checked_with_fee_splits :
      (amount last now : ℕ)
      → last + sweeper_period < u64
      → ((last + sweeper_period < now)
          × (checked_with_fee amount last now ≡ some (with_fee amount))
          × ((with_fee amount).0 + (with_fee amount).1 ≡ amount)
          × ((with_fee amount).0 * 50 ≤ amount))
        ⊎ ((now ≤ last + sweeper_period) × (checked_with_fee amount last now ≡ none))
  unfolding checked_with_fee with_fee is_allowed_sweeper
  checked_with_fee_splits amount last now h =
      ground (arith, mul_floor_perthousand 20 amount (omega arith))

  -- The fee and the remainder always make up the amount.
  pub with_fee_sum : (amount : ℕ) → (with_fee amount).0 + (with_fee amount).1 ≡ amount
  unfolding with_fee
  with_fee_sum amount = omega (arith, mul_floor_perthousand 20 amount (omega arith))
