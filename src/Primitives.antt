-- ===== src/Primitives.antt =====
-- primitives/src/lib.rs: the sweeper's fee, the approximate logarithm, the steps of the system and
-- the record of a challenge game.
pub mod Fee
pub mod Metadata
mod Tests
use zero_dao_node.Base.{
  ◌≡◌, refl, ◌⊎◌, inl, inr, ℕ, ◌≤◌, arith, Bool, true, false, ltb, if◌then◌else◌,
}

-- The system is in the state of the algorithm.
pub data TirStep : Type 0 where
  free seed reputation : TirStep

-- `==` of the derived `PartialEq`.
abbrev pub step_eq : TirStep → TirStep → Bool
step_eq TirStep.free TirStep.free = true
step_eq TirStep.seed TirStep.seed = true
step_eq TirStep.reputation TirStep.reputation = true
step_eq _ _ = false

-- The test against the free step is that equality.
pub step_eq-free : (t : TirStep) → (t ≡ TirStep.free) ⊎ (step_eq t TirStep.free ≡ false)
step_eq-free TirStep.free = inl refl
step_eq-free TirStep.seed = inr refl
step_eq-free TirStep.reputation = inr refl

-- `per_social_currency::MIN_TRUST_COUNT`; the percentages are in `Fee`.
abbrev pub min_trust_count : ℕ
min_trust_count = 150

-- The natural logarithm approximated to an integer, up to a maximum of 8.
unfoldable pub appro_ln : ℕ → ℕ
appro_ln value =
    if ltb value 3
    then 1
    else if ltb value 8
    then 2
    else if ltb value 21
    then 3
    else if ltb value 55
    then 4
    else if ltb value 149
    then 5
    else if ltb value 404
    then 6
    else if ltb value 1097
    then 7
    else 8

-- The logarithm lies between 1 and 8 and never falls as the value grows.
pub appro_ln_monotone :
    (a b : ℕ) → a ≤ b → (1 ≤ appro_ln a) × (appro_ln a ≤ appro_ln b) × (appro_ln b ≤ 8)
unfolding appro_ln
appro_ln_monotone a b h = (ground arith, ground arith, ground arith)
