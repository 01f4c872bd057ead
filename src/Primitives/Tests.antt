-- ===== src/Primitives/Tests.antt =====
-- primitives/src/lib.rs at concrete values.
use zero_dao_node.Base.{◌+◌, ◌*◌, ◌≤◌, ◌<◌, ◌≡◌, refl, ◌⊎◌, none, some, arith}
use zero_dao_node.Fixtures.{parts}
use zero_dao_node.Primitives.{appro_ln}
use zero_dao_node.Primitives.Fee.{checked_with_fee, with_fee, checked_with_fee_splits}

checked_with_fee_splits_example :
    ((10 + 500 < 511)
      × (checked_with_fee parts 1000 10 511 ≡ some (with_fee parts 1000))
      × ((with_fee parts 1000).0 + (with_fee parts 1000).1 ≡ 1000)
      × ((with_fee parts 1000).0 * 50 ≤ 1000))
    ⊎ ((511 ≤ 10 + 500) × (checked_with_fee parts 1000 10 511 ≡ none))
checked_with_fee_splits_example = checked_with_fee_splits parts 1000 10 511 (omega arith)

fee_of_1049 : with_fee parts 1049 ≡ (20, 1029)
unfolding with_fee
fee_of_1049 = refl

appro_ln_edge : appro_ln 1097 ≡ 8
unfolding appro_ln
appro_ln_edge = refl
