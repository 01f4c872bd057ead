-- ===== src/RefreshSeeds/Composed.antt =====
-- runtime/src/lib.rs: pallets/refresh-seeds over pallets/challenges, by one storage.
use zero_dao_node.Base.{ℕ}
use zero_dao_node.RefreshSeeds.{Config}
use zero_dao_node.RefreshSeeds.Games.{GameWorld, seeds_games}

module _ {T W : Type 0} where
  -- The configuration with the pallet of challenges, which shares the ledger of the tokens.
  abbrev pub over_challenges : Config T (GameWorld W) → ℕ → ℕ → Config T (GameWorld W)
  over_challenges cfg timeout stake = record cfg {
    challenge_base = seeds_games (cfg.token) (cfg.perbill) timeout stake;
  }
