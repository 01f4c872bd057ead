-- ===== src/Tokens/Calls.antt =====
-- pallets/tokens/src/lib.rs, the dispatchable functions. `origin` is the outcome of `ensure_signed`
-- and `dest` that of the account lookup, both outside this repository.
use zero_dao_node.Base.{ℕ, ◌∷◌}
use zero_dao_node.Dispatch.{Result, ok, ◌>>=◌}
use zero_dao_node.Tokens
use zero_dao_node.Tokens.{Config, TokensState, Event}

module _ {Q : Type 0} (cfg : Config Q) where
  unfoldable pub transfer_social : Result ℕ → Result ℕ → ℕ → TokensState Q → Result (TokensState Q)
  transfer_social origin dest amount s = do
    from ← origin
    to ← dest
    s' ← Tokens.transfer_social cfg from to amount s
    ok (record s' { events = Event.transferred_social from to amount ∷ s'.events })

  unfoldable pub claim : Result ℕ → TokensState Q → Result (TokensState Q)
  claim origin s = do
    who ← origin
    s' ← Tokens.claim cfg who s
    ok (record s' { events = Event.claimed who ∷ s'.events })
