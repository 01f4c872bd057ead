-- ===== src/Support/Backed.antt =====
-- pallets/support/src/challenges.rs: what a client asks of the games for its funds. The pools of the
-- games must not grow by more than the staked total and what a launch is given.
use zero_dao_node.Base.{ℕ, ◌+◌, ◌≤◌, ◌<◌, ◌≡◌, u128}
use zero_dao_node.Dispatch.{ok}
use zero_dao_node.Primitives.Metadata.{Metadata}
use zero_dao_node.Support.{ChallengeBase}
use zero_dao_node.Support.Framed.{Framed, StatusKeeps}

-- The staked total is the same.
abbrev pub SameStaked : {S : Type 0} → (S → ℕ) → S → S → Type 0
SameStaked staked s s' = staked s' ≡ staked s

module _ {S : Type 0} (staked pooled : S → ℕ) where
  -- The pools have grown by at most `extra` more than the staked total.
  abbrev pub Covers : ℕ → S → S → Type 0
  Covers extra s s' = staked s + pooled s' ≤ staked s' + pooled s + extra

  -- A method on a game that is there covers its pools, where `stake`, the most that it stakes, fits beside
  -- the staked total.
  abbrev pub Covered : ℕ → S → S → Type 0
  Covered stake s s' = staked s + stake < u128 → Covers 0 s s'

  pub record Backed (stake : ℕ) (base : ChallengeBase S) : Type 0 where
    pub framed : Framed (SameStaked staked) (Covered stake) base
    pub launch_covers :
        (app target : ℕ) (m : Metadata) (s s' : S)
        → staked s + stake < u128
        → base.launch app target m s ≡ ok s'
        → Covers (m.pool.staking + m.pool.earnings) s s'
    pub set_status_covers : StatusKeeps (Covers 0) base
