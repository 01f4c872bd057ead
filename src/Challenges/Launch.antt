-- ===== src/Challenges/Launch.antt =====
-- pallets/challenges/src/lib.rs, `launch`: a game starts on a free or a missing one.
use zero_dao_node.Base.{
  ℕ, ◌+◌, ◌<◌, ◌≡◌, ◌⊎◌, inl, inr, false, some, none, Option-cases, arith, u128, ◌==◌,
  if◌then◌else◌, ◌&&◌,
}
use zero_dao_node.Base.DoubleMap
use zero_dao_node.Base.DoubleMap.{lookup-insert, sum_by-insert}
use zero_dao_node.Dispatch.{ok, err, Result-cases, ChallengesError}
use zero_dao_node.Primitives.Metadata.{Metadata, ChallengeStatus, status_eq}
use zero_dao_node.Challenges.{Config, State, or_default, metadata_of, after_upload, staking, fails}
use zero_dao_node.Challenges.Methods.{launch}
use zero_dao_node.Challenges.Accounting.{amount, pooled, staked}

module _ {W : Type 0} (cfg : Config W) where
  open cfg use {token, challenge_staking_amount}

  -- The game that `launch` leaves: the given one in the examine status at the current block, with
  -- the pools added up and the challenger's stake on top.
  abbrev pub launched : Metadata → Metadata → State W → Metadata
  launched old given s = record given {
    pool = record {
      staking = old.pool.staking + given.pool.staking + challenge_staking_amount;
      earnings = old.pool.earnings + given.pool.earnings;
    };
    joint_benefits = old.joint_benefits;
    last_update = s.now;
    status = ChallengeStatus.examine;
  }

  pub launch-ok :
      (app_id target : ℕ) (given : Metadata) (s s' : State W)
      → launch cfg app_id target given s ≡ ok s'
      → let old = or_default (metadata_of app_id target s) in
        (w : W) × (token.staking given.challenger challenge_staking_amount s.world ≡ ok w)
        × (s'.world ≡ w)
        × (s'.metadatas ≡ DoubleMap.insert app_id target (launched old given s) s.metadatas)
  unfolding launch staking after_upload
  launch-ok app_id target given s s' e =
      elim (Result-cases (token.staking given.challenger challenge_staking_amount s.world)) [
        | inr (x, failed) ↦ ground arith
        | inl (w, done) ↦ (w, done, ground arith, ground arith)
      ]

  -- A game that is under way cannot be launched again.
  pub launch_refused :
      (app_id target : ℕ) (given m : Metadata) (s : State W)
      → metadata_of app_id target s ≡ some m
      → status_eq m.status ChallengeStatus.free ≡ false
      → launch cfg app_id target given s ≡ err (fails ChallengesError.no_challenge_allowed)
  unfolding launch
  launch_refused app_id target given m s found busy = ground arith

  -- Launching stores the game built on the old one, leaves every other game, and needs the old game
  -- to be missing or free. The staked total rises by the challenger's stake and the pools by that
  -- and the pool given.
  pub launch_lem :
      (app_id target a t : ℕ) (given : Metadata) (s s' : State W)
      → token.staked s.world + challenge_staking_amount < u128
      → launch cfg app_id target given s ≡ ok s'
      → let old = or_default (metadata_of app_id target s) in
        (metadata_of a t s'
          ≡ (if a == app_id && t == target then some (launched old given s) else metadata_of a t s))
        × ((metadata_of app_id target s ≡ none) ⊎ (old.status ≡ ChallengeStatus.free))
        × (staked cfg s' + pooled s + amount given ≡ staked cfg s + pooled s')
  launch_lem app_id target a t given s s' bound e =
      let old = or_default (metadata_of app_id target s) in
      let (w, done, world, stored) = launch-ok app_id target given s s' e in
      elim (Option-cases (metadata_of app_id target s)) [
        | inl missing ↦ ground (
          arith,
          lookup-insert a t app_id target (launched old given s) s.metadatas,
          sum_by-insert amount app_id target (launched old given s) s.metadatas,
          token.staked-staking given.challenger challenge_staking_amount s.world w done,
        )
        | inr (m, found) ↦ ground (
          arith,
          launch_refused app_id target given m s found,
          lookup-insert a t app_id target (launched old given s) s.metadatas,
          sum_by-insert amount app_id target (launched old given s) s.metadatas,
          token.staked-staking given.challenger challenge_staking_amount s.world w done,
        )
      ]
