-- ===== src/RefreshSeeds/Games.antt =====
-- runtime/src/lib.rs, `type ChallengeBase = ZdChallenges` and `type MultiBaseToken = ZdToken`: the games
-- of pallets/refresh-seeds are played on pallets/challenges. The storage of that pallet stands in the
-- world, the tokens are those of the ledger.
use zero_dao_node.Base.{ℕ, refl, arith}
use zero_dao_node.Base.Lens.{Lens}
use zero_dao_node.External.{Perbill}
use zero_dao_node.Support.{MultiBaseToken, ChallengeBase}
use zero_dao_node.Support.Framed.{Framed, LaunchKeeps}
use zero_dao_node.Support.Backed.{Backed}
use zero_dao_node.Support.Placed.{place_token}
use zero_dao_node.Challenges
use zero_dao_node.Challenges.Played.{zd_challenges}
use zero_dao_node.Challenges.Played.Steps.{Keeps}
use zero_dao_node.Challenges.Played.Frame.{zd_challenges-LaunchKeeps, zd_challenges-Framed}
use zero_dao_node.Challenges.Played.Funds.{pools, zd_challenges-Backed}
use zero_dao_node.RefreshSeeds.{State}
use zero_dao_node.RefreshSeeds.Frame.{IsKept, IsKept-Preorder}

-- The storage of the challenges, beside the rest `W`.
abbrev pub GameWorld : Type 0 → Type 0
GameWorld W = Challenges.State W

module _ {T W : Type 0} where
  abbrev pub ledger_part : Lens (State T W) T
  ledger_part = record {
    get = λ s. s.ledger;
    set = λ l s. record s { ledger = l };
    get-set = λ l s. refl;
  }

  abbrev pub world_part : Lens (State T W) W
  world_part = record {
    get = λ s. s.world;
    set = λ w s. record s { world = w };
    get-set = λ w s. refl;
  }

  -- The tokens on the ledger of the storage.
  abbrev pub on_ledger : MultiBaseToken T → MultiBaseToken (State T W)
  on_ledger token = place_token ledger_part token

  -- The configuration of the challenges.
  abbrev pub on_storage : MultiBaseToken T → Perbill → ℕ → ℕ → Challenges.Config (State T W)
  on_storage token perbill challenge_timeout challenge_staking_amount = record {
    token = on_ledger token;
    perbill = perbill;
    challenge_timeout = challenge_timeout;
    challenge_staking_amount = challenge_staking_amount;
  }

module _ {T W : Type 0} (token : MultiBaseToken T) (perbill : Perbill) (timeout stake : ℕ) where
  -- The pallet of challenges fills the trait by which the candidates are disputed.
  abbrev pub seeds_games : ChallengeBase (State T (GameWorld W))
  seeds_games = zd_challenges world_part (λ s. s.now) (on_storage token perbill timeout stake)

  seeds_games-Keeps :
      Keeps world_part (on_storage token perbill timeout stake) (IsKept {T = T} {W = GameWorld W})
  unfolding IsKept
  seeds_games-Keeps = record {
    order = IsKept-Preorder;
    games_keep = λ g s. (refl, refl);
    staking_keeps = λ who amount s s' e. ground arith;
    release_keeps = λ who amount s s' e. ground arith;
  }

  pub seeds_games-Framed : Framed IsKept IsKept seeds_games
  seeds_games-Framed =
      zd_challenges-Framed world_part (λ s. s.now) (on_storage token perbill timeout stake) IsKept
        seeds_games-Keeps

  pub seeds_games-LaunchKeeps : LaunchKeeps IsKept seeds_games
  seeds_games-LaunchKeeps =
      zd_challenges-LaunchKeeps world_part (λ s. s.now) (on_storage token perbill timeout stake)
        IsKept seeds_games-Keeps

  pub seeds_games-Backed :
      Backed
        (λ (s : State T (GameWorld W)). token.staked s.ledger)
        (pools world_part)
        stake
        seeds_games
  seeds_games-Backed =
      zd_challenges-Backed world_part (λ s. s.now) (on_storage token perbill timeout stake)
        (λ g s. refl)
