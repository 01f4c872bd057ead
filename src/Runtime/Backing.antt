-- ===== src/Runtime/Backing.antt =====
-- runtime/src/lib.rs: what the pallets promise out of the staked funds, and how the calls of all of them
-- move it.
use zero_dao_node.Base.{ℕ, ◌+◌, ◌∙◌, refl, arith}
use zero_dao_node.Base.StorageMap
use zero_dao_node.Base.StorageMap.{lookup}
use zero_dao_node.Base.DoubleMap
use zero_dao_node.Tokens.{TokensState}
use zero_dao_node.Tokens.Laws.{zd_tokens}
use zero_dao_node.Challenges.Accounting.{amount}
use zero_dao_node.Challenges.Played.Steps.{Keeps}
use zero_dao_node.Challenges.Played.Frame.{
  zd_challenges-Framed, zd_challenges-LaunchKeeps, zd_challenges-StatusKeeps,
}
use zero_dao_node.Challenges.Played.Funds.{zd_challenges-Backed}
use zero_dao_node.Support.Framed.{Preorder}
use zero_dao_node.Support.Placed.{place_token}
use zero_dao_node.RefreshSeeds
use zero_dao_node.RefreshSeeds.Frame.{IsKept}
use zero_dao_node.RefreshSeeds.Funds
use zero_dao_node.RefreshSeeds.Games.{on_storage, ledger_part}
use zero_dao_node.RefreshSeeds.Harvest.{staking_amount}
use zero_dao_node.RefreshReputation
use zero_dao_node.RefreshReputation.Funds as RefreshFunds
use zero_dao_node.RefreshReputation.Payrolls.{due}
use zero_dao_node.Runtime.{
  Storage, Crates, tokens_config, candidates_config, refresh_config, refresh_challenges,
  candidate_games, refresh_games, challenge_timeout, challenge_staking_amount,
}

module _ {Q S : Type 0} (crates : Crates Q S) where
  -- What the games hold.
  abbrev pub pooled : Storage Q S → ℕ
  pooled s = DoubleMap.sum_by amount s.games.metadatas

  -- What the candidates have staked.
  abbrev pub stakes : Storage Q S → ℕ
  stakes s = StorageMap.sum_by (staking_amount (candidates_config crates)) s.candidates.candidates

  -- What the pathfinders of reputations are owed.
  abbrev pub owed : Storage Q S → ℕ
  owed s = StorageMap.sum_by (due (refresh_config crates)) s.refreshes.payrolls

  -- All that is to be paid out of the staked funds.
  abbrev pub claims : Storage Q S → ℕ
  claims s = pooled s + stakes s + owed s + s.tokens.bonus

  abbrev pub CandidatesSteady :
      RefreshSeeds.State (TokensState Q) (Storage Q S)
      → RefreshSeeds.State (TokensState Q) (Storage Q S)
      → Type 0
  CandidatesSteady = Funds.Steady (candidates_config crates) pooled owed

  candidates_order : Preorder CandidatesSteady
  unfolding IsKept
  candidates_order = record {
    keep = λ s. ((refl, refl), refl, refl);
    keep_on = λ s t u ((a, b), c, d) ((a', b'), c', d'). ((a' ∙ a, b' ∙ b), c' ∙ c, d' ∙ d);
  }

  pub candidates-Keeps :
      Keeps candidate_games
        (on_storage
          (zd_tokens (tokens_config crates))
          (crates.perbill)
          challenge_timeout
          challenge_staking_amount)
        CandidatesSteady
  unfolding IsKept
  candidates-Keeps =
      let token = place_token ledger_part (zd_tokens (tokens_config crates)) in
      record {
        order = candidates_order;
        games_keep = λ g s. ((refl, refl), refl, refl);
        staking_keeps = λ who n s s' e.
            ((ground arith, ground arith), token.bonus-staking who n s s' e, ground arith);
        release_keeps = λ who n s s' e.
            ((ground arith, ground arith), token.bonus-release who n s s' e, ground arith);
      }

  pub candidates-Funding :
      Funds.Funding (candidates_config crates) pooled owed challenge_staking_amount
  candidates-Funding =
      let games =
        on_storage (zd_tokens (tokens_config crates)) (crates.perbill) challenge_timeout
          challenge_staking_amount in
      record {
        backed = zd_challenges-Backed candidate_games (λ r. r.now) games (λ g s. refl);
        steady =
            zd_challenges-Framed candidate_games (λ r. r.now) games CandidatesSteady
              candidates-Keeps;
        steady_launch =
            zd_challenges-LaunchKeeps candidate_games (λ r. r.now) games CandidatesSteady
              candidates-Keeps;
        split = refl;
        pool_stays = record {
          at-set_last_refresh_at = λ w. refl;
          at-set_step = λ step w. refl;
          at-new_round = λ w w' e. ground arith;
          at-remove_all = λ w. refl;
          at-add_seed = λ target w. refl;
        };
        others_stay = record {
          at-set_last_refresh_at = λ w. refl;
          at-set_step = λ step w. refl;
          at-new_round = λ w w' e. ground arith;
          at-remove_all = λ w. refl;
          at-add_seed = λ target w. refl;
        };
      }

  abbrev RefreshesSteady :
      RefreshReputation.State (TokensState Q) (Storage Q S)
      → RefreshReputation.State (TokensState Q) (Storage Q S)
      → Type 0
  RefreshesSteady = RefreshFunds.Steady (refresh_config crates) pooled stakes

  refreshes-Keeps : Keeps refresh_games (refresh_challenges crates) RefreshesSteady
  refreshes-Keeps = record {
    order = record {
      keep = λ s. (refl, refl);
      keep_on = λ s t u (a, b) (a', b'). (a' ∙ a, b' ∙ b);
    };
    games_keep = λ g s. (refl, refl);
    staking_keeps = λ who n s s' e. (ground arith, ground arith);
    release_keeps = λ who n s s' e. (ground arith, ground arith);
  }

  pub refreshes-Funding :
      RefreshFunds.Funding (refresh_config crates) pooled stakes challenge_staking_amount
  refreshes-Funding = record {
    backed =
        zd_challenges-Backed refresh_games (λ r. r.now) (refresh_challenges crates) (λ g s. refl);
    steady =
        zd_challenges-Framed refresh_games (λ r. r.now) (refresh_challenges crates) RefreshesSteady
          refreshes-Keeps;
    steady_launch =
        zd_challenges-LaunchKeeps refresh_games (λ r. r.now) (refresh_challenges crates)
          RefreshesSteady refreshes-Keeps;
    steady_status =
        zd_challenges-StatusKeeps refresh_games (λ r. r.now) (refresh_challenges crates)
          RefreshesSteady refreshes-Keeps;
    pool_stays = record {
      at-set_last_refresh_at = λ w. refl;
      at-set_free = λ w. refl;
      at-remove_all_tmp = λ w. refl;
      at-refresh_reputation = λ user_score w w' e. ground arith;
    };
    others_stay = record {
      at-set_last_refresh_at = λ w. refl;
      at-set_free = λ w. refl;
      at-remove_all_tmp = λ w. refl;
      at-refresh_reputation = λ user_score w w' e. ground arith;
    };
    at-mutate_reputation = λ who score w. refl;
  }
