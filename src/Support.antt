-- ===== src/Support.antt =====
-- pallets/support/src: the traits by which the pallets see one another, each as a record of
-- operations on a storage `S`. A trait lists the methods that the modelled callers use, and the
-- laws that their theorems rest on; the implementing pallet fills both.
pub mod Framed
pub mod Backed
pub mod Placed
use zero_dao_node.Primitives.{TirStep}
use zero_dao_node.Primitives.Metadata.{Metadata, ChallengeStatus}
use zero_dao_node.Base.{Bool, Option, ℕ, ◌+◌, ◌≡◌, List, saturating_add, u128}
use zero_dao_node.Dispatch.{Result, ok}

-- pallets/support/src/token.rs. `staked` is the total of the staked funds, by which the laws say
-- what staking, which saturates, and releasing do.
pub record MultiBaseToken (S : Type 0) : Type 0 where
  pub staking : ℕ → ℕ → S → Result S
  pub release : ℕ → ℕ → S → Result S
  pub share : ℕ → List ℕ → S → S × ℕ
  pub get_bonus_amount : S → ℕ
  pub cut_bonus : ℕ → S → Result S
  pub staked : S → ℕ
  pub staked-release :
      (who amount : ℕ) (s s' : S) → release who amount s ≡ ok s' → staked s' + amount ≡ staked s
  pub staked-staking :
      (who amount : ℕ) (s s' : S)
      → staking who amount s ≡ ok s'
      → staked s' ≡ saturating_add u128 (staked s) amount
  pub staked-share :
      (who : ℕ) (targets : List ℕ) (s : S)
      → staked (share who targets s).0 ≡ saturating_add u128 (staked s) (share who targets s).1
  pub staked-cut_bonus :
      (amount : ℕ) (s s' : S)
      → cut_bonus amount s ≡ ok s'
      → (staked s' ≡ staked s) × (get_bonus_amount s' + amount ≡ get_bonus_amount s)
  pub bonus-staking :
      (who amount : ℕ) (s s' : S)
      → staking who amount s ≡ ok s'
      → get_bonus_amount s' ≡ get_bonus_amount s
  pub bonus-release :
      (who amount : ℕ) (s s' : S)
      → release who amount s ≡ ok s'
      → get_bonus_amount s' ≡ get_bonus_amount s

-- pallets/support/src/reputation.rs.
pub record Reputation (S : Type 0) : Type 0 where
  pub mutate_reputation : ℕ → ℕ → S → S
  pub set_step : TirStep → S → S
  pub is_step : TirStep → S → Bool
  pub get_reputation_new : ℕ → S → Option ℕ
  pub get_reputation : ℕ → S → Option ℕ
  pub refresh_reputation : ℕ × ℕ → S → Result S
  pub get_last_refresh_at : S → ℕ
  pub set_last_refresh_at : S → S
  pub set_free : S → S
  pub new_round : S → Result S

-- pallets/support/src/seeds.rs.
pub record SeedsBase (S : Type 0) : Type 0 where
  pub is_seed : ℕ → S → Bool
  pub get_seed_count : S → ℕ
  pub remove_all : S → S
  pub add_seed : ℕ → S → S

-- pallets/support/src/trust.rs.
pub record TrustBase (S : Type 0) : Type 0 where
  pub remove_all_tmp : S → S
  pub get_trust_count : ℕ → S → ℕ
  pub get_trust_count_old : ℕ → S → ℕ
  pub is_trust : ℕ → ℕ → S → Bool
  pub is_trust_old : ℕ → ℕ → S → Bool
  pub get_trust_old : ℕ → S → List ℕ
  pub computed_path : List ℕ → S → Result (ℕ × ℕ)
  pub valid_nodes : List ℕ → S → Result (Unit {0})

-- pallets/support/src/challenges.rs, the methods that pallets/refresh-reputation and
-- pallets/refresh-seeds call. A callback works on the storage too.
pub record ChallengeBase (S : Type 0) : Type 0 where
  pub is_all_harvest : ℕ → S → Bool
  pub is_all_timeout : ℕ → ℕ → S → Bool
  pub set_status : ℕ → ℕ → ChallengeStatus → S → S
  pub launch : ℕ → ℕ → Metadata → S → Result S
  pub harvest : ℕ → ℕ → ℕ → S → Result (Option ℕ × S)
  pub examine : ℕ → ℕ → ℕ → ℕ → S → Result S
  pub reply : ℕ → ℕ → ℕ → ℕ → ℕ → (Bool → ℕ → ℕ → S → Result (ℕ × S)) → S → Result S
  pub evidence : ℕ → ℕ → ℕ → (ℕ → ℕ → S → Result (Bool × S)) → S → Result (Option ℕ × S)
  pub next : ℕ → ℕ → ℕ → ℕ → (ℕ → ℕ → Bool → S → Result (ℕ × ℕ × S)) → S → Result S
  pub arbitral : ℕ → ℕ → ℕ → (ℕ → ℕ → S → Result (Bool × Bool × ℕ × S)) → S → Result S
