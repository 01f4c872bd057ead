-- ===== src/Support/Placed.antt =====
-- runtime/src/lib.rs: a pallet that works on a part of a larger storage. Its trait is filled on the whole
-- storage, of which it changes that part.
use zero_dao_node.Base.{ℕ, ◌+◌, ◌≡◌, inl, inr, List, arith, saturating_add, u128}
use zero_dao_node.Base.Lens.{Lens}
use zero_dao_node.Dispatch.{Result, ok, ◌>>=◌, Result-cases}
use zero_dao_node.Support.{MultiBaseToken, Reputation, SeedsBase, TrustBase}

module _ {S P : Type 0} (place : Lens S P) where
  -- An operation on the part, as one on the whole.
  abbrev pub on_part : (P → Result P) → S → Result S
  on_part f s = f (place.get s) >>= λ p. ok (place.set p s)

  module _ (token : MultiBaseToken P) where
    abbrev pub staked_at : S → ℕ
    staked_at s = token.staked (place.get s)

    abbrev pub bonus_at : S → ℕ
    bonus_at s = token.get_bonus_amount (place.get s)

    pub staked-release :
        (who amount : ℕ) (s s' : S)
        → on_part (token.release who amount) s ≡ ok s'
        → staked_at s' + amount ≡ staked_at s
    staked-release who amount s s' e =
        elim (Result-cases (token.release who amount (place.get s))) [
          | inr (x, failed) ↦ absurd (ground arith)
          | inl (p, done) ↦
              ground
                (arith, place.get-set p s, token.staked-release who amount (place.get s) p done)
        ]

    pub staked-staking :
        (who amount : ℕ) (s s' : S)
        → on_part (token.staking who amount) s ≡ ok s'
        → staked_at s' ≡ saturating_add u128 (staked_at s) amount
    staked-staking who amount s s' e =
        elim (Result-cases (token.staking who amount (place.get s))) [
          | inr (x, failed) ↦ absurd (ground arith)
          | inl (p, done) ↦
              ground
                (arith, place.get-set p s, token.staked-staking who amount (place.get s) p done)
        ]

    pub staked-share :
        (who : ℕ) (targets : List ℕ) (s : S)
        → staked_at (place.set (token.share who targets (place.get s)).0 s)
          ≡ saturating_add u128 (staked_at s) (token.share who targets (place.get s)).1
    staked-share who targets s = ground (
      arith,
      place.get-set (token.share who targets (place.get s)).0 s,
      token.staked-share who targets (place.get s),
    )

    pub staked-cut_bonus :
        (amount : ℕ) (s s' : S)
        → on_part (token.cut_bonus amount) s ≡ ok s'
        → (staked_at s' ≡ staked_at s) × (bonus_at s' + amount ≡ bonus_at s)
    staked-cut_bonus amount s s' e = elim (Result-cases (token.cut_bonus amount (place.get s))) [
      | inr (x, failed) ↦ absurd (ground arith)
      | inl (p, done) ↦
          let (same, less) = token.staked-cut_bonus amount (place.get s) p done in
          (ground (arith, place.get-set p s, same), ground (arith, place.get-set p s, less))
    ]

    pub bonus-staking :
        (who amount : ℕ) (s s' : S)
        → on_part (token.staking who amount) s ≡ ok s'
        → bonus_at s' ≡ bonus_at s
    bonus-staking who amount s s' e = elim (Result-cases (token.staking who amount (place.get s))) [
      | inr (x, failed) ↦ absurd (ground arith)
      | inl (p, done) ↦
          ground (arith, place.get-set p s, token.bonus-staking who amount (place.get s) p done)
    ]

    pub bonus-release :
        (who amount : ℕ) (s s' : S)
        → on_part (token.release who amount) s ≡ ok s'
        → bonus_at s' ≡ bonus_at s
    bonus-release who amount s s' e = elim (Result-cases (token.release who amount (place.get s))) [
      | inr (x, failed) ↦ absurd (ground arith)
      | inl (p, done) ↦
          ground (arith, place.get-set p s, token.bonus-release who amount (place.get s) p done)
    ]

    abbrev pub place_token : MultiBaseToken S
    place_token = record {
      staking = λ who amount. on_part (token.staking who amount);
      release = λ who amount. on_part (token.release who amount);
      share = λ who targets s. (
        place.set (token.share who targets (place.get s)).0 s,
        (token.share who targets (place.get s)).1,
      );
      get_bonus_amount = bonus_at;
      cut_bonus = λ amount. on_part (token.cut_bonus amount);
      staked = staked_at;
      staked-release = staked-release;
      staked-staking = staked-staking;
      staked-share = staked-share;
      staked-cut_bonus = staked-cut_bonus;
      bonus-staking = bonus-staking;
      bonus-release = bonus-release;
    }

  abbrev pub place_reputation : Reputation P → Reputation S
  place_reputation r = record {
    mutate_reputation = λ who score s. place.set (r.mutate_reputation who score (place.get s)) s;
    set_step = λ step s. place.set (r.set_step step (place.get s)) s;
    is_step = λ step s. r.is_step step (place.get s);
    get_reputation_new = λ who s. r.get_reputation_new who (place.get s);
    get_reputation = λ who s. r.get_reputation who (place.get s);
    refresh_reputation = λ user_score. on_part (r.refresh_reputation user_score);
    get_last_refresh_at = λ s. r.get_last_refresh_at (place.get s);
    set_last_refresh_at = λ s. place.set (r.set_last_refresh_at (place.get s)) s;
    set_free = λ s. place.set (r.set_free (place.get s)) s;
    new_round = on_part (r.new_round);
  }

  abbrev pub place_seeds : SeedsBase P → SeedsBase S
  place_seeds b = record {
    is_seed = λ who s. b.is_seed who (place.get s);
    get_seed_count = λ s. b.get_seed_count (place.get s);
    remove_all = λ s. place.set (b.remove_all (place.get s)) s;
    add_seed = λ who s. place.set (b.add_seed who (place.get s)) s;
  }

  abbrev pub place_trust : TrustBase P → TrustBase S
  place_trust b = record {
    remove_all_tmp = λ s. place.set (b.remove_all_tmp (place.get s)) s;
    get_trust_count = λ who s. b.get_trust_count who (place.get s);
    get_trust_count_old = λ who s. b.get_trust_count_old who (place.get s);
    is_trust = λ who target s. b.is_trust who target (place.get s);
    is_trust_old = λ who target s. b.is_trust_old who target (place.get s);
    get_trust_old = λ who s. b.get_trust_old who (place.get s);
    computed_path = λ nodes s. b.computed_path nodes (place.get s);
    valid_nodes = λ nodes s. b.valid_nodes nodes (place.get s);
  }
