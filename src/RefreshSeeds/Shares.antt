-- ===== src/RefreshSeeds/Shares.antt =====
-- pallets/refresh-seeds/src/functions.rs, `do_harvest_challenge`: the share of the pool of a game.
use zero_dao_node.Base.{◌+◌, ℕ, ◌≡◌, ◌≢◌, inl, inr, subst, Option, none, some, arith, Option-cases}
use zero_dao_node.Base.StorageMap.{lookup, insert, sum_by, get_or-insert}
use zero_dao_node.Dispatch.{ok}
use zero_dao_node.RefreshSeeds.{
  default_candidate, Candidate, State, Config, get_candidate, do_harvest_challenge,
  remove_challenge,
}
use zero_dao_node.RefreshSeeds.Calls
use zero_dao_node.RefreshSeeds.Orders.{app_id}
use zero_dao_node.RefreshSeeds.Calls.{disputed}
use zero_dao_node.RefreshSeeds.ScoreList.{count}
use zero_dao_node.RefreshSeeds.Frame.{IsKept}
use zero_dao_node.RefreshSeeds.Harvest.{staking_amount}
use zero_dao_node.RefreshSeeds.Accounts.{
  sum_by-insert_new, get_or-missing, IsAccounted, get_or-lookup, with_score, has_score,
  sum_by-insert_old,
}

module _ {T W : Type 0} (cfg : Config T W) where
  open cfg use {challenge_base, seed_staking_amount}

  -- A challenge's share that ends with another score changes the candidate's score but not the list,
  -- after which they disagree.
  pub harvest_challenge-IsAccounted :
      (who target score : ℕ) (c : Candidate) (s harvested s' : State T W)
      → IsAccounted s
      → lookup target s.candidates ≡ some c
      → score ≢ c.score
      → challenge_base.harvest who app_id target s ≡ ok (some score, harvested)
      → IsKept s harvested
      → Calls.harvest_challenge cfg (ok who) target s ≡ ok s'
      → ¬ IsAccounted s'
  unfolding Calls.harvest_challenge do_harvest_challenge remove_challenge IsAccounted IsKept
  harvest_challenge-IsAccounted who target score c s harvested s' (sorted, counts) there other done
        kept e (sorted', counts') =
      let same : get_candidate target s ≡ c = get_or-lookup target c s.candidates there in
      let c' : Candidate = record (get_candidate target s) { score = score } in
      let at : s'.candidates ≡ insert target c' s.candidates = ground (arith, done, kept) in
      let list : s'.score_list ≡ s.score_list = ground (arith, done, kept) in
      let before = counts score in
      let after : count score s.score_list ≡ with_score score (insert target c' s.candidates) =
        subst (λ xs. count score xs ≡ with_score score (insert target c' s.candidates)) list
          (subst (λ m. count score s'.score_list ≡ with_score score m) at (counts' score)) in
      ground (
        arith,
        same,
        before,
        after,
        sum_by-insert_old (has_score score) target c' c s.candidates there,
      )

  -- A share of a game whose target is no candidate, as when its candidate has been harvested since, stores
  -- a new candidate without a challenge and without a pathfinder (the account 0): the stakes of the
  -- candidates grow by the stake of one that nobody has proposed, with the ledger as the game left it.
  pub harvest_challenge-unstaked :
      (who target : ℕ) (o : Option ℕ) (s harvested s' : State T W)
      → lookup target s.candidates ≡ none
      → challenge_base.harvest who app_id target s ≡ ok (o, harvested)
      → IsKept s harvested
      → Calls.harvest_challenge cfg (ok who) target s ≡ ok s'
      → ((get_candidate target s').pathfinder ≡ 0)
        × (sum_by (staking_amount cfg) s'.candidates
            ≡ sum_by (staking_amount cfg) s.candidates + seed_staking_amount)
        × (s'.ledger ≡ harvested.ledger)
  unfolding Calls.harvest_challenge do_harvest_challenge remove_challenge IsKept
  harvest_challenge-unstaked who target o s harvested s' absent done kept e =
      let old = get_candidate target s in
      let same : old ≡ default_candidate = get_or-missing target s.candidates absent in
      elim (Option-cases o) [
        | inl nothing ↦
            let at : s'.candidates ≡ insert target old s.candidates = ground (arith, done, kept) in
            (
              ground
                  (arith, at, same, get_or-insert default_candidate target target old s.candidates),
              ground (
                arith,
                at,
                same,
                sum_by-insert_new (staking_amount cfg) target old s.candidates absent,
              ),
              ground (arith, done),
            )
        | inr (score, some_score) ↦
            let c : Candidate = record old { score = score } in
            let at : s'.candidates ≡ insert target c s.candidates = ground (arith, done, kept) in
            (
              ground
                  (arith, at, same, get_or-insert default_candidate target target c s.candidates),
              ground (
                arith,
                at,
                same,
                sum_by-insert_new (staking_amount cfg) target c s.candidates absent,
              ),
              ground (arith, done),
            )
      ]
