-- ===== src/Reputation/Visible.antt =====
-- pallets/reputation/src/lib.rs: which reputation an account has while the reputations are updated.
use zero_dao_node.Base.{ℕ, ◌+◌, ◌≡◌, ◌<◌, ◌==◌, if◌then◌else◌, arith, false, u32, none, some}
use zero_dao_node.Base.StorageMap.{get_or-insert}
use zero_dao_node.Dispatch.{ok, err, ReputationError}
use zero_dao_node.Primitives.{TirStep, step_eq}
use zero_dao_node.Reputation.{
  State, default_scores, get_ir, fails, mutate_reputation, new_round, get_reputation_new,
  get_reputation, refresh_reputation, set_free,
}
use zero_dao_node.Reputation.Rounds.{
  IsSound, IsOrdered, refreshed, refresh_reputation-ok, new_round-ok,
}

-- During an update a refresh leaves the reputation of every account as it was when the round
-- began. The refreshed account has the new value for this round, the others keep theirs, and the
-- account cannot be refreshed a second time.
pub refresh_reputation_lem :
    (who score k : ℕ) (s s' : State)
    → IsSound s
    → step_eq s.system_info.step TirStep.free ≡ false
    → refresh_reputation (who, score) s ≡ ok s'
    → (get_reputation k s' ≡ get_reputation k s)
      × (get_reputation_new k s' ≡ (if k == who then some score else get_reputation_new k s))
      × ((again : ℕ)
          → refresh_reputation (who, again) s'
            ≡ err (fails ReputationError.reputation_already_updated))
unfolding IsSound IsOrdered get_reputation get_reputation_new refresh_reputation
refresh_reputation_lem who score k s s' (room, ordered) busy e =
    let (newer, info, stored) = refresh_reputation-ok who score s s' e in
    let at = get_or-insert default_scores k who (refreshed who score s) s.reputation_scores in
    let self = get_or-insert default_scores who who (refreshed who score s) s.reputation_scores in
    let (below, order) = ordered k in
    (ground (arith, at), ground (arith, at), λ again. ground (arith, self))

-- In a sound state whose counter of rounds has room, starting a round changes the reputation of no
-- account, and none is refreshed yet.
pub new_round_lem :
    (k : ℕ) (s s' : State)
    → IsSound s
    → s.system_info.nonce + 1 < u32
    → new_round s ≡ ok s'
    → (get_reputation k s' ≡ get_reputation k s) × (get_reputation_new k s' ≡ none)
unfolding IsSound IsOrdered get_reputation get_reputation_new
new_round_lem k s s' (room, ordered) small e =
    let (free, late, kept, nonce, step) = new_round-ok s s' e in
    let (below, order) = ordered k in (ground arith, ground arith)

-- In a sound state during an update, freeing the system makes the new reputation of every account the
-- current one; an account that was not refreshed has none.
pub set_free_lem :
    (k : ℕ) (s : State)
    → IsSound s
    → step_eq s.system_info.step TirStep.free ≡ false
    → get_reputation k (set_free s) ≡ get_reputation_new k s
unfolding IsSound IsOrdered get_reputation get_reputation_new set_free
set_free_lem k s (room, ordered) busy = let (below, order) = ordered k in ground arith

-- A correction of a refreshed account during the update shows in its new reputation only.
pub mutate_reputation_lem :
    (who ir k old : ℕ) (s : State)
    → IsSound s
    → step_eq s.system_info.step TirStep.free ≡ false
    → get_reputation_new who s ≡ some old
    → (get_reputation k (mutate_reputation who ir s) ≡ get_reputation k s)
      × (get_reputation_new k (mutate_reputation who ir s)
          ≡ (if k == who then some ir else get_reputation_new k s))
unfolding IsSound IsOrdered get_reputation get_reputation_new mutate_reputation
mutate_reputation_lem who ir k old s (room, ordered) busy seen =
    let x = get_ir who s in
    let at =
      get_or-insert default_scores k who (record x { first = record (x.first) { score = ir } })
        s.reputation_scores in
    let (below, order) = ordered who in (ground (arith, at), ground (arith, at))
