-- ===== src/Reputation/Rounds.antt =====
-- pallets/reputation/src/lib.rs: the states that the operations of the pallet reach, and the order of
-- the two scores of an account by the rounds that wrote them.
use zero_dao_node.Base.{
  ℕ, ◌+◌, ◌≡◌, ◌⊎◌, inl, inr, ◌≤◌, ◌<◌, ◌==◌, arith, Bool-cases, u32, wrapping_add,
}
use zero_dao_node.Base.StorageMap.{insert, get_or-insert}
use zero_dao_node.Dispatch.{ok}
use zero_dao_node.Primitives.{TirStep, step_eq-free}
use zero_dao_node.Reputation.{
  Scores, State, default_scores, get_ir, set_last_refresh, do_set_period, mutate_reputation,
  set_step, new_round, refresh_reputation, set_free, set_last_refresh_at,
}

-- The order of the two scores of an account in the round `nonce`.
unfoldable pub IsOrdered : ℕ → Scores → Type 0
IsOrdered nonce x =
    (x.first.nonce ≤ nonce)
    × ((x.second.nonce < x.first.nonce) ⊎ ((x.first.nonce ≡ 0) × (x.second.nonce ≡ 0)))

unfoldable pub IsSound : State → Type 0
IsSound s = (s.system_info.nonce < u32) × ((who : ℕ) → IsOrdered s.system_info.nonce (get_ir who s))

-- A call of the pallet or of its trait, or the passing of blocks. A round is started while the
-- counter of the rounds has room; a step may be set at any time.
pub data Step : State → State → Type 0 where
  starting : {s s' : State} → s.system_info.nonce + 1 < u32 → new_round s ≡ ok s' → Step s s'
  stepping : {s : State} (step : TirStep) → Step s (set_step step s)
  freeing : {s : State} → Step s (set_free s)
  refreshing :
      {s s' : State} (user_score : ℕ × ℕ) → refresh_reputation user_score s ≡ ok s' → Step s s'
  mutating : {s : State} (target ir : ℕ) → Step s (mutate_reputation target ir s)
  touching : {s : State} → Step s (set_last_refresh_at s)
  configuring : {s s' : State} (period : ℕ) → do_set_period period s ≡ ok s' → Step s s'
  waiting : {s : State} (later : ℕ) → Step s (record s { now = later })

pub data Reach (start : State) : State → Type 0 where
  here : Reach start start
  then : {mid out : State} → Reach start mid → Step mid out → Reach start out

IsOrdered-from :
    (n n' : ℕ) (x x' : Scores)
    → x'.first.nonce ≡ x.first.nonce
    → x'.second.nonce ≡ x.second.nonce
    → n ≤ n'
    → IsOrdered n x
    → IsOrdered n' x'
unfolding IsOrdered
IsOrdered-from n n' x x' same₁ same₂ le (below, order) =
    (ground arith, elim order [ inl lt ↦ inl (ground arith) | inr (a, b) ↦ inr (ground arith) ])

-- What a started round has checked and changed.
pub new_round-ok :
    (s s' : State)
    → new_round s ≡ ok s'
    → (s.system_info.step ≡ TirStep.free)
      × (s.system_info.next ≤ s.now)
      × (s'.reputation_scores ≡ s.reputation_scores)
      × (s'.system_info.nonce ≡ wrapping_add u32 s.system_info.nonce 1)
      × (s'.system_info.step ≡ TirStep.seed)
unfolding new_round
new_round-ok s s' e = elim (step_eq-free s.system_info.step) [
  | inl free ↦ (free, ground arith, ground arith, ground arith, ground arith)
  | inr busy ↦ absurd (ground arith)
]

new_round-IsSound :
    (s s' : State) → IsSound s → s.system_info.nonce + 1 < u32 → new_round s ≡ ok s' → IsSound s'
unfolding IsSound
new_round-IsSound s s' (room, ordered) small e =
    let (free, late, kept, nonce, step) = new_round-ok s s' e in
    (
      ground arith,
      λ who.
          IsOrdered-from s.system_info.nonce s'.system_info.nonce (get_ir who s) (get_ir who s')
            (ground arith) (ground arith) (ground arith) (ordered who),
    )

-- The scores that a refresh writes.
abbrev pub refreshed : ℕ → ℕ → State → Scores
refreshed who score s = record {
  first = record { score = score; nonce = s.system_info.nonce };
  second = (get_ir who s).first;
}

-- What a refresh has checked and changed.
pub refresh_reputation-ok :
    (who score : ℕ) (s s' : State)
    → refresh_reputation (who, score) s ≡ ok s'
    → ((get_ir who s).first.nonce < s.system_info.nonce)
      × (s'.system_info ≡ s.system_info)
      × (s'.reputation_scores ≡ insert who (refreshed who score s) s.reputation_scores)
unfolding refresh_reputation
refresh_reputation-ok who score s s' e = (ground arith, ground arith, ground arith)

refresh_reputation-IsSound :
    (who score : ℕ) (s s' : State)
    → IsSound s
    → refresh_reputation (who, score) s ≡ ok s'
    → IsSound s'
unfolding IsSound IsOrdered
refresh_reputation-IsSound who score s s' (room, ordered) e =
    let (newer, info, stored) = refresh_reputation-ok who score s s' e in
    (
      ground arith,
      λ k.
          let at = get_or-insert default_scores k who (refreshed who score s) s.reputation_scores in
          elim (Bool-cases (k == who)) [
            | inl same ↦ (ground (arith, at), inl (ground (arith, at)))
            | inr other ↦
                IsOrdered-from s.system_info.nonce s'.system_info.nonce (get_ir k s) (get_ir k s')
                  (ground (arith, at)) (ground (arith, at)) (ground arith) (ordered k)
          ],
    )

mutate_reputation-IsSound :
    (target ir : ℕ) (s : State) → IsSound s → IsSound (mutate_reputation target ir s)
unfolding IsSound mutate_reputation
mutate_reputation-IsSound target ir s (room, ordered) =
    let x = get_ir target s in
    let n = s.system_info.nonce in
    let s' = mutate_reputation target ir s in
    (
      room,
      λ k.
          let at =
            get_or-insert default_scores k target
              (record x { first = record (x.first) { score = ir } }) s.reputation_scores in
          IsOrdered-from n n (get_ir k s) (get_ir k s') (ground (arith, at)) (ground (arith, at))
            (omega arith) (ordered k),
    )

-- A change of the status alone.
IsSound-from :
    (s s' : State)
    → s'.system_info.nonce ≡ s.system_info.nonce
    → s'.reputation_scores ≡ s.reputation_scores
    → IsSound s
    → IsSound s'
unfolding IsSound
IsSound-from s s' nonce kept (room, ordered) = (
  ground arith,
  λ k.
      IsOrdered-from s.system_info.nonce s'.system_info.nonce (get_ir k s) (get_ir k s')
        (ground arith) (ground arith) (ground arith) (ordered k),
)

set_free-IsSound : (s : State) → IsSound s → IsSound (set_free s)
unfolding set_free
set_free-IsSound s sound = elim (step_eq-free s.system_info.step) [
  | inl free ↦ IsSound-from s (set_free s) (ground arith) (ground arith) sound
  | inr busy ↦ IsSound-from s (set_free s) (ground arith) (ground arith) sound
]

do_set_period-IsSound :
    (period : ℕ) (s s' : State) → IsSound s → do_set_period period s ≡ ok s' → IsSound s'
unfolding do_set_period
do_set_period-IsSound period s s' sound e = IsSound-from s s' (ground arith) (ground arith) sound

-- Every operation of the pallet keeps the nonce in its range and the two scores of each account in
-- the order of their rounds, where a round that starts has room in the counter.
pub Step-IsSound : {s s' : State} → Step s s' → IsSound s → IsSound s'
unfolding IsSound set_step set_last_refresh_at set_last_refresh
Step-IsSound {s} {s'} (Step.starting small e) sound = new_round-IsSound s s' sound small e
Step-IsSound (Step.stepping step) sound = sound
Step-IsSound {s} Step.freeing sound = set_free-IsSound s sound
Step-IsSound {s} {s'} (Step.refreshing (who, score) e) sound =
    refresh_reputation-IsSound who score s s' sound e
Step-IsSound {s} (Step.mutating target ir) sound = mutate_reputation-IsSound target ir s sound
Step-IsSound Step.touching sound = sound
Step-IsSound {s} {s'} (Step.configuring period e) sound = do_set_period-IsSound period s s' sound e
Step-IsSound (Step.waiting later) sound = sound

-- Whatever the pallet does from a sound state, while the counter of rounds has room for each round
-- that starts, leaves a sound state: the nonce is in its range, no score is of a later round than
-- the current one, and the second score of an account is of an earlier round than the first, or both
-- are of the round 0.
pub Reach-IsSound : {start s : State} → Reach start s → IsSound start → IsSound s
Reach-IsSound Reach.here sound = sound
Reach-IsSound (Reach.then before step) sound = Step-IsSound step (Reach-IsSound before sound)
