-- ===== src/RefreshSeeds/Frame.antt =====
-- pallets/refresh-seeds/src: what the calls that dispute a candidate leave alone. A game of
-- pallets/challenges works on its own storage and, through its callback, on this one.
use zero_dao_node.Base.{ℕ, Bool, true, false, ◌≡◌, ◌⊎◌, inl, inr, refl, ◌∙◌, List, arith}
use zero_dao_node.Base.StorageMap.{StorageMap}
use zero_dao_node.Dispatch.{ok, Result-cases}
use zero_dao_node.Support.Framed.{Preorder}
use zero_dao_node.RefreshSeeds.{
  PostResultHash, ResultHash, NodePath, State, Config, Event, deposit_event, get_result_hashs,
}
use zero_dao_node.RefreshSeeds.Hashes.{
  to_result_hashs, extended, get_next_order, update_result_hashs,
}
use zero_dao_node.RefreshSeeds.Replies.{
  touch, hash_reply, hash_reply_next, path_reply, path_reply_next,
}
use zero_dao_node.RefreshSeeds.PathData.{num_reply}
use zero_dao_node.RefreshSeeds.Calls.{too_low}
use zero_dao_node.RefreshSeeds.Evidence.{missed}

module _ {T W : Type 0} where
  -- The candidates and the list of their scores are the same.
  unfoldable pub IsKept : State T W → State T W → Type 0
  IsKept s s' = (s'.candidates ≡ s.candidates) × (s'.score_list ≡ s.score_list)

  pub keep : (s : State T W) → IsKept s s
  unfolding IsKept
  keep s = (refl, refl)

  pub keep_on : (s s' s'' : State T W) → IsKept s s' → IsKept s' s'' → IsKept s s''
  unfolding IsKept
  keep_on s s' s'' (c, l) (c', l') = (c' ∙ c, l' ∙ l)

  pub IsKept-Preorder : Preorder IsKept
  IsKept-Preorder = record { keep = keep; keep_on = keep_on }

  -- The candidates, their scores, the ledger and the world are the same.
  unfoldable pub IsSame : State T W → State T W → Type 0
  IsSame s s' = IsKept s s' × (s'.ledger ≡ s.ledger) × (s'.world ≡ s.world)

  pub IsSame-IsKept : (s s' : State T W) → IsSame s s' → IsKept s s'
  unfolding IsSame
  IsSame-IsKept s s' same = same.0

  pub same : (s : State T W) → IsSame s s
  unfolding IsSame IsKept
  same s = ((refl, refl), refl, refl)

module _ {T W : Type 0} (cfg : Config T W) where
  -- What a call does after its game: the world is that before, or the block of the last refresh is set.
  unfoldable pub IsQuiet : State T W → State T W → Type 0
  IsQuiet s s' =
      IsKept s s'
      × (s'.ledger ≡ s.ledger)
      × ((s'.world ≡ s.world) ⊎ (s'.world ≡ cfg.reputation.set_last_refresh_at s.world))

  pub IsQuiet-IsKept : (s s' : State T W) → IsQuiet s s' → IsKept s s'
  unfolding IsQuiet
  IsQuiet-IsKept s s' quiet = quiet.0

  pub IsQuiet-touch : (s s' : State T W) → touch cfg s ≡ s' → IsQuiet s s'
  unfolding IsQuiet IsSame IsKept
  IsQuiet-touch s s' at = ((ground arith, ground arith), ground arith, inr (ground arith))

  pub IsQuiet-touch_event :
      (event : Event) (s s' : State T W) → deposit_event event (touch cfg s) ≡ s' → IsQuiet s s'
  unfolding IsQuiet IsSame IsKept
  IsQuiet-touch_event event s s' at =
      ((ground arith, ground arith), ground arith, inr (ground arith))

  pub IsQuiet-event : (event : Event) (s s' : State T W) → deposit_event event s ≡ s' → IsQuiet s s'
  unfolding IsQuiet IsSame IsKept
  IsQuiet-event event s s' at = ((ground arith, ground arith), ground arith, inl (ground arith))

  pub IsQuiet-asked :
      (event : Event) (asked : StorageMap (List ℕ)) (s s' : State T W)
      → deposit_event event (record s { missed_paths = asked }) ≡ s'
      → IsQuiet s s'
  unfolding IsQuiet IsSame IsKept
  IsQuiet-asked event asked s s' at =
      ((ground arith, ground arith), ground arith, inl (ground arith))

  pub IsQuiet-keep : (s s' : State T W) → s ≡ s' → IsQuiet s s'
  unfolding IsQuiet IsSame IsKept
  IsQuiet-keep s s' at = ((ground arith, ground arith), ground arith, inl (ground arith))

module _ {T W : Type 0} (cfg : Config T W) where
  update_result_hashs-IsSame :
      (target index : ℕ) (hashs : List PostResultHash) (do_verify next : Bool) (s s' : State T W)
      → update_result_hashs cfg target hashs do_verify index next s ≡ ok s'
      → IsSame s s'
  unfolding update_result_hashs IsSame IsKept
  update_result_hashs-IsSame target index hashs do_verify next s s' e =
      let new = to_result_hashs hashs in
      let old = get_result_hashs target s in
      elim (Result-cases (extended cfg new next old)) [
        | inr (x, failed) ↦ absurd (ground arith)
        | inl (levels, done) ↦ ground arith
      ]

  pub hash_reply-IsSame :
      (pathfinder target quantity : ℕ) (hashs : List PostResultHash) (all : Bool) (i o n : ℕ)
      (s s' : State T W)
      → hash_reply cfg pathfinder target hashs quantity all i o s ≡ ok (n, s')
      → IsSame s s'
  unfolding IsSame IsKept
  hash_reply-IsSame pathfinder target quantity hashs all i o n s s' e =
      elim (Result-cases (get_next_order target o i s)) [
        | inr (x, failed) ↦ absurd (ground arith)
        | inl (new_order, _) ↦
            elim (Result-cases (update_result_hashs cfg target hashs all i false s)) [
              | inr (x, failed) ↦ absurd (ground arith)
              | inl (updated, done) ↦
                  ground (arith, update_result_hashs-IsSame target i hashs all false s updated done)
            ]
      ]

  pub hash_reply_next-IsSame :
      (challenger target : ℕ) (hashs : List PostResultHash) (r i n m : ℕ) (all : Bool)
      (s s' : State T W)
      → hash_reply_next cfg challenger target hashs r i all s ≡ ok (n, m, s')
      → IsSame s s'
  unfolding IsSame IsKept
  hash_reply_next-IsSame challenger target hashs r i n m all s s' e =
      elim (Result-cases (update_result_hashs cfg target hashs all i true s)) [
        | inr (x, failed) ↦ absurd (ground arith)
        | inl (updated, done) ↦
            ground (arith, update_result_hashs-IsSame target i hashs all true s updated done)
      ]

  pub path_reply-IsSame :
      (pathfinder target quantity : ℕ) (paths : List NodePath) (levels : List (List ResultHash))
      (all : Bool) (i o n : ℕ) (s s' : State T W)
      → path_reply cfg pathfinder target paths quantity levels all i o s ≡ ok (n, s')
      → IsSame s s'
  unfolding IsSame IsKept
  path_reply-IsSame pathfinder target quantity paths levels all i o n s s' e = ground arith

  pub path_reply_next-IsSame :
      (pathfinder target : ℕ) (paths : List NodePath) (o i n m : ℕ) (all : Bool) (s s' : State T W)
      → path_reply_next cfg pathfinder target paths o i all s ≡ ok (n, m, s')
      → IsSame s s'
  unfolding IsSame IsKept
  path_reply_next-IsSame pathfinder target paths o i n m all s s' e = ground arith

  pub num_reply-IsSame :
      (target : ℕ) (mid_paths : List (List ℕ)) (all : Bool) (i o n : ℕ) (s s' : State T W)
      → num_reply cfg target mid_paths all i o s ≡ ok (n, s')
      → IsSame s s'
  unfolding IsSame IsKept
  num_reply-IsSame target mid_paths all i o n s s' e = ground arith

  pub too_low-IsSame :
      (paths : List (List ℕ)) (nodes : List ℕ) (total : ℕ) (ends : ℕ × ℕ) (r o : ℕ) (b : Bool)
      (s s' : State T W)
      → too_low cfg paths nodes total ends r o s ≡ ok (b, s')
      → IsSame s s'
  unfolding IsSame IsKept
  too_low-IsSame paths nodes total ends r o b s s' e = ground arith

  pub missed-IsSame :
      (target index deep : ℕ) (nodes order : List ℕ) (ends : ℕ × ℕ) (r o : ℕ) (b : Bool)
      (s s' : State T W)
      → missed cfg target nodes index ends deep order r o s ≡ ok (b, s')
      → IsSame s s'
  unfolding IsSame IsKept missed
  missed-IsSame target index deep nodes order ends r o b s s' e = ground arith
