-- ===== src/RefreshSeeds/Answers.antt =====
-- pallets/refresh-seeds/src/lib.rs: the calls by which a candidate's data is examined and uploaded
-- play one game, and then
-- leave the candidates and the ledger alone.
use zero_dao_node.Base.{ℕ, ◌%◌, ◌≡◌, inl, inr, List, length, arith, u32}
use zero_dao_node.Dispatch.{ok, Result-cases}
use zero_dao_node.RefreshSeeds.{PostResultHash, NodePath, State, Config, Event, try_get_rhash}
use zero_dao_node.RefreshSeeds.Orders.{app_id}
use zero_dao_node.RefreshSeeds.PathData.{
  sort_dedup_paths, sort_dedup_nodes, num_reply, do_reply_num,
}
use zero_dao_node.RefreshSeeds.Replies.{
  examine, hash_reply, reply_hash, hash_reply_next, reply_hash_next, path_reply, reply_path,
  path_reply_next, reply_path_next, reply_num,
}
use zero_dao_node.Support.Framed.{Framed}
use zero_dao_node.RefreshSeeds.Frame.{
  IsSame, IsQuiet, IsQuiet-touch, IsQuiet-touch_event, IsQuiet-keep, hash_reply-IsSame,
  hash_reply_next-IsSame, path_reply-IsSame, path_reply_next-IsSame, num_reply-IsSame,
}

module _ {T W : Type 0} (cfg : Config T W) (Called Kept : State T W → State T W → Type 0)
    (framed : Framed Called Kept (cfg.challenge_base))
    (called : (s s' : State T W) → IsSame s s' → Called s s') where
  -- A game whose callback keeps what `Called` says, and what a call does after it.
  abbrev pub Answered : State T W → State T W → Type 0
  Answered s s' = (t : State T W) × Kept s t × IsQuiet cfg t s'

  open cfg use {challenge_base}

  pub examine-Answered :
      (who target index : ℕ) (s s' : State T W)
      → examine cfg (ok who) target index s ≡ ok s'
      → Answered s s'
  unfolding examine
  examine-Answered who target index s s' e =
      elim (Result-cases (challenge_base.examine app_id who target index s)) [
        | inr (x, failed) ↦ absurd (ground arith)
        | inl (t, done) ↦ (
          t,
          framed.examine_keeps app_id who target index s t done,
          IsQuiet-touch_event cfg (Event.new_examine who target) t s' (ground arith),
        )
      ]

  pub reply_hash-Answered :
      (who target quantity : ℕ) (hashs : List PostResultHash) (s s' : State T W)
      → reply_hash cfg (ok who) target hashs quantity s ≡ ok s'
      → Answered s s'
  unfolding reply_hash
  reply_hash-Answered who target quantity hashs s s' e =
      let up = hash_reply cfg who target hashs quantity in
      elim (Result-cases
        (challenge_base.reply app_id who target quantity (length hashs % u32) up s)) [
          | inr (x, failed) ↦ absurd (ground arith)
          | inl (t, done) ↦ (
            t,
            framed.reply_keeps app_id who target quantity (length hashs % u32) up s t
                (λ all i o n u v h.
                  called _ _ (hash_reply-IsSame cfg who target quantity hashs all i o n _ _ h))
                done,
            IsQuiet-touch cfg t s' (ground arith),
          )
        ]

  pub reply_hash_next-Answered :
      (who target : ℕ) (hashs : List PostResultHash) (s s' : State T W)
      → reply_hash_next cfg (ok who) target hashs s ≡ ok s'
      → Answered s s'
  unfolding reply_hash_next
  reply_hash_next-Answered who target hashs s s' e =
      let up = hash_reply_next cfg who target hashs in
      elim (Result-cases (challenge_base.next app_id who target (length hashs % u32) up s)) [
        | inr (x, failed) ↦ absurd (ground arith)
        | inl (t, done) ↦ (
          t,
          framed.next_keeps app_id who target (length hashs % u32) up s t
              (λ r i n m all u v h.
                called _ _ (hash_reply_next-IsSame cfg who target hashs r i n m all _ _ h))
              done,
          IsQuiet-keep cfg t s' (ground arith),
        )
      ]

  pub reply_path-Answered :
      (who target quantity : ℕ) (paths : List NodePath) (s s' : State T W)
      → reply_path cfg (ok who) target paths quantity s ≡ ok s'
      → Answered s s'
  unfolding reply_path
  reply_path-Answered who target quantity paths s s' e =
      elim (Result-cases (try_get_rhash target s)) [
        | inr (x, failed) ↦ absurd (ground arith)
        | inl (levels, found) ↦
            let sorted = sort_dedup_paths paths in
            let up = path_reply cfg who target sorted quantity levels in
            elim (Result-cases
              (challenge_base.reply app_id who target quantity (length paths % u32) up s)) [
                | inr (x, failed) ↦ absurd (ground arith)
                | inl (t, done) ↦ (
                  t,
                  framed.reply_keeps app_id who target quantity (length paths % u32) up s t
                      (λ all i o n u v h.
                        called _ _
                          (path_reply-IsSame cfg who target quantity sorted levels all i o n _ _ h))
                      done,
                  IsQuiet-touch cfg t s' (ground arith),
                )
              ]
      ]

  pub reply_path_next-Answered :
      (who target : ℕ) (paths : List NodePath) (s s' : State T W)
      → reply_path_next cfg (ok who) target paths s ≡ ok s'
      → Answered s s'
  unfolding reply_path_next
  reply_path_next-Answered who target paths s s' e =
      let up = path_reply_next cfg who target paths in
      elim (Result-cases (challenge_base.next app_id who target (length paths % u32) up s)) [
        | inr (x, failed) ↦ absurd (ground arith)
        | inl (t, done) ↦ (
          t,
          framed.next_keeps app_id who target (length paths % u32) up s t
              (λ r i n m all u v h.
                called _ _ (path_reply_next-IsSame cfg who target paths r i n m all _ _ h))
              done,
          IsQuiet-touch cfg t s' (ground arith),
        )
      ]

  pub reply_num-Answered :
      (who target : ℕ) (mid_paths : List (List ℕ)) (s s' : State T W)
      → reply_num cfg (ok who) target mid_paths s ≡ ok s'
      → Answered s s'
  unfolding reply_num do_reply_num
  reply_num-Answered who target mid_paths s s' e =
      let up = num_reply cfg target (sort_dedup_nodes mid_paths) in
      elim (Result-cases (challenge_base.reply app_id who target 0 0 up s)) [
        | inr (x, failed) ↦ absurd (ground arith)
        | inl (t, done) ↦ (
          t,
          framed.reply_keeps app_id who target 0 0 up s t
              (λ all i o n u v h.
                called _ _
                  (num_reply-IsSame cfg target (sort_dedup_nodes mid_paths) all i o n _ _ h))
              done,
          IsQuiet-touch_event cfg (Event.replied_num who target) t s' (ground arith),
        )
      ]
