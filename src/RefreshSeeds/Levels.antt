-- ===== src/RefreshSeeds/Levels.antt =====
-- pallets/refresh-seeds/src/functions.rs, `update_result_hashs`: what the uploaded levels of the hash
-- tree satisfy.
use zero_dao_node.Base.{
  ℕ, ◌+◌, ◌-◌, ◌≤◌, ◌<◌, ◌≡◌, inl, inr, refl, sym, subst, List, [], ◌∷◌, ◌++◌, Bool, true, false,
  some, Option-cases, length, length-append, last?, get_elem?, arith, u64,
}
use zero_dao_node.Base.StorageMap.{get_or-insert}
use zero_dao_node.Dispatch.{ok, Result-cases}
use zero_dao_node.External.{IsAscending, sum_of}
use zero_dao_node.RefreshSeeds.{
  ResultHash, PostResultHash, hash_before, State, Config, get_candidate, get_result_hashs,
}
use zero_dao_node.RefreshSeeds.Orders.{deep_limit}
use zero_dao_node.RefreshSeeds.Hashes.{
  to_result_hashs, fold_scores, set_last, parent_score, verify_result_hashs, extended,
  update_result_hashs,
}

-- Every level is ascending by its orders, in which none is repeated.
unfoldable pub AllAscending : List (List ResultHash) → Type 0
AllAscending [] = Unit {0}
AllAscending (level ∷ levels) = IsAscending hash_before level × AllAscending levels

-- There are at most `DEEP` levels, each ascending.
unfoldable pub IsLevels : List (List ResultHash) → Type 0
IsLevels levels = (length levels ≤ deep_limit) × AllAscending levels

fold_scores-sum :
    (rs : List ResultHash) (acc out : ℕ)
    → acc < u64
    → fold_scores rs acc ≡ ok out
    → (out ≡ acc + sum_of (λ r. r.score) rs) × (out < u64)
unfolding fold_scores
fold_scores-sum [] acc out small e = ground (arith, e)
fold_scores-sum (r ∷ rs) acc out small e = ground (arith, fold_scores-sum rs (acc + r.score) out)

length-set_last :
    (level : List ResultHash) (ls : List (List ResultHash)) → length (set_last level ls) ≡ length ls
unfolding set_last
length-set_last level [] = refl
length-set_last level (l ∷ []) = refl
length-set_last level (l ∷ l' ∷ ls) = ground (arith, length-set_last level (l' ∷ ls))

set_last-AllAscending :
    (level : List ResultHash) (ls : List (List ResultHash))
    → IsAscending hash_before level
    → AllAscending ls
    → AllAscending (set_last level ls)
unfolding set_last AllAscending
set_last-AllAscending level [] h hs = tt
set_last-AllAscending level (l ∷ []) h hs = (h, tt)
set_last-AllAscending level (l ∷ l' ∷ ls) h (first, hs) =
    (first, set_last-AllAscending level (l' ∷ ls) h hs)

append-AllAscending :
    (level : List ResultHash) (ls : List (List ResultHash))
    → IsAscending hash_before level
    → AllAscending ls
    → AllAscending (ls ++ (level ∷ []))
unfolding AllAscending
append-AllAscending level [] h hs = (h, tt)
append-AllAscending level (l ∷ ls) h (first, hs) = (first, append-AllAscending level ls h hs)

get_elem?-append :
    (upper : List (List ResultHash)) (above : List ResultHash) (rest : List (List ResultHash))
    → get_elem? (upper ++ (above ∷ rest)) (length upper) ≡ some above
unfolding get_elem?
get_elem?-append [] above rest = refl
get_elem?-append (l ∷ ls) above rest = get_elem?-append ls above rest

last?-append :
    (upper : List (List ResultHash)) (above level : List ResultHash)
    → last? (upper ++ (above ∷ level ∷ [])) ≡ some level
unfolding last?
last?-append [] above level = refl
last?-append (l ∷ []) above level = refl
last?-append (l ∷ l' ∷ ls) above level = last?-append (l' ∷ ls) above level

module _ {T W : Type 0} (cfg : Config T W) where
  open cfg use {hash_set}

  extended-IsLevels :
      (new : List ResultHash) (next : Bool) (old levels : List (List ResultHash))
      → IsLevels old
      → extended cfg new next old ≡ ok levels
      → IsLevels levels
  unfolding extended IsLevels
  extended-IsLevels new true old levels (few, ascending) e = elim (Option-cases (last? old)) [
    | inl nothing ↦ absurd (ground arith)
    | inr (last, found) ↦
        let level = hash_set.from (last ++ new) in
        let at : set_last level old ≡ levels = ground arith in
        (
          ground (arith, at, length-set_last level old, few),
          subst (λ l. AllAscending l) at
              (set_last-AllAscending level old (hash_set.from-IsAscending (last ++ new)) ascending),
        )
  ]
  extended-IsLevels new false old levels (few, ascending) e =
      let level = hash_set.from new in
      let at : old ++ (level ∷ []) ≡ levels = ground arith in
      (
        ground (arith, at, length-append old (level ∷ []), few, e),
        subst (λ l. AllAscending l) at
            (append-AllAscending level old (hash_set.from-IsAscending new) ascending),
      )

  -- The scores of the last level are what `verify_result_hashs` compares them with.
  unfoldable Matches : ℕ → ℕ → List (List ResultHash) → State T W → Type 0
  Matches target index levels s =
      (level : List ResultHash)
      → last? levels ≡ some level
      → parent_score levels index target s ≡ ok (sum_of (λ r. r.score) level)

  verify_result_hashs-Matches :
      (levels : List (List ResultHash)) (index target : ℕ) (s : State T W)
      → verify_result_hashs levels index target s ≡ ok tt
      → Matches target index levels s
  unfolding verify_result_hashs Matches last?
  verify_result_hashs-Matches [] index target s e level is = absurd (ground arith)
  verify_result_hashs-Matches (l ∷ ls) index target s e level is =
      elim (Result-cases (fold_scores level 0)) [
        | inr (x, failed) ↦ absurd (ground arith)
        | inl (out, folded) ↦ elim (Result-cases (parent_score (l ∷ ls) index target s)) [
          | inr (x, failed) ↦ absurd (ground arith)
          | inl (total, whole) ↦
              ground (arith, whole, (fold_scores-sum level 0 out (omega arith) folded).0)
        ]
      ]

  -- The scores of the last level add up to what they stand for: those of a first level to the score of
  -- the candidate, those of a deeper one to the score at `index` in the level right above.
  unfoldable pub IsBalanced : ℕ → ℕ → List (List ResultHash) → State T W → Type 0
  IsBalanced target index levels s =
      ((level : List ResultHash)
        → levels ≡ level ∷ []
        → sum_of (λ r. r.score) level ≡ (get_candidate target s).score)
      × ((upper : List (List ResultHash)) (above level : List ResultHash)
          → levels ≡ upper ++ (above ∷ level ∷ [])
          → (examined : ResultHash) × (get_elem? above index ≡ some examined)
            × (sum_of (λ r. r.score) level ≡ examined.score))

  parent_score-above :
      (upper : List (List ResultHash)) (above level : List ResultHash) (index target sum : ℕ)
      (s : State T W)
      → parent_score (upper ++ (above ∷ level ∷ [])) index target s ≡ ok sum
      → (examined : ResultHash) × (get_elem? above index ≡ some examined) × (sum ≡ examined.score)
  unfolding parent_score
  parent_score-above upper above level index target sum s e =
      let levels = upper ++ (above ∷ level ∷ []) in
      let long : length levels ≡ length upper + 2 = length-append upper (above ∷ level ∷ []) in
      let there : get_elem? levels (length levels - 2) ≡ some above =
        ground (arith, long, get_elem?-append upper above (level ∷ [])) in
      elim (Option-cases (get_elem? above index)) [
        | inl missing ↦ absurd (ground (arith, long, there, missing))
        | inr (examined, at) ↦ (examined, at, ground (arith, long, there, at))
      ]

  Matches-IsBalanced :
      (target index : ℕ) (levels : List (List ResultHash)) (s : State T W)
      → Matches target index levels s
      → IsBalanced target index levels s
  unfolding Matches IsBalanced parent_score last?
  Matches-IsBalanced target index levels s matches = (
    λ level is.
        let whole : parent_score levels index target s ≡ ok (sum_of (λ r. r.score) level) =
          matches level (ground (arith, is)) in
        ground (arith, is, whole),
    λ upper above level is.
        let whole : parent_score (upper ++ (above ∷ level ∷ [])) index target s
            ≡ ok (sum_of (λ r. r.score) level) =
          subst (λ ls. parent_score ls index target s ≡ ok (sum_of (λ r. r.score) level)) is
            (matches level (ground (arith, is, last?-append upper above level))) in
        parent_score-above upper above level index target (sum_of (λ r. r.score) level) s whole,
  )

  -- An upload keeps at most `DEEP` levels, each ascending by its orders, where they have been so; one
  -- that is verified has scores in its last level that add up to the score of the candidate, or to
  -- that of the entry at `index` in the level right above.
  pub update_result_hashs_lem :
      (target index : ℕ) (hashs : List PostResultHash) (do_verify next : Bool) (s s' : State T W)
      → IsLevels (get_result_hashs target s)
      → update_result_hashs cfg target hashs do_verify index next s ≡ ok s'
      → IsLevels (get_result_hashs target s')
        × (do_verify ≡ true → IsBalanced target index (get_result_hashs target s') s)
  unfolding update_result_hashs
  update_result_hashs_lem target index hashs do_verify next s s' good e =
      let old = get_result_hashs target s in
      let new = to_result_hashs hashs in
      elim (Result-cases (extended cfg new next old)) [
        | inr (x, failed) ↦ absurd (ground arith)
        | inl (levels, done) ↦
            let stored : get_result_hashs target s' ≡ levels =
              ground (arith, get_or-insert [] target target levels s.result_hashs_sets) in
            (
              subst (λ l. IsLevels l) (sym stored)
                  (extended-IsLevels new next old levels good done),
              λ h.
                  subst (λ l. IsBalanced target index l s) (sym stored)
                    (Matches-IsBalanced target index levels s
                      (verify_result_hashs-Matches levels index target s (ground arith))),
            )
      ]
