-- ===== src/Support/Framed.antt =====
-- pallets/support/src/challenges.rs: what the methods of ChallengeBase leave alone. A game works on the
-- storage of its pallet and, through a callback, on that of the caller.
use zero_dao_node.Base.{ℕ, ◌≡◌, Bool, Option}
use zero_dao_node.Dispatch.{Result, ok}
use zero_dao_node.Primitives.Metadata.{Metadata, ChallengeStatus}
use zero_dao_node.Support.{ChallengeBase}

-- A relation between a storage and a later one.
pub record Preorder {S : Type 0} (Kept : S → S → Type 0) : Type 0 where
  pub keep : (s : S) → Kept s s
  pub keep_on : (s t u : S) → Kept s t → Kept t u → Kept s u

module _ {S : Type 0} (Kept : S → S → Type 0) where
  -- A callback keeps what `Kept` says.
  abbrev pub ReplyKeeps : (Bool → ℕ → ℕ → S → Result (ℕ × S)) → Type 0
  ReplyKeeps up = (all : Bool) (i o n : ℕ) (t t' : S) → up all i o t ≡ ok (n, t') → Kept t t'

  abbrev pub NextKeeps : (ℕ → ℕ → Bool → S → Result (ℕ × ℕ × S)) → Type 0
  NextKeeps up = (r i n m : ℕ) (all : Bool) (t t' : S) → up r i all t ≡ ok (n, m, t') → Kept t t'

  abbrev pub EvidenceKeeps : (ℕ → ℕ → S → Result (Bool × S)) → Type 0
  EvidenceKeeps up = (r o : ℕ) (b : Bool) (t t' : S) → up r o t ≡ ok (b, t') → Kept t t'

  abbrev pub ArbitralKeeps : (ℕ → ℕ → S → Result (Bool × Bool × ℕ × S)) → Type 0
  ArbitralKeeps up = (r o n : ℕ) (b c : Bool) (t t' : S) → up r o t ≡ ok (b, c, n, t') → Kept t t'

module _ {S : Type 0} (Called Kept : S → S → Type 0) where
  -- A method on a game that is there keeps `Kept`, where its callback keeps `Called`.
  pub record Framed (base : ChallengeBase S) : Type 0 where
    pub harvest_keeps :
        (who app target : ℕ) (o : Option ℕ) (s s' : S)
        → base.harvest who app target s ≡ ok (o, s')
        → Kept s s'
    pub examine_keeps :
        (app who target index : ℕ) (s s' : S)
        → base.examine app who target index s ≡ ok s'
        → Kept s s'
    pub reply_keeps :
        (app who target total count : ℕ) (up : Bool → ℕ → ℕ → S → Result (ℕ × S)) (s s' : S)
        → ReplyKeeps Called up
        → base.reply app who target total count up s ≡ ok s'
        → Kept s s'
    pub next_keeps :
        (app who target count : ℕ) (up : ℕ → ℕ → Bool → S → Result (ℕ × ℕ × S)) (s s' : S)
        → NextKeeps Called up
        → base.next app who target count up s ≡ ok s'
        → Kept s s'
    pub evidence_keeps :
        (app who target : ℕ) (up : ℕ → ℕ → S → Result (Bool × S)) (o : Option ℕ) (s s' : S)
        → EvidenceKeeps Called up
        → base.evidence app who target up s ≡ ok (o, s')
        → Kept s s'
    pub arbitral_keeps :
        (app who target : ℕ) (up : ℕ → ℕ → S → Result (Bool × Bool × ℕ × S)) (s s' : S)
        → ArbitralKeeps Called up
        → base.arbitral app who target up s ≡ ok s'
        → Kept s s'

-- A new status keeps it too.
abbrev pub StatusKeeps : {S : Type 0} → (S → S → Type 0) → ChallengeBase S → Type 0
StatusKeeps Kept base =
    (app target : ℕ) (status : ChallengeStatus) (s : _)
    → Kept s (base.set_status app target status s)

-- A launch keeps it too.
abbrev pub LaunchKeeps : {S : Type 0} → (S → S → Type 0) → ChallengeBase S → Type 0
LaunchKeeps Kept base =
    (app target : ℕ) (m : Metadata) (s s' : _) → base.launch app target m s ≡ ok s' → Kept s s'

-- Two relations that are kept are kept together.
pub framed_both :
    {S : Type 0} (C C' K K' : S → S → Type 0) (base : ChallengeBase S)
    → Framed C K base
    → Framed C' K' base
    → Framed (λ s t. C s t × C' s t) (λ s t. K s t × K' s t) base
framed_both C C' K K' base one two = record {
  harvest_keeps = λ who app target o s s' e.
      (one.harvest_keeps who app target o s s' e, two.harvest_keeps who app target o s s' e);
  examine_keeps = λ app who target index s s' e. (
    one.examine_keeps app who target index s s' e,
    two.examine_keeps app who target index s s' e,
  );
  reply_keeps = λ app who target total count up s s' h e. (
    one.reply_keeps app who target total count up s s' (λ a i o n t t' d. (h a i o n t t' d).0) e,
    two.reply_keeps app who target total count up s s' (λ a i o n t t' d. (h a i o n t t' d).1) e,
  );
  next_keeps = λ app who target count up s s' h e. (
    one.next_keeps app who target count up s s' (λ r i n m a t t' d. (h r i n m a t t' d).0) e,
    two.next_keeps app who target count up s s' (λ r i n m a t t' d. (h r i n m a t t' d).1) e,
  );
  evidence_keeps = λ app who target up o s s' h e. (
    one.evidence_keeps app who target up o s s' (λ r i b t t' d. (h r i b t t' d).0) e,
    two.evidence_keeps app who target up o s s' (λ r i b t t' d. (h r i b t t' d).1) e,
  );
  arbitral_keeps = λ app who target up s s' h e. (
    one.arbitral_keeps app who target up s s' (λ r i n b c t t' d. (h r i n b c t t' d).0) e,
    two.arbitral_keeps app who target up s s' (λ r i n b c t t' d. (h r i n b c t t' d).1) e,
  );
}
