-- ===== src/Challenges/Played.antt =====
-- runtime/src/lib.rs, `type ChallengeBase = ZdChallenges`: the games of another pallet are played on
-- pallets/challenges. Its storage is a part of a larger one, on all of which the callbacks work.
pub mod Steps
pub mod Frame
pub mod Funds
use zero_dao_node.Base.{ℕ}
use zero_dao_node.Base.Lens.{Lens}
use zero_dao_node.Dispatch.{ok, ◌>>=◌}
use zero_dao_node.Support.{ChallengeBase}
use zero_dao_node.Challenges.{State, Config, is_all_harvest, is_all_timeout, set_status_of}
use zero_dao_node.Challenges.Methods.{launch, harvest, examine, reply, evidence, next, arbitral}

module _ {S W : Type 0} (games : Lens S (State W)) (now : S → ℕ) where
  -- The storage as the pallet of challenges sees it, and back.
  abbrev pub focus : S → State S
  focus s = record {
    metadatas = (games.get s).metadatas;
    last_at = (games.get s).last_at;
    events = (games.get s).events;
    now = now s;
    world = s;
  }

  abbrev pub unfocus : State S → S
  unfocus c =
      games.set
        (record (games.get c.world) {
          metadatas = c.metadatas;
          last_at = c.last_at;
          events = c.events;
        })
        c.world

  module _ (cfg : Config S) where
    abbrev pub zd_challenges : ChallengeBase S
    zd_challenges = record {
      is_all_harvest = λ app s. is_all_harvest app (focus s);
      is_all_timeout = λ app at s. is_all_timeout cfg app at (focus s);
      set_status = λ app target status s. unfocus (set_status_of app target status (focus s));
      launch = λ app target m s. (launch cfg app target m (focus s) >>= λ c. ok (unfocus c));
      harvest = λ who app target s.
          (harvest cfg who app target (focus s) >>= λ done. ok (done.0, unfocus done.1));
      examine = λ app who target index s.
          (examine cfg app who target index (focus s) >>= λ c. ok (unfocus c));
      reply = λ app who target total count up s.
          (reply cfg app who target total count up (focus s) >>= λ c. ok (unfocus c));
      evidence = λ app who target up s.
          (evidence cfg app who target up (focus s) >>= λ done. ok (done.0, unfocus done.1));
      next = λ app who target count up s.
          (next cfg app who target count up (focus s) >>= λ c. ok (unfocus c));
      arbitral =
          λ app who target up s. (arbitral cfg app who target up (focus s) >>= λ c. ok (unfocus c));
    }
