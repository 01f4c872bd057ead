-- ===== src/Seeds.antt =====
-- pallets/seeds/src/lib.rs: the set of seed users.
pub mod Laws
mod Tests
use zero_dao_node.Base.{ℕ, ◌%◌, Bool, not, List, ◌∷◌, u32}
use zero_dao_node.Dispatch.{Result, ok, ◌>>=◌, ◌>>◌, ensure, DispatchError, SeedsError}
use zero_dao_node.External.{OrderedSet}
use zero_dao_node.Primitives.{TirStep}
use zero_dao_node.Support.{Reputation, SeedsBase}

pub data Event : Type 0 where
  seed_added seed_removed : ℕ → Event

-- `Seeds`, the events (the last one first) and the storage of the reputation pallet.
pub record State (S W : Type 0) : Type 0 where
  pub seeds : S
  pub events : List Event
  pub world : W

pub record Config (S W : Type 0) : Type 0 where
  pub ordered_set : OrderedSet S
  pub reputation : Reputation W

abbrev pub fails : SeedsError → DispatchError
fails = DispatchError.seeds

module _ {S W : Type 0} (cfg : Config S W) where
  open cfg use {ordered_set, reputation}

  -- `len() as u32`
  unfoldable pub get_seed_count : State S W → ℕ
  get_seed_count s = ordered_set.len s.seeds % u32

  unfoldable pub is_seed : ℕ → State S W → Bool
  is_seed seed s = ordered_set.contains seed s.seeds

  unfoldable pub remove_all : State S W → State S W
  remove_all s = record s { seeds = ordered_set.empty }

  unfoldable pub add_seed : ℕ → State S W → State S W
  add_seed new_seed s = record s {
    seeds = ordered_set.insert new_seed s.seeds;
    events = Event.seed_added new_seed ∷ s.events;
  }

  -- The dispatchable functions; `origin` is the outcome of `ensure_root`.
  unfoldable pub new_seed : Result (Unit {0}) → ℕ → State S W → Result (State S W)
  new_seed origin seed s = do
    origin
    ensure (reputation.is_step TirStep.free s.world) (fails SeedsError.status_err)
    ensure (not (is_seed seed s)) (fails SeedsError.already_seed_user)
    ok (add_seed seed s)

  unfoldable pub remove_seed : Result (Unit {0}) → ℕ → State S W → Result (State S W)
  remove_seed origin seed s = do
    origin
    ensure (reputation.is_step TirStep.free s.world) (fails SeedsError.status_err)
    ensure (is_seed seed s) (fails SeedsError.not_seed_user)
    ok (record s {
      seeds = ordered_set.remove seed s.seeds;
      events = Event.seed_removed seed ∷ s.events;
    })

  -- The pallet fills the trait by which the others see it.
  abbrev pub zd_seeds : SeedsBase (State S W)
  zd_seeds = record {
    is_seed = is_seed;
    get_seed_count = get_seed_count;
    remove_all = remove_all;
    add_seed = add_seed;
  }
