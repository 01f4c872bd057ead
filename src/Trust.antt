-- ===== src/Trust.antt =====
-- pallets/trust/src/lib.rs: who trusts whom, now and at the start of the current update, and the
-- reputation that a path of trust passes on.
pub mod Paths
pub mod Frozen
mod Tests
use zero_dao_node.Base.{
  ℕ, ◌+◌, ◌-◌, ◌/◌, ◌%◌, Bool, not, ◌&&◌, ◌||◌, ◌==◌, if◌then◌else◌, Option, none, some, List, [],
  ◌∷◌, ltb, leb, ◌++◌, u32, saturating_add, saturating_sub, wrapping_add, wrapping_sub,
}
use zero_dao_node.Base.StorageMap.{StorageMap, get_or, insert}
use zero_dao_node.Dispatch.{Result, ok, err, ◌>>=◌, ◌>>◌, ensure, DispatchError, TrustError}
use zero_dao_node.External.{OrderedSet, Perbill}
use zero_dao_node.Primitives.{TirStep, appro_ln}
use zero_dao_node.Support.{Reputation, SeedsBase, TrustBase}

-- `INIT_SEED_RANK` and `MIN_TRUST_COUNT`
abbrev pub init_seed_rank : ℕ
init_seed_rank = 1000

abbrev pub min_trust_count : ℕ
min_trust_count = 5

-- The trust relationships changed since the update began.
pub record TrustTemp (S : Type 0) : Type 0 where
  pub trust : S
  pub untrust : S

pub data Event : Type 0 where
  trusted untrusted : ℕ → ℕ → Event

-- `TrustedList`, `TrustTempList`, the events (the last one first) and the storages of the pallets of
-- reputation and seeds.
pub record State (S W : Type 0) : Type 0 where
  pub trusted_list : StorageMap S
  pub trust_temp_list : StorageMap (TrustTemp S)
  pub events : List Event
  pub world : W

pub record Config (S W : Type 0) : Type 0 where
  pub ordered_set : OrderedSet S
  pub reputation : Reputation W
  pub seeds_base : SeedsBase W
  pub perbill : Perbill
  pub damping_factor : ℕ
  pub max_trust_count : ℕ

abbrev pub max : ℕ → ℕ → ℕ
max a b = if leb a b then b else a

-- `unwrap_or`
abbrev pub option_or : ℕ → Option ℕ → ℕ
option_or d o = elim o [ none ↦ d | some a ↦ a ]

abbrev pub fails : TrustError → DispatchError
fails = DispatchError.trust

module _ {S W : Type 0} (cfg : Config S W) where
  open cfg use {ordered_set, reputation, seeds_base, perbill, damping_factor, max_trust_count}

  -- `TrustedList::get` and `TrustTempList::get`
  abbrev pub trust_list : ℕ → State S W → S
  trust_list who s = get_or ordered_set.empty who s.trusted_list

  abbrev pub temp_of : ℕ → State S W → TrustTemp S
  temp_of who s =
      get_or (record { trust = ordered_set.empty; untrust = ordered_set.empty }) who
        s.trust_temp_list

  -- The change that `do_trust` notes during an update.
  abbrev pub temp_trusting : ℕ → TrustTemp S → TrustTemp S
  temp_trusting target temp =
      if ordered_set.contains target temp.trust
      then record temp { trust = ordered_set.remove target temp.trust }
      else record temp { untrust = ordered_set.insert target temp.untrust }

  -- The change that `do_untrust` notes during an update.
  abbrev pub temp_untrusting : ℕ → TrustTemp S → TrustTemp S
  temp_untrusting target temp =
      if ordered_set.contains target temp.untrust
      then record temp { untrust = ordered_set.remove target temp.untrust }
      else record temp { trust = ordered_set.insert target temp.trust }

  unfoldable pub do_trust : ℕ → ℕ → State S W → Result (State S W)
  do_trust who target s = do
    ensure (not (who == target)) (fails TrustError.unable_trust_yourself)
    let t = trust_list who s
    ensure (ltb (ordered_set.len t % u32) max_trust_count) (fails TrustError.too_much_trust)
    ensure (not (ordered_set.contains target t)) (fails TrustError.repeat_trust)
    let listed = record s { trusted_list = insert who (ordered_set.insert target t) s.trusted_list }
    let temp = insert who (temp_trusting target (temp_of who s)) s.trust_temp_list
    ok (
        if not (reputation.is_step TirStep.free s.world)
        then record listed { trust_temp_list = temp }
        else listed)

  unfoldable pub do_untrust : ℕ → ℕ → State S W → Result (State S W)
  do_untrust who target s = do
    ensure (not (who == target)) (fails TrustError.unable_untrust_yourself)
    let t = trust_list who s
    ensure (ordered_set.contains target t) (fails TrustError.non_existent)
    let listed = record s { trusted_list = insert who (ordered_set.remove target t) s.trusted_list }
    let temp = insert who (temp_untrusting target (temp_of who s)) s.trust_temp_list
    ok (
        if not (reputation.is_step TirStep.free s.world)
        then record listed { trust_temp_list = temp }
        else listed)

  -- The dispatchable functions; `origin` is the outcome of `ensure_signed`.
  unfoldable pub trust : Result ℕ → ℕ → State S W → Result (State S W)
  trust origin target s = do
    who ← origin
    s' ← do_trust who target s
    ok (record s' { events = Event.trusted who target ∷ s'.events })

  unfoldable pub untrust : Result ℕ → ℕ → State S W → Result (State S W)
  untrust origin target s = do
    who ← origin
    s' ← do_untrust who target s
    ok (record s' { events = Event.untrusted who target ∷ s'.events })

  unfoldable pub remove_all_tmp : State S W → State S W
  remove_all_tmp s = record s { trust_temp_list = [] }

  unfoldable pub get_trust_count : ℕ → State S W → ℕ
  get_trust_count who s = ordered_set.len (trust_list who s)

  -- In `usize` arithmetic, 32 bits wide in the WebAssembly runtime.
  unfoldable pub get_trust_count_old : ℕ → State S W → ℕ
  get_trust_count_old who s =
      let temp = temp_of who s in
      wrapping_sub u32 (wrapping_add u32 (get_trust_count who s) (ordered_set.len temp.trust))
        (ordered_set.len temp.untrust)

  unfoldable pub is_trust : ℕ → ℕ → State S W → Bool
  is_trust who target s = ordered_set.contains target (trust_list who s)

  unfoldable pub is_trust_old : ℕ → ℕ → State S W → Bool
  is_trust_old who target s =
      let temp = temp_of who s in
      ordered_set.contains target temp.trust
      || (is_trust who target s && not (ordered_set.contains target temp.untrust))

  -- The windows of two of the nodes.
  unfoldable pub valid_nodes : List ℕ → State S W → Result (Unit {0})
  valid_nodes [] s = ok tt
  valid_nodes (w0 ∷ []) s = ok tt
  valid_nodes (w0 ∷ w1 ∷ nodes) s = do
    ensure (is_trust_old w0 w1 s) (fails TrustError.wrong_path)
    valid_nodes (w1 ∷ nodes) s

  unfoldable pub get_trust_old : ℕ → State S W → List ℕ
  get_trust_old who s =
      let temp = temp_of who s in
      let kept = ordered_set.sub_set (ordered_set.to_vec temp.untrust) (trust_list who s) in
      ordered_set.to_vec kept ++ ordered_set.to_vec temp.trust

  -- The distance and the number of trusted users of the step from `u0` to `u1`, and the reputation
  -- of `u1`: the closure of `map`, whose variable `start_ir` becomes the last component.
  abbrev pub measured : ℕ → ℕ → ℕ → State S W → Result (ℕ × ℕ × ℕ)
  measured start_ir u0 u1 s =
      let end_ir = option_or 0 (reputation.get_reputation u1 s.world) in
      if is_trust u0 u1 s
      then ok (appro_ln (saturating_sub start_ir end_ir), get_trust_count_old u0 s % u32, end_ir)
      else err (fails TrustError.wrong_path)

  -- The closure of `try_fold`.
  abbrev pub accumulated : ℕ × ℕ → ℕ → ℕ → ℕ × ℕ
  accumulated (total, score) dist trust_count = (
    saturating_add u32 total dist,
    perbill.mul_floor damping_factor score / max trust_count min_trust_count / dist,
  )

  unfoldable pub fold_path : ℕ → ℕ × ℕ → List ℕ → State S W → Result (ℕ × ℕ)
  fold_path start_ir acc [] s = ok acc
  fold_path start_ir acc (u0 ∷ []) s = ok acc
  fold_path start_ir acc (u0 ∷ u1 ∷ users) s = do
    (dist, trust_count, end_ir) ← measured start_ir u0 u1 s
    fold_path end_ir (accumulated acc dist trust_count) (u1 ∷ users) s

  -- `users[0]` panics without a user.
  unfoldable pub computed_path : List ℕ → State S W → Result (ℕ × ℕ)
  computed_path [] s = err DispatchError.panic
  computed_path (u0 ∷ users) s = do
    ensure (seeds_base.is_seed u0 s.world) (fails TrustError.not_seed)
    fold_path init_seed_rank (0, init_seed_rank) (u0 ∷ users) s

  -- The pallet fills the trait by which the others see it.
  abbrev pub zd_trust : TrustBase (State S W)
  zd_trust = record {
    remove_all_tmp = remove_all_tmp;
    get_trust_count = get_trust_count;
    get_trust_count_old = get_trust_count_old;
    is_trust = is_trust;
    is_trust_old = is_trust_old;
    get_trust_old = get_trust_old;
    computed_path = computed_path;
    valid_nodes = valid_nodes;
  }
