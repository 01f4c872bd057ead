-- ===== src/Trust/Tests.antt =====
-- pallets/trust/src/lib.rs at a concrete storage, over the reputation pallet: the account 1 is the
-- only seed and trusts 2, which trusts 3; an update is under way.
use zero_dao_node.Base.{
  ◌↔◌, get_elem?, suc, some, true, ℕ, ◌≤◌, ◌≡◌, refl, List, [], ◌∷◌, arith, ◌==◌, u32,
}
use zero_dao_node.Base.StorageMap.{get_or, insert}
use zero_dao_node.Dispatch.{ok, err, TrustError}
use zero_dao_node.Fixtures.{parts, listed, contains, add, without, count}
use zero_dao_node.Primitives.{TirStep}
use zero_dao_node.Reputation
use zero_dao_node.Reputation.{zd_reputation}
use zero_dao_node.Trust.{
  Config, State, fails, do_trust, do_untrust, get_trust_count, get_trust_count_old, is_trust,
  is_trust_old, valid_nodes, computed_path, remove_all_tmp, temp_of,
}
use zero_dao_node.Trust.Frozen.{Step, Reach, Reach-old}
use zero_dao_node.Trust.Paths.{
  along, fives, valid_nodes_lem, computed_path_lem, computed_path_refused,
}

abbrev World : Type 0
World = Reputation.State

abbrev config : Config (List ℕ) World
config = record {
  ordered_set = listed;
  reputation = zd_reputation;
  seeds_base = record {
    is_seed = λ who w. who == 1;
    get_seed_count = λ w. 1;
    remove_all = λ w. w;
    add_seed = λ who w. w;
  };
  perbill = parts;
  damping_factor = 800_000_000;
  max_trust_count = 600;
}

abbrev start : State (List ℕ) World
start = record {
  trusted_list = (1, 2 ∷ []) ∷ (2, 3 ∷ []) ∷ [];
  trust_temp_list = [];
  events = [];
  world = record {
    system_info = record { nonce = 2; last = 7; next = 17; period = 10; step = TirStep.reputation };
    reputation_scores = [];
    events = [];
    now = 9;
  };
}

-- The account 1 comes to trust 3.
abbrev trusted : State (List ℕ) World
trusted = record start {
  trusted_list = (1, 3 ∷ 2 ∷ []) ∷ (2, 3 ∷ []) ∷ [];
  trust_temp_list = (1, record { trust = []; untrust = 3 ∷ [] }) ∷ [];
}

-- It no longer trusts 2.
abbrev untrusted : State (List ℕ) World
untrusted = record start {
  trusted_list = (1, 3 ∷ []) ∷ (2, 3 ∷ []) ∷ [];
  trust_temp_list = (1, record { trust = 2 ∷ []; untrust = 3 ∷ [] }) ∷ [];
}

trust-start : do_trust config 1 3 start ≡ ok trusted
unfolding do_trust Reputation.is_step get_or insert contains add without count
trust-start = refl

untrust-trusted : do_untrust config 1 2 trusted ≡ ok untrusted
unfolding do_untrust Reputation.is_step get_or insert contains add without count
untrust-trusted = refl

trusted-fits : (k : ℕ) → config.ordered_set.len (temp_of config k trusted).untrust ≤ u32
unfolding get_or count contains
trusted-fits k = ground arith

run : Reach config (remove_all_tmp config start) untrusted
unfolding remove_all_tmp
run =
    Reach.then (Reach.then Reach.here (Step.trusting 1 3 trusted-fits trust-start))
      (Step.untrusting 1 2 trusted-fits untrust-trusted)

Reach-old_example :
    (is_trust_old config 1 2 untrusted ≡ is_trust config 1 2 start)
    × (get_trust_count_old config 1 untrusted ≡ get_trust_count config 1 start)
unfolding Reputation.is_step get_trust_count get_or count contains
Reach-old_example = Reach-old config 1 2 start untrusted refl (omega arith) run

valid_nodes_lem_example : (valid_nodes config (1 ∷ 2 ∷ []) untrusted ≡ ok tt) ↔ (
    (i w0 w1 : ℕ)
    → get_elem? (1 ∷ 2 ∷ []) i ≡ some w0
    → get_elem? (1 ∷ 2 ∷ []) (suc i) ≡ some w1
    → is_trust_old config w0 w1 untrusted ≡ true)
valid_nodes_lem_example = valid_nodes_lem config (1 ∷ 2 ∷ []) untrusted

computed_path_lem_example :
    (dist : ℕ) × (score : ℕ) × (computed_path config (1 ∷ 2 ∷ 3 ∷ []) start ≡ ok (dist, score))
    × (2 ≤ dist)
    × (dist ≤ 16)
    × (fives (1 ∷ 2 ∷ 3 ∷ []) score ≤ 1000)
unfolding is_trust along get_or contains
computed_path_lem_example =
    computed_path_lem config 1 (2 ∷ 3 ∷ []) start (omega arith) (omega arith) refl refl

-- A change of trust during the update counts in the score of a path, though not in its validity.
path_disagrees :
    (valid_nodes config (1 ∷ 2 ∷ []) untrusted ≡ ok tt)
    × (computed_path config (1 ∷ 2 ∷ []) untrusted ≡ err (fails TrustError.wrong_path))
unfolding valid_nodes is_trust_old is_trust along get_or contains
path_disagrees = (refl, computed_path_refused config 1 (2 ∷ []) untrusted refl)
