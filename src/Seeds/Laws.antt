-- ===== src/Seeds/Laws.antt =====
-- pallets/seeds/src/lib.rs: what adding and removing seeds does to the set and to its size.
use zero_dao_node.Base.{ℕ, ◌+◌, ◌<◌, ◌≡◌, inl, inr, true, false, not, ◌&&◌, ◌||◌, ◌==◌, arith, u32}
use zero_dao_node.Dispatch.{Result, ok, Result-cases}
use zero_dao_node.Primitives.{TirStep}
use zero_dao_node.Seeds.{Config, State, is_seed, get_seed_count, add_seed, new_seed, remove_seed}

module _ {S W : Type 0} (cfg : Config S W) where
  open cfg use {ordered_set, reputation}

  -- A new seed joins the set, which grows by one as long as its size fits 32 bits, and no other
  -- account is affected. It needs the free step and an account that is not a seed.
  pub new_seed_lem :
      (origin : Result (Unit {0})) (seed who : ℕ) (s s' : State S W)
      → ordered_set.len s.seeds + 1 < u32
      → new_seed cfg origin seed s ≡ ok s'
      → (is_seed cfg who s' ≡ (who == seed || is_seed cfg who s))
        × (get_seed_count cfg s' ≡ get_seed_count cfg s + 1)
        × (is_seed cfg seed s ≡ false)
        × (reputation.is_step TirStep.free s.world ≡ true)
  unfolding new_seed add_seed is_seed get_seed_count
  new_seed_lem origin seed who s s' bound e =
      let here = ordered_set.contains-insert who seed s.seeds in
      let size = ordered_set.len-insert seed s.seeds in
      elim (Result-cases origin) [
        | inr (x, failed) ↦ absurd (ground arith)
        | inl (_, signed) ↦ (ground (arith, here), ground (arith, size), ground arith, ground arith)
      ]

  -- Removing a seed takes it out of the set, which shrinks by one, and no other account is affected.
  pub remove_seed_lem :
      (origin : Result (Unit {0})) (seed who : ℕ) (s s' : State S W)
      → ordered_set.len s.seeds < u32
      → remove_seed cfg origin seed s ≡ ok s'
      → (is_seed cfg who s' ≡ (not (who == seed) && is_seed cfg who s))
        × (get_seed_count cfg s' + 1 ≡ get_seed_count cfg s)
        × (is_seed cfg seed s ≡ true)
        × (reputation.is_step TirStep.free s.world ≡ true)
  unfolding remove_seed is_seed get_seed_count
  remove_seed_lem origin seed who s s' bound e =
      let here = ordered_set.contains-remove who seed s.seeds in
      let size = ordered_set.len-remove seed s.seeds in
      elim (Result-cases origin) [
        | inr (x, failed) ↦ absurd (ground arith)
        | inl (_, signed) ↦ (ground (arith, here), ground (arith, size), ground arith, ground arith)
      ]

  -- Adding a seed and removing it again leaves the same seeds and the same count.
  pub remove_seed-new_seed :
      (origin : Result (Unit {0})) (seed who : ℕ) (s mid s' : State S W)
      → ordered_set.len s.seeds + 1 < u32
      → ordered_set.len mid.seeds < u32
      → new_seed cfg origin seed s ≡ ok mid
      → remove_seed cfg origin seed mid ≡ ok s'
      → (is_seed cfg who s' ≡ is_seed cfg who s) × (get_seed_count cfg s' ≡ get_seed_count cfg s)
  remove_seed-new_seed origin seed who s mid s' bound₁ bound₂ added removed =
      let (here, size, absent, _) = new_seed_lem origin seed who s mid bound₁ added in
      let (there, back, _, _) = remove_seed_lem origin seed who mid s' bound₂ removed in
      (ground arith, ground arith)
