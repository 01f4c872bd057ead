-- ===== src/Trust/Frozen.antt =====
-- pallets/trust/src/lib.rs: the trust relation as it was when the current update began, which
-- changes of trust during the update must not disturb.
use zero_dao_node.Base.{ℕ, ◌<◌, ◌≤◌, ◌≡◌, true, false, not, ◌&&◌, arith, u32, refl, ◌∙◌}
use zero_dao_node.Base.StorageMap.{get_or, insert, get_or-insert}
use zero_dao_node.Dispatch.{ok}
use zero_dao_node.Primitives.{TirStep}
use zero_dao_node.Trust.{
  TrustTemp, State, Config, trust_list, temp_of, temp_trusting, temp_untrusting, do_trust,
  do_untrust, get_trust_count, get_trust_count_old, is_trust, is_trust_old, remove_all_tmp,
}

module _ {S W : Type 0} (cfg : Config S W) where
  open cfg use {ordered_set, reputation}

  -- The noted changes of an account agree with its list: what was added stands in the list, what
  -- was taken away does not.
  unfoldable pub IsNoted : ℕ → State S W → Type 0
  IsNoted who s =
      (target : ℕ)
      → ((ordered_set.contains target (temp_of cfg who s).untrust
            && not (is_trust cfg who target s))
          ≡ false)
        × ((ordered_set.contains target (temp_of cfg who s).trust && is_trust cfg who target s)
            ≡ false)

  do_trust-ok :
      (who target : ℕ) (s s' : State S W)
      → reputation.is_step TirStep.free s.world ≡ false
      → do_trust cfg who target s ≡ ok s'
      → (s'.world ≡ s.world)
        × (is_trust cfg who target s ≡ false)
        × (s'.trusted_list
            ≡ insert who (ordered_set.insert target (trust_list cfg who s)) s.trusted_list)
        × (s'.trust_temp_list
            ≡ insert who (temp_trusting cfg target (temp_of cfg who s)) s.trust_temp_list)
  unfolding do_trust is_trust
  do_trust-ok who target s s' busy e = (ground arith, ground arith, ground arith, ground arith)

  do_untrust-ok :
      (who target : ℕ) (s s' : State S W)
      → reputation.is_step TirStep.free s.world ≡ false
      → do_untrust cfg who target s ≡ ok s'
      → (s'.world ≡ s.world)
        × (is_trust cfg who target s ≡ true)
        × (s'.trusted_list
            ≡ insert who (ordered_set.remove target (trust_list cfg who s)) s.trusted_list)
        × (s'.trust_temp_list
            ≡ insert who (temp_untrusting cfg target (temp_of cfg who s)) s.trust_temp_list)
  unfolding do_untrust is_trust
  do_untrust-ok who target s s' busy e = (ground arith, ground arith, ground arith, ground arith)

  abbrev no_change : TrustTemp S
  no_change = record { trust = ordered_set.empty; untrust = ordered_set.empty }

  do_trust-IsNoted :
      (who target k : ℕ) (s s' : State S W)
      → reputation.is_step TirStep.free s.world ≡ false
      → IsNoted k s
      → do_trust cfg who target s ≡ ok s'
      → IsNoted k s' × ((x : ℕ) → is_trust_old cfg k x s' ≡ is_trust_old cfg k x s)
  unfolding IsNoted is_trust is_trust_old
  do_trust-IsNoted who target k s s' busy noted e =
      let (world, absent, listed, temp) = do_trust-ok who target s s' busy e in
      let t = trust_list cfg who s in
      let old = temp_of cfg who s in
      let list_at =
        get_or-insert ordered_set.empty k who (ordered_set.insert target t) s.trusted_list in
      let temp_at =
        get_or-insert no_change k who (temp_trusting cfg target old) s.trust_temp_list in
      (
        λ x. (
          ground (
            arith,
            list_at,
            temp_at,
            ordered_set.contains-insert x target t,
            ordered_set.contains-remove x target old.trust,
            ordered_set.contains-insert x target old.untrust,
            noted x,
            noted target,
          ),
          ground (
            arith,
            list_at,
            temp_at,
            ordered_set.contains-insert x target t,
            ordered_set.contains-remove x target old.trust,
            ordered_set.contains-insert x target old.untrust,
            noted x,
            noted target,
          ),
        ),
        λ x. ground (
          arith,
          list_at,
          temp_at,
          ordered_set.contains-insert x target t,
          ordered_set.contains-remove x target old.trust,
          ordered_set.contains-insert x target old.untrust,
          noted x,
          noted target,
        ),
      )

  do_untrust-IsNoted :
      (who target k : ℕ) (s s' : State S W)
      → reputation.is_step TirStep.free s.world ≡ false
      → IsNoted k s
      → do_untrust cfg who target s ≡ ok s'
      → IsNoted k s' × ((x : ℕ) → is_trust_old cfg k x s' ≡ is_trust_old cfg k x s)
  unfolding IsNoted is_trust is_trust_old
  do_untrust-IsNoted who target k s s' busy noted e =
      let (world, present, listed, temp) = do_untrust-ok who target s s' busy e in
      let t = trust_list cfg who s in
      let old = temp_of cfg who s in
      let list_at =
        get_or-insert ordered_set.empty k who (ordered_set.remove target t) s.trusted_list in
      let temp_at =
        get_or-insert no_change k who (temp_untrusting cfg target old) s.trust_temp_list in
      (
        λ x. (
          ground (
            arith,
            list_at,
            temp_at,
            ordered_set.contains-remove x target t,
            ordered_set.contains-remove x target old.untrust,
            ordered_set.contains-insert x target old.trust,
            noted x,
            noted target,
          ),
          ground (
            arith,
            list_at,
            temp_at,
            ordered_set.contains-remove x target t,
            ordered_set.contains-remove x target old.untrust,
            ordered_set.contains-insert x target old.trust,
            noted x,
            noted target,
          ),
        ),
        λ x. ground (
          arith,
          list_at,
          temp_at,
          ordered_set.contains-remove x target t,
          ordered_set.contains-remove x target old.untrust,
          ordered_set.contains-insert x target old.trust,
          noted x,
          noted target,
        ),
      )

  do_trust-count :
      (who target k : ℕ) (s s' : State S W)
      → reputation.is_step TirStep.free s.world ≡ false
      → IsNoted k s
      → ordered_set.len (temp_of cfg k s').untrust ≤ u32
      → do_trust cfg who target s ≡ ok s'
      → get_trust_count_old cfg k s' ≡ get_trust_count_old cfg k s
  unfolding IsNoted is_trust get_trust_count_old get_trust_count
  do_trust-count who target k s s' busy noted fits e =
      let (world, absent, listed, temp) = do_trust-ok who target s s' busy e in
      let t = trust_list cfg who s in
      let old = temp_of cfg who s in
      let list_at =
        get_or-insert ordered_set.empty k who (ordered_set.insert target t) s.trusted_list in
      let temp_at =
        get_or-insert no_change k who (temp_trusting cfg target old) s.trust_temp_list in
      ground (
        arith,
        list_at,
        temp_at,
        ordered_set.len-insert target t,
        ordered_set.len-remove target old.trust,
        ordered_set.len-insert target old.untrust,
        noted target,
      )

  do_untrust-count :
      (who target k : ℕ) (s s' : State S W)
      → reputation.is_step TirStep.free s.world ≡ false
      → IsNoted k s
      → ordered_set.len (temp_of cfg k s).untrust ≤ u32
      → do_untrust cfg who target s ≡ ok s'
      → get_trust_count_old cfg k s' ≡ get_trust_count_old cfg k s
  unfolding IsNoted is_trust get_trust_count_old get_trust_count
  do_untrust-count who target k s s' busy noted fits e =
      let (world, present, listed, temp) = do_untrust-ok who target s s' busy e in
      let t = trust_list cfg who s in
      let old = temp_of cfg who s in
      let list_at =
        get_or-insert ordered_set.empty k who (ordered_set.remove target t) s.trusted_list in
      let temp_at =
        get_or-insert no_change k who (temp_untrusting cfg target old) s.trust_temp_list in
      ground (
        arith,
        list_at,
        temp_at,
        ordered_set.len-remove target t,
        ordered_set.len-remove target old.untrust,
        ordered_set.len-insert target old.trust,
        noted target,
      )

  -- A change of trust while the reputations are updated. The length of the removals stays in the
  -- range of `usize`.
  pub data Step : State S W → State S W → Type 0 where
    trusting :
        {s s' : State S W} (who target : ℕ)
        → ((k : ℕ) → ordered_set.len (temp_of cfg k s').untrust ≤ u32)
        → do_trust cfg who target s ≡ ok s'
        → Step s s'
    untrusting :
        {s s' : State S W} (who target : ℕ)
        → ((k : ℕ) → ordered_set.len (temp_of cfg k s).untrust ≤ u32)
        → do_untrust cfg who target s ≡ ok s'
        → Step s s'

  pub data Reach (start : State S W) : State S W → Type 0 where
    here : Reach start start
    then : {mid out : State S W} → Reach start mid → Step mid out → Reach start out

  -- What the changes since `start` keep: the update goes on, the notes agree with the lists, and the
  -- old relation and its counts are those of `start`.
  pub record IsFrozen (start s : State S W) (k : ℕ) : Type 0 where
    pub same_world : s.world ≡ start.world
    pub noted : IsNoted k s
    pub same_trust : (x : ℕ) → is_trust_old cfg k x s ≡ is_trust_old cfg k x start
    pub same_count : get_trust_count_old cfg k s ≡ get_trust_count_old cfg k start

  Step-IsFrozen :
      {start s s' : State S W} (k : ℕ)
      → reputation.is_step TirStep.free start.world ≡ false
      → IsFrozen start s k
      → Step s s'
      → IsFrozen start s' k
  Step-IsFrozen {start} {s} {s'} k began h (Step.trusting who target fits e) =
      let busy : reputation.is_step TirStep.free s.world ≡ false = ground (arith, h.same_world) in
      let (world, _, _, _) = do_trust-ok who target s s' busy e in
      let (noted, same) = do_trust-IsNoted who target k s s' busy h.noted e in
      record {
        same_world = world ∙ h.same_world;
        noted = noted;
        same_trust = λ x. same x ∙ h.same_trust x;
        same_count = do_trust-count who target k s s' busy h.noted (fits k) e ∙ h.same_count;
      }
  Step-IsFrozen {start} {s} {s'} k began h (Step.untrusting who target fits e) =
      let busy : reputation.is_step TirStep.free s.world ≡ false = ground (arith, h.same_world) in
      let (world, _, _, _) = do_untrust-ok who target s s' busy e in
      let (noted, same) = do_untrust-IsNoted who target k s s' busy h.noted e in
      record {
        same_world = world ∙ h.same_world;
        noted = noted;
        same_trust = λ x. same x ∙ h.same_trust x;
        same_count = do_untrust-count who target k s s' busy h.noted (fits k) e ∙ h.same_count;
      }

  Reach-IsFrozen :
      {start s : State S W} (k : ℕ)
      → reputation.is_step TirStep.free start.world ≡ false
      → IsNoted k start
      → Reach start s
      → IsFrozen start s k
  Reach-IsFrozen k began noted Reach.here = record {
    same_world = refl;
    noted = noted;
    same_trust = λ x. refl;
    same_count = refl;
  }
  Reach-IsFrozen k began noted (Reach.then before step) =
      Step-IsFrozen k began (Reach-IsFrozen k began noted before) step

  -- After the notes are cleared, the old relation is the current one, with its counts.
  pub remove_all_tmp_lem :
      (k x : ℕ) (s : State S W)
      → get_trust_count cfg k s < u32
      → IsNoted k (remove_all_tmp cfg s)
        × (is_trust_old cfg k x (remove_all_tmp cfg s) ≡ is_trust cfg k x s)
        × (get_trust_count_old cfg k (remove_all_tmp cfg s) ≡ get_trust_count cfg k s)
  unfolding IsNoted is_trust is_trust_old get_trust_count get_trust_count_old remove_all_tmp get_or
  remove_all_tmp_lem k x s small =
      let len = ordered_set.len-empty in
      (
        λ y. (
          ground (arith, ordered_set.contains-empty y),
          ground (arith, ordered_set.contains-empty y),
        ),
        ground (arith, ordered_set.contains-empty x),
        ground (arith, len),
      )

  -- An update that begins with the notes cleared sees the trust relation of its beginning, whatever
  -- anybody trusts and untrusts meanwhile: the old relation, and for each account the old number of
  -- trusted users, stay those that the current ones were at the start.
  pub Reach-old :
      (k x : ℕ) (start s : State S W)
      → reputation.is_step TirStep.free start.world ≡ false
      → get_trust_count cfg k start < u32
      → Reach (remove_all_tmp cfg start) s
      → (is_trust_old cfg k x s ≡ is_trust cfg k x start)
        × (get_trust_count_old cfg k s ≡ get_trust_count cfg k start)
  unfolding remove_all_tmp
  Reach-old k x start s began small run =
      let (noted, same, count) = remove_all_tmp_lem k x start small in
      let h = Reach-IsFrozen k began noted run in (h.same_trust x ∙ same, h.same_count ∙ count)
