-- ===== src/Engine/Validate/Built.antt =====
-- Every plan that the builder's methods make has the snapshot that its guards refer to.
use bytecaskdb.KeyOrder.{Bytes, key_eq, key_lt}
use bytecaskdb.Engine.State.{Containers, EngineState}
use bytecaskdb.Engine.Plan.{
  Precondition, SizeLimits, WritePlan, must_be_absent, must_be_unchanged, must_exist,
}
use bytecaskdb.Engine.Plan.Build.{
  check_key_size, check_range, check_value_size, del, del_range, ensure_absent, ensure_present,
  ensure_range_unchanged, ensure_unchanged, guard, has_snapshot, is_none, new_plan, put,
  same_condition, set_precondition,
}
use bytecaskdb.Engine.Plan.Build
use bytecaskdb.Engine.Validate.Total.{HasWhatItNeeds}
use bytecaskdb.Prelude.{
  Bool-cases, length, All, ok, err, ◌>>=◌, throw_if, >>=-eq-ok, ok-injective, ◌≡◌, refl, subst, ◌≢◌,
  inl, inr, not, ◌&&◌, Option, none, List, [], ◌∷◌, contradictory_guards, snapshot_required,
}

abbrev NeedsNone : Bytes × Precondition → Type 0
NeedsNone g = g.1 ≢ must_be_unchanged

set_precondition-NeedsNone :
    (key : Bytes) (pre : Precondition) (gs gs' : List (Bytes × Precondition))
    → pre ≢ must_be_unchanged
    → set_precondition key pre gs ≡ ok gs'
    → All NeedsNone gs
    → All NeedsNone gs'
unfolding set_precondition
set_precondition-NeedsNone key pre [] gs' n h a = subst (All NeedsNone) (ok-injective h) (n, tt)
set_precondition-NeedsNone key pre ((k, g) ∷ gs) gs' n h a = elim (Bool-cases (key_eq k key)) [
  | inl same ↦ elim (Bool-cases (not (is_none g) && not (same_condition g pre))) [
    | inl clash ↦
        let h' : err contradictory_guards ≡ ok gs' = rw (same, clash, set_precondition) at h in
        absurd (cc h')
    | inr agree ↦
        let h' : ok ((key, pre) ∷ gs) ≡ ok gs' = rw (same, agree, set_precondition) at h in
        subst (All NeedsNone) (ok-injective h') (n, a.1)
  ]
  | inr other ↦ elim (Bool-cases (key_lt k key)) [
    | inl below ↦
        let h' : set_precondition key pre gs >>= (λ r. ok ((k, g) ∷ r)) ≡ ok gs' =
          rw (other, below, set_precondition) at h in
        let (r, p, h₁) = >>=-eq-ok (set_precondition key pre gs) _ h' in
        subst (All NeedsNone) (ok-injective h₁)
          (a.0, set_precondition-NeedsNone key pre gs r n p a.1)
    | inr above ↦
        let h' : ok ((key, pre) ∷ (k, g) ∷ gs) ≡ ok gs' =
          rw (other, above, set_precondition) at h in
        subst (All NeedsNone) (ok-injective h') (n, a)
  ]
]

module _ (c : Containers) where
  -- The plans that the methods make.
  pub data Built : WritePlan c → Type 0 where
    start : (limits : SizeLimits) (snap : Option (EngineState c)) → Built (new_plan c limits snap)
    did_put : (p q : WritePlan c) (k v : Bytes) → Built p → Build.put c k v p ≡ ok q → Built q
    did_del : (p q : WritePlan c) (k : Bytes) → Built p → Build.del c k p ≡ ok q → Built q
    did_del_range :
        (p q : WritePlan c) (from to : Bytes) → Built p → del_range c from to p ≡ ok q → Built q
    did_ensure_present :
        (p q : WritePlan c) (k : Bytes) → Built p → ensure_present c k p ≡ ok q → Built q
    did_ensure_absent :
        (p q : WritePlan c) (k : Bytes) → Built p → ensure_absent c k p ≡ ok q → Built q
    did_ensure_unchanged :
        (p q : WritePlan c) (k : Bytes) → Built p → ensure_unchanged c k p ≡ ok q → Built q
    did_ensure_range_unchanged :
        (p q : WritePlan c) (from to : Bytes)
        → Built p
        → ensure_range_unchanged c from to p ≡ ok q
        → Built q

  abbrev Needs : WritePlan c → Type 0
  Needs p = HasWhatItNeeds c p × (p.snap_entries ≡ [])

  no_snapshot_absurd :
      (p : WritePlan c)
      → throw_if (not (has_snapshot c p)) snapshot_required ≡ ok tt
      → p.snap ≢ none
  unfolding has_snapshot
  no_snapshot_absurd p h n =
      let h' : err snapshot_required ≡ ok tt = rw (n, has_snapshot) at h in cc h'

  guard_keeps :
      (p q : WritePlan c) (k : Bytes) (pre : Precondition)
      → pre ≢ must_be_unchanged
      → Needs p
      → guard c k pre p ≡ ok q
      → Needs q
  unfolding guard
  guard_keeps p q k pre n a h =
      let (_, _, h₁) = >>=-eq-ok (check_key_size (length k) p.limits.max_key_bytes) _ h in
      let (gs, s, h₂) = >>=-eq-ok (set_precondition k pre p.guards) _ h₁ in
      subst Needs (ok-injective h₂)
        (λ e. (set_precondition-NeedsNone k pre p.guards gs n s (a.0 e).0, (a.0 e).1), a.1)

  -- In every plan that a run of the builder's methods makes, from a new plan with or without a
  -- snapshot: without a snapshot no guard refers to one, and no looked-up entries are there yet.
  pub Built-HasWhatItNeeds :
      (p : WritePlan c) → Built p → HasWhatItNeeds c p × (p.snap_entries ≡ [])
  unfolding new_plan Build.put Build.del del_range ensure_present ensure_absent ensure_unchanged
      ensure_range_unchanged
  Built-HasWhatItNeeds _ (start limits snap) = (λ _. (tt, refl), refl)
  Built-HasWhatItNeeds _ (did_put p q k v b h) =
      let (_, _, h₁) = >>=-eq-ok (check_key_size (length k) p.limits.max_key_bytes) _ h in
      let (_, _, h₂) = >>=-eq-ok (check_value_size (length v) p.limits.max_value_bytes) _ h₁ in
      subst Needs (ok-injective h₂) (Built-HasWhatItNeeds p b)
  Built-HasWhatItNeeds _ (did_del p q k b h) =
      let (_, _, h₁) = >>=-eq-ok (check_key_size (length k) p.limits.max_key_bytes) _ h in
      subst Needs (ok-injective h₁) (Built-HasWhatItNeeds p b)
  Built-HasWhatItNeeds _ (did_del_range p q from to b h) =
      let (_, _, h₁) = >>=-eq-ok (check_key_size (length from) p.limits.max_key_bytes) _ h in
      let (_, _, h₂) = >>=-eq-ok (check_key_size (length to) p.limits.max_key_bytes) _ h₁ in
      let (_, _, h₃) = >>=-eq-ok (check_range from to) _ h₂ in
      subst Needs (ok-injective h₃) (Built-HasWhatItNeeds p b)
  Built-HasWhatItNeeds _ (did_ensure_present p q k b h) =
      guard_keeps p q k must_exist (λ x. cc x) (Built-HasWhatItNeeds p b) h
  Built-HasWhatItNeeds _ (did_ensure_absent p q k b h) =
      guard_keeps p q k must_be_absent (λ x. cc x) (Built-HasWhatItNeeds p b) h
  Built-HasWhatItNeeds _ (did_ensure_unchanged p q k b h) =
      let (_, _, h₁) = >>=-eq-ok (check_key_size (length k) p.limits.max_key_bytes) _ h in
      let (_, checked, h₂) = >>=-eq-ok (throw_if (not (has_snapshot c p)) snapshot_required) _ h₁ in
      let (gs, _, h₃) = >>=-eq-ok (set_precondition k must_be_unchanged p.guards) _ h₂ in
      subst Needs (ok-injective h₃)
        (λ n. absurd (no_snapshot_absurd p checked n), (Built-HasWhatItNeeds p b).1)
  Built-HasWhatItNeeds _ (did_ensure_range_unchanged p q from to b h) =
      let (_, _, h₁) = >>=-eq-ok (check_key_size (length from) p.limits.max_key_bytes) _ h in
      let (_, _, h₂) = >>=-eq-ok (check_key_size (length to) p.limits.max_key_bytes) _ h₁ in
      let (_, _, h₃) = >>=-eq-ok (check_range from to) _ h₂ in
      let (_, checked, h₄) = >>=-eq-ok (throw_if (not (has_snapshot c p)) snapshot_required) _ h₃ in
      subst Needs (ok-injective h₄)
        (λ n. absurd (no_snapshot_absurd p checked n), (Built-HasWhatItNeeds p b).1)
