-- ===== src/Engine/Validate/Decides.antt =====
-- `validate_preconditions` decides whether the head still allows a plan.
use bytecaskdb.KeyOrder.{Bytes}
use bytecaskdb.KeyDirEntry.{KeyDirEntry, sequence}
use bytecaskdb.Engine.State.{Containers, EngineState, TransientEngineState}
use bytecaskdb.Engine.Plan.{
  WriteOp, WritePlan, point_del, point_put, range_del, snapshot_entry, entry_in,
}
use bytecaskdb.Engine.Validate.{
  check_writes, point_conflict, range_changed, write_conflict, check_conflicts, check_guards,
  finish, held, lost, validate_preconditions, check_range_guards,
}
use bytecaskdb.Engine.Validate.Range.{HasSequences, range_changed-none, range_changed-some, version}
use bytecaskdb.Engine.Validate.Writes.{
  GuardHolds, RangeHolds, WriteHolds, SameVersion, SnapHasSequences, check_guards_iff,
  check_range_guards_iff,
}
use bytecaskdb.Prelude.{
  ==_iff, Bool-cases, Option-cases, length, get_elem?, All, length-append, ok, err, Result-cases,
  ok-injective, ℕ, ◌+◌, ◌≡◌, refl, sym, ap, subst, ◌∙◌, ◌↔◌, ◌⊎◌, inl, inr, Bool, true, false,
  Option, none, some, List, [], ◌∷◌, ◌++◌, map, append_assoc, arith,
}

get_elem?-append :
    {A : Type 0} (pre : List A) (x : A) (xs : List A)
    → get_elem? (pre ++ x ∷ xs) (length pre) ≡ some x
get_elem?-append [] x xs = refl
get_elem?-append (p ∷ pre) x xs = get_elem?-append pre x xs

module _ (c : Containers) where
  -- `snap_entries` is empty, or what `resolve_snapshot_entries` made of the writes.
  abbrev pub IsParallel : WritePlan c → EngineState c → Type 0
  IsParallel plan s =
      (plan.snap_entries ≡ []) ⊎ (plan.snap_entries ≡ map (entry_in c s) plan.writes)

  -- The head has what the plan asks of it.
  abbrev pub IsAllowed : TransientEngineState c → WritePlan c → Bool → Type 0
  IsAllowed t plan defer_puts =
      All (GuardHolds c t plan.snap) plan.guards
      × All (RangeHolds c t plan.snap) plan.range_guards
      × ((s : EngineState c)
          → plan.snap ≡ some s
          → defer_puts ≡ false
          → All (WriteHolds c t s) plan.writes)

  -- The entry that the plan looks a key up with is the snapshot's.
  abbrev EntryMatches : WritePlan c → EngineState c → ℕ → WriteOp → Type 0
  EntryMatches plan s i (point_put key value) =
      snapshot_entry c plan s i key ≡ c.keys.get s.key_dir key
  EntryMatches plan s i (point_del key) = snapshot_entry c plan s i key ≡ c.keys.get s.key_dir key
  EntryMatches plan s i (range_del from to) = Unit

  abbrev EntriesMatch : WritePlan c → EngineState c → ℕ → List WriteOp → Type 0
  EntriesMatch plan s i [] = Unit
  EntriesMatch plan s i (w ∷ ws) = EntryMatches plan s i w × EntriesMatch plan s (i + 1) ws

  entry_unresolved :
      (plan : WritePlan c) (s : EngineState c) (i : ℕ) (key : Bytes)
      → plan.snap_entries ≡ []
      → snapshot_entry c plan s i key ≡ c.keys.get s.key_dir key
  unfolding snapshot_entry
  entry_unresolved plan s i key h = rw h

  entry_resolved :
      (plan : WritePlan c) (s : EngineState c) (i : ℕ) (key : Bytes) (e : Option KeyDirEntry)
      → get_elem? plan.snap_entries i ≡ some e
      → snapshot_entry c plan s i key ≡ e
  unfolding snapshot_entry
  entry_resolved plan s i key e h = rw (h, snapshot_entry)

  entry_matches :
      (plan : WritePlan c) (s : EngineState c) (i : ℕ) (w : WriteOp)
      → get_elem? plan.snap_entries i ≡ some (entry_in c s w)
      → EntryMatches plan s i w
  unfolding entry_in
  entry_matches plan s i (point_put key value) h = entry_resolved plan s i key _ h
  entry_matches plan s i (point_del key) h = entry_resolved plan s i key _ h
  entry_matches plan s i (range_del from to) h = tt

  unresolved_match :
      (plan : WritePlan c) (s : EngineState c) (i : ℕ) (ws : List WriteOp)
      → plan.snap_entries ≡ []
      → EntriesMatch plan s i ws
  unresolved_match plan s i [] h = tt
  unresolved_match plan s i (point_put key value ∷ ws) h =
      (entry_unresolved plan s i key h, unresolved_match plan s (i + 1) ws h)
  unresolved_match plan s i (point_del key ∷ ws) h =
      (entry_unresolved plan s i key h, unresolved_match plan s (i + 1) ws h)
  unresolved_match plan s i (range_del from to ∷ ws) h = (tt, unresolved_match plan s (i + 1) ws h)

  resolved_match :
      (plan : WritePlan c) (s : EngineState c) (pre : List (Option KeyDirEntry)) (ws : List WriteOp)
      → plan.snap_entries ≡ pre ++ map (entry_in c s) ws
      → (i : ℕ) → i ≡ length pre
      → EntriesMatch plan s i ws
  resolved_match plan s pre [] h i l = tt
  resolved_match plan s pre (w ∷ ws) h i l =
      let at_ : get_elem? plan.snap_entries i ≡ some (entry_in c s w) =
        rw h (rw l (get_elem?-append pre (entry_in c s w) (map (entry_in c s) ws))) in
      let rest : EntriesMatch plan s (i + 1) ws =
        resolved_match plan s (pre ++ entry_in c s w ∷ []) ws
          (h ∙ sym (append_assoc pre (entry_in c s w ∷ []) (map (entry_in c s) ws))) (i + 1)
          (omega (arith, l, length-append pre (entry_in c s w ∷ []))) in
      (entry_matches plan s i w at_, rest)

  parallel_match :
      (plan : WritePlan c) (s : EngineState c)
      → IsParallel plan s
      → EntriesMatch plan s 0 plan.writes
  parallel_match plan s (inl h) = unresolved_match plan s 0 plan.writes h
  parallel_match plan s (inr h) = resolved_match plan s [] plan.writes h 0 refl

  module _ (t : TransientEngineState c) (ht : HasSequences c.keys t.key_dir) (s : EngineState c)
      (hs : HasSequences c.keys s.key_dir) where
    point_conflict_absent :
        (key : Bytes)
        → (point_conflict c t none key ≡ none) ↔ (version (c.keys.get t.key_dir key) ≡ none)
    unfolding point_conflict
    point_conflict_absent key = elim (Option-cases (c.keys.get t.key_dir key)) [
      | inl gone ↦ (λ _. ap version gone, λ _. rw (gone, point_conflict) refl)
      | inr (e, here) ↦ (λ x. ground (arith, x, here), λ x. cc (x, here))
    ]

    -- The check by location answers as the one by key would.
    point_conflict_present :
        (key : Bytes) (f : KeyDirEntry)
        → (point_conflict c t (some f) key ≡ none)
          ↔ (version (c.keys.get t.key_dir key) ≡ some (sequence f))
    unfolding point_conflict
    point_conflict_present key f = elim (Bool-cases (c.keys.holds t.key_dir key f)) [
      | inl held_there ↦
          (λ _. ap version (c.keys.holds-get key f t.key_dir held_there), λ _. rw held_there)
      | inr moved ↦ elim (Option-cases (c.keys.get t.key_dir key)) [
        | inl gone ↦ (λ x. ground (arith, x, moved, gone), λ x. cc (x, gone))
        | inr (e, here) ↦
            let same_iff = ==_iff (sequence e) (sequence f) in
            (
              λ x. ground (arith, x, moved, here, same_iff),
              λ x.
                  let same : sequence e ≡ sequence f = cc (x, here) in
                  rw moved (rw here (rw (same_iff.1 same))),
            )
      ]
    ]

    point_conflict_iff :
        (key : Bytes)
        → (point_conflict c t (c.keys.get s.key_dir key) key ≡ none) ↔ SameVersion c t s key
    point_conflict_iff key = elim (Option-cases (c.keys.get s.key_dir key)) [
      | inl absent ↦
          let (to, of) = point_conflict_absent key in
          (
            λ x. to (rw absent at x) ∙ sym (ap version absent),
            λ x. rw absent (of (x ∙ ap version absent)),
          )
      | inr (f, there) ↦
          let (to, of) = point_conflict_present key f in
          (
            λ x. to (rw there at x) ∙ sym (ap version there),
            λ x. rw there (of (x ∙ ap version there)),
          )
    ]

    write_conflict_iff :
        (plan : WritePlan c) (i : ℕ) (w : WriteOp)
        → EntryMatches plan s i w
        → (write_conflict c t plan s i w ≡ none) ↔ WriteHolds c t s w
    unfolding write_conflict
    write_conflict_iff plan i (point_put key value) m = rw m (point_conflict_iff key)
    write_conflict_iff plan i (point_del key) m = rw m (point_conflict_iff key)
    write_conflict_iff plan i (range_del from to) m = (
      range_changed-none c t s from to ht hs,
      λ same. elim (Option-cases (range_changed c t s from to)) [
        | inl none_changed ↦ none_changed
        | inr (r, changed) ↦
            let (k, kf, kt, n) = range_changed-some c t s from to r changed in
            absurd (n (same k kf kt))
      ],
    )

    check_writes_iff :
        (plan : WritePlan c) (i : ℕ) (ws : List WriteOp)
        → EntriesMatch plan s i ws
        → (check_writes c t plan s i ws ≡ none) ↔ All (WriteHolds c t s) ws
    unfolding check_writes
    check_writes_iff plan i [] m = (λ _. tt, λ _. refl)
    check_writes_iff plan i (w ∷ ws) m =
        let (to, of) = write_conflict_iff plan i w m.0 in
        let (to', of') = check_writes_iff plan (i + 1) ws m.1 in
        (
          λ x. elim (Option-cases (write_conflict c t plan s i w)) [
            | inl fine ↦ (to fine, to' (rw (fine, check_writes) at x))
            | inr (r, bad) ↦ absurd (ground (arith, x, bad))
          ],
          λ x. rw (of x.0, check_writes) (of' x.1),
        )

  -- The answer of the implicit checks, whichever plan they are for.
  conflicts_iff :
      (t : TransientEngineState c) (plan : WritePlan c) (defer_puts : Bool)
      (snap : Option (EngineState c))
      → HasSequences c.keys t.key_dir
      → SnapHasSequences c snap
      → ((s : EngineState c) → snap ≡ some s → IsParallel plan s)
      → (check_conflicts c t plan defer_puts snap ≡ none) ↔ (
          (s : EngineState c)
          → snap ≡ some s
          → defer_puts ≡ false
          → All (WriteHolds c t s) plan.writes)
  unfolding check_conflicts
  conflicts_iff t plan b none ht hs m = (λ _ s p. absurd (cc p), λ _. cc)
  conflicts_iff t plan true (some s) ht hs m = (λ _ u p q. absurd (cc q), λ _. cc)
  conflicts_iff t plan false (some s) ht hs m =
      let (to, of) =
        check_writes_iff t ht s (hs s refl) plan 0 plan.writes (parallel_match plan s (m s refl)) in
      (
        λ x u p q.
            let su : s ≡ u = cc p in subst (λ v. All (WriteHolds c t v) plan.writes) su (to x),
        λ x. of (x s refl refl),
      )

  finish_iff :
      (h : ℕ) (o : Option ℕ) (b : Bool) (r : ℕ) → finish c h o ≡ (b, r) → (b ≡ true) ↔ (o ≡ none)
  unfolding finish
  finish_iff h none b r e = (λ _. refl, λ _. cc)
  finish_iff h (some q) b r e = (λ x. cc (x, e), λ x. cc)

  pub validate_preconditions_iff :
      (t : TransientEngineState c) (plan : WritePlan c) (defer_puts b : Bool) (r : ℕ)
      → HasSequences c.keys t.key_dir
      → SnapHasSequences c plan.snap
      → ((s : EngineState c) → plan.snap ≡ some s → IsParallel plan s)
      → validate_preconditions c t plan defer_puts ≡ ok (b, r)
      → (b ≡ true) ↔ IsAllowed t plan defer_puts
  unfolding validate_preconditions
  validate_preconditions_iff t plan defer_puts b r ht hs m e =
      let conflicts = conflicts_iff t plan defer_puts plan.snap ht hs m in
      elim (Result-cases (check_guards c t plan.snap plan.guards 0)) [
        | inr (x, p) ↦
            let e' : err x ≡ ok (b, r) = rw (p, validate_preconditions) at e in absurd (cc e')
        | inl (lost q, p) ↦
            let e' : ok (false, q) ≡ ok (b, r) = rw (p, validate_preconditions) at e in
            let guards = check_guards_iff c t ht plan.snap hs plan.guards 0 (lost q) p in
            (λ y. absurd (cc (y, e')), λ y. absurd (cc (guards.1 y.0)))
        | inl (held h, p) ↦
            let guards = check_guards_iff c t ht plan.snap hs plan.guards 0 (held h) p in
            elim (Result-cases (check_range_guards c t plan.snap plan.range_guards h)) [
              | inr (x, q) ↦
                  let e' : err x ≡ ok (b, r) = rw (p, q, validate_preconditions) at e in
                  absurd (cc e')
              | inl (lost g, q) ↦
                  let e' : ok (false, g) ≡ ok (b, r) = rw (p, q, validate_preconditions) at e in
                  let ranges =
                    check_range_guards_iff c t ht plan.snap hs plan.range_guards h (lost g) q in
                  (λ y. absurd (cc (y, e')), λ y. absurd (cc (ranges.1 y.1)))
              | inl (held h', q) ↦
                  let e' : ok (finish c h' (check_conflicts c t plan defer_puts plan.snap))
                      ≡ ok (b, r) =
                    rw (p, q, validate_preconditions) at e in
                  let ranges =
                    check_range_guards_iff c t ht plan.snap hs plan.range_guards h (held h') q in
                  let last =
                    finish_iff h' (check_conflicts c t plan defer_puts plan.snap) b r
                      (ok-injective e') in
                  (
                    λ y. (guards.0 refl, ranges.0 refl, conflicts.0 (last.0 y)),
                    λ y. last.1 (conflicts.1 y.2),
                  )
            ]
      ]
