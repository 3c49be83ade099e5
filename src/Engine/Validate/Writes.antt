-- ===== src/Engine/Validate/Writes.antt =====
-- Each check of `validate_preconditions` alone: what its answer says of the head and the snapshot.
use bytecaskdb.KeyOrder.{Bytes}
use bytecaskdb.KeyDirEntry.{KeyDirEntry}
use bytecaskdb.Engine.Plan.{
  Precondition, RangeGuard, WriteOp, must_be_absent, must_be_unchanged, must_exist, no_condition,
  point_del, point_put, range_del,
}
use bytecaskdb.Engine.Validate.{
  Outcome, check_guard, held, lost, seq_or_zero, check_guards, check_range_guards, head_latest,
  range_changed,
}
use bytecaskdb.Engine.Validate.Range.{
  HasSequences, Unchanged, seq_of_version, version, version_of_seq, range_changed-none,
  range_changed-some,
}
use bytecaskdb.Engine.State.{Containers, EngineState, TransientEngineState}
use bytecaskdb.Prelude.{
  ◌==◌, ==_iff, Bool-cases, Option-cases, All, ok, err, ℕ, ◌≡◌, refl, subst, ◌↔◌, inl, inr, Bool,
  true, false, Option, none, some, List, [], ◌∷◌, arith,
}

abbrev pub has_held : Outcome → Bool
has_held (held _) = true
has_held (lost _) = false

module _ (c : Containers) where
  -- A key has one version in the head and in a snapshot.
  abbrev pub SameVersion : TransientEngineState c → EngineState c → Bytes → Type 0
  SameVersion t s key = version (c.keys.get t.key_dir key) ≡ version (c.keys.get s.key_dir key)

  abbrev pub GuardHolds :
      TransientEngineState c → Option (EngineState c) → Bytes × Precondition → Type 0
  GuardHolds t snap (key, no_condition) = Unit
  GuardHolds t snap (key, must_exist) = (e : KeyDirEntry) × (c.keys.get t.key_dir key ≡ some e)
  GuardHolds t snap (key, must_be_absent) = c.keys.get t.key_dir key ≡ none
  GuardHolds t snap (key, must_be_unchanged) =
      (s : EngineState c) → snap ≡ some s → SameVersion t s key

  abbrev pub RangeHolds : TransientEngineState c → Option (EngineState c) → RangeGuard → Type 0
  RangeHolds t snap g = (s : EngineState c) → snap ≡ some s → Unchanged c t s g.from g.to

  abbrev pub WriteHolds : TransientEngineState c → EngineState c → WriteOp → Type 0
  WriteHolds t s (point_put key value) = SameVersion t s key
  WriteHolds t s (point_del key) = SameVersion t s key
  WriteHolds t s (range_del from to) = Unchanged c t s from to

  abbrev pub SnapHasSequences : Option (EngineState c) → Type 0
  SnapHasSequences snap = (s : EngineState c) → snap ≡ some s → HasSequences c.keys s.key_dir

  module _ (t : TransientEngineState c) (ht : HasSequences c.keys t.key_dir) where
    SameVersion-iff :
        (s : EngineState c)
        → HasSequences c.keys s.key_dir
        → (key : Bytes)
        → ((seq_or_zero (c.keys.get t.key_dir key) == seq_or_zero (c.keys.get s.key_dir key))
            ≡ true)
          ↔ SameVersion t s key
    SameVersion-iff s hs key =
        let a = c.keys.get t.key_dir key in
        let b = c.keys.get s.key_dir key in
        (
          λ e. version_of_seq a b (ht key) (hs key) ((==_iff (seq_or_zero a) (seq_or_zero b)).0 e),
          λ v. (==_iff (seq_or_zero a) (seq_or_zero b)).1 (seq_of_version a b v),
        )

    pub check_guard_iff :
        (snap : Option (EngineState c))
        → SnapHasSequences snap
        → (g : Bytes × Precondition) (h : ℕ) (o : Outcome) → check_guard c t snap g.0 g.1 h ≡ ok o
        → (has_held o ≡ true) ↔ GuardHolds t snap g
    unfolding check_guard
    check_guard_iff snap hs (key, no_condition) h o e = (λ _. tt, λ _. cc)
    check_guard_iff snap hs (key, must_exist) h o e =
        elim (Option-cases (c.keys.get t.key_dir key)) [
          | inl gone ↦
              let lost_here : has_held o ≡ false = ground (arith, e, gone) in
              (λ x. cc (x, lost_here), λ (f, x). cc (x, gone))
          | inr (f, here) ↦
              let held_here : has_held o ≡ true = ground (arith, e, here) in
              (λ x. (f, here), λ _. held_here)
        ]
    check_guard_iff snap hs (key, must_be_absent) h o e =
        elim (Option-cases (c.keys.get t.key_dir key)) [
          | inl gone ↦
              let held_here : has_held o ≡ true = ground (arith, e, gone) in
              (λ x. gone, λ _. held_here)
          | inr (f, here) ↦
              let lost_here : has_held o ≡ false = ground (arith, e, here) in
              (λ x. cc (x, lost_here), λ x. cc (x, here))
        ]
    check_guard_iff none hs (key, must_be_unchanged) h o e = cc
    check_guard_iff (some s) hs (key, must_be_unchanged) h o e =
        let test =
          seq_or_zero (c.keys.get t.key_dir key) == seq_or_zero (c.keys.get s.key_dir key) in
        let (to, of) = SameVersion-iff s (hs s refl) key in
        elim (Bool-cases test) [
          | inl same ↦
              let held_here : has_held o ≡ true = ground (arith, e, same) in
              (
                λ x s' p. let ss : s ≡ s' = cc p in subst (λ u. SameVersion t u key) ss (to same),
                λ _. held_here,
              )
          | inr differs ↦
              let lost_here : has_held o ≡ false = ground (arith, e, differs) in
              (λ x. cc (x, lost_here), λ x. cc (of (x s refl), differs))
        ]

    -- The guards before one that does not hold all held.
    pub check_guards_iff :
        (snap : Option (EngineState c))
        → SnapHasSequences snap
        → (gs : List (Bytes × Precondition)) (h : ℕ) (o : Outcome)
        → check_guards c t snap gs h ≡ ok o
        → (has_held o ≡ true) ↔ All (GuardHolds t snap) gs
    unfolding check_guards
    check_guards_iff snap hs [] h o e = (λ _. tt, λ _. cc)
    check_guards_iff snap hs (g ∷ gs) h o e =
        elim (check_guard c t snap g.0 g.1 h)
            as (λ r.
              check_guard c t snap g.0 g.1 h ≡ r
              → (elim r [
                | err x ↦ err x
                | ok (lost q) ↦ ok (lost q)
                | ok (held q) ↦ check_guards c t snap gs q
              ])
                ≡ ok o
              → (has_held o ≡ true) ↔ All (GuardHolds t snap) (g ∷ gs)) [
                | err x ↦ λ p q. cc
                | ok (lost r) ↦ λ p q.
                    let lost_here : has_held o ≡ false = ground (arith, q) in
                    (
                      λ x. cc (x, lost_here),
                      λ x. cc ((check_guard_iff snap hs g h (lost r) p).1 x.0),
                    )
                | ok (held r) ↦ λ p q.
                    let (to, of) = check_guards_iff snap hs gs r o q in
                    (λ x. ((check_guard_iff snap hs g h (held r) p).0 refl, to x), λ x. of x.1)
              ]
          refl e

    pub check_range_guards_iff :
        (snap : Option (EngineState c))
        → SnapHasSequences snap
        → (gs : List RangeGuard) (h : ℕ) (o : Outcome) → check_range_guards c t snap gs h ≡ ok o
        → (has_held o ≡ true) ↔ All (RangeHolds t snap) gs
    unfolding check_range_guards
    check_range_guards_iff snap hs [] h o e = (λ _. tt, λ _. cc)
    check_range_guards_iff none hs (g ∷ gs) h o e = cc
    check_range_guards_iff (some s) hs (g ∷ gs) h o e =
        elim (Option-cases (range_changed c t s g.from g.to)) [
          | inl same ↦
              let rest : check_range_guards c t (some s) gs (head_latest c t) ≡ ok o =
                rw (same, check_range_guards) at e in
              let (to, of) = check_range_guards_iff (some s) hs gs (head_latest c t) o rest in
              (
                λ x. (
                  λ s' p.
                      let ss : s ≡ s' = cc p in
                      subst (λ u. Unchanged c t u g.from g.to) ss
                        (range_changed-none c t s g.from g.to ht (hs s refl) same),
                  to x,
                ),
                λ x. of x.1,
              )
          | inr (r, changed) ↦
              let lost_here : has_held o ≡ false = ground (arith, e, changed) in
              let (k, kf, kt, n) = range_changed-some c t s g.from g.to r changed in
              (λ x. cc (x, lost_here), λ x. absurd (n (x.0 s refl k kf kt)))
        ]
