-- ===== src/Engine/Validate/Total.antt =====
-- `validate_preconditions` answers for every plan that its builder can make, and rightly.
use bytecaskdb.KeyOrder.{Bytes}
use bytecaskdb.Engine.State.{Containers, EngineState, TransientEngineState}
use bytecaskdb.Engine.Plan.{
  WritePlan, Precondition, RangeGuard, must_be_absent, must_be_unchanged, must_exist, no_condition,
}
use bytecaskdb.Engine.Validate.{
  validate_preconditions, Outcome, check_conflicts, check_guard, check_guards, check_range_guards,
  finish, head_latest, held, lost, range_changed, seq_or_zero, read_seq,
}
use bytecaskdb.Engine.Validate.Range.{HasSequences}
use bytecaskdb.Engine.Validate.Writes.{SnapHasSequences}
use bytecaskdb.Engine.Validate.Decides.{IsAllowed, IsParallel, validate_preconditions_iff}
use bytecaskdb.Prelude.{
  ◌==◌, if◌then◌else◌, Option-cases, All, ok, ℕ, max, ◌≡◌, refl, ◌≢◌, ◌↔◌, inl, inr, Bool, true,
  false, not, Option, none, some, List, [], ◌∷◌,
}

module _ (c : Containers) where
  -- What needs a snapshot is in a plan only where it has one, as the builder's methods enforce.
  abbrev pub HasWhatItNeeds : WritePlan c → Type 0
  HasWhatItNeeds plan =
      plan.snap ≡ none → All (λ g. g.1 ≢ must_be_unchanged) plan.guards × (plan.range_guards ≡ [])

  check_guard_total :
      (t : TransientEngineState c) (snap : Option (EngineState c)) (k : Bytes) (p : Precondition)
      (h : ℕ)
      → (snap ≡ none → p ≢ must_be_unchanged)
      → (o : Outcome) × (check_guard c t snap k p h ≡ ok o)
  unfolding check_guard
  check_guard_total t snap k no_condition h n = (held h, refl)
  check_guard_total t snap k must_exist h n =
      elim (c.keys.get t.key_dir k)
        as (λ x.
          (o : Outcome) × (elim x [
            | none ↦ ok (lost (read_seq c t none))
            | some e ↦ ok (held (max h (read_seq c t (some e))))
          ]
            ≡ ok o)) [ none ↦ (_, refl) | some e ↦ (_, refl) ]
  check_guard_total t snap k must_be_absent h n =
      elim (c.keys.get t.key_dir k)
        as (λ x.
          (o : Outcome) × (elim x [
            | some e ↦ ok (lost (read_seq c t (some e)))
            | none ↦ ok (held (max h (read_seq c t none)))
          ]
            ≡ ok o)) [ none ↦ (_, refl) | some e ↦ (_, refl) ]
  check_guard_total t none k must_be_unchanged h n = absurd (n refl refl)
  check_guard_total t (some s) k must_be_unchanged h n =
      let cur = c.keys.get t.key_dir k in
      elim (seq_or_zero cur == seq_or_zero (c.keys.get s.key_dir k))
        as (λ x.
          (o : Outcome) × ((if not x
              then ok (lost (read_seq c t cur))
              else ok (held (max h (read_seq c t cur))))
            ≡ ok o)) [ true ↦ (_, refl) | false ↦ (_, refl) ]

  check_guards_total :
      (t : TransientEngineState c) (snap : Option (EngineState c))
      (gs : List (Bytes × Precondition)) (h : ℕ)
      → (snap ≡ none → All (λ g. g.1 ≢ must_be_unchanged) gs)
      → (o : Outcome) × (check_guards c t snap gs h ≡ ok o)
  unfolding check_guards
  check_guards_total t snap [] h n = (held h, refl)
  check_guards_total t snap (g ∷ gs) h n =
      let (first, p) = check_guard_total t snap g.0 g.1 h (λ p. (n p).0) in
      elim first
          as (λ o₁.
            check_guard c t snap g.0 g.1 h ≡ ok o₁
            → (o : Outcome) × (check_guards c t snap (g ∷ gs) h ≡ ok o)) [
              | lost r ↦ λ p. (lost r, rw (p, check_guards) refl)
              | held r ↦ λ p.
                  let (o, q) = check_guards_total t snap gs r (λ x. (n x).1) in
                  (o, rw (p, check_guards) q)
            ]
        p

  check_range_guards_total :
      (t : TransientEngineState c) (snap : Option (EngineState c)) (gs : List RangeGuard) (h : ℕ)
      → (snap ≡ none → gs ≡ [])
      → (o : Outcome) × (check_range_guards c t snap gs h ≡ ok o)
  unfolding check_range_guards
  check_range_guards_total t snap [] h n = (held h, refl)
  check_range_guards_total t none (g ∷ gs) h n = absurd (cc (n refl))
  check_range_guards_total t (some s) (g ∷ gs) h n =
      elim (Option-cases (range_changed c t s g.from g.to)) [
        | inr (r, changed) ↦ (lost r, rw (changed, check_range_guards) refl)
        | inl same ↦
            let (o, q) =
              check_range_guards_total t (some s) gs (head_latest c t) (λ x. absurd (cc x)) in
            (o, rw (same, check_range_guards) q)
      ]

  abbrev Answer : TransientEngineState c → WritePlan c → Bool → Type 0
  Answer t plan defer_puts =
      (b : Bool) × (r : ℕ) × (validate_preconditions c t plan defer_puts ≡ ok (b, r))

  validate_preconditions_total :
      (t : TransientEngineState c) (plan : WritePlan c) (defer_puts : Bool)
      → HasWhatItNeeds plan
      → Answer t plan defer_puts
  unfolding validate_preconditions
  validate_preconditions_total t plan defer_puts n =
      let (o₁, p₁) = check_guards_total t plan.snap plan.guards 0 (λ p. (n p).0) in
      elim o₁ as (λ o. check_guards c t plan.snap plan.guards 0 ≡ ok o → Answer t plan defer_puts) [
        | lost r ↦ λ p. (false, r, rw (p, validate_preconditions) refl)
        | held h ↦ λ p.
            let (o₂, q₂) =
              check_range_guards_total t plan.snap plan.range_guards h (λ x. (n x).1) in
            elim o₂
                as (λ o.
                  check_range_guards c t plan.snap plan.range_guards h ≡ ok o
                  → Answer t plan defer_puts) [
                    | lost r ↦ λ q. (false, r, rw (p, q, validate_preconditions) refl)
                    | held h' ↦ λ q.
                        let last = finish c h' (check_conflicts c t plan defer_puts plan.snap) in
                        (last.0, last.1, rw (p, q, validate_preconditions) refl)
                  ]
              q₂
      ]
        p₁

  -- For a plan whose guards on a snapshot have one, whose looked-up entries are none or one for
  -- each write, and states whose entries have sequences above 0: validation returns an answer, and
  -- it is yes exactly when every point guard holds in the head, every guarded range has the same
  -- version of every key as the snapshot, and, unless the checks of puts are deferred, so has
  -- every key and range that the plan writes.
  pub validate_preconditions-decides :
      (t : TransientEngineState c) (plan : WritePlan c) (defer_puts : Bool)
      → HasSequences c.keys t.key_dir
      → SnapHasSequences c plan.snap
      → ((s : EngineState c) → plan.snap ≡ some s → IsParallel c plan s)
      → HasWhatItNeeds plan
      → (b : Bool) × (r : ℕ) × (validate_preconditions c t plan defer_puts ≡ ok (b, r))
        × ((b ≡ true) ↔ IsAllowed c t plan defer_puts)
  validate_preconditions-decides t plan defer_puts ht hs m n =
      let (b, r, e) = validate_preconditions_total t plan defer_puts n in
      (b, r, e, validate_preconditions_iff c t plan defer_puts b r ht hs m e)
