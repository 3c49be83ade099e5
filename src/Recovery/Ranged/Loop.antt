-- ===== src/Recovery/Ranged/Loop.antt =====
-- The merge of a range, and of all ranges one after the other.
use bytecaskdb.Prelude.{
  Bool-cases, length, All, ok, ℕ, zero, suc, ◌+◌, ◌≤◌, ◌≡◌, refl, sym, ap, subst, ◌∙◌, inl, inr,
  Option, none, some, List, [], ◌∷◌, arith,
}
use bytecaskdb.KeyOrder.{Bytes, key_eq, key_eq_iff}
use bytecaskdb.KeyDir.{Bindings, lookup, IsAscending}
use bytecaskdb.KeyDirEntry.{}
use bytecaskdb.Recovery.Needed.{RangeTombstone}
use bytecaskdb.Recovery.Merge.{Tombstones}
use bytecaskdb.Recovery.Ranged.{
  RangeOut, best_key, entries_on, no_out, range_loop, skip_below, step_on, tombstones_of, turn,
}
use bytecaskdb.Recovery.Ranged.Load.{bindings_in}
use bytecaskdb.Recovery.Ranged.Cursors.{found, found-given}
use bytecaskdb.Recovery.Ranged.Turn.{BestIs, Turned, best_key-BestIs, found-dead, step_on-Turned}
use bytecaskdb.Recovery.Ranged.Merge.{Agree, RunOf, RunOf-nothing, RunOf-turn, tomb_at, turn_run}

range_loop-turn :
    (turns : ℕ) (hi : Option Bytes) (tombs : Tombstones) (rts : List (ℕ × RangeTombstone))
    (cs : List Bindings) (b : Bytes)
    → best_key hi cs ≡ some b
    → range_loop (suc turns) hi tombs rts cs
      ≡ turn b
          (tomb_at b tombs)
          rts
          (entries_on hi b cs)
          (range_loop turns hi (skip_below b tombs) rts (step_on hi b cs))
unfolding range_loop
range_loop-turn turns hi tombs rts cs b is = rw (is, range_loop) refl

range_loop-done :
    (turns : ℕ) (hi : Option Bytes) (tombs : Tombstones) (rts : List (ℕ × RangeTombstone))
    (cs : List Bindings)
    → best_key hi cs ≡ none
    → range_loop (suc turns) hi tombs rts cs ≡ ok no_out
unfolding range_loop
range_loop-done turns hi tombs rts cs is = rw (is, range_loop) refl

-- Cursors without a binding find nothing.
found-zero : (key : Bytes) (cs : List Bindings) → bindings_in cs ≤ 0 → found key cs ≡ []
found-zero key [] h = unfold found in refl
found-zero key ([] ∷ cs) h =
    let nothing : lookup key [] ≡ none = unfold lookup in refl in
    let rest : 0 + bindings_in cs ≤ 0 = unfold bindings_in in h in
    found-given key [] cs none nothing ∙ found-zero key cs (omega (arith, rest))
found-zero key ((x ∷ c) ∷ cs) h =
    let some_left : suc (length c) + bindings_in cs ≤ 0 = unfold bindings_in in h in
    absurd (omega (arith, some_left))

-- The loop returns the run of its cursors.
abbrev LoopEnds : ℕ → Option Bytes → Tombstones → List (ℕ × RangeTombstone) → List Bindings → Type 0
LoopEnds turns hi tombs rts cs =
    (out : RangeOut) × (range_loop turns hi tombs rts cs ≡ ok out)
    × RunOf hi tombs (tombstones_of rts) cs out.run

-- The turn after a key leaves entries that agree.
step_on-Agree :
    (hi : Option Bytes) (b : Bytes) (cs : List Bindings)
    → Turned hi b cs
    → ((key : Bytes) → Agree (found key cs))
    → (key : Bytes) → Agree (found key (step_on hi b cs))
step_on-Agree hi b cs (gives, ascs, gone, keeps, fewer) agree key =
    elim (Bool-cases (key_eq b key)) [
      | inl same ↦
          subst (λ k. Agree (found k (step_on hi b cs))) ((key_eq_iff b key).0 same)
            (subst Agree (sym gone) tt)
      | inr other ↦ subst Agree (sym (keeps key other)) (agree key)
    ]

pub range_loop-RunOf :
    (turns : ℕ) (hi : Option Bytes) (tombs : Tombstones) (rts : List (ℕ × RangeTombstone))
    (cs : List Bindings)
    → All IsAscending cs
    → ((key : Bytes) → Agree (found key cs))
    → bindings_in cs ≤ turns
    → (out : RangeOut) × (range_loop turns hi tombs rts cs ≡ ok out)
      × RunOf hi tombs (tombstones_of rts) cs out.run
range_loop-RunOf zero hi tombs rts cs asc agree enough = (
  no_out,
  unfold range_loop in refl,
  RunOf-nothing hi tombs (tombstones_of rts) cs (λ key b. found-zero key cs enough),
)
range_loop-RunOf (suc turns) hi tombs rts cs asc agree enough =
    by_best (best_key hi cs) refl (best_key-BestIs hi cs)
      (λ ts cs' a g n. range_loop-RunOf turns hi ts rts cs' a g n)
  where
    by_best :
        (o : Option Bytes)
        → best_key hi cs ≡ o
        → BestIs hi cs o
        → ((ts : Tombstones) (cs' : List Bindings)
            → All IsAscending cs'
            → ((key : Bytes) → Agree (found key cs'))
            → bindings_in cs' ≤ turns
            → LoopEnds turns hi ts rts cs')
        → LoopEnds (suc turns) hi tombs rts cs
    by_best none is dead again = (
      no_out,
      range_loop-done turns hi tombs rts cs is,
      RunOf-nothing hi tombs (tombstones_of rts) cs (λ key b. found-dead hi key cs b asc dead),
    )
    by_best (some b) is (live, over, (first, es, offers)) again =
        let turned = step_on-Turned hi b cs live asc over in
        let (gives, ascs, gone, keeps, fewer) = turned in
        let has : found b cs ≡ first ∷ es = sym gives ∙ offers in
        let (w, wins) = subst Agree has (agree b) in
        let shorter : bindings_in (step_on hi b cs) ≤ turns =
          omega (arith, fewer, ap length offers, enough) in
        let (later, ends, run_of) =
          again (skip_below b tombs) (step_on hi b cs) ascs (step_on-Agree hi b cs turned agree)
            shorter in
        let (out, turns_to, run_is) = turn_run b (tomb_at b tombs) rts first w es later wins in
        (
          out,
          range_loop-turn turns hi tombs rts cs b is
              ∙ ap
                  (λ l.
                    turn b (tomb_at b tombs) rts l
                      (range_loop turns hi (skip_below b tombs) rts (step_on hi b cs)))
                  offers
              ∙ ap (turn b (tomb_at b tombs) rts (first ∷ es)) ends
              ∙ turns_to,
          subst (RunOf hi tombs (tombstones_of rts) cs) (sym run_is) (
              RunOf-turn hi b tombs (tombstones_of rts) cs first w es later.run live asc over turned
                has wins run_of),
        )
