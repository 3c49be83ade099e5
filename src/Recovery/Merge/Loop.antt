-- ===== src/Recovery/Merge/Loop.antt =====
-- The merge loop, with a turn for each entry.
use bytecaskdb.Prelude.{
  Bool-cases, length, All, ok, ℕ, zero, suc, ◌≤◌, ◌≡◌, refl, sym, ap, subst, ◌∙◌, inl, inr, true,
  Option, none, some, List, [], ◌∷◌, ◌++◌, arith,
}
use mathlib.Core.List.{Permᴰ}
use mathlib.Core.List.Permᴰ
use bytecaskdb.KeyDirEntry.{KeyDirEntry}
use bytecaskdb.KeyOrder.{Bytes, key_lt, key_eq, key_eq_iff}
use bytecaskdb.KeyDir.{Bindings, lookup, Above, IsAscending}
use bytecaskdb.KeyDir.Sorted.{Above-trans}
use bytecaskdb.Recovery.Needed.{Match, RangeTombstone, mark_ranges, recovery_mark_needed}
use bytecaskdb.Recovery.Cursor.{Cursor}
use bytecaskdb.Recovery.Cursor.Loaded.{IsLoaded}
use bytecaskdb.Recovery.Merge.{
  Collected, advance_on, collect_key, matches_of, merge_key, merge_loop, PopOrder, top_key,
  winner_of,
}
use bytecaskdb.Recovery.Merge.Newest.{
  All-perm, HasKey, IsNewest, IsNewest-absent, IsNewest-within, winner_of-All, winner_of-IsNewest,
}
use bytecaskdb.Recovery.Merge.Step.{
  contents-none, AllAbove, AllAbove-off, Stepped, advance_on-Stepped, all_contents, NotBelow,
}
use bytecaskdb.Recovery.Merge.Top.{GivesSome, TopIs, top_key-TopIs}
use bytecaskdb.Recovery.Merge.Owner.{
  Above-bound, Fits, bound, bound-IsAscending, kept_binding-bound, lookup-bound, owner,
  owner-mark_ranges,
}

-- The order of each turn takes every match once.
abbrev pub Arranges : PopOrder → Type 0
Arranges pops = (turn : ℕ) (ms : List Match) → Permᴰ (pops turn ms) ms

-- A newest entry of the key owns what it is bound to.
abbrev pub Owned : Bytes → List RangeTombstone → List Match → Option KeyDirEntry → Type 0
Owned key ranges entries o = (n : Option Match) × IsNewest key entries n × (o ≡ owner key ranges n)

-- What the merged bindings are, for the entries that the cursors had.
abbrev pub Merged : List RangeTombstone → List Match → Bindings → Type 0
Merged ranges entries out =
    ((key : Bytes) → Owned key ranges entries (lookup key out))
    × ((j : Bytes) → AllAbove j entries → Above j out)
    × IsAscending out

Merged-empty :
    (ranges : List RangeTombstone) (entries : List Match) → entries ≡ [] → Merged ranges entries []
unfolding lookup owner
Merged-empty ranges entries is =
    subst (λ l. Merged ranges l []) (sym is) (λ key. (none, tt, refl), λ j h. tt, tt)

Owned-none :
    (k : Bytes) (ranges : List RangeTombstone) (entries : List Match) (o : Option KeyDirEntry)
    → AllAbove k entries
    → Owned k ranges entries o
    → o ≡ none
Owned-none k ranges entries o above (n, is_newest, is) =
    is
    ∙ ap (owner k ranges) (IsNewest-absent k entries n (AllAbove-off k entries above) is_newest)
    ∙ (unfold owner in refl)

-- One turn in front of the rest, for any order of its matches.
Merged-turn :
    (k : Bytes) (ranges ranges' : List RangeTombstone) (first : Match)
    (rest ms before after : List Match) (out : Bindings)
    → ((j : Bytes) (o : Option Match) → owner j ranges' o ≡ owner j ranges o)
    → Permᴰ (first ∷ rest) ms
    → Stepped k before ms after
    → Merged ranges' after out
    → Merged ranges before (bound k ranges' (winner_of first rest) ++ out)
Merged-turn k ranges ranges' first rest ms before after out alike perm
      (same, above, mine, on, kept, fewer) (looks, ups, asc) =
    let w = winner_of first rest in
    let over = ups k above in
    let gone : lookup k out ≡ none = Owned-none k ranges' after (lookup k out) above (looks k) in
    let wins : IsNewest k before (some w) =
      IsNewest-within k ms before (some w) (sym mine) (λ P h. (kept P h).0)
        (winner_of-IsNewest k first rest ms perm on) in
    (
      λ key. elim (Bool-cases (key_eq k key)) [
        | inl is_k ↦
            let e : k ≡ key = (key_eq_iff k key).0 is_k in
            let bound_to : lookup key (bound k ranges' w ++ out) ≡ owner k ranges' (some w) =
              lookup-bound k key ranges' w out gone ∙ (rw is_k refl) in
            (
              some w,
              subst (λ x. IsNewest x before (some w)) e wins,
              bound_to ∙ alike k (some w) ∙ ap (λ x. owner x ranges (some w)) e,
            )
        | inr other ↦
            let (n, is_newest, is) = looks key in
            let passed_on : lookup key (bound k ranges' w ++ out) ≡ lookup key out =
              lookup-bound k key ranges' w out gone ∙ (rw other refl) in
            (
              n,
              IsNewest-within key after before n (same key other) (λ P h. (kept P h).1) is_newest,
              passed_on ∙ is ∙ alike key n,
            )
      ],
      λ j h.
          let ups_j =
            All-perm (λ m. key_lt j m.1.key ≡ true) (Permᴰ.symm perm)
              (kept (λ m. key_lt j m.1.key ≡ true) h).0 in
          let on_first = All-perm (HasKey k) (Permᴰ.symm perm) on in
          let under : key_lt j k ≡ true =
            subst (λ x. key_lt j x ≡ true) ((key_eq_iff first.1.key k).0 on_first.0) ups_j.0 in
          Above-bound j k ranges' w out under (Above-trans j k out under over),
      bound-IsAscending k ranges' w out over asc,
    )

merge_key-turn :
    (k : Bytes) (first : Match) (ms : List Match) (cs cs' : List Cursor) (m : Collected)
    → Fits (winner_of first ms)
    → advance_on k cs ≡ ok cs'
    → merge_key k (first ∷ ms) cs m
      ≡ ok (
        bound k (mark_ranges k (first ∷ ms) m.ranges) (winner_of first ms),
        collect_key k (first ∷ ms) m,
        cs',
      )
unfolding merge_key collect_key recovery_mark_needed
merge_key-turn k first ms cs cs' m fits goes =
    rw (kept_binding-bound k (winner_of first ms) (mark_ranges k (first ∷ ms) m.ranges) fits)
      (rw goes refl)

merge_loop-turn :
    (pops : PopOrder) (turns : ℕ) (k : Bytes) (cs cs' left : List Cursor) (m m' m'' : Collected)
    (b out : Bindings)
    → top_key cs ≡ some k
    → merge_key k (pops turns (matches_of k cs)) cs m ≡ ok (b, m', cs')
    → merge_loop pops turns cs' m' ≡ ok (out, m'', left)
    → merge_loop pops (suc turns) cs m ≡ ok (b ++ out, m'', left)
unfolding merge_loop
merge_loop-turn pops turns k cs cs' left m m' m'' b out top turn later =
    rw (top, merge_loop) (rw turn (rw later refl))

merge_loop-done :
    (pops : PopOrder) (turns : ℕ) (cs : List Cursor) (m : Collected)
    → top_key cs ≡ none
    → merge_loop pops (suc turns) cs m ≡ ok ([], m, cs)
unfolding merge_loop
merge_loop-done pops turns cs m top = rw (top, merge_loop) refl

no_contents :
    (cs : List Cursor) → All (λ c. c.cur ≡ none) cs → All IsLoaded cs → all_contents cs ≡ []
no_contents [] h l = refl
no_contents (c ∷ cs) h l = rw (contents-none c h.0 l.0) (no_contents cs h.1 l.1)

length-zero : (ms : List Match) → length ms ≤ 0 → ms ≡ []
length-zero [] h = refl
length-zero (m ∷ ms) h = absurd (omega arith)

-- The loop ends with every entry read, and what it appended is merged.
abbrev pub MergeEnds : PopOrder → ℕ → List Cursor → Collected → Type 0
MergeEnds pops turns cs m =
    (out : Bindings) × (m' : Collected) × (left : List Cursor) × (merge_loop pops turns cs m
      ≡ ok (out, m', left))
    × Merged m.ranges (all_contents cs) out
    × (all_contents left ≡ [])

-- A turn on the smallest key, in the order in which its matches are popped.
turn_in_order :
    (pops : PopOrder) (turns : ℕ) (cs : List Cursor) (m : Collected) (k : Bytes)
    (ordered : List Match)
    → top_key cs ≡ some k
    → All IsLoaded cs
    → All Fits (all_contents cs)
    → length (all_contents cs) ≤ suc turns
    → All (λ c. NotBelow k c.cur) cs
    → GivesSome k cs
    → pops turns (matches_of k cs) ≡ ordered
    → Permᴰ ordered (matches_of k cs)
    → ((cs' : List Cursor) (m' : Collected)
        → All IsLoaded cs'
        → All Fits (all_contents cs')
        → length (all_contents cs') ≤ turns
        → MergeEnds pops turns cs' m')
    → MergeEnds pops (suc turns) cs m
turn_in_order pops turns cs m k [] top loaded fit enough over (f, ms, gives) order perm again =
    let nothing : All (λ x. ⊥) (f ∷ ms) = subst (All (λ x. ⊥)) gives (All-perm (λ x. ⊥) perm tt) in
    absurd nothing.0
turn_in_order pops turns cs m k (first ∷ rest) top loaded fit enough over (f, ms, gives) order perm
      again =
    let (cs', goes, loaded', stepped) = advance_on-Stepped k cs loaded over in
    let (same, above, mine, on, kept, fewer) = stepped in
    let (fit_ms, fit_after) = kept Fits fit in
    let fits = All-perm Fits (Permᴰ.symm perm) fit_ms in
    let fit_w = winner_of-All Fits first rest fits.0 fits.1 in
    let some_match : length (matches_of k cs) ≡ suc (length ms) = ap length gives in
    let turn =
      ap (λ l. merge_key k l cs m) order ∙ merge_key-turn k first rest cs cs' m fit_w goes in
    let (out, m'', left, later, merged, done) =
      again cs' (collect_key k (first ∷ rest) m) loaded' fit_after
        (omega (arith, fewer, enough, some_match)) in
    let marked = mark_ranges k (first ∷ rest) m.ranges in
    let merged' : Merged marked (all_contents cs') out =
      unfold collect_key recovery_mark_needed in merged in
    (
      bound k marked (winner_of first rest) ++ out,
      m'',
      left,
      merge_loop-turn pops turns k cs cs' left m (collect_key k (first ∷ rest) m) m''
          (bound k marked (winner_of first rest)) out top turn later,
      Merged-turn k m.ranges marked first rest (matches_of k cs) (all_contents cs)
          (all_contents cs') out (λ j o. owner-mark_ranges k j (first ∷ rest) m.ranges o) perm
          stepped merged',
      done,
    )

-- Loaded cursors over entries that fit, with as many turns as there are entries, merge.
pub merge_loop-Merged :
    (pops : PopOrder)
    → Arranges pops
    → (turns : ℕ) (cs : List Cursor) (m : Collected) → All IsLoaded cs
    → All Fits (all_contents cs)
    → length (all_contents cs) ≤ turns
    → MergeEnds pops turns cs m
merge_loop-Merged pops arranges zero cs m loaded fit enough =
    let empty = length-zero (all_contents cs) enough in
    ([], m, cs, unfold merge_loop in refl, Merged-empty m.ranges (all_contents cs) empty, empty)
merge_loop-Merged pops arranges (suc turns) cs m loaded fit enough =
    by_top (top_key cs) refl (top_key-TopIs cs)
      (λ cs' m' l f e. merge_loop-Merged pops arranges turns cs' m' l f e)
  where
    by_top :
        (o : Option Bytes)
        → top_key cs ≡ o
        → TopIs o cs
        → ((cs' : List Cursor) (m' : Collected)
            → All IsLoaded cs'
            → All Fits (all_contents cs')
            → length (all_contents cs') ≤ turns
            → MergeEnds pops turns cs' m')
        → MergeEnds pops (suc turns) cs m
    by_top none top is again =
        let empty = no_contents cs is loaded in
        (
          [],
          m,
          cs,
          merge_loop-done pops turns cs m top,
          Merged-empty m.ranges (all_contents cs) empty,
          empty,
        )
    by_top (some k) top (over, gives) again =
        turn_in_order pops turns cs m k (pops turns (matches_of k cs)) top loaded fit enough over
          gives refl (arranges turns (matches_of k cs)) again
