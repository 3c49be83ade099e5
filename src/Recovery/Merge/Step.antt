-- ===== src/Recovery/Merge/Step.antt =====
-- One turn of the merge: the cursors on the smallest key give their entries of it, and go on.
use bytecaskdb.Prelude.{
  if◌then◌else◌, Bool-cases, Option-cases, length, All, length-append, Result, ok, ◌+◌, ◌≤◌, ◌≡◌,
  refl, sym, ap, subst, ◌∙◌, inl, inr, true, false, not, Option, none, some, List, [], ◌∷◌, ◌++◌,
  arith, All-map, All-append, All-parts,
}
use bytecaskdb.KeyOrder.{
  Bytes, key_lt, key_eq, key_eq_iff, key_lt_irrefl, key_lt_total, key_lt_trans,
}
use bytecaskdb.Format.Hint.{HintEntry}
use bytecaskdb.Recovery.Needed.{HintRecord, Match}
use bytecaskdb.Recovery.Cursor.{Cursor, load}
use bytecaskdb.Recovery.Cursor.Loaded.{
  IsBehind, IsLoaded, IsRun-above, behind, record_of, tagged, AboveCur, contents, load-Reloads,
}
use bytecaskdb.Recovery.Merge.{advance_on, cur_match, matches_of, sits_on}
use bytecaskdb.Recovery.Merge.Newest.{newest, newest-append, pick, newest-absent}

abbrev pub AllAbove : Bytes → List Match → Type 0
AllAbove k ms = All (λ m. key_lt k m.1.key ≡ true) ms

-- `k` is taken from the entries: its own are `ms`, what is left is above it, and no other key changes.
abbrev pub Stepped : Bytes → List Match → List Match → List Match → Type 1
Stepped k before ms after =
    ((key : Bytes) → key_eq k key ≡ false → newest key after ≡ newest key before)
    × AllAbove k after
    × (newest k before ≡ newest k ms)
    × All (λ m. key_eq m.1.key k ≡ true) ms
    × ((P : Match → Type 0) → All P before → All P ms × All P after)
    × (length after + length ms ≤ length before)

Stepped-append :
    (k : Bytes) (before ms after before' ms' after' : List Match)
    → Stepped k before ms after
    → Stepped k before' ms' after'
    → Stepped k (before ++ before') (ms ++ ms') (after ++ after')
Stepped-append k before ms after before' ms' after' (n, a, w, o, j, l) (n', a', w', o', j', l') = (
  λ key off.
      newest-append key after after'
      ∙ ap (λ x. pick x (newest key after')) (n key off)
      ∙ ap (pick (newest key before)) (n' key off)
      ∙ sym (newest-append key before before'),
  All-append (λ m. key_lt k m.1.key ≡ true) after after' a a',
  newest-append k before before'
      ∙ ap (λ x. pick x (newest k before')) w
      ∙ ap (pick (newest k ms)) w'
      ∙ sym (newest-append k ms ms'),
  All-append (λ m. key_eq m.1.key k ≡ true) ms ms' o o',
  λ P h.
      let (x, y) = All-parts P before before' h in
      (All-append P ms ms' (j P x).0 (j' P y).0, All-append P after after' (j P x).1 (j' P y).1),
  omega (
    arith,
    l,
    l',
    length-append before before',
    length-append ms ms',
    length-append after after',
  ),
)

pub AllAbove-off :
    (k : Bytes) (ms : List Match) → AllAbove k ms → All (λ m. key_eq m.1.key k ≡ false) ms
AllAbove-off k ms h =
    All-map (λ m. key_lt k m.1.key ≡ true) (λ m. key_eq m.1.key k ≡ false)
      (λ m l. elim (Bool-cases (key_eq m.1.key k)) [
        | inr off ↦ off
        | inl same ↦
            let e : m.1.key ≡ k = (key_eq_iff m.1.key k).0 same in
            let wrong : key_lt k k ≡ true = subst (λ x. key_lt k x ≡ true) e l in
            absurd (cc (wrong, key_lt_irrefl k))
      ])
      ms h

-- The cursor is at the key or above it.
abbrev pub NotBelow : Bytes → Option HintRecord → Type 0
NotBelow k none = Unit
NotBelow k (some r) = key_lt r.key k ≡ false

-- What is behind an entry of a loaded cursor is above it.
behind-AllAbove :
    (c : Cursor) (r : HintRecord) → c.cur ≡ some r → IsLoaded c → AllAbove r.key (behind c)
behind-AllAbove c r is loaded = go c.cur c.lookahead c.rest is loaded
  where
    go :
        (cur ahead : Option HintRecord) (rest : List HintEntry)
        → cur ≡ some r
        → AboveCur cur ahead × IsBehind ahead rest
        → AllAbove r.key (record_of c.file_id ahead ++ tagged c.file_id rest)
    go none ahead rest e h = cc
    go (some s) none rest e h = subst (λ l. AllAbove r.key (tagged c.file_id l)) (sym h.1) tt
    go (some s) (some l) rest e h =
        let same : s ≡ r = cc e in
        let up : key_lt r.key l.key ≡ true = subst (λ x. key_lt x.key l.key ≡ true) same h.0 in
        (up, IsRun-above r.key l.key c.file_id rest up h.1)

-- Entries that are all above the key are left as they are.
Stepped-above : (k : Bytes) (ms : List Match) → AllAbove k ms → Stepped k ms [] ms
Stepped-above k ms h = (
  λ key off. refl,
  h,
  newest-absent k ms (AllAbove-off k ms h) ∙ sym (unfold newest in refl),
  tt,
  λ P a. (tt, a),
  omega arith,
)

pub contents-none : (c : Cursor) → c.cur ≡ none → IsLoaded c → contents c ≡ []
contents-none c is loaded = go c.cur c.lookahead c.rest is loaded
  where
    go :
        (cur ahead : Option HintRecord) (rest : List HintEntry)
        → cur ≡ none
        → AboveCur cur ahead × IsBehind ahead rest
        → record_of c.file_id cur ++ (record_of c.file_id ahead ++ tagged c.file_id rest) ≡ []
    go (some s) ahead rest e h = cc
    go none (some l) rest e h = absurd h.0
    go none none rest e h = ap (tagged c.file_id) h.1

contents-some :
    (c : Cursor) (r : HintRecord) → c.cur ≡ some r → contents c ≡ (c.file_id, r) ∷ behind c
contents-some c r is = ap (λ o. record_of c.file_id o ++ behind c) is

sits_on-some :
    (k : Bytes) (c : Cursor) (r : HintRecord) → c.cur ≡ some r → sits_on k c ≡ key_eq r.key k
unfolding sits_on
sits_on-some k c r is = rw is refl

-- What one cursor gives in the turn of a key, and where it is after it.
abbrev given : Bytes → Cursor → List Match
given k c = if sits_on k c then cur_match c else []

abbrev turn : Bytes → Cursor → Result Cursor
turn k c = if sits_on k c then load c else ok c

turn_on :
    (k : Bytes) (c : Cursor) (r : HintRecord)
    → c.cur ≡ some r
    → IsLoaded c
    → key_eq r.key k ≡ true
    → (c' : Cursor) × (load c ≡ ok c')
      × IsLoaded c'
      × Stepped k ((c.file_id, r) ∷ behind c) ((c.file_id, r) ∷ []) (contents c')
turn_on k c r is loaded on =
    let same : r.key ≡ k = (key_eq_iff r.key k).0 on in
    let (c', loads, (loaded', _, newest_is, above, fewer)) = load-Reloads c loaded.1 in
    let over : AllAbove k (behind c) =
      subst (λ x. AllAbove x (behind c)) same (behind-AllAbove c r is loaded) in
    let gone : newest k (behind c) ≡ none =
      newest-absent k (behind c) (AllAbove-off k (behind c) over) in
    (
      c',
      loads,
      loaded',
      (
        λ key off.
            let off_r : key_eq r.key key ≡ false = ap (λ x. key_eq x key) same ∙ off in
            newest_is key ∙ sym (unfold newest in rw off_r refl),
        above (λ m. key_lt k m.1.key ≡ true) over,
        unfold newest in rw (on, gone) refl,
        (on, tt),
        λ P h. ((h.0, tt), above P h.1),
        omega (arith, fewer),
      ),
    )

turn-Stepped :
    (k : Bytes) (c : Cursor)
    → IsLoaded c
    → NotBelow k c.cur
    → (c' : Cursor) × (turn k c ≡ ok c')
      × IsLoaded c'
      × Stepped k (contents c) (given k c) (contents c')
turn-Stepped k c loaded over = elim (Option-cases c.cur) [
  | inl is ↦
      let off : sits_on k c ≡ false = unfold sits_on in rw is refl in
      let empty = contents-none c is loaded in
      (c, rw off refl, loaded, rw off (rw empty (Stepped-above k [] tt)))
  | inr (r, is) ↦
      let sits = sits_on-some k c r is in
      let low : key_lt r.key k ≡ false = subst (NotBelow k) is over in
      elim (Bool-cases (key_eq r.key k)) [
        | inl on ↦
            let (c', loads, loaded', stepped) = turn_on k c r is loaded on in
            let yes_on : sits_on k c ≡ true = sits ∙ on in
            let gives : given k c ≡ (c.file_id, r) ∷ [] =
              unfold cur_match in rw yes_on (rw is refl) in
            (
              c',
              rw yes_on loads,
              loaded',
              subst (λ b. Stepped k b (given k c) (contents c')) (sym (contents-some c r is))
                  (subst (λ m. Stepped k ((c.file_id, r) ∷ behind c) m (contents c')) (sym gives)
                    stepped),
            )
        | inr other ↦
            let off : sits_on k c ≡ false = sits ∙ other in
            let up : key_lt k r.key ≡ true = key_lt_total r.key k other ∙ ap not low in
            let all_up : AllAbove k (contents c) = subst (AllAbove k) (sym (contents-some c r is)) (
              up,
              All-map (λ m. key_lt r.key m.1.key ≡ true) (λ m. key_lt k m.1.key ≡ true)
                  (λ m h. key_lt_trans k r.key m.1.key up h) (behind c)
                  (behind-AllAbove c r is loaded),
            ) in
            (c, rw off refl, loaded, rw off (Stepped-above k (contents c) all_up))
      ]
]

abbrev pub all_contents : List Cursor → List Match
all_contents [] = []
all_contents (c ∷ cs) = contents c ++ all_contents cs

given_append :
    (k : Bytes) (c : Cursor) (ms : List Match)
    → given k c ++ ms ≡ (if sits_on k c then cur_match c ++ ms else ms)
given_append k c ms = elim (Bool-cases (sits_on k c)) [
  | inl on ↦ rw on refl
  | inr off ↦ rw off refl
]

-- The turn of all cursors, none of which is below the key.
pub advance_on-Stepped :
    (k : Bytes) (cs : List Cursor)
    → All IsLoaded cs
    → All (λ c. NotBelow k c.cur) cs
    → (cs' : List Cursor) × (advance_on k cs ≡ ok cs')
      × All IsLoaded cs'
      × Stepped k (all_contents cs) (matches_of k cs) (all_contents cs')
unfolding advance_on matches_of
advance_on-Stepped k [] loaded over = ([], refl, tt, Stepped-above k [] tt)
advance_on-Stepped k (c ∷ cs) loaded over =
    let (c', is, loaded', stepped) = turn-Stepped k c loaded.0 over.0 in
    let (cs', are, all_loaded, all_stepped) = advance_on-Stepped k cs loaded.1 over.1 in
    (
      c' ∷ cs',
      rw is (rw are refl),
      (loaded', all_loaded),
      subst (λ ms. Stepped k (contents c ++ all_contents cs) ms (contents c' ++ all_contents cs'))
          (given_append k c (matches_of k cs))
          (Stepped-append k (contents c) (given k c) (contents c') (all_contents cs)
            (matches_of k cs) (all_contents cs') stepped all_stepped),
    )
