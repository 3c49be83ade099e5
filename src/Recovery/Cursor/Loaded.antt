-- ===== src/Recovery/Cursor/Loaded.antt =====
-- A loaded cursor, in a sorted hint file: the entry it is parked on is the newest of its key, and what
-- lies behind has higher keys.
use bytecaskdb.Prelude.{
  ltb, if◌then◌else◌, Bool-cases, length, All, ok, ℕ, ◌≤◌, ◌≡◌, refl, sym, ap, subst, ◌∙◌, inl, inr,
  true, false, not, Option, none, some, List, [], ◌∷◌, ◌++◌, arith,
}
use bytecaskdb.KeyOrder.{Bytes, key_lt, key_lt_of_le, key_eq, key_eq_iff, key_lt_total}
use bytecaskdb.Format.Hint.{HintEntry}
use bytecaskdb.Recovery.Needed.{HintRecord, assign, Match}
use bytecaskdb.Recovery.Cursor.{
  Noted, Cursor, data_entry, run_entry, collapse, note, load, next_data,
}
use bytecaskdb.Recovery.Merge.Newest.{newest, pick, pick_assoc}

-- A sorted run of puts and deletes, none below `lo`.
abbrev pub IsRun : Bytes → List HintEntry → Type 0
IsRun lo [] = Unit
IsRun lo (he ∷ rest) =
    (run_entry he.entry_type ≡ data_entry) × (key_lt he.key lo ≡ false) × IsRun he.key rest

abbrev pub tagged : ℕ → List HintEntry → List Match
tagged file_id [] = []
tagged file_id (he ∷ rest) = (file_id, assign he) ∷ tagged file_id rest

abbrev pub record_of : ℕ → Option HintRecord → List Match
record_of file_id none = []
record_of file_id (some r) = (file_id, r) ∷ []

-- The entries that the cursor has yet to give: behind the one it is parked on, and with it.
abbrev pub behind : Cursor → List Match
behind c = record_of c.file_id c.lookahead ++ tagged c.file_id c.rest

abbrev pub contents : Cursor → List Match
contents c = record_of c.file_id c.cur ++ behind c

-- What lies behind is a run; nothing lies behind the last entry.
abbrev pub IsBehind : Option HintRecord → List HintEntry → Type 0
IsBehind none rest = rest ≡ []
IsBehind (some l) rest = IsRun l.key rest

abbrev pub AboveCur : Option HintRecord → Option HintRecord → Type 0
AboveCur none none = Unit
AboveCur none (some l) = ⊥
AboveCur (some r) none = Unit
AboveCur (some r) (some l) = key_lt r.key l.key ≡ true

abbrev pub IsLoaded : Cursor → Type 0
IsLoaded c = AboveCur c.cur c.lookahead × IsBehind c.lookahead c.rest

-- Every key of a run is at or above where it starts.
pub IsRun-above :
    (k lo : Bytes) (file_id : ℕ) (rest : List HintEntry)
    → key_lt k lo ≡ true
    → IsRun lo rest
    → All (λ m. key_lt k m.1.key ≡ true) (tagged file_id rest)
unfolding assign
IsRun-above k lo file_id [] h run = tt
IsRun-above k lo file_id (he ∷ rest) h (_, over, run) =
    let here = key_lt_of_le k lo he.key h over in (here, IsRun-above k he.key file_id rest here run)

-- What `load` makes of a run: the same newest entries, none that was not there, and no more.
abbrev pub Reloads : List Match → Cursor → ℕ → Type 1
Reloads before c' file_id =
    IsLoaded c'
    × (c'.file_id ≡ file_id)
    × ((key : Bytes) → newest key (contents c') ≡ newest key before)
    × ((P : Match → Type 0) → All P before → All P (contents c'))
    × (length (contents c') ≤ length before)

-- Of two entries of one key, the newer one stands for both.
newest_of_two :
    (key : Bytes) (a b : Match) (ms : List Match)
    → b.1.key ≡ a.1.key
    → newest key (a ∷ b ∷ ms) ≡ newest key ((if ltb a.1.sequence b.1.sequence then b else a) ∷ ms)
unfolding newest
newest_of_two key a b ms same = elim (Bool-cases (key_eq a.1.key key)) [
  | inl on ↦
      let on_b : key_eq b.1.key key ≡ true = ap (λ k. key_eq k key) same ∙ on in
      elim (Bool-cases (ltb a.1.sequence b.1.sequence)) [
        | inl newer ↦
            let step : pick (some a) (some b) ≡ some b = unfold pick in rw newer refl in
            rw (on, newer, on_b)
              (sym (pick_assoc (some a) (some b) (newest key ms))
                ∙ ap (λ x. pick x (newest key ms)) step)
        | inr older ↦
            let step : pick (some a) (some b) ≡ some a = unfold pick in rw older refl in
            rw (on, older, on_b, on)
              (sym (pick_assoc (some a) (some b) (newest key ms))
                ∙ ap (λ x. pick x (newest key ms)) step)
      ]
  | inr off ↦
      let off_b : key_eq b.1.key key ≡ false = ap (λ k. key_eq k key) same ∙ off in
      elim (Bool-cases (ltb a.1.sequence b.1.sequence)) [
        | inl newer ↦ rw (off, newer, off_b) refl
        | inr older ↦ rw (off, older, off_b, off) refl
      ]
]

-- Reloading what stands for the entries reloads the entries.
Reloads-more :
    (before smaller : List Match) (c' : Cursor) (file_id : ℕ)
    → ((key : Bytes) → newest key smaller ≡ newest key before)
    → ((P : Match → Type 0) → All P before → All P smaller)
    → length smaller ≤ length before
    → Reloads smaller c' file_id
    → Reloads before c' file_id
Reloads-more before smaller c' file_id same above fewer (loaded, id, newest_is, above_is, n) = (
  loaded,
  id,
  λ key. newest_is key ∙ same key,
  λ P h. above_is P (above P h),
  omega (arith, n, fewer),
)

-- On an entry of the key, the loop goes on with the newer of the two.
collapse-same :
    (file_id : ℕ) (noted : Noted) (cur : HintRecord) (he : HintEntry) (rest : List HintEntry)
    → run_entry he.entry_type ≡ data_entry
    → key_lt he.key cur.key ≡ false
    → key_eq he.key cur.key ≡ true
    → collapse file_id noted cur (he ∷ rest) ≡ (
        if ltb cur.sequence he.sequence
        then collapse file_id (note he noted) (assign he) rest
        else collapse file_id (note he noted) cur rest)
unfolding collapse
collapse-same file_id noted cur he rest is_data over same = rw (is_data, over, same, collapse) refl

-- On an entry of a later key it stops.
collapse-later :
    (file_id : ℕ) (noted : Noted) (cur : HintRecord) (he : HintEntry) (rest : List HintEntry)
    → run_entry he.entry_type ≡ data_entry
    → key_lt he.key cur.key ≡ false
    → key_eq he.key cur.key ≡ false
    → collapse file_id noted cur (he ∷ rest)
      ≡ ok (record {
        rest = rest;
        file_id = file_id;
        cur = some cur;
        lookahead = some (assign he);
        noted = note he noted;
      })
unfolding collapse
collapse-later file_id noted cur he rest is_data over other =
    rw (is_data, over, other, collapse) refl

collapse-Reloads :
    (file_id : ℕ) (noted : Noted) (cur : HintRecord) (rest : List HintEntry)
    → IsRun cur.key rest
    → (c' : Cursor) × (collapse file_id noted cur rest ≡ ok c')
      × Reloads ((file_id, cur) ∷ tagged file_id rest) c' file_id
unfolding collapse
collapse-Reloads file_id noted cur [] run =
    (_, refl, ((tt, refl), refl, λ key. refl, λ P h. h, omega arith))
collapse-Reloads file_id noted cur (he ∷ rest) (is_data, over, run) =
    elim (Bool-cases (key_eq he.key cur.key)) [
      | inr other ↦
          let above : key_lt cur.key he.key ≡ true =
            key_lt_total he.key cur.key other ∙ ap not over in
          (
            _,
            collapse-later file_id noted cur he rest is_data over other,
            ((above, run), refl, λ key. refl, λ P h. h, omega arith),
          )
      | inl same ↦
          let same_key : he.key ≡ cur.key = (key_eq_iff he.key cur.key).0 same in
          let two = λ (key : Bytes).
            newest_of_two key (file_id, cur) (file_id, assign he) (tagged file_id rest) same_key in
          elim (Bool-cases (ltb cur.sequence he.sequence)) [
            | inl newer ↦
                let (c', is, r) = collapse-Reloads file_id (note he noted) (assign he) rest run in
                (
                  c',
                  collapse-same file_id noted cur he rest is_data over same ∙ rw newer is,
                  Reloads-more ((file_id, cur) ∷ (file_id, assign he) ∷ tagged file_id rest)
                      ((file_id, assign he) ∷ tagged file_id rest) c' file_id
                      (λ key. sym (rw newer at (two key))) (λ P h. h.1) (omega arith) r,
                )
            | inr older ↦
                let (c', is, r) =
                  collapse-Reloads file_id (note he noted) cur rest
                    (subst (λ k. IsRun k rest) same_key run) in
                (
                  c',
                  collapse-same file_id noted cur he rest is_data over same ∙ rw older is,
                  Reloads-more ((file_id, cur) ∷ (file_id, assign he) ∷ tagged file_id rest)
                      ((file_id, cur) ∷ tagged file_id rest) c' file_id
                      (λ key. sym (rw older at (two key))) (λ P h. (h.0, h.1.1)) (omega arith) r,
                )
          ]
    ]

-- A cursor whose head is read, or whose entry is used up, goes on to the next key.
pub load-Reloads :
    (c : Cursor)
    → IsBehind c.lookahead c.rest
    → (c' : Cursor) × (load c ≡ ok c') × Reloads (behind c) c' c.file_id
unfolding load next_data
load-Reloads c run = go c.lookahead c.rest run
  where
    go :
        (ahead : Option HintRecord) (rest : List HintEntry)
        → IsBehind ahead rest
        → (c' : Cursor) × (load (record c { lookahead = ahead; rest = rest }) ≡ ok c')
          × Reloads (record_of c.file_id ahead ++ tagged c.file_id rest) c' c.file_id
    go none [] h = (_, refl, ((tt, refl), refl, λ key. refl, λ P h. h, omega arith))
    go none (he ∷ rest) h = cc
    go (some l) rest h = collapse-Reloads c.file_id c.noted l rest h
