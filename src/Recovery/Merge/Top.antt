-- ===== src/Recovery/Merge/Top.antt =====
-- The top of the heap: no cursor is below it, and some cursor gives an entry of it.
use bytecaskdb.Prelude.{
  Bool-cases, Option-cases, All, ◌≡◌, refl, sym, ap, subst, inl, inr, true, false, Option, none,
  some, List, [], ◌∷◌, All-map,
}
use bytecaskdb.KeyOrder.{Bytes, key_lt, key_eq_refl, key_lt_irrefl, key_lt-asymm, key_lt_of_le}
use bytecaskdb.Recovery.Needed.{HintRecord, Match}
use bytecaskdb.Recovery.Cursor.{Cursor}
use bytecaskdb.Recovery.Merge.{cur_match, matches_of, sits_on, smaller_key, top_key}
use bytecaskdb.Recovery.Merge.Step.{NotBelow}

abbrev pub GivesSome : Bytes → List Cursor → Type 0
GivesSome k cs = (m : Match) × (ms : List Match) × (matches_of k cs ≡ m ∷ ms)

abbrev pub TopIs : Option Bytes → List Cursor → Type 0
TopIs none cs = All (λ c. c.cur ≡ none) cs
TopIs (some k) cs = All (λ c. NotBelow k c.cur) cs × GivesSome k cs

NotBelow-none : (k : Bytes) (cur : Option HintRecord) → cur ≡ none → NotBelow k cur
NotBelow-none k none e = tt
NotBelow-none k (some r) e = cc

-- What is not below a key is not below one that the key is not below.
NotBelow-le :
    (k l : Bytes) (cur : Option HintRecord) → key_lt k l ≡ false → NotBelow k cur → NotBelow l cur
NotBelow-le k l none h n = tt
NotBelow-le k l (some r) h n = elim (Bool-cases (key_lt r.key l)) [
  | inr over ↦ over
  | inl under ↦ absurd (cc (key_lt_of_le r.key l k under h, n))
]

matches_of-skips :
    (k : Bytes) (c : Cursor) (cs : List Cursor) → GivesSome k cs → GivesSome k (c ∷ cs)
unfolding matches_of cur_match
matches_of-skips k c cs (m, ms, is) = elim (Bool-cases (sits_on k c)) [
  | inr off ↦ (m, ms, rw off is)
  | inl on ↦ elim (Option-cases c.cur) [
    | inl none_is ↦ (m, ms, rw on (rw none_is is))
    | inr (r, some_is) ↦
        ((c.file_id, r), m ∷ ms, rw on (rw some_is (ap (λ l. (c.file_id, r) ∷ l) is)))
  ]
]

matches_of-here :
    (c : Cursor) (cs : List Cursor) (r : HintRecord) → c.cur ≡ some r → GivesSome r.key (c ∷ cs)
unfolding matches_of cur_match sits_on
matches_of-here c cs r is =
    let on : sits_on r.key c ≡ true = rw is (key_eq_refl r.key) in
    ((c.file_id, r), matches_of r.key cs, rw on (rw is refl))

top_with :
    (c : Cursor) (cs : List Cursor) (r : HintRecord) (o : Option Bytes)
    → c.cur ≡ some r
    → TopIs o cs
    → TopIs (smaller_key (some r.key) o) (c ∷ cs)
unfolding smaller_key
top_with c cs r none is top =
    let mine : NotBelow r.key c.cur = subst (NotBelow r.key) (sym is) (key_lt_irrefl r.key) in
    (
      (
        mine,
        All-map (λ d. d.cur ≡ none) (λ d. NotBelow r.key d.cur) (λ d h. NotBelow-none r.key d.cur h)
            cs top,
      ),
      matches_of-here c cs r is,
    )
top_with c cs r (some b) is top = elim (Bool-cases (key_lt b r.key)) [
  | inl less ↦
      let mine : NotBelow b c.cur = subst (NotBelow b) (sym is) (key_lt-asymm b r.key less) in
      rw less ((mine, top.0), matches_of-skips b c cs top.1)
  | inr over ↦
      let mine : NotBelow r.key c.cur = subst (NotBelow r.key) (sym is) (key_lt_irrefl r.key) in
      rw over (
        (
          mine,
          All-map (λ d. NotBelow b d.cur) (λ d. NotBelow r.key d.cur)
              (λ d h. NotBelow-le b r.key d.cur over h) cs top.0,
        ),
        matches_of-here c cs r is,
      )
]

top_without :
    (c : Cursor) (cs : List Cursor) (o : Option Bytes)
    → c.cur ≡ none
    → TopIs o cs
    → TopIs o (c ∷ cs)
top_without c cs none is top = (is, top)
top_without c cs (some k) is top =
    ((NotBelow-none k c.cur is, top.0), matches_of-skips k c cs top.1)

top_key-none : (c : Cursor) (cs : List Cursor) → c.cur ≡ none → top_key (c ∷ cs) ≡ top_key cs
unfolding top_key
top_key-none c cs is = rw is refl

top_key-some :
    (c : Cursor) (cs : List Cursor) (r : HintRecord)
    → c.cur ≡ some r
    → top_key (c ∷ cs) ≡ smaller_key (some r.key) (top_key cs)
unfolding top_key
top_key-some c cs r is = rw is refl

pub top_key-TopIs : (cs : List Cursor) → TopIs (top_key cs) cs
unfolding top_key
top_key-TopIs [] = tt
top_key-TopIs (c ∷ cs) = elim (Option-cases c.cur) [
  | inr (r, is) ↦
      subst (λ o. TopIs o (c ∷ cs)) (sym (top_key-some c cs r is))
        (top_with c cs r (top_key cs) is (top_key-TopIs cs))
  | inl is ↦
      subst (λ o. TopIs o (c ∷ cs)) (sym (top_key-none c cs is))
        (top_without c cs (top_key cs) is (top_key-TopIs cs))
]
