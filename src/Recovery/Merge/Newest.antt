-- ===== src/Recovery/Merge/Newest.antt =====
-- The newest entry of a key in a list: the highest sequence, the first of those that share it.
use bytecaskdb.Prelude.{
  ltb, if◌then◌else◌, Bool-cases, All, ◌≡◌, refl, sym, ap, ◌∙◌, inl, inr, true, false, Option, none,
  some, List, [], ◌∷◌, ◌++◌, arith, Any, All-map, subst, ◌≤◌,
}
use mathlib.Core.List.{Permᴰ}
use mathlib.Core.List.Permᴰ
use bytecaskdb.KeyOrder.{Bytes, key_eq}
use bytecaskdb.Recovery.Needed.{Match}
use bytecaskdb.Recovery.Merge.{winner_of}

unfoldable pub pick : Option Match → Option Match → Option Match
pick none b = b
pick (some a) none = some a
pick (some a) (some b) = if ltb a.1.sequence b.1.sequence then some b else some a

unfoldable pub newest : Bytes → List Match → Option Match
unfolding pick
newest key [] = none
newest key (m ∷ ms) =
    let rest = newest key ms in if key_eq m.1.key key then pick (some m) rest else rest

pub pick-none : (a : Option Match) → pick a none ≡ a
unfolding pick
pick-none none = refl
pick-none (some a) = refl

pub pick_assoc : (a b d : Option Match) → pick (pick a b) d ≡ pick a (pick b d)
unfolding pick
pick_assoc none b d = refl
pick_assoc (some a) none d = refl
pick_assoc (some a) (some b) none = ground arith
pick_assoc (some a) (some b) (some d) = ground arith

pub newest-append :
    (key : Bytes) (xs ys : List Match)
    → newest key (xs ++ ys) ≡ pick (newest key xs) (newest key ys)
unfolding newest
newest-append key [] ys = unfold pick in refl
newest-append key (m ∷ ms) ys = elim (Bool-cases (key_eq m.1.key key)) [
  | inl on ↦ rw on (
      ap (pick (some m)) (newest-append key ms ys)
      ∙ sym (pick_assoc (some m) (newest key ms) (newest key ys)))
  | inr off ↦ rw off (newest-append key ms ys)
]

-- A list that has no entry of the key.
pub newest-absent :
    (key : Bytes) (ms : List Match)
    → All (λ m. key_eq m.1.key key ≡ false) ms
    → newest key ms ≡ none
unfolding newest
newest-absent key [] h = refl
newest-absent key (m ∷ ms) h = rw (h.0) (newest-absent key ms h.1)

abbrev pub HasKey : Bytes → Match → Type 0
HasKey key m = key_eq m.1.key key ≡ true

-- The entry is one of the list, it is of the key, and no entry of the key has a higher sequence; `none`
-- where no entry is of the key.
abbrev pub IsNewest : Bytes → List Match → Option Match → Type 0
IsNewest key ms none = All (λ n. key_eq n.1.key key ≡ false) ms
IsNewest key ms (some m) =
    Any (λ n. n ≡ m) ms × HasKey key m × All (λ n. HasKey key n → n.1.sequence ≤ m.1.sequence) ms

-- The newest of a list, with an entry in front of it.
IsNewest-pick :
    (key : Bytes) (m : Match) (ms : List Match) (o : Option Match)
    → HasKey key m
    → IsNewest key ms o
    → IsNewest key (m ∷ ms) (pick (some m) o)
unfolding pick
IsNewest-pick key m ms none on h = (
  inl refl,
  on,
  (
    λ is. omega arith,
    All-map (λ n. key_eq n.1.key key ≡ false) (λ n. HasKey key n → n.1.sequence ≤ m.1.sequence)
        (λ n off is. absurd (cc (off, is))) ms h,
  ),
)
IsNewest-pick key m ms (some n) on (here, on_n, least) =
    elim (Bool-cases (ltb m.1.sequence n.1.sequence)) [
      | inl newer ↦ rw newer (inr here, on_n, (λ is. ground (arith, newer), least))
      | inr older ↦ rw older (
        inl refl,
        on,
        (
          λ is. omega arith,
          All-map (λ x. HasKey key x → x.1.sequence ≤ n.1.sequence)
              (λ x. HasKey key x → x.1.sequence ≤ m.1.sequence)
              (λ x le is. let l = le is in ground (arith, l, older)) ms least,
        ),
      )
    ]

IsNewest-other :
    (key : Bytes) (m : Match) (ms : List Match) (o : Option Match)
    → key_eq m.1.key key ≡ false
    → IsNewest key ms o
    → IsNewest key (m ∷ ms) o
IsNewest-other key m ms none off h = (off, h)
IsNewest-other key m ms (some n) off (here, on, least) =
    (inr here, on, (λ is. absurd (cc (off, is)), least))

pub newest-IsNewest : (key : Bytes) (ms : List Match) → IsNewest key ms (newest key ms)
unfolding newest
newest-IsNewest key [] = tt
newest-IsNewest key (m ∷ ms) =
    let rest = newest-IsNewest key ms in
    elim (Bool-cases (key_eq m.1.key key)) [
      | inl on ↦ rw on (IsNewest-pick key m ms (newest key ms) on rest)
      | inr off ↦ rw off (IsNewest-other key m ms (newest key ms) off rest)
    ]

All-of-Any :
    (P : Match → Type 0) (m : Match) (ms : List Match) → All P ms → Any (λ n. n ≡ m) ms → P m
All-of-Any P m [] h a = absurd a
All-of-Any P m (n ∷ ms) h (inl is) = subst P is h.0
All-of-Any P m (n ∷ ms) h (inr a) = All-of-Any P m ms h.1 a

-- Where no entry is of the key, there is no newest.
pub IsNewest-absent :
    (key : Bytes) (ms : List Match) (o : Option Match)
    → All (λ n. key_eq n.1.key key ≡ false) ms
    → IsNewest key ms o
    → o ≡ none
IsNewest-absent key ms none h n = refl
IsNewest-absent key ms (some m) h (here, on, least) =
    let off = All-of-Any (λ n. key_eq n.1.key key ≡ false) m ms h here in absurd (cc (off, on))

-- An entry of the key that is in a list is the newest if it is as new as the one that is.
pub IsNewest-as_new :
    (key : Bytes) (ms : List Match) (m : Match) (o : Option Match)
    → Any (λ n. n ≡ m) ms
    → HasKey key m
    → ((n : Match) → o ≡ some n → n.1.sequence ≤ m.1.sequence)
    → IsNewest key ms o
    → IsNewest key ms (some m)
IsNewest-as_new key ms m none here on le h =
    let off = All-of-Any (λ n. key_eq n.1.key key ≡ false) m ms h here in absurd (cc (off, on))
IsNewest-as_new key ms m (some n) here on le (there, on_n, least) =
    let up = le n refl in
    (
      here,
      on,
      All-map (λ x. HasKey key x → x.1.sequence ≤ n.1.sequence)
          (λ x. HasKey key x → x.1.sequence ≤ m.1.sequence)
          (λ x l is. let lower = l is in omega (arith, lower, up)) ms least,
    )

All-self : (ms : List Match) → All (λ m. Any (λ n. n ≡ m) ms) ms
All-self [] = tt
All-self (m ∷ ms) = (
  inl refl,
  All-map (λ x. Any (λ n. n ≡ x) ms) (λ x. Any (λ n. n ≡ x) (m ∷ ms)) (λ x a. inr a) ms
      (All-self ms),
)

-- Some of the entries of a list, that have the list's newest entry of a key, share what is newest.
pub IsNewest-within :
    (key : Bytes) (part whole : List Match) (o : Option Match)
    → newest key part ≡ newest key whole
    → ((P : Match → Type 0) → All P whole → All P part)
    → IsNewest key part o
    → IsNewest key whole o
IsNewest-within key part whole none same keeps h =
    let none_is : newest key whole ≡ none = sym same ∙ newest-absent key part h in
    subst (IsNewest key whole) none_is (newest-IsNewest key whole)
IsNewest-within key part whole (some m) same keeps (here, on, least) =
    let inside =
      All-of-Any (λ x. Any (λ n. n ≡ x) whole) m part
        (keeps (λ x. Any (λ n. n ≡ x) whole) (All-self whole)) here in
    IsNewest-as_new key whole m (newest key whole) inside on
      (λ n is.
        let of_part : IsNewest key part (some n) =
          subst (IsNewest key part) (same ∙ is) (newest-IsNewest key part) in
        let (there, on_n, _) = of_part in
        All-of-Any (λ x. HasKey key x → x.1.sequence ≤ m.1.sequence) n part least there on_n)
      (newest-IsNewest key whole)

-- No entry is newer than the winner.
winner_of-highest :
    (best : Match) (ms : List Match)
    → (best.1.sequence ≤ (winner_of best ms).1.sequence)
      × All (λ m. m.1.sequence ≤ (winner_of best ms).1.sequence) ms
unfolding winner_of
winner_of-highest best [] = (omega arith, tt)
winner_of-highest best (m ∷ ms) =
    let next = if ltb best.1.sequence m.1.sequence then m else best in
    let (up, ups) = winner_of-highest next ms in
    let (best_le, m_le) = later best m in
    (omega (arith, best_le, up), (omega (arith, m_le, up), ups))
  where
    later :
        (a b : Match)
        → (a.1.sequence ≤ (if ltb a.1.sequence b.1.sequence then b else a).1.sequence)
          × (b.1.sequence ≤ (if ltb a.1.sequence b.1.sequence then b else a).1.sequence)
    later a b = elim (Bool-cases (ltb a.1.sequence b.1.sequence)) [
      | inl newer ↦ rw newer (ground (arith, newer), omega arith)
      | inr older ↦ rw older (omega arith, ground (arith, older))
    ]

pub winner_of-All :
    (P : Match → Type 0) (best : Match) (ms : List Match)
    → P best
    → All P ms
    → P (winner_of best ms)
unfolding winner_of
winner_of-All P best [] p h = p
winner_of-All P best (m ∷ ms) p h =
    winner_of-All P (if ltb best.1.sequence m.1.sequence then m else best) ms
      (elim (Bool-cases (ltb best.1.sequence m.1.sequence)) [
        | inl newer ↦ rw newer (h.0)
        | inr older ↦ rw older p
      ])
      h.1

pub All-perm : (P : Match → Type 0) {xs ys : List Match} → Permᴰ xs ys → All P xs → All P ys
All-perm P Permᴰ.nil h = tt
All-perm P (Permᴰ.cons e p) h = (subst P e h.0, All-perm P p h.1)
All-perm P (Permᴰ.swap e d) (x, (y, h)) = (subst P d y, (subst P e x, h))
All-perm P (Permᴰ.trans p q) h = All-perm P q (All-perm P p h)

-- The winner among the matches of a key, in whatever order they are taken, is a newest entry of them.
pub winner_of-IsNewest :
    (key : Bytes) (first : Match) (rest ms : List Match)
    → Permᴰ (first ∷ rest) ms
    → All (HasKey key) ms
    → IsNewest key ms (some (winner_of first rest))
winner_of-IsNewest key first rest ms p on =
    let inside = All-perm (λ x. Any (λ n. n ≡ x) ms) (Permᴰ.symm p) (All-self ms) in
    let ons = All-perm (HasKey key) (Permᴰ.symm p) on in
    let w = winner_of first rest in
    (
      winner_of-All (λ x. Any (λ n. n ≡ x) ms) first rest inside.0 inside.1,
      winner_of-All (HasKey key) first rest ons.0 ons.1,
      All-map (λ x. x.1.sequence ≤ w.1.sequence) (λ x. HasKey key x → x.1.sequence ≤ w.1.sequence)
          (λ x l is. l) ms
          (All-perm (λ x. x.1.sequence ≤ w.1.sequence) p (winner_of-highest first rest)),
    )
