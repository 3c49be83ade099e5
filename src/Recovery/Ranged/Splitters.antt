-- ===== src/Recovery/Ranged/Splitters.antt =====
-- The splitters that are taken from the pooled separators ascend.
use native.Mathlib.Nat.{le-div_iff_mul-le, div-mul-le_self}
use bytecaskdb.Prelude.{
  ltb, Bool-cases, All, All-map, Pairwise, get_elem?, length, ℕ, zero, suc, ◌*◌, ◌/◌, ◌-◌, ◌≤◌, ◌<◌,
  ◌≡◌, refl, sym, subst, inl, inr, false, Option, none, some, List, [], ◌∷◌, arith,
}
use bytecaskdb.KeyOrder.{
  Bytes, key_lt, key_eq, key_eq_iff, key_lt-asymm, key_lt_irrefl, key_lt_of_le,
}
use bytecaskdb.KeyDir.{Bindings}
use bytecaskdb.Recovery.Build.{RecoveryResult}
use bytecaskdb.Recovery.Ranged.Load.{
  insert_key, sort_keys, unique_keys, pick_keys, pool_of, splitters_of,
}
use bytecaskdb.Recovery.Ranged.Ranges.{AscendFrom}

-- The first key is not above the second.
abbrev NotAbove : Bytes → Bytes → Type 0
NotAbove a b = key_lt b a ≡ false

NotAbove-trans : (a b c : Bytes) → NotAbove a b → NotAbove b c → NotAbove a c
NotAbove-trans a b c h k = elim (Bool-cases (key_lt c a)) [
  | inl under ↦ cc (key_lt_of_le c a b under h', k)
  | inr over ↦ over
]
  where
    h' : key_lt b a ≡ false
    h' = h

abbrev InOrder : List Bytes → Type 0
InOrder = Pairwise NotAbove

All-insert_key :
    (P : Bytes → Type 0) (key : Bytes) (ks : List Bytes)
    → P key
    → All P ks
    → All P (insert_key key ks)
unfolding insert_key
All-insert_key P key [] p h = (p, tt)
All-insert_key P key (k ∷ ks) p h = elim (Bool-cases (key_lt k key)) [
  | inl below ↦ rw below (h.0, All-insert_key P key ks p h.1)
  | inr not_below ↦ rw not_below (p, h)
]

insert_key-InOrder : (key : Bytes) (ks : List Bytes) → InOrder ks → InOrder (insert_key key ks)
unfolding insert_key
insert_key-InOrder key [] h = (tt, tt)
insert_key-InOrder key (k ∷ ks) h = elim (Bool-cases (key_lt k key)) [
  | inl below ↦ rw below (
    All-insert_key (NotAbove k) key ks (key_lt-asymm k key below) h.0,
    insert_key-InOrder key ks h.1,
  )
  | inr not_below ↦ rw not_below (
    (
      not_below,
      All-map (NotAbove k) (NotAbove key) (λ j n. NotAbove-trans key k j not_below n) ks h.0,
    ),
    h,
  )
]

sort_keys-InOrder : (ks : List Bytes) → InOrder (sort_keys ks)
unfolding sort_keys
sort_keys-InOrder [] = tt
sort_keys-InOrder (k ∷ ks) = insert_key-InOrder k (sort_keys ks) (sort_keys-InOrder ks)

All-get_elem? :
    (P : Bytes → Type 0) (ks : List Bytes) (i : ℕ) (k : Bytes)
    → All P ks
    → get_elem? ks i ≡ some k
    → P k
All-get_elem? P [] i k h is = absurd (cc is)
All-get_elem? P (x ∷ ks) zero k h is = subst P (cc is) h.0
All-get_elem? P (x ∷ ks) (suc i) k h is = All-get_elem? P ks i k h.1 is

get_elem?-NotAbove :
    (ks : List Bytes) (i j : ℕ) (a b : Bytes)
    → InOrder ks
    → i ≤ j
    → get_elem? ks i ≡ some a
    → get_elem? ks j ≡ some b
    → NotAbove a b
get_elem?-NotAbove [] i j a b h le is js = absurd (cc is)
get_elem?-NotAbove (x ∷ ks) zero zero a b h le is js =
    let same : a ≡ b = cc (is, js) in subst (NotAbove a) same (key_lt_irrefl a)
get_elem?-NotAbove (x ∷ ks) (suc i) zero a b h le is js = absurd (omega (arith, le))
get_elem?-NotAbove (x ∷ ks) zero (suc j) a b h le is js =
    subst (λ k. NotAbove k b) (cc is) (All-get_elem? (NotAbove x) ks j b h.0 js)
get_elem?-NotAbove (x ∷ ks) (suc i) (suc j) a b h le is js =
    get_elem?-NotAbove ks i j a b h.1 (omega (arith, le)) is js

div_mono : (x y k : ℕ) → 0 < k → x ≤ y → x / k ≤ y / k
div_mono x y k pos h =
    let under = div-mul-le_self x k in (le-div_iff_mul-le pos).1 (omega (arith, under, h))

pick_keys-some :
    (n r parts : ℕ) (pool : List Bytes) (k : Bytes)
    → get_elem? pool (r * length pool / parts) ≡ some k
    → pick_keys (suc n) r parts pool ≡ k ∷ pick_keys n (suc r) parts pool
unfolding pick_keys
pick_keys-some n r parts pool k is = rw (is, pick_keys) refl

pick_keys-none :
    (n r parts : ℕ) (pool : List Bytes)
    → get_elem? pool (r * length pool / parts) ≡ none
    → pick_keys (suc n) r parts pool ≡ pick_keys n (suc r) parts pool
unfolding pick_keys
pick_keys-none n r parts pool is = rw (is, pick_keys) refl

-- What is picked from the place of `r` on is not below a key that nothing from there on is below.
pick_keys-AscendFrom :
    (n r parts : ℕ) (pool : List Bytes) (lo : Bytes)
    → 0 < parts
    → InOrder pool
    → ((j : ℕ) (b : Bytes)
        → r * length pool / parts ≤ j
        → get_elem? pool j ≡ some b
        → NotAbove lo b)
    → AscendFrom lo (pick_keys n r parts pool)
pick_keys-AscendFrom zero r parts pool lo pos h from_lo = unfold pick_keys in tt
pick_keys-AscendFrom (suc n) r parts pool lo pos h from_lo =
    by_key (get_elem? pool place) refl
      (λ b from_b. pick_keys-AscendFrom n (suc r) parts pool b pos h from_b)
  where
    place : ℕ
    place = r * length pool / parts

    later : place ≤ suc r * length pool / parts
    later = div_mono (r * length pool) (suc r * length pool) parts pos (omega arith)

    by_key :
        (o : Option Bytes)
        → get_elem? pool place ≡ o
        → ((b : Bytes)
            → ((j : ℕ) (d : Bytes)
                → suc r * length pool / parts ≤ j
                → get_elem? pool j ≡ some d
                → NotAbove b d)
            → AscendFrom b (pick_keys n (suc r) parts pool))
        → AscendFrom lo (pick_keys (suc n) r parts pool)
    by_key none is rest =
        subst (AscendFrom lo) (sym (pick_keys-none n r parts pool is))
          (rest lo (λ j d le js. from_lo j d (omega (arith, later, le)) js))
    by_key (some k) is rest = subst (AscendFrom lo) (sym (pick_keys-some n r parts pool k is)) (
      from_lo place k (omega arith) is,
      rest k (λ j d le js. get_elem?-NotAbove pool place j k d h (omega (arith, later, le)) is js),
    )

unique_keys-AscendFrom :
    (lo : Bytes) (ks : List Bytes) → AscendFrom lo ks → AscendFrom lo (unique_keys ks)
unfolding unique_keys
unique_keys-AscendFrom lo [] h = tt
unique_keys-AscendFrom lo (k ∷ []) h = h
unique_keys-AscendFrom lo (k ∷ j ∷ ks) (up, ups) = elim (Bool-cases (key_eq k j)) [
  | inl same ↦
      let is : k ≡ j = (key_eq_iff k j).0 same in
      rw same (unique_keys-AscendFrom lo (j ∷ ks) (subst (NotAbove lo) is up, ups.1))
  | inr other ↦ rw other (up, unique_keys-AscendFrom k (j ∷ ks) ups)
]

-- No key is below the empty one.
pub not_below_empty : (key : Bytes) → key_lt key [] ≡ false
unfolding key_lt
not_below_empty [] = refl
not_below_empty (b ∷ bs) = refl

pub splitters_of-AscendFrom :
    (sample : Bindings → ℕ → List Bytes) (workers : ℕ) (parts : List RecoveryResult)
    → AscendFrom [] (splitters_of sample workers parts)
unfolding splitters_of
splitters_of-AscendFrom sample workers parts = elim (Bool-cases (ltb 1 workers)) [
  | inl many ↦
      let pool = sort_keys (pool_of sample workers parts) in
      let pos : 0 < workers = ground (arith, many) in
      rw many (
        unique_keys-AscendFrom [] (pick_keys (workers - 1) 1 workers pool) (
          pick_keys-AscendFrom (workers - 1) 1 workers pool [] pos
            (sort_keys-InOrder (pool_of sample workers parts)) (λ j b le js. not_below_empty b)))
  | inr one ↦ rw one tt
]
