-- ===== src/KeyDir/Located.antt =====
-- Sorted lists as a key directory that writes by location: what a key is bound to is compared first.
use bytecaskdb.KeyDirEntry.{KeyDirEntry}
use bytecaskdb.KeyDir.{lookup, KeyDir}
use bytecaskdb.KeyDir.Sorted.{sorted_list}
use bytecaskdb.Prelude.{
  ◌==◌, if◌then◌else◌, Bool-cases, ◌≡◌, ap, inl, inr, Bool, true, false, ◌&&◌, Option, none, some,
  arith,
}

abbrev pub entry_eq : KeyDirEntry → KeyDirEntry → Bool
entry_eq a b = (a.word0 == b.word0) && (a.word1 == b.word1)

entry_eq-eq : (a b : KeyDirEntry) → entry_eq a b ≡ true → a ≡ b
entry_eq-eq a b h =
    let w₀ : a.word0 ≡ b.word0 = ground (arith, h) in
    let w₁ : a.word1 ≡ b.word1 = ground (arith, h) in λ i. record { word0 = w₀ i; word1 = w₁ i }

abbrev pub is_at : KeyDirEntry → Option KeyDirEntry → Bool
is_at at_ none = false
is_at at_ (some e) = entry_eq e at_

pub is_at-eq : (at_ : KeyDirEntry) (o : Option KeyDirEntry) → is_at at_ o ≡ true → o ≡ some at_
is_at-eq at_ none h = cc
is_at-eq at_ (some e) h = ap some (entry_eq-eq e at_ h)

-- A write that was not declined found the key at the entry.
pub guarded_write :
    {T : Type 0} (at_ : KeyDirEntry) (o : Option KeyDirEntry) (x t' : T)
    → (if is_at at_ o then some x else none) ≡ some t'
    → ◌≡◌ {A = Option KeyDirEntry × T} (o, x) (some at_, t')
guarded_write at_ o x t' h = elim (Bool-cases (is_at at_ o)) [
  | inl here ↦
      let same : some x ≡ some t' = rw here at h in
      let x_is : x ≡ t' = cc same in λ i. (is_at-eq at_ o here i, x_is i)
  | inr moved ↦ let gone : none ≡ some t' = rw moved at h in absurd (cc gone)
]

abbrev pub located_list : KeyDir
located_list = record sorted_list {
  reads_keys = true;
  holds = λ t k at_. is_at at_ (lookup k t.bindings);
  put_at =
      λ k at_ e t. if is_at at_ (lookup k t.bindings) then some (sorted_list.put k e t).1 else none;
  erase_at =
      λ k at_ t. if is_at at_ (lookup k t.bindings) then some (sorted_list.erase k t).1 else none;
  holds-get = λ k at_ t h. is_at-eq at_ (lookup k t.bindings) h;
  put_at-put =
      λ k at_ e t t' h. guarded_write at_ (lookup k t.bindings) (sorted_list.put k e t).1 t' h;
  erase_at-erase =
      λ k at_ t t' h. guarded_write at_ (lookup k t.bindings) (sorted_list.erase k t).1 t' h;
}
