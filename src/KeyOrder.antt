-- ===== src/KeyOrder.antt =====
-- `Key` of bytecaskdb/internals.cppm: byte strings in lexicographic order, as `memcmp` and
-- `recovery_key_cmp` compare them.
use bytecaskdb.Prelude.{
  ltb, ◌==◌, if◌then◌else◌, Bool-cases, ℕ, ◌≡◌, refl, ap, ◌∙◌, ◌↔◌, inl, inr, Bool, true, false,
  not, ◌&&◌, List, [], ◌∷◌, arith,
}

abbrev pub Bytes : Type 0
Bytes = List ℕ

-- `a < b` of `operator<=>`
unfoldable pub key_lt : Bytes → Bytes → Bool
key_lt a [] = false
key_lt [] (y ∷ ys) = true
key_lt (x ∷ xs) (y ∷ ys) = if x == y then key_lt xs ys else ltb x y

-- `operator==`
unfoldable pub key_eq : Bytes → Bytes → Bool
key_eq [] [] = true
key_eq [] (y ∷ ys) = false
key_eq (x ∷ xs) [] = false
key_eq (x ∷ xs) (y ∷ ys) = (x == y) && key_eq xs ys

pub key_eq_iff : (a b : Bytes) → (key_eq a b ≡ true) ↔ (a ≡ b)
unfolding key_eq
key_eq_iff [] [] = (λ h. refl, λ h. refl)
key_eq_iff [] (y ∷ ys) = (λ h. cc, λ h. cc)
key_eq_iff (x ∷ xs) [] = (λ h. cc, λ h. cc)
key_eq_iff (x ∷ xs) (y ∷ ys) = ground (arith, key_eq_iff xs ys)

pub key_eq_refl : (a : Bytes) → key_eq a a ≡ true
key_eq_refl a = (key_eq_iff a a).1 refl

pub key_lt_irrefl : (a : Bytes) → key_lt a a ≡ false
unfolding key_lt
key_lt_irrefl [] = refl
key_lt_irrefl (x ∷ xs) = ground (arith, key_lt_irrefl xs)

pub key_lt_trans : (a b c : Bytes) → key_lt a b ≡ true → key_lt b c ≡ true → key_lt a c ≡ true
unfolding key_lt
key_lt_trans a b [] h k = cc
key_lt_trans a [] (z ∷ zs) h k = cc
key_lt_trans [] (y ∷ ys) (z ∷ zs) h k = refl
key_lt_trans (x ∷ xs) (y ∷ ys) (z ∷ zs) h k = ground (arith, key_lt_trans xs ys zs)

-- Of two keys that are not equal, one is below the other and not the other way round.
pub key_lt_total : (a b : Bytes) → key_eq a b ≡ false → key_lt b a ≡ not (key_lt a b)
unfolding key_lt key_eq
key_lt_total [] [] h = cc
key_lt_total [] (y ∷ ys) h = refl
key_lt_total (x ∷ xs) [] h = refl
key_lt_total (x ∷ xs) (y ∷ ys) h = ground (arith, key_lt_total xs ys)

pub key_lt-asymm : (a b : Bytes) → key_lt a b ≡ true → key_lt b a ≡ false
key_lt-asymm a b h = elim (Bool-cases (key_lt b a)) [
  | inl k ↦ cc (key_lt_trans a b a h k, key_lt_irrefl a)
  | inr k ↦ k
]

-- `a ≤ b < c` puts `a` below `c`.
pub key_lt_of_not_lt : (a b c : Bytes) → key_lt b a ≡ false → key_lt b c ≡ true → key_lt a c ≡ true
key_lt_of_not_lt a b c h k = elim (Bool-cases (key_eq a b)) [
  | inl same ↦ rw ((key_eq_iff a b).0 same) k
  | inr other ↦ key_lt_trans a b c (ground (arith, key_lt_total a b other)) k
]

-- `a < b ≤ c` puts `a` below `c`.
pub key_lt_of_le : (a b c : Bytes) → key_lt a b ≡ true → key_lt c b ≡ false → key_lt a c ≡ true
key_lt_of_le a b c h k = elim (Bool-cases (key_eq c b)) [
  | inl same ↦ rw ((key_eq_iff c b).0 same) h
  | inr other ↦ key_lt_trans a b c h (key_lt_total c b other ∙ ap not k)
]
