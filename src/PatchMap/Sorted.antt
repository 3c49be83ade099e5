-- ===== src/PatchMap/Sorted.antt =====
-- A run is sorted by key, one entry per key; recording keeps it so.
use bytecaskdb.PatchMap.{Patch, Entries, PatchPolicy, find_patch, fold, fold_at, fold_or_insert}
use bytecaskdb.Prelude.{
  ltb, ◌==◌, if◌then◌else◌, ltb→lt, lt→ltb, Bool-cases, get_elem?, ℕ, zero, suc, ◌≤◌, ◌<◌, ◌≡◌,
  refl, ap, ◌∙◌, inl, inr, true, false, Option, none, some, [], ◌∷◌, arith,
}

module _ {ℓ κ} {V : Type ℓ} {D : Type κ} where
  abbrev pub Above : ℕ → Entries V D → Type 0
  Above k [] = Unit
  Above k (e ∷ es) = (k < e.0) × Above k es

  abbrev pub IsSorted : Entries V D → Type 0
  IsSorted [] = Unit
  IsSorted (e ∷ es) = Above e.0 es × IsSorted es

  pub find_patch-Above : (es : Entries V D) (k j : ℕ) → Above k es → j ≤ k → find_patch es j ≡ none
  unfolding find_patch
  find_patch-Above [] k j h l = refl
  find_patch-Above (e ∷ es) k j h l =
      let over : ltb e.0 j ≡ false = ground arith in
      let other : (e.0 == j) ≡ false = ground arith in rw over (rw other)

  -- In a sorted run the search for a key is a walk that compares it with each entry.
  pub find_patch-cons :
      (e : ℕ × Patch V D) (es : Entries V D) (j : ℕ)
      → IsSorted (e ∷ es)
      → find_patch (e ∷ es) j ≡ (if e.0 == j then some e.1 else find_patch es j)
  find_patch-cons e es j h = elim (Bool-cases (ltb e.0 j)) [
    | inl below ↦
        let other : (e.0 == j) ≡ false = ground arith in rw other (unfold find_patch in rw below)
    | inr over ↦ elim (Bool-cases (e.0 == j)) [
      | inl here ↦ rw here (unfold find_patch in rw over (rw here))
      | inr other ↦ rw other (
          rw (find_patch-Above es e.0 j h.0 (ground arith))
            (unfold find_patch in rw over (rw other)))
    ]
  ]

module _ {ℓ κ} {V : Type ℓ} {D : Type κ} where
  Above-get_elem? :
      (k i key : ℕ) (q : Patch V D) (es : Entries V D)
      → Above k es
      → get_elem? es i ≡ some (key, q)
      → k < key
  Above-get_elem? k i key q [] h g = cc
  Above-get_elem? k zero key q (e ∷ es) h g = ground arith
  Above-get_elem? k (suc i) key q (e ∷ es) h g = Above-get_elem? k i key q es h.1 g

module _ {ℓ} {V D : Type ℓ} (policy : PatchPolicy V D) where
  -- What a newer patch makes of the patch that is there, if one is.
  unfoldable pub fold_onto : Option (Patch V D) → Patch V D → Patch V D
  fold_onto none p = p
  fold_onto (some q) p = fold policy q p

  Above-fold_or_insert :
      (k key : ℕ) (p : Patch V D) (es : Entries V D)
      → k < key
      → Above k es
      → Above k (fold_or_insert policy key p es)
  unfolding fold_or_insert
  Above-fold_or_insert k key p [] l h = (l, tt)
  Above-fold_or_insert k key p (e ∷ es) l h = elim (Bool-cases (ltb e.0 key)) [
    | inl below ↦ rw below (h.0, Above-fold_or_insert k key p es l h.1)
    | inr over ↦ elim (Bool-cases (e.0 == key)) [
      | inl here ↦ rw over (rw here h)
      | inr other ↦ rw over (rw other (l, h))
    ]
  ]

  Above-trans : (k j : ℕ) (es : Entries V D) → j < k → Above k es → Above j es
  Above-trans k j [] l h = tt
  Above-trans k j (e ∷ es) l h = (omega arith, Above-trans k j es l h.1)

  pub fold_or_insert-IsSorted :
      (key : ℕ) (p : Patch V D) (es : Entries V D)
      → IsSorted es
      → IsSorted (fold_or_insert policy key p es)
  unfolding fold_or_insert
  fold_or_insert-IsSorted key p [] h = (tt, tt)
  fold_or_insert-IsSorted key p (e ∷ es) h = elim (Bool-cases (ltb e.0 key)) [
    | inl below ↦ rw below (
      Above-fold_or_insert e.0 key p es (ltb→lt e.0 key below) h.0,
      fold_or_insert-IsSorted key p es h.1,
    )
    | inr over ↦ elim (Bool-cases (e.0 == key)) [
      | inl here ↦ rw over (rw here h)
      | inr other ↦
          let l : key < e.0 = ground arith in
          rw over (rw other ((l, Above-trans e.0 key es l h.0), h))
    ]
  ]

  pub find_patch-fold_or_insert :
      (key j : ℕ) (p : Patch V D) (es : Entries V D)
      → IsSorted es
      → find_patch (fold_or_insert policy key p es) j
        ≡ (if key == j then some (fold_onto (find_patch es key) p) else find_patch es j)
  unfolding fold_or_insert
  find_patch-fold_or_insert key j p [] h =
      find_patch-cons (key, p) [] j (tt, tt) ∙ (unfold find_patch fold_onto in refl)
  find_patch-fold_or_insert key j p (e ∷ es) h = elim (Bool-cases (ltb e.0 key)) [
    | inl below ↦ rw below (
        find_patch-cons e (fold_or_insert policy key p es) j (
          Above-fold_or_insert e.0 key p es (ltb→lt e.0 key below) h.0,
          fold_or_insert-IsSorted key p es h.1,
        )
        ∙ ground (
          arith,
          find_patch-fold_or_insert key j p es h.1,
          find_patch-cons e es j h,
          find_patch-cons e es key h,
        ))
    | inr over ↦ elim (Bool-cases (e.0 == key)) [
      | inl here ↦ rw over (
          rw here (
            find_patch-cons (e.0, fold policy e.1 p) es j h
            ∙ (unfold fold_onto in
                ground (arith, find_patch-cons e es j h, find_patch-cons e es key h))))
      | inr other ↦
          let l : key < e.0 = ground arith in
          rw over (
            rw other (
              find_patch-cons (key, p) (e ∷ es) j ((l, Above-trans e.0 key es l h.0), h)
              ∙ (unfold fold_onto in
                  ground (arith, find_patch-cons e es key h, find_patch-Above es e.0 key h.0))))
    ]
  ]

  -- At an entry of the key itself, the two ways to record are one.
  pub fold_at-eq-fold_or_insert :
      (i key : ℕ) (p q : Patch V D) (es : Entries V D)
      → IsSorted es
      → get_elem? es i ≡ some (key, q)
      → fold_at policy i p es ≡ fold_or_insert policy key p es
  unfolding fold_at fold_or_insert
  fold_at-eq-fold_or_insert i key p q [] h g = cc
  fold_at-eq-fold_or_insert zero key p q (e ∷ es) h g = ground arith
  fold_at-eq-fold_or_insert (suc i) key p q (e ∷ es) h g =
      let l : e.0 < key = Above-get_elem? e.0 i key q es h.0 g in
      let below : ltb e.0 key ≡ true = lt→ltb e.0 key l in
      rw below (ap (λ t. e ∷ t) (fold_at-eq-fold_or_insert i key p q es h.1 g))
