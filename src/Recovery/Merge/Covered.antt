-- ===== src/Recovery/Merge/Covered.antt =====
-- Being covered by a newer range tombstone, as a proposition.
use bytecaskdb.Prelude.{
  ltb, Bool-cases, Any, ℕ, ◌<◌, ◌≡◌, ◌↔◌, inl, inr, true, false, List, [], ◌∷◌, arith, ◌&&◌,
}
use bytecaskdb.KeyOrder.{Bytes, key_lt}
use bytecaskdb.Recovery.Needed.{RangeTombstone, covers}
use bytecaskdb.Recovery.Merge.{is_suppressed}

-- Some range tombstone has a higher sequence, and the key lies in its range.
abbrev pub IsCovered : Bytes → ℕ → List RangeTombstone → Type 0
IsCovered key seq ranges =
    Any (λ rt. (seq < rt.seq) × (key_lt key rt.start ≡ false) × (key_lt key rt.end_ ≡ true)) ranges

covered :
    (key : Bytes) (seq : ℕ) (rts : List RangeTombstone)
    → is_suppressed key seq rts ≡ true
    → IsCovered key seq rts
unfolding is_suppressed covers
covered key seq [] h = absurd (cc h)
covered key seq (rt ∷ rts) h = elim (Bool-cases (ltb seq rt.seq && covers rt key)) [
  | inl here ↦ inl (ground (arith, here), ground (arith, here), ground (arith, here))
  | inr off ↦
      let later : is_suppressed key seq rts ≡ true = rw off at h in inr (covered key seq rts later)
]

suppressed :
    (key : Bytes) (seq : ℕ) (rts : List RangeTombstone)
    → IsCovered key seq rts
    → is_suppressed key seq rts ≡ true
unfolding is_suppressed covers
suppressed key seq [] h = absurd h
suppressed key seq (rt ∷ rts) (inl (over, low, high)) = ground (arith, over, low, high)
suppressed key seq (rt ∷ rts) (inr h) = ground (arith, suppressed key seq rts h)

pub is_suppressed-IsCovered :
    (key : Bytes) (seq : ℕ) (ranges : List RangeTombstone)
    → (is_suppressed key seq ranges ≡ true) ↔ IsCovered key seq ranges
is_suppressed-IsCovered key seq ranges = (covered key seq ranges, suppressed key seq ranges)
