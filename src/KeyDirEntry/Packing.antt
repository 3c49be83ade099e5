-- ===== src/KeyDirEntry/Packing.antt =====
-- The four fields of a packed entry do not overlap, and only fields that fit are packed.
use bytecaskdb.KeyDirEntry.{KeyDirEntry, pack, make, sequence, file_id, file_offset, value_size}
use bytecaskdb.Prelude.{
  ok, ok-injective, ℕ, ◌+◌, ◌*◌, ◌/◌, ◌%◌, ◌^◌, ◌<◌, ◌≡◌, sym, subst, ◌∙◌, arith, bit_or, ◌<<◌,
  bit_or-below, bit_and-mask,
}

-- The limits of the four fields.
pub record InLimits (s o f v : ℕ) : Type 0 where
  pub sequence_fits : s < 2 ^ 48
  pub offset_fits : o < 2 ^ 32
  pub file_id_fits : f < 2 ^ 20
  pub value_size_fits : v < 2 ^ 28

-- What the accessors read.
pub record Holds (e : KeyDirEntry) (s o f v : ℕ) : Type 0 where
  pub word0_fits : e.word0 < 2 ^ 64
  pub word1_fits : e.word1 < 2 ^ 64
  pub sequence_is : sequence e ≡ s
  pub offset_is : file_offset e ≡ o
  pub file_id_is : file_id e ≡ f
  pub value_size_is : value_size e ≡ v

word0-pack : (s o f v : ℕ) → InLimits s o f v → (pack s o f v).word0 ≡ s * 2 ^ 16 + f % 2 ^ 16
unfolding pack
word0-pack s o f v h =
    let whole : (s << 16) % 2 ^ 64 ≡ s << 16 = omega arith in
    rw whole (rw (bit_and-mask 16 f) (bit_or-below 16 s (f % 2 ^ 16) (omega arith)))

word1-pack :
    (s o f v : ℕ) → InLimits s o f v → (pack s o f v).word1 ≡ o * 2 ^ 32 + v * 2 ^ 4 + f / 2 ^ 16
unfolding pack
word1-pack s o f v h =
    let whole : (o << 32) % 2 ^ 64 ≡ o << 32 = omega arith in
    let size : (v << 4) % 2 ^ 64 ≡ v << 4 = omega arith in
    let fields : bit_or (o << 32) (v << 4) ≡ o * 2 ^ 32 + v * 2 ^ 4 =
      bit_or-below 32 o (v << 4) (omega arith) in
    let high : o * 2 ^ 32 + v * 2 ^ 4 ≡ (o * 2 ^ 28 + v) << 4 = omega arith in
    rw whole (
      rw size (
        rw fields
          (rw high (bit_or-below 4 (o * 2 ^ 28 + v) (f / 2 ^ 16) (omega arith) ∙ omega arith))))

unpack_file_id :
    (e : KeyDirEntry) (f : ℕ)
    → e.word1 % 2 ^ 4 ≡ f / 2 ^ 16
    → e.word0 % 2 ^ 16 ≡ f % 2 ^ 16
    → file_id e ≡ f
unfolding file_id
unpack_file_id e f high low =
    let fits : (e.word1 % 2 ^ 4 << 16) % 2 ^ 32 ≡ e.word1 % 2 ^ 4 << 16 = omega arith in
    rw (bit_and-mask 4 e.word1) (
      rw (bit_and-mask 16 e.word0) (
        rw fits (bit_or-below 16 (e.word1 % 2 ^ 4) (e.word0 % 2 ^ 16) (omega arith) ∙ omega arith)))

pack-Holds : (s o f v : ℕ) → InLimits s o f v → Holds (pack s o f v) s o f v
unfolding sequence file_offset value_size
pack-Holds s o f v h =
    let w₀ = word0-pack s o f v h in
    let w₁ = word1-pack s o f v h in
    record {
      word0_fits = omega (arith, w₀);
      word1_fits = omega (arith, w₁);
      sequence_is = omega (arith, w₀);
      offset_is = omega (arith, w₁);
      file_id_is = unpack_file_id (pack s o f v) f (omega (arith, w₁)) (omega (arith, w₀));
      value_size_is = rw (bit_and-mask 28 ((pack s o f v).word1 / 2 ^ 4)) (omega (arith, w₁));
    }

-- Fields within their limits are packed without an error.
pub make-InLimits : (s o f v : ℕ) → InLimits s o f v → make s o f v ≡ ok (pack s o f v)
unfolding make
make-InLimits s o f v h = ground arith

-- An entry that `make` gives was made of fields within their limits, its words fit 64 bits, and
-- the accessors give the four fields back.
pub make-eq-ok :
    (s o f v : ℕ) (e : KeyDirEntry) → make s o f v ≡ ok e → InLimits s o f v × Holds e s o f v
unfolding make
make-eq-ok s o f v e p =
    let limits : InLimits s o f v = record {
      sequence_fits = ground arith;
      offset_fits = ground arith;
      file_id_fits = ground arith;
      value_size_fits = ground arith;
    } in
    let same : pack s o f v ≡ e = ok-injective (sym (make-InLimits s o f v limits) ∙ p) in
    (limits, subst (λ x. Holds x s o f v) same (pack-Holds s o f v limits))
