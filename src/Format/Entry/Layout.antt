-- ===== src/Format/Entry/Layout.antt =====
-- The bytes of an entry, field by field: what the header reader reads and the entry writer writes.
use bytecaskdb.Format.Bytes.{Crc32c, IsByte, write_le, get, put, put_bytes}
use bytecaskdb.Format.Bytes.Laws.{
  get-write_le, get-inverse, get-total, length-write_le, narrow_fits,
}
use bytecaskdb.Format.Types.{EntryType, to_byte, of_byte, to_byte-of_byte, is_known_entry_type}
use bytecaskdb.Format.Types.{of_byte-to_byte, to_byte_fits}
use bytecaskdb.Format.Entry.{
  EntryHeader, DataEntry, header_size, read_header, write_header_and_crc, serialize_entry,
}
use bytecaskdb.Prelude.{
  length, All, length-append, ok, >>=-eq-ok, ok-injective, ℕ, ◌+◌, ◌^◌, ◌≤◌, ◌<◌, ◌≡◌, refl, subst,
  true, List, ◌++◌, append_assoc, arith,
}

-- A header with these fields, and then `rest`.
unfoldable pub header_onto : ℕ → ℕ → ℕ → ℕ → List ℕ → List ℕ
header_onto s t k v rest =
    write_le 8 s ++ (write_le 1 t ++ (write_le 2 k ++ (write_le 4 v ++ rest)))

pub header_onto-append :
    (s t k v : ℕ) (a b : List ℕ) → header_onto s t k v a ++ b ≡ header_onto s t k v (a ++ b)
unfolding header_onto
header_onto-append s t k v a b = simp append_assoc

pub length-header_onto :
    (s t k v : ℕ) (rest : List ℕ) → length (header_onto s t k v rest) ≡ 15 + length rest
unfolding header_onto
length-header_onto s t k v rest = simp (length-append, length-write_le) (omega arith)

pub read_header-header_onto :
    (s : ℕ) (t : EntryType) (k v : ℕ) (rest : List ℕ)
    → s < 2 ^ 64
    → is_known_entry_type t ≡ true
    → k < 2 ^ 16
    → v < 2 ^ 32
    → read_header (header_onto s (to_byte t) k v rest)
      ≡ ok (record { sequence = s; entry_type = t; key_size = k; value_size = v })
unfolding read_header header_onto
read_header-header_onto s t k v rest hs ht hk hv = rw (get-write_le 8 s _ (omega arith)) (
    rw (get-write_le 1 (to_byte t) _ (omega (arith, to_byte_fits t ht))) (
      rw (get-write_le 2 k _ (omega arith))
        (rw (get-write_le 4 v _ (omega arith)) (rw (of_byte-to_byte t ht)))))

-- The buffer starts with the header `h`, whose fields fit.
pub record ReadsHeader (buf : List ℕ) (h : EntryHeader) : Type 0 where
  pub rest : List ℕ
  pub starts : buf ≡ header_onto h.sequence (to_byte h.entry_type) h.key_size h.value_size rest
  pub sequence_fits : h.sequence < 2 ^ 64
  pub key_size_fits : h.key_size < 2 ^ 16
  pub value_size_fits : h.value_size < 2 ^ 32
  pub rest_bytes : All IsByte rest

header_parts :
    (buf r₁ r₂ r₃ r₄ : List ℕ) (s t k v : ℕ)
    → buf ≡ write_le 8 s ++ r₁
    → r₁ ≡ write_le 1 t ++ r₂
    → r₂ ≡ write_le 2 k ++ r₃
    → r₃ ≡ write_le 4 v ++ r₄
    → buf ≡ header_onto s (to_byte (of_byte t)) k v r₄
unfolding header_onto
header_parts buf r₁ r₂ r₃ r₄ s t k v i₁ i₂ i₃ i₄ = cc (to_byte-of_byte t)

pub read_header-inverse :
    (buf : List ℕ) (h : EntryHeader) → All IsByte buf → read_header buf ≡ ok h → ReadsHeader buf h
unfolding read_header
read_header-inverse buf h bytes e =
    let ((s, r₁), p₁, e₁) = >>=-eq-ok (get 8 buf) _ e in
    let ((t, r₂), p₂, e₂) = >>=-eq-ok (get 1 r₁) _ e₁ in
    let ((k, r₃), p₃, e₃) = >>=-eq-ok (get 2 r₂) _ e₂ in
    let ((v, r₄), p₄, e₄) = >>=-eq-ok (get 4 r₃) _ e₃ in
    let (i₁, f₁, b₁) = get-inverse 8 buf s r₁ bytes p₁ in
    let (i₂, f₂, b₂) = get-inverse 1 r₁ t r₂ b₁ p₂ in
    let (i₃, f₃, b₃) = get-inverse 2 r₂ k r₃ b₂ p₃ in
    let (i₄, f₄, b₄) = get-inverse 4 r₃ v r₄ b₃ p₄ in
    subst (ReadsHeader buf) (ok-injective e₄) (record {
      rest = r₄;
      starts = header_parts buf r₁ r₂ r₃ r₄ s t k v i₁ i₂ i₃ i₄;
      sequence_fits = omega arith;
      key_size_fits = omega arith;
      value_size_fits = omega arith;
      rest_bytes = b₄;
    })

pub read_header-total :
    (buf : List ℕ) → header_size ≤ length buf → (h : EntryHeader) × (read_header buf ≡ ok h)
unfolding read_header
read_header-total buf h =
    let (s, r₁, e₁, l₁) = get-total 8 buf (omega arith) in
    let (t, r₂, e₂, l₂) = get-total 1 r₁ (omega arith) in
    let (k, r₃, e₃, l₃) = get-total 2 r₂ (omega arith) in
    let (v, r₄, e₄, l₄) = get-total 4 r₃ (omega arith) in
    (
      record { sequence = s; entry_type = of_byte t; key_size = k; value_size = v },
      rw e₁ (rw e₂ (rw e₃ (rw e₄))),
    )

module _ (c : Crc32c) where
  -- The CRC that an entry with header `header` carries.
  unfoldable pub entry_crc : DataEntry → ℕ
  entry_crc e = c.extend 0 (
      header_onto e.sequence (to_byte e.entry_type) (length e.key) (length e.value)
        (e.key ++ e.value))

  -- The record of an entry: header, key, value and CRC.
  unfoldable pub record_layout : DataEntry → List ℕ
  record_layout e =
      header_onto e.sequence (to_byte e.entry_type) (length e.key) (length e.value)
        (e.key ++ (e.value ++ write_le 4 (entry_crc e)))

  pub write_header_and_crc-layout :
      (e : DataEntry)
      → length e.key < 2 ^ 16
      → length e.value < 2 ^ 32
      → write_header_and_crc c e
        ≡ ok (
            header_onto e.sequence
              (to_byte e.entry_type)
              (length e.key)
              (length e.value)
              (write_le 4 (entry_crc e)))
  unfolding write_header_and_crc put put_bytes entry_crc header_onto
  write_header_and_crc-layout e hk hv =
      rw (narrow_fits 16 (length e.key) hk)
        (rw (narrow_fits 32 (length e.value) hv) (simp (c.extend-append, append_assoc)))

  pub serialize_entry-layout :
      (e : DataEntry)
      → length e.key < 2 ^ 16
      → length e.value < 2 ^ 32
      → serialize_entry c e ≡ ok (record_layout e)
  unfolding serialize_entry record_layout
  serialize_entry-layout e hk hv =
      rw (write_header_and_crc-layout e hk hv) (unfold header_onto write_le in refl)
