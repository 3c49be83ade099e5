-- ===== src/Format/Types.antt =====
-- bytecaskdb/types.cppm: the entry types, the change markers and their ids.
use bytecaskdb.Format.Bytes.{write_le}
use bytecaskdb.Prelude.{
  ◌==◌, if◌then◌else◌, ℕ, zero, suc, ◌+◌, ◌*◌, ◌/◌, ◌^◌, ◌<◌, ◌≡◌, refl, Bool, true, false, List,
  [], ◌∷◌, arith,
}

-- `EntryType`. A byte read from storage is cast to it unchecked, so any other byte is a value too.
pub data EntryType : Type 0 where
  put delete bulk_begin bulk_end range_del change_marker : EntryType
  unknown : ℕ → EntryType

-- `static_cast<std::uint8_t>(t)`
unfoldable pub to_byte : EntryType → ℕ
to_byte put = 1
to_byte delete = 2
to_byte bulk_begin = 3
to_byte bulk_end = 4
to_byte range_del = 5
to_byte change_marker = 6
to_byte (unknown b) = b

-- `static_cast<EntryType>(b)`
unfoldable pub of_byte : ℕ → EntryType
of_byte b =
    if b == 1
    then put
    else if b == 2
    then delete
    else if b == 3
    then bulk_begin
    else if b == 4
    then bulk_end
    else if b == 5
    then range_del
    else if b == 6
    then change_marker
    else unknown b

unfoldable pub is_known_entry_type : EntryType → Bool
is_known_entry_type (unknown b) = false
is_known_entry_type _ = true

unfoldable pub is_change_marker : EntryType → Bool
is_change_marker change_marker = true
is_change_marker _ = false

unfoldable pub is_range_del : EntryType → Bool
is_range_del range_del = true
is_range_del _ = false

pub record ChangeMarker : Type 0 where
  pub since_sequence : ℕ
  pub id : ℕ

-- `kOriginMarker`
abbrev pub origin_marker : ChangeMarker
origin_marker = record { since_sequence = 0; id = 0 }

-- `kChangeMarkerIdBytes`
abbrev pub change_marker_id_bytes : ℕ
change_marker_id_bytes = 8

unfoldable pub encode_marker_id : ℕ → List ℕ
encode_marker_id id = write_le change_marker_id_bytes id

-- `decode_marker_id`: the loop stops at eight bytes or at the value's end.
decode_loop : ℕ → List ℕ → ℕ
decode_loop zero value = 0
decode_loop (suc n) [] = 0
decode_loop (suc n) (b ∷ value) = b + 256 * decode_loop n value

unfoldable pub decode_marker_id : List ℕ → ℕ
unfolding decode_loop
decode_marker_id value = decode_loop change_marker_id_bytes value

pub of_byte-to_byte : (t : EntryType) → is_known_entry_type t ≡ true → of_byte (to_byte t) ≡ t
unfolding of_byte to_byte is_known_entry_type
of_byte-to_byte (unknown b) h = cc
of_byte-to_byte _ h = refl

pub to_byte-of_byte : (b : ℕ) → to_byte (of_byte b) ≡ b
unfolding of_byte to_byte
to_byte-of_byte b = ground arith

pub to_byte_fits : (t : EntryType) → is_known_entry_type t ≡ true → to_byte t < 256
unfolding to_byte is_known_entry_type
to_byte_fits (unknown b) h = cc
to_byte_fits _ h = omega arith

decode_loop-write_le : (n v : ℕ) → v < 256 ^ n → decode_loop n (write_le n v) ≡ v
unfolding decode_loop write_le
decode_loop-write_le zero v h = omega arith
decode_loop-write_le (suc n) v h = omega (arith, decode_loop-write_le n (v / 256) (omega arith))

-- A 64-bit id survives its encoding.
pub decode_marker_id-encode_marker_id :
    (id : ℕ) → id < 2 ^ 64 → decode_marker_id (encode_marker_id id) ≡ id
unfolding decode_marker_id encode_marker_id
decode_marker_id-encode_marker_id id h = decode_loop-write_le 8 id (omega arith)
