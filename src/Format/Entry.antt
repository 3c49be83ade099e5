-- ===== src/Format/Entry.antt =====
-- bytecaskdb/data_entry.cppm: the data file entry, its CRC and its checks.
mod Layout
mod Checks
pub mod RoundTrip
use bytecaskdb.Format.Bytes.{Crc32c, ByteWriter, new_writer, narrow, get, read_le, get_bytes}
use bytecaskdb.Format.Bytes
use bytecaskdb.Format.Types.{
  EntryType, to_byte, of_byte, is_known_entry_type, is_change_marker, change_marker_id_bytes,
}
use bytecaskdb.Prelude.{
  ltb, leb, ◌==◌, if◌then◌else◌, length, take, drop, too_small, unknown_type, malformed_marker,
  size_mismatch, crc_mismatch, Result, ok, ◌>>=◌, ◌>>◌, throw_if, ℕ, ◌+◌, ◌-◌, Bool, false, not,
  ◌&&◌, ◌||◌, List, ◌++◌,
}

pub record EntryHeader : Type 0 where
  pub sequence : ℕ
  pub entry_type : EntryType
  pub key_size : ℕ
  pub value_size : ℕ

-- `kHeaderSize` and `kCrcSize`
abbrev pub header_size : ℕ
header_size = 15

abbrev pub crc_size : ℕ
crc_size = 4

-- `kInlineValueBytes`
abbrev pub inline_value_bytes : ℕ
inline_value_bytes = 4096

-- `DataEntry`, and `DataEntryView`, which borrows its bytes
pub record DataEntry : Type 0 where
  pub sequence : ℕ
  pub entry_type : EntryType
  pub key : List ℕ
  pub value : List ℕ

-- The fields are read in order; what is left of the buffer is dropped.
unfoldable pub read_header : List ℕ → Result EntryHeader
read_header buf = do
  (sequence, r₁) ← get 8 buf
  (type_byte, r₂) ← get 1 r₁
  (key_size, r₃) ← get 2 r₂
  (value_size, _) ← get 4 r₃
  ok (record {
    sequence = sequence;
    entry_type = of_byte type_byte;
    key_size = key_size;
    value_size = value_size;
  })

unfoldable pub record_bytes : DataEntry → ℕ
record_bytes e = header_size + length e.key + length e.value + crc_size

unfoldable pub inline_bytes : DataEntry → ℕ
unfolding record_bytes
inline_bytes e =
    if leb (length e.value) inline_value_bytes
    then record_bytes e
    else record_bytes e - length e.value

module _ (c : Crc32c) where
  -- `hdr_crc`: the header and then the CRC of header, key and value. The CRC's own bytes are
  -- added to the CRC after it was read.
  unfoldable pub write_header_and_crc : DataEntry → Result (List ℕ)
  write_header_and_crc e = do
    let w₁ = Bytes.put c 8 e.sequence new_writer
    let w₂ = Bytes.put c 1 (to_byte e.entry_type) w₁
    key_size ← narrow 16 (length e.key)
    let w₃ = Bytes.put c 2 key_size w₂
    value_size ← narrow 32 (length e.value)
    let w₄ = Bytes.put c 4 value_size w₃
    let crc = c.extend (c.extend w₄.crc e.key) e.value
    let w₅ = Bytes.put c 4 crc w₄
    ok w₅.out

  unfoldable pub serialize_entry : DataEntry → Result (List ℕ)
  serialize_entry e = do
    hdr_crc ← write_header_and_crc e
    ok (take header_size hdr_crc ++ (e.key ++ (e.value ++ drop header_size hdr_crc)))

  unfoldable pub crc_matches : List ℕ → Result Bool
  crc_matches buf = if ltb (length buf) crc_size then ok false else do
    stored ← read_le 4 buf (length buf - crc_size)
    ok (c.extend 0 (take (length buf - crc_size) buf) == stored)

  unfoldable pub parse_header_and_verify : List ℕ → Result EntryHeader
  parse_header_and_verify buf = do
    throw_if (ltb (length buf) (header_size + crc_size)) too_small
    header ← read_header buf
    throw_if (not (is_known_entry_type header.entry_type)) unknown_type
    throw_if
        (is_change_marker header.entry_type
          && (not (header.key_size == 0) || not (header.value_size == change_marker_id_bytes)))
        malformed_marker
    throw_if (not (length buf == header_size + header.key_size + header.value_size + crc_size))
        size_mismatch
    matches ← crc_matches buf
    throw_if (not matches) crc_mismatch
    ok header

  unfoldable pub deserialize_entry : List ℕ → Result DataEntry
  deserialize_entry buf = do
    h ← parse_header_and_verify buf
    (key, r₁) ← get_bytes h.key_size (drop header_size buf)
    (value, _) ← get_bytes h.value_size r₁
    ok (record { sequence = h.sequence; entry_type = h.entry_type; key = key; value = value })
