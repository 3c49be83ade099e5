-- ===== src/Format/Hint.antt =====
-- bytecaskdb/hint_entry.cppm: the compact entries that recovery reads in place of the data files.
pub mod RoundTrip
use bytecaskdb.Format.Bytes.{narrow, write_le, get, read_le, get_bytes}
use bytecaskdb.Format.Types.{
  EntryType, change_marker, range_del, to_byte, of_byte, is_change_marker, is_range_del,
  change_marker_id_bytes,
}
use bytecaskdb.Prelude.{
  ltb, ◌==◌, if◌then◌else◌, length, drop, malformed_marker, truncated_header, truncated_entry,
  truncated_end_key_len, truncated_end_key, truncated_marker_id, Result, ok, ◌>>=◌, ◌>>◌, throw_if,
  ℕ, ◌+◌, not, ◌||◌, List, [], ◌++◌,
}

-- `kHintHeaderSize`
abbrev pub hint_header_size : ℕ
hint_header_size = 23

pub record HintEntry : Type 0 where
  pub sequence : ℕ
  pub entry_type : EntryType
  pub file_offset : ℕ
  pub key : List ℕ
  pub value_size : ℕ
  pub end_key : List ℕ
  pub marker_id : ℕ

-- The header that each writer puts first.
unfoldable pub write_header : ℕ → EntryType → ℕ → ℕ → ℕ → List ℕ
write_header sequence entry_type file_offset value_size key_len =
    write_le 8 sequence
    ++ (write_le 1 (to_byte entry_type)
        ++ (write_le 8 file_offset ++ (write_le 4 value_size ++ write_le 2 key_len)))

unfoldable pub serialize_entry : ℕ → EntryType → ℕ → ℕ → List ℕ → Result (List ℕ)
serialize_entry sequence entry_type file_offset value_size key = do
  key_len ← narrow 16 (length key)
  ok (write_header sequence entry_type file_offset value_size key_len ++ key)

unfoldable pub serialize_range_del_entry : ℕ → ℕ → List ℕ → List ℕ → Result (List ℕ)
serialize_range_del_entry sequence file_offset start_key end_key = do
  value_size ← narrow 32 (length end_key)
  start_len ← narrow 16 (length start_key)
  end_len ← narrow 16 (length end_key)
  ok (
      write_header sequence range_del file_offset value_size start_len
      ++ (start_key ++ (write_le 2 end_len ++ end_key)))

unfoldable pub serialize_change_marker_entry : ℕ → ℕ → ℕ → List ℕ
serialize_change_marker_entry sequence file_offset id =
    write_header sequence change_marker file_offset change_marker_id_bytes 0 ++ write_le 8 id

-- The end key of a range tombstone, and where the entry ends.
unfoldable pub read_end_key : EntryType → List ℕ → ℕ → Result (List ℕ × ℕ)
read_end_key entry_type buf total =
    if is_range_del entry_type
    then (do
      throw_if (ltb (length buf) (total + 2)) truncated_end_key_len
      end_key_len ← read_le 2 buf total
      throw_if (ltb (length buf) (total + (2 + end_key_len))) truncated_end_key
      (end_key, _) ← get_bytes end_key_len (drop (total + 2) buf)
      ok (end_key, total + (2 + end_key_len)))
    else ok ([], total)

-- The id of a change marker, and where the entry ends.
unfoldable pub read_marker_id : EntryType → ℕ → ℕ → List ℕ → ℕ → Result (ℕ × ℕ)
read_marker_id entry_type key_len value_size buf total =
    if is_change_marker entry_type
    then (do
      throw_if (not (key_len == 0) || not (value_size == change_marker_id_bytes)) malformed_marker
      throw_if (ltb (length buf) (total + 8)) truncated_marker_id
      marker_id ← read_le 8 buf total
      ok (marker_id, total + 8))
    else ok (0, total)

-- The entry at the start of the buffer, and the bytes it takes.
unfoldable pub deserialize_entry : List ℕ → Result (HintEntry × ℕ)
deserialize_entry buf = do
  throw_if (ltb (length buf) hint_header_size) truncated_header
  (sequence, r₁) ← get 8 buf
  (type_byte, r₂) ← get 1 r₁
  (file_offset, r₃) ← get 8 r₂
  (value_size, r₄) ← get 4 r₃
  (key_len, _) ← get 2 r₄
  let entry_type = of_byte type_byte
  throw_if (ltb (length buf) (hint_header_size + key_len)) truncated_entry
  (key, _) ← get_bytes key_len (drop hint_header_size buf)
  (end_key, t₁) ← read_end_key entry_type buf (hint_header_size + key_len)
  (marker_id, t₂) ← read_marker_id entry_type key_len value_size buf t₁
  ok (
    record {
      sequence = sequence;
      entry_type = entry_type;
      file_offset = file_offset;
      key = key;
      value_size = value_size;
      end_key = end_key;
      marker_id = marker_id;
    },
    t₂,
  )
