-- ===== src/KeyDirEntry.antt =====
-- `KeyDirEntry` and `kde_newer` of bytecaskdb/internals.cppm: a key's location packed into two
-- 64-bit words, and the comparison by which recovery picks a key's owner.
pub mod Packing
pub mod Order
use bytecaskdb.Prelude.{
  ltb, ◌==◌, if◌then◌else◌, sequence_limit, file_id_limit, file_offset_limit, value_size_limit,
  sequence_overlap, duplicate_sequence, Result, ok, err, ◌>>◌, throw_if, ℕ, ◌-◌, ◌%◌, ◌^◌, Bool,
  false, not, bit_and, bit_or, ◌<<◌, ◌>>>◌,
}

pub record KeyDirEntry : Type 0 where
  pub word0 : ℕ
  pub word1 : ℕ

-- `kMaxSequence`, `kMaxFileId`, `kMaxFileOffset`, `kMaxValueSize`
abbrev pub max_sequence : ℕ
max_sequence = 2 ^ 48 - 1

abbrev pub max_file_id : ℕ
max_file_id = 2 ^ 20 - 1

abbrev pub max_file_offset : ℕ
max_file_offset = 2 ^ 32 - 1

abbrev pub max_value_size : ℕ
max_value_size = 2 ^ 28 - 1

unfoldable pub check_sequence : ℕ → Result (Unit {0})
check_sequence v = throw_if (ltb max_sequence v) sequence_limit

unfoldable pub check_file_id : ℕ → Result (Unit {0})
check_file_id v = throw_if (ltb max_file_id v) file_id_limit

unfoldable pub check_file_offset : ℕ → Result (Unit {0})
check_file_offset v = throw_if (ltb max_file_offset v) file_offset_limit

unfoldable pub check_value_size : ℕ → Result (Unit {0})
check_value_size v = throw_if (ltb max_value_size v) value_size_limit

-- The two words; a shift drops what passes bit 63.
unfoldable pub pack : ℕ → ℕ → ℕ → ℕ → KeyDirEntry
pack sequence file_offset file_id value_size = record {
  word0 = bit_or ((sequence << 16) % 2 ^ 64) (bit_and file_id (2 ^ 16 - 1));
  word1 =
      bit_or (bit_or ((file_offset << 32) % 2 ^ 64) ((value_size << 4) % 2 ^ 64)) (file_id >>> 16);
}

unfoldable pub make : ℕ → ℕ → ℕ → ℕ → Result KeyDirEntry
unfolding check_sequence check_file_id check_file_offset check_value_size
make sequence file_offset file_id value_size = do
  check_sequence sequence
  check_file_id file_id
  check_file_offset file_offset
  check_value_size value_size
  ok (pack sequence file_offset file_id value_size)

unfoldable pub sequence : KeyDirEntry → ℕ
sequence e = e.word0 >>> 16

unfoldable pub file_id : KeyDirEntry → ℕ
file_id e =
    let low = bit_and e.word0 (2 ^ 16 - 1) in
    let high = bit_and e.word1 (2 ^ 4 - 1) in bit_or ((high << 16) % 2 ^ 32) low

unfoldable pub file_offset : KeyDirEntry → ℕ
file_offset e = e.word1 >>> 32

unfoldable pub value_size : KeyDirEntry → ℕ
value_size e = bit_and (e.word1 >>> 4) (2 ^ 28 - 1)

-- Whether `a` is strictly newer than `b`.
unfoldable pub kde_newer : KeyDirEntry → KeyDirEntry → Result Bool
kde_newer a b =
    if not (sequence a == sequence b)
    then ok (ltb (sequence b) (sequence a))
    else if not (file_id a == file_id b)
    then err (sequence_overlap (file_id a) (file_id b))
    else if not (file_offset a == file_offset b)
    then err duplicate_sequence
    else ok false
