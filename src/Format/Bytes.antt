-- ===== src/Format/Bytes.antt =====
-- bytecaskdb/serialization.cppm, and `narrow` and `Crc32` of bytecaskdb/util.cppm.
-- A byte is a number below 256 and a span a list of bytes. A reader is the list of the bytes that
-- it has not read. A writer is the list of the bytes it has written, with the state of its CRC.
pub mod Laws
use bytecaskdb.Prelude.{
  ltb, if◌then◌else◌, length, take, drop, out_of_range, narrowing, Result, ok, err, ◌>>=◌, ℕ, zero,
  suc, ◌+◌, ◌*◌, ◌/◌, ◌%◌, ◌^◌, ◌<◌, ◌≡◌, List, [], ◌∷◌, ◌++◌,
}

abbrev pub IsByte : ℕ → Type 0
IsByte b = b < 256

-- `narrow<To>` to an unsigned integer of `bits` bits.
unfoldable pub narrow : ℕ → ℕ → Result ℕ
narrow bits value = if ltb value (2 ^ bits) then ok value else err narrowing

-- `write_le`: the low `w` bytes of `v`, lowest first.
unfoldable pub write_le : ℕ → ℕ → List ℕ
write_le zero v = []
write_le (suc w) v = (v % 256) ∷ write_le w (v / 256)

-- `ByteReader::get` of an integer of `w` bytes: byte i is worth `2 ^ (8 * i)`.
unfoldable pub get : ℕ → List ℕ → Result (ℕ × List ℕ)
get zero rest = ok (0, rest)
get (suc w) [] = err out_of_range
get (suc w) (b ∷ rest) = do (v, after) ← get w rest; ok (b + 256 * v, after)

-- `read_le`, which starts at `offset`.
unfoldable pub read_le : ℕ → List ℕ → ℕ → Result ℕ
read_le w buf offset = do (v, _) ← get w (drop offset buf); ok v

-- `ByteReader::get_bytes`; `subspan` past the end is undefined.
unfoldable pub get_bytes : ℕ → List ℕ → Result (List ℕ × List ℕ)
get_bytes n rest = if ltb (length rest) n then err out_of_range else ok (take n rest, drop n rest)

-- google/crc32c, which the sources call: `Extend(state, bytes)`.
pub record Crc32c : Type 0 where
  pub extend : ℕ → List ℕ → ℕ
  -- feeding two chunks one after the other is feeding them joined
  pub extend-append : (s : ℕ) (a b : List ℕ) → extend (extend s a) b ≡ extend s (a ++ b)
  -- a state is a `uint32_t`
  pub extend_fits : (s : ℕ) (a : List ℕ) → extend s a < 2 ^ 32

pub record ByteWriter : Type 0 where
  pub out : List ℕ
  pub crc : ℕ

abbrev pub new_writer : ByteWriter
new_writer = record { out = []; crc = 0 }

module _ (c : Crc32c) where
  unfoldable pub put_bytes : List ℕ → ByteWriter → ByteWriter
  put_bytes bytes w = record { out = w.out ++ bytes; crc = c.extend w.crc bytes }

  -- `ByteWriter::put` of an integer of `n` bytes
  unfoldable pub put : ℕ → ℕ → ByteWriter → ByteWriter
  unfolding put_bytes
  put n v w = put_bytes (write_le n v) w
