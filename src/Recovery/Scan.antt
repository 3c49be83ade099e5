-- ===== src/Recovery/Scan.antt =====
-- The sweeps of a data file: `DataFileIterator` of bytecaskdb/data_file.cppm, which frames entries, and
-- `CommittedEntryIterator` of bytecaskdb/batch_iterator.cppm, which leaves out what no batch end
-- commits. A sweep is what it yields, in order, and how it ends, so a caller that stops early does
-- not meet the damage behind. Chunked reads are not modelled: the bytes are at hand.
pub mod Fuel
use bytecaskdb.Prelude.{
  ltb, ◌==◌, if◌then◌else◌, length, take, drop, Error, unknown_type, malformed_marker, crc_mismatch,
  ok, err, ℕ, zero, suc, ◌+◌, Bool, true, false, not, ◌&&◌, ◌||◌, Option, none, some, List, [], ◌∷◌,
  ◌++◌, marker_in_batch,
}
use bytecaskdb.Format.Bytes.{Crc32c}
use bytecaskdb.Format.Types.{
  EntryType, bulk_begin, bulk_end, is_known_entry_type, is_change_marker, change_marker_id_bytes,
}
use bytecaskdb.Format.Entry.{
  EntryHeader, DataEntry, header_size, crc_size, read_header, crc_matches, parse_header_and_verify,
}

-- `OnDamage`
pub data OnDamage : Type 0 where
  throw_on_damage stop_on_damage : OnDamage

unfoldable pub stops : OnDamage → Bool
stops throw_on_damage = false
stops stop_on_damage = true

-- The entries from a place in the file on, each with its offset and the offset past it.
pub data Sweep : Type 0 where
  ended : Sweep
  damaged : Error → Sweep
  entry : DataEntry → ℕ → ℕ → Sweep → Sweep

-- The committed entries, each with its offset. The end has `committed_offset()`.
pub data Committed : Type 0 where
  finished : ℕ → Committed
  failed : Error → Committed
  item : DataEntry → ℕ → Committed → Committed

unfoldable pub total_bytes : EntryHeader → ℕ
total_bytes h = header_size + h.key_size + h.value_size + crc_size

-- A header that is damage by itself.
unfoldable pub header_damage : EntryHeader → Option Error
header_damage h =
    if not (is_known_entry_type h.entry_type)
    then some unknown_type
    else if is_change_marker h.entry_type
        && (not (h.key_size == 0) || not (h.value_size == change_marker_id_bytes))
    then some malformed_marker
    else none

-- What is done at damage.
unfoldable pub at_damage : OnDamage → Error → Sweep
at_damage throw_on_damage e = damaged e
at_damage stop_on_damage e = ended

unfoldable pub view_of : EntryHeader → List ℕ → DataEntry
view_of h raw = record {
  sequence = h.sequence;
  entry_type = h.entry_type;
  key = take h.key_size (drop header_size raw);
  value = take h.value_size (drop (header_size + h.key_size) raw);
}

module _ (c : Crc32c) where
  -- The record's own check: stopping, a CRC that does not match ends the sweep; throwing, every
  -- check of the record is made.
  unfoldable pub record_damage : OnDamage → List ℕ → Option Error
  record_damage stop_on_damage raw = elim (crc_matches c raw) [
    | ok true ↦ none
    | ok false ↦ some crc_mismatch
    | err e ↦ some e
  ]
  record_damage throw_on_damage raw = elim (parse_header_and_verify c raw) [
    | ok _ ↦ none
    | err e ↦ some e
  ]

  -- `DataFileIterator::advance` after the header was read; `rest` is what the next advance gives.
  unfoldable pub advance : OnDamage → ℕ → List ℕ → EntryHeader → Sweep → Sweep
  unfolding total_bytes header_damage at_damage view_of record_damage
  advance on_damage offset bytes h rest =
      let total = total_bytes h in
      let raw = take total bytes in
      if h.sequence == 0 then ended else elim (header_damage h) [
        | some e ↦ at_damage on_damage e
        | none ↦ if ltb (length bytes) total then ended else elim (record_damage on_damage raw) [
          | some e ↦ at_damage on_damage e
          | none ↦ entry (view_of h raw) offset (offset + total) rest
        ]
      ]

  -- `DataFileIterator::advance`, repeated, on the bytes from `offset` on.
  unfoldable pub sweep : ℕ → OnDamage → ℕ → List ℕ → Sweep
  unfolding total_bytes advance
  sweep zero on_damage offset bytes = ended
  sweep (suc fuel) on_damage offset bytes =
      if ltb (length bytes) header_size then ended else elim (read_header bytes) [
        | err e ↦ damaged e
        | ok h ↦
            let total = total_bytes h in
            advance on_damage offset bytes h
              (sweep fuel on_damage (offset + total) (drop total bytes))
      ]

-- The slots staged so far are yielded, then what follows.
unfoldable pub yield : List (DataEntry × ℕ) → Committed → Committed
yield [] after = after
yield ((e, off) ∷ staged) after = item e off (yield staged after)

unfoldable pub is_bulk_begin : EntryType → Bool
is_bulk_begin bulk_begin = true
is_bulk_begin _ = false

unfoldable pub is_bulk_end : EntryType → Bool
is_bulk_end bulk_end = true
is_bulk_end _ = false

unfoldable mutual
  unfolding is_bulk_begin is_bulk_end stops yield

  -- `CommittedEntryIterator::advance`, repeated: `committed_offset` is past what was yielded.
  pub committed : OnDamage → ℕ → Sweep → Committed
  committed on_damage committed_offset ended = finished committed_offset
  committed on_damage committed_offset (damaged e) = failed e
  committed on_damage committed_offset (entry e off next rest) =
      let batch = in_batch on_damage committed_offset ((e, off) ∷ []) rest in
      let alone = committed on_damage next rest in
      if is_bulk_begin e.entry_type then batch else item e off alone

  -- The loop inside a batch, with what it has staged.
  pub in_batch : OnDamage → ℕ → List (DataEntry × ℕ) → Sweep → Committed
  in_batch on_damage committed_offset staged ended = finished committed_offset
  in_batch on_damage committed_offset staged (damaged e) = failed e
  in_batch on_damage committed_offset staged (entry e off next rest) =
      let all_staged = staged ++ (e, off) ∷ [] in
      let after = committed on_damage next rest in
      let more = in_batch on_damage committed_offset all_staged rest in
      if is_change_marker e.entry_type
      then (if stops on_damage then finished committed_offset else failed marker_in_batch)
      else if is_bulk_end e.entry_type
      then yield all_staged after
      else more

-- Each entry takes at least its header, so the file's length is fuel enough.
unfoldable pub scan_committed : Crc32c → OnDamage → List ℕ → Committed
unfolding sweep committed
scan_committed c on_damage bytes = committed on_damage 0 (sweep c (length bytes) on_damage 0 bytes)
