-- ===== src/Tests/Files.antt =====
-- Data files of one and of two entries, with the sum of the bytes for the checksum: their sweeps, and the
-- hint file of one.
use bytecaskdb.Prelude.{
  All, ok, ℕ, ◌≡◌, refl, sym, subst, ◌↔◌, ◌⊎◌, true, false, List, [], ◌∷◌, ◌++◌, arith,
}
use bytecaskdb.KeyOrder.{key_lt}
use bytecaskdb.Format.Types.{EntryType, of_byte, is_known_entry_type, is_change_marker}
use bytecaskdb.Format.Bytes.{get, read_le, narrow}
use bytecaskdb.Format.Entry.{DataEntry, read_header, crc_matches, parse_header_and_verify}
use bytecaskdb.Format.Hint.{HintEntry}
use bytecaskdb.Recovery.Scan.{
  advance, committed, finished, header_damage, is_bulk_begin, item, record_damage, scan_committed,
  stop_on_damage, sweep, throw_on_damage, total_bytes, view_of,
}
use bytecaskdb.Recovery.Scan
use bytecaskdb.Recovery.Scan.Fuel.{sweep_fuel}
use bytecaskdb.Recovery.Hints.{
  StoredFile, flush_hints_for, gather, gather_entry, insert_staged, readable, sort_staged,
  staged_before,
}
use bytecaskdb.Recovery.Hints.Sorted.{AllCommitted, flush_hints_for-IsHint}
use bytecaskdb.Recovery.Undo.{is_compaction_of}
use bytecaskdb.Recovery.Undo.Compaction.{
  IsOrdered, IsSubOf, IsWhole, entries, is_compaction_of-decides,
}
use bytecaskdb.Recovery.Build.Heads.{IsHint}
use bytecaskdb.Tests.Fixtures.{byte_sum, sum_from}

abbrev pub entry_b : DataEntry
entry_b = record { sequence = 1; entry_type = EntryType.put; key = 98 ∷ []; value = 7 ∷ [] }

abbrev pub entry_a : DataEntry
entry_a = record { sequence = 2; entry_type = EntryType.put; key = 97 ∷ []; value = 8 ∷ [] }

abbrev pub bytes_b : List ℕ
bytes_b = 1 ∷ 0 ∷ 0 ∷ 0 ∷ 0 ∷ 0 ∷ 0 ∷ 0 ∷ 1 ∷ 1 ∷ 0 ∷ 1 ∷ 0 ∷ 0 ∷ 0 ∷ 98 ∷ 7 ∷ 109 ∷ 0 ∷ 0 ∷ 0 ∷ []

abbrev pub bytes_a : List ℕ
bytes_a = 2 ∷ 0 ∷ 0 ∷ 0 ∷ 0 ∷ 0 ∷ 0 ∷ 0 ∷ 1 ∷ 1 ∷ 0 ∷ 1 ∷ 0 ∷ 0 ∷ 0 ∷ 97 ∷ 8 ∷ 110 ∷ 0 ∷ 0 ∷ 0 ∷ []

abbrev pub bytes_both : List ℕ
bytes_both = bytes_b ++ bytes_a

pub scan_both :
    scan_committed byte_sum throw_on_damage bytes_both
    ≡ item entry_b 0 (item entry_a 21 (finished 42))
unfolding scan_committed Scan.sweep Scan.advance Scan.committed Scan.total_bytes Scan.header_damage
    Scan.view_of Scan.record_damage Scan.is_bulk_begin read_header get read_le of_byte
    is_known_entry_type is_change_marker crc_matches parse_header_and_verify sum_from
scan_both = refl

pub scan_a : scan_committed byte_sum throw_on_damage bytes_a ≡ item entry_a 0 (finished 21)
unfolding scan_committed Scan.sweep Scan.advance Scan.committed Scan.total_bytes Scan.header_damage
    Scan.view_of Scan.record_damage Scan.is_bulk_begin read_header get read_le of_byte
    is_known_entry_type is_change_marker crc_matches parse_header_and_verify sum_from
scan_a = refl

-- A preallocated tail of zeros ends the sweep.
scan_tail :
    scan_committed byte_sum stop_on_damage (bytes_a ++ 0 ∷ 0 ∷ []) ≡ item entry_a 0 (finished 21)
unfolding scan_committed Scan.sweep Scan.advance Scan.committed Scan.total_bytes Scan.header_damage
    Scan.view_of Scan.record_damage Scan.is_bulk_begin read_header get read_le of_byte
    is_known_entry_type is_change_marker crc_matches parse_header_and_verify sum_from
scan_tail = refl

sweep_fuel_example :
    Scan.sweep byte_sum 21 throw_on_damage 0 bytes_a
    ≡ Scan.sweep byte_sum 100 throw_on_damage 0 bytes_a
sweep_fuel_example =
    sweep_fuel byte_sum 21 100 throw_on_damage 0 bytes_a (omega arith) (omega arith)

abbrev pub file_a : StoredFile
file_a = record { name = 1 ∷ []; bytes = bytes_a; hint = readable [] }

abbrev pub file_both : StoredFile
file_both = record { name = 2 ∷ []; bytes = bytes_both; hint = readable [] }

IsWhole-both : IsWhole (scan_committed byte_sum throw_on_damage bytes_both)
IsWhole-both = subst IsWhole (sym scan_both) tt

IsWhole-a : IsWhole (scan_committed byte_sum throw_on_damage bytes_a)
IsWhole-a = subst IsWhole (sym scan_a) tt

IsOrdered-both : IsOrdered (scan_committed byte_sum throw_on_damage bytes_both)
IsOrdered-both = subst IsOrdered (sym scan_both) (unfold entries in ((omega arith, tt), (tt, tt)))

is_compaction_of-decides_example :
    ((is_compaction_of byte_sum file_a file_both ≡ ok true)
      × IsSubOf
          (entries (scan_committed byte_sum throw_on_damage bytes_a))
          (entries (scan_committed byte_sum throw_on_damage bytes_both)))
    ⊎ ((is_compaction_of byte_sum file_a file_both ≡ ok false)
        × (IsSubOf
              (entries (scan_committed byte_sum throw_on_damage bytes_a))
              (entries (scan_committed byte_sum throw_on_damage bytes_both))
            → ⊥))
is_compaction_of-decides_example =
    is_compaction_of-decides byte_sum file_a file_both IsWhole-a IsWhole-both IsOrdered-both

abbrev pub hint_a : HintEntry
hint_a = record {
  sequence = 2;
  entry_type = EntryType.put;
  file_offset = 21;
  key = 97 ∷ [];
  value_size = 1;
  end_key = [];
  marker_id = 0;
}

abbrev pub hint_b : HintEntry
hint_b = record {
  sequence = 1;
  entry_type = EntryType.put;
  file_offset = 0;
  key = 98 ∷ [];
  value_size = 1;
  end_key = [];
  marker_id = 0;
}

-- The run is by key, not by sequence.
pub flushed_both :
    flush_hints_for byte_sum throw_on_damage bytes_both ≡ ok (42, hint_a ∷ hint_b ∷ [])
unfolding flush_hints_for gather gather_entry sort_staged insert_staged staged_before key_lt narrow
flushed_both = rw scan_both refl

flush_hints_for-IsHint_example :
    IsHint (hint_a ∷ hint_b ∷ [])
    × ((P : HintEntry → Type 0)
        → AllCommitted P (scan_committed byte_sum throw_on_damage bytes_both)
          ↔ All P (hint_a ∷ hint_b ∷ []))
flush_hints_for-IsHint_example =
    flush_hints_for-IsHint byte_sum throw_on_damage bytes_both 42 (hint_a ∷ hint_b ∷ [])
      flushed_both
