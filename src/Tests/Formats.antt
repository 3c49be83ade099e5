-- ===== src/Tests/Formats.antt =====
-- Records of the data and hint files, with the sum of the bytes for the checksum.
use bytecaskdb.Format.Types.{
  is_change_marker, is_range_del, EntryType, encode_marker_id, decode_marker_id,
  is_known_entry_type, decode_marker_id-encode_marker_id,
}
use bytecaskdb.Format.Entry.{
  DataEntry, deserialize_entry, record_bytes, serialize_entry, write_header_and_crc,
}
use bytecaskdb.Format.Entry.RoundTrip.{
  IsWellFormed, deserialize_entry-serialize_entry, deserialize_entry-ne-out_of_range,
  serialize_entry-deserialize_entry,
}
use bytecaskdb.Format.Hint.RoundTrip.{
  Fits, deserialize_entry-serialize_change_marker_entry, deserialize_entry-serialize_plain_entry,
  deserialize_entry-serialize_range_del_entry,
}
use bytecaskdb.Format.Hint
use bytecaskdb.Format.Entry
use bytecaskdb.Format.Bytes.{IsByte, put, narrow, write_le}
use bytecaskdb.Tests.Fixtures.{byte_sum, sum_from}
use bytecaskdb.Prelude.{
  ltb, ltb→lt, length, All, out_of_range, ok, err, ok-injective, ℕ, ◌≡◌, refl, sym, subst, ◌∙◌, ◌≢◌,
  Bool, true, ◌&&◌, List, [], ◌∷◌, ◌++◌, arith,
}

abbrev sample : DataEntry
sample = record { sequence = 7; entry_type = EntryType.put; key = 1 ∷ 2 ∷ []; value = 3 ∷ [] }

sample-IsWellFormed : IsWellFormed sample
sample-IsWellFormed = record {
  sequence_fits = omega arith;
  known = unfold is_known_entry_type in refl;
  key_fits = omega arith;
  value_fits = omega arith;
  marker = λ h. absurd (unfold is_change_marker in cc h);
}

deserialize_entry-serialize_entry_example :
    (buf : List ℕ) × (serialize_entry byte_sum sample ≡ ok buf)
    × (deserialize_entry byte_sum buf ≡ ok sample)
    × (length buf ≡ record_bytes sample)
deserialize_entry-serialize_entry_example =
    deserialize_entry-serialize_entry byte_sum sample sample-IsWellFormed

decode_marker_id-encode_marker_id_example : decode_marker_id (encode_marker_id 1000) ≡ 1000
decode_marker_id-encode_marker_id_example = decode_marker_id-encode_marker_id 1000 (omega arith)

abbrev sample_record : List ℕ
sample_record =
    7 ∷ 0 ∷ 0 ∷ 0 ∷ 0 ∷ 0 ∷ 0 ∷ 0 ∷ 1 ∷ 2 ∷ 0 ∷ 1 ∷ 0 ∷ 0 ∷ 0 ∷ 1 ∷ 2 ∷ 3 ∷ 17 ∷ 0 ∷ 0 ∷ 0 ∷ []

abbrev all_below : List ℕ → Bool
all_below [] = true
all_below (b ∷ bs) = ltb b 256 && all_below bs

bytes_below : (bs : List ℕ) → all_below bs ≡ true → All IsByte bs
bytes_below [] h = tt
bytes_below (b ∷ bs) h = (ltb→lt b 256 (ground (arith, h)), bytes_below bs (ground (arith, h)))

sample_read : deserialize_entry byte_sum sample_record ≡ ok sample
unfolding Entry.write_header_and_crc bytecaskdb.Format.Bytes.narrow bytecaskdb.Format.Bytes.put
    bytecaskdb.Format.Bytes.write_le bytecaskdb.Format.Types.to_byte
    bytecaskdb.Tests.Fixtures.sum_from
sample_read =
    let (buf, written, read, size) = deserialize_entry-serialize_entry_example in
    let same : buf ≡ sample_record =
      ok-injective (sym written ∙ (unfold Entry.serialize_entry in refl)) in
    subst (λ b. deserialize_entry byte_sum b ≡ ok sample) same read

serialize_entry-deserialize_entry_example :
    IsWellFormed sample × (serialize_entry byte_sum sample ≡ ok sample_record)
serialize_entry-deserialize_entry_example =
    serialize_entry-deserialize_entry byte_sum sample_record sample (bytes_below sample_record refl)
      sample_read

deserialize_entry-ne-out_of_range_example :
    deserialize_entry byte_sum (7 ∷ 0 ∷ []) ≢ err out_of_range
deserialize_entry-ne-out_of_range_example = deserialize_entry-ne-out_of_range byte_sum (7 ∷ 0 ∷ [])

hint-Fits : Fits 7 EntryType.put 40 1 (1 ∷ 2 ∷ [])
hint-Fits = record {
  sequence_fits = omega arith;
  known = unfold is_known_entry_type in refl;
  offset_fits = omega arith;
  value_size_fits = omega arith;
  key_fits = omega arith;
}

deserialize_entry-serialize_plain_entry_example :
    (out : List ℕ) × (Hint.serialize_entry 7 EntryType.put 40 1 (1 ∷ 2 ∷ []) ≡ ok out)
    × (Hint.deserialize_entry (out ++ 9 ∷ [])
        ≡ ok (
          record {
            sequence = 7;
            entry_type = EntryType.put;
            file_offset = 40;
            key = 1 ∷ 2 ∷ [];
            value_size = 1;
            end_key = [];
            marker_id = 0;
          },
          length out,
        ))
deserialize_entry-serialize_plain_entry_example =
    deserialize_entry-serialize_plain_entry 7 EntryType.put 40 1 (1 ∷ 2 ∷ []) (9 ∷ []) hint-Fits
      (unfold is_range_del in refl) (unfold is_change_marker in refl)

deserialize_entry-serialize_range_del_entry_example :
    (out : List ℕ) × (Hint.serialize_range_del_entry 8 60 (1 ∷ []) (4 ∷ []) ≡ ok out)
    × (Hint.deserialize_entry (out ++ 9 ∷ [])
        ≡ ok (
          record {
            sequence = 8;
            entry_type = EntryType.range_del;
            file_offset = 60;
            key = 1 ∷ [];
            value_size = 1;
            end_key = 4 ∷ [];
            marker_id = 0;
          },
          length out,
        ))
deserialize_entry-serialize_range_del_entry_example =
    deserialize_entry-serialize_range_del_entry 8 60 (1 ∷ []) (4 ∷ []) (9 ∷ []) (omega arith)
      (omega arith) (omega arith) (omega arith)

abbrev marker_record : List ℕ
marker_record = Hint.serialize_change_marker_entry 9 80 1000

deserialize_entry-serialize_change_marker_entry_example :
    Hint.deserialize_entry (marker_record ++ 9 ∷ [])
    ≡ ok (
      record {
        sequence = 9;
        entry_type = EntryType.change_marker;
        file_offset = 80;
        key = [];
        value_size = 8;
        end_key = [];
        marker_id = 1000;
      },
      length marker_record,
    )
deserialize_entry-serialize_change_marker_entry_example =
    deserialize_entry-serialize_change_marker_entry 9 80 1000 (9 ∷ []) (omega arith) (omega arith)
      (omega arith)
