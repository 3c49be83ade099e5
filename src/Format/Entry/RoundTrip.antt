-- ===== src/Format/Entry/RoundTrip.antt =====
-- `serialize_entry` and `deserialize_entry` are inverse to one another.
use bytecaskdb.Format.Bytes.{Crc32c, IsByte, write_le}
use bytecaskdb.Format.Bytes.Laws.{length-write_le, get_bytes-append, get_bytes-total}
use bytecaskdb.Format.Types.{to_byte, is_known_entry_type}
use bytecaskdb.Format.Entry.{
  EntryHeader, DataEntry, header_size, record_bytes, serialize_entry, deserialize_entry,
  parse_header_and_verify,
}
use bytecaskdb.Format.Entry.Layout.{
  header_onto, header_onto-append, length-header_onto, read_header-header_onto, read_header-inverse,
  entry_crc, record_layout, serialize_entry-layout,
}
use bytecaskdb.Format.Entry.Checks.{
  MarkerShape, Verified, Verified-parse, crc_matches-append, crc_matches-inverse,
  parse_header_and_verify-inverse, parse_header_and_verify-ne-out_of_range,
}
use bytecaskdb.Prelude.{
  ==-refl, length, take, drop, All, length-append, take-append-drop, length-take, length-drop,
  append-injective, Error, out_of_range, ok, err, Result-cases, ok-injective, ℕ, ◌+◌, ◌^◌, ◌<◌, ◌≡◌,
  refl, sym, ap, subst, ◌∙◌, ◌≢◌, inl, inr, true, List, ◌++◌, append_assoc, arith,
}

-- An entry that the format can hold.
pub record IsWellFormed (e : DataEntry) : Type 0 where
  pub sequence_fits : e.sequence < 2 ^ 64
  pub known : is_known_entry_type e.entry_type ≡ true
  pub key_fits : length e.key < 2 ^ 16
  pub value_fits : length e.value < 2 ^ 32
  pub marker : MarkerShape e.entry_type (length e.key) (length e.value)

abbrev header_of : DataEntry → EntryHeader
header_of e = record {
  sequence = e.sequence;
  entry_type = e.entry_type;
  key_size = length e.key;
  value_size = length e.value;
}

drop-header_onto :
    (s t k v : ℕ) (rest : List ℕ) → drop header_size (header_onto s t k v rest) ≡ rest
unfolding header_onto write_le
drop-header_onto s t k v rest = refl

module _ (c : Crc32c) where
  record_layout-body :
      (e : DataEntry)
      → record_layout c e
        ≡ header_onto e.sequence
            (to_byte e.entry_type)
            (length e.key)
            (length e.value)
            (e.key ++ e.value)
          ++ write_le 4 (entry_crc c e)
  unfolding record_layout
  record_layout-body e = rw header_onto-append (rw append_assoc)

  record_layout-around :
      (e : DataEntry) (body : List ℕ)
      → body
        ≡ header_onto e.sequence
            (to_byte e.entry_type)
            (length e.key)
            (length e.value)
            (e.key ++ e.value)
      → record_layout c e ≡ body ++ write_le 4 (c.extend 0 body)
  unfolding entry_crc
  record_layout-around e body b =
      record_layout-body e ∙ ap (λ x. x ++ write_le 4 (c.extend 0 x)) (sym b)

  length-record_layout : (e : DataEntry) → length (record_layout c e) ≡ record_bytes e
  unfolding record_layout record_bytes
  length-record_layout e = simp (length-header_onto, length-append, length-write_le) (omega arith)

  record_layout-Verified :
      (e : DataEntry) → IsWellFormed e → Verified c (record_layout c e) (header_of e)
  record_layout-Verified e w = record {
    header =
        unfold record_layout in
        read_header-header_onto e.sequence e.entry_type (length e.key) (length e.value) _
          w.sequence_fits w.known w.key_fits w.value_fits;
    known = w.known;
    marker = w.marker;
    size = rw (length-record_layout e) (unfold record_bytes in refl);
    matches = rw (record_layout-body e) (
        crc_matches-append c _ (entry_crc c e) (unfold entry_crc in c.extend_fits 0 _)
        ∙ ap ok (unfold entry_crc in ==-refl (entry_crc c e)));
  }

  -- Every well-formed entry is written, as a record of `record_bytes` bytes that reads back as it.
  pub deserialize_entry-serialize_entry :
      (e : DataEntry)
      → IsWellFormed e
      → (buf : List ℕ) × (serialize_entry c e ≡ ok buf)
        × (deserialize_entry c buf ≡ ok e)
        × (length buf ≡ record_bytes e)
  unfolding deserialize_entry
  deserialize_entry-serialize_entry e w = (
    record_layout c e,
    serialize_entry-layout c e w.key_fits w.value_fits,
    rw (Verified-parse c (record_layout c e) (header_of e) (record_layout-Verified e w))
        (unfold record_layout in rw drop-header_onto (rw get_bytes-append (rw get_bytes-append))),
    length-record_layout e,
  )

  -- The entry that a verified buffer holds.
  abbrev entry_of : List ℕ → EntryHeader → DataEntry
  entry_of buf h =
      let r : List ℕ = drop header_size buf in
      record {
        sequence = h.sequence;
        entry_type = h.entry_type;
        key = take h.key_size r;
        value = take h.value_size (drop h.key_size r);
      }

  deserialize_entry-Verified :
      (buf : List ℕ) (h : EntryHeader)
      → parse_header_and_verify c buf ≡ ok h
      → deserialize_entry c buf ≡ ok (entry_of buf h)
  unfolding deserialize_entry
  deserialize_entry-Verified buf h p =
      let v = parse_header_and_verify-inverse c buf h p in
      let r : List ℕ = drop header_size buf in
      rw p (
        rw (get_bytes-total h.key_size r (omega (arith, v.size, length-drop header_size buf))) (
          rw (
            get_bytes-total h.value_size (drop h.key_size r)
              (omega (arith, v.size, length-drop header_size buf, length-drop h.key_size r)))))

  deserialize_entry-parse_err :
      (buf : List ℕ) (x : Error)
      → parse_header_and_verify c buf ≡ err x
      → deserialize_entry c buf ≡ err x
  unfolding deserialize_entry
  deserialize_entry-parse_err buf x p = rw p

  -- The two splits of a verified buffer, after the header and before the CRC, agree.
  splits_agree :
      (buf body r : List ℕ) (s t k v : ℕ)
      → buf ≡ header_onto s t k v r
      → buf ≡ body ++ write_le 4 (c.extend 0 body)
      → length r ≡ k + v + 4
      → (body ≡ header_onto s t k v (take k r ++ take v (drop k r)))
        × (length (take k r) ≡ k)
        × (length (take v (drop k r)) ≡ v)
  splits_agree buf body r s t k v i j n =
      let a = take k r in
      let b = take v (drop k r) in
      let z = drop v (drop k r) in
      let crc = write_le 4 (c.extend 0 body) in
      let parts : (a ++ b) ++ z ≡ r =
        append_assoc a b z
        ∙ ap (λ (x : List ℕ). a ++ x) (take-append-drop v (drop k r))
        ∙ take-append-drop k r in
      let whole : body ++ crc ≡ header_onto s t k v (a ++ b) ++ z =
        sym j
        ∙ i
        ∙ ap (header_onto s t k v) (sym parts)
        ∙ sym (header_onto-append s t k v (a ++ b) z) in
      let la : length a ≡ k = omega (arith, length-take k r) in
      let ld : length (drop k r) ≡ v + 4 = omega (arith, length-drop k r) in
      let lb : length b ≡ v = omega (arith, length-take v (drop k r)) in
      let lz : length z ≡ 4 = omega (arith, length-drop v (drop k r)) in
      let same : length body ≡ length (header_onto s t k v (a ++ b)) = omega (
        arith,
        ap length whole,
        length-append body crc,
        length-write_le 4 (c.extend 0 body),
        length-append (header_onto s t k v (a ++ b)) z,
      ) in
      ((append-injective body crc (header_onto s t k v (a ++ b)) z whole same).0, la, lb)

  record_layout-Verified_entry :
      (buf : List ℕ) (h : EntryHeader)
      → All IsByte buf
      → Verified c buf h
      → IsWellFormed (entry_of buf h) × (record_layout c (entry_of buf h) ≡ buf)
  record_layout-Verified_entry buf h bytes v =
      let m = read_header-inverse buf h bytes v.header in
      let r : List ℕ = drop header_size buf in
      let at_rest : r ≡ m.rest =
        ap (drop header_size) m.starts
        ∙ drop-header_onto h.sequence (to_byte h.entry_type) h.key_size h.value_size m.rest in
      let starts =
        subst (λ x. buf ≡ header_onto h.sequence (to_byte h.entry_type) h.key_size h.value_size x)
          (sym at_rest) m.starts in
      let (body, ends) = crc_matches-inverse c buf bytes v.matches in
      let (eb, ek, ev) =
        splits_agree buf body r h.sequence (to_byte h.entry_type) h.key_size h.value_size starts
          ends (omega (arith, v.size, length-drop header_size buf)) in
      (
        record {
          sequence_fits = m.sequence_fits;
          known = v.known;
          key_fits = rw ek m.key_size_fits;
          value_fits = rw ev m.value_size_fits;
          marker = rw (ek, ev) v.marker;
        },
        record_layout-around (entry_of buf h) body (rw (ek, ev) eb) ∙ sym ends,
      )

  -- A buffer of bytes that is accepted is, byte for byte, the record that the writer makes of what
  -- was read, and what was read is well formed.
  pub serialize_entry-deserialize_entry :
      (buf : List ℕ) (e : DataEntry)
      → All IsByte buf
      → deserialize_entry c buf ≡ ok e
      → IsWellFormed e × (serialize_entry c e ≡ ok buf)
  serialize_entry-deserialize_entry buf e bytes d =
      elim (Result-cases (parse_header_and_verify c buf)) [
        | inl (h, p) ↦
            let (w, l) =
              record_layout-Verified_entry buf h bytes
                (parse_header_and_verify-inverse c buf h p) in
            subst (λ x. IsWellFormed x × (serialize_entry c x ≡ ok buf))
              (ok-injective (sym (deserialize_entry-Verified buf h p) ∙ d))
              (w, serialize_entry-layout c _ w.key_fits w.value_fits ∙ ap ok l)
        | inr (x, p) ↦ cc (deserialize_entry-parse_err buf x p)
      ]

  -- Whatever the buffer, reading an entry never reads outside it.
  pub deserialize_entry-ne-out_of_range :
      (buf : List ℕ) → deserialize_entry c buf ≢ err out_of_range
  deserialize_entry-ne-out_of_range buf e = elim (Result-cases (parse_header_and_verify c buf)) [
    | inl (h, p) ↦ cc (deserialize_entry-Verified buf h p)
    | inr (x, p) ↦
        parse_header_and_verify-ne-out_of_range c buf (cc (deserialize_entry-parse_err buf x p))
  ]
