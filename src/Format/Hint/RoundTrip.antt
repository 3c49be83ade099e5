-- ===== src/Format/Hint/RoundTrip.antt =====
-- A hint entry reads back as what was written, whatever follows it.
use bytecaskdb.Format.Bytes.{write_le, get, get_bytes}
use bytecaskdb.Format.Bytes.Laws.{get-write_le, length-write_le, narrow_fits}
use bytecaskdb.Format.Bytes.Laws.{get_bytes-append, read_le-append}
use bytecaskdb.Format.Types.{
  EntryType, change_marker, range_del, to_byte, of_byte, is_known_entry_type, is_change_marker,
  is_range_del, of_byte-to_byte, to_byte_fits,
}
use bytecaskdb.Format.Hint.{
  write_header, serialize_entry, serialize_range_del_entry, serialize_change_marker_entry,
  read_end_key, read_marker_id, deserialize_entry,
}
use bytecaskdb.Prelude.{
  ltb, length, drop, length-append, drop-append, ok, ℕ, ◌+◌, ◌^◌, ◌≤◌, ◌<◌, ◌≡◌, refl, true, false,
  List, [], ◌++◌, append_assoc, arith,
}

length-write_header : (s : ℕ) (t : EntryType) (o v k : ℕ) → length (write_header s t o v k) ≡ 23
unfolding write_header
length-write_header s t o v k = simp (length-append, length-write_le) refl

-- The numbers that the header's fields hold.
pub record Fits (s : ℕ) (t : EntryType) (o v : ℕ) (key : List ℕ) : Type 0 where
  pub sequence_fits : s < 2 ^ 64
  pub known : is_known_entry_type t ≡ true
  pub offset_fits : o < 2 ^ 64
  pub value_size_fits : v < 2 ^ 32
  pub key_fits : length key < 2 ^ 16

-- Past the header and the key, only the trailers are left to read.
deserialize_entry_parts :
    (s : ℕ) (t : EntryType) (o v k t₁ t₂ marker_id : ℕ) (buf r₁ r₂ r₃ r₄ r₅ r₆ key end_key : List ℕ)
    → 23 + k ≤ length buf
    → get 8 buf ≡ ok (s, r₁)
    → get 1 r₁ ≡ ok (to_byte t, r₂)
    → get 8 r₂ ≡ ok (o, r₃)
    → get 4 r₃ ≡ ok (v, r₄)
    → get 2 r₄ ≡ ok (k, r₅)
    → of_byte (to_byte t) ≡ t
    → get_bytes k (drop 23 buf) ≡ ok (key, r₆)
    → read_end_key t buf (23 + k) ≡ ok (end_key, t₁)
    → read_marker_id t k v buf t₁ ≡ ok (marker_id, t₂)
    → deserialize_entry buf
      ≡ ok (
        record {
          sequence = s;
          entry_type = t;
          file_offset = o;
          key = key;
          value_size = v;
          end_key = end_key;
          marker_id = marker_id;
        },
        t₂,
      )
unfolding deserialize_entry
deserialize_entry_parts s t o v k t₁ t₂ m buf r₁ r₂ r₃ r₄ r₅ r₆ key end_key n g₁ g₂ g₃ g₄ g₅ ty b e
      i =
    let small : ltb (length buf) 23 ≡ false = ground arith in
    let short : ltb (length buf) (23 + k) ≡ false = ground arith in
    rw small (rw g₁ (rw g₂ (rw g₃ (rw g₄ (rw g₅ (rw short (rw b (rw ty (rw e (rw i))))))))))

write_header-append :
    (s : ℕ) (t : EntryType) (o v k : ℕ) (rest : List ℕ)
    → write_header s t o v k ++ rest
      ≡ write_le 8 s
        ++ (write_le 1 (to_byte t) ++ (write_le 8 o ++ (write_le 4 v ++ (write_le 2 k ++ rest))))
unfolding write_header
write_header-append s t o v k rest = simp append_assoc

deserialize_entry-write_header :
    (s : ℕ) (t : EntryType) (o v : ℕ) (key rest end_key : List ℕ) (t₁ t₂ marker_id : ℕ)
    → Fits s t o v key
    → read_end_key t (write_header s t o v (length key) ++ (key ++ rest)) (23 + length key)
      ≡ ok (end_key, t₁)
    → read_marker_id t (length key) v (write_header s t o v (length key) ++ (key ++ rest)) t₁
      ≡ ok (marker_id, t₂)
    → deserialize_entry (write_header s t o v (length key) ++ (key ++ rest))
      ≡ ok (
        record {
          sequence = s;
          entry_type = t;
          file_offset = o;
          key = key;
          value_size = v;
          end_key = end_key;
          marker_id = marker_id;
        },
        t₂,
      )
deserialize_entry-write_header s t o v key rest end_key t₁ t₂ m f e i =
    let k = length key in
    let header = write_header s t o v k in
    deserialize_entry_parts s t o v k t₁ t₂ m (header ++ (key ++ rest))
      (write_le 1 (to_byte t)
        ++ (write_le 8 o ++ (write_le 4 v ++ (write_le 2 k ++ (key ++ rest)))))
      (write_le 8 o ++ (write_le 4 v ++ (write_le 2 k ++ (key ++ rest))))
      (write_le 4 v ++ (write_le 2 k ++ (key ++ rest))) (write_le 2 k ++ (key ++ rest))
      (key ++ rest) rest key end_key
      (omega (
        arith,
        length-append header (key ++ rest),
        length-write_header s t o v k,
        length-append key rest,
      ))
      (rw (write_header-append s t o v k (key ++ rest)) (get-write_le 8 s _ (omega arith)))
      (get-write_le 1 (to_byte t) _ (omega (arith, to_byte_fits t f.known)))
      (get-write_le 8 o _ (omega arith)) (get-write_le 4 v _ (omega arith))
      (get-write_le 2 k _ (omega arith)) (of_byte-to_byte t f.known)
      (rw (drop-append 23 header (key ++ rest) (length-write_header s t o v k))
        (get_bytes-append key rest))
      e i

-- The trailers, behind a front of the length that the reader expects.
read_end_key-append :
    (n : ℕ) (front end_key more : List ℕ)
    → length front ≡ n
    → length end_key < 2 ^ 16
    → read_end_key range_del (front ++ (write_le 2 (length end_key) ++ (end_key ++ more))) n
      ≡ ok (end_key, n + (2 + length end_key))
unfolding read_end_key is_range_del
read_end_key-append n front b more l h =
    let w = write_le 2 (length b) in
    let total : n + 2 + length b ≤ length (front ++ (w ++ (b ++ more))) = omega (
      arith,
      length-append front (w ++ (b ++ more)),
      length-append w (b ++ more),
      length-append b more,
      length-write_le 2 (length b),
    ) in
    let room : ltb (length (front ++ (w ++ (b ++ more)))) (n + 2) ≡ false = ground arith in
    let fits : ltb (length (front ++ (w ++ (b ++ more)))) (n + (2 + length b)) ≡ false =
      ground arith in
    let past : drop (n + 2) (front ++ (w ++ (b ++ more))) ≡ b ++ more =
      rw (← append_assoc front w (b ++ more)) (
        drop-append (n + 2) (front ++ w) (b ++ more)
          (omega (arith, length-append front w, length-write_le 2 (length b)))) in
    rw room (
      rw (read_le-append 2 n (length b) front (b ++ more) l (omega arith))
        (rw fits (rw past (rw (get_bytes-append b more)))))

read_marker_id-append :
    (n id : ℕ) (front more : List ℕ)
    → length front ≡ n
    → id < 2 ^ 64
    → read_marker_id change_marker 0 8 (front ++ (write_le 8 id ++ more)) n ≡ ok (id, n + 8)
unfolding read_marker_id is_change_marker
read_marker_id-append n id front more l h =
    let room : ltb (length (front ++ (write_le 8 id ++ more))) (n + 8) ≡ false = ground (
      arith,
      length-append front (write_le 8 id ++ more),
      length-append (write_le 8 id) more,
      length-write_le 8 id,
    ) in
    rw room (rw (read_le-append 8 n id front more l (omega arith)))

-- A `Put`, `Delete`, `BulkBegin` or `BulkEnd` entry whose numbers fit their fields is written, and
-- reads back whatever follows it, taking the bytes written.
pub deserialize_entry-serialize_plain_entry :
    (s : ℕ) (t : EntryType) (o v : ℕ) (key more : List ℕ)
    → Fits s t o v key
    → is_range_del t ≡ false
    → is_change_marker t ≡ false
    → (out : List ℕ) × (serialize_entry s t o v key ≡ ok out)
      × (deserialize_entry (out ++ more)
          ≡ ok (
            record {
              sequence = s;
              entry_type = t;
              file_offset = o;
              key = key;
              value_size = v;
              end_key = [];
              marker_id = 0;
            },
            length out,
          ))
unfolding serialize_entry read_end_key read_marker_id
deserialize_entry-serialize_plain_entry s t o v key more f r m =
    let header = write_header s t o v (length key) in
    let size : 23 + length key ≡ length (header ++ key) =
      omega (arith, length-append header key, length-write_header s t o v (length key)) in
    (
      header ++ key,
      rw (narrow_fits 16 (length key) f.key_fits),
      rw (append_assoc header key more) (
          deserialize_entry-write_header s t o v key more [] (23 + length key) _ 0 f (rw r)
            (rw m (rw size))),
    )

-- A range tombstone whose numbers fit their fields is written, and reads back with its end key
-- whatever follows it, taking the bytes written.
pub deserialize_entry-serialize_range_del_entry :
    (s o : ℕ) (start_key end_key more : List ℕ)
    → s < 2 ^ 64
    → o < 2 ^ 64
    → length start_key < 2 ^ 16
    → length end_key < 2 ^ 16
    → (out : List ℕ) × (serialize_range_del_entry s o start_key end_key ≡ ok out)
      × (deserialize_entry (out ++ more)
          ≡ ok (
            record {
              sequence = s;
              entry_type = range_del;
              file_offset = o;
              key = start_key;
              value_size = length end_key;
              end_key = end_key;
              marker_id = 0;
            },
            length out,
          ))
unfolding serialize_range_del_entry
deserialize_entry-serialize_range_del_entry s o a b more hs ho ha hb =
    let header = write_header s range_del o (length b) (length a) in
    let w = write_le 2 (length b) in
    let whole : (header ++ (a ++ (w ++ b))) ++ more ≡ header ++ (a ++ (w ++ (b ++ more))) =
      simp append_assoc in
    let front : length (header ++ a) ≡ 23 + length a =
      omega
        (arith, length-append header a, length-write_header s range_del o (length b) (length a)) in
    let size : 23 + length a + (2 + length b) ≡ length (header ++ (a ++ (w ++ b))) = omega (
      arith,
      length-append header (a ++ (w ++ b)),
      length-append a (w ++ b),
      length-append w b,
      length-write_le 2 (length b),
      length-write_header s range_del o (length b) (length a),
    ) in
    (
      header ++ (a ++ (w ++ b)),
      rw (narrow_fits 32 (length b) (omega arith))
          (rw (narrow_fits 16 (length a) ha) (rw (narrow_fits 16 (length b) hb))),
      rw whole (
          rw (← size) (
            deserialize_entry-write_header s range_del o (length b) a (w ++ (b ++ more)) b
              (23 + length a + (2 + length b)) (23 + length a + (2 + length b)) 0
              (record {
                sequence_fits = hs;
                known = unfold is_known_entry_type in refl;
                offset_fits = ho;
                value_size_fits = omega arith;
                key_fits = ha;
              })
              (rw (← append_assoc header a (w ++ (b ++ more)))
                (read_end_key-append (23 + length a) (header ++ a) b more front hb))
              (unfold read_marker_id is_change_marker in refl))),
    )

-- A change marker with 64-bit numbers reads back with its id whatever follows it, and takes the
-- bytes written.
pub deserialize_entry-serialize_change_marker_entry :
    (s o id : ℕ) (more : List ℕ)
    → s < 2 ^ 64
    → o < 2 ^ 64
    → id < 2 ^ 64
    → (let out = serialize_change_marker_entry s o id in
        deserialize_entry (out ++ more)
        ≡ ok (
          record {
            sequence = s;
            entry_type = change_marker;
            file_offset = o;
            key = [];
            value_size = 8;
            end_key = [];
            marker_id = id;
          },
          length out,
        ))
unfolding serialize_change_marker_entry
deserialize_entry-serialize_change_marker_entry s o id more hs ho hi =
    let header = write_header s change_marker o 8 0 in
    let size : 23 + 8 ≡ length (header ++ write_le 8 id) = omega (
      arith,
      length-append header (write_le 8 id),
      length-write_le 8 id,
      length-write_header s change_marker o 8 0,
    ) in
    rw (append_assoc header (write_le 8 id) more) (
      rw (← size) (
        deserialize_entry-write_header s change_marker o 8 [] (write_le 8 id ++ more) [] 23 31 id
          (record {
            sequence_fits = hs;
            known = unfold is_known_entry_type in refl;
            offset_fits = ho;
            value_size_fits = omega arith;
            key_fits = omega arith;
          })
          (unfold read_end_key is_range_del in refl)
          (read_marker_id-append 23 id header more (length-write_header s change_marker o 8 0) hi)))
