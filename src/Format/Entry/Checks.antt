-- ===== src/Format/Entry/Checks.antt =====
-- The checks on a record: its CRC, and the header that passes all of them.
use bytecaskdb.Format.Bytes.{Crc32c, IsByte, write_le, get, read_le}
use bytecaskdb.Format.Bytes.Laws.{get-write_le, get-inverse, get-total, length-write_le}
use bytecaskdb.Format.Types.{EntryType, is_known_entry_type, is_change_marker}
use bytecaskdb.Format.Entry.{
  EntryHeader, header_size, crc_size, read_header, crc_matches, parse_header_and_verify,
}
use bytecaskdb.Format.Entry.Layout.{read_header-total}
use bytecaskdb.Prelude.{
  ltb, ◌==◌, ==_iff, Bool-cases, length, take, drop, All, length-append, take-append-drop,
  length-drop, take-append, drop-append, out_of_range, too_small, unknown_type, malformed_marker,
  size_mismatch, crc_mismatch, ok, err, throw_if, >>=-eq-ok, ok-injective, throw_if-eq-ok, ℕ, zero,
  suc, ◌+◌, ◌-◌, ◌^◌, ◌≤◌, ◌<◌, ◌≡◌, refl, sym, ap, subst, ◌∙◌, ◌≢◌, inl, inr, Bool, true, false,
  not, ◌&&◌, ◌||◌, List, [], ◌∷◌, ◌++◌, append-nil, arith,
}

-- What the marker check lets pass.
abbrev pub MarkerShape : EntryType → ℕ → ℕ → Type 0
MarkerShape t key_size value_size = is_change_marker t ≡ true → (key_size ≡ 0) × (value_size ≡ 8)

pub MarkerShape-test :
    (t : EntryType) (k v : ℕ)
    → (is_change_marker t && (not (k == 0) || not (v == 8))) ≡ false
    → MarkerShape t k v
MarkerShape-test t k v h m = ground arith

pub test-MarkerShape :
    (t : EntryType) (k v : ℕ)
    → MarkerShape t k v
    → (is_change_marker t && (not (k == 0) || not (v == 8))) ≡ false
test-MarkerShape t k v h = elim (Bool-cases (is_change_marker t)) [
  | inl m ↦ ground (arith, h m)
  | inr m ↦ rw m
]

split_at_crc : (buf : List ℕ) → 4 ≤ length buf → length (drop (length buf - 4) buf) ≡ 4
split_at_crc buf h = omega (arith, length-drop (length buf - 4) buf)

rest_empty : (rest : List ℕ) (v : ℕ) → length (write_le 4 v ++ rest) ≡ 4 → rest ≡ []
rest_empty [] v h = refl
rest_empty (x ∷ rest) v h =
    absurd (omega (arith, length-append (write_le 4 v) (x ∷ rest), length-write_le 4 v))

All-drop : (n : ℕ) (xs : List ℕ) → All IsByte xs → All IsByte (drop n xs)
All-drop zero xs h = h
All-drop (suc n) [] h = h
All-drop (suc n) (x ∷ xs) h = All-drop n xs h.1

tail_is :
    (buf : List ℕ) (v n : ℕ) (rest : List ℕ)
    → drop n buf ≡ write_le 4 v ++ rest
    → rest ≡ []
    → drop n buf ≡ write_le 4 v
tail_is buf v n rest i e = i ∙ rw e (append-nil (write_le 4 v))

module _ (c : Crc32c) where
  pub crc_matches-append :
      (body : List ℕ) (x : ℕ)
      → x < 2 ^ 32
      → crc_matches c (body ++ write_le 4 x) ≡ ok (c.extend 0 body == x)
  unfolding crc_matches read_le
  crc_matches-append body x h =
      let n : length (body ++ write_le 4 x) - 4 ≡ length body =
        omega (arith, length-append body (write_le 4 x), length-write_le 4 x) in
      let s : ltb (length (body ++ write_le 4 x)) 4 ≡ false =
        ground (arith, length-append body (write_le 4 x), length-write_le 4 x) in
      let g : get 4 (write_le 4 x) ≡ ok (x, []) =
        rw append-nil at (get-write_le 4 x [] (omega arith)) in
      rw s (
        rw n (
          rw (drop-append (length body) body (write_le 4 x) refl)
            (rw g (rw (take-append (length body) body (write_le 4 x) refl)))))

  -- A record whose CRC matches ends in the CRC of what stands before.
  pub crc_matches-inverse :
      (buf : List ℕ)
      → All IsByte buf
      → crc_matches c buf ≡ ok true
      → (body : List ℕ) × (buf ≡ body ++ write_le 4 (c.extend 0 body))
  unfolding crc_matches read_le
  crc_matches-inverse buf bytes e = elim (Bool-cases (ltb (length buf) 4)) [
    | inl small ↦ cc (rw small at e)
    | inr big ↦
        let n = length buf - 4 in
        let (stored, p, q) =
          >>=-eq-ok (read_le 4 buf n) (λ s. ok (c.extend 0 (take n buf) == s)) (rw big at e) in
        let ((v, rest), g, o) = >>=-eq-ok (get 4 (drop n buf)) (λ r. ok r.0) p in
        let (i, f, b) = get-inverse 4 (drop n buf) v rest (All-drop n buf bytes) g in
        let four : length (write_le 4 v ++ rest) ≡ 4 =
          subst (λ t. length t ≡ 4) i (split_at_crc buf (ground arith)) in
        let same : v ≡ c.extend 0 (take n buf) =
          ok-injective o ∙ sym ((==_iff (c.extend 0 (take n buf)) stored).0 (ok-injective q)) in
        (
          take n buf,
          sym (take-append-drop n buf)
              ∙ ap (λ t. take n buf ++ t) (tail_is buf v n rest i (rest_empty rest v four))
              ∙ ap (λ t. take n buf ++ write_le 4 t) same,
        )
  ]

  pub crc_matches-total : (buf : List ℕ) → (b : Bool) × (crc_matches c buf ≡ ok b)
  unfolding crc_matches read_le
  crc_matches-total buf = elim (Bool-cases (ltb (length buf) 4)) [
    | inl small ↦ (false, rw small)
    | inr big ↦
        let (v, rest, e, l) =
          get-total 4 (drop (length buf - 4) buf)
            (omega (arith, split_at_crc buf (ground arith))) in
        (c.extend 0 (take (length buf - 4) buf) == v, rw big (rw e))
  ]

  -- What a header that passed says of the buffer.
  pub record Verified (buf : List ℕ) (h : EntryHeader) : Type 0 where
    pub header : read_header buf ≡ ok h
    pub known : is_known_entry_type h.entry_type ≡ true
    pub marker : MarkerShape h.entry_type h.key_size h.value_size
    pub size : length buf ≡ header_size + h.key_size + h.value_size + crc_size
    pub matches : crc_matches c buf ≡ ok true

  pub parse_header_and_verify-inverse :
      (buf : List ℕ) (h : EntryHeader) → parse_header_and_verify c buf ≡ ok h → Verified buf h
  unfolding parse_header_and_verify
  parse_header_and_verify-inverse buf h e =
      let (_, p₁, e₁) = >>=-eq-ok (throw_if (ltb (length buf) 19) too_small) _ e in
      let (g, p₂, e₂) = >>=-eq-ok (read_header buf) _ e₁ in
      let (_, p₃, e₃) =
        >>=-eq-ok (throw_if (not (is_known_entry_type g.entry_type)) unknown_type) _ e₂ in
      let (_, p₄, e₄) =
        >>=-eq-ok
          (throw_if
            (is_change_marker g.entry_type && (not (g.key_size == 0) || not (g.value_size == 8)))
            malformed_marker)
          _ e₃ in
      let (_, p₅, e₅) =
        >>=-eq-ok
          (throw_if (not (length buf == header_size + g.key_size + g.value_size + crc_size))
            size_mismatch)
          _ e₄ in
      let (b, p₆, e₆) = >>=-eq-ok (crc_matches c buf) _ e₅ in
      let (_, p₇, e₇) = >>=-eq-ok (throw_if (not b) crc_mismatch) _ e₆ in
      subst (Verified buf) (ok-injective e₇) (record {
        header = p₂;
        known = ground arith;
        marker = MarkerShape-test g.entry_type g.key_size g.value_size (throw_if-eq-ok _ _ p₄);
        size = ground arith;
        matches = ground arith;
      })

  pub Verified-parse :
      (buf : List ℕ) (h : EntryHeader) → Verified buf h → parse_header_and_verify c buf ≡ ok h
  unfolding parse_header_and_verify
  Verified-parse buf h v =
      let big : ltb (length buf) (header_size + crc_size) ≡ false = ground (arith, v.size) in
      let fits : (length buf == header_size + h.key_size + h.value_size + crc_size) ≡ true =
        ground (arith, v.size) in
      rw big (
        rw v.header (
          rw v.known (
            rw (test-MarkerShape h.entry_type h.key_size h.value_size v.marker)
              (rw fits (rw v.matches)))))

  -- No buffer makes the checks read outside it.
  pub parse_header_and_verify-ne-out_of_range :
      (buf : List ℕ) → parse_header_and_verify c buf ≢ err out_of_range
  unfolding parse_header_and_verify
  parse_header_and_verify-ne-out_of_range buf e =
      elim (Bool-cases (ltb (length buf) (header_size + crc_size))) [
        | inl small ↦ cc (rw small at e)
        | inr big ↦
            let (h, r) = read_header-total buf (ground arith) in
            let (b, m) = crc_matches-total buf in ground (arith, r, m)
      ]
