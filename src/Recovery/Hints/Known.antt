-- ===== src/Recovery/Hints/Known.antt =====
-- Every entry that a sweep yields has a type that is known: any other is damage.
use bytecaskdb.Prelude.{
  ltb, ◌==◌, Bool-cases, Option-cases, length, take, drop, All, Error, Result-cases, ℕ, zero, suc,
  ◌+◌, ◌≡◌, inl, inr, true, none, List, [], ◌∷◌, ◌++◌, arith, All-append,
}
use bytecaskdb.Format.Bytes.{Crc32c}
use bytecaskdb.Format.Types.{is_known_entry_type, is_change_marker}
use bytecaskdb.Format.Entry.{EntryHeader, DataEntry, header_size, read_header}
use bytecaskdb.Recovery.Scan.{
  Committed, OnDamage, Sweep, advance, at_damage, committed, damaged, ended, entry, failed,
  finished, header_damage, in_batch, is_bulk_begin, is_bulk_end, item, record_damage,
  scan_committed, stop_on_damage, stops, sweep, throw_on_damage, total_bytes, view_of, yield,
}

abbrev KnownSweep : Sweep → Type 0
KnownSweep ended = Unit
KnownSweep (damaged e) = Unit
KnownSweep (entry e off next rest) = (is_known_entry_type e.entry_type ≡ true) × KnownSweep rest

abbrev pub IsKnown : Committed → Type 0
IsKnown (finished end) = Unit
IsKnown (failed e) = Unit
IsKnown (item e off rest) = (is_known_entry_type e.entry_type ≡ true) × IsKnown rest

KnownSweep-at_damage : (on_damage : OnDamage) (e : Error) → KnownSweep (at_damage on_damage e)
unfolding at_damage
KnownSweep-at_damage throw_on_damage e = tt
KnownSweep-at_damage stop_on_damage e = tt

header_known : (h : EntryHeader) → header_damage h ≡ none → is_known_entry_type h.entry_type ≡ true
unfolding header_damage
header_known h e = ground (arith, e)

module _ (c : Crc32c) where
  KnownSweep-advance :
      (on_damage : OnDamage) (offset : ℕ) (bytes : List ℕ) (h : EntryHeader) (rest : Sweep)
      → KnownSweep rest
      → KnownSweep (advance c on_damage offset bytes h rest)
  unfolding advance view_of
  KnownSweep-advance on_damage offset bytes h rest known = elim (Bool-cases (h.sequence == 0)) [
    | inl zero_is ↦ rw zero_is tt
    | inr live ↦ elim (Option-cases (header_damage h)) [
      | inr (e, is) ↦ rw live (rw is (KnownSweep-at_damage on_damage e))
      | inl sound ↦ elim (Bool-cases (ltb (length bytes) (total_bytes h))) [
        | inl cut ↦ rw live (rw sound (rw cut tt))
        | inr whole ↦ elim (Option-cases (record_damage c on_damage (take (total_bytes h) bytes))) [
          | inr (e, is) ↦ rw live (rw sound (rw whole (rw is (KnownSweep-at_damage on_damage e))))
          | inl good ↦ rw live (rw sound (rw whole (rw good (header_known h sound, known))))
        ]
      ]
    ]
  ]

  KnownSweep-sweep :
      (fuel : ℕ) (on_damage : OnDamage) (offset : ℕ) (bytes : List ℕ)
      → KnownSweep (sweep c fuel on_damage offset bytes)
  unfolding sweep
  KnownSweep-sweep zero on_damage offset bytes = tt
  KnownSweep-sweep (suc fuel) on_damage offset bytes =
      elim (Bool-cases (ltb (length bytes) header_size)) [
        | inl short ↦ rw short tt
        | inr long ↦ elim (Result-cases (read_header bytes)) [
          | inr (e, is) ↦ rw long (rw is tt)
          | inl (h, is) ↦ rw long (
              rw is (
                KnownSweep-advance on_damage offset bytes h
                  (sweep c fuel on_damage (offset + total_bytes h) (drop (total_bytes h) bytes))
                  (KnownSweep-sweep fuel on_damage (offset + total_bytes h)
                    (drop (total_bytes h) bytes))))
        ]
      ]

IsKnown-yield :
    (staged : List (DataEntry × ℕ)) (after : Committed)
    → All (λ s. is_known_entry_type s.0.entry_type ≡ true) staged
    → IsKnown after
    → IsKnown (yield staged after)
unfolding yield
IsKnown-yield [] after h k = k
IsKnown-yield ((e, off) ∷ staged) after h k = (h.0, IsKnown-yield staged after h.1 k)

mutual
  unfolding committed is_bulk_begin is_bulk_end stops

  IsKnown-committed :
      (on_damage : OnDamage) (at_ : ℕ) (s : Sweep)
      → KnownSweep s
      → IsKnown (committed on_damage at_ s)
  IsKnown-committed on_damage at_ ended k = tt
  IsKnown-committed on_damage at_ (damaged e) k = tt
  IsKnown-committed on_damage at_ (entry e off next rest) k =
      let alone = IsKnown-committed on_damage next rest k.1 in
      let batch = IsKnown-in_batch on_damage at_ ((e, off) ∷ []) rest (k.0, tt) k.1 in
      elim (Bool-cases (is_bulk_begin e.entry_type)) [
        | inl begins ↦ rw begins batch
        | inr single ↦ rw single (k.0, alone)
      ]

  IsKnown-in_batch :
      (on_damage : OnDamage) (at_ : ℕ) (staged : List (DataEntry × ℕ)) (s : Sweep)
      → All (λ s. is_known_entry_type s.0.entry_type ≡ true) staged
      → KnownSweep s
      → IsKnown (in_batch on_damage at_ staged s)
  IsKnown-in_batch on_damage at_ staged ended h k = tt
  IsKnown-in_batch on_damage at_ staged (damaged e) h k = tt
  IsKnown-in_batch on_damage at_ staged (entry e off next rest) h k =
      let all_known =
        All-append (λ s. is_known_entry_type s.0.entry_type ≡ true) staged ((e, off) ∷ []) h
          (k.0, tt) in
      let after =
        IsKnown-yield (staged ++ (e, off) ∷ []) (committed on_damage next rest) all_known
          (IsKnown-committed on_damage next rest k.1) in
      let more = IsKnown-in_batch on_damage at_ (staged ++ (e, off) ∷ []) rest all_known k.1 in
      elim (Bool-cases (is_change_marker e.entry_type)) [
        | inl marker ↦ elim (Bool-cases (stops on_damage)) [
          | inl stop_is ↦ rw marker (rw stop_is tt)
          | inr throws ↦ rw marker (rw throws tt)
        ]
        | inr plain ↦ elim (Bool-cases (is_bulk_end e.entry_type)) [
          | inl ends ↦ rw plain (rw ends after)
          | inr goes_on ↦ rw plain (rw goes_on more)
        ]
      ]

pub scan_committed-IsKnown :
    (c : Crc32c) (on_damage : OnDamage) (bytes : List ℕ)
    → IsKnown (scan_committed c on_damage bytes)
unfolding scan_committed
scan_committed-IsKnown c on_damage bytes =
    IsKnown-committed on_damage 0 (sweep c (length bytes) on_damage 0 bytes)
      (KnownSweep-sweep c (length bytes) on_damage 0 bytes)
