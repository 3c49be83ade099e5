-- ===== src/Recovery/Open/Keeps.antt =====
-- `DB::recovery_open` loses nothing: every committed entry is still in a file that is left.
use bytecaskdb.Prelude.{
  Option-cases, get_elem?, Error, sequence_overlap, Result, ok, err, Result-cases, ℕ, zero, suc,
  ◌≡◌, refl, sym, ap, subst, ◌∙◌, ◌≢◌, ◌⊎◌, inl, inr, true, Option, none, some, List, [], ◌∷◌,
  arith, Any,
}
use bytecaskdb.KeyOrder.{key_eq_iff}
use bytecaskdb.Format.Bytes.{Crc32c}
use bytecaskdb.Format.Entry.{DataEntry}
use bytecaskdb.FileStats.{FileStats}
use bytecaskdb.KeyDirEntry.{}
use bytecaskdb.Recovery.Overlap.{find_sequence_overlap}
use bytecaskdb.Recovery.Scan.{throw_on_damage, scan_committed}
use bytecaskdb.Recovery.Hints.{StoredFile}
use bytecaskdb.Recovery.Tail.{recovery_prepare_files}
use bytecaskdb.Recovery.Undo.{remove_at, same_entry, recovery_undo_interrupted_vacuum}
use bytecaskdb.Recovery.Undo.Compaction.{IsSubOf-tail, IsSubOf, entries, is_compaction_of-IsSubOf}
use bytecaskdb.Recovery.Open.Hinted.{AllHinted, hinted_prepared, prepared_AllHinted, undo-hinted}
use bytecaskdb.Recovery.Open.Ends.{
  Undone, file_at_fits, undo_removes, after_pass-overlapping, recovery_open-prepared,
}
use bytecaskdb.Recovery.Open.{
  Pass, caught, loaded, overlapping, pass_of, after_pass, recovery_open, thrown,
}

same_entry_trans :
    (a b e : DataEntry) → same_entry b e ≡ true → same_entry a b ≡ true → same_entry a e ≡ true
unfolding same_entry
same_entry_trans a b e h k = ground (
  arith,
  key_eq_iff b.key e.key,
  key_eq_iff a.key b.key,
  key_eq_iff a.key e.key,
  key_eq_iff b.value e.value,
  key_eq_iff a.value b.value,
  key_eq_iff a.value e.value,
)

-- The entry stands in the list.
abbrev pub IsIn : DataEntry → List DataEntry → Type 0
IsIn e xs = Any (λ x. same_entry x e ≡ true) xs

IsIn-same : (b e : DataEntry) (xs : List DataEntry) → same_entry b e ≡ true → IsIn b xs → IsIn e xs
IsIn-same b e [] h m = m
IsIn-same b e (x ∷ xs) h (inl s) = inl (same_entry_trans x b e h s)
IsIn-same b e (x ∷ xs) h (inr m) = inr (IsIn-same b e xs h m)

IsSubOf-head : (e : DataEntry) (es xs : List DataEntry) → IsSubOf (e ∷ es) xs → IsIn e xs
IsSubOf-head e es [] h = h
IsSubOf-head e es (x ∷ xs) (inl h) = inl h.0
IsSubOf-head e es (x ∷ xs) (inr h) = inr (IsSubOf-head e es xs h)

IsSubOf-IsIn : (e : DataEntry) (es xs : List DataEntry) → IsSubOf es xs → IsIn e es → IsIn e xs
IsSubOf-IsIn e [] xs h m = absurd m
IsSubOf-IsIn e (b ∷ es) xs h (inl s) = IsIn-same b e xs s (IsSubOf-head b es xs h)
IsSubOf-IsIn e (b ∷ es) xs h (inr m) = IsSubOf-IsIn e es xs (IsSubOf-tail b es xs h) m

module _ (c : Crc32c) where
  -- The file's committed entries.
  abbrev pub entries_of : StoredFile → List DataEntry
  entries_of file = entries (scan_committed c throw_on_damage file.bytes)

  -- Some file holds the entry.
  abbrev pub IsHeld : DataEntry → List StoredFile → Type 0
  IsHeld e files = Any (λ file. IsIn e (entries_of file)) files

  -- Each entry that the first files hold, the second ones hold.
  abbrev pub IsKept : List StoredFile → List StoredFile → Type 0
  IsKept files left = (e : DataEntry) → IsHeld e files → IsHeld e left

  IsHeld-at :
      (e : DataEntry) (i : ℕ) (files : List StoredFile) (file : StoredFile)
      → get_elem? files i ≡ some file
      → IsIn e (entries_of file)
      → IsHeld e files
  IsHeld-at e i [] file h m = cc
  IsHeld-at e zero (f ∷ files) file h m =
      let is : f ≡ file = cc h in inl (subst (λ t. IsIn e (entries_of t)) (sym is) m)
  IsHeld-at e (suc i) (f ∷ files) file h m = inr (IsHeld-at e i files file h m)

  -- What is at another place is not removed.
  kept_at :
      (i j : ℕ) (files : List StoredFile) (file : StoredFile)
      → i ≢ j
      → get_elem? files j ≡ some file
      → (k : ℕ) × (get_elem? (remove_at i files) k ≡ some file)
  unfolding remove_at
  kept_at i j [] file h k = cc
  kept_at zero zero (f ∷ files) file h k = absurd (h refl)
  kept_at zero (suc j) (f ∷ files) file h k = (j, k)
  kept_at (suc i) zero (f ∷ files) file h k = (0, k)
  kept_at (suc i) (suc j) (f ∷ files) file h k =
      let (n, at_) = kept_at i j files file (λ e. h (ap suc e)) k in (suc n, at_)

  -- An entry is in the file at a place, or in one that is left when that is removed.
  IsHeld-or_at :
      (e : DataEntry) (i : ℕ) (files : List StoredFile) (copy : StoredFile)
      → get_elem? files i ≡ some copy
      → IsHeld e files
      → IsIn e (entries_of copy) ⊎ IsHeld e (remove_at i files)
  unfolding remove_at
  IsHeld-or_at e i [] copy h m = absurd m
  IsHeld-or_at e zero (f ∷ files) copy h (inl m) =
      let is : f ≡ copy = cc h in inl (subst (λ t. IsIn e (entries_of t)) is m)
  IsHeld-or_at e zero (f ∷ files) copy h (inr m) = inr m
  IsHeld-or_at e (suc i) (f ∷ files) copy h (inl m) = inr (inl m)
  IsHeld-or_at e (suc i) (f ∷ files) copy h (inr m) = elim (IsHeld-or_at e i files copy h m) [
    | inl here ↦ inl here
    | inr there ↦ inr (inr there)
  ]

  Undone-IsKept :
      (i j : ℕ) (copy source : StoredFile) (files left : List StoredFile)
      → i ≢ j
      → Undone c i j copy source files left
      → IsKept files left
  Undone-IsKept i j copy source files left apart (hi, hj, sub, is) e held =
      let (gi, _) = file_at_fits c i files copy hi in
      let (gj, _) = file_at_fits c j files source hj in
      let part = is_compaction_of-IsSubOf c copy source sub in
      let (k, at_) = kept_at i j files source apart gj in
      subst (IsHeld e) (sym is) (elim (IsHeld-or_at e i files copy gi held) [
        | inl m ↦
            IsHeld-at e k (remove_at i files) source at_
              (IsSubOf-IsIn e (entries_of copy) (entries_of source) part m)
        | inr there ↦ there
      ])

  pub undo_IsKept :
      (a b : ℕ) (files left : List StoredFile)
      → a ≢ b
      → recovery_undo_interrupted_vacuum c a b files ≡ ok left
      → IsKept files left
  undo_IsKept a b files left apart h =
      let (fa, fb, undone) = undo_removes c a b files left h in
      elim undone [
        | inl u ↦ Undone-IsKept a b fa fb files left apart u
        | inr u ↦ Undone-IsKept b a fb fa files left (λ e. apart (sym e)) u
      ]

module _ (c : Crc32c) {State : Type 0} (load : List StoredFile → Result State)
    (all_stats : State → List (ℕ × FileStats)) where
  -- A pass that finds an overlap names two files.
  abbrev pub NamesTwo : Type 0
  NamesTwo =
      (files : List StoredFile) (a b : ℕ) → pass_of all_stats (load files) ≡ overlapping a b → a ≢ b

  -- What is known of the files that an opening leaves, of those that it prepared.
  abbrev pub IsOpened : List StoredFile → State → List StoredFile → Type 0
  IsOpened prepared s left =
      (load left ≡ ok s) × (find_sequence_overlap (all_stats s) ≡ none) × IsKept c prepared left

  caught-loaded : (e : Error) (s : State) → caught e ≡ loaded s → ⊥
  unfolding caught
  caught-loaded (sequence_overlap a b) s h = cc
  caught-loaded _ s h = cc

  pass_of-loaded :
      (r : Result State) (s : State)
      → pass_of all_stats r ≡ loaded s
      → (r ≡ ok s) × (find_sequence_overlap (all_stats s) ≡ none)
  unfolding pass_of
  pass_of-loaded (err e) s h = absurd (caught-loaded e s h)
  pass_of-loaded (ok t) s h = elim (Option-cases (find_sequence_overlap (all_stats t))) [
    | inl none_is ↦
        let same : ◌≡◌ {A = Pass State} (loaded t) (loaded s) = rw (none_is, pass_of) at h in
        let is : t ≡ s = cc same in
        (ap ok is, subst (λ x. find_sequence_overlap (all_stats x) ≡ none) is none_is)
    | inr (pair, is) ↦
        let differs : ◌≡◌ {A = Pass State} (overlapping pair.0 pair.1) (loaded s) =
          rw (is, pass_of) at h in
        absurd (cc differs)
  ]

  unprepared_fails :
      (passes : ℕ) (files : List StoredFile) (e : Error) (r : State × List StoredFile)
      → recovery_prepare_files c files ≡ err e
      → recovery_open c load all_stats passes files ≡ some (ok r)
      → ⊥
  unfolding recovery_open
  unprepared_fails zero files e r is h = cc
  unprepared_fails (suc passes) files e r is h =
      let fails : ◌≡◌ {A = Option (Result (State × List StoredFile))} (some (err e)) (some (ok r)) =
        rw (is, recovery_open) at h in
      cc fails

  -- The rest of an opening, after a pass over files that have their hints.
  after_pass-IsOpened :
      (passes : ℕ) (prepared left : List StoredFile) (s : State) (pass : Pass State)
      → NamesTwo
      → AllHinted c prepared
      → pass_of all_stats (load prepared) ≡ pass
      → ((files : List StoredFile)
          → AllHinted c files
          → recovery_open c load all_stats passes files ≡ some (ok (s, left))
          → IsOpened files s left)
      → after_pass c load all_stats (recovery_open c load all_stats passes) prepared pass
        ≡ some (ok (s, left))
      → IsOpened prepared s left
  unfolding after_pass
  after_pass-IsOpened passes prepared left s (loaded t) two hinted is again h =
      let same_state : t ≡ s = cc h in
      let same_files : prepared ≡ left = cc h in
      let (found, apart) = pass_of-loaded (load prepared) t is in
      (
        subst (λ l. load l ≡ ok s) same_files (found ∙ ap ok same_state),
        subst (λ x. find_sequence_overlap (all_stats x) ≡ none) same_state apart,
        λ e held. subst (IsHeld c e) same_files held,
      )
  after_pass-IsOpened passes prepared left s (thrown e) two hinted is again h = cc
  after_pass-IsOpened passes prepared left s (overlapping a b) two hinted is again h =
      elim (Result-cases (recovery_undo_interrupted_vacuum c a b prepared)) [
        | inr (e, fails) ↦
            let wrong : ◌≡◌ {A = Option (Result (State × List StoredFile))} (some (err e))
                (some (ok (s, left))) =
              rw (fails, after_pass) at h in
            absurd (cc wrong)
        | inl (rest, undone) ↦
            let rerun = recovery_open c load all_stats passes in
            let next =
              sym (after_pass-overlapping c load all_stats rerun a b prepared rest undone) ∙ h in
            let (found, apart, kept) =
              again rest (undo-hinted c a b prepared rest hinted undone) next in
            let first = undo_IsKept c a b prepared rest (two prepared a b is) undone in
            (found, apart, λ e held. kept e (first e held))
      ]

  hinted-IsOpened :
      (passes : ℕ) (files left : List StoredFile) (s : State)
      → NamesTwo
      → AllHinted c files
      → recovery_open c load all_stats passes files ≡ some (ok (s, left))
      → IsOpened files s left
  unfolding recovery_open
  hinted-IsOpened zero files left s two hinted h = cc
  hinted-IsOpened (suc passes) files left s two hinted h =
      elim (Result-cases (recovery_prepare_files c files)) [
        | inr (e, is) ↦ absurd (unprepared_fails (suc passes) files e (s, left) is h)
        | inl (prepared, is) ↦
            let next = sym (recovery_open-prepared c load all_stats passes files prepared is) ∙ h in
            subst (λ l. IsOpened l s left) (sym (hinted_prepared c files prepared hinted is))
              (after_pass-IsOpened passes prepared left s (pass_of all_stats (load prepared)) two
                (prepared_AllHinted c files prepared is) refl
                (λ fs hs. hinted-IsOpened passes fs left s two hs) next)
      ]

  -- When each overlap that a pass finds is of two files: the state that an opening returns is what
  -- the files that are left load as, none of them overlaps another, and every committed entry of the
  -- prepared files, the removed ones included, is in one that is left.
  pub recovery_open-IsKept :
      (passes : ℕ) (files prepared left : List StoredFile) (s : State)
      → NamesTwo
      → recovery_prepare_files c files ≡ ok prepared
      → recovery_open c load all_stats passes files ≡ some (ok (s, left))
      → (load left ≡ ok s) × (find_sequence_overlap (all_stats s) ≡ none) × IsKept c prepared left
  unfolding recovery_open
  recovery_open-IsKept zero files prepared left s two is h = cc
  recovery_open-IsKept (suc passes) files prepared left s two is h =
      let next = sym (recovery_open-prepared c load all_stats passes files prepared is) ∙ h in
      after_pass-IsOpened passes prepared left s (pass_of all_stats (load prepared)) two
        (prepared_AllHinted c files prepared is) refl
        (λ fs hs. hinted-IsOpened passes fs left s two hs) next
