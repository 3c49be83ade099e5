-- ===== src/Recovery/Open/Ends.antt =====
-- The loop of `DB::recovery_open` ends: each pass that is run again has one file less.
use bytecaskdb.Prelude.{
  ltb, leb, Bool-cases, length, get_elem?, length-append, Result, ok, err, throw_if, >>=-eq-ok,
  Result-cases, ok-injective, throw_if-eq-ok, ℕ, zero, suc, ◌+◌, ◌<◌, ◌≡◌, refl, sym, ap, subst,
  ◌∙◌, ◌⊎◌, inl, inr, true, not, Option, some, List, [], ◌∷◌, ◌++◌, arith, too_many_files,
  not_a_copy,
}
use bytecaskdb.Format.Bytes.{Crc32c}
use bytecaskdb.FileStats.{FileStats}
use bytecaskdb.KeyDirEntry.{max_file_id}
use bytecaskdb.Recovery.Hints.{StoredFile}
use bytecaskdb.Recovery.Tail.{prepare_file, prepare_loop, recovery_prepare_files}
use bytecaskdb.Recovery.Undo.{
  file_at, remove_at, is_compaction_of, recovery_undo_interrupted_vacuum,
}
use bytecaskdb.Recovery.Open.{Pass, loaded, overlapping, thrown, pass_of, after_pass, recovery_open}

-- A place that a file was found at is in the list.
pub file_at_fits :
    (c : Crc32c) (i : ℕ) (files : List StoredFile) (file : StoredFile)
    → file_at c i files ≡ ok file
    → (get_elem? files i ≡ some file) × (i < length files)
unfolding file_at
file_at_fits c i [] file h = cc
file_at_fits c zero (f ∷ files) file h = (cc h, omega arith)
file_at_fits c (suc i) (f ∷ files) file h =
    let (g, l) = file_at_fits c i files file h in (g, omega (arith, l))

length-remove_at :
    (i : ℕ) (files : List StoredFile)
    → i < length files
    → suc (length (remove_at i files)) ≡ length files
unfolding remove_at
length-remove_at i [] h = absurd (omega arith)
length-remove_at zero (f ∷ files) h = refl
length-remove_at (suc i) (f ∷ files) h = ap suc (length-remove_at i files (omega arith))

abbrev pub Undone :
    Crc32c → ℕ → ℕ → StoredFile → StoredFile → List StoredFile → List StoredFile → Type 0
Undone c i j copy source files left =
    (file_at c i files ≡ ok copy)
    × (file_at c j files ≡ ok source)
    × (is_compaction_of c copy source ≡ ok true)
    × (left ≡ remove_at i files)

-- What is removed is at one of the two places, and is a compacted copy of what is at the other.
pub undo_removes :
    (c : Crc32c) (a b : ℕ) (files left : List StoredFile)
    → recovery_undo_interrupted_vacuum c a b files ≡ ok left
    → (fa : StoredFile) × (fb : StoredFile) × (Undone c a b fa fb files left
        ⊎ Undone c b a fb fa files left)
unfolding recovery_undo_interrupted_vacuum
undo_removes c a b files left h =
    let (fa, ha, h₁) = >>=-eq-ok (file_at c a files) _ h in
    let (fb, hb, h₂) = >>=-eq-ok (file_at c b files) _ h₁ in
    (
      fa,
      fb,
      elim (Bool-cases (leb (length fa.bytes) (length fb.bytes))) [
        | inl small ↦
            let (copied, hc, h₃) = >>=-eq-ok (is_compaction_of c fa fb) _ (rw small at h₂) in
            let (u, ht, h₄) = >>=-eq-ok (throw_if (not copied) not_a_copy) _ h₃ in
            let yes_it_is : copied ≡ true =
              ground (arith, throw_if-eq-ok (not copied) not_a_copy ht) in
            inl (ha, hb, hc ∙ ap ok yes_it_is, sym (ok-injective h₄))
        | inr large ↦
            let (copied, hc, h₃) = >>=-eq-ok (is_compaction_of c fb fa) _ (rw large at h₂) in
            let (u, ht, h₄) = >>=-eq-ok (throw_if (not copied) not_a_copy) _ h₃ in
            let yes_it_is : copied ≡ true =
              ground (arith, throw_if-eq-ok (not copied) not_a_copy ht) in
            inr (hb, ha, hc ∙ ap ok yes_it_is, sym (ok-injective h₄))
      ],
    )

Undone-shrinks :
    (c : Crc32c) (i j : ℕ) (copy source : StoredFile) (files left : List StoredFile)
    → Undone c i j copy source files left
    → suc (length left) ≡ length files
Undone-shrinks c i j copy source files left (hi, hj, sub, is) =
    let (_, l) = file_at_fits c i files copy hi in
    ap (λ l. suc (length l)) is ∙ length-remove_at i files l

undo_shrinks :
    (c : Crc32c) (a b : ℕ) (files left : List StoredFile)
    → recovery_undo_interrupted_vacuum c a b files ≡ ok left
    → suc (length left) ≡ length files
undo_shrinks c a b files left h =
    let (fa, fb, undone) = undo_removes c a b files left h in
    elim undone [
      | inl u ↦ Undone-shrinks c a b fa fb files left u
      | inr u ↦ Undone-shrinks c b a fb fa files left u
    ]

prepare_loop-length :
    (c : Crc32c) (before files prepared : List StoredFile)
    → prepare_loop c before files ≡ ok prepared
    → length prepared ≡ length before + length files
unfolding prepare_loop
prepare_loop-length c before [] prepared h =
    let is : before ≡ prepared = ok-injective h in ap length (sym is) ∙ omega arith
prepare_loop-length c before (file ∷ files) prepared h =
    let (f, hf, h₁) = >>=-eq-ok (prepare_file c (before ++ file ∷ files) file) _ h in
    omega (
      arith,
      prepare_loop-length c (before ++ f ∷ []) files prepared h₁,
      length-append before (f ∷ []),
    )

pub recovery_prepare_files-length :
    (c : Crc32c) (files prepared : List StoredFile)
    → recovery_prepare_files c files ≡ ok prepared
    → length prepared ≡ length files
unfolding recovery_prepare_files
recovery_prepare_files-length c files prepared h =
    let (u, ht, h₁) = >>=-eq-ok (throw_if (ltb max_file_id (length files)) too_many_files) _ h in
    omega (arith, prepare_loop-length c [] files prepared h₁)

module _ (c : Crc32c) {State : Type 0} (load : List StoredFile → Result State)
    (all_stats : State → List (ℕ × FileStats)) where
  -- How a pass goes on.
  pub after_pass-overlapping :
      (rerun : List StoredFile → Option (Result (State × List StoredFile))) (a b : ℕ)
      (prepared left : List StoredFile)
      → recovery_undo_interrupted_vacuum c a b prepared ≡ ok left
      → after_pass c load all_stats rerun prepared (overlapping a b) ≡ rerun left
  unfolding after_pass
  after_pass-overlapping rerun a b prepared left is = rw (is, after_pass) refl

  pub recovery_open-prepared :
      (passes : ℕ) (files prepared : List StoredFile)
      → recovery_prepare_files c files ≡ ok prepared
      → recovery_open c load all_stats (suc passes) files
        ≡ after_pass c load all_stats
            (recovery_open c load all_stats passes)
            prepared
            (pass_of all_stats (load prepared))
  unfolding recovery_open
  recovery_open-prepared passes files prepared is = rw (is, recovery_open) refl

  abbrev Returns : Option (Result (State × List StoredFile)) → Type 0
  Returns o = (r : Result (State × List StoredFile)) × (o ≡ some r)

  -- A pass that is not run again returns.
  after_pass-Returns :
      (rerun : List StoredFile → Option (Result (State × List StoredFile)))
      (prepared : List StoredFile) (pass : Pass State)
      → ((left : List StoredFile) → suc (length left) ≡ length prepared → Returns (rerun left))
      → Returns (after_pass c load all_stats rerun prepared pass)
  unfolding after_pass
  after_pass-Returns rerun prepared (loaded s) again = (ok (s, prepared), refl)
  after_pass-Returns rerun prepared (thrown e) again = (err e, refl)
  after_pass-Returns rerun prepared (overlapping a b) again =
      elim (Result-cases (recovery_undo_interrupted_vacuum c a b prepared)) [
        | inr (e, is) ↦ (err e, rw (is, after_pass) refl)
        | inl (left, is) ↦
            subst Returns (sym (after_pass-overlapping rerun a b prepared left is))
              (again left (undo_shrinks c a b prepared left is))
      ]

  -- One pass more than there are data files is enough: opening returns a state or throws, whatever
  -- the passes load.
  pub recovery_open-total :
      (passes : ℕ) (files : List StoredFile)
      → length files < passes
      → (r : Result (State × List StoredFile)) × (recovery_open c load all_stats passes files
          ≡ some r)
  unfolding recovery_open
  recovery_open-total zero files h = absurd (omega arith)
  recovery_open-total (suc passes) files h = elim (Result-cases (recovery_prepare_files c files)) [
    | inr (e, is) ↦ (err e, rw (is, recovery_open) refl)
    | inl (prepared, is) ↦
        let same = recovery_prepare_files-length c files prepared is in
        subst Returns (sym (recovery_open-prepared passes files prepared is)) (
          after_pass-Returns (recovery_open c load all_stats passes) prepared
            (pass_of all_stats (load prepared))
            (λ left shorter. recovery_open-total passes left (omega (arith, shorter, same, h))))
  ]
