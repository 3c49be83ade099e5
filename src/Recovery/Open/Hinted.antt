-- ===== src/Recovery/Open/Hinted.antt =====
-- Files that have their hints: preparing gives every file one, and leaves those that have one alone.
use bytecaskdb.Prelude.{
  ltb, Bool-cases, length, All, ok, throw_if, >>=-eq-ok, ok-injective, ℕ, zero, suc, ◌≡◌, refl, sym,
  subst, ◌∙◌, inl, inr, true, List, [], ◌∷◌, ◌++◌, append_assoc, append-nil, too_many_files,
}
use bytecaskdb.Format.Bytes.{Crc32c}
use bytecaskdb.KeyDirEntry.{max_file_id}
use bytecaskdb.Recovery.Scan.{stop_on_damage}
use bytecaskdb.Recovery.Hints.{StoredFile, flush_hints_for}
use bytecaskdb.Recovery.Tail.{
  has_hint, recovery_check_tail, prepare_file, prepare_loop, recovery_prepare_files,
}
use bytecaskdb.Recovery.Undo.{remove_at, recovery_undo_interrupted_vacuum}
use bytecaskdb.Recovery.Open.Ends.{undo_removes}

module _ (c : Crc32c) where
  abbrev pub AllHinted : List StoredFile → Type 0
  AllHinted files = All (λ file. has_hint file ≡ true) files

  All-end :
      (files : List StoredFile) (file : StoredFile)
      → AllHinted files
      → has_hint file ≡ true
      → AllHinted (files ++ file ∷ [])
  All-end [] file h k = (k, tt)
  All-end (f ∷ files) file h k = (h.0, All-end files file h.1 k)

  prepare_file-hinted :
      (all_files : List StoredFile) (file prepared : StoredFile)
      → prepare_file c all_files file ≡ ok prepared
      → has_hint prepared ≡ true
  unfolding prepare_file
  prepare_file-hinted all_files file prepared h = elim (Bool-cases (has_hint file)) [
    | inl hinted ↦
        let is : file ≡ prepared = ok-injective (rw hinted at h) in
        subst (λ f. has_hint f ≡ true) is hinted
    | inr bare ↦
        let (flushed, _, h₁) =
          >>=-eq-ok (flush_hints_for c stop_on_damage file.bytes) _ (rw bare at h) in
        let (u, _, h₂) = >>=-eq-ok (recovery_check_tail c file flushed.0 all_files) _ h₁ in
        subst (λ f. has_hint f ≡ true) (ok-injective h₂) (unfold has_hint in refl)
  ]

  prepare_loop-hinted :
      (before files prepared : List StoredFile)
      → AllHinted before
      → prepare_loop c before files ≡ ok prepared
      → AllHinted prepared
  unfolding prepare_loop
  prepare_loop-hinted before [] prepared h e = subst AllHinted (ok-injective e) h
  prepare_loop-hinted before (file ∷ files) prepared h e =
      let (f, hf, e₁) = >>=-eq-ok (prepare_file c (before ++ file ∷ files) file) _ e in
      let hinted = prepare_file-hinted (before ++ file ∷ files) file f hf in
      prepare_loop-hinted (before ++ f ∷ []) files prepared (All-end before f h hinted) e₁

  pub prepared_AllHinted :
      (files prepared : List StoredFile)
      → recovery_prepare_files c files ≡ ok prepared
      → AllHinted prepared
  unfolding recovery_prepare_files
  prepared_AllHinted files prepared h =
      let (u, _, h₁) = >>=-eq-ok (throw_if (ltb max_file_id (length files)) too_many_files) _ h in
      prepare_loop-hinted [] files prepared tt h₁

  -- Files that have their hints are left as they are.
  hinted_prepare_loop :
      (before files prepared : List StoredFile)
      → AllHinted files
      → prepare_loop c before files ≡ ok prepared
      → before ++ files ≡ prepared
  unfolding prepare_loop prepare_file
  hinted_prepare_loop before [] prepared h e = append-nil before ∙ ok-injective e
  hinted_prepare_loop before (file ∷ files) prepared h e =
      let more : prepare_loop c (before ++ file ∷ []) files ≡ ok prepared = rw (h.0) at e in
      sym (append_assoc before (file ∷ []) files)
      ∙ hinted_prepare_loop (before ++ file ∷ []) files prepared h.1 more

  pub hinted_prepared :
      (files prepared : List StoredFile)
      → AllHinted files
      → recovery_prepare_files c files ≡ ok prepared
      → files ≡ prepared
  unfolding recovery_prepare_files
  hinted_prepared files prepared h e =
      let (u, _, e₁) = >>=-eq-ok (throw_if (ltb max_file_id (length files)) too_many_files) _ e in
      hinted_prepare_loop [] files prepared h e₁

  remove_at-hinted :
      (i : ℕ) (files : List StoredFile) → AllHinted files → AllHinted (remove_at i files)
  unfolding remove_at
  remove_at-hinted i [] h = tt
  remove_at-hinted zero (f ∷ files) h = h.1
  remove_at-hinted (suc i) (f ∷ files) h = (h.0, remove_at-hinted i files h.1)

  pub undo-hinted :
      (a b : ℕ) (files left : List StoredFile)
      → AllHinted files
      → recovery_undo_interrupted_vacuum c a b files ≡ ok left
      → AllHinted left
  undo-hinted a b files left h e =
      let (fa, fb, undone) = undo_removes c a b files left e in
      elim undone [
        | inl (_, _, _, is) ↦ subst AllHinted (sym is) (remove_at-hinted a files h)
        | inr (_, _, _, is) ↦ subst AllHinted (sym is) (remove_at-hinted b files h)
      ]
