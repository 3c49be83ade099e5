-- ===== src/Recovery/Build/Correct.antt =====
-- What `recovery_build_sorted` builds from sorted hint files: for each key, its newest entry.
use bytecaskdb.Prelude.{
  length, All, length-append, ok, ℕ, suc, ◌≡◌, refl, sym, ap, subst, ◌∙◌, Bool, true, Option, none,
  some, List, [], ◌∷◌, ◌++◌, arith, All-append, All-parts,
}
use bytecaskdb.KeyOrder.{Bytes, key_lt}
use bytecaskdb.KeyDir.{Bindings, IsAscending, lookup}
use bytecaskdb.Format.Bytes.{Crc32c}
use bytecaskdb.Format.Hint.{HintEntry}
use bytecaskdb.Recovery.Needed.{HintRecord, Match, RangeTombstone}
use bytecaskdb.Recovery.Cursor.{Cursor, Noted, read_head}
use bytecaskdb.Recovery.Cursor.Loaded.{IsLoaded, behind, contents, load-Reloads, record_of, tagged}
use bytecaskdb.KeyDirEntry.{KeyDirEntry}
use bytecaskdb.Recovery.Merge.{Collected, PopOrder}
use bytecaskdb.Recovery.Merge.Newest.{IsNewest, IsNewest-within, newest, newest-append, pick}
use bytecaskdb.Recovery.Merge.Step.{all_contents}
use bytecaskdb.Recovery.Merge.Owner.{Fits, Owns, owner, owner-Owns}
use bytecaskdb.Recovery.Merge.Loop.{Arranges, Merged, merge_loop-Merged}
use bytecaskdb.Recovery.Build.{
  RecoveredFile, entries_left, fresh_stats, head_ranges, load_all, read_heads, OpenedHints,
  RecoveryResult, head_markers, merge_hints, open_hints, recovery_build_sorted, result_of,
}
use bytecaskdb.Recovery.Build.Heads.{
  IsHint, all_matches_in, all_ranges_in, matches_in, ranges_in, read_head-IsHeadOf,
}

abbrev AllHints : List (RecoveredFile × List HintEntry) → Type 0
AllHints hints = All (λ h. IsHint h.1) hints

ranges_of_heads :
    (hints : List (RecoveredFile × List HintEntry))
    → AllHints hints
    → head_ranges (read_heads hints) ≡ all_ranges_in hints
unfolding head_ranges read_heads all_ranges_in
ranges_of_heads [] h = refl
ranges_of_heads ((rf, entries) ∷ hints) h =
    let (r, _, _) =
      read_head-IsHeadOf rf.file_id (record { stats = fresh_stats rf; max_seq = 0 }) entries h.0 in
    rw r (ap (λ l. ranges_in rf.file_id entries ++ l) (ranges_of_heads hints h.1))

-- The loaded cursors have the newest entries of the files, and no entry that is not theirs.
abbrev LoadsAs : List Match → List Cursor → Type 1
LoadsAs before cs =
    All IsLoaded cs
    × ((key : Bytes) → newest key (all_contents cs) ≡ newest key before)
    × ((P : Match → Type 0) → All P before → All P (all_contents cs))

load_all-LoadsAs :
    (hints : List (RecoveredFile × List HintEntry))
    → AllHints hints
    → (cs : List Cursor) × (load_all (read_heads hints) ≡ ok cs) × LoadsAs (all_matches_in hints) cs
unfolding load_all read_heads all_matches_in
load_all-LoadsAs [] h = ([], refl, (tt, λ key. refl, λ P a. tt))
load_all-LoadsAs ((rf, entries) ∷ hints) h =
    let start : Noted = record { stats = fresh_stats rf; max_seq = 0 } in
    let (_, m, b) = read_head-IsHeadOf rf.file_id start entries h.0 in
    let c = (read_head rf.file_id start entries).cursor in
    let (c', is, (loaded, _, newest_is, keeps, _)) = load-Reloads c b in
    let (cs, are, (all_loaded, newest_are, all_keep)) = load_all-LoadsAs hints h.1 in
    let mine = matches_in rf.file_id entries in
    let others = all_matches_in hints in
    (
      c' ∷ cs,
      rw is (rw are refl),
      (
        (loaded, all_loaded),
        λ key.
            newest-append key (contents c') (all_contents cs)
            ∙ ap (λ x. pick x (newest key (all_contents cs))) (newest_is key ∙ ap (newest key) m)
            ∙ ap (pick (newest key mine)) (newest_are key)
            ∙ sym (newest-append key mine others),
        λ P a.
            let (x, y) = All-parts P mine others a in
            All-append P (contents c') (all_contents cs) (keeps P (subst (All P) (sym m) x))
              (all_keep P y),
      ),
    )

length-record_of :
    (file_id : ℕ) (o : Option HintRecord)
    → length (record_of file_id o) ≡ elim o [ none ↦ 0 | some _ ↦ 1 ]
length-record_of file_id none = refl
length-record_of file_id (some r) = refl

length-tagged : (file_id : ℕ) (rest : List HintEntry) → length (tagged file_id rest) ≡ length rest
length-tagged file_id [] = refl
length-tagged file_id (he ∷ rest) = ap suc (length-tagged file_id rest)

entries_left-length : (cs : List Cursor) → entries_left cs ≡ length (all_contents cs)
unfolding entries_left
entries_left-length [] = refl
entries_left-length (c ∷ cs) = omega (
  arith,
  entries_left-length cs,
  length-append (contents c) (all_contents cs),
  length-append (record_of c.file_id c.cur) (behind c),
  length-append (record_of c.file_id c.lookahead) (tagged c.file_id c.rest),
  length-record_of c.file_id c.cur,
  length-record_of c.file_id c.lookahead,
  length-tagged c.file_id c.rest,
)

Merged-same :
    (ranges ranges' : List RangeTombstone) (entries entries' : List Match) (out : Bindings)
    → ranges ≡ ranges'
    → ((key : Bytes) → newest key entries ≡ newest key entries')
    → ((P : Match → Type 0) → All P entries' → All P entries)
    → Merged ranges entries out
    → Merged ranges' entries' out
Merged-same ranges ranges' entries entries' out is same keeps (looks, ups, asc) = (
  λ key.
      let (n, is_newest, is_owner) = looks key in
      (
        n,
        IsNewest-within key entries entries' n (same key) keeps is_newest,
        is_owner ∙ ap (λ r. owner key r n) is,
      ),
  λ j h. ups j (keeps (λ m. key_lt j m.1.key ≡ true) h),
  asc,
)

merge_hints-Merged :
    (pops : PopOrder)
    → Arranges pops
    → (hints : List (RecoveredFile × List HintEntry)) → AllHints hints
    → All Fits (all_matches_in hints)
    → (out : Bindings) × (m : Collected) × (left : List Cursor) × (merge_hints pops hints
        ≡ ok (out, m, left, head_markers (read_heads hints)))
      × Merged (all_ranges_in hints) (all_matches_in hints) out
unfolding merge_hints
merge_hints-Merged pops arranges hints h fit =
    let (cs, are, (loaded, newest_are, keep)) = load_all-LoadsAs hints h in
    let start : Collected = record {
      tombstones = [];
      ranges = head_ranges (read_heads hints);
      needed = [];
    } in
    let n = entries_left-length cs in
    let (out, m, left, merges, merged, _) =
      merge_loop-Merged pops arranges (entries_left cs) cs start loaded (keep Fits fit)
        (omega (arith, n)) in
    (
      out,
      m,
      left,
      rw are (rw merges refl),
      Merged-same start.ranges (all_ranges_in hints) (all_contents cs) (all_matches_in hints) out
          (ranges_of_heads hints h) newest_are keep merged,
    )

-- What a key is bound to: some newest entry of the key in the list decides it.
abbrev pub IsBound : Bytes → List RangeTombstone → List Match → Option KeyDirEntry → Type 0
IsBound key ranges entries o = (n : Option Match) × IsNewest key entries n × Owns key ranges n o

-- For sorted hint files whose entries fit a key directory entry, building succeeds, and what it builds
-- ascends. Each key is bound by an entry of the key, in any of the files, than which no entry of the key in
-- any of the files has a higher sequence: to that entry when it is a put and no range tombstone of the
-- files with a higher sequence has the key in its range, and to nothing otherwise. A key without an
-- entry is not bound. This holds whatever order the heap pops equal keys in.
pub recovery_build_sorted-IsBound :
    (c : Crc32c) (pops : PopOrder) (strict : Bool) (files : List RecoveredFile)
    (opened : OpenedHints)
    → Arranges pops
    → open_hints c strict files ≡ ok opened
    → All (λ h. IsHint h.1) opened.hints
    → All Fits (all_matches_in opened.hints)
    → (r : RecoveryResult) × (recovery_build_sorted c pops strict files ≡ ok r)
      × IsAscending r.key_dir
      × ((key : Bytes)
          → IsBound key
              (all_ranges_in opened.hints)
              (all_matches_in opened.hints)
              (lookup key r.key_dir))
unfolding recovery_build_sorted result_of
recovery_build_sorted-IsBound c pops strict files opened arranges opens h fit =
    let (out, m, left, merges, (looks, ups, asc)) =
      merge_hints-Merged pops arranges opened.hints h fit in
    (
      result_of opened out m left (head_markers (read_heads opened.hints)),
      rw opens (rw merges refl),
      asc,
      λ key.
          let (n, is_newest, is_owner) = looks key in
          let ranges = all_ranges_in opened.hints in
          (n, is_newest, subst (Owns key ranges n) (sym is_owner) (owner-Owns key ranges n)),
    )
