-- ===== src/Recovery/Ranged/Workers.antt =====
-- The workers of recovery_load_ranged build their parts.
use bytecaskdb.Prelude.{All, ok, ℕ, suc, ◌≡◌, Bool, List, [], ◌∷◌}
use bytecaskdb.KeyOrder.{Bytes}
use bytecaskdb.KeyDir.{IsAscending, lookup}
use bytecaskdb.Format.Bytes.{Crc32c}
use bytecaskdb.Recovery.Merge.Owner.{Fits}
use bytecaskdb.Recovery.Build.{OpenedHints, RecoveredFile, RecoveryResult, open_hints}
use bytecaskdb.Recovery.Build.Heads.{IsHint, all_matches_in, all_ranges_in}
use bytecaskdb.Recovery.Build.Correct.{IsBound}

-- The hint files of these files open, they are sorted, and their entries fit.
abbrev pub IsReadable : Crc32c → Bool → List RecoveredFile → OpenedHints → Type 0
IsReadable c strict files opened =
    (open_hints c strict files ≡ ok opened)
    × All (λ h. IsHint h.1) opened.hints
    × All Fits (all_matches_in opened.hints)

-- The parts are in key order, and each binds each key by a newest entry of its worker's files.
abbrev pub AreBuilt : (ℕ → OpenedHints) → ℕ → List RecoveryResult → Type 0
AreBuilt opened worker [] = Unit
AreBuilt opened worker (part ∷ parts) =
    IsAscending part.key_dir
    × ((key : Bytes)
        → IsBound key (all_ranges_in (opened worker).hints) (all_matches_in (opened worker).hints)
            (lookup key part.key_dir))
    × AreBuilt opened (suc worker) parts
