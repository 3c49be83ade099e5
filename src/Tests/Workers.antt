-- ===== src/Tests/Workers.antt =====
-- Two workers that build their parts.
use mathlib.Core.List.Permᴰ
use bytecaskdb.Prelude.{ℕ, zero, suc, List, [], ◌∷◌}
use bytecaskdb.Recovery.Build.{OpenedHints}
use bytecaskdb.Tests.Files.{hint_a, hint_b}
use bytecaskdb.Tests.Threads.{first_file, second_file}

abbrev opened_by : ℕ → OpenedHints
opened_by zero = record { hints = (first_file, hint_a ∷ []) ∷ []; skipped = [] }
opened_by (suc zero) = record { hints = (second_file, hint_b ∷ []) ∷ []; skipped = [] }
opened_by (suc (suc w)) = record { hints = []; skipped = [] }
