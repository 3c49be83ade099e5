-- ===== src/FileStats/Policy.antt =====
-- `FileStatsPolicy` keeps the law that the patch map asks of a policy.
use bytecaskdb.PatchMap.{PatchPolicy}
use bytecaskdb.FileStats.{FileStats, FileStatsDelta, add64, sub64, apply, combine}
use bytecaskdb.Prelude.{◌==◌, if◌then◌else◌, ℕ, max, ◌≡◌, arith}

live_bytes_twice :
    (a x y p q : ℕ)
    → sub64 (add64 a (add64 x y)) (add64 p q) ≡ sub64 (add64 (sub64 (add64 a x) p) y) q
live_bytes_twice a x y p q = omega arith

add64_assoc : (a x y : ℕ) → add64 a (add64 x y) ≡ add64 (add64 a x) y
add64_assoc a x y = omega arith

max_assoc : (a x y : ℕ) → max a (max x y) ≡ max (max a x) y
max_assoc a x y = omega arith

first_set :
    (a x y : ℕ)
    → (if a == 0 then if x == 0 then y else x else a)
      ≡ (if (if a == 0 then x else a) == 0 then y else (if a == 0 then x else a))
first_set a x y = ground arith

-- Applying two joined deltas is applying the older and then the newer, wrap-around included.
pub apply-combine :
    (v : FileStats) (older newer : FileStatsDelta)
    → apply v (combine older newer) ≡ apply (apply v older) newer
unfolding apply combine
apply-combine v older newer = λ i. record {
  live_bytes =
      live_bytes_twice v.live_bytes older.live_added newer.live_added older.live_removed
        newer.live_removed i;
  total_bytes = add64_assoc v.total_bytes older.total_added newer.total_added i;
  min_sequence = first_set v.min_sequence older.min_sequence newer.min_sequence i;
  max_sequence = max_assoc v.max_sequence older.max_sequence newer.max_sequence i;
  tombstone_bytes = add64_assoc v.tombstone_bytes older.tombstone_added newer.tombstone_added i;
  marker_bytes = add64_assoc v.marker_bytes older.marker_added newer.marker_added i;
  change_marker_bytes =
      add64_assoc v.change_marker_bytes older.change_marker_added newer.change_marker_added i;
}

abbrev pub file_stats_policy : PatchPolicy FileStats FileStatsDelta
file_stats_policy = record { apply = apply; combine = combine; apply-combine = apply-combine }
