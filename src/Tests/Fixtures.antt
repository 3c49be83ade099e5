-- ===== src/Tests/Fixtures.antt =====
-- Small instances of the model's parameters, and a state.
use bytecaskdb.Format.Bytes.{Crc32c}
use bytecaskdb.KeyDir.Sorted.{sorted_list}
use bytecaskdb.U32Map.Functions.{function_map}
use bytecaskdb.FileStats.{FileStats, no_stats}
use bytecaskdb.Engine.State.{
  Containers, DataFile, EngineState, Mode, TransientEngineState, leader, transient,
}
use bytecaskdb.Engine.State
use bytecaskdb.Engine.Plan.{WritePlan, must_be_absent, must_exist, point_del, point_put, range_del}
use bytecaskdb.Engine.Plan.Build.{}
use bytecaskdb.Prelude.{
  ◌==◌, if◌then◌else◌, ℕ, ◌+◌, ◌%◌, ◌^◌, ◌<◌, ◌≡◌, sym, ap, ◌∙◌, false, none, some, List, [], ◌∷◌,
  ◌++◌, arith,
}

-- A checksum: the sum of the bytes.
unfoldable pub sum_from : ℕ → List ℕ → ℕ
sum_from s [] = s % 2 ^ 32
sum_from s (b ∷ bs) = sum_from (s + b) bs

sum_from-mod : (s : ℕ) (bs : List ℕ) → sum_from (s % 2 ^ 32) bs ≡ sum_from s bs
unfolding sum_from
sum_from-mod s [] = omega arith
sum_from-mod s (b ∷ bs) =
    sym (sum_from-mod (s % 2 ^ 32 + b) bs)
    ∙ ap (λ x. sum_from x bs) (omega arith)
    ∙ sum_from-mod (s + b) bs

pub sum_from-append : (s : ℕ) (a b : List ℕ) → sum_from (sum_from s a) b ≡ sum_from s (a ++ b)
unfolding sum_from
sum_from-append s [] b = sum_from-mod s b
sum_from-append s (x ∷ a) b = sum_from-append (s + x) a b

pub sum_from_fits : (s : ℕ) (a : List ℕ) → sum_from s a < 2 ^ 32
unfolding sum_from
sum_from_fits s [] = omega arith
sum_from_fits s (x ∷ a) = sum_from_fits (s + x) a

abbrev pub byte_sum : Crc32c
byte_sum = record {
  extend = sum_from;
  extend-append = sum_from-append;
  extend_fits = sum_from_fits;
}

abbrev pub lists : Containers
lists = record { keys = sorted_list; files = function_map DataFile; stats = function_map FileStats }

-- An open database: one file, no key, and the next sequence 1.
abbrev pub empty_state : EngineState lists
empty_state = record {
  key_dir = record { bindings = []; ascending = tt };
  files = λ id. if id == 0 then some (record { size = 0 }) else none;
  file_stats = record {
    table = λ id. if id == 0 then some no_stats else none;
    runs = [];
    depth = 0;
  };
  active_file_id = 0;
  next_file_id = 1;
  next_seq = 1;
  durable_seq = 0;
  sync_requested_seq = 0;
  mode = Mode.leader;
  degraded = false;
  degraded_reason = [];
  closed = false;
  change_markers = [];
}

abbrev pub start : TransientEngineState lists
start = State.transient lists empty_state

-- put 1 2, delete [3, 9), delete 4
abbrev pub batch : WritePlan lists
batch = record {
  snap = none;
  limits = record { max_key_bytes = 100; max_value_bytes = 100 };
  writes = point_put (1 ∷ []) (2 ∷ []) ∷ range_del (3 ∷ []) (9 ∷ []) ∷ point_del (4 ∷ []) ∷ [];
  guards = [];
  range_guards = [];
  snap_entries = [];
}

-- Two writes of keys that a snapshot must hold unchanged.
abbrev pub guarded : WritePlan lists
guarded = record {
  snap = some empty_state;
  limits = record { max_key_bytes = 100; max_value_bytes = 100 };
  writes = point_put (1 ∷ []) (2 ∷ []) ∷ range_del (3 ∷ []) (9 ∷ []) ∷ [];
  guards = (5 ∷ [], must_be_absent) ∷ (6 ∷ [], must_exist) ∷ [];
  range_guards = record { from = 1 ∷ []; to = 7 ∷ [] } ∷ [];
  snap_entries = [];
}
