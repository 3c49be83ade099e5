-- ===== src/U32Map/Functions.antt =====
-- The interface of the maps from file ids is met by functions.
use mathlib.Core.Option
use bytecaskdb.U32Map.{U32Map}
use bytecaskdb.Prelude.{◌==◌, if◌then◌else◌, ℕ, refl, Option, none, some}

abbrev pub function_map : (V : Type 0) → U32Map V
function_map V = record {
  Map = ℕ → Option V;
  get = λ m k. m k;
  set = λ k v m j. if k == j then some v else m j;
  erase = λ k m j. if k == j then none else m j;
  update = λ k f m j. if k == j then Option.map f (m j) else m j;
  get-set = λ m k j v. refl;
  get-erase = λ m k j. refl;
  get-update = λ m k j f. refl;
}
