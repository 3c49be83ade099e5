-- ===== src/U32Map.antt =====
-- What bytecaskdb/u32_map.cppm provides to its clients (its concepts `PersistentU32MapOf` and
-- `TransientU32MapOf`): a map from file ids. A version is a value; a transient's writes give a new one.
pub mod Functions
use mathlib.Core.Option
use bytecaskdb.Prelude.{◌==◌, if◌then◌else◌, ℕ, ◌≡◌, Option, none, some}

pub record U32Map {ℓ} (V : Type ℓ) : Type (ℓ + 1) where
  pub Map : Type ℓ
  pub get : Map → ℕ → Option V
  pub set : ℕ → V → Map → Map
  pub erase : ℕ → Map → Map
  -- no effect on an absent key
  pub update : ℕ → (V → V) → Map → Map
  pub get-set :
      (m : Map) (k j : ℕ) (v : V) → get (set k v m) j ≡ (if k == j then some v else get m j)
  pub get-erase : (m : Map) (k j : ℕ) → get (erase k m) j ≡ (if k == j then none else get m j)
  pub get-update :
      (m : Map) (k j : ℕ) (f : V → V)
      → get (update k f m) j ≡ (if k == j then Option.map f (get m j) else get m j)
