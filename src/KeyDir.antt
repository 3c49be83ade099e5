-- ===== src/KeyDir.antt =====
-- What the engine asks of its key directory: the `kd_*` functions of bytecaskdb/internals.cppm,
-- which both builds of the directory (the blind-leaf tree and the keyed B+ tree) provide. A tree is a
-- value, a transient's writes give a new one, and the records that a blind tree's entries name can
-- be read in its context. A hit, what a put or an erase displaced, is the displaced entry.
pub mod Sorted
pub mod Located
use bytecaskdb.KeyOrder.{Bytes, key_lt, key_eq}
use bytecaskdb.KeyDirEntry.{KeyDirEntry}
use bytecaskdb.Prelude.{if◌then◌else◌, ◌≡◌, Bool, true, Option, none, some, List, [], ◌∷◌}

abbrev pub Bindings : Type 0
Bindings = List (Bytes × KeyDirEntry)

-- The entry that a list of bindings has for a key.
unfoldable pub lookup : Bytes → Bindings → Option KeyDirEntry
lookup key [] = none
lookup key ((k, e) ∷ bs) = if key_eq k key then some e else lookup key bs

-- Every key of the list is above `key`; the list ascends.
abbrev pub Above : Bytes → Bindings → Type 0
Above key [] = Unit
Above key ((k, e) ∷ bs) = (key_lt key k ≡ true) × Above key bs

abbrev pub IsAscending : Bindings → Type 0
IsAscending [] = Unit
IsAscending ((k, e) ∷ bs) = Above k bs × IsAscending bs

pub record KeyDir : Type 1 where
  pub Tree : Type 0
  -- `kKeyDirReadsKeys`: whether keys are read back from the data files
  pub reads_keys : Bool
  pub get : Tree → Bytes → Option KeyDirEntry
  pub put : Bytes → KeyDirEntry → Tree → Option KeyDirEntry × Tree
  pub erase : Bytes → Tree → Option KeyDirEntry × Tree
  -- the entries from the first key that is not below the given one, in key order
  pub lower_bound : Tree → Bytes → Bindings
  -- by location: each declines where the key is no longer at `at_`
  pub holds : Tree → Bytes → KeyDirEntry → Bool
  pub put_at : Bytes → KeyDirEntry → KeyDirEntry → Tree → Option Tree
  pub erase_at : Bytes → KeyDirEntry → Tree → Option Tree
  pub hit-put : (k : Bytes) (e : KeyDirEntry) (t : Tree) → (put k e t).0 ≡ get t k
  pub hit-erase : (k : Bytes) (t : Tree) → (erase k t).0 ≡ get t k
  pub get-put :
      (k j : Bytes) (e : KeyDirEntry) (t : Tree)
      → get (put k e t).1 j ≡ (if key_eq k j then some e else get t j)
  pub get-erase :
      (k j : Bytes) (t : Tree) → get (erase k t).1 j ≡ (if key_eq k j then none else get t j)
  pub lower_bound-IsAscending : (t : Tree) (from : Bytes) → IsAscending (lower_bound t from)
  pub lookup-lower_bound :
      (t : Tree) (from key : Bytes)
      → lookup key (lower_bound t from) ≡ (if key_lt key from then none else get t key)
  pub holds-get :
      (k : Bytes) (at_ : KeyDirEntry) (t : Tree) → holds t k at_ ≡ true → get t k ≡ some at_
  -- a write by location that is not declined is the write by key
  pub put_at-put :
      (k : Bytes) (at_ e : KeyDirEntry) (t t' : Tree)
      → put_at k at_ e t ≡ some t'
      → put k e t ≡ (some at_, t')
  pub erase_at-erase :
      (k : Bytes) (at_ : KeyDirEntry) (t t' : Tree)
      → erase_at k at_ t ≡ some t'
      → erase k t ≡ (some at_, t')
