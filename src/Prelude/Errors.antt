-- ===== src/Prelude/Errors.antt =====
-- What a C++ function that may throw returns. Each `throw` of the modelled code has a constructor
-- of `Error`; `sequence_overlap`
-- holds the ids of its two files; `out_of_range` stands for an access outside a span, which C++ leaves undefined.
use Prim.Native.Nat.{ℕ}
use mathlib.Core.Path.{◌≡◌, refl}
use mathlib.Core.Bool.{Bool, true, false}
use mathlib.Core.Logic.{◌⊎◌, inl, inr}

pub data Error : Type 0 where
  out_of_range narrowing too_small unknown_type malformed_marker size_mismatch crc_mismatch : Error
  truncated_header truncated_entry truncated_end_key_len truncated_end_key truncated_marker_id :
      Error
  sequence_limit file_id_limit file_offset_limit value_size_limit : Error
  sequence_overlap : ℕ → ℕ → Error
  duplicate_sequence file_ids_exhausted : Error
  marker_in_batch range_del_in_run unsorted_hint torn_not_last two_torn too_many_files not_a_copy
        no_hint_file :
      Error
  undo_moved live_without_destination invalid_width no_snapshot : Error
  bad_variant key_too_large value_too_large invalid_range contradictory_guards snapshot_required :
      Error

-- A value, or the error that was thrown.
pub data Result {ℓ} (V : Type ℓ) : Type ℓ where
  err : Error → Result V
  ok : V → Result V

-- `if (bad) throw e;`
abbrev pub throw_if : Bool → Error → Result (Unit {0})
throw_if false e = ok tt
throw_if true e = err e

infixl 5 ◌>>=◌
abbrev pub ◌>>=◌ {ℓ κ} : {V : Type ℓ} {W : Type κ} → Result V → (V → Result W) → Result W
err thrown >>= next = err thrown
ok value >>= next = next value

infixl 5 ◌>>◌
abbrev pub ◌>>◌ {κ} : {W : Type κ} → Result (Unit {0}) → Result W → Result W
checked >> rest = checked >>= λ _. rest

-- A bind that succeeds was given a success.
pub >>=-eq-ok {ℓ κ} :
    {V : Type ℓ} {W : Type κ} (first : Result V) (next : V → Result W) {w : W}
    → (first >>= next) ≡ ok w
    → (v : V) × (first ≡ ok v) × (next v ≡ ok w)
>>=-eq-ok (err thrown) next h = cc
>>=-eq-ok (ok v) next h = (v, refl, h)

pub ok-injective {ℓ} : {A : Type ℓ} {a b : A} → ok a ≡ ok b → a ≡ b
ok-injective e = cc

pub throw_if-eq-ok : (b : Bool) (e : Error) {u : Unit {0}} → throw_if b e ≡ ok u → b ≡ false
throw_if-eq-ok true e h = cc
throw_if-eq-ok false e h = refl

pub Result-cases {ℓ} :
    {A : Type ℓ} (r : Result A) → ((a : A) × (r ≡ ok a)) ⊎ ((e : Error) × (r ≡ err e))
Result-cases (ok a) = inl (a, refl)
Result-cases (err e) = inr (e, refl)
