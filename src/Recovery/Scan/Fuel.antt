-- ===== src/Recovery/Scan/Fuel.antt =====
-- The fuel of a sweep: as much as there are bytes is enough.
use bytecaskdb.Prelude.{
  ltb, if◌then◌else◌, length, drop, length-drop, Result-cases, ℕ, zero, suc, ◌+◌, ◌≤◌, ◌≡◌, refl,
  ap, inl, inr, true, List, arith,
}
use bytecaskdb.Format.Bytes.{Crc32c}
use bytecaskdb.Format.Entry.{EntryHeader, read_header, header_size}
use bytecaskdb.Recovery.Scan.{OnDamage, total_bytes, sweep, advance, ended}

total_bytes_pos :
    (h : EntryHeader) (bytes : List ℕ) (n : ℕ)
    → length bytes ≤ suc n
    → length (drop (total_bytes h) bytes) ≤ n
unfolding total_bytes
total_bytes_pos h bytes n le = omega (arith, length-drop (total_bytes h) bytes)

-- Two sweeps of the same bytes agree when each has as much fuel as there are bytes: the sweep's end
-- is the data's, never the fuel's.
pub sweep_fuel :
    (c : Crc32c) (n m : ℕ) (on_damage : OnDamage) (offset : ℕ) (bytes : List ℕ)
    → length bytes ≤ n
    → length bytes ≤ m
    → sweep c n on_damage offset bytes ≡ sweep c m on_damage offset bytes
unfolding sweep
sweep_fuel c zero zero on_damage offset bytes h k = refl
sweep_fuel c zero (suc m) on_damage offset bytes h k =
    let short : ltb (length bytes) header_size ≡ true = ground (arith, h) in rw short refl
sweep_fuel c (suc n) zero on_damage offset bytes h k =
    let short : ltb (length bytes) header_size ≡ true = ground (arith, k) in rw short refl
sweep_fuel c (suc n) (suc m) on_damage offset bytes h k = elim (Result-cases (read_header bytes)) [
  | inl (hd, e) ↦
      let same =
        sweep_fuel c n m on_damage (offset + total_bytes hd) (drop (total_bytes hd) bytes)
          (total_bytes_pos hd bytes n h) (total_bytes_pos hd bytes m k) in
      rw e (
        ap
          (λ r.
            if ltb (length bytes) header_size then ended else advance c on_damage offset bytes hd r)
          same)
  | inr (er, e) ↦ rw e refl
]
