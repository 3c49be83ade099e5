-- ===== src/Format/Bytes/Laws.antt =====
-- Reading back what was written, and writing what was read.
use bytecaskdb.Prelude.{
  ltb, lt→ltb, length, take, drop, All, length-append, length-drop, take-append, drop-append, ok,
  >>=-eq-ok, ℕ, zero, suc, ◌+◌, ◌*◌, ◌/◌, ◌%◌, ◌^◌, ◌≤◌, ◌<◌, ◌≡◌, refl, ap, subst, false, List, [],
  ◌∷◌, ◌++◌, arith,
}
use bytecaskdb.Format.Bytes.{IsByte, narrow, write_le, get, read_le, get_bytes}

pub length-write_le : (w v : ℕ) → length (write_le w v) ≡ w
unfolding write_le
length-write_le zero v = refl
length-write_le (suc w) v = ap suc (length-write_le w (v / 256))

pub get-write_le :
    (w v : ℕ) (rest : List ℕ) → v < 256 ^ w → get w (write_le w v ++ rest) ≡ ok (v, rest)
unfolding get write_le
get-write_le zero v rest h = ground arith
get-write_le (suc w) v rest h = ground (arith, get-write_le w (v / 256) rest)

-- A successful read took `w` bytes that spell the value, and the value fits.
pub get-inverse :
    (w : ℕ) (buf : List ℕ) (v : ℕ) (rest : List ℕ)
    → All IsByte buf
    → get w buf ≡ ok (v, rest)
    → (buf ≡ write_le w v ++ rest) × (v < 256 ^ w) × All IsByte rest
unfolding get write_le
get-inverse zero buf v rest h e = (ground arith, ground arith, subst (All IsByte) (cc) h)
get-inverse (suc w) [] v rest h e = cc
get-inverse (suc w) (b ∷ buf) v rest (hb, h) e =
    let ((u, after), p, q) = >>=-eq-ok (get w buf) (λ r. ok (b + 256 * r.0, r.1)) e in
    let (i, j, k) = get-inverse w buf u after h p in
    let ev : b + 256 * u ≡ v = ground arith in
    let er : after ≡ rest = ground arith in
    let d : v / 256 ≡ u = omega arith in
    let m : v % 256 ≡ b = omega arith in
    (rw (d, m, ← er) (ap (λ t. b ∷ t) i), omega arith, subst (All IsByte) er k)

pub get-total :
    (w : ℕ) (buf : List ℕ)
    → w ≤ length buf
    → (v : ℕ) × (rest : List ℕ) × (get w buf ≡ ok (v, rest)) × (length rest + w ≡ length buf)
unfolding get
get-total zero buf h = (0, buf, refl, omega arith)
get-total (suc w) [] h = absurd (omega arith)
get-total (suc w) (b ∷ buf) h =
    let (v, rest, e, l) = get-total w buf (omega arith) in (b + 256 * v, rest, rw e, omega arith)

pub get_bytes-append : (xs ys : List ℕ) → get_bytes (length xs) (xs ++ ys) ≡ ok (xs, ys)
unfolding get_bytes
get_bytes-append xs ys =
    let enough : ltb (length (xs ++ ys)) (length xs) ≡ false =
      ground (arith, length-append xs ys) in
    rw enough (rw (take-append (length xs) xs ys refl) (rw (drop-append (length xs) xs ys refl)))

pub get_bytes-total :
    (n : ℕ) (buf : List ℕ) → n ≤ length buf → get_bytes n buf ≡ ok (take n buf, drop n buf)
unfolding get_bytes
get_bytes-total n buf h = let enough : ltb (length buf) n ≡ false = ground arith in rw enough

pub narrow_fits : (bits v : ℕ) → v < 2 ^ bits → narrow bits v ≡ ok v
unfolding narrow
narrow_fits bits v h = rw (lt→ltb v (2 ^ bits) h)

-- Reading at an offset, behind a front of that length.
pub read_le-append :
    (w n v : ℕ) (front rest : List ℕ)
    → length front ≡ n
    → v < 256 ^ w
    → read_le w (front ++ (write_le w v ++ rest)) n ≡ ok v
unfolding read_le
read_le-append w n v front rest l h = rw (drop-append n front _ l) (rw (get-write_le w v rest h))

pub read_le-total :
    (w : ℕ) (buf : List ℕ) (n : ℕ) → n + w ≤ length buf → (v : ℕ) × (read_le w buf n ≡ ok v)
unfolding read_le
read_le-total w buf n h =
    let (v, rest, e, l) = get-total w (drop n buf) (omega (arith, length-drop n buf)) in (v, rw e)
