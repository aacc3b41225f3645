-- ===== src/Frames/Words.antt =====
-- Reading back the words and the runs of bytes that were written.
use cozmio.Prelude.{ℕ, zero, suc, ◌<◌, ◌≡◌, refl, ap, List, [], ◌∷◌, ◌++◌, length, arith}
use cozmio.Prelude.Results.{ok, err}
use cozmio.Frames.{to_be_bytes, from_be_bytes, read_exact, read_len, as_u32, io}

pub from_be_bytes-to_be_bytes : (n : ℕ) → n < 4294967296 → from_be_bytes (to_be_bytes n) ≡ n
unfolding from_be_bytes to_be_bytes
from_be_bytes-to_be_bytes n h = omega arith

pub as_u32-small : (n : ℕ) → n < 4294967296 → as_u32 n ≡ n
as_u32-small n h = omega arith

pub read_exact-append : (xs rest : List ℕ) → read_exact (length xs) (xs ++ rest) ≡ ok (xs, rest)
unfolding read_exact
read_exact-append [] rest = refl
read_exact-append (x ∷ xs) rest = rw (read_exact-append xs rest)

pub read_len-to_be_bytes :
    (n : ℕ) (rest : List ℕ) → n < 4294967296 → read_len (to_be_bytes n ++ rest) ≡ ok (n, rest)
unfolding read_len to_be_bytes
read_len-to_be_bytes n rest h = ap (λ (k : ℕ). ok (k, rest)) (omega arith)

pub read_exact-short : (n : ℕ) (xs : List ℕ) → length xs < n → read_exact n xs ≡ err io
unfolding read_exact
read_exact-short zero xs h = elim h [ ]
read_exact-short (suc n) [] h = refl
read_exact-short (suc n) (x ∷ xs) h = rw (read_exact-short n xs (omega arith))

pub read_len-short : (xs : List ℕ) → length xs < 4 → read_len xs ≡ err io
unfolding read_len
read_len-short xs h = rw (read_exact-short 4 xs h)
