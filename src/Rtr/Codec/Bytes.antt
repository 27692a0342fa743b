-- ===== src/Rtr/Codec/Bytes.antt =====
-- The big-endian numbers of rtr/codec.go, and reads of bytes that were written one after another.
use bgpulse.Base.{ℕ, zero, suc, ◌<◌, ◌≡◌, ap, arith, List, [], ◌∷◌, ◌++◌, length, take, drop}
use bgpulse.Rtr.Codec.{be16, be32}
use bgpulse.Rtr.Codec.Encode.{put16, put32}

pub be16-put16 : (v : ℕ) (rest : List ℕ) → v < 65536 → be16 (put16 v ++ rest) ≡ v
unfolding be16 put16
be16-put16 v rest h = omega arith

pub be32-put32 : (v : ℕ) (rest : List ℕ) → v < 4294967296 → be32 (put32 v ++ rest) ≡ v
unfolding be32 put32
be32-put32 v rest h = omega arith

pub take-append : (xs ys : List ℕ) (n : ℕ) → length xs ≡ n → take n (xs ++ ys) ≡ xs
take-append [] ys n h = ground arith
take-append (x ∷ xs) ys zero h = absurd (omega arith)
take-append (x ∷ xs) ys (suc n) h = ap (◌∷◌ x) (take-append xs ys n (omega arith))

pub drop-append : (xs ys : List ℕ) (n : ℕ) → length xs ≡ n → drop n (xs ++ ys) ≡ ys
drop-append [] ys n h = ground arith
drop-append (x ∷ xs) ys zero h = absurd (omega arith)
drop-append (x ∷ xs) ys (suc n) h = drop-append xs ys n (omega arith)
