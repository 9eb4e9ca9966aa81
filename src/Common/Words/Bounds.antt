-- ===== src/Common/Words/Bounds.antt =====
-- Bounds of the words that are read from bytes.
use native.Mathlib.Nat.{pow-suc, one-le-pow}
use helen_gamehook.Common.{ℕ, zero, suc, ◌*◌, ◌^◌, ◌<◌, [], ◌∷◌, arith, take, drop, slice}
use helen_gamehook.Common.Words.{Bytes, AreBytes, little_endian, u32_mod, u64_mod}

pub drop-AreBytes : (n : ℕ) (bs : Bytes) → AreBytes bs → AreBytes (drop n bs)
drop-AreBytes zero bs h = h
drop-AreBytes (suc n) [] h = tt
drop-AreBytes (suc n) (b ∷ bs) h = drop-AreBytes n bs h.1

pub take-AreBytes : (n : ℕ) (bs : Bytes) → AreBytes bs → AreBytes (take n bs)
take-AreBytes zero bs h = tt
take-AreBytes (suc n) [] h = tt
take-AreBytes (suc n) (b ∷ bs) h = (h.0, take-AreBytes n bs h.1)

pub slice-AreBytes : (i n : ℕ) (bs : Bytes) → AreBytes bs → AreBytes (slice i n bs)
unfolding slice
slice-AreBytes i n bs h = take-AreBytes n (drop i bs) (drop-AreBytes i bs h)

-- A word of `n` bytes is below 256 ^ n.
pub little_endian-take-lt : (n : ℕ) (bs : Bytes) → AreBytes bs → little_endian (take n bs) < 256 ^ n
little_endian-take-lt zero bs h = omega arith
little_endian-take-lt (suc n) [] h = one-le-pow (suc n) 256 (omega arith)
little_endian-take-lt (suc n) (b ∷ bs) h =
    omega (arith, little_endian-take-lt n bs h.1, pow-suc 256 n)

pub little_endian-slice-lt :
    (i n : ℕ) (bs : Bytes) → AreBytes bs → little_endian (slice i n bs) < 256 ^ n
unfolding slice
little_endian-slice-lt i n bs h = little_endian-take-lt n (drop i bs) (drop-AreBytes i bs h)

-- A product of two 32-bit words fits 64 bits.
pub mul-lt-u64 : (a b : ℕ) → a < u32_mod → b < u32_mod → a * b < u64_mod
mul-lt-u64 a b h k = grind arith
