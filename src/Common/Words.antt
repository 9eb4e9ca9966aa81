-- ===== src/Common/Words.antt =====
-- Unsigned machine words as numbers. The shipped build is 32-bit (`Release|Win32`), so `size_t` and
-- `uintptr_t` have 32 bits. A sum or product that the source computes in a word is wrapped here.
pub mod Bounds
use Prim.Native.Nat.{ℕ, ◌+◌, ◌*◌, ◌%◌, ◌^◌, ◌<◌}
use mathlib.Core.List.{List, [], ◌∷◌}

abbrev pub Bytes : Type 0
Bytes = List ℕ

abbrev pub u32_mod : ℕ
u32_mod = 2 ^ 32

abbrev pub u64_mod : ℕ
u64_mod = 2 ^ 64

abbrev pub wrap32 : ℕ → ℕ
wrap32 n = n % u32_mod

abbrev pub wrap64 : ℕ → ℕ
wrap64 n = n % u64_mod

-- `size_t` of the Win32 build.
abbrev pub wrap_size : ℕ → ℕ
wrap_size = wrap32

-- The value of bytes in little-endian order: `b₀ | b₁ << 8 | b₂ << 16 | …`, whose bits are disjoint.
abbrev pub little_endian : Bytes → ℕ
little_endian [] = 0
little_endian (b ∷ bs) = b + 256 * little_endian bs

abbrev pub AreBytes : Bytes → Type 0
AreBytes [] = Unit {0}
AreBytes (b ∷ bs) = (b < 256) × AreBytes bs
