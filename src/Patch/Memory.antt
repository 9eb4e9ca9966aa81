-- ===== src/Patch/Memory.antt =====
-- MemoryPatch.cpp: what the copies of `Apply` and `Write` leave in memory.
use helen_gamehook.Common.Words.{Bytes}
use helen_gamehook.Common.{ℕ, zero, suc, ◌+◌, ◌≡◌, refl, [], ◌∷◌, length, arith}
use helen_gamehook.Patch.{read_memory, write_memory}

pub write_memory-congruent :
    (f g : ℕ → ℕ) (a : ℕ) (bs : Bytes) (x : ℕ)
    → f x ≡ g x
    → write_memory f a bs x ≡ write_memory g a bs x
unfolding write_memory
write_memory-congruent f g a [] x h = h
write_memory-congruent f g a (b ∷ bs) x h =
    ground (arith, write_memory-congruent f g (a + 1) bs x h)

pub write_memory-write_memory :
    (f : ℕ → ℕ) (a : ℕ) (new old : Bytes) (x : ℕ)
    → length new ≡ length old
    → write_memory (write_memory f a new) a old x ≡ write_memory f a old x
unfolding write_memory
write_memory-write_memory f a [] [] x h = refl
write_memory-write_memory f a (n ∷ new) [] x h = absurd (omega (arith, h))
write_memory-write_memory f a [] (o ∷ old) x h = absurd (omega (arith, h))
write_memory-write_memory f a (n ∷ new) (o ∷ old) x h = ground (
  arith,
  write_memory-congruent (write_memory f a (n ∷ new)) (write_memory f (a + 1) new) (a + 1) old x,
  write_memory-write_memory f (a + 1) new old x (omega (arith, h)),
)

pub write_memory-read_memory :
    (f : ℕ → ℕ) (a n x : ℕ) → write_memory f a (read_memory f a n) x ≡ f x
unfolding write_memory read_memory
write_memory-read_memory f a zero x = refl
write_memory-read_memory f a (suc n) x = ground (arith, write_memory-read_memory f (a + 1) n x)

pub length-read_memory : (f : ℕ → ℕ) (a n : ℕ) → length (read_memory f a n) ≡ n
unfolding read_memory
length-read_memory f a zero = refl
length-read_memory f a (suc n) = omega (arith, length-read_memory f (a + 1) n)
