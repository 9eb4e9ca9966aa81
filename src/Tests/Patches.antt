-- ===== src/Tests/Patches.antt =====
-- A patch over two pages of a small Windows whose second change of protection fails.
use helen_gamehook.Common.Results.{ok}
use helen_gamehook.Common.{
  ℕ, ◌+◌, ◌*◌, ◌/◌, ◌≡◌, ◌⊎◌, refl, arith, true, false, ◌==◌, ◌∷◌, [], List, Option, none, some,
  if◌then◌else◌,
}
use helen_gamehook.Patch.Applied.{apply-Applied}
use helen_gamehook.Patch.Collected.{unprotect-collect_regions}
use helen_gamehook.Patch.Kept.{IsSameAt}
use helen_gamehook.Patch.Laws.{Documented}
use helen_gamehook.Patch.Restored.{restores, restore-apply}
use helen_gamehook.Patch.Operations.{copy_and_restore, write, apply, apply_write, restore}
use helen_gamehook.Patch.{
  Windows, Process, new_patch, touches, is_accessible, collect_regions, unprotect,
  restore_protections, commit, has_ownership, clear, read_memory, write_memory,
}

-- The pages' protections, and how many changes have been asked for.
record Pages : Type 0 where
  protection : ℕ → ℕ
  calls : ℕ

abbrev small_protect : Pages → ℕ → ℕ → ℕ → Option ℕ × Pages
small_protect k a n v = if k.calls == 2 then (some 5, record k { calls = k.calls + 1 }) else (
  none,
  record { protection = λ p. if touches a n p then v else k.protection p; calls = k.calls + 1 },
)

abbrev small : Windows
small = record {
  K = Pages;
  protection = λ k p. k.protection p;
  virtual_query = λ k a. ok (record {
    base_address = a / 4096 * 4096;
    region_size = 4096;
    state = 0x1000;
    protect = k.protection (a / 4096);
  });
  virtual_protect = small_protect;
  flush_instruction_cache = λ k a n. (none, k);
}

small-Documented : Documented small
small-Documented = record {
  protects = λ k a n v p h. ground (arith, h);
  refuses = λ k a n v p h. ground (arith, h);
  protect_error = λ k a n v h. ground (arith, h);
  flushes = λ k a n p. refl;
  flush_error = λ k a n h. ground (arith, h);
  holds = λ k a h. ground (arith, h);
  uniform = λ k a p h t. ground (arith, h, t);
}

abbrev two_pages : Process small
two_pages = record {
  memory = λ x. if x == 4095 then 7 else 9;
  pages = record { protection = λ p. if p == 0 then 0x20 else 0x02; calls = 0 };
}

abbrev jump : Option (List ℕ)
jump = some (0xE9 ∷ 0x90 ∷ [])

-- The write is there, and the second page has not got its protection back.
left_open : (apply small two_pages new_patch 4095 jump).patch.last_result ≡ record {
  completed = false;
  bytes_written = true;
  access_error = 0;
  flush_error = 0;
  protection_error = 5;
}
unfolding apply apply_write write copy_and_restore unprotect restore_protections collect_regions
    is_accessible has_ownership clear read_memory write_memory
left_open = refl

restore-apply_example :
    let a = restores small small-Documented 0 (apply small two_pages new_patch 4095 jump) in
    let r = restore small a.process a.patch in
    (has_ownership r.patch ≡ false)
    × (r.process.memory 4095 ≡ two_pages.memory 4095)
    × (small.protection r.process.pages 0 ≡ small.protection two_pages.pages 0)
unfolding restores apply apply_write write copy_and_restore unprotect restore_protections
    collect_regions is_accessible has_ownership clear read_memory write_memory restore
restore-apply_example =
    restore-apply small small-Documented two_pages new_patch 4095 jump 0 4095 0 refl refl

apply-Applied_example :
    let a = apply small two_pages new_patch 4095 jump in
    ((has_ownership a.patch ≡ true) ⊎ IsSameAt small small-Documented two_pages a.process 4095 0)
    × ((a.patch.last_result.completed ≡ false)
        ⊎ ((a.process.memory 4095 ≡ write_memory two_pages.memory 4095 (0xE9 ∷ 0x90 ∷ []) 4095)
            × (small.protection a.process.pages 0 ≡ small.protection two_pages.pages 0)
            × ((commit a.patch).0 ≡ true)))
unfolding has_ownership
apply-Applied_example =
    apply-Applied small small-Documented two_pages new_patch 4095 jump 4095 0 refl

unprotect-collect_regions_example :
    small.protection
      (unprotect small two_pages.pages (collect_regions small 2 two_pages.pages 4095 4097).0).0
      1
    ≡ 0x40
unfolding unprotect collect_regions is_accessible
unprotect-collect_regions_example =
    unprotect-collect_regions small small-Documented two_pages.pages 4095 2 1 (omega arith) refl
      refl refl
