-- ===== src/Patch/Laws.antt =====
-- What MemoryPatch.cpp relies on in the documentation of Windows.
use helen_gamehook.Common.{ℕ, ◌+◌, ◌≡◌, ◌≢◌, ◌≤◌, ◌<◌, true, none, some, if◌then◌else◌}
use helen_gamehook.Common.Results.{ok}
use helen_gamehook.Patch.{Windows, Info, touches}

module _ (w : Windows) where
  open w use {K, protection, virtual_query, virtual_protect, flush_instruction_cache}

  pub record Documented : Type 0 where
    -- A change of protection that succeeds reaches every page that holds a byte of the range, and
    -- no other; one that fails changes nothing, and its error is not 0.
    pub protects :
        (k : K) (a n v p : ℕ)
        → (virtual_protect k a n v).0 ≡ none
        → protection (virtual_protect k a n v).1 p ≡ (if touches a n p then v else protection k p)
    pub refuses :
        (k : K) (a n v p : ℕ) {e : ℕ}
        → (virtual_protect k a n v).0 ≡ some e
        → protection (virtual_protect k a n v).1 p ≡ protection k p
    pub protect_error : (k : K) (a n v : ℕ) → (virtual_protect k a n v).0 ≢ some 0
    -- The instruction cache has no part in the protections.
    pub flushes :
        (k : K) (a n p : ℕ) → protection (flush_instruction_cache k a n).1 p ≡ protection k p
    pub flush_error : (k : K) (a n : ℕ) → (flush_instruction_cache k a n).0 ≢ some 0
    -- The region that is described holds the address, and all its pages have its protection.
    pub holds :
        (k : K) (a : ℕ) {info : Info}
        → virtual_query k a ≡ ok info
        → (info.base_address ≤ a) × (a < info.base_address + info.region_size)
    pub uniform :
        (k : K) (a p : ℕ) {info : Info}
        → virtual_query k a ≡ ok info
        → touches info.base_address info.region_size p ≡ true
        → protection k p ≡ info.protect
