-- ===== src/Memory/Laws.antt =====
-- The counter of internal/memory/controller.go: what Allocate and Release do to it.
use record_storage.Common.{ℕ, ◌+◌, ◌<◌, ◌≡◌, Option, none, some, leb, if◌then◌else◌, arith}
use record_storage.Common.Words.{half64, u64_mod}
use record_storage.Memory.{Controller, MemoryError, allocate, release, memory_limit}

-- Where the limit and the sum of counter and request are below 2 ^ 63, Allocate takes the bytes
-- exactly when that sum is at most the limit, and otherwise fails and changes nothing.
pub allocate_exact :
    (c : Controller) (size : ℕ)
    → c.max_bytes < half64
    → c.used_bytes + size < half64
    → allocate c size ≡ (
        if leb (c.used_bytes + size) c.max_bytes
        then (record c { used_bytes = c.used_bytes + size }, none)
        else (c, some memory_limit))
unfolding allocate
allocate_exact c size max fits = ground arith

-- Gives the bytes back if the allocation had succeeded.
abbrev pub settle : ℕ → Controller × Option MemoryError → Controller
settle size (c, none) = release c size
settle size (c, some e) = c

-- From any counter and for any size: the counter is back where it was after the Release of the
-- same size if Allocate succeeded, and at once if Allocate failed.
pub release-allocate :
    (c : Controller) (size : ℕ)
    → c.used_bytes < u64_mod
    → size < u64_mod
    → settle size (allocate c size) ≡ c
unfolding allocate release
release-allocate c size h k = ground arith
