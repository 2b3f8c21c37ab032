-- ===== src/FileSystem/Pool.antt =====
-- The bump allocator behind `operator new` (src/libc/filesystem.cpp): it never frees.
use mr_hak_os.Prelude.{
  ℕ, ◌+◌, ◌*◌, ◌/◌, ◌%◌, ◌≤◌, ◌≡◌, Bool, true, false, ltb, if◌then◌else◌, arith,
}

-- FS_MEMORY_POOL_SIZE
abbrev pub memory_pool_size : ℕ
memory_pool_size = 4096

-- (n + 15) & ~15
abbrev pub align16 : ℕ → ℕ
align16 n = (n + 15) / 16 * 16

-- `operator new(size)` at the value of `next_free`: whether it returns a pointer, and the new value.
unfoldable pub pool_alloc : ℕ → ℕ → Bool × ℕ
pool_alloc size next_free =
    let start = align16 next_free in
    if ltb memory_pool_size (start + size) then (false, start) else (true, align16 (start + size))

-- A successful allocation lies in the pool, behind everything handed out before, and the
-- next one starts behind it; a failed one changes nothing of an aligned `next_free`.
pub pool_alloc_bounds :
    (size next_free : ℕ)
    → next_free % 16 ≡ 0
    → next_free ≤ memory_pool_size
    → ((pool_alloc size next_free).1 % 16 ≡ 0)
      × ((pool_alloc size next_free).1 ≤ memory_pool_size)
      × (next_free ≤ (pool_alloc size next_free).1)
      × ((pool_alloc size next_free).0 ≡ false → (pool_alloc size next_free).1 ≡ next_free)
      × ((pool_alloc size next_free).0 ≡ true → next_free + size ≤ (pool_alloc size next_free).1)
unfolding pool_alloc
pool_alloc_bounds size next_free a h = ground arith
