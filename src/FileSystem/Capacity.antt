-- ===== src/FileSystem/Capacity.antt =====
-- How many entries the pool can hold, against FS_MAX_FILES.
use mr_hak_os.FileSystem.Valid.{IsValid, child_total}
use mr_hak_os.Prelude.{
  ℕ, zero, suc, ◌≤◌, ◌≡◌, List, [], ◌∷◌, false, none, some, arith, get_elem?, length, leb,
}
use mr_hak_os.FileSystem.State.{deref, FileSystem}
use mr_hak_os.FileSystem.Entry.{FileSystemEntry, EntryPtr, max_files}

child_count-le :
    (es : List FileSystemEntry) (k : ℕ) (e : FileSystemEntry)
    → get_elem? es k ≡ some e
    → e.child_count ≤ child_total es
child_count-le [] k e h = absurd (cc)
child_count-le (x ∷ es) zero e h = let h' : x ≡ e = cc in rw (← h') (omega arith)
child_count-le (x ∷ es) (suc k) e h = omega (arith, child_count-le es k e h)

-- In the x86_64 build a valid file system has between 1 and 11 entries, the root included, and every one of them
-- has at most 10 children; so the test for a full directory in `mkdir` and `createHakFile` never succeeds.
pub entries_bounds :
    (fs : FileSystem) (p : EntryPtr) (e : FileSystemEntry)
    → IsValid fs
    → deref fs.entries p ≡ some e
    → (1 ≤ length fs.entries)
      × (length fs.entries ≤ 11)
      × (e.child_count ≤ 10)
      × (leb max_files e.child_count ≡ false)
unfolding deref
entries_bounds fs none e v h = absurd (cc)
entries_bounds fs (some p) e v h =
    let small = child_count-le fs.entries p e h in
    (
      omega (arith, v.tree),
      omega (arith, v.pool_used, v.pool_end),
      omega (arith, v.tree, small, v.pool_used, v.pool_end),
      full_test e (omega (arith, v.tree, small, v.pool_used, v.pool_end)),
    )
  where
    full_test : (x : FileSystemEntry) → x.child_count ≤ 10 → leb max_files x.child_count ≡ false
    full_test x b = ground arith
