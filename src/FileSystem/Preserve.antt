-- ===== src/FileSystem/Preserve.antt =====
-- No operation on directories and files faults in a valid file system, and each keeps it valid.
pub mod Navigate
pub mod Files
pub mod Moves
pub mod Longer
pub mod Copying
use mr_hak_os.FileSystem.Valid.{IsValid, IsEntry, child_total-set}
use mr_hak_os.FileSystem.{mkdir, add_entry, write_entry}
use mr_hak_os.Prelude.{
  ℕ, ◌<◌, ◌≡◌, List, Bool, false, Option, none, some, inl, inr, arith, if◌then◌else◌, Bool-cases,
  get_elem?, leb, not, length, subst, set, sym, length-set, AllFrom-set, zero, suc, ◌+◌, ◌-◌, ◌*◌,
  ◌≤◌, ◌≢◌, ◌∙◌, ◌⊎◌, refl, [], ◌∷◌, ◌++◌, true, ◌==◌,
}
use mr_hak_os.FileSystem.State.{FileSystem, is_empty, is_null}
use mr_hak_os.FileSystem.Entry.{FileSystemEntry, FileType, EntryPtr, max_files, entry_size}
use mr_hak_os.FileSystem.Pool.{pool_alloc, pool_alloc_bounds}
use mr_hak_os.FileSystem.Lookup.{Cell, Search, Cell-here, deref-Cell, Search-in}
use mr_hak_os.FileSystem.Growth.{add_entry-grown, grown-IsValid, add_entry-null}

-- The operation returns, and what it leaves is valid.
abbrev pub Safe : Option (Bool × FileSystem) → Type 0
Safe none = ⊥
Safe (some (done, fs)) = IsValid fs

-- A change of one entry that keeps its number of children.
pub update-IsValid :
    (fs : FileSystem) (p : ℕ) (e e' : FileSystemEntry)
    → IsValid fs
    → get_elem? fs.entries p ≡ some e
    → IsEntry (length fs.entries) p e'
    → e'.child_count ≡ e.child_count
    → IsValid (write_entry p e' fs)
update-IsValid fs p e e' v h ok same =
    let size : length (set fs.entries p e') ≡ length fs.entries = length-set fs.entries p e' in
    record {
      rooted = v.rooted;
      here = rw size v.here;
      each =
          rw size
            (AllFrom-set (IsEntry (length fs.entries)) 0 p p fs.entries e' v.each ok (omega arith));
      tree = omega (arith, v.tree, size, child_total-set fs.entries p e e' h);
      pool_used = omega (arith, v.pool_used, size);
      pool_end = v.pool_end;
      pool_aligned = v.pool_aligned;
    }

-- An allocation alone.
pub pool-IsValid :
    (fs : FileSystem) (size : ℕ)
    → IsValid fs
    → IsValid (record fs { next_free = (pool_alloc size fs.next_free).1 })
pool-IsValid fs size v =
    let pool = pool_alloc_bounds size fs.next_free v.pool_aligned v.pool_end in
    record {
      rooted = v.rooted;
      here = v.here;
      each = v.each;
      tree = v.tree;
      pool_used = omega (arith, v.pool_used, pool.2);
      pool_end = pool.1;
      pool_aligned = pool.0;
    }

pub add_entry-IsValid :
    (fs : FileSystem) (c : Cell fs fs.current_directory) (name : List ℕ) (type : FileType)
    → IsValid fs
    → c.entry.child_count < max_files
    → IsValid (add_entry fs c.place c.entry name type).1
add_entry-IsValid fs c name type v room = elim (Bool-cases (pool_alloc entry_size fs.next_free).0) [
  | inl done ↦
      rw (add_entry-grown fs c.place c.entry name type done)
        (grown-IsValid fs c name type v room done)
  | inr full ↦ rw (add_entry-null fs c.place c.entry name type full) (pool-IsValid fs entry_size v)
]

-- What `mkdir` does once its two lookups are known.
abbrev pub mkdir_result : FileSystem → ℕ → FileSystemEntry → List ℕ → EntryPtr → Bool × FileSystem
mkdir_result fs cur dir name found =
    if not (is_null found)
    then (false, fs)
    else if leb max_files dir.child_count
    then (false, fs)
    else (let (p, fs') = add_entry fs cur dir name FileType.directory in (not (is_null p), fs'))

pub mkdir_run :
    (fs : FileSystem) (c : Cell fs fs.current_directory) (name : List ℕ)
    (s : Search fs name c.entry)
    → is_empty name ≡ false
    → mkdir (some name) fs ≡ some (mkdir_result fs c.place c.entry name s.result)
unfolding mkdir
mkdir_run fs c name s e = ground (arith, deref-Cell fs fs.current_directory c, s.runs, c.points)

mkdir_result-IsValid :
    (fs : FileSystem) (c : Cell fs fs.current_directory) (name : List ℕ) (found : EntryPtr)
    → IsValid fs
    → IsValid (mkdir_result fs c.place c.entry name found).1
mkdir_result-IsValid fs c name (some p) v = v
mkdir_result-IsValid fs c name none v = elim (Bool-cases (leb max_files c.entry.child_count)) [
  | inl full ↦ rw full v
  | inr room ↦ rw room (add_entry-IsValid fs c name FileType.directory v (ground arith))
]

-- In a valid file system `mkdir` returns, whatever the name, and leaves it valid.
pub mkdir-Safe : (fs : FileSystem) (name : Option (List ℕ)) → IsValid fs → Safe (mkdir name fs)
unfolding mkdir
mkdir-Safe fs none v = v
mkdir-Safe fs (some name) v = elim (Bool-cases (is_empty name)) [
  | inl e ↦ rw e v
  | inr e ↦
      let c = Cell-here fs v in
      let s = Search-in fs name c.place c.entry c.fine in
      subst Safe (sym (mkdir_run fs c name s e)) (mkdir_result-IsValid fs c name s.result v)
]
