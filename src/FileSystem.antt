-- ===== src/FileSystem.antt =====
-- src/libc/filesystem.cpp and include/filesystem.hpp: the in-memory file system.
-- A pointer to an entry is its place in the list of the entries that `new FileSystemEntry` has
-- returned, oldest first; `none` is the null pointer. `none` as the result of an operation is a
-- fault. The pool behind `operator new` is static storage that is handed out once, so a new entry
-- and a new buffer are all zeros. The debug writes to video memory (`hidden_vga_touch`) are left out.
pub mod Pool
pub mod Entry
pub mod Path
pub mod State
pub mod Transfer
pub mod Read
pub mod Valid
pub mod Names
pub mod Lookup
pub mod Growth
pub mod Preserve
pub mod Capacity
pub mod NewEntry
pub mod RoundTrip
pub mod LongNames
pub mod Contents
pub mod CreateRead
pub mod PathBounds
pub mod NoContent
pub mod History
mod Tests
use mr_hak_os.Prelude.{
  ℕ, zero, suc, ◌+◌, ◌-◌, List, [], ◌∷◌, ◌++◌, Bool, true, false, Option, none, some, ◌==◌, leb,
  ltb, if◌then◌else◌, length, set, drop, replicate, not, ◌*◌, ◌≤◌, ◌<◌, ◌≡◌, ◌≢◌, ◌∙◌, ◌⊎◌, refl,
  inl, inr, arith,
}
use mr_hak_os.CString.{strlen, strcmp, is_equal}
use Pool.{pool_alloc}
use Entry.{
  FileType, is_directory, is_hak_file, FileSystemEntry, EntryPtr, zeroed, copy_text, init_entry,
  add_child, max_name_length, max_files, max_file_size, max_path_depth, entry_size, has_extension,
  dot_hak,
}
use Path.{Output, put, write_names}
use State.{FileSystem, ◌>>=◌, deref, find_entry, is_null, is_empty}

abbrev pub root_name : List ℕ
root_name = b'/' ∷ []

-- The constructor: null pointers, nothing allocated yet.
abbrev pub constructed : FileSystem
constructed = record { root = none; current_directory = none; entries = []; next_free = 0 }

-- new FileSystemEntry: the pointer, or null, and the pool behind it.
unfoldable pub new_entry : FileSystem → EntryPtr × FileSystem
new_entry fs =
    let (done, next) = pool_alloc entry_size fs.next_free in
    if done
    then (
      some (length fs.entries),
      record fs { entries = fs.entries ++ zeroed ∷ []; next_free = next },
    )
    else (none, record fs { next_free = next })

-- *p = entry, through a pointer that is not null.
abbrev pub write_entry : ℕ → FileSystemEntry → FileSystem → FileSystem
write_entry p entry fs = record fs { entries = set fs.entries p entry }

unfoldable pub init : FileSystem → Option FileSystem
unfolding new_entry
init fs =
    let (p, fs') = new_entry fs in
    (deref fs'.entries p >>= λ entry. some (record fs' {
      root = p;
      current_directory = p;
      entries =
          set fs'.entries (length fs.entries) (init_entry entry root_name FileType.directory none);
    }))

-- `new FileSystemEntry`, `initEntry` and the link into the current directory, as `mkdir` and
-- `createHakFile` do them: the pointer (null when the pool is used up) and the new state.
unfoldable pub add_entry :
    FileSystem → ℕ → FileSystemEntry → List ℕ → FileType → EntryPtr × FileSystem
unfolding new_entry
add_entry fs cur dir name type =
    let (p, fs') = new_entry fs in
    elim p [
      | none ↦ (none, fs')
      | some q ↦ (
        some q,
        write_entry cur (add_child dir q)
            (write_entry q (init_entry zeroed name type (some cur)) fs'),
      )
    ]

unfoldable pub mkdir : Option (List ℕ) → FileSystem → Option (Bool × FileSystem)
mkdir none fs = some (false, fs)
mkdir (some name) fs = if is_empty name then some (false, fs) else do
  dir ← deref fs.entries fs.current_directory
  found ← find_entry fs.entries name dir
  cur ← fs.current_directory
  if not (is_null found)
      then some (false, fs)
      else if leb max_files dir.child_count
      then some (false, fs)
      else (let (p, fs') = add_entry fs cur dir name FileType.directory in
          some (not (is_null p), fs'))

-- The last part of `cd`: a directory of that name below the current one.
unfoldable pub enter : EntryPtr → FileSystem → Option (Bool × FileSystem)
enter none fs = some (false, fs)
enter (some p) fs = do
  entry ← deref fs.entries (some p)
  some (
      if is_directory entry.type
      then (true, record fs { current_directory = some p })
      else (false, fs))

unfoldable pub cd : List ℕ → FileSystem → Option (Bool × FileSystem)
cd path fs =
    if is_equal (strcmp path root_name)
    then some (true, record fs { current_directory = fs.root })
    else if is_equal (strcmp path (b'.' ∷ []))
    then some (true, fs)
    else (do
      dir ← deref fs.entries fs.current_directory
      if is_equal (strcmp path (b'.' ∷ b'.' ∷ []))
          then some (
              if is_null dir.parent
              then (false, fs)
              else (true, record fs { current_directory = dir.parent }))
          else (find_entry fs.entries path dir >>= λ found. enter found fs))

-- The content part of `createHakFile`: a new buffer, filled and hung into the entry `p`.
unfoldable pub write_content : ℕ → List ℕ → FileSystem → Option (Bool × FileSystem)
write_content p content fs =
    let len =
      if ltb (max_file_size - 1) (strlen content) then max_file_size - 1 else strlen content in
    let (done, next) = pool_alloc (len + 1) fs.next_free in
    if done
    then (deref fs.entries (some p) >>= λ entry. some (
      true,
      write_entry p
          (record entry {
            content = some (copy_text (replicate (len + 1) 0) content len);
            content_size = len;
          })
          (record fs { next_free = next }),
    ))
    else some (false, record fs { next_free = next })

-- The entry whose content `createHakFile` writes: an old file of that name, or a new one. The
-- inner option is empty where the function returns false.
unfoldable pub hak_target : List ℕ → FileSystem → Option (EntryPtr × FileSystem)
hak_target name fs = do
  dir ← deref fs.entries fs.current_directory
  found ← find_entry fs.entries name dir
  cur ← fs.current_directory
  if is_null found
      then (if leb max_files dir.child_count
          then some (none, fs)
          else some (add_entry fs cur dir name FileType.hak_file))
      else (do
        entry ← deref fs.entries found
        some (if is_hak_file entry.type then (found, fs) else (none, fs)))

-- `strlen(content)` of a null pointer is a fault.
unfoldable pub create_hak_file :
    Option (List ℕ) → Option (List ℕ) → FileSystem → Option (Bool × FileSystem)
create_hak_file none content fs = some (false, fs)
create_hak_file (some name) content fs =
    if is_empty name
    then some (false, fs)
    else if not (has_extension (some name) (some dot_hak))
    then some (false, fs)
    else (hak_target name fs >>= λ (target, fs'). elim target [
      | none ↦ some (false, fs')
      | some p ↦ (content >>= λ bytes. write_content p bytes fs')
    ])
