-- ===== src/FileSystem/Read.antt =====
-- `readHakFile` and `getCurrentPath` of src/libc/filesystem.cpp.
use mr_hak_os.Prelude.{
  ℕ, zero, suc, ◌-◌, List, [], ◌∷◌, Bool, true, false, Option, none, some, ◌==◌, leb, ltb,
  if◌then◌else◌, set,
}
use mr_hak_os.FileSystem.Entry.{is_hak_file, FileSystemEntry, EntryPtr, copy_text, max_path_depth}
use mr_hak_os.FileSystem.Path.{Output, put, write_names}
use mr_hak_os.FileSystem.State.{FileSystem, ◌>>=◌, deref, find_entry, is_null}

-- The bytes that the copy loop reads; none are read of an empty file.
abbrev pub bytes_of : FileSystemEntry → Option (List ℕ)
bytes_of entry = elim entry.content [
  | none ↦ if entry.content_size == 0 then some [] else none
  | some bytes ↦ some bytes
]

-- The new contents of the caller's buffer, and the result.
unfoldable pub read_hak_file :
    Option (List ℕ) → Option (List ℕ) → ℕ → FileSystem → Option (Bool × Option (List ℕ))
read_hak_file none buffer size fs = some (false, buffer)
read_hak_file (some name) none size fs = some (false, none)
read_hak_file (some name) (some buffer) size fs =
    if size == 0 then some (false, some buffer) else do
      dir ← deref fs.entries fs.current_directory
      found ← find_entry fs.entries name dir
      if is_null found then some (false, some buffer) else (do
        entry ← deref fs.entries found
        if is_hak_file entry.type
            then (do
              bytes ← bytes_of entry
              let n = if leb size entry.content_size then size - 1 else entry.content_size
              some (true, some (copy_text buffer bytes n)))
            else some (false, some buffer))

abbrev pub same_ptr : EntryPtr → EntryPtr → Bool
same_ptr none none = true
same_ptr none (some q) = false
same_ptr (some p) none = false
same_ptr (some p) (some q) = p == q

-- while (current != root && depth < FS_MAX_PATH_DEPTH): at most `n` more rounds. The names of the
-- entries that it passes, the last one first.
unfoldable pub climb : ℕ → FileSystem → EntryPtr → List (List ℕ) → Option (List (List ℕ))
climb zero fs current names = some names
climb (suc n) fs current names =
    let rest =
      (deref fs.entries current >>= λ entry. climb n fs entry.parent (entry.name ∷ names)) in
    if same_ptr current fs.root then some names else rest

-- The text behind the components, and its terminator.
unfoldable pub write_path : List (List ℕ) → List ℕ → ℕ → Output
write_path names buffer size =
    let o = write_names names (size - 1) (put b'/' (record { buffer = set buffer 0 0; pos = 0 })) in
    record o { buffer = set o.buffer o.pos 0 }

-- The buffer when `getCurrentPath` returns, with the place of its terminator.
unfoldable pub get_current_path : Option (List ℕ) → ℕ → FileSystem → Option (Option Output)
get_current_path none size fs = some none
get_current_path (some buffer) size fs =
    if size == 0
    then some (some (record { buffer = buffer; pos = 0 }))
    else if same_ptr fs.current_directory fs.root
    then some (
        some (
          if ltb 1 size
          then record { buffer = set (set (set buffer 0 0) 0 b'/') 1 0; pos = 1 }
          else record { buffer = set buffer 0 0; pos = 0 }))
    else (climb max_path_depth fs fs.current_directory [] >>= λ names.
        some (some (write_path names buffer size)))
