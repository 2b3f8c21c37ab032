-- ===== src/FileSystem/Transfer.antt =====
-- `cp` and `mv` of src/libc/filesystem.cpp.
use mr_hak_os.Prelude.{
  ℕ, ◌+◌, List, [], ◌∷◌, Bool, true, false, Option, none, some, ◌==◌, leb, if◌then◌else◌, drop,
  replicate, not,
}
use mr_hak_os.CString.{strlen}
use mr_hak_os.FileSystem.Entry.{
  is_directory, is_hak_file, FileSystemEntry, EntryPtr, copy_text, max_name_length, has_extension,
  dot_hak,
}
use mr_hak_os.FileSystem.State.{FileSystem, ◌>>=◌, deref, find_entry, is_null}
use mr_hak_os.FileSystem.{write_entry, create_hak_file}

-- The loop for `lastSlash`: the place of the last '/' from place `i` on, or what was found before.
unfoldable pub last_slash : List ℕ → ℕ → Option ℕ → Option ℕ
last_slash [] i found = found
last_slash (c ∷ s) i found =
    let rest = last_slash s (i + 1) (if c == b'/' then some i else found) in
    if c == 0 then found else rest

-- The directory and the file name that a destination stands for. The inner option is empty where
-- `cp` returns false.
unfoldable pub cp_target : List ℕ → FileSystem → Option (Option (EntryPtr × List ℕ))
unfolding last_slash
cp_target destination fs = elim (last_slash destination 0 none) [
  | none ↦ some (some (fs.current_directory, destination))
  | some n ↦ if leb max_name_length n then some none else (do
    here ← deref fs.entries fs.current_directory
    found ← find_entry fs.entries (copy_text (replicate max_name_length 0) destination n) here
    if is_null found then some none else (do
      entry ← deref fs.entries found
      some (if is_directory entry.type then some (found, drop (n + 1) destination) else none)))
]

-- The part of `cp` behind the checks of the source: `content` is that of the source file.
unfoldable pub cp_to : Option (List ℕ) → EntryPtr → List ℕ → FileSystem → Option (Bool × FileSystem)
cp_to content target name fs = do
  dir ← deref fs.entries target
  found ← find_entry fs.entries name dir
  if not (is_null found)
      then some (false, fs)
      else if not (has_extension (some name) (some dot_hak))
      then some (false, fs)
      else (do
        (done, fs') ← create_hak_file (some name) content (record fs { current_directory = target })
        some (done, record fs' { current_directory = fs.current_directory }))

unfoldable pub cp : List ℕ → List ℕ → FileSystem → Option (Bool × FileSystem)
cp source destination fs = do
  here ← deref fs.entries fs.current_directory
  found ← find_entry fs.entries source here
  if is_null found then some (false, fs) else (do
    entry ← deref fs.entries found
    if not (is_hak_file entry.type) then some (false, fs) else (do
      parsed ← cp_target destination fs
      elim parsed [
        | none ↦ some (false, fs)
        | some (target, name) ↦ cp_to entry.content target name fs
      ]))

-- The name of an entry is replaced in place.
unfoldable pub rename :
    EntryPtr → FileSystemEntry → List ℕ → FileSystem → Option (Bool × FileSystem)
rename none entry destination fs = none
rename (some p) entry destination fs =
    if leb max_name_length (strlen destination)
    then some (false, fs)
    else some (
      true,
      write_entry p (record entry { name = copy_text entry.name destination (strlen destination) })
          fs,
    )

unfoldable pub mv : List ℕ → List ℕ → FileSystem → Option (Bool × FileSystem)
mv source destination fs = do
  here ← deref fs.entries fs.current_directory
  found ← find_entry fs.entries source here
  if is_null found then some (false, fs) else (do
    taken ← find_entry fs.entries destination here
    if not (is_null taken) then some (false, fs) else (do
      entry ← deref fs.entries found
      let refused =
          if is_hak_file entry.type
          then not (has_extension (some destination) (some dot_hak))
          else false
      if refused then some (false, fs) else rename found entry destination fs))
