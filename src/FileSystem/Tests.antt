-- ===== src/FileSystem/Tests.antt =====
-- Concrete file systems, and the theorems at them.
use mr_hak_os.FileSystem.History.{run, makes_dir, changes_dir, writes_file, moves, history-IsValid}
use mr_hak_os.FileSystem.State.{FileSystem, deref, ◌>>=◌, find_entry, find_from}
use mr_hak_os.Prelude.{
  ℕ, ◌≤◌, ◌≡◌, refl, List, [], ◌∷◌, Bool, true, false, Option, none, some, arith, length, replicate,
  get_elem?,
}
use mr_hak_os.FileSystem.Path.{Output}
use mr_hak_os.FileSystem.{
  create_hak_file, mkdir, init, cd, constructed, root_name, enter, hak_target, write_content,
  add_entry, new_entry,
}
use mr_hak_os.FileSystem.Entry.{
  FileSystemEntry, init_entry, zeroed, FileType, copy_text, add_child, has_extension,
}
use mr_hak_os.FileSystem.Valid.{IsValid}
use mr_hak_os.FileSystem.History.{booted, booted-IsValid}
use mr_hak_os.CString.{strlen, strcmp, memcpy}
use mr_hak_os.FileSystem.Preserve.{Safe, mkdir-Safe}
use mr_hak_os.FileSystem.Preserve.Navigate.{cd-Safe}
use mr_hak_os.FileSystem.Read.{read_hak_file, get_current_path}
use mr_hak_os.FileSystem.Pool.{pool_alloc}
use mr_hak_os.FileSystem.Transfer.{cp, last_slash}
use mr_hak_os.FileSystem.RoundTrip.{dots, mkdir-cd}
use mr_hak_os.FileSystem.PathBounds.{get_current_path_overflow, Ends, get_current_path_bounds}
use mr_hak_os.FileSystem.LongNames.{long_name_never_found}
use mr_hak_os.FileSystem.Preserve.Copying.{cp-Safe, Stocked}
use mr_hak_os.FileSystem.Preserve.Files.{create_hak_file-Safe}
use mr_hak_os.FileSystem.Contents.{Shows, shown}
use mr_hak_os.FileSystem.CreateRead.{create-read}
use mr_hak_os.FileSystem.Growth.{grown-IsValid, grown}
use mr_hak_os.FileSystem.Lookup.{Cell}
use mr_hak_os.FileSystem.NoContent.{create_out_of_memory, cp_without_content}

abbrev f_hak : List ℕ
f_hak = b'f' ∷ b'.' ∷ b'h' ∷ b'a' ∷ b'k' ∷ []

abbrev g_hak : List ℕ
g_hak = b'g' ∷ b'.' ∷ b'h' ∷ b'a' ∷ b'k' ∷ []

abbrev a_dir : List ℕ
a_dir = b'a' ∷ []

abbrev hi : List ℕ
hi = b'h' ∷ b'i' ∷ []

abbrev state : Option (Bool × FileSystem) → FileSystem
state none = booted
state (some (done, fs)) = fs

-- With the file "f.hak" in the root.
unfoldable with_file : FileSystem
with_file = state (create_hak_file (some f_hak) (some hi) booted)

-- With the directory "a" in the root, and inside it.
unfoldable with_dir : FileSystem
with_dir = state (mkdir (some a_dir) booted)

unfoldable in_dir : FileSystem
unfolding with_dir
in_dir = state (cd a_dir with_dir)

-- The pool has 368 bytes left.
abbrev nearly_full : FileSystem
nearly_full = record booted { next_free = 3728 }

nearly_full-IsValid : IsValid nearly_full
nearly_full-IsValid =
    let v = booted-IsValid in
    record {
      rooted = v.rooted;
      here = v.here;
      each = v.each;
      tree = v.tree;
      pool_used = unfold booted in omega arith;
      pool_end = omega arith;
      pool_aligned = refl;
    }

history-IsValid_example :
    (fs : FileSystem) × ((init constructed
        >>= run (
            makes_dir (some a_dir)
            ∷ changes_dir a_dir
            ∷ writes_file (some f_hak) hi
            ∷ moves f_hak a_dir
            ∷ []))
      ≡ some fs)
    × IsValid fs
    × (length fs.entries ≤ 11)
history-IsValid_example = history-IsValid (
    makes_dir (some a_dir)
    ∷ changes_dir a_dir
    ∷ writes_file (some f_hak) hi
    ∷ moves f_hak a_dir
    ∷ [])

create-read_example :
    (out : List ℕ) × (read_hak_file (some f_hak) (some (replicate 10 7)) 10 with_file
      ≡ some (true, some out))
    × Shows hi (shown hi 10) out
unfolding with_file booted mkdir cd enter create_hak_file hak_target write_content find_entry
    find_from deref init_entry add_entry new_entry pool_alloc strcmp strlen copy_text memcpy
    add_child has_extension
create-read_example =
    create-read booted with_file f_hak hi (replicate 10 7) 10 booted-IsValid (omega arith)
      (λ e. absurd (cc)) (omega arith) refl

mkdir-cd_example :
    (cd a_dir with_dir
      ≡ some (true, record with_dir { current_directory = some (length booted.entries) }))
    × (cd dots (record with_dir { current_directory = some (length booted.entries) })
        ≡ some (true, with_dir))
unfolding with_dir booted mkdir cd enter create_hak_file hak_target write_content find_entry
    find_from deref init_entry add_entry new_entry pool_alloc strcmp strlen copy_text memcpy
    add_child has_extension
mkdir-cd_example =
    mkdir-cd booted with_dir a_dir booted-IsValid (omega arith)
      (record { not_root = refl; not_dot = refl; not_dots = refl }) refl

with_file-IsValid : IsValid with_file
unfolding with_file booted mkdir cd enter create_hak_file hak_target write_content find_entry
    find_from deref init_entry add_entry new_entry pool_alloc strcmp strlen copy_text memcpy
    add_child has_extension
with_file-IsValid = create_hak_file-Safe booted (some f_hak) hi booted-IsValid

with_file-Stocked : Stocked with_file
unfolding with_file booted mkdir cd enter create_hak_file hak_target write_content find_entry
    find_from deref init_entry add_entry new_entry pool_alloc strcmp strlen copy_text memcpy
    add_child has_extension
with_file-Stocked = ((λ h. absurd (cc)), ((λ h e. absurd (cc)), tt))

abbrev top : FileSystemEntry
top = init_entry zeroed root_name FileType.directory none

-- The copy of "f.hak" under another name.
cp-Safe_example : Safe (cp f_hak g_hak with_file)
cp-Safe_example = cp-Safe with_file f_hak g_hak with_file-IsValid with_file-Stocked

get_current_path_bounds_example :
    (o : Output) × (get_current_path (some (replicate 10 7)) 10 booted ≡ some (some o)) × Ends 10 o
get_current_path_bounds_example =
    get_current_path_bounds booted (replicate 10 7) 10 booted-IsValid refl (omega arith)

with_dir-IsValid : IsValid with_dir
unfolding with_dir booted mkdir cd enter create_hak_file hak_target write_content find_entry
    find_from deref init_entry add_entry new_entry pool_alloc strcmp strlen copy_text memcpy
    add_child has_extension
with_dir-IsValid = mkdir-Safe booted (some a_dir) booted-IsValid

in_dir-IsValid : IsValid in_dir
unfolding in_dir with_dir booted mkdir cd enter create_hak_file hak_target write_content find_entry
    find_from deref init_entry add_entry new_entry pool_alloc strcmp strlen copy_text memcpy
    add_child has_extension
in_dir-IsValid = cd-Safe with_dir a_dir with_dir-IsValid

abbrev one_byte : List ℕ
one_byte = 7 ∷ []

get_current_path_overflow_example :
    (o : Output) × (get_current_path (some one_byte) 1 in_dir ≡ some (some o))
    × (o.pos ≡ length one_byte)
unfolding in_dir with_dir booted mkdir cd enter create_hak_file hak_target write_content find_entry
    find_from deref init_entry add_entry new_entry pool_alloc strcmp strlen copy_text memcpy
    add_child has_extension
get_current_path_overflow_example =
    get_current_path_overflow in_dir one_byte in_dir-IsValid refl refl

long_name_never_found_example :
    (fs' : FileSystem) × (cd (replicate 64 b'x') booted ≡ some (false, booted))
    × (mkdir (some (replicate 64 b'x')) booted ≡ some (true, fs'))
    × IsValid fs'
    × (cd (replicate 64 b'x') fs' ≡ some (false, fs'))
unfolding strlen pool_alloc booted
long_name_never_found_example =
    long_name_never_found booted (replicate 64 b'x') booted-IsValid (omega arith) refl

create_out_of_memory_example :
    (fs' : FileSystem) × (dir' e : FileSystemEntry) × (create_hak_file
        (some f_hak)
        (some hi)
        nearly_full
      ≡ some (false, fs'))
    × (deref fs'.entries fs'.current_directory ≡ some dir')
    × (find_entry fs'.entries f_hak dir' ≡ some (some (length nearly_full.entries)))
    × (get_elem? fs'.entries (length nearly_full.entries) ≡ some e)
    × (e.content ≡ none)
unfolding booted deref find_entry find_from init_entry has_extension strcmp strlen pool_alloc
create_out_of_memory_example =
    create_out_of_memory nearly_full top f_hak hi nearly_full-IsValid refl refl refl (omega arith)
      refl refl refl

unfoldable root_cell : Cell booted booted.current_directory
unfolding booted
root_cell = record {
  place = 0;
  entry = top;
  points = refl;
  loads = refl;
  fine = booted-IsValid.each.0;
}

-- The root with a file that has no content.
unfoldable bare : FileSystem
bare = grown booted 0 top f_hak FileType.hak_file

bare-IsValid : IsValid bare
unfolding bare root_cell init_entry pool_alloc booted
bare-IsValid =
    grown-IsValid booted root_cell f_hak FileType.hak_file booted-IsValid (omega arith) refl

cp_without_content_example : cp f_hak g_hak bare ≡ none
unfolding bare booted deref find_entry find_from init_entry has_extension strcmp strlen pool_alloc
    copy_text memcpy add_child last_slash
cp_without_content_example =
    cp_without_content bare (add_child top 1) (init_entry zeroed f_hak FileType.hak_file (some 0)) 1
      f_hak g_hak bare-IsValid refl refl refl refl refl refl refl refl refl refl
