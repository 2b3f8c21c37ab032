-- ===== src/FileSystem/Preserve/Longer.antt =====
-- `createHakFile` never loses an entry.
use mr_hak_os.Prelude.{
  ℕ, ◌+◌, ◌≤◌, List, Bool, Option, none, some, inl, inr, arith, length, Bool-cases, Option-cases,
  get_elem?, length-set, subst, sym,
}
use mr_hak_os.FileSystem.State.{FileSystem, deref, ◌>>=◌, is_empty, find_entry}
use mr_hak_os.FileSystem.{create_hak_file, write_content, hak_target, add_entry}
use mr_hak_os.FileSystem.Entry.{
  EntryPtr, FileSystemEntry, FileType, entry_size, has_extension, dot_hak,
}
use mr_hak_os.FileSystem.Preserve.Files.{write_to, kept, filled, create_hak_file_run}
use mr_hak_os.FileSystem.Pool.{pool_alloc}
use mr_hak_os.FileSystem.Growth.{add_entry-grown, length-grown, add_entry-null}

-- No entry is lost.
abbrev pub Longer : ℕ → Option (Bool × FileSystem) → Type 0
Longer n none = Unit
Longer n (some (done, fs)) = n ≤ length fs.entries

abbrev pub LongerTarget : ℕ → Option (EntryPtr × FileSystem) → Type 0
LongerTarget n none = Unit
LongerTarget n (some (p, fs)) = n ≤ length fs.entries

write_content-Longer :
    (fs : FileSystem) (p n : ℕ) (content : List ℕ)
    → n ≤ length fs.entries
    → Longer n (write_content p content fs)
unfolding write_content deref
write_content-Longer fs p n content h =
    elim (Bool-cases (pool_alloc (kept content + 1) fs.next_free).0) [
      | inl done ↦ elim (Option-cases (get_elem? fs.entries p)) [
        | inl e ↦ rw (done, e) tt
        | inr (x, e) ↦
            rw (done, e) (omega (arith, length-set fs.entries p (filled x content (kept content))))
      ]
      | inr full ↦ rw full h
    ]

add_entry-Longer :
    (fs : FileSystem) (cur : ℕ) (dir : FileSystemEntry) (name : List ℕ)
    → LongerTarget (length fs.entries) (some (add_entry fs cur dir name FileType.hak_file))
add_entry-Longer fs cur dir name = elim (Bool-cases (pool_alloc entry_size fs.next_free).0) [
  | inl done ↦
      rw (add_entry-grown fs cur dir name FileType.hak_file done)
        (omega (arith, length-grown fs cur dir name FileType.hak_file))
  | inr full ↦ rw (add_entry-null fs cur dir name FileType.hak_file full) (omega arith)
]

hak_target-Longer :
    (fs : FileSystem) (name : List ℕ) → LongerTarget (length fs.entries) (hak_target name fs)
unfolding hak_target
hak_target-Longer fs name = elim (Option-cases (deref fs.entries fs.current_directory)) [
  | inl e ↦ rw e tt
  | inr (dir, e) ↦ elim (Option-cases (find_entry fs.entries name dir)) [
    | inl f ↦ rw (e, f) tt
    | inr (found, f) ↦ elim (Option-cases fs.current_directory) [
      | inl g ↦ ground arith
      | inr (cur, g) ↦ ground (arith, add_entry-Longer fs cur dir name)
    ]
  ]
]

write_to-Longer :
    (n : ℕ) (content : List ℕ) (t : Option (EntryPtr × FileSystem))
    → LongerTarget n t
    → Longer n (t >>= write_to content)
write_to-Longer n content none h = h
write_to-Longer n content (some (none, fs)) h = h
write_to-Longer n content (some (some p, fs)) h = write_content-Longer fs p n content h

pub create_hak_file-Longer :
    (fs : FileSystem) (name content : List ℕ)
    → Longer (length fs.entries) (create_hak_file (some name) (some content) fs)
unfolding create_hak_file
create_hak_file-Longer fs name content = elim (Bool-cases (is_empty name)) [
  | inl e ↦ rw e (omega arith)
  | inr e ↦ elim (Bool-cases (has_extension (some name) (some dot_hak))) [
    | inl x ↦ subst (Longer (length fs.entries)) (sym (create_hak_file_run fs name content e x)) (
        write_to-Longer (length fs.entries) content (hak_target name fs)
          (hak_target-Longer fs name))
    | inr x ↦ rw (e, x) (omega arith)
  ]
]
