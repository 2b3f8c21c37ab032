-- ===== src/FileSystem/Preserve/Files.antt =====
-- `createHakFile` keeps a file system valid.
use mr_hak_os.FileSystem.Valid.{IsValid, IsEntry}
use mr_hak_os.FileSystem.{create_hak_file, write_content, hak_target, add_entry}
use mr_hak_os.Prelude.{
  ℕ, ◌+◌, ◌-◌, ◌<◌, ◌≡◌, ◌∙◌, refl, List, Bool, true, false, Option, none, some, inl, inr, arith,
  if◌then◌else◌, ltb, length, leb, replicate, get_elem?-of_lt, Bool-cases, AllFrom-get, subst,
  length-replicate, sym, lt_of_get_elem?,
}
use mr_hak_os.FileSystem.Entry.{
  FileSystemEntry, EntryPtr, max_file_size, copy_text, has_extension, max_files, dot_hak,
  is_hak_file, FileType, entry_size,
}
use mr_hak_os.FileSystem.State.{deref, FileSystem, is_empty, is_null, ◌>>=◌}
use mr_hak_os.FileSystem.Lookup.{Cell-here, Cell, Finds, Search-in, Search, deref-Cell}
use mr_hak_os.FileSystem.Preserve.{Safe, pool-IsValid, update-IsValid}
use mr_hak_os.FileSystem.Names.{length-copy_text}
use mr_hak_os.CString.{strlen}
use mr_hak_os.FileSystem.Pool.{pool_alloc}
use mr_hak_os.FileSystem.Growth.{add_entry-grown, grown-IsValid, length-grown, add_entry-null}

-- The entry with a new buffer.
abbrev pub filled : FileSystemEntry → List ℕ → ℕ → FileSystemEntry
filled e content len = record e {
  content = some (copy_text (replicate (len + 1) 0) content len);
  content_size = len;
}

filled-IsEntry :
    (n i : ℕ) (e : FileSystemEntry) (content : List ℕ) (len : ℕ)
    → IsEntry n i e
    → IsEntry n i (filled e content len)
filled-IsEntry n i e content len v = record {
  name_size = v.name_size;
  name_ends = v.name_ends;
  array_size = v.array_size;
  array_used = v.array_used;
  linked = v.linked;
  older = v.older;
  holds = length-copy_text (replicate (len + 1) 0) content len ∙ length-replicate (len + 1) 0;
}

-- The length that `createHakFile` keeps of a content.
abbrev pub kept : List ℕ → ℕ
kept content =
    if ltb (max_file_size - 1) (strlen content) then max_file_size - 1 else strlen content

pub write_content-Safe :
    (fs : FileSystem) (p : ℕ) (content : List ℕ)
    → IsValid fs
    → p < length fs.entries
    → Safe (write_content p content fs)
unfolding write_content deref
write_content-Safe fs p content v h =
    let (e, load) = get_elem?-of_lt fs.entries p h in
    let fine =
      AllFrom-get (IsEntry (length fs.entries)) 0 p p fs.entries e v.each load (omega arith) in
    let paid = pool-IsValid fs (kept content + 1) v in
    elim (Bool-cases (pool_alloc (kept content + 1) fs.next_free).0) [
      | inl done ↦
          rw (done, load)
            (update-IsValid
              (record fs { next_free = (pool_alloc (kept content + 1) fs.next_free).1 }) p e
              (filled e content (kept content)) paid load
              (filled-IsEntry (length fs.entries) p e content (kept content) fine) refl)
      | inr full ↦ rw full paid
    ]

-- The file whose content is to be written is an entry.
abbrev pub Targets : Option (EntryPtr × FileSystem) → Type 0
Targets none = ⊥
Targets (some (none, fs)) = IsValid fs
Targets (some (some p, fs)) = IsValid fs × (p < length fs.entries)

Targets-add :
    (fs : FileSystem) (c : Cell fs fs.current_directory) (name : List ℕ)
    → IsValid fs
    → c.entry.child_count < max_files
    → Targets (some (add_entry fs c.place c.entry name FileType.hak_file))
Targets-add fs c name v room = elim (Bool-cases (pool_alloc entry_size fs.next_free).0) [
  | inl done ↦ rw (add_entry-grown fs c.place c.entry name FileType.hak_file done) (
    grown-IsValid fs c name FileType.hak_file v room done,
    omega (arith, length-grown fs c.place c.entry name FileType.hak_file),
  )
  | inr full ↦
      rw (add_entry-null fs c.place c.entry name FileType.hak_file full)
        (pool-IsValid fs entry_size v)
]

-- The two halves of `hak_target`, by what the lookup found.
unfoldable pub hak_target_of :
    (fs : FileSystem) → ℕ → FileSystemEntry → List ℕ → EntryPtr → Option (EntryPtr × FileSystem)
hak_target_of fs cur dir name found =
    if is_null found
    then (if leb max_files dir.child_count
        then some (none, fs)
        else some (add_entry fs cur dir name FileType.hak_file))
    else (deref fs.entries found >>= λ entry.
        some (if is_hak_file entry.type then (found, fs) else (none, fs)))

pub hak_target_run :
    (fs : FileSystem) (c : Cell fs fs.current_directory) (name : List ℕ)
    (s : Search fs name c.entry)
    → hak_target name fs ≡ hak_target_of fs c.place c.entry name s.result
unfolding hak_target hak_target_of
hak_target_run fs c name s = ground (arith, deref-Cell fs fs.current_directory c, s.runs, c.points)

hak_target_of-Targets :
    (fs : FileSystem) (c : Cell fs fs.current_directory) (name : List ℕ) (found : EntryPtr)
    → IsValid fs
    → Finds fs.entries name found
    → Targets (hak_target_of fs c.place c.entry name found)
unfolding hak_target_of deref
hak_target_of-Targets fs c name none v f = elim (Bool-cases (leb max_files c.entry.child_count)) [
  | inl full ↦ rw full v
  | inr room ↦ rw room (Targets-add fs c name v (ground arith))
]
hak_target_of-Targets fs c name (some p) v (e, h, hit) = elim (Bool-cases (is_hak_file e.type)) [
  | inl d ↦ rw (h, d) (v, lt_of_get_elem? fs.entries p e h)
  | inr d ↦ rw (h, d) v
]

pub hak_target-Targets :
    (fs : FileSystem) (name : List ℕ) → IsValid fs → Targets (hak_target name fs)
hak_target-Targets fs name v =
    let c = Cell-here fs v in
    let s = Search-in fs name c.place c.entry c.fine in
    subst Targets (sym (hak_target_run fs c name s))
      (hak_target_of-Targets fs c name s.result v s.sound)

-- The writing of the content, by what `hak_target` returned.
abbrev pub write_to : List ℕ → EntryPtr × FileSystem → Option (Bool × FileSystem)
write_to content (none, fs) = some (false, fs)
write_to content (some p, fs) = write_content p content fs

write_to-Safe :
    (content : List ℕ) (t : Option (EntryPtr × FileSystem))
    → Targets t
    → Safe (t >>= write_to content)
write_to-Safe content none h = h
write_to-Safe content (some (none, fs)) h = h
write_to-Safe content (some (some p, fs)) h = write_content-Safe fs p content h.0 h.1

pub create_hak_file_run :
    (fs : FileSystem) (name content : List ℕ)
    → is_empty name ≡ false
    → has_extension (some name) (some dot_hak) ≡ true
    → create_hak_file (some name) (some content) fs ≡ (hak_target name fs >>= write_to content)
unfolding create_hak_file
create_hak_file_run fs name content e x = ground arith

-- In a valid file system `createHakFile` with a content returns, whatever the name, and leaves it valid.
pub create_hak_file-Safe :
    (fs : FileSystem) (name : Option (List ℕ)) (content : List ℕ)
    → IsValid fs
    → Safe (create_hak_file name (some content) fs)
unfolding create_hak_file
create_hak_file-Safe fs none content v = v
create_hak_file-Safe fs (some name) content v = elim (Bool-cases (is_empty name)) [
  | inl e ↦ rw e v
  | inr e ↦ elim (Bool-cases (has_extension (some name) (some dot_hak))) [
    | inl x ↦
        subst Safe (sym (create_hak_file_run fs name content e x))
          (write_to-Safe content (hak_target name fs) (hak_target-Targets fs name v))
    | inr x ↦ rw (e, x) v
  ]
]
