-- ===== src/FileSystem/CreateRead.antt =====
-- `createHakFile` followed by `readHakFile`.
use mr_hak_os.FileSystem.Valid.{IsValid, IsEntry}
use mr_hak_os.FileSystem.{create_hak_file, hak_target}
use mr_hak_os.Prelude.{
  ℕ, ◌+◌, ◌≤◌, ◌<◌, ◌≡◌, ◌≢◌, ◌∙◌, refl, List, true, false, Option, none, some, inl, inr, arith,
  length, leb, get_elem?, Bool-cases, replicate, subst, AllFrom-get, sym,
}
use mr_hak_os.FileSystem.Entry.{
  init_entry, EntryPtr, is_hak_file, max_name_length, FileSystemEntry, FileType, max_files,
  copy_text, has_extension, entry_size, dot_hak, add_child,
}
use mr_hak_os.FileSystem.Preserve.Files.{
  hak_target_of, write_to, kept, hak_target_run, create_hak_file_run,
}
use mr_hak_os.FileSystem.State.{FileSystem, deref, ◌>>=◌, find_entry, is_empty}
use mr_hak_os.FileSystem.Read.{read_hak_file}
use mr_hak_os.FileSystem.Lookup.{Cell, Finds, Cell-here, Search-in}
use mr_hak_os.CString.{strlen}
use mr_hak_os.FileSystem.Contents.{Shows, shown, filled-read, copied-Shows}
use mr_hak_os.FileSystem.Growth.{fresh, add_entry-grown, grown, grown-IsValid, add_entry-null}
use mr_hak_os.FileSystem.Pool.{pool_alloc}
use mr_hak_os.FileSystem.NewEntry.{grown_dir, grown_new, find_entry-grown}

-- The file `p` is found under the name in the current directory.
record Ready (fs : FileSystem) (name : List ℕ) (p : ℕ) : Type 0 where
  here : Cell fs fs.current_directory
  entry : FileSystemEntry
  loads : get_elem? fs.entries p ≡ some entry
  hak : is_hak_file entry.type ≡ true
  found : find_entry fs.entries name here.entry ≡ some (some p)

abbrev ReadyOf : List ℕ → Option (EntryPtr × FileSystem) → Type 0
ReadyOf name none = Unit
ReadyOf name (some (none, fs)) = Unit
ReadyOf name (some (some p, fs)) = Ready fs name p

fresh-hak : (cur : ℕ) (name : List ℕ) → is_hak_file (fresh cur name FileType.hak_file).type ≡ true
unfolding init_entry
fresh-hak cur name = refl

grown-Ready :
    (fs : FileSystem) (c : Cell fs fs.current_directory) (name : List ℕ)
    → IsValid fs
    → strlen name < max_name_length
    → leb max_files c.entry.child_count ≡ false
    → find_entry fs.entries name c.entry ≡ some none
    → (pool_alloc entry_size fs.next_free).0 ≡ true
    → Ready (grown fs c.place c.entry name FileType.hak_file) name (length fs.entries)
grown-Ready fs c name v short room missing done =
    let g = grown-IsValid fs c name FileType.hak_file v (ground arith) done in
    record {
      here = record {
        place = c.place;
        entry = add_child c.entry (length fs.entries);
        points = c.points;
        loads = grown_dir fs c name FileType.hak_file;
        fine =
            AllFrom-get (IsEntry (length (grown fs c.place c.entry name FileType.hak_file).entries))
              0 c.place c.place (grown fs c.place c.entry name FileType.hak_file).entries
              (add_child c.entry (length fs.entries)) g.each (grown_dir fs c name FileType.hak_file)
              (omega arith);
      };
      entry = fresh c.place name FileType.hak_file;
      loads = grown_new fs c name FileType.hak_file;
      hak = fresh-hak c.place name;
      found = find_entry-grown fs c name FileType.hak_file v (ground arith) short missing;
    }

target-Ready :
    (fs : FileSystem) (c : Cell fs fs.current_directory) (name : List ℕ) (found : EntryPtr)
    → IsValid fs
    → strlen name < max_name_length
    → find_entry fs.entries name c.entry ≡ some found
    → Finds fs.entries name found
    → ReadyOf name (hak_target_of fs c.place c.entry name found)
unfolding hak_target_of deref
target-Ready fs c name none v short missing f =
    elim (Bool-cases (leb max_files c.entry.child_count)) [
      | inl full ↦ rw full tt
      | inr room ↦ elim (Bool-cases (pool_alloc entry_size fs.next_free).0) [
        | inl done ↦
            rw (room, add_entry-grown fs c.place c.entry name FileType.hak_file done)
              (grown-Ready fs c name v short room missing done)
        | inr used ↦ rw (room, add_entry-null fs c.place c.entry name FileType.hak_file used) tt
      ]
    ]
target-Ready fs c name (some p) v short at (e, h, hit) = elim (Bool-cases (is_hak_file e.type)) [
  | inl d ↦ rw (h, d) (record { here = c; entry = e; loads = h; hak = d; found = at })
  | inr d ↦ rw (h, d) tt
]

-- What a read gives after the content has been written to a target.
abbrev Reads : List ℕ → List ℕ → List ℕ → ℕ → FileSystem → Type 0
Reads name content buffer size fs =
    (out : List ℕ) × (read_hak_file (some name) (some buffer) size fs ≡ some (true, some out))
    × Shows content (shown content size) out

written-Reads :
    (name content buffer : List ℕ) (size : ℕ) (t : Option (EntryPtr × FileSystem))
    (fs' : FileSystem)
    → ReadyOf name t
    → size ≢ 0
    → size ≤ length buffer
    → (t >>= write_to content) ≡ some (true, fs')
    → Reads name content buffer size fs'
written-Reads name content buffer size none fs' r ne room w = absurd (cc)
written-Reads name content buffer size (some (none, fs)) fs' r ne room w = absurd (cc)
written-Reads name content buffer size (some (some p, fs)) fs' r ne room w = (
  copy_text buffer (copy_text (replicate (kept content + 1) 0) content (kept content))
      (shown content size),
  filled-read fs fs' r.here name content buffer size p r.entry r.loads r.hak r.found ne w,
  copied-Shows content buffer size ne room,
)

-- In a valid file system, after `createHakFile` has returned true for a name of at most 63
-- characters, `readHakFile` with that name and a buffer of `size > 0` bytes returns true and puts
-- into the buffer as much of the content as 1023 characters and the buffer allow, and a terminator.
pub create-read :
    (fs fs' : FileSystem) (name content buffer : List ℕ) (size : ℕ)
    → IsValid fs
    → strlen name < max_name_length
    → size ≢ 0
    → size ≤ length buffer
    → create_hak_file (some name) (some content) fs ≡ some (true, fs')
    → (out : List ℕ) × (read_hak_file (some name) (some buffer) size fs' ≡ some (true, some out))
      × Shows content (shown content size) out
create-read fs fs' name content buffer size v short ne room e = elim (Bool-cases (is_empty name)) [
  | inl empty ↦ absurd (unfold create_hak_file in ground arith)
  | inr named ↦ elim (Bool-cases (has_extension (some name) (some dot_hak))) [
    | inr other ↦ absurd (unfold create_hak_file in ground arith)
    | inl x ↦
        let c = Cell-here fs v in
        let s = Search-in fs name c.place c.entry c.fine in
        written-Reads name content buffer size (hak_target name fs) fs'
          (subst (ReadyOf name) (sym (hak_target_run fs c name s))
            (target-Ready fs c name s.result v short s.runs s.sound))
          ne room (sym (create_hak_file_run fs name content named x) ∙ e)
  ]
]
