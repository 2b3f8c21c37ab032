-- ===== src/FileSystem/NoContent.antt =====
-- A file without a content: how `createHakFile` leaves one behind, and what `cp` does with it.
use mr_hak_os.FileSystem.Valid.{IsValid}
use mr_hak_os.FileSystem.{create_hak_file, write_content, hak_target}
use mr_hak_os.FileSystem.Transfer.{cp, cp_target, cp_to, last_slash}
use mr_hak_os.Prelude.{
  ℕ, ◌+◌, ◌<◌, ◌≡◌, ◌∙◌, refl, List, true, false, none, some, arith, leb, get_elem?, length,
  eq_of_some, sym, subst, ap,
}
use mr_hak_os.FileSystem.State.{FileSystem, deref, find_entry, is_empty, ◌>>=◌}
use mr_hak_os.FileSystem.Entry.{
  init_entry, FileSystemEntry, FileType, has_extension, entry_size, is_hak_file, max_files,
  max_name_length, dot_hak, add_child,
}
use mr_hak_os.FileSystem.Lookup.{Cell, Cell-here, deref-Cell}
use mr_hak_os.FileSystem.Pool.{pool_alloc}
use mr_hak_os.FileSystem.Preserve.Files.{kept, create_hak_file_run, write_to}
use mr_hak_os.FileSystem.Growth.{fresh, grown, add_entry-grown}
use mr_hak_os.CString.{strlen}
use mr_hak_os.FileSystem.Capacity.{entries_bounds}
use mr_hak_os.FileSystem.NewEntry.{grown_dir, find_entry-grown, grown_new}

-- A new file for which the pool has room, but not for its content.
abbrev unfilled : FileSystem → ℕ → FileSystemEntry → List ℕ → List ℕ → FileSystem
unfilled fs cur dir name content = record (grown fs cur dir name FileType.hak_file) {
  next_free = (pool_alloc (kept content + 1) (pool_alloc entry_size fs.next_free).1).1;
}

fresh-content : (cur : ℕ) (name : List ℕ) (type : FileType) → (fresh cur name type).content ≡ none
unfolding init_entry
fresh-content cur name type = refl

write_content_full :
    (fs : FileSystem) (p : ℕ) (content : List ℕ)
    → (pool_alloc (kept content + 1) fs.next_free).0 ≡ false
    → write_content p content fs
      ≡ some (false, record fs { next_free = (pool_alloc (kept content + 1) fs.next_free).1 })
unfolding write_content
write_content_full fs p content full = rw full

new_target :
    (fs : FileSystem) (c : Cell fs fs.current_directory) (name : List ℕ)
    → find_entry fs.entries name c.entry ≡ some none
    → leb max_files c.entry.child_count ≡ false
    → (pool_alloc entry_size fs.next_free).0 ≡ true
    → hak_target name fs
      ≡ some (some (length fs.entries), grown fs c.place c.entry name FileType.hak_file)
unfolding hak_target
new_target fs c name missing room done = ground (
  arith,
  deref-Cell fs fs.current_directory c,
  c.points,
  add_entry-grown fs c.place c.entry name FileType.hak_file done,
)

-- In a valid file system whose pool has room for an entry but not for the content behind it,
-- `createHakFile` with a new name of at most 63 characters that ends in ".hak" returns false, but
-- the file is there: it is found under its name, and its content pointer is null.
pub create_out_of_memory :
    (fs : FileSystem) (dir : FileSystemEntry) (name content : List ℕ)
    → IsValid fs
    → deref fs.entries fs.current_directory ≡ some dir
    → find_entry fs.entries name dir ≡ some none
    → is_empty name ≡ false
    → strlen name < max_name_length
    → has_extension (some name) (some dot_hak) ≡ true
    → (pool_alloc entry_size fs.next_free).0 ≡ true
    → (pool_alloc (kept content + 1) (pool_alloc entry_size fs.next_free).1).0 ≡ false
    → (fs' : FileSystem) × (dir' e : FileSystemEntry) × (create_hak_file
          (some name)
          (some content)
          fs
        ≡ some (false, fs'))
      × (deref fs'.entries fs'.current_directory ≡ some dir')
      × (find_entry fs'.entries name dir' ≡ some (some (length fs.entries)))
      × (get_elem? fs'.entries (length fs.entries) ≡ some e)
      × (e.content ≡ none)
create_out_of_memory fs dir name content v here missing named short x done full =
    let c = Cell-here fs v in
    let q : dir ≡ c.entry = eq_of_some (sym here ∙ deref-Cell fs fs.current_directory c) in
    let missing' : find_entry fs.entries name c.entry ≡ some none =
      subst (λ d. find_entry fs.entries name d ≡ some none) q missing in
    let room =
      (entries_bounds fs fs.current_directory c.entry v (deref-Cell fs fs.current_directory c)).3 in
    let g = grown fs c.place c.entry name FileType.hak_file in
    (
      unfilled fs c.place c.entry name content,
      add_child c.entry (length fs.entries),
      fresh c.place name FileType.hak_file,
      create_hak_file_run fs name content named x
          ∙ ap (λ t. t >>= write_to content) (new_target fs c name missing' room done)
          ∙ write_content_full g (length fs.entries) content full,
      (unfold deref in rw (c.points, deref) (grown_dir fs c name FileType.hak_file)),
      find_entry-grown fs c name FileType.hak_file v (ground arith) short missing',
      grown_new fs c name FileType.hak_file,
      fresh-content c.place name FileType.hak_file,
    )

create_null :
    (fs : FileSystem) (c : Cell fs fs.current_directory) (name : List ℕ)
    → is_empty name ≡ false
    → has_extension (some name) (some dot_hak) ≡ true
    → find_entry fs.entries name c.entry ≡ some none
    → leb max_files c.entry.child_count ≡ false
    → (pool_alloc entry_size fs.next_free).0 ≡ true
    → create_hak_file (some name) none fs ≡ none
unfolding create_hak_file
create_null fs c name named x missing room done =
    rw (named, x, new_target fs c name missing room done)

flat_target :
    (fs : FileSystem) (destination : List ℕ)
    → last_slash destination 0 none ≡ none
    → cp_target destination fs ≡ some (some (fs.current_directory, destination))
unfolding cp_target
flat_target fs destination flat = rw (flat, cp_target)

cp_to-null :
    (fs : FileSystem) (dir : FileSystemEntry) (destination : List ℕ)
    → deref fs.entries fs.current_directory ≡ some dir
    → find_entry fs.entries destination dir ≡ some none
    → has_extension (some destination) (some dot_hak) ≡ true
    → create_hak_file (some destination) none fs ≡ none
    → cp_to none fs.current_directory destination fs ≡ none
unfolding cp_to
cp_to-null fs dir destination here missing x failed = rw (here, missing, x, failed)

-- In a valid file system whose pool has room for an entry, `cp` of a file without a content to a
-- new name in the same directory that ends in ".hak" faults: it takes the length of a null pointer.
pub cp_without_content :
    (fs : FileSystem) (dir e : FileSystemEntry) (p : ℕ) (source destination : List ℕ)
    → IsValid fs
    → deref fs.entries fs.current_directory ≡ some dir
    → find_entry fs.entries source dir ≡ some (some p)
    → get_elem? fs.entries p ≡ some e
    → is_hak_file e.type ≡ true
    → e.content ≡ none
    → find_entry fs.entries destination dir ≡ some none
    → is_empty destination ≡ false
    → last_slash destination 0 none ≡ none
    → has_extension (some destination) (some dot_hak) ≡ true
    → (pool_alloc entry_size fs.next_free).0 ≡ true
    → cp source destination fs ≡ none
unfolding cp deref
cp_without_content fs dir e p source destination v here found load hak bare missing named flat x
      done =
    let c = Cell-here fs v in
    let q : dir ≡ c.entry = eq_of_some (sym here ∙ deref-Cell fs fs.current_directory c) in
    let missing' : find_entry fs.entries destination c.entry ≡ some none =
      subst (λ d. find_entry fs.entries destination d ≡ some none) q missing in
    let room =
      (entries_bounds fs fs.current_directory c.entry v (deref-Cell fs fs.current_directory c)).3 in
    let failed = create_null fs c destination named x missing' room done in
    rw (here, found, load, hak, flat_target fs destination flat)
      (subst (λ k. cp_to k fs.current_directory destination fs ≡ none) (sym bare)
        (cp_to-null fs dir destination here missing x failed))
