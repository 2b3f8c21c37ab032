-- ===== src/FileSystem/RoundTrip.antt =====
-- `mkdir` followed by `cd` into the new directory and out of it.
use mr_hak_os.FileSystem.Valid.{IsValid}
use mr_hak_os.FileSystem.{cd, mkdir, enter, root_name}
use mr_hak_os.Prelude.{
  ℕ, ◌<◌, ◌≡◌, ◌∙◌, refl, List, [], ◌∷◌, true, false, some, arith, get_elem?, length, ap, sym,
}
use mr_hak_os.FileSystem.State.{FileSystem, deref, find_entry}
use mr_hak_os.CString.{is_equal, strcmp, strlen}
use mr_hak_os.FileSystem.Entry.{
  FileSystemEntry, EntryPtr, is_directory, init_entry, max_name_length, FileType, add_child,
}
use mr_hak_os.FileSystem.Growth.{fresh, grown}
use mr_hak_os.FileSystem.Lookup.{Cell-here, Search-in}
use mr_hak_os.FileSystem.NewEntry.{mkdir-true, grown_new, find_entry-grown, grown_dir}

-- A name that `cd` does not read as the root, this directory or the parent.
pub record IsPlain (name : List ℕ) : Type 0 where
  pub not_root : is_equal (strcmp name root_name) ≡ false
  pub not_dot : is_equal (strcmp name (b'.' ∷ [])) ≡ false
  pub not_dots : is_equal (strcmp name (b'.' ∷ b'.' ∷ [])) ≡ false

abbrev pub dots : List ℕ
dots = b'.' ∷ b'.' ∷ []

-- `cd` to a plain name, by what its lookup finds.
pub cd_run :
    (fs : FileSystem) (path : List ℕ) (dir : FileSystemEntry) (found : EntryPtr)
    → IsPlain path
    → deref fs.entries fs.current_directory ≡ some dir
    → find_entry fs.entries path dir ≡ some found
    → cd path fs ≡ enter found fs
unfolding cd
cd_run fs path dir found plain d f = rw (plain.not_root, plain.not_dot, d, plain.not_dots, f)

enter-directory :
    (fs : FileSystem) (p : ℕ) (e : FileSystemEntry)
    → get_elem? fs.entries p ≡ some e
    → is_directory e.type ≡ true
    → enter (some p) fs ≡ some (true, record fs { current_directory = some p })
unfolding enter deref
enter-directory fs p e h d = rw (h, d)

pub cd_up :
    (fs : FileSystem) (e : FileSystemEntry) (q : ℕ)
    → deref fs.entries fs.current_directory ≡ some e
    → e.parent ≡ some q
    → cd dots fs ≡ some (true, record fs { current_directory = some q })
unfolding cd strcmp
cd_up fs e q d p = ground arith

fresh-parts :
    (cur : ℕ) (name : List ℕ)
    → (is_directory (fresh cur name FileType.directory).type ≡ true)
      × ((fresh cur name FileType.directory).parent ≡ some cur)
unfolding init_entry
fresh-parts cur name = (refl, refl)

-- In a valid file system, after `mkdir` has returned true for a name of at most 63 characters other than "/", "." and
-- "..", `cd` with that name goes into the new entry, and `cd ..` from there comes back to the state that `mkdir` left.
pub mkdir-cd :
    (fs fs' : FileSystem) (name : List ℕ)
    → IsValid fs
    → strlen name < max_name_length
    → IsPlain name
    → mkdir (some name) fs ≡ some (true, fs')
    → (cd name fs' ≡ some (true, record fs' { current_directory = some (length fs.entries) }))
      × (cd dots (record fs' { current_directory = some (length fs.entries) }) ≡ some (true, fs'))
mkdir-cd fs fs' name v short plain e =
    let c = Cell-here fs v in
    let s = Search-in fs name c.place c.entry c.fine in
    let (missing, room, done, new) = mkdir-true fs fs' c name s e in
    let n = length fs.entries in
    let g = grown fs c.place c.entry name FileType.directory in
    let inside = record g { current_directory = some n } in
    let parts = fresh-parts c.place name in
    let new_dir = grown_new fs c name FileType.directory in
    let lookup =
      find_entry-grown fs c name FileType.directory v (ground arith) short
        (s.runs ∙ ap some missing) in
    let here : deref g.entries g.current_directory ≡ some (add_child c.entry n) =
      unfold deref in rw (c.points, deref) (grown_dir fs c name FileType.directory) in
    let there : deref inside.entries inside.current_directory
        ≡ some (fresh c.place name FileType.directory) =
      unfold deref in new_dir in
    rw new (
      cd_run g name (add_child c.entry n) (some n) plain here lookup
          ∙ enter-directory g n (fresh c.place name FileType.directory) new_dir parts.0,
      cd_up inside (fresh c.place name FileType.directory) c.place there parts.1
          ∙ ap (λ p. some (true, record g { current_directory = p })) (sym c.points),
    )
