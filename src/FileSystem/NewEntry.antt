-- ===== src/FileSystem/NewEntry.antt =====
-- A directory that `mkdir` has made is found under its name, and `cd` goes in and out of it.
use mr_hak_os.FileSystem.Valid.{Linked, IsValid}
use mr_hak_os.Prelude.{
  ℕ, zero, suc, ◌<◌, ◌≡◌, List, [], ◌∷◌, true, none, some, inl, inr, arith, get_elem?, length, set,
  get_elem?-of_lt, Bool-cases, ◌+◌, ◌≢◌, ◌∙◌, refl, ◌++◌, false, get_elem?-set_ne, lt_of_get_elem?,
  get_elem?-set_self, leb, sym, get_elem?-append_length, get_elem?-append_left, length-append,
  subst, ℕ_discrete, eq_of_some,
}
use mr_hak_os.FileSystem.State.{find_from, deref, FileSystem, find_entry, is_empty}
use mr_hak_os.FileSystem.Entry.{
  FileSystemEntry, EntryPtr, FileType, init_entry, add_child, max_name_length, max_files, clipped,
  copy_text, zeroed, entry_size,
}
use mr_hak_os.CString.{is_equal, strcmp, strlen}
use mr_hak_os.FileSystem.Lookup.{Cell, Search}
use mr_hak_os.FileSystem.Growth.{grown, fresh, add_entry-grown, add_entry-null}
use mr_hak_os.FileSystem.{mkdir}
use mr_hak_os.CString.Text.{strcmp_iff}
use mr_hak_os.FileSystem.Names.{text-copy_text}
use mr_hak_os.FileSystem.Preserve.{mkdir_result, mkdir_run}
use mr_hak_os.FileSystem.Pool.{pool_alloc}

-- The two heaps hold the same names at the places below `n`.
abbrev SameNames : ℕ → List FileSystemEntry → List FileSystemEntry → Type 0
SameNames n es es' =
    (c : ℕ) (e : FileSystemEntry)
    → c < n
    → get_elem? es c ≡ some e
    → (e' : FileSystemEntry) × (get_elem? es' c ≡ some e') × (e'.name ≡ e.name)

find_from-new :
    (es es' : List FileSystemEntry) (n : ℕ) (name : List ℕ) (new : FileSystemEntry) (k : ℕ)
    (cs : List EntryPtr)
    → SameNames n es es'
    → n ≡ length es
    → get_elem? es' n ≡ some new
    → is_equal (strcmp new.name name) ≡ true
    → Linked n k cs
    → k < length cs
    → find_from es name k cs ≡ some none
    → find_from es' name (suc k) (set cs k (some n)) ≡ some (some n)
unfolding find_from deref
find_from-new es es' n name new zero [] same z at eq l h e = elim h [ ]
find_from-new es es' n name new zero (c ∷ cs) same z at eq l h e = rw (at, eq)
find_from-new es es' n name new (suc k) [] same z at eq l h e = elim h [ ]
find_from-new es es' n name new (suc k) (none ∷ cs) same z at eq l h e = elim l.0 [ ]
find_from-new es es' n name new (suc k) (some c ∷ cs) same z at eq l h e =
    let (x, load) = get_elem?-of_lt es c (omega arith) in
    let (x', load', names) = same c x l.0 load in
    elim (Bool-cases (is_equal (strcmp x.name name))) [
      | inl hit ↦ absurd (ground arith)
      | inr miss ↦
          rw (load', names, miss)
            (find_from-new es es' n name new k cs same z at eq l.1 (omega arith) (ground arith))
    ]

module _ (fs : FileSystem) (c : Cell fs fs.current_directory) (name : List ℕ)
    (type : FileType) where
  abbrev new_heap : List FileSystemEntry
  new_heap = (grown fs c.place c.entry name type).entries

  cur_lt : c.place < length fs.entries
  cur_lt = lt_of_get_elem? fs.entries c.place c.entry c.loads

  pub grown_dir : get_elem? new_heap c.place ≡ some (add_child c.entry (length fs.entries))
  grown_dir =
      get_elem?-set_self (fs.entries ++ fresh c.place name type ∷ []) c.place
        (add_child c.entry (length fs.entries))
        (omega (arith, cur_lt, length-append fs.entries (fresh c.place name type ∷ [])))

  pub grown_new : get_elem? new_heap (length fs.entries) ≡ some (fresh c.place name type)
  grown_new =
      get_elem?-set_ne (fs.entries ++ fresh c.place name type ∷ []) c.place (length fs.entries)
        (add_child c.entry (length fs.entries)) (omega (arith, cur_lt))
      ∙ get_elem?-append_length fs.entries (fresh c.place name type)

  grown_old :
      (k : ℕ) → k < length fs.entries → k ≢ c.place → get_elem? new_heap k ≡ get_elem? fs.entries k
  grown_old k h ne =
      get_elem?-set_ne (fs.entries ++ fresh c.place name type ∷ []) c.place k
        (add_child c.entry (length fs.entries)) (λ e. ne (sym e))
      ∙ get_elem?-append_left fs.entries (fresh c.place name type ∷ []) k h

  grown-SameNames : SameNames (length fs.entries) fs.entries new_heap
  unfolding add_child
  grown-SameNames k e h load = elim (ℕ_discrete k c.place) [
    | yes at ↦ (add_child c.entry (length fs.entries), rw at grown_dir, ground (arith, c.loads))
    | no away ↦ (e, grown_old k h away ∙ load, refl)
  ]

  fresh-name :
      strlen name < max_name_length → is_equal (strcmp (fresh c.place name type).name name) ≡ true
  unfolding init_entry
  fresh-name h =
      let short : clipped (strlen name) ≡ strlen name = ground arith in
      (strcmp_iff (copy_text zeroed.name name (clipped (strlen name))) name).1
        (rw short (text-copy_text zeroed.name name h))

  -- A name that was not there before is found after the new entry has been linked in.
  pub find_entry-grown :
      IsValid fs
      → c.entry.child_count < max_files
      → strlen name < max_name_length
      → find_entry fs.entries name c.entry ≡ some none
      → find_entry new_heap name (add_child c.entry (length fs.entries))
        ≡ some (some (length fs.entries))
  unfolding find_entry add_child
  find_entry-grown v room short missing =
      let e : suc c.entry.child_count ≡ c.entry.child_count + 1 = omega arith in
      subst
        (λ k.
          find_from new_heap name k
            (set c.entry.children c.entry.child_count (some (length fs.entries)))
          ≡ some (some (length fs.entries)))
        e
        (find_from-new fs.entries new_heap (length fs.entries) name (fresh c.place name type)
          c.entry.child_count c.entry.children grown-SameNames refl grown_new (fresh-name short)
          c.fine.linked (omega (arith, c.fine.array_size)) missing)

result_true :
    (fs fs' : FileSystem) (cur : ℕ) (dir : FileSystemEntry) (name : List ℕ) (found : EntryPtr)
    → mkdir_result fs cur dir name found ≡ (true, fs')
    → (found ≡ none)
      × (leb max_files dir.child_count ≡ false)
      × ((pool_alloc entry_size fs.next_free).0 ≡ true)
      × (fs' ≡ grown fs cur dir name FileType.directory)
result_true fs fs' cur dir name (some p) e = absurd (cc)
result_true fs fs' cur dir name none e = elim (Bool-cases (leb max_files dir.child_count)) [
  | inl full ↦ absurd (ground arith)
  | inr room ↦ elim (Bool-cases (pool_alloc entry_size fs.next_free).0) [
    | inl done ↦ ground (arith, add_entry-grown fs cur dir name FileType.directory done)
    | inr used ↦ ground (arith, add_entry-null fs cur dir name FileType.directory used)
  ]
]

-- `mkdir` returns true only when the name is not empty, nothing in the current directory has it
-- yet and the pool has room; the file system has then grown by an empty directory.
pub mkdir-true :
    (fs fs' : FileSystem) (c : Cell fs fs.current_directory) (name : List ℕ)
    (s : Search fs name c.entry)
    → mkdir (some name) fs ≡ some (true, fs')
    → (s.result ≡ none)
      × (leb max_files c.entry.child_count ≡ false)
      × ((pool_alloc entry_size fs.next_free).0 ≡ true)
      × (fs' ≡ grown fs c.place c.entry name FileType.directory)
mkdir-true fs fs' c name s e = elim (Bool-cases (is_empty name)) [
  | inl empty ↦ absurd (unfold mkdir in ground arith)
  | inr named ↦
      result_true fs fs' c.place c.entry name s.result
        (eq_of_some (sym (mkdir_run fs c name s named) ∙ e))
]
