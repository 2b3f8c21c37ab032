-- ===== src/FileSystem/Lookup.antt =====
-- In a valid file system no lookup faults, and a name that is found is the name of the entry.
use mr_hak_os.Prelude.{
  AllFrom-get, List, ℕ, some, AllFrom, get_elem?, length, lt_of_get_elem?, get_elem?-of_lt, arith,
  ◌≡◌, none, suc, true, Bool-cases, inl, inr, zero, refl, [], ◌∷◌,
}
use mr_hak_os.FileSystem.Valid.{IsValid, Linked, IsEntry, Below}
use mr_hak_os.FileSystem.State.{deref, find_from, FileSystem, find_entry}
use mr_hak_os.FileSystem.Entry.{EntryPtr, FileSystemEntry}
use mr_hak_os.CString.{is_equal, strcmp}

-- What stands behind a pointer in range.
pub record Cell (fs : FileSystem) (p : EntryPtr) : Type 0 where
  pub place : ℕ
  pub entry : FileSystemEntry
  pub points : p ≡ some place
  pub loads : get_elem? fs.entries place ≡ some entry
  pub fine : IsEntry (length fs.entries) place entry

pub Cell-at :
    (fs : FileSystem) (p : EntryPtr)
    → AllFrom (IsEntry (length fs.entries)) 0 fs.entries
    → Below (length fs.entries) p
    → Cell fs p
Cell-at fs none v b = elim b [ ]
Cell-at fs (some k) v b =
    let (e, h) = get_elem?-of_lt fs.entries k b in
    record {
      place = k;
      entry = e;
      points = refl;
      loads = h;
      fine = AllFrom-get (IsEntry (length fs.entries)) 0 k k fs.entries e v h (omega arith);
    }

pub Cell-here : (fs : FileSystem) → IsValid fs → Cell fs fs.current_directory
Cell-here fs v = Cell-at fs fs.current_directory v.each v.here

pub deref-Cell :
    (fs : FileSystem) (p : EntryPtr) (c : Cell fs p) → deref fs.entries p ≡ some c.entry
unfolding deref
deref-Cell fs p c = rw (c.points, deref) c.loads

-- What `findEntry` may return: null, or an entry whose name compares equal.
abbrev pub Finds : List FileSystemEntry → List ℕ → EntryPtr → Type 0
Finds entries name none = Unit
Finds entries name (some p) =
    (e : FileSystemEntry) × (get_elem? entries p ≡ some e) × (is_equal (strcmp e.name name) ≡ true)

pub find_from-Finds :
    (entries : List FileSystemEntry) (name : List ℕ) (k : ℕ) (cs : List EntryPtr)
    → Linked (length entries) k cs
    → (r : EntryPtr) × (find_from entries name k cs ≡ some r) × Finds entries name r
unfolding find_from deref
find_from-Finds entries name zero cs l = (none, refl, tt)
find_from-Finds entries name (suc k) [] l = elim l [ ]
find_from-Finds entries name (suc k) (none ∷ cs) l = elim l.0 [ ]
find_from-Finds entries name (suc k) (some c ∷ cs) l =
    let (e, h) = get_elem?-of_lt entries c l.0 in
    let (r, found, ok) = find_from-Finds entries name k cs l.1 in
    elim (Bool-cases (is_equal (strcmp e.name name))) [
      | inl hit ↦ (some c, rw (h, hit), (e, h, hit))
      | inr miss ↦ (r, rw (h, miss) found, ok)
    ]

-- A lookup in a directory that the file system holds.
pub record Search (fs : FileSystem) (name : List ℕ) (dir : FileSystemEntry) : Type 0 where
  pub result : EntryPtr
  pub runs : find_entry fs.entries name dir ≡ some result
  pub sound : Finds fs.entries name result

pub Search-in :
    (fs : FileSystem) (name : List ℕ) (i : ℕ) (dir : FileSystemEntry)
    → IsEntry (length fs.entries) i dir
    → Search fs name dir
unfolding find_entry
Search-in fs name i dir v =
    let (r, found, ok) = find_from-Finds fs.entries name dir.child_count dir.children v.linked in
    record { result = r; runs = found; sound = ok }

-- The entry behind a pointer that was found.
pub Cell-found :
    (fs : FileSystem) (name : List ℕ) (p : ℕ)
    → IsValid fs
    → Finds fs.entries name (some p)
    → Cell fs (some p)
Cell-found fs name p v (e, h, hit) = Cell-at fs (some p) v.each (lt_of_get_elem? fs.entries p e h)
