-- ===== src/FileSystem/Preserve/Navigate.antt =====
-- `init` and `cd` keep a file system valid.
use mr_hak_os.FileSystem.Valid.{IsValid, Below, Older}
use mr_hak_os.FileSystem.{cd, enter, root_name}
use mr_hak_os.Prelude.{
  ℕ, ◌<◌, List, [], ◌∷◌, true, false, none, some, inl, inr, arith, if◌then◌else◌, length,
  Bool-cases, lt_of_get_elem?,
}
use mr_hak_os.FileSystem.State.{deref, FileSystem, is_null}
use mr_hak_os.FileSystem.Entry.{EntryPtr, is_directory}
use mr_hak_os.FileSystem.Preserve.{Safe}
use mr_hak_os.FileSystem.Lookup.{Finds, Cell-here, Search-in, deref-Cell}
use mr_hak_os.CString.{is_equal, strcmp}

-- The current directory may be any entry.
pub at-IsValid :
    (fs : FileSystem) (p : EntryPtr)
    → IsValid fs
    → Below (length fs.entries) p
    → IsValid (record fs { current_directory = p })
at-IsValid fs p v b = record {
  rooted = v.rooted;
  here = b;
  each = v.each;
  tree = v.tree;
  pool_used = v.pool_used;
  pool_end = v.pool_end;
  pool_aligned = v.pool_aligned;
}

pub root-Below : (fs : FileSystem) → IsValid fs → Below (length fs.entries) fs.root
root-Below fs v = rw v.rooted (omega (arith, v.tree))

enter-Safe :
    (fs : FileSystem) (found : EntryPtr) (name : List ℕ)
    → IsValid fs
    → Finds fs.entries name found
    → Safe (enter found fs)
unfolding enter deref
enter-Safe fs none name v f = v
enter-Safe fs (some p) name v (e, h, hit) = elim (Bool-cases (is_directory e.type)) [
  | inl d ↦ rw (h, d) (at-IsValid fs (some p) v (lt_of_get_elem? fs.entries p e h))
  | inr d ↦ rw (h, d) v
]

-- `cd ..` from an entry whose parent pointer is `p`.
up-Safe :
    (fs : FileSystem) (p : EntryPtr) (i : ℕ)
    → IsValid fs
    → Older i p
    → i < length fs.entries
    → Safe (some (if is_null p then (false, fs) else (true, record fs { current_directory = p })))
up-Safe fs none i v o h = v
up-Safe fs (some p) i v o h = at-IsValid fs (some p) v (omega arith)

-- In a valid file system `cd` returns, whatever the path, and leaves it valid.
pub cd-Safe : (fs : FileSystem) (path : List ℕ) → IsValid fs → Safe (cd path fs)
unfolding cd
cd-Safe fs path v =
    let c = Cell-here fs v in
    let s = Search-in fs path c.place c.entry c.fine in
    elim (Bool-cases (is_equal (strcmp path root_name))) [
      | inl a ↦ rw a (at-IsValid fs fs.root v (root-Below fs v))
      | inr a ↦ elim (Bool-cases (is_equal (strcmp path (b'.' ∷ [])))) [
        | inl b ↦ rw (a, b) v
        | inr b ↦ elim (Bool-cases (is_equal (strcmp path (b'.' ∷ b'.' ∷ [])))) [
          | inl d ↦
              rw (a, b, deref-Cell fs fs.current_directory c, d)
                (up-Safe fs c.entry.parent c.place v c.fine.older
                  (lt_of_get_elem? fs.entries c.place c.entry c.loads))
          | inr d ↦
              rw (a, b, deref-Cell fs fs.current_directory c, d, s.runs)
                (enter-Safe fs s.result path v s.sound)
        ]
      ]
    ]
