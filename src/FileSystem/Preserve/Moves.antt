-- ===== src/FileSystem/Preserve/Moves.antt =====
-- `cp` and `mv` keep a file system valid.
use mr_hak_os.FileSystem.Valid.{IsValid, IsEntry}
use mr_hak_os.FileSystem.Transfer.{mv, rename}
use mr_hak_os.Prelude.{
  ℕ, ◌<◌, ◌≡◌, ◌∙◌, refl, List, Bool, false, Option, none, some, inl, inr, arith, if◌then◌else◌,
  get_elem?, Bool-cases, not, leb, AllFrom-get, length, subst, sym,
}
use mr_hak_os.FileSystem.Entry.{
  FileSystemEntry, EntryPtr, max_name_length, is_hak_file, has_extension, copy_text, dot_hak,
}
use mr_hak_os.FileSystem.State.{FileSystem, deref, is_null, ◌>>=◌}
use mr_hak_os.FileSystem.Preserve.{Safe, update-IsValid}
use mr_hak_os.CString.{strlen}
use mr_hak_os.FileSystem.Lookup.{Cell, Finds, Search, deref-Cell, Cell-here, Search-in}
use mr_hak_os.FileSystem.Names.{length-copy_text, strlen-copy_text}

renamed-IsEntry :
    (n i : ℕ) (e : FileSystemEntry) (name : List ℕ)
    → IsEntry n i e
    → strlen name < max_name_length
    → IsEntry n i (record e { name = copy_text e.name name (strlen name) })
renamed-IsEntry n i e name v h = record {
  name_size = length-copy_text e.name name (strlen name) ∙ v.name_size;
  name_ends = omega (arith, v.name_size, strlen-copy_text e.name name (strlen name));
  array_size = v.array_size;
  array_used = v.array_used;
  linked = v.linked;
  older = v.older;
  holds = v.holds;
}

rename-Safe :
    (fs : FileSystem) (p : ℕ) (e : FileSystemEntry) (name : List ℕ)
    → IsValid fs
    → get_elem? fs.entries p ≡ some e
    → Safe (rename (some p) e name fs)
unfolding rename
rename-Safe fs p e name v h = elim (Bool-cases (leb max_name_length (strlen name))) [
  | inl long ↦ rw long v
  | inr short ↦
      let fine =
        AllFrom-get (IsEntry (length fs.entries)) 0 p p fs.entries e v.each h (omega arith) in
      rw short (
        update-IsValid fs p e (record e { name = copy_text e.name name (strlen name) }) v h
          (renamed-IsEntry (length fs.entries) p e name fine (ground arith)) refl)
]

-- `mv` by what its two lookups found.
mv_of : List ℕ → FileSystem → EntryPtr → EntryPtr → Option (Bool × FileSystem)
mv_of destination fs found taken =
    if is_null found
    then some (false, fs)
    else if not (is_null taken)
    then some (false, fs)
    else (deref fs.entries found >>= λ entry.
        if (if is_hak_file entry.type
          then not (has_extension (some destination) (some dot_hak))
          else false)
        then some (false, fs)
        else rename found entry destination fs)

mv_of-Safe :
    (destination : List ℕ) (fs : FileSystem) (found taken : EntryPtr) (source : List ℕ)
    → IsValid fs
    → Finds fs.entries source found
    → Safe (mv_of destination fs found taken)
unfolding mv_of deref
mv_of-Safe destination fs none taken source v f = v
mv_of-Safe destination fs (some p) (some q) source v f = v
mv_of-Safe destination fs (some p) none source v (e, h, hit) =
    let refused =
      if is_hak_file e.type then not (has_extension (some destination) (some dot_hak)) else false in
    elim (Bool-cases refused) [
      | inl r ↦ rw (h, r) v
      | inr r ↦ rw (h, r) (rename-Safe fs p e destination v h)
    ]

-- In a valid file system `mv` returns, whatever the names, and leaves it valid.
pub mv-Safe :
    (fs : FileSystem) (source destination : List ℕ) → IsValid fs → Safe (mv source destination fs)
mv-Safe fs source destination v =
    let c = Cell-here fs v in
    let s = Search-in fs source c.place c.entry c.fine in
    let t = Search-in fs destination c.place c.entry c.fine in
    subst Safe (sym (run c s t)) (mv_of-Safe destination fs s.result t.result source v s.sound)
  where
    run :
        (c : Cell fs fs.current_directory) (s : Search fs source c.entry)
        (t : Search fs destination c.entry)
        → mv source destination fs ≡ mv_of destination fs s.result t.result
    run c s t =
        unfold mv mv_of in ground (arith, deref-Cell fs fs.current_directory c, s.runs, t.runs)
