-- ===== src/FileSystem/Growth.antt =====
-- The step that `mkdir` and `createHakFile` share: a new entry linked into a directory.
use mr_hak_os.FileSystem.Valid.{
  Linked, IsEntry, Linked-set, Linked-mono, IsValid, IsEntry-mono, child_total-snoc,
  child_total-set,
}
use mr_hak_os.Prelude.{
  ℕ, suc, ◌+◌, ◌<◌, ◌≡◌, ◌∙◌, refl, List, [], ◌∷◌, ◌++◌, true, false, none, some, arith, length,
  set, ap, length-set, length-append, subst, lt_of_get_elem?, AllFrom, AllFrom-mono, AllFrom-snoc,
  AllFrom-set, get_elem?-append_left,
}
use mr_hak_os.FileSystem.Entry.{
  FileSystemEntry, init_entry, FileType, add_child, zeroed, max_files, entry_size, clipped,
}
use mr_hak_os.FileSystem.{add_entry}
use mr_hak_os.FileSystem.State.{FileSystem}
use mr_hak_os.FileSystem.Pool.{pool_alloc, pool_alloc_bounds}
use mr_hak_os.FileSystem.Names.{length-copy_text, strlen-copy_text}
use mr_hak_os.CString.{strlen}
use mr_hak_os.FileSystem.Lookup.{Cell}

-- The entry that `new` and `initEntry` make.
abbrev pub fresh : ℕ → List ℕ → FileType → FileSystemEntry
fresh cur name type = init_entry zeroed name type (some cur)

-- The file system when the new entry hangs in the directory `dir` at place `cur`.
abbrev pub grown : FileSystem → ℕ → FileSystemEntry → List ℕ → FileType → FileSystem
grown fs cur dir name type = record fs {
  entries = set (fs.entries ++ fresh cur name type ∷ []) cur (add_child dir (length fs.entries));
  next_free = (pool_alloc entry_size fs.next_free).1;
}

set-append_length :
    (es : List FileSystemEntry) (x y : FileSystemEntry)
    → set (es ++ x ∷ []) (length es) y ≡ es ++ y ∷ []
set-append_length [] x y = refl
set-append_length (e ∷ es) x y = ap (λ r. e ∷ r) (set-append_length es x y)

-- With room in the pool the new entry gets the next place, without it the result is null.
pub add_entry-grown :
    (fs : FileSystem) (cur : ℕ) (dir : FileSystemEntry) (name : List ℕ) (type : FileType)
    → (pool_alloc entry_size fs.next_free).0 ≡ true
    → add_entry fs cur dir name type ≡ (some (length fs.entries), grown fs cur dir name type)
unfolding add_entry
add_entry-grown fs cur dir name type e =
    ground (arith, set-append_length fs.entries zeroed (fresh cur name type))

pub add_entry-null :
    (fs : FileSystem) (cur : ℕ) (dir : FileSystemEntry) (name : List ℕ) (type : FileType)
    → (pool_alloc entry_size fs.next_free).0 ≡ false
    → add_entry fs cur dir name type
      ≡ (none, record fs { next_free = (pool_alloc entry_size fs.next_free).1 })
unfolding add_entry
add_entry-null fs cur dir name type e = ground arith

module _ (n cur : ℕ) (name : List ℕ) where
  fresh-Linked :
      (type : FileType)
      → Linked (n + 1) (fresh cur name type).child_count (fresh cur name type).children
  unfolding init_entry
  fresh-Linked FileType.file = tt
  fresh-Linked _ = tt

  fresh-child_count : (type : FileType) → (fresh cur name type).child_count ≡ 0
  unfolding init_entry
  fresh-child_count FileType.file = refl
  fresh-child_count _ = refl

  fresh-IsEntry : (type : FileType) → cur < n → IsEntry (n + 1) n (fresh cur name type)
  unfolding init_entry
  fresh-IsEntry type h = record {
    name_size = length-copy_text zeroed.name name (clipped (strlen name));
    name_ends = ground (arith, strlen-copy_text zeroed.name name (clipped (strlen name)));
    array_size = refl;
    array_used = omega (arith, fresh-child_count type);
    linked = fresh-Linked type;
    older = h;
    holds = refl;
  }

add_child-IsEntry :
    (n cur : ℕ) (dir : FileSystemEntry)
    → dir.child_count < max_files
    → IsEntry n cur dir
    → IsEntry (n + 1) cur (add_child dir n)
unfolding add_child
add_child-IsEntry n cur dir h v = record {
  name_size = v.name_size;
  name_ends = v.name_ends;
  array_size = length-set dir.children dir.child_count (some n) ∙ v.array_size;
  array_used = omega arith;
  linked =
      let e : suc dir.child_count ≡ dir.child_count + 1 = omega arith in
      subst (λ k. Linked (n + 1) k (set dir.children dir.child_count (some n))) e
        (Linked-set (n + 1) dir.child_count n dir.children (omega (arith, v.array_size))
          (omega arith)
          (Linked-mono n (n + 1) dir.child_count dir.children (omega arith) v.linked));
  older = v.older;
  holds = v.holds;
}

add_child-child_count :
    (d : FileSystemEntry) (n : ℕ) → (add_child d n).child_count ≡ d.child_count + 1
unfolding add_child
add_child-child_count d n = refl

pub length-grown :
    (fs : FileSystem) (cur : ℕ) (dir : FileSystemEntry) (name : List ℕ) (type : FileType)
    → length (grown fs cur dir name type).entries ≡ length fs.entries + 1
length-grown fs cur dir name type =
    length-set (fs.entries ++ fresh cur name type ∷ []) cur (add_child dir (length fs.entries))
    ∙ length-append fs.entries (fresh cur name type ∷ [])

-- A valid file system stays valid when it grows by an entry.
pub grown-IsValid :
    (fs : FileSystem) (c : Cell fs fs.current_directory) (name : List ℕ) (type : FileType)
    → IsValid fs
    → c.entry.child_count < max_files
    → (pool_alloc entry_size fs.next_free).0 ≡ true
    → IsValid (grown fs c.place c.entry name type)
grown-IsValid fs c name type v room done =
    let n = length fs.entries in
    let e' = fresh c.place name type in
    let d' = add_child c.entry n in
    let cur_lt : c.place < n = lt_of_get_elem? fs.entries c.place c.entry c.loads in
    let size : length (set (fs.entries ++ e' ∷ []) c.place d') ≡ n + 1 =
      length-grown fs c.place c.entry name type in
    let pool = pool_alloc_bounds entry_size fs.next_free v.pool_aligned v.pool_end in
    let old : AllFrom (IsEntry (n + 1)) 0 fs.entries =
      AllFrom-mono (IsEntry n) (IsEntry (n + 1)) 0 fs.entries
        (λ i e. IsEntry-mono n (n + 1) i e (omega arith)) v.each in
    let longer : AllFrom (IsEntry (n + 1)) 0 (fs.entries ++ e' ∷ []) =
      AllFrom-snoc (IsEntry (n + 1)) 0 n fs.entries e' old
        (fresh-IsEntry n c.place name type cur_lt) (omega arith) in
    let linked : AllFrom (IsEntry (n + 1)) 0 (set (fs.entries ++ e' ∷ []) c.place d') =
      AllFrom-set (IsEntry (n + 1)) 0 c.place c.place (fs.entries ++ e' ∷ []) d' longer
        (add_child-IsEntry n c.place c.entry room c.fine) (omega arith) in
    record {
      rooted = v.rooted;
      here = rw (size, c.points) (omega arith);
      each = rw size linked;
      tree = omega (
        arith,
        v.tree,
        size,
        child_total-snoc fs.entries e',
        fresh-child_count n c.place name type,
        add_child-child_count c.entry n,
        child_total-set (fs.entries ++ e' ∷ []) c.place c.entry d'
            (get_elem?-append_left fs.entries (e' ∷ []) c.place cur_lt ∙ c.loads),
      );
      pool_used = omega (arith, v.pool_used, size, pool.4 done);
      pool_end = pool.1;
      pool_aligned = pool.0;
    }
