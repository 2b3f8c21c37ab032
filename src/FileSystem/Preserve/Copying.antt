-- ===== src/FileSystem/Preserve/Copying.antt =====
-- `cp` keeps a file system valid, as long as every file has a content.
use mr_hak_os.Prelude.{
  ℕ, ◌+◌, ◌≡◌, ◌≢◌, List, Bool, true, Option, none, some, inl, inr, arith, length, AllFrom,
  Bool-cases, Option-cases, get_elem?, subst, sym, false, if◌then◌else◌, lt_of_get_elem?, leb,
  replicate, drop, not, AllFrom-get,
}
use mr_hak_os.FileSystem.State.{FileSystem, deref, ◌>>=◌, is_null}
use mr_hak_os.FileSystem.{create_hak_file}
use mr_hak_os.FileSystem.Entry.{
  EntryPtr, FileSystemEntry, is_hak_file, has_extension, dot_hak, is_directory, max_name_length,
  copy_text,
}
use mr_hak_os.FileSystem.Preserve.Files.{create_hak_file-Safe}
use mr_hak_os.FileSystem.Preserve.{Safe}
use mr_hak_os.FileSystem.Transfer.{cp_to, cp_target, last_slash, cp}
use mr_hak_os.FileSystem.Valid.{Below, IsValid}
use mr_hak_os.FileSystem.Lookup.{Cell-at, Search-in, deref-Cell, Finds, Cell-here}
use mr_hak_os.FileSystem.Preserve.Navigate.{at-IsValid}
use mr_hak_os.FileSystem.Preserve.Longer.{Longer, create_hak_file-Longer}

-- Every file has a content buffer.
abbrev pub Stocked : FileSystem → Type 0
Stocked fs = AllFrom (λ i e. is_hak_file e.type ≡ true → e.content ≢ none) 0 fs.entries

-- `cp` switches to the target directory, creates the file there and switches back.
abbrev back_to : EntryPtr → Option (Bool × FileSystem) → Option (Bool × FileSystem)
back_to p none = none
back_to p (some (done, fs)) = some (done, record fs { current_directory = p })

back_to-Safe :
    (n : ℕ) (p : EntryPtr) (r : Option (Bool × FileSystem))
    → Safe r
    → Longer n r
    → Below n p
    → Safe (back_to p r)
back_to-Safe n p none s l b = s
back_to-Safe n none (some (done, fs)) s l b = elim b [ ]
back_to-Safe n (some k) (some (done, fs)) s l b = at-IsValid fs (some k) s (omega arith)

cp_to-Safe :
    (fs : FileSystem) (bytes : List ℕ) (target : EntryPtr) (name : List ℕ)
    → IsValid fs
    → Below (length fs.entries) target
    → Safe (cp_to (some bytes) target name fs)
unfolding cp_to
cp_to-Safe fs bytes target name v b =
    let c = Cell-at fs target v.each b in
    let s = Search-in fs name c.place c.entry c.fine in
    let there = record fs { current_directory = target } in
    let made = create_hak_file (some name) (some bytes) there in
    let safe =
      back_to-Safe (length fs.entries) fs.current_directory made
        (create_hak_file-Safe there (some name) bytes (at-IsValid fs target v b))
        (create_hak_file-Longer there name bytes) v.here in
    elim (Bool-cases (is_null s.result)) [
      | inr taken ↦ rw (deref-Cell fs target c, s.runs, taken) v
      | inl free ↦ elim (Bool-cases (has_extension (some name) (some dot_hak))) [
        | inr x ↦ rw (deref-Cell fs target c, s.runs, free, x) v
        | inl x ↦
            rw (deref-Cell fs target c, s.runs, free, x)
              (elim (Option-cases made) [
                | inl e ↦ rw e (rw e at safe)
                | inr (r, e) ↦ rw e (rw e at safe)
              ])
      ]
    ]

-- The directory that `cp` copies into is an entry.
abbrev InReach : FileSystem → Option (Option (EntryPtr × List ℕ)) → Type 0
InReach fs none = ⊥
InReach fs (some none) = Unit
InReach fs (some (some (target, name))) = Below (length fs.entries) target

in_dir : List ℕ → FileSystem → EntryPtr → Option (Option (EntryPtr × List ℕ))
in_dir name fs found =
    if is_null found
    then some none
    else (deref fs.entries found >>= λ entry.
        some (if is_directory entry.type then some (found, name) else none))

in_dir-InReach :
    (fs : FileSystem) (dir_name name : List ℕ) (found : EntryPtr)
    → Finds fs.entries dir_name found
    → InReach fs (in_dir name fs found)
unfolding in_dir deref
in_dir-InReach fs dir_name name none f = tt
in_dir-InReach fs dir_name name (some p) (e, h, hit) = elim (Bool-cases (is_directory e.type)) [
  | inl d ↦ rw (h, d) (lt_of_get_elem? fs.entries p e h)
  | inr d ↦ rw (h, d) tt
]

cp_target-InReach :
    (fs : FileSystem) (destination : List ℕ) → IsValid fs → InReach fs (cp_target destination fs)
unfolding cp_target
cp_target-InReach fs destination v = elim (Option-cases (last_slash destination 0 none)) [
  | inl e ↦ rw (e, cp_target) v.here
  | inr (n, e) ↦ elim (Bool-cases (leb max_name_length n)) [
    | inl long ↦ rw (e, cp_target, long) tt
    | inr short ↦
        let c = Cell-here fs v in
        let dir_name = copy_text (replicate max_name_length 0) destination n in
        let s = Search-in fs dir_name c.place c.entry c.fine in
        rw (e, cp_target, short, deref-Cell fs fs.current_directory c, s.runs)
          (unfold in_dir in in_dir-InReach fs dir_name (drop (n + 1) destination) s.result s.sound)
  ]
]

-- `cp` behind its first checks.
parsed-Safe :
    (fs : FileSystem) (bytes : List ℕ) (parsed : Option (Option (EntryPtr × List ℕ)))
    → IsValid fs
    → InReach fs parsed
    → Safe (
        parsed >>= λ t. elim t [
          | none ↦ some (false, fs)
          | some (target, name) ↦ cp_to (some bytes) target name fs
        ])
parsed-Safe fs bytes none v r = r
parsed-Safe fs bytes (some none) v r = v
parsed-Safe fs bytes (some (some (target, name))) v r = cp_to-Safe fs bytes target name v r

-- `cp` of a file that was found at `p`.
cp_found-Safe :
    (fs : FileSystem) (e : FileSystemEntry) (p : ℕ) (parsed : Option (Option (EntryPtr × List ℕ)))
    → IsValid fs
    → Stocked fs
    → get_elem? fs.entries p ≡ some e
    → InReach fs parsed
    → Safe (
        if not (is_hak_file e.type)
        then some (false, fs)
        else (parsed >>= λ t. elim t [
          | none ↦ some (false, fs)
          | some (target, name) ↦ cp_to e.content target name fs
        ]))
cp_found-Safe fs e p parsed v full h r = elim (Bool-cases (is_hak_file e.type)) [
  | inr d ↦ rw d v
  | inl d ↦ elim (Option-cases e.content) [
    | inl missing ↦ absurd (
        AllFrom-get (λ i x. is_hak_file x.type ≡ true → x.content ≢ none) 0 p p fs.entries e full h
          (omega arith) d missing)
    | inr (bytes, b) ↦ rw d (
        subst
          (λ x. Safe (
            parsed >>= λ t. elim t [
              | none ↦ some (false, fs)
              | some (target, name) ↦ cp_to x target name fs
            ]))
          (sym b) (parsed-Safe fs bytes parsed v r))
  ]
]

-- In a valid file system where every file has a content, `cp` returns, whatever the names, and
-- leaves the file system valid.
pub cp-Safe :
    (fs : FileSystem) (source destination : List ℕ)
    → IsValid fs
    → Stocked fs
    → Safe (cp source destination fs)
unfolding cp
cp-Safe fs source destination v full =
    let c = Cell-here fs v in
    let s = Search-in fs source c.place c.entry c.fine in
    rw (deref-Cell fs fs.current_directory c, s.runs) (go s.result s.sound)
  where
    go :
        (found : EntryPtr)
        → Finds fs.entries source found
        → Safe (
            if is_null found
            then some (false, fs)
            else (deref fs.entries found >>= λ entry.
                if not (is_hak_file entry.type)
                then some (false, fs)
                else (cp_target destination fs >>= λ t. elim t [
                  | none ↦ some (false, fs)
                  | some (target, name) ↦ cp_to entry.content target name fs
                ])))
    go none f = v
    go (some p) (e, h, hit) =
        unfold deref in
        rw h (
          cp_found-Safe fs e p (cp_target destination fs) v full h
            (cp_target-InReach fs destination v))
