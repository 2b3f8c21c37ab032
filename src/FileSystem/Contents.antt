-- ===== src/FileSystem/Contents.antt =====
-- What `createHakFile` writes, `readHakFile` reads.
use mr_hak_os.FileSystem.Valid.{Linked}
use mr_hak_os.Prelude.{
  ℕ, zero, suc, ◌≡◌, ◌∙◌, refl, List, [], ◌∷◌, none, some, arith, get_elem?, set, length,
  ℕ_discrete, get_elem?-of_lt, get_elem?-set_self, eq_of_some, lt_of_get_elem?, sym, subst,
  get_elem?-set_ne, ◌+◌, ◌-◌, ◌≤◌, ◌<◌, ◌≢◌, Bool, true, false, inl, inr, ◌==◌, if◌then◌else◌, leb,
  get_or, ap₂, replicate, ap, ltb, Bool-cases, length-replicate,
}
use mr_hak_os.FileSystem.Entry.{FileSystemEntry, EntryPtr, copy_text, is_hak_file}
use mr_hak_os.FileSystem.State.{find_from, deref, find_entry, FileSystem}
use mr_hak_os.FileSystem.Lookup.{Cell}
use mr_hak_os.FileSystem.{write_content, write_entry}
use mr_hak_os.FileSystem.Read.{read_hak_file}
use mr_hak_os.FileSystem.Preserve.Files.{kept, filled}
use mr_hak_os.FileSystem.Names.{get_or-copy_text}
use mr_hak_os.FileSystem.Pool.{pool_alloc}

-- A heap whose entries have the same names at every place.
abbrev pub SameAll : List FileSystemEntry → List FileSystemEntry → Type 0
SameAll es es' =
    (c : ℕ) (e : FileSystemEntry)
    → get_elem? es c ≡ some e
    → (e' : FileSystemEntry) × (get_elem? es' c ≡ some e') × (e'.name ≡ e.name)

find_from-same :
    (es es' : List FileSystemEntry) (name : List ℕ) (k : ℕ) (cs : List EntryPtr)
    → SameAll es es'
    → Linked (length es) k cs
    → find_from es' name k cs ≡ find_from es name k cs
unfolding find_from deref
find_from-same es es' name zero cs same l = refl
find_from-same es es' name (suc k) [] same l = refl
find_from-same es es' name (suc k) (none ∷ cs) same l = elim l.0 [ ]
find_from-same es es' name (suc k) (some c ∷ cs) same l =
    let (x, load) = get_elem?-of_lt es c l.0 in
    let (x', load', names) = same c x load in
    rw (load, load', names, find_from-same es es' name k cs same l.1)

set-SameAll :
    (es : List FileSystemEntry) (p : ℕ) (e e' : FileSystemEntry)
    → get_elem? es p ≡ some e
    → e'.name ≡ e.name
    → SameAll es (set es p e')
set-SameAll es p e e' h names k x load = elim (ℕ_discrete k p) [
  | yes at ↦ (e', rw at (get_elem?-set_self es p e' (lt_of_get_elem? es p e h)), ground arith)
  | no away ↦ (x, get_elem?-set_ne es p k e' (λ q. away (sym q)) ∙ load, refl)
]

-- After a change of the entry `p` that keeps its name and its children, every lookup in the
-- current directory finds the same pointer.
pub find_entry-set :
    (fs : FileSystem) (c : Cell fs fs.current_directory) (p : ℕ) (e e' : FileSystemEntry)
    (name : List ℕ)
    → get_elem? fs.entries p ≡ some e
    → (e'.name ≡ e.name) × (e'.children ≡ e.children) × (e'.child_count ≡ e.child_count)
    → (dir : FileSystemEntry) × (deref (set fs.entries p e') fs.current_directory ≡ some dir)
      × (find_entry (set fs.entries p e') name dir ≡ find_entry fs.entries name c.entry)
unfolding deref find_entry
find_entry-set fs c p e e' name h (names, array, count) =
    let same =
      find_from-same fs.entries (set fs.entries p e') name c.entry.child_count c.entry.children
        (set-SameAll fs.entries p e e' h names) c.fine.linked in
    elim (ℕ_discrete c.place p) [
      | yes at ↦
          let q : e ≡ c.entry =
            eq_of_some (sym h ∙ subst (λ k. get_elem? fs.entries k ≡ some c.entry) at c.loads) in
          (
            e',
            rw (c.points, deref, at)
                (get_elem?-set_self fs.entries p e' (lt_of_get_elem? fs.entries p e h)),
            ap₂ (find_from (set fs.entries p e') name)
                  (count ∙ ap (λ (x : FileSystemEntry). x.child_count) q)
                  (array ∙ ap (λ (x : FileSystemEntry). x.children) q)
                ∙ same,
          )
      | no away ↦ (
        c.entry,
        rw (c.points, deref)
            (get_elem?-set_ne fs.entries p c.place e' (λ q. away (sym q)) ∙ c.loads),
        same,
      )
    ]

-- How much of a content reaches a buffer of `size` bytes.
abbrev pub shown : List ℕ → ℕ → ℕ
shown content size = if leb size (kept content) then size - 1 else kept content

-- The buffer holds the first `n` bytes of the content and a terminator behind them.
abbrev pub Shows : List ℕ → ℕ → List ℕ → Type 0
Shows content n out = ((j : ℕ) → j < n → get_or out j 0 ≡ get_or content j 0) × (get_or out n 0 ≡ 0)

pub copied-Shows :
    (content buffer : List ℕ) (size : ℕ)
    → size ≢ 0
    → size ≤ length buffer
    → Shows content (shown content size) (
        copy_text buffer
          (copy_text (replicate (kept content + 1) 0) content (kept content))
          (shown content size))
copied-Shows content buffer size ne room =
    let bytes = copy_text (replicate (kept content + 1) 0) content (kept content) in
    let full : kept content < length (replicate {A = ℕ} (kept content + 1) 0) =
      omega (arith, length-replicate {A = ℕ} (kept content + 1) 0) in
    let fits : shown content size < length buffer = ground arith in
    let less : shown content size ≤ kept content = ground arith in
    (
      λ j h.
          get_or-copy_text buffer bytes (shown content size) j fits
          ∙ below j (shown content size) 0 (get_or bytes j 0) (get_or buffer j 0) h
          ∙ get_or-copy_text (replicate (kept content + 1) 0) content (kept content) j full
          ∙ below j (kept content) 0 (get_or content j 0)
              (get_or (replicate (kept content + 1) 0) j 0) (omega arith),
      get_or-copy_text buffer bytes (shown content size) (shown content size) fits
          ∙ at (shown content size) (get_or bytes (shown content size) 0)
              (get_or buffer (shown content size) 0),
    )
  where
    below : (j n a b d : ℕ) → j < n → (if n == j then a else if ltb j n then b else d) ≡ b
    below j n a b d h = ground arith

    at : (n b d : ℕ) → (if n == n then 0 else if ltb n n then b else d) ≡ 0
    at n b d = ground arith

-- The file system when the content has been written.
abbrev pub stored : FileSystem → ℕ → FileSystemEntry → List ℕ → FileSystem
stored fs p e content =
    write_entry p (filled e content (kept content))
      (record fs { next_free = (pool_alloc (kept content + 1) fs.next_free).1 })

write_content-true :
    (fs fs' : FileSystem) (p : ℕ) (e : FileSystemEntry) (content : List ℕ)
    → get_elem? fs.entries p ≡ some e
    → write_content p content fs ≡ some (true, fs')
    → stored fs p e content ≡ fs'
unfolding write_content deref
write_content-true fs fs' p e content h w =
    elim (Bool-cases (pool_alloc (kept content + 1) fs.next_free).0) [
      | inr full ↦ absurd (ground arith)
      | inl done ↦
          let run : write_content p content fs ≡ some (true, stored fs p e content) =
            rw (done, h) in
          ap (λ (r : Bool × FileSystem). r.1) (eq_of_some (sym run ∙ w))
    ]

-- The read of a file that has just been filled.
pub filled-read :
    (fs fs' : FileSystem) (c : Cell fs fs.current_directory) (name content buffer : List ℕ)
    (size p : ℕ) (e : FileSystemEntry)
    → get_elem? fs.entries p ≡ some e
    → is_hak_file e.type ≡ true
    → find_entry fs.entries name c.entry ≡ some (some p)
    → size ≢ 0
    → write_content p content fs ≡ some (true, fs')
    → read_hak_file (some name) (some buffer) size fs'
      ≡ some (
        true,
        some (
            copy_text buffer
              (copy_text (replicate (kept content + 1) 0) content (kept content))
              (shown content size)),
      )
unfolding read_hak_file deref
filled-read fs fs' c name content buffer size p e h hak found ne w =
    let e' = filled e content (kept content) in
    let (dir, here, lookup) = find_entry-set fs c p e e' name h (refl, refl, refl) in
    let at = get_elem?-set_self fs.entries p e' (lt_of_get_elem? fs.entries p e h) in
    let some_size : (size == 0) ≡ false = ground arith in
    subst
      (λ s.
        read_hak_file (some name) (some buffer) size s
        ≡ some (
          true,
          some (
              copy_text buffer (copy_text (replicate (kept content + 1) 0) content (kept content))
                (shown content size)),
        ))
      (write_content-true fs fs' p e content h w) (rw (some_size, here, lookup ∙ found, at, hak))
