-- ===== src/FileSystem/PathBounds.antt =====
-- `getCurrentPath` stays inside the caller's buffer, but for a buffer of one byte.
use mr_hak_os.FileSystem.Valid.{IsValid, Older, IsEntry}
use mr_hak_os.FileSystem.Path.{Output, separate, write_names, write_name, put}
use mr_hak_os.Prelude.{
  ℕ, zero, suc, ◌-◌, ◌≤◌, ◌<◌, ◌≡◌, ◌≢◌, refl, List, [], ◌∷◌, true, false, none, some, inl, inr,
  arith, ◌==◌, length, Bool-cases, length-set, ltb, ltb→lt, get_or, set, get_or-set_self,
  get_elem?-of_lt, AllFrom-get, lt_of_get_elem?, ◌∙◌, ap, subst, sym,
}
use mr_hak_os.FileSystem.Read.{write_path, climb, get_current_path, same_ptr}
use mr_hak_os.FileSystem.State.{deref, FileSystem}
use mr_hak_os.FileSystem.Entry.{EntryPtr, max_path_depth}
use mr_hak_os.FileSystem.Lookup.{Cell-at, Cell-here}

write_name-pos :
    (name : List ℕ) (limit : ℕ) (o : Output)
    → o.pos ≤ limit
    → ((write_name name limit o).pos ≤ limit)
      × (o.pos ≤ (write_name name limit o).pos)
      × (length (write_name name limit o).buffer ≡ length o.buffer)
unfolding write_name
write_name-pos [] limit o h = omega arith
write_name-pos (c ∷ name) limit o h = elim (Bool-cases (c == 0)) [
  | inl e ↦ rw e (omega arith)
  | inr e ↦ elim (Bool-cases (ltb o.pos limit)) [
    | inl more ↦
        rw (e, more)
          (omega (
            arith,
            write_name-pos name limit (put c o) (ground arith),
            length-set o.buffer o.pos c,
            ltb→lt o.pos limit more,
          ))
    | inr full ↦ rw (e, full) (omega arith)
  ]
]

separate-pos :
    (names : List (List ℕ)) (limit : ℕ) (o : Output)
    → o.pos ≤ limit
    → ((separate names limit o).pos ≤ limit)
      × (o.pos ≤ (separate names limit o).pos)
      × (length (separate names limit o).buffer ≡ length o.buffer)
separate-pos [] limit o h = omega arith
separate-pos (name ∷ names) limit o h = ground (arith, length-set o.buffer o.pos b'/')

write_names-pos :
    (names : List (List ℕ)) (limit : ℕ) (o : Output)
    → o.pos ≤ limit
    → ((write_names names limit o).pos ≤ limit)
      × (o.pos ≤ (write_names names limit o).pos)
      × (length (write_names names limit o).buffer ≡ length o.buffer)
unfolding write_names
write_names-pos [] limit o h = omega arith
write_names-pos (name ∷ names) limit o h = elim (Bool-cases (ltb o.pos limit)) [
  | inr full ↦ rw full (omega arith)
  | inl more ↦
      let a = write_name-pos name limit o h in
      let b = separate-pos names limit (write_name name limit o) a.0 in
      let d = write_names-pos names limit (separate names limit (write_name name limit o)) b.0 in
      rw more (omega (arith, a, b, d))
]

abbrev Climbs : ℕ → FileSystem → EntryPtr → List (List ℕ) → Type 0
Climbs n fs p names = (out : List (List ℕ)) × (climb n fs p names ≡ some out)

climb_parent :
    (n : ℕ) (fs : FileSystem) (p : ℕ) (parent : EntryPtr) (names : List (List ℕ))
    → ((q : ℕ) → q < length fs.entries → Climbs n fs (some q) names)
    → p < length fs.entries
    → Older p parent
    → p ≢ 0
    → Climbs n fs parent names
climb_parent n fs p none names next h o ne = absurd (ne o)
climb_parent n fs p (some q) names next h o ne = next q (omega arith)

-- The components of a path can always be collected.
climb-total :
    (n : ℕ) (fs : FileSystem) (p : ℕ) (names : List (List ℕ))
    → IsValid fs
    → p < length fs.entries
    → (out : List (List ℕ)) × (climb n fs (some p) names ≡ some out)
unfolding climb deref
climb-total zero fs p names v h = (names, refl)
climb-total (suc n) fs p names v h = elim (Bool-cases (p == 0)) [
  | inl top ↦ (names, rw (at_root ∙ top))
  | inr below ↦
      let c = Cell-at fs (some p) v.each h in
      let (e, load) = get_elem?-of_lt fs.entries p h in
      let fine =
        AllFrom-get (IsEntry (length fs.entries)) 0 p p fs.entries e v.each load (omega arith) in
      let (out, run) =
        climb_parent n fs p e.parent (e.name ∷ names)
          (λ q hq. climb-total n fs q (e.name ∷ names) v hq) h fine.older (ground arith) in
      (out, rw (at_root ∙ below, load) run)
]
  where
    at_root : same_ptr (some p) fs.root ≡ (p == 0)
    at_root = ap (same_ptr (some p)) v.rooted

-- The output in a buffer of `size` bytes: the terminator stands at `pos`.
abbrev pub Ends : ℕ → Output → Type 0
Ends size o = (o.pos < size) × (length o.buffer ≡ size) × (get_or o.buffer o.pos 0 ≡ 0)

write_path-Ends :
    (names : List (List ℕ)) (buffer : List ℕ) (size : ℕ)
    → length buffer ≡ size
    → 2 ≤ size
    → Ends size (write_path names buffer size)
unfolding write_path
write_path-Ends names buffer size e two =
    let start = put b'/' (record { buffer = set buffer 0 0; pos = 0 }) in
    let a = write_names-pos names (size - 1) start (omega arith) in
    let o = write_names names (size - 1) start in
    let l1 = length-set buffer 0 0 in
    let l2 = length-set (set buffer 0 0) 0 b'/' in
    (
      omega (arith, a),
      omega (arith, a, l1, l2, length-set o.buffer o.pos 0),
      get_or-set_self o.buffer o.pos 0 0 (omega (arith, a, l1, l2)),
    )

-- `getCurrentPath` below the root, by its components.
path_run :
    (fs : FileSystem) (buffer : List ℕ) (size : ℕ) (names : List (List ℕ))
    → size ≢ 0
    → same_ptr fs.current_directory fs.root ≡ false
    → climb max_path_depth fs fs.current_directory [] ≡ some names
    → get_current_path (some buffer) size fs ≡ some (some (write_path names buffer size))
unfolding get_current_path
path_run fs buffer size names ne below e =
    let some_size : (size == 0) ≡ false = ground arith in rw (some_size, below, e)

components : (fs : FileSystem) → IsValid fs → Climbs max_path_depth fs fs.current_directory []
components fs v =
    let c = Cell-here fs v in
    subst (λ p. Climbs max_path_depth fs p []) (sym c.points)
      (climb-total max_path_depth fs c.place [] v
        (lt_of_get_elem? fs.entries c.place c.entry c.loads))

-- In a valid file system `getCurrentPath` with a buffer of `size ≥ 2` bytes returns, and leaves
-- a terminated text inside the buffer.
pub get_current_path_bounds :
    (fs : FileSystem) (buffer : List ℕ) (size : ℕ)
    → IsValid fs
    → length buffer ≡ size
    → 2 ≤ size
    → (o : Output) × (get_current_path (some buffer) size fs ≡ some (some o)) × Ends size o
get_current_path_bounds fs buffer size v e two =
    elim (Bool-cases (same_ptr fs.current_directory fs.root)) [
      | inl top ↦ (
        record { buffer = set (set (set buffer 0 0) 0 b'/') 1 0; pos = 1 },
        (unfold get_current_path in
            let some_size : (size == 0) ≡ false = ground arith in
            let long : ltb 1 size ≡ true = ground arith in rw (some_size, top, long)),
        at_root buffer size e two,
      )
      | inr below ↦
          let (names, run) = components fs v in
          (
            write_path names buffer size,
            path_run fs buffer size names (omega arith) below run,
            write_path-Ends names buffer size e two,
          )
    ]
  where
    at_root :
        (b : List ℕ) (n : ℕ)
        → length b ≡ n
        → 2 ≤ n
        → Ends n (record { buffer = set (set (set b 0 0) 0 b'/') 1 0; pos = 1 })
    at_root [] n e two = absurd (omega arith)
    at_root (x ∷ []) n e two = absurd (omega arith)
    at_root (x ∷ y ∷ b) n e two = (omega arith, omega arith, refl)

write_names-stuck : (names : List (List ℕ)) (o : Output) → (write_names names 0 o).pos ≡ o.pos
unfolding write_names
write_names-stuck [] o = refl
write_names-stuck (n ∷ ns) o = let full : ltb o.pos 0 ≡ false = ground arith in rw full

-- In a valid file system whose current directory is not the root, `getCurrentPath` with a buffer
-- of one byte writes its terminator to place 1, behind the end of the buffer.
pub get_current_path_overflow :
    (fs : FileSystem) (buffer : List ℕ)
    → IsValid fs
    → length buffer ≡ 1
    → same_ptr fs.current_directory fs.root ≡ false
    → (o : Output) × (get_current_path (some buffer) 1 fs ≡ some (some o)) × (o.pos ≡ length buffer)
get_current_path_overflow fs buffer v e below =
    let (names, run) = components fs v in
    let start = put b'/' (record { buffer = set buffer 0 0; pos = 0 }) in
    (
      write_path names buffer 1,
      path_run fs buffer 1 names (omega arith) below run,
      unfold write_path in omega (arith, write_names-stuck names start),
    )
