-- ===== src/FileSystem/State.antt =====
-- The object `FileSystem` of src/libc/filesystem.cpp with its heap of entries, and the lookups
-- that follow pointers. `none` as a result is a fault: a null or dangling pointer is followed.
use mr_hak_os.Prelude.{
  ℕ, zero, suc, List, [], ◌∷◌, Option, none, some, if◌then◌else◌, get_elem?, Bool, true, false,
}
use mr_hak_os.CString.{strcmp, is_equal}
use mr_hak_os.FileSystem.Entry.{FileSystemEntry, EntryPtr}

-- `entries` are those that `new FileSystemEntry` has returned, oldest first, and `next_free` is
-- the static variable of `operator new`.
pub record FileSystem : Type 0 where
  pub root : EntryPtr
  pub current_directory : EntryPtr
  pub entries : List FileSystemEntry
  pub next_free : ℕ

infixl 5 ◌>>=◌
abbrev pub ◌>>=◌ {ℓ κ} : {A : Type ℓ} {B : Type κ} → Option A → (A → Option B) → Option B
none >>= f = none
some a >>= f = f a

-- *p
unfoldable pub deref : List FileSystemEntry → EntryPtr → Option FileSystemEntry
deref entries none = none
deref entries (some p) = get_elem? entries p

-- The loop of `findEntry` over the `n` children from a place on; the inner option is the pointer
-- that it returns. Reading past the array is a fault too.
unfoldable pub find_from : List FileSystemEntry → List ℕ → ℕ → List EntryPtr → Option EntryPtr
unfolding deref
find_from entries name zero children = some none
find_from entries name (suc n) [] = none
find_from entries name (suc n) (child ∷ children) =
    let rest = find_from entries name n children in
    (deref entries child >>= λ entry.
    if is_equal (strcmp entry.name name) then some child else rest)

unfoldable pub find_entry : List FileSystemEntry → List ℕ → FileSystemEntry → Option EntryPtr
find_entry entries name dir = find_from entries name dir.child_count dir.children

abbrev pub is_null : EntryPtr → Bool
is_null none = true
is_null (some p) = false

-- name[0] == '\0'
abbrev pub is_empty : List ℕ → Bool
is_empty [] = true
is_empty (zero ∷ name) = true
is_empty (suc c ∷ name) = false
