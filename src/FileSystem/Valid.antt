-- ===== src/FileSystem/Valid.antt =====
-- The well-formedness of a file system: every pointer leads to an entry, every name ends inside
-- its array, and the pool's account is right.
use mr_hak_os.Prelude.{
  ℕ, zero, suc, ◌+◌, ◌*◌, ◌%◌, ◌≤◌, ◌<◌, ◌≡◌, List, [], ◌∷◌, ◌++◌, Option, none, some, arith,
  length, get_elem?, set, AllFrom,
}
use mr_hak_os.CString.{strlen}
use mr_hak_os.FileSystem.Entry.{FileSystemEntry, EntryPtr, max_name_length, max_files}
use mr_hak_os.FileSystem.Pool.{memory_pool_size}
use mr_hak_os.FileSystem.State.{FileSystem}

-- A pointer to one of the first `n` entries.
abbrev pub Below : ℕ → EntryPtr → Type 0
Below n none = ⊥
Below n (some p) = p < n

-- The first `k` pointers of an array lead to one of the first `n` entries.
abbrev pub Linked : ℕ → ℕ → List EntryPtr → Type 0
Linked n zero children = Unit
Linked n (suc k) [] = ⊥
Linked n (suc k) (c ∷ children) = Below n c × Linked n k children

-- The root alone has no parent, and a parent is older than its children.
abbrev pub Older : ℕ → EntryPtr → Type 0
Older i none = i ≡ 0
Older i (some p) = p < i

-- A content buffer holds `content_size` bytes and a terminator.
abbrev pub Holds : ℕ → Option (List ℕ) → Type 0
Holds size none = size ≡ 0
Holds size (some bytes) = length bytes ≡ size + 1

-- The entry with number `i`, among `n` entries.
pub record IsEntry (n i : ℕ) (e : FileSystemEntry) : Type 0 where
  pub name_size : length e.name ≡ max_name_length
  pub name_ends : strlen e.name < max_name_length
  pub array_size : length e.children ≡ max_files
  pub array_used : e.child_count ≤ max_files
  pub linked : Linked n e.child_count e.children
  pub older : Older i e.parent
  pub holds : Holds e.content_size e.content

abbrev pub child_total : List FileSystemEntry → ℕ
child_total [] = 0
child_total (e ∷ entries) = e.child_count + child_total entries

pub record IsValid (fs : FileSystem) : Type 0 where
  pub rooted : fs.root ≡ some 0
  pub here : Below (length fs.entries) fs.current_directory
  pub each : AllFrom (IsEntry (length fs.entries)) 0 fs.entries
  pub tree : child_total fs.entries + 1 ≡ length fs.entries
  pub pool_used : 368 * length fs.entries ≤ fs.next_free
  pub pool_end : fs.next_free ≤ memory_pool_size
  pub pool_aligned : fs.next_free % 16 ≡ 0

pub Linked-mono : (n m k : ℕ) (cs : List EntryPtr) → n ≤ m → Linked n k cs → Linked m k cs
Linked-mono n m zero cs h l = tt
Linked-mono n m (suc k) [] h l = l
Linked-mono n m (suc k) (none ∷ cs) h l = (l.0, Linked-mono n m k cs h l.1)
Linked-mono n m (suc k) (some c ∷ cs) h l = (omega arith, Linked-mono n m k cs h l.1)

-- The new pointer stands behind the used part of the array.
pub Linked-set :
    (n k c : ℕ) (cs : List EntryPtr)
    → k < length cs
    → c < n
    → Linked n k cs
    → Linked n (suc k) (set cs k (some c))
Linked-set n zero c [] h b l = elim h [ ]
Linked-set n zero c (x ∷ cs) h b l = (b, tt)
Linked-set n (suc k) c [] h b l = l
Linked-set n (suc k) c (x ∷ cs) h b l = (l.0, Linked-set n k c cs (omega arith) b l.1)

pub IsEntry-mono : (n m i : ℕ) (e : FileSystemEntry) → n ≤ m → IsEntry n i e → IsEntry m i e
IsEntry-mono n m i e h v = record {
  name_size = v.name_size;
  name_ends = v.name_ends;
  array_size = v.array_size;
  array_used = v.array_used;
  linked = Linked-mono n m e.child_count e.children h v.linked;
  older = v.older;
  holds = v.holds;
}

pub child_total-set :
    (es : List FileSystemEntry) (k : ℕ) (e v : FileSystemEntry)
    → get_elem? es k ≡ some e
    → child_total (set es k v) + e.child_count ≡ child_total es + v.child_count
child_total-set [] k e v h = absurd (cc)
child_total-set (x ∷ es) zero e v h = let h' : x ≡ e = cc in rw h' (omega arith)
child_total-set (x ∷ es) (suc k) e v h = omega (arith, child_total-set es k e v h)

pub child_total-snoc :
    (es : List FileSystemEntry) (e : FileSystemEntry)
    → child_total (es ++ e ∷ []) ≡ child_total es + e.child_count
child_total-snoc [] e = omega arith
child_total-snoc (x ∷ es) e = omega (arith, child_total-snoc es e)
