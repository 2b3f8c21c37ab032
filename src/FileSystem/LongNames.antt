-- ===== src/FileSystem/LongNames.antt =====
-- Names that do not fit FS_MAX_NAME_LENGTH: `mkdir` cuts them off when it stores them, and no lookup
-- compares them cut off.
use mr_hak_os.FileSystem.Valid.{IsValid, IsEntry}
use mr_hak_os.FileSystem.{cd, mkdir, enter, root_name}
use mr_hak_os.Prelude.{
  ℕ, zero, suc, ◌≤◌, ◌<◌, ◌≡◌, ◌∙◌, refl, List, [], ◌∷◌, true, false, none, some, inl, inr, arith,
  leb, Bool-cases, AllFrom-get, ap, length, sym,
}
use mr_hak_os.FileSystem.Entry.{
  max_name_length, FileSystemEntry, EntryPtr, entry_size, max_files, FileType,
}
use mr_hak_os.FileSystem.State.{FileSystem, is_empty}
use mr_hak_os.CString.{is_equal, strlen, strcmp}
use mr_hak_os.FileSystem.Pool.{pool_alloc}
use mr_hak_os.FileSystem.RoundTrip.{IsPlain, cd_run, dots}
use mr_hak_os.FileSystem.Lookup.{Cell-here, Search-in, Finds, deref-Cell}
use mr_hak_os.CString.Text.{strcmp_iff, strlen-length}
use mr_hak_os.FileSystem.Capacity.{entries_bounds}
use mr_hak_os.FileSystem.Preserve.{mkdir_result, mkdir_run}
use mr_hak_os.FileSystem.Growth.{grown-IsValid, grown, add_entry-grown}

strlen_of_equal : (a b : List ℕ) → is_equal (strcmp a b) ≡ true → strlen a ≡ strlen b
strlen_of_equal a b h =
    let e = (strcmp_iff a b).0 h in strlen-length a ∙ ap length e ∙ sym (strlen-length b)

found_is_short :
    (fs : FileSystem) (name : List ℕ) (found : EntryPtr)
    → IsValid fs
    → Finds fs.entries name found
    → max_name_length ≤ strlen name
    → found ≡ none
found_is_short fs name none v f long = refl
found_is_short fs name (some p) v (e, h, hit) long =
    let fine =
      AllFrom-get (IsEntry (length fs.entries)) 0 p p fs.entries e v.each h (omega arith) in
    absurd (omega (arith, fine.name_ends, strlen_of_equal e.name name hit))

long-IsPlain : (name : List ℕ) → max_name_length ≤ strlen name → IsPlain name
long-IsPlain name long = record {
  not_root = short_differs root_name (unfold strlen in omega arith);
  not_dot = short_differs (b'.' ∷ []) (unfold strlen in omega arith);
  not_dots = short_differs dots (unfold strlen in omega arith);
}
  where
    short_differs : (t : List ℕ) → strlen t < 3 → is_equal (strcmp name t) ≡ false
    short_differs t h = elim (Bool-cases (is_equal (strcmp name t))) [
      | inl e ↦ absurd (omega (arith, strlen_of_equal name t e))
      | inr e ↦ e
    ]

long-not_empty : (name : List ℕ) → max_name_length ≤ strlen name → is_empty name ≡ false
unfolding strlen
long-not_empty [] h = absurd (omega arith)
long-not_empty (zero ∷ s) h = absurd (omega arith)
long-not_empty (suc c ∷ s) h = refl

long-missing :
    (fs : FileSystem) (name : List ℕ) (v : IsValid fs)
    → max_name_length ≤ strlen name
    → cd name fs ≡ some (false, fs)
unfolding enter
long-missing fs name v long =
    let c = Cell-here fs v in
    let s = Search-in fs name c.place c.entry c.fine in
    let missing = found_is_short fs name s.result v s.sound long in
    cd_run fs name c.entry none (long-IsPlain name long) (deref-Cell fs fs.current_directory c)
      (s.runs ∙ ap some missing)

made :
    (fs : FileSystem) (cur : ℕ) (dir : FileSystemEntry) (name : List ℕ) (found : EntryPtr)
    → found ≡ none
    → leb max_files dir.child_count ≡ false
    → (pool_alloc entry_size fs.next_free).0 ≡ true
    → mkdir_result fs cur dir name found ≡ (true, grown fs cur dir name FileType.directory)
made fs cur dir name found missing room done =
    rw (missing, room, add_entry-grown fs cur dir name FileType.directory done)

-- In a valid file system whose pool has room for an entry, and for a name of 64 characters or
-- more: `cd` returns false, `mkdir` returns true, the state that it leaves is valid again, and there
-- `cd` still returns false. So the same name can be made again and again, and never be entered.
pub long_name_never_found :
    (fs : FileSystem) (name : List ℕ)
    → IsValid fs
    → max_name_length ≤ strlen name
    → (pool_alloc entry_size fs.next_free).0 ≡ true
    → (fs' : FileSystem) × (cd name fs ≡ some (false, fs))
      × (mkdir (some name) fs ≡ some (true, fs'))
      × IsValid fs'
      × (cd name fs' ≡ some (false, fs'))
long_name_never_found fs name v long done =
    let c = Cell-here fs v in
    let s = Search-in fs name c.place c.entry c.fine in
    let missing = found_is_short fs name s.result v s.sound long in
    let room =
      (entries_bounds fs fs.current_directory c.entry v (deref-Cell fs fs.current_directory c)).3 in
    let valid = grown-IsValid fs c name FileType.directory v (ground arith) done in
    (
      grown fs c.place c.entry name FileType.directory,
      long-missing fs name v long,
      mkdir_run fs c name s (long-not_empty name long)
          ∙ ap some (made fs c.place c.entry name s.result missing room done),
      valid,
      long-missing (grown fs c.place c.entry name FileType.directory) name valid long,
    )
