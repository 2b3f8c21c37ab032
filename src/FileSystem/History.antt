-- ===== src/FileSystem/History.antt =====
-- Sequences of calls, from the boot on. `cp` has its own theorem in Preserve/Copying: it may fault.
use mr_hak_os.FileSystem.Valid.{IsValid, IsEntry}
use mr_hak_os.FileSystem.{mkdir, cd, create_hak_file, root_name, init, constructed}
use mr_hak_os.FileSystem.Transfer.{mv}
use mr_hak_os.Prelude.{ℕ, List, [], ◌∷◌, Bool, Option, none, some, ◌≤◌, ◌≡◌, refl, arith, length}
use mr_hak_os.FileSystem.State.{FileSystem, ◌>>=◌, deref}
use mr_hak_os.FileSystem.Entry.{init_entry, zeroed, FileType, copy_text}
use mr_hak_os.FileSystem.Preserve.{Safe, mkdir-Safe}
use mr_hak_os.FileSystem.Preserve.Navigate.{cd-Safe}
use mr_hak_os.FileSystem.Preserve.Files.{create_hak_file-Safe}
use mr_hak_os.FileSystem.Preserve.Moves.{mv-Safe}
use mr_hak_os.FileSystem.Pool.{pool_alloc}
use mr_hak_os.FileSystem.Names.{length-copy_text, strlen-copy_text}
use mr_hak_os.CString.{strlen}

-- The calls of a client that passes no null content.
pub data Call : Type 0 where
  makes_dir : Option (List ℕ) → Call
  changes_dir : List ℕ → Call
  writes_file : Option (List ℕ) → List ℕ → Call
  moves : List ℕ → List ℕ → Call

pub call : Call → FileSystem → Option (Bool × FileSystem)
call (makes_dir name) fs = mkdir name fs
call (changes_dir path) fs = cd path fs
call (writes_file name content) fs = create_hak_file name (some content) fs
call (moves source destination) fs = mv source destination fs

unfoldable pub run : List Call → FileSystem → Option FileSystem
unfolding call
run [] fs = some fs
run (c ∷ calls) fs = (call c fs >>= λ (done, fs'). run calls fs')

call-Safe : (c : Call) (fs : FileSystem) → IsValid fs → Safe (call c fs)
unfolding call
call-Safe (makes_dir name) fs v = mkdir-Safe fs name v
call-Safe (changes_dir path) fs v = cd-Safe fs path v
call-Safe (writes_file name content) fs v = create_hak_file-Safe fs name content v
call-Safe (moves source destination) fs v = mv-Safe fs source destination v

abbrev Arrives : Option FileSystem → Type 0
Arrives none = ⊥
Arrives (some fs) = IsValid fs

after_call :
    (calls : List Call) (r : Option (Bool × FileSystem))
    → Safe r
    → ((fs : FileSystem) → IsValid fs → Arrives (run calls fs))
    → Arrives (r >>= λ (done, fs'). run calls fs')
after_call calls none s rest = s
after_call calls (some (done, fs)) s rest = rest fs s

run-Arrives : (calls : List Call) (fs : FileSystem) → IsValid fs → Arrives (run calls fs)
unfolding run
run-Arrives [] fs v = v
run-Arrives (c ∷ calls) fs v =
    after_call calls (call c fs) (call-Safe c fs v) (λ fs' v'. run-Arrives calls fs' v')

arrival : (r : Option FileSystem) → Arrives r → (fs : FileSystem) × (r ≡ some fs) × IsValid fs
arrival none a = elim a [ ]
arrival (some fs) a = (fs, refl, a)

-- The file system that the kernel starts with.
unfoldable pub booted : FileSystem
booted = record {
  root = some 0;
  current_directory = some 0;
  entries = init_entry zeroed root_name FileType.directory none ∷ [];
  next_free = 368;
}

init-booted : init constructed ≡ some booted
unfolding init pool_alloc deref booted
init-booted = refl

pub booted-IsValid : IsValid booted
unfolding booted init_entry copy_text strlen
booted-IsValid = record {
  rooted = refl;
  here = omega arith;
  each = (root-IsEntry, tt);
  tree = refl;
  pool_used = omega arith;
  pool_end = omega arith;
  pool_aligned = refl;
}
  where
    root-IsEntry : IsEntry 1 0 (init_entry zeroed root_name FileType.directory none)
    root-IsEntry = record {
      name_size = length-copy_text zeroed.name root_name 1;
      name_ends = omega (arith, strlen-copy_text zeroed.name root_name 1 (omega arith));
      array_size = refl;
      array_used = omega arith;
      linked = tt;
      older = refl;
      holds = refl;
    }

-- After the boot every sequence of `mkdir`, `cd`, `createHakFile` (with a content) and `mv` calls, whatever their
-- arguments, runs to its end without a fault, and the file system that it leaves is valid and has at most 11 entries, of the 360
-- bytes that one has in the x86_64 build.
pub history-IsValid :
    (calls : List Call)
    → (fs : FileSystem) × ((init constructed >>= run calls) ≡ some fs)
      × IsValid fs
      × (length fs.entries ≤ 11)
history-IsValid calls =
    let (fs, e, v) = arrival (run calls booted) (run-Arrives calls booted booted-IsValid) in
    (fs, rw init-booted e, v, omega (arith, v.pool_used, v.pool_end))
