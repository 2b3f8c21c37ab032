-- ===== src/CString/Copy.antt =====
-- memset and memcpy against the array that they should leave.
use mr_hak_os.Prelude.{
  refl, ℕ, zero, suc, ◌+◌, ◌≤◌, ◌<◌, ◌%◌, ◌≡◌, refl, List, set, get_or, length, arith, ltb, leb,
  length-set, ◌&&◌, if◌then◌else◌, ◌==◌, get_or-set_self, get_or-set_ne, ◌∙◌,
}
use mr_hak_os.CString.{memset, memset_loop, memcpy, memcpy_loop}

-- `set` then read, at any two places.
pub get_or-set :
    (p : List ℕ) (i j v : ℕ)
    → i < length p
    → get_or (set p i v) j 0 ≡ (if i == j then v else get_or p j 0)
get_or-set p i j v h = ground (arith, get_or-set_self p i v 0, get_or-set_ne p i j v 0)

memset_loop_lem :
    (n i v : ℕ) (p : List ℕ) (j : ℕ)
    → i + n ≤ length p
    → get_or (memset_loop n i v p) j 0 ≡ (if leb i j && ltb j (i + n) then v else get_or p j 0)
unfolding memset_loop
memset_loop_lem zero i v p j h = ground arith
memset_loop_lem (suc n) i v p j h =
    memset_loop_lem n (i + 1) v (set p i v) j (omega (arith, length-set p i v))
    ∙ ground (arith, get_or-set p i j v)

-- `memset` writes the byte `c` into the first `n` places of a buffer that has them, and changes no other place.
pub memset_lem :
    (s : List ℕ) (c n j : ℕ)
    → n ≤ length s
    → get_or (memset s c n) j 0 ≡ (if ltb j n then c % 256 else get_or s j 0)
unfolding memset
memset_lem s c n j h = memset_loop_lem n 0 (c % 256) s j (omega arith) ∙ ground arith

memcpy_loop_lem :
    (n i : ℕ) (d s : List ℕ) (j : ℕ)
    → i + n ≤ length d
    → get_or (memcpy_loop n i d s) j 0
      ≡ (if leb i j && ltb j (i + n) then get_or s j 0 else get_or d j 0)
unfolding memcpy_loop
memcpy_loop_lem zero i d s j h = ground arith
memcpy_loop_lem (suc n) i d s j h =
    memcpy_loop_lem n (i + 1) (set d i (get_or s i 0)) s j
      (omega (arith, length-set d i (get_or s i 0)))
    ∙ ground (arith, get_or-set d i j (get_or s i 0))

-- `memcpy` copies the first `n` bytes into a destination that has room, and changes no other place.
pub memcpy_lem :
    (d s : List ℕ) (n j : ℕ)
    → n ≤ length d
    → get_or (memcpy d s n) j 0 ≡ (if ltb j n then get_or s j 0 else get_or d j 0)
unfolding memcpy
memcpy_lem d s n j h = memcpy_loop_lem n 0 d s j (omega arith) ∙ ground arith

length-memcpy_loop : (n i : ℕ) (d s : List ℕ) → length (memcpy_loop n i d s) ≡ length d
unfolding memcpy_loop
length-memcpy_loop zero i d s = refl
length-memcpy_loop (suc n) i d s =
    length-memcpy_loop n (i + 1) (set d i (get_or s i 0)) s ∙ length-set d i (get_or s i 0)

pub length-memcpy : (d s : List ℕ) (n : ℕ) → length (memcpy d s n) ≡ length d
unfolding memcpy
length-memcpy d s n = length-memcpy_loop n 0 d s
