-- ===== src/CString.antt =====
-- src/libc/string.cpp: strlen, strcmp, memset and memcpy.
-- A `const char*` is the list of the bytes from the pointer on. A read past the end of the list
-- gives 0: the terminator of a text need not be written out. Bytes are numbers below 256.
pub mod Text
pub mod Copy
use mr_hak_os.Prelude.{
  ℕ, zero, suc, ◌+◌, ◌-◌, ◌%◌, List, [], ◌∷◌, Bool, ◌==◌, ltb, if◌then◌else◌, set, get_or, ◌*◌, ◌≤◌,
  ◌<◌, ◌≡◌, ◌≢◌, ◌∙◌, ◌⊎◌, refl, ◌++◌, true, false, Option, none, some, inl, inr, arith,
}

-- while (*s) ++s; return s - str;
unfoldable pub strlen : List ℕ → ℕ
strlen [] = 0
strlen (c ∷ s) = if c == 0 then 0 else strlen s + 1

-- `int`, the difference of two unsigned chars: the sign and the size.
pub data Diff : Type 0 where
  equal : Diff
  below above : ℕ → Diff

-- (int)ua - (int)ub
abbrev pub diff : ℕ → ℕ → Diff
diff ua ub =
    if ua == ub
    then Diff.equal
    else if ltb ua ub
    then Diff.below (ub - ua)
    else Diff.above (ua - ub)

-- while (*a && (*a == *b)) { ++a; ++b; } return *a - *b;
unfoldable pub strcmp : List ℕ → List ℕ → Diff
strcmp [] [] = diff 0 0
strcmp [] (d ∷ b) = diff 0 d
strcmp (c ∷ a) [] = diff c 0
strcmp (c ∷ a) (d ∷ b) =
    let rest = strcmp a b in if c == 0 then diff c d else if c == d then rest else diff c d

-- strcmp(a, b) == 0
abbrev pub is_equal : Diff → Bool
is_equal Diff.equal = Bool.true
is_equal (Diff.below n) = Bool.false
is_equal (Diff.above n) = Bool.false

-- for (i = i; n more rounds; ++i) p[i] = v;
memset_loop : ℕ → ℕ → ℕ → List ℕ → List ℕ
memset_loop zero i v p = p
memset_loop (suc n) i v p = memset_loop n (i + 1) v (set p i v)

pub memset : List ℕ → ℕ → ℕ → List ℕ
unfolding memset_loop
memset s c n = memset_loop n 0 (c % 256) s

-- for (i = i; n more rounds; ++i) d[i] = s[i];
memcpy_loop : ℕ → ℕ → List ℕ → List ℕ → List ℕ
memcpy_loop zero i d s = d
memcpy_loop (suc n) i d s = memcpy_loop n (i + 1) (set d i (get_or s i 0)) s

unfoldable pub memcpy : List ℕ → List ℕ → ℕ → List ℕ
unfolding memcpy_loop
memcpy dest src n = memcpy_loop n 0 dest src
