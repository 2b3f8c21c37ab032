-- ===== src/FileSystem/Names.antt =====
-- What the fixed name arrays hold after they have been written.
use mr_hak_os.Prelude.{
  ℕ, ◌≤◌, ◌<◌, ◌≡◌, ◌∙◌, List, arith, length, get_or, length-set, if◌then◌else◌, ltb, ◌==◌,
}
use mr_hak_os.CString.{strlen, memcpy}
use mr_hak_os.CString.Text.{text, strlen-le_of_nul, text-eq_of_get_or, get_or-strlen}
use mr_hak_os.CString.Copy.{length-memcpy, memcpy_lem, get_or-set}
use mr_hak_os.FileSystem.Entry.{copy_text}

pub length-copy_text : (d s : List ℕ) (n : ℕ) → length (copy_text d s n) ≡ length d
unfolding copy_text
length-copy_text d s n = length-set (memcpy d s n) n 0 ∙ length-memcpy d s n

-- What stands at each place of the array.
pub get_or-copy_text :
    (d s : List ℕ) (n j : ℕ)
    → n < length d
    → get_or (copy_text d s n) j 0
      ≡ (if n == j then 0 else if ltb j n then get_or s j 0 else get_or d j 0)
unfolding copy_text
get_or-copy_text d s n j h =
    ground (arith, get_or-set (memcpy d s n) n j 0, length-memcpy d s n, memcpy_lem d s n j)

-- The text in the array ends at its terminator.
pub strlen-copy_text : (d s : List ℕ) (n : ℕ) → n < length d → strlen (copy_text d s n) ≤ n
strlen-copy_text d s n h =
    strlen-le_of_nul (copy_text d s n) n (get_or-copy_text d s n n h ∙ ground arith)

-- A text that fits is stored whole.
pub text-copy_text : (d s : List ℕ) → strlen s < length d → text (copy_text d s (strlen s)) ≡ text s
text-copy_text d s h =
    text-eq_of_get_or (copy_text d s (strlen s)) s
      (λ j p. get_or-copy_text d s (strlen s) j h ∙ ground (arith, get_or-strlen s))
