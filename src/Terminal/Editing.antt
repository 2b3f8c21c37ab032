-- ===== src/Terminal/Editing.antt =====
-- What the keys do to the text of the input line of src/libc/terminal.cpp.
use mr_hak_os.Prelude.{
  ℕ, zero, suc, ◌+◌, ◌≤◌, ◌<◌, ◌≡◌, ◌∙◌, ◌⊎◌, refl, List, inl, inr, arith, length, set, get_or,
  length-set, dec_lt, get_or-set_ne, ap, get_or-set_self, sym,
}
use mr_hak_os.Terminal.Line.{close_gap, open_gap}

pub length-close_gap : (n i : ℕ) (buffer : List ℕ) → length (close_gap n i buffer) ≡ length buffer
unfolding close_gap
length-close_gap zero i buffer = refl
length-close_gap (suc n) i buffer =
    length-close_gap n (i + 1) (set buffer i (get_or buffer (i + 1) 0))
    ∙ length-set buffer i (get_or buffer (i + 1) 0)

pub close_gap-below :
    (n i j : ℕ) (buffer : List ℕ) → j < i → get_or (close_gap n i buffer) j 0 ≡ get_or buffer j 0
unfolding close_gap
close_gap-below zero i j buffer h = refl
close_gap-below (suc n) i j buffer h =
    close_gap-below n (i + 1) j (set buffer i (get_or buffer (i + 1) 0)) (omega arith)
    ∙ get_or-set_ne buffer i j (get_or buffer (i + 1) 0) 0 (λ e. omega arith)

pub close_gap-at :
    (n i j : ℕ) (buffer : List ℕ)
    → i ≤ j
    → j < i + n
    → i + n < length buffer
    → get_or (close_gap n i buffer) j 0 ≡ get_or buffer (j + 1) 0
unfolding close_gap
close_gap-at zero i j buffer l h r = absurd (omega arith)
close_gap-at (suc n) i j buffer l h r =
    let w = get_or buffer (i + 1) 0 in
    elim (dec_lt i j) [
      | yes later ↦
          close_gap-at n (i + 1) j (set buffer i w) (omega arith) (omega arith)
            (omega (arith, length-set buffer i w))
          ∙ get_or-set_ne buffer i (j + 1) w 0 (λ e. omega arith)
      | no here ↦
          let e : j ≡ i = omega arith in
          ap (λ k. get_or (close_gap n (i + 1) (set buffer i w)) k 0) e
          ∙ close_gap-below n (i + 1) i (set buffer i w) (omega arith)
          ∙ get_or-set_self buffer i w 0 (omega arith)
          ∙ ap (λ k. get_or buffer (k + 1) 0) (sym e)
    ]

pub length-open_gap : (n c : ℕ) (buffer : List ℕ) → length (open_gap n c buffer) ≡ length buffer
unfolding open_gap
length-open_gap zero c buffer = refl
length-open_gap (suc n) c buffer =
    length-open_gap n c (set buffer (c + suc n) (get_or buffer (c + n) 0))
    ∙ length-set buffer (c + suc n) (get_or buffer (c + n) 0)

-- The loop leaves what is before the caret, and what is behind the line.
pub open_gap-outside :
    (n c j : ℕ) (buffer : List ℕ)
    → (j ≤ c) ⊎ (c + n < j)
    → get_or (open_gap n c buffer) j 0 ≡ get_or buffer j 0
unfolding open_gap
open_gap-outside zero c j buffer h = refl
open_gap-outside (suc n) c j buffer (inl h) =
    open_gap-outside n c j (set buffer (c + suc n) (get_or buffer (c + n) 0)) (inl h)
    ∙ get_or-set_ne buffer (c + suc n) j (get_or buffer (c + n) 0) 0 (λ e. omega arith)
open_gap-outside (suc n) c j buffer (inr h) =
    open_gap-outside n c j (set buffer (c + suc n) (get_or buffer (c + n) 0)) (inr (omega arith))
    ∙ get_or-set_ne buffer (c + suc n) j (get_or buffer (c + n) 0) 0 (λ e. omega arith)

pub open_gap-at :
    (n c k : ℕ) (buffer : List ℕ)
    → k < n
    → c + n < length buffer
    → get_or (open_gap n c buffer) (c + suc k) 0 ≡ get_or buffer (c + k) 0
unfolding open_gap
open_gap-at zero c k buffer h r = absurd (omega arith)
open_gap-at (suc n) c k buffer h r =
    let w = get_or buffer (c + n) 0 in
    elim (dec_lt k n) [
      | yes below ↦
          open_gap-at n c k (set buffer (c + suc n) w) below
            (omega (arith, length-set buffer (c + suc n) w))
          ∙ get_or-set_ne buffer (c + suc n) (c + k) w 0 (λ e. omega arith)
      | no last ↦
          let e : k ≡ n = omega arith in
          ap (λ m. get_or (open_gap n c (set buffer (c + suc n) w)) (c + suc m) 0) e
          ∙ open_gap-outside n c (c + suc n) (set buffer (c + suc n) w) (inr (omega arith))
          ∙ get_or-set_self buffer (c + suc n) w 0 (omega arith)
          ∙ ap (λ m. get_or buffer (c + m) 0) (sym e)
    ]
