-- ===== src/Vga/Panel.antt =====
-- Where fb_fill_rect and fb_draw_char of src/libc/vga.cpp write.
use mr_hak_os.Vga.Glyph.{
  draw_in, cell_span, edge, Rect, glyph_columns, fb_draw_char, tile, glyph_rows, glyph_index,
}
use mr_hak_os.Prelude.{
  some, true, false, leb, ltb, refl, ◌^◌, ℕ, zero, suc, ◌+◌, ◌-◌, ◌*◌, ◌≤◌, ◌<◌, ◌≡◌, List, [], ◌∷◌,
  ◌++◌, inl, inr, arith, ◌==◌, get_or, Bool-cases, ◌||◌, subst₂,
}
use mr_hak_os.Vga.{Vga}
use mr_hak_os.Vga.Font.{fb_font}

module _ {ℓ} {A : Type ℓ} where
  abbrev pub Every : (A → Type 0) → List A → Type 0
  Every P [] = Unit
  Every P (x ∷ xs) = P x × Every P xs

  pub Every-append :
      (P : A → Type 0) (xs ys : List A) → Every P xs → Every P ys → Every P (xs ++ ys)
  Every-append P [] ys h k = k
  Every-append P (x ∷ xs) ys h k = (h.0, Every-append P xs ys h.1 k)

-- A rectangle inside [l, r) x [t, b).
abbrev pub Inside : ℕ → ℕ → ℕ → ℕ → Rect → Type 0
Inside l r t b q = (l ≤ q.px) × (q.px + q.w ≤ r) × (t ≤ q.py) × (q.py + q.h ≤ b)

pub mul_le : (a b c : ℕ) → a ≤ b → a * c ≤ b * c
mul_le a b zero h = omega arith
mul_le a b (suc c) h = omega (arith, mul_le a b c h)

tile-in :
    (start length i : ℕ)
    → 0 < length
    → i < 8
    → (start ≤ (tile start length i).0)
      × ((tile start length i).0 + (tile start length i).1 ≤ start + length)
tile-in start length i h k =
    let a = mul_le i 7 length (omega arith) in
    let b = mul_le (i + 1) 8 length (omega arith) in ground arith

-- The two edges of a column and of a row.
column-edges :
    (col size : ℕ)
    → col < 80
    → (edge col size 80 ≤ edge (col + 1) size 80) × (edge (col + 1) size 80 ≤ size)
column-edges col size h =
    let a = mul_le (col + 1) 80 size (omega arith) in
    let b = mul_le col (col + 1) size (omega arith) in (omega (arith, b), omega (arith, a))

row-edges :
    (row size : ℕ)
    → row < 25
    → (edge row size 25 ≤ edge (row + 1) size 25) × (edge (row + 1) size 25 ≤ size)
row-edges row size h =
    let a = mul_le (row + 1) 25 size (omega arith) in
    let b = mul_le row (row + 1) size (omega arith) in (omega (arith, b), omega (arith, a))

columns-Inside :
    (n gx l w b : ℕ) (row : ℕ × ℕ) (t bits color : ℕ)
    → 0 < w
    → gx + n ≤ 8
    → t ≤ row.0
    → row.0 + row.1 ≤ b
    → Every (Inside l (l + w) t b) (glyph_columns n gx (l, w) row bits color)
unfolding glyph_columns
columns-Inside zero gx l w b row t bits color h k p q = tt
columns-Inside (suc n) gx l w b row t bits color h k p q =
    let (x, y) = tile-in l w gx h (omega arith) in
    ((x, y, p, q), columns-Inside n (gx + 1) l w b row t bits color h (omega arith) p q)

rows-Inside :
    (n gy l w t h : ℕ) (glyph : List ℕ) (color : ℕ)
    → 0 < w
    → 0 < h
    → gy + n ≤ 8
    → Every (Inside l (l + w) t (t + h)) (glyph_rows n gy (l, w) (t, h) glyph color)
unfolding glyph_rows
rows-Inside zero gy l w t h glyph color p q k = tt
rows-Inside (suc n) gy l w t h glyph color p q k =
    let (x, y) = tile-in t h gy q (omega arith) in
    Every-append (Inside l (l + w) t (t + h))
      (glyph_columns 8 0 (l, w) (tile t h gy) (get_or glyph gy 0) color)
      (glyph_rows n (gy + 1) (l, w) (t, h) glyph color)
      (columns-Inside 8 0 l w (t + h) (tile t h gy) t (get_or glyph gy 0) color p (omega arith) x y)
      (rows-Inside n (gy + 1) l w t h glyph color p q (omega arith))

cell_span-some :
    (i size parts : ℕ)
    → i < parts
    → size * parts < 2 ^ 31
    → 0 < parts
    → cell_span i size parts ≡ some (edge i size parts, edge (i + 1) size parts - edge i size parts)
unfolding cell_span
cell_span-some i size parts h small p =
    let product = mul_le (i + 1) parts size (omega arith) in
    let one = mul_le 1 parts size p in
    let a : leb (2 ^ 31) size ≡ false = ground arith in
    let b : ltb ((i + 1) * size) (2 ^ 31) ≡ true = ground arith in rw (a, b) refl

draw_in-Inside :
    (v : Vga) (c l r t b : ℕ)
    → l ≤ r
    → t ≤ b
    → Every (Inside l r t b) (draw_in v c (l, r - l) (t, b - t))
draw_in-Inside v c l r t b x y =
    let glyph = get_or fb_font (glyph_index c) [] in
    let wide : l + (r - l) ≡ r = omega arith in
    let high : t + (b - t) ≡ b = omega arith in
    elim (Bool-cases ((r - l == 0) || (b - t == 0))) [
      | inl e ↦ rw e tt
      | inr e ↦
          let p : 0 < r - l = ground arith in
          let q : 0 < b - t = ground arith in
          rw e (
            subst₂
              (λ i j. Every (Inside l i t j) (glyph_rows 8 0 (l, r - l) (t, b - t) glyph v.color))
              wide high (rows-Inside 8 0 l (r - l) t (b - t) glyph v.color p q (omega arith)))
    ]

-- On a framebuffer of fewer than 26843546 columns and 85899346 rows, the drawing of a character in the 80 x 25 grid
-- computes without an overflow, and every rectangle that it fills lies inside the cell of the character, from edge to
-- edge, and so inside the framebuffer: neighbours are never painted over.
pub fb_draw_char-Inside :
    (v : Vga) (c col row : ℕ)
    → col < 80
    → row < 25
    → v.fb_width * 80 < 2 ^ 31
    → v.fb_height * 25 < 2 ^ 31
    → (rects : List Rect) × (fb_draw_char v c col row ≡ some rects)
      × Every
          (Inside
            (edge col v.fb_width 80)
            (edge (col + 1) v.fb_width 80)
            (edge row v.fb_height 25)
            (edge (row + 1) v.fb_height 25))
          rects
      × (edge (col + 1) v.fb_width 80 ≤ v.fb_width)
      × (edge (row + 1) v.fb_height 25 ≤ v.fb_height)
unfolding fb_draw_char
fb_draw_char-Inside v c col row hc hr wide high =
    let (x, x') = column-edges col v.fb_width hc in
    let (y, y') = row-edges row v.fb_height hr in
    (
      _,
      rw
          (
            fb_draw_char,
            cell_span-some col v.fb_width 80 hc wide (omega arith),
            cell_span-some row v.fb_height 25 hr high (omega arith),
          )
          refl,
      draw_in-Inside v c _ _ _ _ x y,
      x',
      y',
    )
