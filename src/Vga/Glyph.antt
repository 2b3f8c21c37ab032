-- ===== src/Vga/Glyph.antt =====
-- fb_fill_rect and fb_draw_char of src/libc/vga.cpp: the pixels that a command of the log writes, and the bytes
-- behind them. Coordinates are `int`; where the arithmetic on them overflows one, there is no result.
use mr_hak_os.Vga.{Vga}
use mr_hak_os.Prelude.Int.{ℤ, pos, negsuc, ◌+ℤ◌, ◌-ℤ◌, ltb_ℤ}
use mr_hak_os.Vga.Font.{fb_font, vga_palette}
use mr_hak_os.Prelude.{
  ltb, Option, none, some, ℕ, zero, suc, ◌+◌, ◌-◌, ◌*◌, List, [], ◌∷◌, ◌++◌, ◌==◌, if◌then◌else◌,
  ◌%◌, leb, get_or, ◌||◌, ◌/◌, ◌^◌, ◌&&◌,
}

-- What an `int` holds of an unsigned number of 32 bits.
abbrev pub as_int : ℕ → ℤ
as_int n = if ltb n (2 ^ 31) then pos n else negsuc (2 ^ 32 - n - 1)

-- An `int` result, and what follows; `none` is a signed overflow.
unfoldable pub with_int {ℓ} : {A : Type ℓ} → ℤ → (ℤ → Option A) → Option A
with_int (pos n) f = if ltb n (2 ^ 31) then f (pos n) else none
with_int (negsuc n) f = if ltb n (2 ^ 31) then f (negsuc n) else none

-- One axis of a rectangle: if (px < 0) { w += px; px = 0; }
unfoldable pub clip_start : ℤ → ℤ → Option (ℕ × ℤ)
unfolding with_int
clip_start (pos p) w = some (p, w)
clip_start (negsuc n) w = with_int (w +ℤ negsuc n) (λ shorter. some (0, shorter))

-- if (px + w > limit) w = limit - px;
unfoldable pub clip_end : ℤ → ℕ × ℤ → Option (ℕ × ℤ)
unfolding with_int
clip_end limit (p, w) = with_int (pos p +ℤ w) (λ end.
    if ltb_ℤ limit end
    then with_int (limit -ℤ pos p) (λ shorter. some (p, shorter))
    else some (p, w))

-- The pixels that are left, none of a negative length.
abbrev pub rounds : ℤ → ℕ
rounds (pos n) = n
rounds (negsuc n) = 0

unfoldable pub clip : ℕ → ℤ → ℤ → Option (ℕ × ℕ)
unfolding clip_start clip_end
clip limit p w = elim (clip_start p w) [
  | none ↦ none
  | some start ↦ elim (clip_end (as_int limit) start) [
    | none ↦ none
    | some (from, left) ↦ some (from, rounds left)
  ]
]

-- A store of a byte or of four bytes at an offset from fb_base.
pub data Store : Type 0 where
  byte_at : ℕ → ℕ → Store
  word_at : ℕ → ℕ → Store

-- n pixels of one row, from the offset `at` on.
unfoldable pub fill_row : ℕ → ℕ → ℕ → ℕ → List Store
fill_row bpp zero at rgb = []
fill_row bpp (suc n) at rgb =
    if bpp == 32
    then word_at at rgb ∷ fill_row bpp n (at + 4) rgb
    else byte_at at (rgb % 256)
      ∷ byte_at (at + 1) (rgb / 256 % 256)
      ∷ byte_at (at + 2) (rgb / 65536 % 256)
      ∷ fill_row bpp n (at + bpp / 8) rgb

abbrev pub bytes_per_pixel : ℕ → ℕ
bytes_per_pixel bpp = if bpp == 32 then 4 else bpp / 8

-- n rows, from row `y` on, each `w` pixels from column `x` on.
unfoldable pub fill_rows : Vga → ℕ → ℕ → ℕ → ℕ → ℕ → List Store
fill_rows v zero y x w rgb = []
fill_rows v (suc n) y x w rgb =
    fill_row v.fb_bpp w (y * v.fb_pitch % 2 ^ 32 + x * bytes_per_pixel v.fb_bpp % 2 ^ 32) rgb
    ++ fill_rows v n (y + 1) x w rgb

-- The stores of a rectangle whose two axes are clipped.
abbrev pub fill_clipped : Vga → (ℕ × ℕ) → (ℕ × ℕ) → ℕ → List Store
fill_clipped v columns lines rgb =
    if (columns.1 == 0) || (lines.1 == 0)
    then []
    else fill_rows v lines.1 lines.0 columns.0 columns.1 rgb

unfoldable pub fb_fill_rect : Vga → ℤ → ℤ → ℤ → ℤ → ℕ → Option (List Store)
unfolding clip
fb_fill_rect v px py w h rgb = elim (clip v.fb_width px w) [
  | none ↦ none
  | some columns ↦ elim (clip v.fb_height py h) [
    | none ↦ none
    | some lines ↦ some (fill_clipped v columns lines rgb)
  ]
]

-- Part i of the `parts` into which a length is cut.
abbrev pub edge : ℕ → ℕ → ℕ → ℕ
edge i length parts = i * length / parts

-- py0 and py1 - py0: where tile i of 8 starts, and its length, one pixel at least.
abbrev pub tile : ℕ → ℕ → ℕ → ℕ × ℕ
tile start length i =
    let from = start + edge i length 8 in
    let to = start + edge (i + 1) length 8 in (from, if leb to from then 1 else to - from)

-- Bit 7 - gx of a row of the glyph selects the foreground.
abbrev pub tile_color : ℕ → ℕ → ℕ → ℕ
tile_color color bits gx =
    if bits / 2 ^ (7 - gx) % 2 == 1
    then get_or vga_palette (color % 16) 0
    else get_or vga_palette (color / 16 % 16) 0

-- A rectangle that the glyph loops fill.
pub record Rect : Type 0 where
  pub px : ℕ
  pub py : ℕ
  pub w : ℕ
  pub h : ℕ
  pub rgb : ℕ

-- for (gx = gx; n more rounds; gx++)
unfoldable pub glyph_columns : ℕ → ℕ → (ℕ × ℕ) → (ℕ × ℕ) → ℕ → ℕ → List Rect
glyph_columns zero gx (cell_l, cell_w) row bits color = []
glyph_columns (suc n) gx (cell_l, cell_w) row bits color =
    let t = tile cell_l cell_w gx in
    record { px = t.0; py = row.0; w = t.1; h = row.1; rgb = tile_color color bits gx }
    ∷ glyph_columns n (gx + 1) (cell_l, cell_w) row bits color

-- for (gy = gy; n more rounds; gy++)
unfoldable pub glyph_rows : ℕ → ℕ → (ℕ × ℕ) → (ℕ × ℕ) → List ℕ → ℕ → List Rect
glyph_rows zero gy columns (cell_t, cell_h) glyph color = []
glyph_rows (suc n) gy columns (cell_t, cell_h) glyph color =
    glyph_columns 8 0 columns (tile cell_t cell_h gy) (get_or glyph gy 0) color
    ++ glyph_rows n (gy + 1) columns (cell_t, cell_h) glyph color

abbrev pub glyph_index : ℕ → ℕ
glyph_index c = if leb 0x20 c && leb c 0x7E then c - 0x20 else 0

-- The cell (col, row) of the grid, one axis: where it starts and its length; `none` when a product overflows. A size
-- from 2^31 on is negative as an `int`, and leaves no length.
unfoldable pub cell_span : ℕ → ℕ → ℕ → Option (ℕ × ℕ)
cell_span i size parts =
    if leb (2 ^ 31) size
    then (if leb ((i + 1) * (2 ^ 32 - size)) (2 ^ 31) then some (0, 0) else none)
    else if ltb ((i + 1) * size) (2 ^ 31)
    then some (edge i size parts, edge (i + 1) size parts - edge i size parts)
    else none

-- The glyph in a cell of which the axes are known.
abbrev pub draw_in : Vga → ℕ → (ℕ × ℕ) → (ℕ × ℕ) → List Rect
draw_in v c columns lines =
    if (columns.1 == 0) || (lines.1 == 0)
    then []
    else glyph_rows 8 0 columns lines (get_or fb_font (glyph_index c) []) v.color

unfoldable pub fb_draw_char : Vga → ℕ → ℕ → ℕ → Option (List Rect)
unfolding cell_span
fb_draw_char v c col row = elim (cell_span col v.fb_width 80) [
  | none ↦ none
  | some columns ↦ elim (cell_span row v.fb_height 25) [
    | none ↦ none
    | some lines ↦ some (draw_in v c columns lines)
  ]
]
