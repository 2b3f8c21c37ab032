-- ===== src/Vga.antt =====
-- src/libc/vga.cpp and include/vga.hpp: the text console, in VGA text mode and on a framebuffer.
-- A `char` is a byte; `int` coordinates of the caller are integers. What reaches the hardware is
-- a log of commands, newest first. A store outside a grid makes the list of its cells longer (Cells).
pub mod Font
pub mod Cells
pub mod Glyph
pub mod Panel
pub mod Blit
pub mod Drawing
pub mod Console
pub mod Printing
pub mod Scroll
mod Tests
use mr_hak_os.Prelude.Int.{ℤ, pos, negsuc}
use Cells.{write, fill_cells, shift_rows}
use Font.{vga_palette}
use mr_hak_os.Prelude.{
  ℕ, zero, suc, ◌+◌, ◌-◌, ◌*◌, ◌≤◌, ◌<◌, ◌≡◌, ◌≢◌, ◌∙◌, ◌⊎◌, refl, List, [], ◌∷◌, ◌++◌, Bool, true,
  false, Option, none, some, inl, inr, arith, ◌==◌, if◌then◌else◌, set, leb, get_or, ◌%◌, bit_or,
  ltb, not, ◌&&◌, ◌||◌, ◌/◌,
}

abbrev pub width : ℕ
width = 80

abbrev pub height : ℕ
height = 25

-- fb_draw_char(c, col, row) in a colour; fb_fill_rect(px, py, w, h, rgb); the position that
-- update_cursor sends to the ports; the cursor shape registers.
pub data Command : Type 0 where
  draw_char : ℕ → ℕ → ℕ → ℕ → Command
  fill_rect : ℕ → ℕ → ℕ → ℕ → ℕ → Command
  move_cursor : ℕ → Command
  show_cursor hide_cursor : Command

-- `vga_buffer` is the text memory at 0xB8000, `fb_cells` the mirror of the grid, row by row.
pub record Vga : Type 0 where
  pub vga_buffer : List ℕ
  pub fb_cells : List ℕ
  pub x : ℕ
  pub y : ℕ
  pub color : ℕ
  pub cursor_enabled : Bool
  pub use_fb : Bool
  pub fb_pitch : ℕ
  pub fb_width : ℕ
  pub fb_height : ℕ
  pub fb_bpp : ℕ
  pub log : List Command

abbrev pub emit : Command → Vga → Vga
emit c v = record v { log = c ∷ v.log }

-- (unsigned short)(c | (color << 8)); a `char` from 0x80 on is negative, and its sign fills the high byte.
unfoldable pub cell : ℕ → ℕ → ℕ
cell c color = bit_or (if leb 0x80 c then 0xFF00 + c else c) (color * 256 % 65536)

-- vga_palette[(color >> 4) & 0x0F]
abbrev pub background : ℕ → ℕ
background color = get_or vga_palette (color / 16 % 16) 0

unfoldable pub update_cursor : Vga → Vga
update_cursor v =
    if not v.cursor_enabled || v.use_fb then v else emit (move_cursor ((v.y * 80 + v.x) % 65536)) v

-- if (cursor_enabled) update_cursor();
abbrev pub follow : Vga → Vga
follow v = if v.cursor_enabled then update_cursor v else v

unfoldable pub clear : Vga → Vga
clear v =
    if v.use_fb
    then record v {
      fb_cells = fill_cells 2000 0 (cell b' ' v.color) v.fb_cells;
      x = 0;
      y = 0;
      log = fill_rect 0 0 v.fb_width v.fb_height (background v.color) ∷ v.log;
    }
    else record v { vga_buffer = fill_cells 2000 0 (cell b' ' v.color) v.vga_buffer; x = 0; y = 0 }

-- `fb_render_all` draws cell by cell, in the colour of each cell, and skips blanks.
unfoldable pub render_cells : List ℕ → ℕ → List Command → List Command
render_cells [] i log = log
render_cells (c ∷ cells) i log = render_cells cells (i + 1) (
    if (c % 256 == b' ') || (c % 256 == 0)
    then log
    else draw_char (c % 256) (i % 80) (i / 80) (c / 256 % 256) ∷ log)

unfoldable pub render_all : Vga → Vga
render_all v = record v {
  log =
      render_cells v.fb_cells 0 (fill_rect 0 0 v.fb_width v.fb_height (background v.color) ∷ v.log);
}

-- All rows move up by one, and the last one is blanked.
abbrev pub scrolled : ℕ → List ℕ → List ℕ
scrolled blank cells = fill_cells 80 1920 blank (shift_rows 24 0 cells)

unfoldable pub scroll : Vga → Vga
scroll v =
    if v.use_fb
    then record (render_all (record v { fb_cells = scrolled (cell b' ' v.color) v.fb_cells })) {
      x = 0;
      y = height - 1;
    }
    else record v { vga_buffer = scrolled (cell b' ' v.color) v.vga_buffer; x = 0; y = height - 1 }

-- Store a character in the grid of the current mode, and draw it.
unfoldable pub store : ℕ → ℕ → ℕ → Vga → Vga
unfolding write
store c col row v =
    if v.use_fb
    then emit (draw_char c col row v.color)
        (record v { fb_cells = write v.fb_cells (row * 80 + col) (cell c v.color) })
    else record v { vga_buffer = write v.vga_buffer (row * 80 + col) (cell c v.color) }

-- if (y >= VGA_HEIGHT) scroll();
abbrev pub fit : Vga → Vga
fit v = if leb height v.y then scroll v else v

-- if (x >= VGA_WIDTH) { x = 0; y++; }
abbrev pub wrap : Vga → Vga
wrap v = if leb width v.x then record v { x = 0; y = v.y + 1 } else v

-- The character itself, then x++.
abbrev pub print : ℕ → Vga → Vga
print c v = let s = store c v.x v.y v in record s { x = s.x + 1 }

unfoldable pub put_char : ℕ → Vga → Vga
put_char c v =
    if c == b'\n'
    then follow (fit (record v { x = 0; y = v.y + 1 }))
    else if c == 0
    then v
    else follow (print c (fit (wrap v)))

-- A coordinate of the caller, forced into 0 .. limit - 1.
abbrev pub clamp : ℕ → ℤ → ℕ
clamp limit (negsuc n) = 0
clamp limit (pos n) = if leb limit n then limit - 1 else n

unfoldable pub put_char_at : ℕ → ℤ → ℤ → Vga → Vga
put_char_at c px py v =
    follow (store (if c == 0 then b' ' else c) (clamp width px) (clamp height py) v)

unfoldable pub set_xy : ℤ → ℤ → Vga → Vga
set_xy (negsuc n) new_y v = follow v
set_xy (pos nx) (negsuc n) v = follow v
set_xy (pos nx) (pos ny) v =
    follow (if ltb nx width && ltb ny height then record v { x = nx; y = ny } else v)

unfoldable pub set_color : ℕ → Vga → Vga
set_color new_color v = record v { color = new_color }

unfoldable pub set_cursor_enabled : Bool → Vga → Vga
set_cursor_enabled enabled v =
    let w = record v { cursor_enabled = enabled } in
    if w.use_fb
    then w
    else if enabled
    then update_cursor (emit show_cursor w)
    else emit hide_cursor w

unfoldable pub init_fb : ℕ → ℕ → ℕ → ℕ → Vga → Vga
init_fb pitch w h bpp v = clear (record v {
  fb_pitch = pitch;
  fb_width = w;
  fb_height = h;
  fb_bpp = bpp;
  use_fb = true;
  cursor_enabled = false;
  x = 0;
  y = 0;
})

-- The constructor, at the contents of the two grids before it.
unfoldable pub new_vga : List ℕ → List ℕ → Vga
new_vga vga_buffer fb_cells = clear (record {
  vga_buffer = vga_buffer;
  fb_cells = fb_cells;
  x = 0;
  y = 0;
  color = 0x0F;
  cursor_enabled = true;
  use_fb = false;
  fb_pitch = 0;
  fb_width = 0;
  fb_height = 0;
  fb_bpp = 0;
  log = [];
})

-- The position goes to the ports in both modes; `cursor_enabled` is put back.
unfoldable pub force_update_cursor : Vga → Vga
force_update_cursor v = emit (move_cursor ((v.y * 80 + v.x) % 65536)) v
