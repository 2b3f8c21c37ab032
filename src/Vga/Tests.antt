-- ===== src/Vga/Tests.antt =====
-- Concrete consoles, and the theorems at them.
use mr_hak_os.Vga.Console.{IsScreen, calls, calls-IsScreen, puts, puts_at, scrolls}
use mr_hak_os.Vga.Blit.{IsPanel, Below, fb_fill_rect-Below}
use mr_hak_os.Prelude.Int.{◌+ℤ◌, pos, negsuc}
use mr_hak_os.Prelude.{
  List, ◌≡◌, some, none, ◌^◌, ◌-◌, ℕ, ◌*◌, ◌≤◌, refl, [], ◌∷◌, true, false, inr, arith,
  length-replicate, replicate,
}
use mr_hak_os.Vga.Drawing.{IsFilled, fb_draw_char-Below}
use mr_hak_os.Vga.Panel.{Every, Inside, fb_draw_char-Inside}
use mr_hak_os.Vga.{Vga, new_vga}
use mr_hak_os.Vga.Glyph.{
  Rect, Store, clip, clip_start, clip_end, with_int, edge, fb_draw_char, fb_fill_rect,
}

-- A console in text mode, in the last row.
abbrev screen : Vga
screen = record {
  vga_buffer = replicate 2000 0;
  fb_cells = replicate 2000 0;
  x = 0;
  y = 24;
  color = 0x0F;
  cursor_enabled = true;
  use_fb = false;
  fb_pitch = 4096;
  fb_width = 1024;
  fb_height = 768;
  fb_bpp = 32;
  log = [];
}

abbrev last_column : Vga
last_column = record screen { x = 80 }

calls-IsScreen_example : IsScreen (
    calls
      (puts b'a' ∷ puts_at b'b' (negsuc 3) (pos 99) ∷ scrolls ∷ [])
      (new_vga (replicate 2000 7) (replicate 2000 0)))
calls-IsScreen_example =
    calls-IsScreen (puts b'a' ∷ puts_at b'b' (negsuc 3) (pos 99) ∷ scrolls ∷ []) (replicate 2000 7)
      (replicate 2000 0) (length-replicate {A = ℕ} 2000 7) (length-replicate {A = ℕ} 2000 0)

fb_draw_char-Inside_example :
    (rects : List Rect) × (fb_draw_char screen b'A' 79 24 ≡ some rects)
    × Every (Inside (edge 79 1024 80) (edge 80 1024 80) (edge 24 768 25) (edge 25 768 25)) rects
    × (edge 80 1024 80 ≤ 1024)
    × (edge 25 768 25 ≤ 768)
fb_draw_char-Inside_example =
    fb_draw_char-Inside screen b'A' 79 24 (omega arith) (omega arith) (omega arith) (omega arith)

screen-IsPanel : IsPanel screen
screen-IsPanel = record {
  depth = inr refl;
  pitch_fits = omega arith;
  width_int = omega arith;
  height_int = omega arith;
  size_fits = omega arith;
}

fb_draw_char-Below_example :
    (rects : List Rect) × (fb_draw_char screen b'A' 79 24 ≡ some rects)
    × Every (IsFilled screen) rects
fb_draw_char-Below_example =
    fb_draw_char-Below screen b'A' 79 24 screen-IsPanel (omega arith) (omega arith) (omega arith)
      (omega arith)

fb_fill_rect-Below_example :
    (stores : List Store) × (fb_fill_rect screen (negsuc 3) (pos 760) (pos 20) (pos 20) 0xFFFFFF
      ≡ some stores)
    × Every (Below (768 * 4096)) stores
fb_fill_rect-Below_example =
    fb_fill_rect-Below screen (negsuc 3) (pos 760) (pos 20) (pos 20) 0xFFFFFF screen-IsPanel
      (omega arith, omega arith) (omega arith, omega arith)
      (unfold ◌+ℤ◌ in (omega arith, omega arith)) (unfold ◌+ℤ◌ in (omega arith, omega arith))

-- px = INT_MAX, w = 1: the sum that the clipping tests overflows.
overflowing_rectangle : fb_fill_rect screen (pos (2 ^ 31 - 1)) (pos 0) (pos 1) (pos 1) 0 ≡ none
unfolding fb_fill_rect clip clip_start clip_end with_int ◌+ℤ◌
overflowing_rectangle = refl
