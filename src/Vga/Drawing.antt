-- ===== src/Vga/Drawing.antt =====
-- fb_draw_char of src/libc/vga.cpp down to its stores.
use mr_hak_os.Vga.{Vga}
use mr_hak_os.Vga.Glyph.{Rect, Store, fb_draw_char, fb_fill_rect}
use mr_hak_os.Vga.Panel.{Every, Inside, fb_draw_char-Inside}
use mr_hak_os.Vga.Blit.{Below, IsPanel, IsInt, fb_fill_rect-Below}
use mr_hak_os.Prelude.Int.{pos, ◌+ℤ◌}
use mr_hak_os.Prelude.{ℕ, ◌+◌, ◌*◌, ◌≤◌, ◌<◌, ◌≡◌, List, [], ◌∷◌, some, arith, ◌^◌}

-- The call that fills a rectangle overflows nowhere, and stores inside the framebuffer alone.
abbrev pub IsFilled : Vga → Rect → Type 0
IsFilled v q =
    (stores : List Store) × (fb_fill_rect v (pos q.px) (pos q.py) (pos q.w) (pos q.h) q.rgb
      ≡ some stores)
    × Every (Below (v.fb_height * v.fb_pitch)) stores

sum-IsInt : (a b : ℕ) → a + b < 2 ^ 31 → IsInt (pos a +ℤ pos b)
unfolding ◌+ℤ◌
sum-IsInt a b h = ground arith

Inside-IsFilled :
    (v : Vga) (l r t b : ℕ) (q : Rect)
    → IsPanel v
    → r ≤ v.fb_width
    → b ≤ v.fb_height
    → Inside l r t b q
    → IsFilled v q
Inside-IsFilled v l r t b q p wide high (left, right, top, bottom) =
    fb_fill_rect-Below v (pos q.px) (pos q.py) (pos q.w) (pos q.h) q.rgb p
      (omega (arith, p.width_int), omega arith) (omega (arith, p.height_int), omega arith)
      (sum-IsInt q.px q.w (omega (arith, p.width_int)))
      (sum-IsInt q.py q.h (omega (arith, p.height_int)))

all-IsFilled :
    (v : Vga) (l r t b : ℕ) (rects : List Rect)
    → IsPanel v
    → r ≤ v.fb_width
    → b ≤ v.fb_height
    → Every (Inside l r t b) rects
    → Every (IsFilled v) rects
all-IsFilled v l r t b [] p wide high h = tt
all-IsFilled v l r t b (q ∷ rects) p wide high h =
    (Inside-IsFilled v l r t b q p wide high h.0, all-IsFilled v l r t b rects p wide high h.1)

-- On a framebuffer of 24 or 32 bits a pixel whose rows fit in the pitch, of fewer than 26843546 columns and 85899346
-- rows, the drawing of a character in the 80 x 25 grid overflows nowhere, and every store of each fb_fill_rect that it
-- calls ends inside the `fb_height * fb_pitch` bytes of the framebuffer.
pub fb_draw_char-Below :
    (v : Vga) (c col row : ℕ)
    → IsPanel v
    → col < 80
    → row < 25
    → v.fb_width * 80 < 2 ^ 31
    → v.fb_height * 25 < 2 ^ 31
    → (rects : List Rect) × (fb_draw_char v c col row ≡ some rects) × Every (IsFilled v) rects
fb_draw_char-Below v c col row p hc hr wide high =
    let (rects, drawn, inside, right, bottom) = fb_draw_char-Inside v c col row hc hr wide high in
    (rects, drawn, all-IsFilled v _ _ _ _ rects p right bottom inside)
