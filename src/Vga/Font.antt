-- ===== src/Vga/Font.antt =====
-- `fb_font` and `vga_palette` of src/libc/vga.cpp: 95 glyphs of eight rows, and 16 colours.
use mr_hak_os.Prelude.{ℕ, List, [], ◌∷◌}

-- A glyph, top row first; the high bit is the leftmost pixel.
abbrev glyph : ℕ → ℕ → ℕ → ℕ → ℕ → ℕ → ℕ → ℕ → List ℕ
glyph a b c d e f g h = a ∷ b ∷ c ∷ d ∷ e ∷ f ∷ g ∷ h ∷ []

unfoldable pub fb_font : List (List ℕ)
fb_font =
    glyph 0x00 0x00 0x00 0x00 0x00 0x00 0x00 0x00
    ∷ glyph 0x18 0x18 0x18 0x18 0x18 0x00 0x18 0x00
    ∷ glyph 0x66 0x66 0x00 0x00 0x00 0x00 0x00 0x00
    ∷ glyph 0x66 0xFF 0x66 0x66 0xFF 0x66 0x00 0x00
    ∷ glyph 0x18 0x7E 0xC0 0x7C 0x06 0xFC 0x18 0x00
    ∷ glyph 0xC6 0xCC 0x18 0x30 0x66 0xC6 0x00 0x00
    ∷ glyph 0x38 0x6C 0x38 0x76 0xCC 0x76 0x00 0x00
    ∷ glyph 0x18 0x18 0x30 0x00 0x00 0x00 0x00 0x00
    ∷ glyph 0x0C 0x18 0x30 0x30 0x30 0x18 0x0C 0x00
    ∷ glyph 0x30 0x18 0x0C 0x0C 0x0C 0x18 0x30 0x00
    ∷ glyph 0x00 0x66 0x3C 0xFF 0x3C 0x66 0x00 0x00
    ∷ glyph 0x00 0x18 0x18 0x7E 0x18 0x18 0x00 0x00
    ∷ glyph 0x00 0x00 0x00 0x00 0x18 0x18 0x30 0x00
    ∷ glyph 0x00 0x00 0x00 0x7E 0x00 0x00 0x00 0x00
    ∷ glyph 0x00 0x00 0x00 0x00 0x00 0x18 0x18 0x00
    ∷ glyph 0x06 0x0C 0x18 0x30 0x60 0xC0 0x00 0x00
    ∷ glyph 0x7C 0xC6 0xCE 0xD6 0xE6 0xC6 0x7C 0x00
    ∷ glyph 0x18 0x38 0x18 0x18 0x18 0x18 0x7E 0x00
    ∷ glyph 0x7C 0xC6 0x06 0x3C 0x60 0xC6 0xFE 0x00
    ∷ glyph 0xFC 0x06 0x3C 0x06 0x06 0xC6 0x7C 0x00
    ∷ glyph 0x0C 0x1C 0x3C 0x6C 0xFE 0x0C 0x0C 0x00
    ∷ glyph 0xFE 0xC0 0xFC 0x06 0x06 0xC6 0x7C 0x00
    ∷ glyph 0x3C 0x60 0xC0 0xFC 0xC6 0xC6 0x7C 0x00
    ∷ glyph 0xFE 0xC6 0x0C 0x18 0x30 0x30 0x30 0x00
    ∷ glyph 0x7C 0xC6 0xC6 0x7C 0xC6 0xC6 0x7C 0x00
    ∷ glyph 0x7C 0xC6 0xC6 0x7E 0x06 0x0C 0x78 0x00
    ∷ glyph 0x00 0x18 0x18 0x00 0x18 0x18 0x00 0x00
    ∷ glyph 0x00 0x18 0x18 0x00 0x18 0x18 0x30 0x00
    ∷ glyph 0x0C 0x18 0x30 0x60 0x30 0x18 0x0C 0x00
    ∷ glyph 0x00 0x00 0x7E 0x00 0x7E 0x00 0x00 0x00
    ∷ glyph 0x60 0x30 0x18 0x0C 0x18 0x30 0x60 0x00
    ∷ glyph 0x7C 0xC6 0x0C 0x18 0x18 0x00 0x18 0x00
    ∷ glyph 0x7C 0xC6 0xDE 0xDE 0xDC 0xC0 0x7C 0x00
    ∷ glyph 0x10 0x38 0x6C 0xC6 0xFE 0xC6 0xC6 0x00
    ∷ glyph 0xFC 0xC6 0xC6 0xFC 0xC6 0xC6 0xFC 0x00
    ∷ glyph 0x7C 0xC6 0xC0 0xC0 0xC0 0xC6 0x7C 0x00
    ∷ glyph 0xF8 0xCC 0xC6 0xC6 0xC6 0xCC 0xF8 0x00
    ∷ glyph 0xFE 0xC0 0xC0 0xFC 0xC0 0xC0 0xFE 0x00
    ∷ glyph 0xFE 0xC0 0xC0 0xFC 0xC0 0xC0 0xC0 0x00
    ∷ glyph 0x7C 0xC6 0xC0 0xDE 0xC6 0xC6 0x7E 0x00
    ∷ glyph 0xC6 0xC6 0xC6 0xFE 0xC6 0xC6 0xC6 0x00
    ∷ glyph 0x7E 0x18 0x18 0x18 0x18 0x18 0x7E 0x00
    ∷ glyph 0x1E 0x06 0x06 0x06 0xC6 0xC6 0x7C 0x00
    ∷ glyph 0xC6 0xCC 0xD8 0xF0 0xD8 0xCC 0xC6 0x00
    ∷ glyph 0xC0 0xC0 0xC0 0xC0 0xC0 0xC0 0xFE 0x00
    ∷ glyph 0xC6 0xEE 0xFE 0xFE 0xD6 0xC6 0xC6 0x00
    ∷ glyph 0xC6 0xE6 0xF6 0xDE 0xCE 0xC6 0xC6 0x00
    ∷ glyph 0x7C 0xC6 0xC6 0xC6 0xC6 0xC6 0x7C 0x00
    ∷ glyph 0xFC 0xC6 0xC6 0xFC 0xC0 0xC0 0xC0 0x00
    ∷ glyph 0x7C 0xC6 0xC6 0xC6 0xD6 0xCE 0x7C 0x06
    ∷ glyph 0xFC 0xC6 0xC6 0xFC 0xD8 0xCC 0xC6 0x00
    ∷ glyph 0x7C 0xC6 0xC0 0x7C 0x06 0xC6 0x7C 0x00
    ∷ glyph 0x7E 0x18 0x18 0x18 0x18 0x18 0x18 0x00
    ∷ glyph 0xC6 0xC6 0xC6 0xC6 0xC6 0xC6 0x7C 0x00
    ∷ glyph 0xC6 0xC6 0xC6 0xC6 0xC6 0x6C 0x38 0x00
    ∷ glyph 0xC6 0xC6 0xC6 0xD6 0xFE 0xEE 0xC6 0x00
    ∷ glyph 0xC6 0xC6 0x6C 0x38 0x6C 0xC6 0xC6 0x00
    ∷ glyph 0xC6 0xC6 0x6C 0x38 0x18 0x18 0x18 0x00
    ∷ glyph 0xFE 0x06 0x0C 0x18 0x30 0x60 0xFE 0x00
    ∷ glyph 0x3C 0x30 0x30 0x30 0x30 0x30 0x3C 0x00
    ∷ glyph 0xC0 0x60 0x30 0x18 0x0C 0x06 0x00 0x00
    ∷ glyph 0x3C 0x0C 0x0C 0x0C 0x0C 0x0C 0x3C 0x00
    ∷ glyph 0x10 0x38 0x6C 0xC6 0x00 0x00 0x00 0x00
    ∷ glyph 0x00 0x00 0x00 0x00 0x00 0x00 0x00 0xFF
    ∷ glyph 0x18 0x18 0x0C 0x00 0x00 0x00 0x00 0x00
    ∷ glyph 0x00 0x00 0x7C 0x06 0x7E 0xC6 0x7E 0x00
    ∷ glyph 0xC0 0xC0 0xFC 0xC6 0xC6 0xC6 0xFC 0x00
    ∷ glyph 0x00 0x00 0x7C 0xC6 0xC0 0xC0 0x7C 0x00
    ∷ glyph 0x06 0x06 0x7E 0xC6 0xC6 0xC6 0x7E 0x00
    ∷ glyph 0x00 0x00 0x7C 0xC6 0xFE 0xC0 0x7C 0x00
    ∷ glyph 0x1C 0x30 0x30 0x7C 0x30 0x30 0x30 0x00
    ∷ glyph 0x00 0x00 0x7E 0xC6 0xC6 0x7E 0x06 0x7C
    ∷ glyph 0xC0 0xC0 0xFC 0xC6 0xC6 0xC6 0xC6 0x00
    ∷ glyph 0x18 0x00 0x18 0x18 0x18 0x18 0x0C 0x00
    ∷ glyph 0x06 0x00 0x0E 0x06 0x06 0x06 0xC6 0x7C
    ∷ glyph 0xC0 0xC0 0xC6 0xCC 0xF8 0xCC 0xC6 0x00
    ∷ glyph 0x38 0x18 0x18 0x18 0x18 0x18 0x0E 0x00
    ∷ glyph 0x00 0x00 0xCC 0xFE 0xFE 0xD6 0xC6 0x00
    ∷ glyph 0x00 0x00 0xDC 0xC6 0xC6 0xC6 0xC6 0x00
    ∷ glyph 0x00 0x00 0x7C 0xC6 0xC6 0xC6 0x7C 0x00
    ∷ glyph 0x00 0x00 0xFC 0xC6 0xC6 0xFC 0xC0 0xC0
    ∷ glyph 0x00 0x00 0x7E 0xC6 0xC6 0x7E 0x06 0x06
    ∷ glyph 0x00 0x00 0xDC 0xE6 0xC0 0xC0 0xC0 0x00
    ∷ glyph 0x00 0x00 0x7E 0xC0 0x7C 0x06 0xFC 0x00
    ∷ glyph 0x30 0x30 0xFC 0x30 0x30 0x30 0x1E 0x00
    ∷ glyph 0x00 0x00 0xC6 0xC6 0xC6 0xC6 0x7E 0x00
    ∷ glyph 0x00 0x00 0xC6 0xC6 0xC6 0x6C 0x38 0x00
    ∷ glyph 0x00 0x00 0xC6 0xD6 0xFE 0xFE 0x6C 0x00
    ∷ glyph 0x00 0x00 0xC6 0x6C 0x38 0x6C 0xC6 0x00
    ∷ glyph 0x00 0x00 0xC6 0xC6 0x7E 0x06 0x7C 0x00
    ∷ glyph 0x00 0x00 0xFE 0x0C 0x18 0x30 0xFE 0x00
    ∷ glyph 0x0E 0x18 0x18 0x70 0x18 0x18 0x0E 0x00
    ∷ glyph 0x18 0x18 0x18 0x18 0x18 0x18 0x18 0x00
    ∷ glyph 0x70 0x18 0x18 0x0E 0x18 0x18 0x70 0x00
    ∷ glyph 0x76 0xDC 0x00 0x00 0x00 0x00 0x00 0x00
    ∷ []

unfoldable pub vga_palette : List ℕ
vga_palette =
    0x000000 ∷ 0x0000AA ∷ 0x00AA00 ∷ 0x00AAAA ∷ 0xAA0000 ∷ 0xAA00AA ∷ 0xAA5500 ∷ 0xAAAAAA ∷ 0x555555
    ∷ 0x5555FF ∷ 0x55FF55 ∷ 0x55FFFF ∷ 0xFF5555 ∷ 0xFF55FF ∷ 0xFFFF55 ∷ 0xFFFFFF ∷ []
