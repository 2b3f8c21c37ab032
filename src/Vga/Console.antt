-- ===== src/Vga/Console.antt =====
-- What the operations of src/libc/vga.cpp do to the grid and the cursor.
use mr_hak_os.Vga.{
  put_char, set_xy, update_cursor, Vga, scroll, store, clear, put_char_at, fit, render_all, wrap,
  follow, width, height, print, cell, clamp, set_cursor_enabled, set_color, init_fb, new_vga,
  force_update_cursor,
}
use mr_hak_os.Prelude.{
  ℕ, ◌+◌, ◌*◌, ◌≤◌, ◌<◌, ◌≡◌, ◌∙◌, refl, List, [], ◌∷◌, Bool, true, false, inl, inr, arith, ◌==◌,
  if◌then◌else◌, length, Bool-cases, leb, ap, ltb, ◌&&◌,
}
use mr_hak_os.Prelude.Int.{ℤ, pos, negsuc}
use mr_hak_os.Vga.Scroll.{length-write, length-fill_cells, scrolled_lem}

-- The grid of the current mode.
abbrev pub grid : Vga → List ℕ
grid v = if v.use_fb then v.fb_cells else v.vga_buffer

-- Both grids have 80 x 25 cells, and nothing has been stored outside them; the cursor stands in a row, at most one past its last column.
pub record IsScreen (v : Vga) : Type 0 where
  pub buffer_size : length v.vga_buffer ≡ 2000
  pub cells_size : length v.fb_cells ≡ 2000
  pub x_in : v.x ≤ width
  pub y_in : v.y < height

follow-same :
    (v : Vga)
    → ((follow v).vga_buffer ≡ v.vga_buffer)
      × ((follow v).fb_cells ≡ v.fb_cells)
      × ((follow v).x ≡ v.x)
      × ((follow v).y ≡ v.y)
      × ((follow v).use_fb ≡ v.use_fb)
unfolding update_cursor
follow-same v = ground arith

follow-IsScreen : (v : Vga) → IsScreen v → IsScreen (follow v)
follow-IsScreen v s =
    let (b, f, p, q, u) = follow-same v in
    record {
      buffer_size = ap length b ∙ s.buffer_size;
      cells_size = ap length f ∙ s.cells_size;
      x_in = omega (arith, p, s.x_in);
      y_in = omega (arith, q, s.y_in);
    }

clear-IsScreen :
    (v : Vga) → length v.vga_buffer ≡ 2000 → length v.fb_cells ≡ 2000 → IsScreen (clear v)
unfolding clear
clear-IsScreen v b c =
    let m = cell b' ' v.color in
    elim (Bool-cases v.use_fb) [
      | inl u ↦ rw u (record {
        buffer_size = b;
        cells_size = length-fill_cells 2000 0 m v.fb_cells (omega arith) ∙ c;
        x_in = omega arith;
        y_in = omega arith;
      })
      | inr u ↦ rw u (record {
        buffer_size = length-fill_cells 2000 0 m v.vga_buffer (omega arith) ∙ b;
        cells_size = c;
        x_in = omega arith;
        y_in = omega arith;
      })
    ]

scroll-IsScreen :
    (v : Vga) → length v.vga_buffer ≡ 2000 → length v.fb_cells ≡ 2000 → IsScreen (scroll v)
unfolding scroll render_all
scroll-IsScreen v b c =
    let m = cell b' ' v.color in
    elim (Bool-cases v.use_fb) [
      | inl u ↦ rw u (record {
        buffer_size = b;
        cells_size = (scrolled_lem m v.fb_cells 0 c).0;
        x_in = omega arith;
        y_in = omega arith;
      })
      | inr u ↦ rw u (record {
        buffer_size = (scrolled_lem m v.vga_buffer 0 b).0;
        cells_size = c;
        x_in = omega arith;
        y_in = omega arith;
      })
    ]

-- A cursor that may have run out of its column or row.
record IsOpen (v : Vga) : Type 0 where
  buffer_size : length v.vga_buffer ≡ 2000
  cells_size : length v.fb_cells ≡ 2000
  x_in : v.x ≤ width

fit-IsScreen : (v : Vga) → IsOpen v → IsScreen (fit v)
fit-IsScreen v o = elim (Bool-cases (leb height v.y)) [
  | inl e ↦ rw e (scroll-IsScreen v o.buffer_size o.cells_size)
  | inr e ↦ rw e (record {
    buffer_size = o.buffer_size;
    cells_size = o.cells_size;
    x_in = o.x_in;
    y_in = ground arith;
  })
]

fit-x : (v : Vga) → v.x < width → (fit v).x < width
unfolding scroll render_all
fit-x v h = ground arith

wrap-IsOpen : (v : Vga) → IsScreen v → IsOpen (wrap v) × ((wrap v).x < width)
wrap-IsOpen v s = elim (Bool-cases (leb width v.x)) [
  | inl e ↦ rw e (
    record { buffer_size = s.buffer_size; cells_size = s.cells_size; x_in = omega arith },
    omega arith,
  )
  | inr e ↦ rw e (
    record { buffer_size = s.buffer_size; cells_size = s.cells_size; x_in = s.x_in },
    ground arith,
  )
]

-- A store inside the 80 x 25 cells stays inside both grids.
store-IsScreen :
    (c col row : ℕ) (v : Vga)
    → IsScreen v
    → col < width
    → row < height
    → IsScreen (store c col row v) × ((store c col row v).x ≡ v.x) × ((store c col row v).y ≡ v.y)
unfolding store
store-IsScreen c col row v s h k = elim (Bool-cases v.use_fb) [
  | inl u ↦ rw u (
    record {
      buffer_size = s.buffer_size;
      cells_size =
          length-write v.fb_cells (row * 80 + col) (cell c v.color) (omega (arith, s.cells_size))
          ∙ s.cells_size;
      x_in = s.x_in;
      y_in = s.y_in;
    },
    refl,
    refl,
  )
  | inr u ↦ rw u (
    record {
      buffer_size =
          length-write v.vga_buffer (row * 80 + col) (cell c v.color) (omega (arith, s.buffer_size))
          ∙ s.buffer_size;
      cells_size = s.cells_size;
      x_in = s.x_in;
      y_in = s.y_in;
    },
    refl,
    refl,
  )
]

print-IsScreen : (c : ℕ) (v : Vga) → IsScreen v → v.x < width → IsScreen (print c v)
print-IsScreen c v s h =
    let (t, p, q) = store-IsScreen c v.x v.y v s h s.y_in in
    record {
      buffer_size = t.buffer_size;
      cells_size = t.cells_size;
      x_in = omega (arith, p);
      y_in = omega (arith, t.y_in);
    }

put_char-IsScreen : (c : ℕ) (v : Vga) → IsScreen v → IsScreen (put_char c v)
unfolding put_char
put_char-IsScreen c v s =
    let (o, x) = wrap-IsOpen v s in
    let next = record v { x = 0; y = v.y + 1 } in
    let down =
      fit-IsScreen next
        (record { buffer_size = s.buffer_size; cells_size = s.cells_size; x_in = omega arith }) in
    let w = fit (wrap v) in
    elim (Bool-cases (c == b'\n')) [
      | inl e ↦ rw e (follow-IsScreen (fit next) down)
      | inr e ↦ elim (Bool-cases (c == 0)) [
        | inl z ↦ rw (e, z) s
        | inr z ↦
            rw (e, z)
              (follow-IsScreen (print c w)
                (print-IsScreen c w (fit-IsScreen (wrap v) o) (fit-x (wrap v) x)))
      ]
    ]

pub clamp_lt : (limit : ℕ) (z : ℤ) → 0 < limit → clamp limit z < limit
clamp_lt limit (negsuc n) h = h
clamp_lt limit (pos n) h = ground arith

put_char_at-IsScreen : (c : ℕ) (px py : ℤ) (v : Vga) → IsScreen v → IsScreen (put_char_at c px py v)
unfolding put_char_at
put_char_at-IsScreen c px py v s =
    let d = if c == 0 then b' ' else c in
    let (t, p, q) =
      store-IsScreen d (clamp width px) (clamp height py) v s (clamp_lt width px (omega arith))
        (clamp_lt height py (omega arith)) in
    follow-IsScreen (store d (clamp width px) (clamp height py) v) t

set_xy-IsScreen : (px py : ℤ) (v : Vga) → IsScreen v → IsScreen (set_xy px py v)
unfolding set_xy
set_xy-IsScreen (negsuc n) py v s = follow-IsScreen v s
set_xy-IsScreen (pos n) (negsuc m) v s = follow-IsScreen v s
set_xy-IsScreen (pos n) (pos m) v s = elim (Bool-cases (ltb n width && ltb m height)) [
  | inl e ↦ rw e (
      follow-IsScreen (record v { x = n; y = m })
        (record {
          buffer_size = s.buffer_size;
          cells_size = s.cells_size;
          x_in = ground arith;
          y_in = ground arith;
        }))
  | inr e ↦ rw e (follow-IsScreen v s)
]

-- The operations that write, move or colour.
pub data Call : Type 0 where
  puts : ℕ → Call
  puts_at : ℕ → ℤ → ℤ → Call
  moves_to : ℤ → ℤ → Call
  colours : ℕ → Call
  shows_cursor : Bool → Call
  clears scrolls forces_cursor : Call
  switches : ℕ → ℕ → ℕ → ℕ → Call

pub call : Call → Vga → Vga
call (puts c) v = put_char c v
call (puts_at c px py) v = put_char_at c px py v
call (moves_to px py) v = set_xy px py v
call (colours c) v = set_color c v
call (shows_cursor enabled) v = set_cursor_enabled enabled v
call clears v = clear v
call scrolls v = scroll v
call forces_cursor v = force_update_cursor v
call (switches pitch w h bpp) v = init_fb pitch w h bpp v

unfoldable pub calls : List Call → Vga → Vga
unfolding call
calls [] v = v
calls (c ∷ cs) v = calls cs (call c v)

cursor-same :
    (b : Bool) (v : Vga)
    → ((set_cursor_enabled b v).vga_buffer ≡ v.vga_buffer)
      × ((set_cursor_enabled b v).fb_cells ≡ v.fb_cells)
      × ((set_cursor_enabled b v).x ≡ v.x)
      × ((set_cursor_enabled b v).y ≡ v.y)
unfolding set_cursor_enabled update_cursor
cursor-same b v = ground arith

call-IsScreen : (c : Call) (v : Vga) → IsScreen v → IsScreen (call c v)
unfolding call set_color init_fb force_update_cursor
call-IsScreen (puts c) v s = put_char-IsScreen c v s
call-IsScreen (puts_at c px py) v s = put_char_at-IsScreen c px py v s
call-IsScreen (moves_to px py) v s = set_xy-IsScreen px py v s
call-IsScreen (colours c) v s = record {
  buffer_size = s.buffer_size;
  cells_size = s.cells_size;
  x_in = s.x_in;
  y_in = s.y_in;
}
call-IsScreen (shows_cursor b) v s =
    let (t, f, p, q) = cursor-same b v in
    record {
      buffer_size = ap length t ∙ s.buffer_size;
      cells_size = ap length f ∙ s.cells_size;
      x_in = omega (arith, p, s.x_in);
      y_in = omega (arith, q, s.y_in);
    }
call-IsScreen clears v s = clear-IsScreen v s.buffer_size s.cells_size
call-IsScreen scrolls v s = scroll-IsScreen v s.buffer_size s.cells_size
call-IsScreen forces_cursor v s = record {
  buffer_size = s.buffer_size;
  cells_size = s.cells_size;
  x_in = s.x_in;
  y_in = s.y_in;
}
call-IsScreen (switches pitch w h bpp) v s =
    clear-IsScreen
      (record v {
        fb_pitch = pitch;
        fb_width = w;
        fb_height = h;
        fb_bpp = bpp;
        use_fb = true;
        cursor_enabled = false;
        x = 0;
        y = 0;
      })
      s.buffer_size s.cells_size

calls_keep : (cs : List Call) (v : Vga) → IsScreen v → IsScreen (calls cs v)
unfolding calls
calls_keep [] v s = s
calls_keep (c ∷ cs) v s = calls_keep cs (call c v) (call-IsScreen c v s)

-- From the constructor on, at two grids of 2000 cells, any sequence of writes, cursor moves (with any coordinates),
-- colour changes, scrolls, clears and switches to a framebuffer leaves a screen: every store to a grid has gone to one
-- of its 2000 cells, since another would have made it longer, and the cursor stays in one of the 25 rows and at most
-- one past the last of the 80 columns.
pub calls-IsScreen :
    (cs : List Call) (buffer cells : List ℕ)
    → length buffer ≡ 2000
    → length cells ≡ 2000
    → IsScreen (calls cs (new_vga buffer cells))
unfolding new_vga
calls-IsScreen cs buffer cells b c = calls_keep cs (new_vga buffer cells) (clear-IsScreen _ b c)
