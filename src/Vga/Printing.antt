-- ===== src/Vga/Printing.antt =====
-- Which cells putChar and putCharAt of src/libc/vga.cpp change.
use mr_hak_os.Vga.{
  put_char, put_char_at, update_cursor, Vga, store, width, height, follow, clamp, cell, print, fit,
  scroll, render_all, wrap, scrolled,
}
use mr_hak_os.Prelude.{
  ℕ, ◌+◌, ◌*◌, ◌<◌, ◌≡◌, ◌≢◌, ◌∙◌, refl, true, false, inl, inr, arith, ◌==◌, if◌then◌else◌,
  Bool-cases, leb, ap, sym, length, get_or, ltb,
}
use mr_hak_os.Vga.Cells.{write}
use mr_hak_os.Prelude.Int.{ℤ}
use mr_hak_os.Vga.Console.{grid, clamp_lt}
use mr_hak_os.Vga.Scroll.{scrolled_lem}

follow-same :
    (v : Vga)
    → (grid (follow v) ≡ grid v)
      × ((follow v).x ≡ v.x)
      × ((follow v).y ≡ v.y)
      × ((follow v).color ≡ v.color)
unfolding update_cursor
follow-same v = ground arith

store-grid :
    (c col row : ℕ) (v : Vga)
    → (grid (store c col row v) ≡ write (grid v) (row * 80 + col) (cell c v.color))
      × ((store c col row v).x ≡ v.x)
      × ((store c col row v).y ≡ v.y)
unfolding store
store-grid c col row v = elim (Bool-cases v.use_fb) [
  | inl u ↦ rw u (refl, refl, refl)
  | inr u ↦ rw u (refl, refl, refl)
]

-- Inside a row, `putChar` of a character that is neither a line feed nor zero writes the character in
-- the current colour into the cell under the cursor and into no other, and moves the cursor one column on.
pub put_char_lem :
    (c : ℕ) (v : Vga)
    → c ≢ 0
    → c ≢ b'\n'
    → v.x < width
    → v.y < height
    → (grid (put_char c v) ≡ write (grid v) (v.y * 80 + v.x) (cell c v.color))
      × ((put_char c v).x ≡ v.x + 1)
      × ((put_char c v).y ≡ v.y)
unfolding put_char
put_char_lem c v nz nn hx hy =
    let a : (c == b'\n') ≡ false = ground arith in
    let b : (c == 0) ≡ false = ground arith in
    let d : leb width v.x ≡ false = ground arith in
    let e : leb height v.y ≡ false = ground arith in
    let (g, p, q) = store-grid c v.x v.y v in
    let (g', p', q', k') = follow-same (print c v) in
    rw (a, b, d, e) (g' ∙ g, p' ∙ ap (λ n. n + 1) p, q' ∙ q)

fit-in : (v : Vga) → v.x < width → ((fit v).x < width) × ((fit v).y < height)
unfolding scroll render_all
fit-in v h = ground arith

put_char-print :
    (c : ℕ) (v : Vga) → c ≢ 0 → c ≢ b'\n' → put_char c v ≡ follow (print c (fit (wrap v)))
unfolding put_char
put_char-print c v nz nn =
    let a : (c == b'\n') ≡ false = ground arith in
    let b : (c == 0) ≡ false = ground arith in rw (a, b) refl

wrap-full : (v : Vga) → v.x ≡ width → wrap v ≡ record v { x = 0; y = v.y + 1 }
wrap-full v h = let d : leb width v.x ≡ true = ground arith in rw d refl

put_char-full :
    (c : ℕ) (v : Vga)
    → c ≢ 0
    → c ≢ b'\n'
    → v.x ≡ width
    → put_char c v ≡ follow (print c (fit (record v { x = 0; y = v.y + 1 })))
put_char-full c v nz nn h =
    put_char-print c v nz nn ∙ ap (λ w. follow (print c (fit w))) (wrap-full v h)

-- The same character after `follow`, which only moves the hardware cursor.
put_char-follow :
    (c : ℕ) (next : Vga)
    → c ≢ 0
    → c ≢ b'\n'
    → next.x < width
    → next.y < height
    → let one = follow (print c next) in
      let two = put_char c (follow next) in
      (grid one ≡ grid two) × (one.x ≡ two.x) × (one.y ≡ two.y)
put_char-follow c next nz nn hx hy =
    let (g₀, p₀, q₀, k₀) = follow-same next in
    let (g₁, p₁, q₁) = store-grid c next.x next.y next in
    let (g₂, p₂, q₂, k₂) = follow-same (print c next) in
    let (g₃, p₃, q₃) = put_char_lem c (follow next) nz nn (omega (arith, p₀)) (omega (arith, q₀)) in
    let g₄ : write (grid (follow next)) ((follow next).y * 80 + (follow next).x)
          (cell c (follow next).color)
        ≡ write (grid next) (next.y * 80 + next.x) (cell c next.color) =
      rw (g₀, p₀, q₀, k₀) refl in
    (g₂ ∙ g₁ ∙ sym (g₃ ∙ g₄), omega (arith, p₁, p₂, p₃, p₀), omega (arith, q₁, q₂, q₃, q₀))

-- Past the last column, `putChar` of such a character does what a line feed and then the character do: the same
-- grid and the same cursor.
pub put_char-wrap :
    (c : ℕ) (v : Vga)
    → c ≢ 0
    → c ≢ b'\n'
    → v.x ≡ width
    → v.y < height
    → let one = put_char c v in
      let two = put_char c (put_char b'\n' v) in
      (grid one ≡ grid two) × (one.x ≡ two.x) × (one.y ≡ two.y)
unfolding put_char
put_char-wrap c v nz nn hx hy =
    let next = fit (record v { x = 0; y = v.y + 1 }) in
    let (x_in, y_in) = fit-in (record v { x = 0; y = v.y + 1 }) (omega arith) in
    let full = put_char-full c v nz nn hx in
    let (g, p, q) = put_char-follow c next nz nn x_in y_in in
    (ap grid full ∙ g, ap (λ w. w.x) full ∙ p, ap (λ w. w.y) full ∙ q)

-- `putCharAt` of a character other than zero writes one cell, which lies inside the grid whatever the caller's coordinates are, and leaves the cursor
-- where it stood.
pub put_char_at_lem :
    (c : ℕ) (px py : ℤ) (v : Vga)
    → c ≢ 0
    → (grid (put_char_at c px py v)
        ≡ write (grid v) (clamp height py * 80 + clamp width px) (cell c v.color))
      × (clamp height py * 80 + clamp width px < 2000)
      × ((put_char_at c px py v).x ≡ v.x)
      × ((put_char_at c px py v).y ≡ v.y)
unfolding put_char_at
put_char_at_lem c px py v nz =
    let b : (c == 0) ≡ false = ground arith in
    let row = clamp height py in
    let col = clamp width px in
    let (g, p, q) = store-grid c col row v in
    let (g', p', q', k') = follow-same (store c col row v) in
    rw b (
      g' ∙ g,
      omega (arith, clamp_lt height py (omega arith), clamp_lt width px (omega arith)),
      p' ∙ p,
      q' ∙ q,
    )

scroll-grid : (v : Vga) → grid (scroll v) ≡ scrolled (cell b' ' v.color) (grid v)
unfolding scroll render_all
scroll-grid v = elim (Bool-cases v.use_fb) [ inl u ↦ rw u refl | inr u ↦ rw u refl ]

fit-full : (v : Vga) → v.y ≡ height → fit v ≡ scroll v
fit-full v h = let e : leb height v.y ≡ true = ground arith in rw e refl

-- A line feed in the last row scrolls: every cell of the first 24 rows gets what stood one row below it, and every cell
-- of the last row a blank in the current colour.
put_char-scroll :
    (v : Vga) (j : ℕ)
    → length (grid v) ≡ 2000
    → v.y ≡ 24
    → j < 2000
    → get_or (grid (put_char b'\n' v)) j 0
      ≡ (if ltb j 1920 then get_or (grid v) (j + 80) 0 else cell b' ' v.color)
unfolding put_char
put_char-scroll v j size last h =
    let below = record v { x = 0; y = v.y + 1 } in
    let (g, p, q, k) = follow-same (fit below) in
    let e = g ∙ ap grid (fit-full below (omega (arith, last))) ∙ scroll-grid below in
    ap (λ cells. get_or cells j 0) e
    ∙ (scrolled_lem (cell b' ' v.color) (grid v) j size).1
    ∙ ground arith
