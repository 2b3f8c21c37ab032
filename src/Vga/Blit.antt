-- ===== src/Vga/Blit.antt =====
-- The clipping of fb_fill_rect in src/libc/vga.cpp: where its stores go.
use mr_hak_os.Vga.Glyph.{
  clip_start, clip_end, with_int, rounds, as_int, fill_clipped, byte_at, word_at, clip, Store,
  fill_row, bytes_per_pixel, fill_rows, fb_fill_rect,
}
use mr_hak_os.Prelude.Int.{pos_part, neg_part, ltb_ℤ, ℤ, pos, negsuc, ◌+ℤ◌, ◌-ℤ◌}
use mr_hak_os.Prelude.{
  List, true, refl, ◌∙◌, ltb, if◌then◌else◌, Option, some, ℕ, zero, suc, ◌+◌, ◌*◌, ◌≤◌, ◌<◌, ◌≡◌,
  ◌⊎◌, inl, inr, arith, ◌==◌, subst, sym, ◌%◌, ◌^◌, Bool-cases, ◌||◌,
}
use mr_hak_os.Vga.Panel.{Every, Every-append, mul_le}
use mr_hak_os.Vga.{Vga}

-- The store ends at or before the offset `limit`.
abbrev pub Below : ℕ → Store → Type 0
Below limit (byte_at at b) = at + 1 ≤ limit
Below limit (word_at at w) = at + 4 ≤ limit

-- The two pixel formats that the loader asks for.
abbrev pub IsDepth : ℕ → Type 0
IsDepth bpp = (bpp ≡ 24) ⊎ (bpp ≡ 32)

-- The integer fits an `int`.
abbrev pub IsInt : ℤ → Type 0
IsInt z = (pos_part z < 2 ^ 31) × (neg_part z ≤ 2 ^ 31)

-- The axis that is left when nothing overflows.
abbrev clipped_axis : ℕ → ℕ × ℤ → ℕ × ℕ
clipped_axis limit (p, w) =
    (p, rounds (if ltb_ℤ (pos limit) (pos p +ℤ w) then pos limit -ℤ pos p else w))

abbrev started : ℤ → ℤ → ℕ × ℤ
started (pos p) w = (p, w)
started (negsuc n) w = (0, w +ℤ negsuc n)

clipped_axis-in :
    (limit p : ℕ) (w : ℤ)
    → ((clipped_axis limit (p, w)).1 ≡ 0)
      ⊎ ((clipped_axis limit (p, w)).0 + (clipped_axis limit (p, w)).1 ≤ limit)
unfolding ◌+ℤ◌ ◌-ℤ◌
clipped_axis-in limit p (pos w) = ground arith
clipped_axis-in limit p (negsuc w) = ground arith

with_int-IsInt : {A : Type 0} (z : ℤ) (f : ℤ → Option A) → IsInt z → with_int z f ≡ f z
unfolding with_int
with_int-IsInt (pos n) f h = let e : ltb n (2 ^ 31) ≡ true = ground arith in rw e refl
with_int-IsInt (negsuc n) f h = let e : ltb n (2 ^ 31) ≡ true = ground arith in rw e refl

difference-IsInt : (limit p : ℕ) → limit < 2 ^ 31 → p < 2 ^ 31 → IsInt (pos limit -ℤ pos p)
unfolding ◌-ℤ◌
difference-IsInt limit p h k = ground arith

IsInt-zero : (w : ℤ) → IsInt w → IsInt (pos 0 +ℤ w)
unfolding ◌+ℤ◌
IsInt-zero (pos n) h = ground arith
IsInt-zero (negsuc n) h = ground arith

IsInt-swap : (a b : ℤ) → IsInt (a +ℤ b) → IsInt (b +ℤ a)
unfolding ◌+ℤ◌
IsInt-swap a b h =
    let p : pos_part b + pos_part a ≡ pos_part a + pos_part b = omega arith in
    let n : neg_part b + neg_part a ≡ neg_part a + neg_part b = omega arith in rw (p, n) h

clip_start-started : (p w : ℤ) → IsInt (p +ℤ w) → clip_start p w ≡ some (started p w)
unfolding clip_start
clip_start-started (pos p) w h = refl
clip_start-started (negsuc n) w h = with_int-IsInt (w +ℤ negsuc n) _ (IsInt-swap (negsuc n) w h)

clip_end-clipped_axis :
    (limit p : ℕ) (w : ℤ)
    → limit < 2 ^ 31
    → p < 2 ^ 31
    → IsInt (pos p +ℤ w)
    → clip_end (as_int limit) (p, w)
      ≡ some (p, if ltb_ℤ (pos limit) (pos p +ℤ w) then pos limit -ℤ pos p else w)
unfolding clip_end
clip_end-clipped_axis limit p w h k i =
    let small : ltb limit (2 ^ 31) ≡ true = ground arith in
    rw small (
      with_int-IsInt (pos p +ℤ w) _ i ∙ elim (Bool-cases (ltb_ℤ (pos limit) (pos p +ℤ w))) [
        | inl e ↦ rw e (with_int-IsInt (pos limit -ℤ pos p) _ (difference-IsInt limit p h k))
        | inr e ↦ rw e refl
      ])

-- An axis whose end fits an `int` is clipped to the screen.
clip-in :
    (limit : ℕ) (p w : ℤ)
    → limit < 2 ^ 31
    → IsInt p
    → IsInt (p +ℤ w)
    → (c : ℕ × ℕ) × (clip limit p w ≡ some c) × ((c.1 ≡ 0) ⊎ (c.0 + c.1 ≤ limit))
unfolding clip
clip-in limit (pos p) w h (k, _) i = (
  clipped_axis limit (p, w),
  rw (clip, clip_start-started (pos p) w i, clip_end-clipped_axis limit p w h k i) refl,
  clipped_axis-in limit p w,
)
clip-in limit (negsuc n) w h k i =
    let less = w +ℤ negsuc n in
    (
      clipped_axis limit (0, less),
      rw
          (
            clip,
            clip_start-started (negsuc n) w i,
            clip_end-clipped_axis limit 0 less h (omega arith)
                (IsInt-zero less (IsInt-swap (negsuc n) w i)),
          )
          refl,
      clipped_axis-in limit 0 less,
    )

row_32 : (n at rgb limit : ℕ) → at + n * 4 ≤ limit → Every (Below limit) (fill_row 32 n at rgb)
unfolding fill_row
row_32 zero at rgb limit h = tt
row_32 (suc n) at rgb limit h = (omega (arith, h), row_32 n (at + 4) rgb limit (omega (arith, h)))

row_24 : (n at rgb limit : ℕ) → at + n * 3 ≤ limit → Every (Below limit) (fill_row 24 n at rgb)
unfolding fill_row
row_24 zero at rgb limit h = tt
row_24 (suc n) at rgb limit h = (
  omega (arith, h),
  (omega (arith, h), (omega (arith, h), row_24 n (at + 3) rgb limit (omega (arith, h)))),
)

fill_row-Below :
    (bpp n at rgb limit : ℕ)
    → IsDepth bpp
    → at + n * bytes_per_pixel bpp ≤ limit
    → Every (Below limit) (fill_row bpp n at rgb)
fill_row-Below bpp n at rgb limit (inl e) =
    subst (λ b. at + n * bytes_per_pixel b ≤ limit → Every (Below limit) (fill_row b n at rgb))
      (sym e) (row_24 n at rgb limit)
fill_row-Below bpp n at rgb limit (inr e) =
    subst (λ b. at + n * bytes_per_pixel b ≤ limit → Every (Below limit) (fill_row b n at rgb))
      (sym e) (row_32 n at rgb limit)

-- A framebuffer of a known depth whose rows fit in the pitch and whose size is below 4 GiB.
pub record IsPanel (v : Vga) : Type 0 where
  pub depth : IsDepth v.fb_bpp
  pub pitch_fits : v.fb_width * bytes_per_pixel v.fb_bpp ≤ v.fb_pitch
  pub width_int : v.fb_width < 2 ^ 31
  pub height_int : v.fb_height < 2 ^ 31
  pub size_fits : v.fb_height * v.fb_pitch < 2 ^ 32

row_end :
    (y height x w width bytes pitch : ℕ)
    → y < height
    → x + w ≤ width
    → width * bytes ≤ pitch
    → y * pitch % 2 ^ 32 + x * bytes % 2 ^ 32 + w * bytes ≤ height * pitch
row_end y height x w width bytes pitch hy hx hp =
    let a = mul_le (y + 1) height pitch (omega arith) in
    let b = mul_le (x + w) width bytes hx in omega (arith, a, b)

fill_rows-Below :
    (v : Vga) (n y x w rgb : ℕ)
    → IsPanel v
    → y + n ≤ v.fb_height
    → x + w ≤ v.fb_width
    → Every (Below (v.fb_height * v.fb_pitch)) (fill_rows v n y x w rgb)
unfolding fill_rows
fill_rows-Below v zero y x w rgb p hy hx = tt
fill_rows-Below v (suc n) y x w rgb p hy hx =
    let bytes = bytes_per_pixel v.fb_bpp in
    let at = y * v.fb_pitch % 2 ^ 32 + x * bytes % 2 ^ 32 in
    Every-append (Below (v.fb_height * v.fb_pitch)) (fill_row v.fb_bpp w at rgb)
      (fill_rows v n (y + 1) x w rgb)
      (fill_row-Below v.fb_bpp w at rgb (v.fb_height * v.fb_pitch) p.depth
        (row_end y v.fb_height x w v.fb_width bytes v.fb_pitch (omega arith) hx p.pitch_fits))
      (fill_rows-Below v n (y + 1) x w rgb p (omega arith) hx)

fill_clipped-Below :
    (v : Vga) (columns lines : ℕ × ℕ) (rgb : ℕ)
    → IsPanel v
    → (columns.1 ≡ 0) ⊎ (columns.0 + columns.1 ≤ v.fb_width)
    → (lines.1 ≡ 0) ⊎ (lines.0 + lines.1 ≤ v.fb_height)
    → Every (Below (v.fb_height * v.fb_pitch)) (fill_clipped v columns lines rgb)
fill_clipped-Below v columns lines rgb p x y =
    elim (Bool-cases ((columns.1 == 0) || (lines.1 == 0))) [
      | inl e ↦ rw e tt
      | inr e ↦
          let some_columns : 0 < columns.1 = ground arith in
          let some_lines : 0 < lines.1 = ground arith in
          rw e (
            fill_rows-Below v lines.1 lines.0 columns.0 columns.1 rgb p
              (within lines.0 y some_lines) (within columns.0 x some_columns))
    ]
  where
    within : {n limit : ℕ} (m : ℕ) → (n ≡ 0) ⊎ (m + n ≤ limit) → 0 < n → m + n ≤ limit
    within m (inl e) k = omega arith
    within m (inr h) k = h

-- On a framebuffer of 24 or 32 bits a pixel whose rows fit in the pitch, with a resolution that an `int` holds: when the
-- caller's corner and the sums px + w and py + h fit an `int`, fb_fill_rect computes without an overflow, and every
-- store of it ends inside the `fb_height * fb_pitch` bytes of the framebuffer, for negative coordinates and lengths
-- and rectangles beyond the edges too.
pub fb_fill_rect-Below :
    (v : Vga) (px py w h : ℤ) (rgb : ℕ)
    → IsPanel v
    → IsInt px
    → IsInt py
    → IsInt (px +ℤ w)
    → IsInt (py +ℤ h)
    → (stores : List Store) × (fb_fill_rect v px py w h rgb ≡ some stores)
      × Every (Below (v.fb_height * v.fb_pitch)) stores
unfolding fb_fill_rect
fb_fill_rect-Below v px py w h rgb p ix iy iw ih =
    let (columns, c, x) = clip-in v.fb_width px w p.width_int ix iw in
    let (lines, l, y) = clip-in v.fb_height py h p.height_int iy ih in
    (
      fill_clipped v columns lines rgb,
      rw (fb_fill_rect, c, l) refl,
      fill_clipped-Below v columns lines rgb p x y,
    )
