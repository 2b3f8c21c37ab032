-- ===== src/Vga/Scroll.antt =====
-- What `scroll` and `clear` leave in the grid.
use mr_hak_os.Vga.Cells.{write, fill_cells, shift_cols, shift_rows}
use mr_hak_os.Prelude.{
  true, ap, ℕ, zero, suc, ◌+◌, ◌*◌, ◌≤◌, ◌<◌, ◌≡◌, ◌∙◌, refl, List, false, arith, if◌then◌else◌,
  length, subst, get_or, set, subst₂, ltb, leb, length-set, ◌&&◌,
}
use mr_hak_os.Vga.{clear, scrolled, Vga, cell}
use mr_hak_os.CString.Copy.{get_or-set}

-- A store to a cell.
write-set : (cells : List ℕ) (i v : ℕ) → i < length cells → write cells i v ≡ set cells i v
unfolding write
write-set cells i v h = let e : ltb i (length cells) ≡ true = ground arith in rw e refl

pub length-write :
    (cells : List ℕ) (i v : ℕ) → i < length cells → length (write cells i v) ≡ length cells
length-write cells i v h = ap length (write-set cells i v h) ∙ length-set cells i v

get_or-write :
    (cells : List ℕ) (i j v : ℕ)
    → i < length cells
    → get_or (write cells i v) j 0 ≡ get_or (set cells i v) j 0
get_or-write cells i j v h = ap (λ c. get_or c j 0) (write-set cells i v h)

pub length-fill_cells :
    (n i v : ℕ) (cells : List ℕ)
    → i + n ≤ length cells
    → length (fill_cells n i v cells) ≡ length cells
unfolding fill_cells
length-fill_cells zero i v cells h = refl
length-fill_cells (suc n) i v cells h =
    let same = length-write cells i v (omega arith) in
    length-fill_cells n (i + 1) v (write cells i v) (omega (arith, same)) ∙ same

pub get_or-fill_cells :
    (n i v : ℕ) (cells : List ℕ) (j : ℕ)
    → i + n ≤ length cells
    → get_or (fill_cells n i v cells) j 0
      ≡ (if leb i j && ltb j (i + n) then v else get_or cells j 0)
unfolding fill_cells
get_or-fill_cells zero i v cells j h = ground arith
get_or-fill_cells (suc n) i v cells j h =
    get_or-fill_cells n (i + 1) v (write cells i v) j
      (omega (arith, length-write cells i v (omega arith)))
    ∙ ground (arith, get_or-write cells i j v (omega arith), get_or-set cells i j v)

-- The first `b` cells hold what stood 80 cells further on; the others are as they were.
record Shifted (old : List ℕ) (b : ℕ) (s : List ℕ) : Type 0 where
  size : length s ≡ length old
  at : (j : ℕ) → get_or s j 0 ≡ (if ltb j b then get_or old (j + 80) 0 else get_or old j 0)

Shifted-step :
    (old s : List ℕ) (b : ℕ)
    → b < length old
    → Shifted old b s
    → Shifted old (b + 1) (write s b (get_or s (b + 80) 0))
Shifted-step old s b h v =
    let w = get_or s (b + 80) 0 in
    let inside : b < length s = omega (arith, v.size) in
    record {
      size = length-write s b w inside ∙ v.size;
      at = λ j.
          get_or-write s b j w inside
          ∙ ground (arith, get_or-set s b j w, v.size, v.at j, v.at (b + 80));
    }

shift_cols-Shifted :
    (n row col : ℕ) (old s : List ℕ)
    → row * 80 + col + n ≤ length old
    → Shifted old (row * 80 + col) s
    → Shifted old (row * 80 + col + n) (shift_cols n row col s)
unfolding shift_cols
shift_cols-Shifted zero row col old s h v =
    let e : row * 80 + col ≡ row * 80 + col + 0 = omega arith in subst (λ b. Shifted old b s) e v
shift_cols-Shifted (suc n) row col old s h v =
    let here = row * 80 + col in
    let there : here + 80 ≡ (row + 1) * 80 + col = omega arith in
    let next : here + 1 ≡ row * 80 + (col + 1) = omega arith in
    let done : row * 80 + (col + 1) + n ≡ here + suc n = omega arith in
    let step = Shifted-step old s here (omega arith) v in
    subst (λ b. Shifted old b (shift_cols (suc n) row col s)) done
      (shift_cols-Shifted n row (col + 1) old (write s here (get_or s ((row + 1) * 80 + col) 0))
        (omega arith) (subst₂ (λ b k. Shifted old b (write s here (get_or s k 0))) next there step))

shift_rows-Shifted :
    (n row : ℕ) (old s : List ℕ)
    → (row + n) * 80 ≤ length old
    → Shifted old (row * 80) s
    → Shifted old ((row + n) * 80) (shift_rows n row s)
unfolding shift_rows
shift_rows-Shifted zero row old s h v =
    let e : row * 80 ≡ (row + 0) * 80 = omega arith in subst (λ b. Shifted old b s) e v
shift_rows-Shifted (suc n) row old s h v =
    let a : row * 80 ≡ row * 80 + 0 = omega arith in
    let b : row * 80 + 0 + 80 ≡ (row + 1) * 80 = omega arith in
    let d : (row + 1 + n) * 80 ≡ (row + suc n) * 80 = omega arith in
    subst (λ k. Shifted old k (shift_rows (suc n) row s)) d
      (shift_rows-Shifted n (row + 1) old (shift_cols 80 row 0 s) (omega arith) (
        subst (λ k. Shifted old k (shift_cols 80 row 0 s)) b
          (shift_cols-Shifted 80 row 0 old s (omega arith) (subst (λ k. Shifted old k s) a v))))

start-Shifted : (old : List ℕ) → Shifted old (0 * 80) old
start-Shifted old = record { size = refl; at = λ j. ground arith }

-- The cell loops of `scroll` on a grid of 2000 cells: every cell of the first 24 rows gets what stood one
-- row below it, and every cell of the last row the blank; the grid keeps its size.
pub scrolled_lem :
    (blank : ℕ) (cells : List ℕ) (j : ℕ)
    → length cells ≡ 2000
    → (length (scrolled blank cells) ≡ 2000)
      × (get_or (scrolled blank cells) j 0 ≡ (
          if ltb j 1920
          then get_or cells (j + 80) 0
          else if ltb j 2000
          then blank
          else get_or cells j 0))
scrolled_lem blank cells j size =
    let moved = shift_rows-Shifted 24 0 cells cells (omega arith) (start-Shifted cells) in
    let s = shift_rows 24 0 cells in
    (
      length-fill_cells 80 1920 blank s (omega (arith, moved.size)) ∙ moved.size ∙ size,
      get_or-fill_cells 80 1920 blank s j (omega (arith, moved.size)) ∙ ground (arith, moved.at j),
    )

-- `clear` in text mode blanks all 2000 cells, and puts the cursor into the top left corner.
pub clear_lem :
    (v : Vga) (j : ℕ)
    → v.use_fb ≡ false
    → length v.vga_buffer ≡ 2000
    → j < 2000
    → (get_or (clear v).vga_buffer j 0 ≡ cell b' ' v.color) × ((clear v).x ≡ 0) × ((clear v).y ≡ 0)
unfolding clear
clear_lem v j text size h =
    ground (arith, get_or-fill_cells 2000 0 (cell b' ' v.color) v.vga_buffer j)
