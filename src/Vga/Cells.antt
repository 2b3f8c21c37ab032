-- ===== src/Vga/Cells.antt =====
-- The loops over the 80 x 25 grid of src/libc/vga.cpp.
use mr_hak_os.Prelude.{
  ℕ, zero, suc, ◌+◌, ◌*◌, List, set, get_or, if◌then◌else◌, ltb, length, ◌++◌, [], ◌∷◌,
}

-- cells[i] = v; a store that is not to one of the cells is kept behind them, so that the length tells whether there
-- has been one.
unfoldable pub write : List ℕ → ℕ → ℕ → List ℕ
write cells i v = if ltb i (length cells) then set cells i v else cells ++ v ∷ []

-- for (i = i; n more rounds; ++i) cells[i] = v;
unfoldable pub fill_cells : ℕ → ℕ → ℕ → List ℕ → List ℕ
unfolding write
fill_cells zero i v cells = cells
fill_cells (suc n) i v cells = fill_cells n (i + 1) v (write cells i v)

-- for (col = col; n more rounds; ++col) cells[row * 80 + col] = cells[(row + 1) * 80 + col];
unfoldable pub shift_cols : ℕ → ℕ → ℕ → List ℕ → List ℕ
unfolding write
shift_cols zero row col cells = cells
shift_cols (suc n) row col cells =
    shift_cols n row (col + 1)
      (write cells (row * 80 + col) (get_or cells ((row + 1) * 80 + col) 0))

-- for (row = row; n more rounds; ++row)
unfoldable pub shift_rows : ℕ → ℕ → List ℕ → List ℕ
unfolding shift_cols
shift_rows zero row cells = cells
shift_rows (suc n) row cells = shift_rows n (row + 1) (shift_cols 80 row 0 cells)
