-- ===== src/Terminal/Line.antt =====
-- The input line of src/libc/terminal.cpp: inputBuffer, inputPosition and cursorPos, and how handleChar edits them. The two
-- numbers are never negative.
use mr_hak_os.Prelude.{
  ℕ, zero, suc, ◌+◌, ◌-◌, ◌≤◌, ◌≡◌, List, if◌then◌else◌, ltb, length, set, take, get_or,
}

pub record Line : Type 0 where
  pub buffer : List ℕ
  pub size : ℕ
  pub caret : ℕ

-- sizeof(inputBuffer) - 1
abbrev pub line_capacity : ℕ
line_capacity = 255

-- for (i = i; n more rounds; i++) inputBuffer[i] = inputBuffer[i + 1];
unfoldable pub close_gap : ℕ → ℕ → List ℕ → List ℕ
close_gap zero i buffer = buffer
close_gap (suc n) i buffer = close_gap n (i + 1) (set buffer i (get_or buffer (i + 1) 0))

-- for (i = c + n; i > c; i--) inputBuffer[i] = inputBuffer[i - 1];
unfoldable pub open_gap : ℕ → ℕ → List ℕ → List ℕ
open_gap zero c buffer = buffer
open_gap (suc n) c buffer = open_gap n c (set buffer (c + suc n) (get_or buffer (c + n) 0))

-- Takes out the character at `at`.
unfoldable pub erase : ℕ → Line → Line
unfolding close_gap
erase at l = record l {
  buffer = set (close_gap (l.size - 1 - at) at l.buffer) (l.size - 1) 0;
  size = l.size - 1;
}

-- Backspace; `cursorPos > 0`.
unfoldable pub erase_before : Line → Line
unfolding erase
erase_before l = record (erase (l.caret - 1) l) { caret = l.caret - 1 }

-- A printable key at the caret.
unfoldable pub insert_key : ℕ → Line → Line
unfolding open_gap
insert_key key l = record {
  buffer = set (set (open_gap (l.size - l.caret) l.caret l.buffer) l.caret key) (l.size + 1) 0;
  size = l.size + 1;
  caret = l.caret + 1;
}

-- The tests at the start of handleChar.
unfoldable pub normalize : Line → Line
normalize l =
    let m =
      if ltb line_capacity l.size then record l { buffer = set l.buffer 0 0; size = 0 } else l in
    if ltb m.size m.caret then record m { caret = m.size } else m

-- 256 bytes, a caret in the line or behind it, and a 0 that ends it.
pub record IsLine (l : Line) : Type 0 where
  pub room : length l.buffer ≡ line_capacity + 1
  pub short : l.size ≤ line_capacity
  pub inside : l.caret ≤ l.size
  pub ended : get_or l.buffer l.size 0 ≡ 0

-- What stands in the line.
abbrev pub content : Line → List ℕ
content l = take l.size l.buffer
