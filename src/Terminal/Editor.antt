-- ===== src/Terminal/Editor.antt =====
-- The line editor of src/libc/terminal.cpp with its command history: handleChar and what it calls. The screen is the one
-- of src/libc/vga.cpp.
use mr_hak_os.Prelude.{
  ℕ, zero, suc, ◌+◌, ◌-◌, ◌*◌, List, [], Bool, true, false, ◌==◌, if◌then◌else◌, set, get_or, ◌||◌,
  not, min, ◌%◌, ltb, ◌&&◌, ◌/◌, leb,
}
use mr_hak_os.Vga.{set_xy, set_cursor_enabled, put_char_at, Vga, force_update_cursor}
use mr_hak_os.Terminal.Line.{normalize, erase, Line, line_capacity, erase_before, insert_key}
use mr_hak_os.Prelude.Int.{pos}
use mr_hak_os.CString.{is_equal, strcmp}

abbrev pub history_max : ℕ
history_max = 16

-- g_cmd_history, historyCount and historyIndex.
pub record History : Type 0 where
  pub rows : List (List ℕ)
  pub count : ℕ
  pub index : ℕ

pub record Editor : Type 0 where
  pub vga : Vga
  pub line : Line
  pub start_x : ℕ
  pub start_y : ℕ
  pub reading_input : Bool
  pub command_ready : Bool
  pub history : History

-- for (i = i; src[i] and n more rounds; i++) dst[i] = src[i]; dst[i] = 0;
unfoldable pub copy_command : ℕ → ℕ → List ℕ → List ℕ → List ℕ
copy_command zero i source dest = set dest i 0
copy_command (suc n) i source dest =
    let c = get_or source i 0 in
    let more = copy_command n (i + 1) source (set dest i c) in if c == 0 then set dest i 0 else more

-- The i at which it stops.
unfoldable pub copied : ℕ → ℕ → List ℕ → ℕ
copied zero i source = i
copied (suc n) i source =
    let more = copied n (i + 1) source in if get_or source i 0 == 0 then i else more

-- A character at the offset idx from the top left of the screen.
abbrev pub put_at : ℕ → ℕ → Vga → Vga
put_at c idx v = put_char_at c (pos (idx % 80)) (pos (idx / 80)) v

-- for (i = i; n more rounds; i++) putCharAt(inputBuffer[i], ..);
unfoldable pub draw_text : ℕ → ℕ → ℕ → List ℕ → Vga → Vga
unfolding put_char_at
draw_text zero i base buffer v = v
draw_text (suc n) i base buffer v =
    draw_text n (i + 1) base buffer (put_at (get_or buffer i 0) (base + i) v)

-- for (i = i; n more rounds; i++) putCharAt(' ', ..);
unfoldable pub draw_blanks : ℕ → ℕ → ℕ → Vga → Vga
unfolding put_char_at
draw_blanks zero i base v = v
draw_blanks (suc n) i base v = draw_blanks n (i + 1) base (put_at b' ' (base + i) v)

abbrev pub base_of : Editor → ℕ
base_of e = e.start_y * 80 + e.start_x

unfoldable pub place_cursor_at : ℕ → Editor → Editor
unfolding set_xy force_update_cursor
place_cursor_at at e =
    let idx = min (base_of e + at) 1999 in
    record e { vga = force_update_cursor (set_xy (pos (idx % 80)) (pos (idx / 80)) e.vga) }

unfoldable pub redraw_from : ℕ → Editor → Editor
unfolding set_cursor_enabled draw_text place_cursor_at
redraw_from from e =
    let hidden = set_cursor_enabled false e.vga in
    let drawn = draw_text (e.line.size - from) from (base_of e) e.line.buffer hidden in
    let ended = put_at b' ' (base_of e + e.line.size) drawn in
    place_cursor_at e.line.caret (record e { vga = set_cursor_enabled true ended })

unfoldable pub set_input_line : List ℕ → Editor → Editor
unfolding copy_command copied set_cursor_enabled draw_text draw_blanks place_cursor_at
set_input_line source e =
    let n = copied line_capacity 0 source in
    let buffer = copy_command line_capacity 0 source e.line.buffer in
    let hidden = set_cursor_enabled false e.vga in
    let drawn = draw_text n 0 (base_of e) buffer hidden in
    let cleaned = draw_blanks (e.line.size - n) n (base_of e) drawn in
    place_cursor_at n (record e {
      line = record { buffer = buffer; size = n; caret = n };
      vga = set_cursor_enabled true cleaned;
    })

-- for (r = r; n more rounds; r++): row r is copied over row r - 1; a row has its 0 within 256 bytes.
unfoldable pub shift_history : ℕ → ℕ → List (List ℕ) → List (List ℕ)
unfolding copy_command
shift_history zero r rows = rows
shift_history (suc n) r rows =
    shift_history n (r + 1)
      (set rows (r - 1) (copy_command line_capacity 0 (get_or rows r []) (get_or rows (r - 1) [])))

-- Stores a command in a row.
abbrev pub put_row : ℕ → List ℕ → List (List ℕ) → List (List ℕ)
put_row r cmd rows = set rows r (copy_command line_capacity 0 cmd (get_or rows r []))

-- The command goes to the next free row, or to the last one after the others have moved up.
unfoldable pub append_command : List ℕ → History → History
unfolding copy_command
append_command cmd h = record {
  rows = put_row h.count cmd h.rows;
  count = h.count + 1;
  index = h.count + 1;
}

unfoldable pub rotate_commands : List ℕ → History → History
unfolding copy_command shift_history
rotate_commands cmd h = record h {
  rows = put_row (history_max - 1) cmd (shift_history (history_max - 1) 1 h.rows);
  index = h.count;
}

unfoldable pub history_add : List ℕ → History → History
unfolding append_command rotate_commands
history_add cmd h =
    if (get_or cmd 0 0 == 0)
      || (ltb 0 h.count && is_equal (strcmp (get_or h.rows (h.count - 1) []) cmd))
    then record h { index = h.count }
    else if ltb h.count history_max
    then append_command cmd h
    else rotate_commands cmd h

-- The new caret of a key that moves it.
abbrev pub move_to : ℕ → Editor → Editor
move_to caret e = place_cursor_at caret (record e { line = record e.line { caret = caret } })

unfoldable pub recall : ℕ → List ℕ → Editor → Editor
unfolding set_input_line
recall index source e =
    set_input_line source (record e { history = record e.history { index = index } })

-- case '\b'
unfoldable pub backspace : Editor → Editor
unfolding redraw_from erase_before
backspace e =
    if ltb 0 e.line.caret
    then redraw_from (e.line.caret - 1) (record e { line = erase_before e.line })
    else e

-- case KEY_DEL
unfoldable pub delete_key : Editor → Editor
unfolding redraw_from erase
delete_key e =
    if ltb e.line.caret e.line.size
    then redraw_from e.line.caret (record e { line = erase e.line.caret e.line })
    else e

-- case KEY_LEFT and case KEY_RIGHT
unfoldable pub arrow_left : Editor → Editor
unfolding place_cursor_at
arrow_left e = if ltb 0 e.line.caret then move_to (e.line.caret - 1) e else e

unfoldable pub arrow_right : Editor → Editor
unfolding place_cursor_at
arrow_right e = if ltb e.line.caret e.line.size then move_to (e.line.caret + 1) e else e

-- case KEY_UP and case KEY_DOWN
unfoldable pub arrow_up : Editor → Editor
unfolding recall
arrow_up e =
    let h = e.history in
    if ltb 0 h.count && ltb 0 h.index
    then recall (h.index - 1) (get_or h.rows (h.index - 1) []) e
    else e

unfoldable pub arrow_down : Editor → Editor
unfolding recall
arrow_down e =
    let h = e.history in
    if ltb h.index h.count
    then recall (h.index + 1)
        (if h.index + 1 == h.count then [] else get_or h.rows (h.index + 1) []) e
    else e

-- Behind the switch.
unfoldable pub type_key : ℕ → Editor → Editor
unfolding redraw_from insert_key
type_key key e =
    if leb 0x20 key && ltb key 0x7F && ltb e.line.size line_capacity
    then redraw_from e.line.caret (record e { line = insert_key key e.line })
    else e

-- The `switch` of handleChar on a key other than 0, and what follows it.
unfoldable pub handle_key : ℕ → Editor → Editor
unfolding place_cursor_at backspace delete_key arrow_left arrow_right arrow_up arrow_down type_key
handle_key key e =
    if (key == b'\n') || (key == 13)
    then record (place_cursor_at e.line.size e) { command_ready = true }
    else if key == 8
    then backspace e
    else if key == 0x7F
    then delete_key e
    else if key == 0x13
    then arrow_left e
    else if key == 0x14
    then arrow_right e
    else if key == 0x15
    then move_to 0 e
    else if key == 0x16
    then move_to e.line.size e
    else if key == 0x11
    then arrow_up e
    else if key == 0x12
    then arrow_down e
    else type_key key e

unfoldable pub handle_char : ℕ → Editor → Editor
unfolding normalize handle_key
handle_char key e =
    if (key == 0) || not e.reading_input
    then e
    else handle_key key (record e { line = normalize e.line })
