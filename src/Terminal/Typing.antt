-- ===== src/Terminal/Typing.antt =====
-- What the user sees of the line editor of src/libc/terminal.cpp: a text, a caret and the commands before.
use mr_hak_os.Prelude.{
  ℕ, suc, ◌+◌, ◌-◌, ◌≤◌, ◌≡◌, ◌∙◌, refl, List, [], ◌∷◌, ◌++◌, Bool, true, false, arith, ◌==◌,
  if◌then◌else◌, get_or, ◌||◌, ltb, length, ap, take, drop, leb, ◌&&◌, subst, sym, ap₂,
}
use mr_hak_os.Terminal.Editor.{
  redraw_from, recall, Editor, place_cursor_at, put_at, base_of, draw_text, set_input_line,
  copy_command, copied, draw_blanks,
}
use mr_hak_os.Terminal.Line.{IsLine, content, Line, line_capacity}
use mr_hak_os.CString.{strlen}
use mr_hak_os.Terminal.Rows.{commands}
use mr_hak_os.Terminal.Commands.{IsHistory}
use mr_hak_os.CString.Text.{text, strlen-length, get_or-strlen, text-take}
use mr_hak_os.Vga.{set_cursor_enabled}
use mr_hak_os.Terminal.Copying.{copied-strlen, copy_command-text, length-copy_command}

pub record Typing : Type 0 where
  pub written : List ℕ
  pub caret : ℕ
  pub past : List (List ℕ)
  pub place : ℕ
  pub reading : Bool
  pub ready : Bool

abbrev pub typing : Editor → Typing
typing e = record {
  written = content e.line;
  caret = e.line.caret;
  past = commands e.history;
  place = e.history.index;
  reading = e.reading_input;
  ready = e.command_ready;
}

abbrev pub edited : List ℕ → ℕ → Typing → Typing
edited written caret t = record t { written = written; caret = caret }

-- An older or newer command; behind the last one there is the empty line.
abbrev pub recalled : ℕ → Typing → Typing
recalled place t =
    let c = get_or t.past place [] in record t { written = c; caret = length c; place = place }

-- The meaning of Backspace, Delete, the arrows and a printable character.
abbrev pub without_before : Typing → Typing
without_before t =
    if ltb 0 t.caret
    then edited (take (t.caret - 1) t.written ++ drop t.caret t.written) (t.caret - 1) t
    else t

abbrev pub without_here : Typing → Typing
without_here t =
    if ltb t.caret (length t.written)
    then edited (take t.caret t.written ++ drop (suc t.caret) t.written) t.caret t
    else t

abbrev pub moved_left : Typing → Typing
moved_left t = if ltb 0 t.caret then record t { caret = t.caret - 1 } else t

abbrev pub moved_right : Typing → Typing
moved_right t = if ltb t.caret (length t.written) then record t { caret = t.caret + 1 } else t

abbrev pub older : Typing → Typing
older t = if ltb 0 t.place then recalled (t.place - 1) t else t

abbrev pub newer : Typing → Typing
newer t = if ltb t.place (length t.past) then recalled (t.place + 1) t else t

abbrev pub with_key : ℕ → Typing → Typing
with_key key t =
    if leb 0x20 key && ltb key 0x7F && ltb (length t.written) line_capacity
    then edited (take t.caret t.written ++ key ∷ drop t.caret t.written) (t.caret + 1) t
    else t

-- What a key means; a line has 255 characters at most.
unfoldable pub press : ℕ → Typing → Typing
press key t =
    if (key == b'\n') || (key == 13)
    then record t { ready = true }
    else if key == 8
    then without_before t
    else if key == 0x7F
    then without_here t
    else if key == 0x13
    then moved_left t
    else if key == 0x14
    then moved_right t
    else if key == 0x15
    then record t { caret = 0 }
    else if key == 0x16
    then record t { caret = length t.written }
    else if key == 0x11
    then older t
    else if key == 0x12
    then newer t
    else with_key key t

pub record IsEditor (e : Editor) : Type 0 where
  pub line_valid : IsLine e.line
  pub history_valid : IsHistory e.history

-- The editor is well-formed, and shows this.
pub record Shows (e : Editor) (t : Typing) : Type 0 where
  pub valid : IsEditor e
  pub same : typing e ≡ t

pub if-Shows :
    (c d : Bool) (x y : Editor) (s t : Typing)
    → c ≡ d
    → (c ≡ true → Shows x s)
    → (c ≡ false → Shows y t)
    → Shows (if c then x else y) (if d then s else t)
if-Shows true true x y s t e f g = f refl
if-Shows true false x y s t e f g = absurd (ground arith)
if-Shows false true x y s t e f g = absurd (ground arith)
if-Shows false false x y s t e f g = g refl

-- The screen has no part in it.
pub place_cursor_at-Shows :
    (at : ℕ) (e : Editor) (t : Typing) → Shows e t → Shows (place_cursor_at at e) t
unfolding place_cursor_at
place_cursor_at-Shows at e t s = record {
  valid = record { line_valid = s.valid.line_valid; history_valid = s.valid.history_valid };
  same = s.same;
}

pub redraw_from-Shows :
    (from : ℕ) (e : Editor) (t : Typing) → Shows e t → Shows (redraw_from from e) t
unfolding redraw_from
redraw_from-Shows from e t s =
    let drawn = put_at b' ' (base_of e + e.line.size) (
      draw_text (e.line.size - from) from (base_of e) e.line.buffer
        (set_cursor_enabled false e.vga)) in
    place_cursor_at-Shows e.line.caret (record e { vga = set_cursor_enabled true drawn }) t
      (record {
        valid = record { line_valid = s.valid.line_valid; history_valid = s.valid.history_valid };
        same = s.same;
      })

-- Only the line changes.
pub line-Shows :
    (e : Editor) (l : Line) (written : List ℕ)
    → IsEditor e
    → IsLine l
    → content l ≡ written
    → Shows (record e { line = l }) (edited written l.caret (typing e))
line-Shows e l written v w same = record {
  valid = record { line_valid = w; history_valid = v.history_valid };
  same = ap (λ x. edited x l.caret (typing e)) same;
}

-- The line into which a command has been copied.
abbrev copied_line : List ℕ → Line → Line
copied_line source l = record {
  buffer = copy_command line_capacity 0 source l.buffer;
  size = copied line_capacity 0 source;
  caret = copied line_capacity 0 source;
}

copied_line_sound :
    (source : List ℕ) (l : Line)
    → IsLine l
    → strlen source ≤ line_capacity
    → IsLine (copied_line source l)
      × (content (copied_line source l) ≡ text source)
      × ((copied_line source l).caret ≡ length (text source))
copied_line_sound source l v short =
    let n = copied-strlen line_capacity 0 source (omega arith) (omega arith) in
    let buffer = copy_command line_capacity 0 source l.buffer in
    let same = copy_command-text source l.buffer short v.room in
    let size = strlen-length source in
    let all : strlen buffer ≡ copied line_capacity 0 source =
      strlen-length buffer ∙ ap length same ∙ sym size ∙ sym n in
    (
      record {
        room = length-copy_command line_capacity 0 source l.buffer ∙ v.room;
        short = omega (arith, n);
        inside = omega arith;
        ended = ap (λ k. get_or buffer k 0) (sym all) ∙ get_or-strlen buffer;
      },
      ap (λ k. take k buffer) (sym all) ∙ sym (text-take buffer) ∙ same,
      n ∙ size,
    )

set_input_line-Shows :
    (source : List ℕ) (e : Editor)
    → IsEditor e
    → strlen source ≤ line_capacity
    → Shows (set_input_line source e) (edited (text source) (length (text source)) (typing e))
unfolding set_input_line
set_input_line-Shows source e v short =
    let n = copied line_capacity 0 source in
    let line = copied_line source e.line in
    let (w, c, k) = copied_line_sound source e.line v.line_valid short in
    let drawn = draw_text n 0 (base_of e) line.buffer (set_cursor_enabled false e.vga) in
    let cleaned = draw_blanks (e.line.size - n) n (base_of e) drawn in
    place_cursor_at-Shows n (record e { line = line; vga = set_cursor_enabled true cleaned })
      (edited (text source) (length (text source)) (typing e))
      (record {
        valid = record { line_valid = w; history_valid = v.history_valid };
        same = ap₂ (λ x y. edited x y (typing e)) c k;
      })

-- A command as the new line.
pub recall-Shows :
    (place : ℕ) (source : List ℕ) (e : Editor)
    → IsEditor e
    → strlen source ≤ line_capacity
    → place ≤ e.history.count
    → text source ≡ get_or (commands e.history) place []
    → Shows (recall place source e) (recalled place (typing e))
unfolding recall
recall-Shows place source e v short inside found =
    let h = v.history_valid in
    let f = record e { history = record e.history { index = place } } in
    let valid : IsEditor f = record {
      line_valid = v.line_valid;
      history_valid = record { rows_valid = h.rows_valid; short = h.short; inside = inside };
    } in
    subst
      (λ c.
        Shows (recall place source e)
          (record (typing e) { written = c; caret = length c; place = place }))
      found (set_input_line-Shows source f valid short)
