-- ===== src/Terminal/Keys.antt =====
-- The parts of handleChar of src/libc/terminal.cpp and the meaning of each.
use mr_hak_os.Prelude.{
  ℕ, suc, ◌+◌, ◌-◌, ◌≤◌, ◌<◌, ◌≡◌, ◌∙◌, refl, [], ◌∷◌, ◌++◌, true, false, arith, ◌==◌,
  if◌then◌else◌, ltb, take, drop, subst, get_or, if-elim, sym,
}
use mr_hak_os.Terminal.Line.{
  erase_before, normalize, erase, Line, IsLine, line_capacity, content, insert_key,
}
use mr_hak_os.Terminal.Editor.{Editor, move_to, recall, place_cursor_at}
use mr_hak_os.Terminal.Typing.{
  IsEditor, Shows, edited, typing, place_cursor_at-Shows, line-Shows, recalled, recall-Shows,
}
use mr_hak_os.Terminal.Edited.{erase_sound, erase-content}
use mr_hak_os.Terminal.Inserted.{insert_key-IsLine, insert_key-content}
use mr_hak_os.Terminal.Remembered.{get_or-behind}
use mr_hak_os.Terminal.Rows.{length-commands, get_or-texts, text-nil, commands}
use mr_hak_os.CString.Text.{strlen-le}

pub normalize-same : (l : Line) → IsLine l → normalize l ≡ l
unfolding normalize
normalize-same l v =
    let fits : ltb line_capacity l.size ≡ false = ground (arith, v.short) in
    let inside : ltb l.size l.caret ≡ false = ground (arith, v.inside) in rw (fits, inside) refl

-- The character at `at` is taken out, and the caret stands there.
pub erase_to-Shows :
    (at : ℕ) (e : Editor)
    → IsEditor e
    → at < e.line.size
    → Shows
        (record e { line = record (erase at e.line) { caret = at } })
        (edited (take at (content e.line) ++ drop (suc at) (content e.line)) at (typing e))
unfolding erase
erase_to-Shows at e v h =
    let w = v.line_valid in
    let (room, ended) = erase_sound e.line at w h in
    line-Shows e (record (erase at e.line) { caret = at }) _ v
      (record { room = room; short = omega (arith, w.short); inside = omega arith; ended = ended })
      (erase-content e.line at w h)

pub erase-Shows :
    (e : Editor)
    → IsEditor e
    → e.line.caret < e.line.size
    → Shows
        (record e { line = erase e.line.caret e.line })
        (edited
          (take e.line.caret (content e.line) ++ drop (suc e.line.caret) (content e.line))
          e.line.caret
          (typing e))
unfolding erase
erase-Shows e v h = erase_to-Shows e.line.caret e v h

pub erase_before-Shows :
    (e : Editor)
    → IsEditor e
    → 0 < e.line.caret
    → Shows
        (record e { line = erase_before e.line })
        (edited
          (take (e.line.caret - 1) (content e.line) ++ drop e.line.caret (content e.line))
          (e.line.caret - 1)
          (typing e))
unfolding erase_before
erase_before-Shows e v h =
    let at = e.line.caret - 1 in
    let next : suc at ≡ e.line.caret = omega arith in
    subst
      (λ k.
        Shows (record e { line = erase_before e.line })
          (edited (take at (content e.line) ++ drop k (content e.line)) at (typing e)))
      next (erase_to-Shows at e v (omega (arith, v.line_valid.inside)))

pub move_to-Shows :
    (caret : ℕ) (e : Editor)
    → IsEditor e
    → caret ≤ e.line.size
    → Shows (move_to caret e) (record (typing e) { caret = caret })
move_to-Shows caret e v h =
    let l = e.line in
    let w = v.line_valid in
    place_cursor_at-Shows caret (record e { line = record l { caret = caret } })
      (record (typing e) { caret = caret })
      (record {
        valid = record {
          line_valid = record { room = w.room; short = w.short; inside = h; ended = w.ended };
          history_valid = v.history_valid;
        };
        same = refl;
      })

pub insert_key-Shows :
    (key : ℕ) (e : Editor)
    → IsEditor e
    → e.line.size < line_capacity
    → Shows
        (record e { line = insert_key key e.line })
        (edited
          (take e.line.caret (content e.line) ++ key ∷ drop e.line.caret (content e.line))
          (e.line.caret + 1)
          (typing e))
unfolding insert_key
insert_key-Shows key e v h =
    line-Shows e (insert_key key e.line) _ v (insert_key-IsLine e.line key v.line_valid h)
      (insert_key-content e.line key v.line_valid h)

-- The older command.
pub up-Shows :
    (e : Editor)
    → IsEditor e
    → 0 < e.history.index
    → Shows
        (recall (e.history.index - 1) (get_or e.history.rows (e.history.index - 1) []) e)
        (recalled (e.history.index - 1) (typing e))
up-Shows e v h =
    let w = v.history_valid in
    let k = e.history.index - 1 in
    recall-Shows k (get_or e.history.rows k []) e v
      (w.rows_valid.1 k (omega (arith, w.inside, w.short))).ended (omega (arith, w.inside))
      (sym (get_or-texts e.history.count k e.history.rows (omega (arith, w.inside))))

-- The newer command, or the empty line.
pub down-Shows :
    (e : Editor)
    → IsEditor e
    → e.history.index < e.history.count
    → Shows
        (recall
          (e.history.index + 1)
          (if e.history.index + 1 == e.history.count
            then []
            else get_or e.history.rows (e.history.index + 1) [])
          e)
        (recalled (e.history.index + 1) (typing e))
down-Shows e v h =
    let w = v.history_valid in
    let k = e.history.index + 1 in
    let n = length-commands e.history w in
    if-elim (λ source. Shows (recall k source e) (recalled k (typing e))) (k == e.history.count) []
      (get_or e.history.rows k [])
      (λ last.
        recall-Shows k [] e v (omega (arith, strlen-le [])) (omega arith)
          (text-nil ∙ sym (get_or-behind (commands e.history) k (ground (arith, n)))))
      (λ more.
        recall-Shows k (get_or e.history.rows k []) e v
          (w.rows_valid.1 k (ground (arith, w.short))).ended (omega arith)
          (sym (get_or-texts e.history.count k e.history.rows (ground arith))))

pub enter-Shows :
    (e : Editor)
    → IsEditor e
    → Shows
        (record (place_cursor_at e.line.size e) { command_ready = true })
        (record (typing e) { ready = true })
unfolding place_cursor_at
enter-Shows e v = record {
  valid = record { line_valid = v.line_valid; history_valid = v.history_valid };
  same = refl;
}
