-- ===== src/Terminal/Pressed.antt =====
-- handleChar of src/libc/terminal.cpp and the meaning of the keys.
use mr_hak_os.Prelude.{
  ℕ, ◌+◌, ◌-◌, refl, arith, ◌==◌, if◌then◌else◌, ltb, subst, sym, length, ap, leb, ◌&&◌, ◌||◌, not,
}
use mr_hak_os.Terminal.Line.{erase_before, erase, line_capacity, content, insert_key}
use mr_hak_os.Terminal.Editor.{
  Editor, move_to, handle_key, handle_char, arrow_up, arrow_down, backspace, type_key, arrow_left,
  arrow_right, delete_key,
}
use mr_hak_os.Terminal.Typing.{
  IsEditor, Shows, typing, press, if-Shows, redraw_from-Shows, older, without_here, without_before,
  moved_left, moved_right, newer, with_key,
}
use mr_hak_os.Terminal.Edited.{length-content}
use mr_hak_os.Terminal.Rows.{length-commands, commands}
use mr_hak_os.Terminal.Keys.{
  insert_key-Shows, erase_before-Shows, up-Shows, enter-Shows, down-Shows, move_to-Shows,
  erase-Shows, normalize-same,
}

shown : (e : Editor) → IsEditor e → Shows e (typing e)
shown e v = record { valid = v; same = refl }

backspace-Shows : (e : Editor) → IsEditor e → Shows (backspace e) (without_before (typing e))
unfolding backspace
backspace-Shows e v =
    if-Shows (ltb 0 e.line.caret) (ltb 0 e.line.caret) _ e _ (typing e) refl
      (λ h.
        redraw_from-Shows (e.line.caret - 1) (record e { line = erase_before e.line }) _
          (erase_before-Shows e v (ground arith)))
      (λ _. shown e v)

delete_key-Shows : (e : Editor) → IsEditor e → Shows (delete_key e) (without_here (typing e))
unfolding delete_key
delete_key-Shows e v =
    if-Shows (ltb e.line.caret e.line.size) (ltb e.line.caret (length (content e.line))) _ e _
      (typing e) (ap (ltb e.line.caret) (sym (length-content e.line v.line_valid)))
      (λ h.
        redraw_from-Shows e.line.caret (record e { line = erase e.line.caret e.line }) _
          (erase-Shows e v (ground arith)))
      (λ _. shown e v)

arrow_left-Shows : (e : Editor) → IsEditor e → Shows (arrow_left e) (moved_left (typing e))
unfolding arrow_left
arrow_left-Shows e v =
    if-Shows (ltb 0 e.line.caret) (ltb 0 e.line.caret) _ e _ (typing e) refl
      (λ h. move_to-Shows (e.line.caret - 1) e v (omega (arith, v.line_valid.inside)))
      (λ _. shown e v)

arrow_right-Shows : (e : Editor) → IsEditor e → Shows (arrow_right e) (moved_right (typing e))
unfolding arrow_right
arrow_right-Shows e v =
    if-Shows (ltb e.line.caret e.line.size) (ltb e.line.caret (length (content e.line))) _ e _
      (typing e) (ap (ltb e.line.caret) (sym (length-content e.line v.line_valid)))
      (λ h. move_to-Shows (e.line.caret + 1) e v (ground arith)) (λ _. shown e v)

arrow_up-Shows : (e : Editor) → IsEditor e → Shows (arrow_up e) (older (typing e))
unfolding arrow_up
arrow_up-Shows e v =
    let h = e.history in
    if-Shows (ltb 0 h.count && ltb 0 h.index) (ltb 0 h.index) _ e _ (typing e)
      (ground (arith, v.history_valid.inside)) (λ some_older. up-Shows e v (ground arith))
      (λ _. shown e v)

arrow_down-Shows : (e : Editor) → IsEditor e → Shows (arrow_down e) (newer (typing e))
unfolding arrow_down
arrow_down-Shows e v =
    let h = e.history in
    if-Shows (ltb h.index h.count) (ltb h.index (length (commands h))) _ e _ (typing e)
      (ap (ltb h.index) (sym (length-commands h v.history_valid)))
      (λ some_newer. down-Shows e v (ground arith)) (λ _. shown e v)

type_key-Shows :
    (key : ℕ) (e : Editor) → IsEditor e → Shows (type_key key e) (with_key key (typing e))
unfolding type_key
type_key-Shows key e v =
    if-Shows (leb 0x20 key && ltb key 0x7F && ltb e.line.size line_capacity)
      (leb 0x20 key && ltb key 0x7F && ltb (length (content e.line)) line_capacity) _ e _ (typing e)
      (ap (λ k. leb 0x20 key && ltb key 0x7F && ltb k line_capacity)
        (sym (length-content e.line v.line_valid)))
      (λ h.
        redraw_from-Shows e.line.caret (record e { line = insert_key key e.line }) _
          (insert_key-Shows key e v (ground arith)))
      (λ _. shown e v)

end-Shows :
    (e : Editor)
    → IsEditor e
    → Shows (move_to e.line.size e) (record (typing e) { caret = length (content e.line) })
end-Shows e v =
    subst (λ k. Shows (move_to e.line.size e) (record (typing e) { caret = k }))
      (sym (length-content e.line v.line_valid)) (move_to-Shows e.line.size e v (omega arith))

handle_key-Shows :
    (key : ℕ) (e : Editor) → IsEditor e → Shows (handle_key key e) (press key (typing e))
unfolding handle_key press
handle_key-Shows key e v =
    if-Shows _ _ _ _ _ _ refl (λ _. enter-Shows e v)
      (λ _.
        if-Shows (key == 8) (key == 8) _ _ _ _ refl (λ _. backspace-Shows e v)
          (λ _.
            if-Shows (key == 0x7F) (key == 0x7F) _ _ _ _ refl (λ _. delete_key-Shows e v)
              (λ _.
                if-Shows (key == 0x13) (key == 0x13) _ _ _ _ refl (λ _. arrow_left-Shows e v)
                  (λ _.
                    if-Shows (key == 0x14) (key == 0x14) _ _ _ _ refl (λ _. arrow_right-Shows e v)
                      (λ _.
                        if-Shows (key == 0x15) (key == 0x15) _ _ _ _ refl
                          (λ _. move_to-Shows 0 e v (omega arith))
                          (λ _.
                            if-Shows (key == 0x16) (key == 0x16) _ _ _ _ refl (λ _. end-Shows e v)
                              (λ _.
                                if-Shows (key == 0x11) (key == 0x11) _ _ _ _ refl
                                  (λ _. arrow_up-Shows e v)
                                  (λ _.
                                    if-Shows (key == 0x12) (key == 0x12) _ _ _ _ refl
                                      (λ _. arrow_down-Shows e v)
                                      (λ _. type_key-Shows key e v)))))))))

-- On every line and with every history, handleChar does what the key means while a line is being read: the text, the
-- caret, the commands before and the place among them are those of `press`, and the buffers keep their bounds; at other
-- times, and for the key 0, it does nothing.
pub handle_char-Shows :
    (key : ℕ) (e : Editor)
    → IsEditor e
    → Shows
        (handle_char key e)
        (if (key == 0) || not e.reading_input then typing e else press key (typing e))
unfolding handle_char
handle_char-Shows key e v =
    let same = normalize-same e.line v.line_valid in
    if-Shows ((key == 0) || not e.reading_input) ((key == 0) || not e.reading_input) e _ (typing e)
      _ refl (λ _. shown e v)
      (λ _.
        subst (λ l. Shows (handle_key key (record e { line = l })) (press key (typing e)))
          (sym same) (handle_key-Shows key e v))
