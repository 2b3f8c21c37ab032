-- ===== src/Terminal/Edited.antt =====
-- The keys of handleChar in src/libc/terminal.cpp that take a character out, as edits of the text.
use mr_hak_os.Prelude.{
  ℕ, suc, ◌+◌, ◌-◌, ◌<◌, ◌≡◌, ◌∙◌, ◌++◌, arith, drop, take, get_or, length, length-take, dec_lt,
  set, get_or-append_left, length-set, get_or-set_self, length-append, sym, length-drop,
  get_or-set_ne, get_or-append_right, ap, get_or-take, get_or-drop, list_ext,
}
use mr_hak_os.Terminal.Line.{Line, erase, IsLine, content, line_capacity, close_gap}
use mr_hak_os.Terminal.Editing.{length-close_gap, close_gap-below, close_gap-at}

pub length-content : (l : Line) → IsLine l → length (content l) ≡ l.size
length-content l v = omega (arith, length-take l.size l.buffer, v.room, v.short)

-- The text with the character at `at` taken out.
erased-at :
    (l : Line) (at i : ℕ)
    → IsLine l
    → at < l.size
    → i < l.size - 1
    → get_or (take at (content l) ++ drop (suc at) (content l)) i 0
      ≡ get_or (close_gap (l.size - 1 - at) at l.buffer) i 0
erased-at l at i v h k =
    let n = length-content l v in
    let m = length-take at (content l) in
    elim (dec_lt i at) [
      | yes left ↦
          get_or-append_left (take at (content l)) (drop (suc at) (content l)) i 0
            (omega (arith, n, m))
          ∙ get_or-take at i (content l) 0 left
          ∙ get_or-take l.size i l.buffer 0 (omega arith)
          ∙ sym (close_gap-below (l.size - 1 - at) at i l.buffer left)
      | no right ↦
          get_or-append_right (take at (content l)) (drop (suc at) (content l)) i 0
            (omega (arith, n, m))
          ∙ get_or-drop (suc at) (i - length (take at (content l))) (content l) 0
          ∙ ap (λ j. get_or (content l) j 0) (omega (arith, n, m))
          ∙ get_or-take l.size (i + 1) l.buffer 0 (omega arith)
          ∙ sym (
              close_gap-at (l.size - 1 - at) at i l.buffer (omega arith) (omega arith)
                (omega (arith, v.room, v.short)))
    ]

-- The character at a place of the line is taken out, and the rest of the line moves up.
pub erase-content :
    (l : Line) (at : ℕ)
    → IsLine l
    → at < l.size
    → content (erase at l) ≡ take at (content l) ++ drop (suc at) (content l)
unfolding erase
erase-content l at v h =
    let closed = close_gap (l.size - 1 - at) at l.buffer in
    let buffer = set closed (l.size - 1) 0 in
    let size = length-close_gap (l.size - 1 - at) at l.buffer in
    let long = length-set closed (l.size - 1) 0 in
    let total = length-append (take at (content l)) (drop (suc at) (content l)) in
    let n = length-content l v in
    let fill = length-take (l.size - 1) buffer in
    list_ext _ _ 0
      (omega (
        arith,
        total,
        length-take at (content l),
        length-drop (suc at) (content l),
        n,
        fill,
        long,
        size,
        v.room,
        v.short,
      ))
      (λ i k.
        let inside : i < l.size - 1 = omega (arith, fill) in
        get_or-take (l.size - 1) i buffer 0 inside
        ∙ get_or-set_ne closed (l.size - 1) i 0 0 (λ e. omega arith)
        ∙ sym (erased-at l at i v h inside))

pub erase_sound :
    (l : Line) (at : ℕ)
    → IsLine l
    → at < l.size
    → (length (erase at l).buffer ≡ line_capacity + 1)
      × (get_or (erase at l).buffer (l.size - 1) 0 ≡ 0)
unfolding erase
erase_sound l at v h =
    let closed = close_gap (l.size - 1 - at) at l.buffer in
    let size = length-close_gap (l.size - 1 - at) at l.buffer in
    (
      length-set closed (l.size - 1) 0 ∙ size ∙ v.room,
      get_or-set_self closed (l.size - 1) 0 0 (omega (arith, size, v.room, v.short)),
    )
