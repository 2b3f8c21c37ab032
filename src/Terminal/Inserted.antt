-- ===== src/Terminal/Inserted.antt =====
-- A printable key of handleChar in src/libc/terminal.cpp as an edit of the text.
use mr_hak_os.Prelude.{
  ℕ, suc, ◌+◌, ◌-◌, ◌<◌, ◌≡◌, ◌∙◌, ◌∷◌, ◌++◌, inl, arith, get_or, set, take, drop, length-set,
  length-append, get_or-set_self, length-take, dec_lt, length-drop, get_or-append_left, sym,
  get_or-set_ne, get_or-append_right, ap, get_or-take, get_or-drop, list_ext,
}
use mr_hak_os.Terminal.Line.{Line, insert_key, IsLine, line_capacity, open_gap, content}
use mr_hak_os.Terminal.Editing.{length-open_gap, open_gap-outside, open_gap-at}
use mr_hak_os.Terminal.Edited.{length-content}

-- The text with `key` put in at the caret.
inserted-at :
    (l : Line) (key i : ℕ)
    → IsLine l
    → i < l.size + 1
    → l.size < line_capacity
    → get_or (take l.caret (content l) ++ key ∷ drop l.caret (content l)) i 0
      ≡ get_or (set (open_gap (l.size - l.caret) l.caret l.buffer) l.caret key) i 0
inserted-at l key i v k h =
    let n = length-content l v in
    let c = l.caret in
    let left = take c (content l) in
    let right = key ∷ drop c (content l) in
    let m = length-take c (content l) in
    let opened = open_gap (l.size - c) c l.buffer in
    let size = length-open_gap (l.size - c) c l.buffer in
    elim (dec_lt i c) [
      | yes old ↦
          get_or-append_left left right i 0 (omega (arith, n, m, v.inside))
          ∙ get_or-take c i (content l) 0 old
          ∙ get_or-take l.size i l.buffer 0 (omega (arith, v.inside))
          ∙ sym (open_gap-outside (l.size - c) c i l.buffer (inl (omega arith)))
          ∙ sym (get_or-set_ne opened c i key 0 (λ e. omega arith))
      | no late ↦
          get_or-append_right left right i 0 (omega (arith, n, m, v.inside))
          ∙ ap (λ j. get_or right j 0) (omega (arith, n, m, v.inside))
          ∙ elim (dec_lt c i) [
            | yes new ↦
                let j = i - c - 1 in
                let e : i - c ≡ suc j = omega arith in
                ap (λ k. get_or right k 0) e
                ∙ get_or-drop c j (content l) 0
                ∙ get_or-take l.size (c + j) l.buffer 0 (omega arith)
                ∙ sym (
                    open_gap-at (l.size - c) c j l.buffer (omega arith)
                      (omega (arith, v.inside, v.room)))
                ∙ ap (λ k. get_or opened k 0) (omega arith)
                ∙ sym (get_or-set_ne opened c i key 0 (λ e. omega arith))
            | no here ↦
                let e : i ≡ c = omega arith in
                let first : i - c ≡ 0 = omega arith in
                ap (λ k. get_or right k 0) first
                ∙ sym (get_or-set_self opened c key 0 (omega (arith, size, v.room, v.inside)))
                ∙ ap (λ k. get_or (set opened c key) k 0) (sym e)
          ]
    ]

-- The key stands at the caret, and the rest of the line behind it.
pub insert_key-content :
    (l : Line) (key : ℕ)
    → IsLine l
    → l.size < line_capacity
    → content (insert_key key l) ≡ take l.caret (content l) ++ key ∷ drop l.caret (content l)
unfolding insert_key
insert_key-content l key v h =
    let opened = open_gap (l.size - l.caret) l.caret l.buffer in
    let written = set opened l.caret key in
    let buffer = set written (l.size + 1) 0 in
    let size = length-open_gap (l.size - l.caret) l.caret l.buffer in
    let long = length-set opened l.caret key in
    let longer = length-set written (l.size + 1) 0 in
    let total = length-append (take l.caret (content l)) (key ∷ drop l.caret (content l)) in
    let n = length-content l v in
    let fill = length-take (l.size + 1) buffer in
    list_ext _ _ 0
      (omega (
        arith,
        total,
        length-take l.caret (content l),
        length-drop l.caret (content l),
        n,
        fill,
        longer,
        long,
        size,
        v.room,
        v.inside,
      ))
      (λ i k.
        let inside : i < l.size + 1 = omega (arith, fill) in
        get_or-take (l.size + 1) i buffer 0 inside
        ∙ get_or-set_ne written (l.size + 1) i 0 0 (λ e. omega arith)
        ∙ sym (inserted-at l key i v inside h))

pub insert_key-IsLine :
    (l : Line) (key : ℕ) → IsLine l → l.size < line_capacity → IsLine (insert_key key l)
unfolding insert_key
insert_key-IsLine l key v h =
    let opened = open_gap (l.size - l.caret) l.caret l.buffer in
    let written = set opened l.caret key in
    let size = length-open_gap (l.size - l.caret) l.caret l.buffer in
    let long = length-set opened l.caret key in
    record {
      room = length-set written (l.size + 1) 0 ∙ long ∙ size ∙ v.room;
      short = omega arith;
      inside = omega (arith, v.inside);
      ended = get_or-set_self written (l.size + 1) 0 0 (omega (arith, long, size, v.room));
    }
