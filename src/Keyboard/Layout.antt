-- ===== src/Keyboard/Layout.antt =====
-- The US keyboard and its special keys, described apart from the tables of src/libc/interrupts.cpp, and what
-- processKeyboardScancode makes of a scancode.
use mr_hak_os.Keyboard.{Keyboard, process_scancode, special_key, table_key}
use mr_hak_os.Keyboard.Queue.{IsRing, waiting, push}
use mr_hak_os.Keyboard.Decode.{process_scancode-push, process_scancode_flags, table_decoded}
use mr_hak_os.Keyboard.Tables.{scancode_to_ascii, scancode_to_ascii_shifted}
use mr_hak_os.Prelude.{
  sym, ℕ, zero, suc, ◌+◌, ◌-◌, ◌<◌, ◌≡◌, ◌∙◌, refl, List, [], ◌∷◌, Bool, true, false, inl, inr,
  arith, ◌==◌, if◌then◌else◌, ◌&&◌, ◌||◌, leb, ltb, length, get_or, not, ap, Bool-cases, ==_iff,
  dec_lt,
}

-- Neighbouring keys: the scancode of the first one, and what is printed on them, without and with shift.
record Row : Type 0 where
  first : ℕ
  plain : List ℕ
  shifted : List ℕ

abbrev rows : List Row
rows =
    record {
      first = 0x02;
      plain =
          b'1' ∷ b'2' ∷ b'3' ∷ b'4' ∷ b'5' ∷ b'6' ∷ b'7' ∷ b'8' ∷ b'9' ∷ b'0' ∷ b'-' ∷ b'=' ∷ [];
      shifted =
          b'!' ∷ b'@' ∷ b'#' ∷ b'$' ∷ b'%' ∷ b'^' ∷ b'&' ∷ b'*' ∷ b'(' ∷ b')' ∷ b'_' ∷ b'+' ∷ [];
    }
    ∷ record {
      first = 0x10;
      plain =
          b'q' ∷ b'w' ∷ b'e' ∷ b'r' ∷ b't' ∷ b'y' ∷ b'u' ∷ b'i' ∷ b'o' ∷ b'p' ∷ b'[' ∷ b']' ∷ [];
      shifted =
          b'Q' ∷ b'W' ∷ b'E' ∷ b'R' ∷ b'T' ∷ b'Y' ∷ b'U' ∷ b'I' ∷ b'O' ∷ b'P' ∷ b'{' ∷ b'}' ∷ [];
    }
    ∷ record {
      first = 0x1E;
      plain = b'a' ∷ b's' ∷ b'd' ∷ b'f' ∷ b'g' ∷ b'h' ∷ b'j' ∷ b'k' ∷ b'l' ∷ b';' ∷ 39 ∷ b'`' ∷ [];
      shifted =
          b'A' ∷ b'S' ∷ b'D' ∷ b'F' ∷ b'G' ∷ b'H' ∷ b'J' ∷ b'K' ∷ b'L' ∷ b':' ∷ 34 ∷ b'~' ∷ [];
    }
    ∷ record {
      first = 0x2B;
      plain = 92 ∷ b'z' ∷ b'x' ∷ b'c' ∷ b'v' ∷ b'b' ∷ b'n' ∷ b'm' ∷ b',' ∷ b'.' ∷ b'/' ∷ [];
      shifted = b'|' ∷ b'Z' ∷ b'X' ∷ b'C' ∷ b'V' ∷ b'B' ∷ b'N' ∷ b'M' ∷ b'<' ∷ b'>' ∷ b'?' ∷ [];
    }
    ∷ []

-- Backspace, tabulator, enter, space, and the keys of the number pad: the same with shift.
abbrev single_keys : List (ℕ × ℕ)
single_keys =
    (0x0E, 8)
    ∷ (0x0F, 9)
    ∷ (0x1C, 10)
    ∷ (0x39, b' ')
    ∷ (0x37, b'*')
    ∷ (0x4A, b'-')
    ∷ (0x4E, b'+')
    ∷ []

abbrev key_up : ℕ
key_up = 0x11

abbrev key_down : ℕ
key_down = 0x12

abbrev key_left : ℕ
key_left = 0x13

abbrev key_right : ℕ
key_right = 0x14

abbrev key_home : ℕ
key_home = 0x15

abbrev key_end : ℕ
key_end = 0x16

abbrev key_page_up : ℕ
key_page_up = 0x17

abbrev key_page_down : ℕ
key_page_down = 0x18

abbrev key_delete : ℕ
key_delete = 0x7F

-- The keys between the letters and the number pad, by their place on it.
abbrev extended_keys : List (ℕ × ℕ)
extended_keys =
    (0x47, key_home)
    ∷ (0x48, key_up)
    ∷ (0x49, key_page_up)
    ∷ (0x4B, key_left)
    ∷ (0x4D, key_right)
    ∷ (0x4F, key_end)
    ∷ (0x50, key_down)
    ∷ (0x51, key_page_down)
    ∷ (0x53, key_delete)
    ∷ []

abbrev assigned : List (ℕ × ℕ) → ℕ → ℕ
assigned [] scancode = 0
assigned ((s, key) ∷ keys) scancode = if scancode == s then key else assigned keys scancode

abbrev printed_in : List Row → Bool → ℕ → ℕ
printed_in [] shift scancode = assigned single_keys scancode
printed_in (r ∷ rs) shift scancode =
    if leb r.first scancode && ltb scancode (r.first + length r.plain)
    then get_or (if shift then r.shifted else r.plain) (scancode - r.first) 0
    else printed_in rs shift scancode

-- The key that a scancode means; 0 stands for none. A byte from 0x80 on is a release or a prefix.
unfoldable pub decoded : ℕ → Bool → Bool → ℕ
decoded scancode extended shift =
    if leb 0x80 scancode
    then 0
    else if extended
    then assigned extended_keys scancode
    else printed_in rows shift scancode

abbrev agree : ℕ → (ℕ → ℕ) → (ℕ → ℕ) → Bool
agree zero f g = true
agree (suc n) f g = (f n == g n) && agree n f g

agree-at : (n i : ℕ) (f g : ℕ → ℕ) → agree n f g ≡ true → i < n → f i ≡ g i
agree-at zero i f g e h = absurd (omega arith)
agree-at (suc n) i f g e h = elim (dec_lt i n) [
  | yes below ↦ agree-at n i f g (ground arith) below
  | no top ↦
      let here : i ≡ n = omega arith in
      let at : f n ≡ g n = (==_iff (f n) (g n)).0 (ground arith) in ap f here ∙ at ∙ ap g (sym here)
]

-- The tables and the switch of the code, at every scancode below 0x80.
extended-agrees :
    (scancode : ℕ) → scancode < 0x80 → special_key scancode ≡ assigned extended_keys scancode
unfolding special_key
extended-agrees scancode h = agree-at 0x80 scancode special_key (assigned extended_keys) refl h

table-agrees :
    (scancode : ℕ) (k : Keyboard)
    → scancode < 0x80
    → table_key scancode k ≡ printed_in rows k.shift_pressed scancode
unfolding table_key
table-agrees scancode k h = elim (Bool-cases k.shift_pressed) [
  | inl e ↦
      rw e
        (agree-at 0x80 scancode (get_or_in scancode_to_ascii_shifted) (printed_in rows true) refl h)
  | inr e ↦
      rw e (agree-at 0x80 scancode (get_or_in scancode_to_ascii) (printed_in rows false) refl h)
]
  where
    get_or_in : List ℕ → ℕ → ℕ
    get_or_in table i = get_or table i 0

decoded-agrees :
    (scancode : ℕ) (k : Keyboard)
    → table_decoded scancode k ≡ decoded scancode k.extended_scancode k.shift_pressed
unfolding table_decoded decoded
decoded-agrees scancode k = elim (Bool-cases (leb 0x80 scancode)) [
  | inl e ↦ rw e refl
  | inr e ↦
      let low : scancode < 0x80 = ground arith in
      rw (e, extended-agrees scancode low, table-agrees scancode k low) refl
]

-- The keys of the queue after a scancode are those before it with the key pushed behind them, if there is one, that the
-- US keyboard has at the scancode, behind a prefix one of its special keys; the ring stays intact, and the result
-- tells whether the scancode stood for a key. The prefix flag is up exactly behind a prefix byte, and the shift flag
-- follows the press and the release of the two shift keys, but for a byte behind a prefix.
pub process_scancode_lem :
    (scancode : ℕ) (k : Keyboard)
    → IsRing k
    → let after = (process_scancode scancode k).1 in
      let key = decoded scancode k.extended_scancode k.shift_pressed in
      IsRing after
      × (waiting after ≡ push key (waiting k))
      × ((process_scancode scancode k).0 ≡ not (key == 0))
      × (after.extended_scancode ≡ (scancode == 0xE0 || scancode == 0xE1))
      × (after.shift_pressed ≡ (
          if k.extended_scancode
          then k.shift_pressed
          else if scancode == 0x2A || scancode == 0x36
          then true
          else if scancode == 0xAA || scancode == 0xB6
          then false
          else k.shift_pressed))
process_scancode_lem scancode k v =
    let (ring, keys, told) = process_scancode-push scancode k v in
    let same = decoded-agrees scancode k in
    let (prefix, shift) = process_scancode_flags scancode k in
    (
      ring,
      keys ∙ ap (λ key. push key (waiting k)) same,
      told ∙ ap (λ key. not (key == 0)) same,
      prefix,
      shift,
    )
