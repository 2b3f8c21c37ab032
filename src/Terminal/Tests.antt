-- ===== src/Terminal/Tests.antt =====
-- A TLS record and a search on concrete bytes.
use mr_hak_os.Terminal.{parse_tls_record, text_contains}
use mr_hak_os.Prelude.{
  ℕ, ◌≡◌, refl, List, [], ◌∷◌, ◌++◌, true, some, arith, take, replicate, zero, suc, ◌+◌, ◌≤◌, ◌<◌,
  ◌∙◌, false, ◌==◌, if◌then◌else◌, get_or, length-append, length-replicate, ap, subst, ◌||◌, not,
  sym,
}
use mr_hak_os.Terminal.Record.{parse_tls_record-take}
use mr_hak_os.Terminal.Contains.{text_contains-append}
use mr_hak_os.Terminal.Hex.{bytes_to_hex_lower, u32_to_hex, hex_places}
use mr_hak_os.Terminal.Editor.{Editor, History, handle_char, history_add}
use mr_hak_os.Terminal.Typing.{Shows, press, typing, edited}
use mr_hak_os.CString.{strlen}
use mr_hak_os.Terminal.Line.{IsLine, Line, line_capacity}
use mr_hak_os.Terminal.Remembered.{Grown, history_add-Grown}
use mr_hak_os.Terminal.Commands.{IsHistory, IsRow}
use mr_hak_os.CString.Text.{text}
use mr_hak_os.Terminal.Pressed.{handle_char-Shows}
use mr_hak_os.Terminal.Decimal.{parse_port16, u32_to_dec}
use mr_hak_os.Terminal.Ports.{parse_port16-u32_to_dec}

abbrev alert : List ℕ
alert = 0x15 ∷ 3 ∷ 3 ∷ 0 ∷ 2 ∷ 2 ∷ 40 ∷ 99 ∷ []

parse_tls_record-take_example :
    parse_tls_record (some (take 7 alert)) 7 ≡ parse_tls_record (some alert) 7
parse_tls_record-take_example = parse_tls_record-take 7 alert

text_contains-append_example :
    text_contains
      (some ((b'a' ∷ []) ++ ((b'b' ∷ b'c' ∷ []) ++ (b'd' ∷ []))))
      (some (b'b' ∷ b'c' ∷ []))
    ≡ true
text_contains-append_example =
    text_contains-append (b'a' ∷ []) (b'b' ∷ b'c' ∷ []) (b'd' ∷ [])
      ((λ e. absurd (omega arith)), tt) refl

hex_of_word :
    u32_to_hex 0x1F2E (some (replicate 11 7)) 11
    ≡ some (b'0' ∷ b'x' ∷ b'0' ∷ b'0' ∷ b'0' ∷ b'0' ∷ b'1' ∷ b'F' ∷ b'2' ∷ b'E' ∷ 0 ∷ [])
unfolding u32_to_hex hex_places
hex_of_word = refl

hex_of_bytes : bytes_to_hex_lower (0x0A ∷ 0xF1 ∷ []) ≡ b'0' ∷ b'a' ∷ b'f' ∷ b'1' ∷ 0 ∷ []
unfolding bytes_to_hex_lower
hex_of_bytes = refl

abbrev new_history : History
new_history = record { rows = replicate 16 (replicate 256 0); count = 0; index = 0 }

get_or-replicate : (n r : ℕ) (row : List ℕ) → r < n → get_or (replicate n row) r [] ≡ row
get_or-replicate zero r row h = absurd (omega arith)
get_or-replicate (suc n) zero row h = refl
get_or-replicate (suc n) (suc r) row h = get_or-replicate n r row (omega arith)

zero-IsRow : IsRow (replicate 256 0)
unfolding strlen
zero-IsRow = record { room = length-replicate {A = ℕ} 256 0; ended = omega arith }

new-IsHistory : IsHistory new_history
new-IsHistory = record {
  rows_valid = (
    length-replicate {A = List ℕ} 16 (replicate 256 0),
    λ r h. subst IsRow (sym (get_or-replicate 16 r (replicate 256 0) h)) zero-IsRow,
  );
  short = omega arith;
  inside = omega arith;
}

abbrev ls : List ℕ
ls = b'l' ∷ b's' ∷ []

-- "ls", with the caret before the s.
abbrev some_line : Line
some_line = record { buffer = ls ++ replicate 254 0; size = 2; caret = 1 }

abbrev editor : Editor
editor = record {
  vga = record {
    vga_buffer = replicate 2000 0;
    fb_cells = replicate 2000 0;
    x = 18;
    y = 3;
    color = 0x0F;
    cursor_enabled = true;
    use_fb = false;
    fb_pitch = 0;
    fb_width = 0;
    fb_height = 0;
    fb_bpp = 0;
    log = [];
  };
  line = some_line;
  start_x = 17;
  start_y = 3;
  reading_input = true;
  command_ready = false;
  history = new_history;
}

some-IsLine : IsLine some_line
some-IsLine = record {
  room = length-append ls (replicate 254 0) ∙ ap (λ n. 2 + n) (length-replicate {A = ℕ} 254 0);
  short = omega arith;
  inside = omega arith;
  ended = refl;
}

handle_char-Shows_example :
    Shows
      (handle_char b'x' editor)
      (if (b'x' == 0) || not true then typing editor else press b'x' (typing editor))
handle_char-Shows_example =
    handle_char-Shows b'x' editor
      (record { line_valid = some-IsLine; history_valid = new-IsHistory })

-- The text becomes "lxs", with the caret behind the x.
typed_x : press b'x' (typing editor) ≡ edited (b'l' ∷ b'x' ∷ b's' ∷ []) 2 (typing editor)
unfolding press
typed_x = refl

ls-short : strlen ls ≤ line_capacity
unfolding strlen
ls-short = omega arith

history_add-Grown_example : Grown (text ls) new_history (history_add ls new_history)
history_add-Grown_example = history_add-Grown ls new_history new-IsHistory ls-short

parse_port16-u32_to_dec_example : parse_port16 (u32_to_dec 9050 16) ≡ some 9050
parse_port16-u32_to_dec_example =
    parse_port16-u32_to_dec 9050 16 (omega arith) (omega arith) (omega arith)
