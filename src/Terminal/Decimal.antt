-- ===== src/Terminal/Decimal.antt =====
-- u32ToDec and parsePort16 of src/libc/terminal.cpp: numbers as texts.
use mr_hak_os.Prelude.{
  ℕ, zero, suc, ◌+◌, ◌-◌, ◌*◌, List, [], ◌∷◌, ◌++◌, Option, none, some, ◌==◌, if◌then◌else◌, get_or,
  ltb, ◌%◌, ◌^◌, ◌/◌, length, ◌||◌,
}

-- while (value > 0 and fewer than n more digits) tmp[i++] = '0' + value % 10, value /= 10; lowest digit first
unfoldable pub dec_digits : ℕ → ℕ → List ℕ
dec_digits zero value = []
dec_digits (suc n) value =
    let rest = (b'0' + value % 10) ∷ dec_digits n (value / 10) in if value == 0 then [] else rest

-- while (i > 0 && p < outLen - 1) out[p++] = tmp[--i]; the list has p characters.
unfoldable pub emit_digits : ℕ → List ℕ → ℕ → List ℕ → List ℕ
emit_digits zero tmp limit out = out
emit_digits (suc i) tmp limit out =
    let rest = emit_digits i tmp limit (out ++ get_or tmp i 0 ∷ []) in
    if ltb (length out) limit then rest else out

-- What is written to `out`, with the closing 0; nothing when outLen is 0.
unfoldable pub u32_to_dec : ℕ → ℕ → List ℕ
unfolding dec_digits emit_digits
u32_to_dec value zero = []
u32_to_dec value (suc limit) =
    let tmp = dec_digits 10 value in
    if value == 0
    then (if ltb 0 limit then b'0' ∷ 0 ∷ [] else 0 ∷ [])
    else emit_digits (length tmp) tmp limit [] ++ 0 ∷ []

-- if (port == 0) return false; *out = port;
abbrev pub nonzero_port : ℕ → Option ℕ
nonzero_port port = if port == 0 then none else some port

-- The loop over the text, and what follows it. What follows the list is read as 0.
unfoldable pub parse_port_from : List ℕ → ℕ → Option ℕ
parse_port_from [] port = nonzero_port port
parse_port_from (c ∷ text) port =
    let next = (port * 10 + (c - b'0')) % 2 ^ 32 in
    let rest = parse_port_from text next in
    if c == 0
    then nonzero_port port
    else if ltb c b'0' || ltb b'9' c
    then none
    else if ltb 65535 next
    then none
    else rest

unfoldable pub parse_port16 : List ℕ → Option ℕ
unfolding parse_port_from
parse_port16 text = if get_or text 0 0 == 0 then none else parse_port_from text 0
