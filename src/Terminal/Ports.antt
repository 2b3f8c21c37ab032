-- ===== src/Terminal/Ports.antt =====
-- u32ToDec and then parsePort16 of src/libc/terminal.cpp.
use mr_hak_os.Prelude.{
  ℕ, zero, suc, ◌+◌, ◌-◌, ◌*◌, ◌≤◌, ◌<◌, ◌≡◌, ◌∙◌, refl, List, [], ◌∷◌, ◌++◌, true, false, Option,
  none, some, arith, ◌==◌, if◌then◌else◌, ◌/◌, length, ltb, if-elim, get_or, length-append, ap, ◌%◌,
  sym, ◌^◌, append_assoc, ◌||◌,
}
use mr_hak_os.Terminal.Decimal.{parse_port_from, emit_digits, dec_digits, parse_port16, u32_to_dec}

-- `n` digits are enough for the value.
abbrev HasDigits : ℕ → ℕ → Type 0
HasDigits zero value = value ≡ 0
HasDigits (suc n) value = HasDigits n (value / 10)

-- The lowest digit is written last.
emit_digits-last :
    (k : ℕ) (d : ℕ) (ds out : List ℕ) (limit : ℕ)
    → length out + suc k ≤ limit
    → emit_digits (suc k) (d ∷ ds) limit out ≡ emit_digits k ds limit out ++ d ∷ []
unfolding emit_digits
emit_digits-last zero d ds out limit h =
    let room : ltb (length out) limit ≡ true = ground arith in rw room refl
emit_digits-last (suc k) d ds out limit h =
    let room : ltb (length out) limit ≡ true = ground arith in
    let c = get_or ds k 0 in
    if-elim (λ r. r ≡ emit_digits (suc k) ds limit out ++ d ∷ []) (ltb (length out) limit) _ out
      (λ _.
        emit_digits-last k d ds (out ++ c ∷ []) limit (omega (arith, length-append out (c ∷ [])))
        ∙ sym
            (ap (λ b. (if b then emit_digits k ds limit (out ++ c ∷ []) else out) ++ d ∷ []) room))
      (λ full. absurd (ground arith))

length-dec_digits : (n value : ℕ) → length (dec_digits n value) ≤ n
unfolding dec_digits
length-dec_digits zero value = omega arith
length-dec_digits (suc n) value =
    if-elim (λ r. length r ≤ suc n) (value == 0) [] _ (λ _. omega arith)
      (λ _. omega (arith, length-dec_digits n (value / 10)))

-- One digit more.
parse_port_from-digit :
    (d port : ℕ) (text : List ℕ)
    → d < 10
    → port * 10 + d < 65536
    → parse_port_from ((b'0' + d) ∷ text) port ≡ parse_port_from text (port * 10 + d)
unfolding parse_port_from
parse_port_from-digit d port text h small =
    let value : (port * 10 + (b'0' + d - b'0')) % 2 ^ 32 ≡ port * 10 + d = omega arith in
    let next = (port * 10 + (b'0' + d - b'0')) % 2 ^ 32 in
    let goal : Option ℕ → Type 0 = λ r. r ≡ parse_port_from text (port * 10 + d) in
    if-elim goal (b'0' + d == 0) _ _ (λ zero_char. absurd (ground arith))
      (λ _.
        if-elim goal (ltb (b'0' + d) b'0' || ltb b'9' (b'0' + d)) _ _
          (λ other. absurd (ground arith))
          (λ _.
            if-elim goal (ltb 65535 next) _ _ (λ large. absurd (ground arith))
              (λ _. ap (parse_port_from text) value)))

-- The printed digits of a value, then the rest.
parse_port_from-dec_digits :
    (n value limit : ℕ) (text : List ℕ)
    → HasDigits n value
    → value < 65536
    → n ≤ limit
    → parse_port_from
        (emit_digits (length (dec_digits n value)) (dec_digits n value) limit [] ++ text)
        0
      ≡ parse_port_from text value
unfolding dec_digits emit_digits
parse_port_from-dec_digits zero value limit text e h r = ap (parse_port_from text) (sym e)
parse_port_from-dec_digits (suc n) value limit text e h r =
    let d = b'0' + value % 10 in
    let ds = dec_digits n (value / 10) in
    let goal : List ℕ → Type 0 = λ tmp.
      parse_port_from (emit_digits (length tmp) tmp limit [] ++ text) 0
      ≡ parse_port_from text value in
    if-elim goal (value == 0) [] (d ∷ ds)
      (λ none_left. let nothing : 0 ≡ value = ground arith in ap (parse_port_from text) nothing)
      (λ _.
        ap (λ x. parse_port_from (x ++ text) 0)
          (emit_digits-last (length ds) d ds [] limit
            (omega (arith, length-dec_digits n (value / 10))))
        ∙ ap (λ x. parse_port_from x 0)
            (append_assoc (emit_digits (length ds) ds limit []) (d ∷ []) text)
        ∙ parse_port_from-dec_digits n (value / 10) limit (d ∷ text) e (omega arith) (omega arith)
        ∙ parse_port_from-digit (value % 10) (value / 10) text (omega arith) (omega arith)
        ∙ ap (parse_port_from text) (omega arith))

-- A blank text is no port.
blank-none : (text : List ℕ) → (get_or text 0 0 == 0) ≡ true → parse_port_from text 0 ≡ none
unfolding parse_port_from
blank-none [] z = refl
blank-none (c ∷ text) z = rw z refl

u32_to_dec-more :
    (value limit : ℕ)
    → 0 < value
    → u32_to_dec value (suc limit)
      ≡ emit_digits (length (dec_digits 10 value)) (dec_digits 10 value) limit [] ++ 0 ∷ []
unfolding u32_to_dec
u32_to_dec-more value limit p =
    let tmp = dec_digits 10 value in
    let written = emit_digits (length tmp) tmp limit [] ++ 0 ∷ [] in
    if-elim (λ r. r ≡ written) (value == 0) (if ltb 0 limit then b'0' ∷ 0 ∷ [] else 0 ∷ []) written
      (λ nothing. absurd (ground arith)) (λ _. refl)

ends-port : (port : ℕ) → 0 < port → parse_port_from (0 ∷ []) port ≡ some port
unfolding parse_port_from
ends-port port p = let more : (port == 0) ≡ false = ground arith in rw more refl

read-port :
    (port limit : ℕ)
    → 0 < port
    → port < 65536
    → 10 ≤ limit
    → parse_port_from (u32_to_dec port (suc limit)) 0 ≡ some port
read-port port limit p h r =
    ap (λ x. parse_port_from x 0) (u32_to_dec-more port limit p)
    ∙ parse_port_from-dec_digits 10 port limit (0 ∷ []) (omega arith) h r
    ∙ ends-port port p

-- A port that u32ToDec prints into 11 bytes or more is read back by parsePort16.
pub parse_port16-u32_to_dec :
    (port size : ℕ)
    → 0 < port
    → port < 65536
    → 11 ≤ size
    → parse_port16 (u32_to_dec port size) ≡ some port
unfolding parse_port16
parse_port16-u32_to_dec port zero p h r = absurd (omega arith)
parse_port16-u32_to_dec port (suc limit) p h r =
    let text = u32_to_dec port (suc limit) in
    let read = read-port port limit p h (omega arith) in
    if-elim (λ q. q ≡ some port) (get_or text 0 0 == 0) none (parse_port_from text 0)
      (λ blank. sym (blank-none text blank) ∙ read) (λ _. read)
