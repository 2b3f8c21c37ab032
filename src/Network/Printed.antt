-- ===== src/Network/Printed.antt =====
-- formatIp and then parseIp of src/libc/network.cpp.
use mr_hak_os.Prelude.{
  ℕ, zero, suc, ◌+◌, ◌-◌, ◌*◌, ◌≤◌, ◌<◌, ◌≡◌, ◌∙◌, ◌⊎◌, refl, List, [], ◌∷◌, ◌++◌, true, false,
  Option, some, inl, inr, arith, length, sym, append-nil, ltb, length-append, append_assoc, dec_lt,
  leb, ◌&&◌, ◌%◌, ◌^◌, ◌/◌, if-elim, ap,
}
use mr_hak_os.Network.Address.{
  write_chars, octet_text, parse_from, parse_char, Parts, ip_text, parse_ip, format_ip, octet,
}

write_chars-append :
    (limit : ℕ) (cs out : List ℕ)
    → length out + length cs ≤ limit
    → write_chars limit cs out ≡ out ++ cs
unfolding write_chars
write_chars-append limit [] out h = sym (append-nil out)
write_chars-append limit (c ∷ cs) out h =
    let room : ltb (length out) limit ≡ true = ground arith in
    rw room (
      write_chars-append limit cs (out ++ c ∷ []) (omega (arith, length-append out (c ∷ [])))
      ∙ append_assoc out (c ∷ []) cs)

-- One digit.
parse_char-digit :
    (c : ℕ) (p : Parts)
    → c < 10
    → p.current * 10 + c < 256
    → parse_char (b'0' + c) p ≡ inl (record p { current = p.current * 10 + c; have_digit = true })
unfolding parse_char
parse_char-digit c p h small =
    let value : (p.current * 10 + (b'0' + c - b'0')) % 2 ^ 32 ≡ p.current * 10 + c = omega arith in
    let goal : Parts ⊎ Option ℕ → Type 0 =
      λ r. r ≡ inl (record p { current = p.current * 10 + c; have_digit = true }) in
    if-elim goal (leb b'0' (b'0' + c) && leb (b'0' + c) b'9') _ _
      (λ _.
        if-elim goal (ltb 255 ((p.current * 10 + (b'0' + c - b'0')) % 2 ^ 32)) _ _
          (λ big. absurd (ground (arith, value)))
          (λ _. ap (λ v. inl (record p { current = v; have_digit = true })) value))
      (λ other. absurd (ground arith))

parse_from-digit :
    (c : ℕ) (text : List ℕ) (p : Parts)
    → c < 10
    → p.current * 10 + c < 256
    → parse_from ((b'0' + c) ∷ text) p
      ≡ parse_from text (record p { current = p.current * 10 + c; have_digit = true })
unfolding parse_from
parse_from-digit c text p h small =
    ap (λ r. elim r as (λ _. Option ℕ) [ inl q ↦ parse_from text q | inr result ↦ result ])
      (parse_char-digit c p h small)

-- The parts when a value has been read.
abbrev at_value : List ℕ → ℕ → Parts
at_value p v = record { parsed = p; current = v; have_digit = true }

-- The digits of a byte give its value.
parse_from-octet :
    (b : ℕ) (text : List ℕ) (p : List ℕ)
    → b < 256
    → parse_from (octet_text b ++ text) (record { parsed = p; current = 0; have_digit = false })
      ≡ parse_from text (at_value p b)
unfolding octet_text
parse_from-octet b text p h =
    let start : Parts = record { parsed = p; current = 0; have_digit = false } in
    let ones = b % 10 in
    let tens = b / 10 % 10 in
    let hundreds = b / 100 in
    elim (dec_lt b 10) [
      | yes one ↦
          let no_100 : leb 100 b ≡ false = ground arith in
          let no_10 : leb 10 b ≡ false = ground arith in
          rw (no_100, no_10)
            (parse_from-digit ones text start (omega arith) (omega arith)
              ∙ ap (λ v. parse_from text (at_value p v)) (omega arith))
      | no more ↦ elim (dec_lt b 100) [
        | yes two ↦
            let no_100 : leb 100 b ≡ false = ground arith in
            let is_10 : leb 10 b ≡ true = ground arith in
            rw (no_100, is_10)
              (parse_from-digit tens ((b'0' + ones) ∷ text) start (omega arith) (omega arith)
                ∙ parse_from-digit ones text (at_value p (0 * 10 + tens)) (omega arith)
                    (omega arith)
                ∙ ap (λ v. parse_from text (at_value p v)) (omega arith))
        | no three ↦
            let is_100 : leb 100 b ≡ true = ground arith in
            let is_10 : leb 10 b ≡ true = ground arith in
            rw (is_100, is_10)
              (parse_from-digit hundreds ((b'0' + tens) ∷ (b'0' + ones) ∷ text) start (omega arith)
                  (omega arith)
                ∙ parse_from-digit tens ((b'0' + ones) ∷ text) (at_value p (0 * 10 + hundreds))
                    (omega arith) (omega arith)
                ∙ parse_from-digit ones text (at_value p ((0 * 10 + hundreds) * 10 + tens))
                    (omega arith) (omega arith)
                ∙ ap (λ v. parse_from text (at_value p v)) (omega arith))
      ]
    ]

-- A dot ends a part.
parse_char-dot :
    (b : ℕ) (p : List ℕ)
    → length p < 3
    → parse_char b'.' (at_value p b)
      ≡ inl (record { parsed = p ++ b ∷ []; current = 0; have_digit = false })
unfolding parse_char
parse_char-dot b p h = let room : ltb (length p) 3 ≡ true = ground arith in rw room refl

-- A byte, a dot and the rest.
parse_from-part :
    (b : ℕ) (rest ends p : List ℕ)
    → b < 256
    → length p < 3
    → parse_from
        ((octet_text b ++ b'.' ∷ rest) ++ ends)
        (record { parsed = p; current = 0; have_digit = false })
      ≡ parse_from (rest ++ ends) (record { parsed = p ++ b ∷ []; current = 0; have_digit = false })
unfolding parse_from
parse_from-part b rest ends p h room =
    ap (λ x. parse_from x (record { parsed = p; current = 0; have_digit = false }))
      (append_assoc (octet_text b) (b'.' ∷ rest) ends)
    ∙ parse_from-octet b (b'.' ∷ rest ++ ends) p h
    ∙ ap
        (λ r. elim r as (λ _. Option ℕ) [
          | inl q ↦ parse_from (rest ++ ends) q
          | inr result ↦ result
        ])
        (parse_char-dot b p room)

-- The end of the text.
ends-at_value :
    (ip : ℕ)
    → ip < 2 ^ 32
    → parse_from (0 ∷ []) (at_value (octet 0 ip ∷ octet 1 ip ∷ octet 2 ip ∷ []) (octet 3 ip))
      ≡ some ip
unfolding parse_from parse_char
ends-at_value ip h = ap some (omega arith)

length-octet_text : (b : ℕ) → length (octet_text b) ≤ 3
unfolding octet_text
length-octet_text b = ground arith

length-ip_text : (ip : ℕ) → length (ip_text ip) ≤ 15
unfolding ip_text
length-ip_text ip =
    let t0 = octet_text (octet 0 ip) in
    let t1 = octet_text (octet 1 ip) in
    let t2 = octet_text (octet 2 ip) in
    let t3 = octet_text (octet 3 ip) in
    omega (
      arith,
      length-append t0 (b'.' ∷ t1 ++ (b'.' ∷ t2 ++ (b'.' ∷ t3))),
      length-append t1 (b'.' ∷ t2 ++ (b'.' ∷ t3)),
      length-append t2 (b'.' ∷ t3),
      length-octet_text (octet 0 ip),
      length-octet_text (octet 1 ip),
      length-octet_text (octet 2 ip),
      length-octet_text (octet 3 ip),
    )

parse_from-ip_text :
    (ip : ℕ)
    → ip < 2 ^ 32
    → parse_from (ip_text ip ++ 0 ∷ []) (record { parsed = []; current = 0; have_digit = false })
      ≡ some ip
unfolding ip_text
parse_from-ip_text ip h =
    let t1 = octet_text (octet 1 ip) in
    let t2 = octet_text (octet 2 ip) in
    let t3 = octet_text (octet 3 ip) in
    parse_from-part (octet 0 ip) (t1 ++ (b'.' ∷ t2 ++ (b'.' ∷ t3))) (0 ∷ []) [] (omega arith)
      (omega arith)
    ∙ parse_from-part (octet 1 ip) (t2 ++ (b'.' ∷ t3)) (0 ∷ []) (octet 0 ip ∷ []) (omega arith)
        (omega arith)
    ∙ parse_from-part (octet 2 ip) t3 (0 ∷ []) (octet 0 ip ∷ octet 1 ip ∷ []) (omega arith)
        (omega arith)
    ∙ parse_from-octet (octet 3 ip) (0 ∷ []) (octet 0 ip ∷ octet 1 ip ∷ octet 2 ip ∷ [])
        (omega arith)
    ∙ ends-at_value ip h

-- What formatIp prints into 16 bytes or more, parseIp reads: the address comes back.
pub parse_ip-format_ip :
    (ip size : ℕ) → ip < 2 ^ 32 → 16 ≤ size → parse_ip (format_ip ip size) ≡ some ip
unfolding parse_ip format_ip
parse_ip-format_ip ip zero h r = absurd (omega arith)
parse_ip-format_ip ip (suc limit) h r =
    ap (λ x. parse_from (x ++ 0 ∷ []) (record { parsed = []; current = 0; have_digit = false }))
      (write_chars-append limit (ip_text ip) [] (omega (arith, length-ip_text ip)))
    ∙ parse_from-ip_text ip h
