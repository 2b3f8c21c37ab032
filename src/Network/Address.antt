-- ===== src/Network/Address.antt =====
-- formatIp and parseIp of src/libc/network.cpp: an address as a text.
use mr_hak_os.Prelude.{
  ℕ, zero, suc, ◌+◌, ◌-◌, ◌*◌, ◌⊎◌, List, [], ◌∷◌, ◌++◌, Bool, true, false, Option, none, some, inl,
  inr, ◌==◌, if◌then◌else◌, ◌%◌, leb, get_or, ◌/◌, ltb, ◌^◌, length, ◌&&◌, ◌||◌,
}

-- The digits of a byte.
unfoldable pub octet_text : ℕ → List ℕ
octet_text b =
    (if leb 100 b then (b'0' + b / 100) ∷ [] else [])
    ++ ((if leb 10 b then (b'0' + b / 10 % 10) ∷ [] else []) ++ ((b'0' + b % 10) ∷ []))

-- The i-th byte of an address.
abbrev pub octet : ℕ → ℕ → ℕ
octet i ip = ip / 2 ^ (24 - 8 * i) % 256

unfoldable pub ip_text : ℕ → List ℕ
unfolding octet_text
ip_text ip =
    octet_text (octet 0 ip)
    ++ (b'.' ∷ octet_text (octet 1 ip)
        ++ (b'.' ∷ octet_text (octet 2 ip) ++ (b'.' ∷ octet_text (octet 3 ip))))

-- for each c: if (p < outLen - 1) out[p++] = c; the list has p characters.
unfoldable pub write_chars : ℕ → List ℕ → List ℕ → List ℕ
write_chars limit [] out = out
write_chars limit (c ∷ cs) out =
    write_chars limit cs (if ltb (length out) limit then out ++ c ∷ [] else out)

-- What is written to `out`, with the closing 0; nothing when outLen is 0.
unfoldable pub format_ip : ℕ → ℕ → List ℕ
unfolding ip_text write_chars
format_ip ip zero = []
format_ip ip (suc limit) = write_chars limit (ip_text ip) [] ++ 0 ∷ []

-- parts, of which those before `part` are in `parsed` and parts[part] is `current`; haveDigit.
pub record Parts : Type 0 where
  pub parsed : List ℕ
  pub current : ℕ
  pub have_digit : Bool

-- (parts[0] << 24) | (parts[1] << 16) | (parts[2] << 8) | parts[3], of parts below 256
abbrev pub address_of : Parts → ℕ
address_of p =
    get_or p.parsed 0 0 * 2 ^ 24
    + get_or p.parsed 1 0 * 2 ^ 16
    + get_or p.parsed 2 0 * 2 ^ 8
    + p.current

-- One round: the parts to go on with, or the result.
unfoldable pub parse_char : ℕ → Parts → Parts ⊎ Option ℕ
parse_char c p =
    let more = (p.current * 10 + (c - b'0')) % 2 ^ 32 in
    if leb b'0' c && leb c b'9'
    then (if ltb 255 more then inr none else inl (record p { current = more; have_digit = true }))
    else if (c == b'.') && p.have_digit && ltb (length p.parsed) 3
    then inl (record { parsed = p.parsed ++ p.current ∷ []; current = 0; have_digit = false })
    else if ((c == 0) || (c == b' ')) && p.have_digit && (length p.parsed == 3)
    then inr (some (address_of p))
    else inr none

-- What follows the list is read as 0; none is the result false.
unfoldable pub parse_from : List ℕ → Parts → Option ℕ
unfolding parse_char
parse_from [] p = elim (parse_char 0 p) [ inl q ↦ none | inr result ↦ result ]
parse_from (c ∷ text) p = elim (parse_char c p) [ inl q ↦ parse_from text q | inr result ↦ result ]

unfoldable pub parse_ip : List ℕ → Option ℕ
unfolding parse_from
parse_ip text = parse_from text (record { parsed = []; current = 0; have_digit = false })
