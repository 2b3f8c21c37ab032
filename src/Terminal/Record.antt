-- ===== src/Terminal/Record.antt =====
-- The parser of a TLS record in src/libc/terminal.cpp reads no byte behind the length that it is given.
use mr_hak_os.Terminal.{parse_tls_record, parse_body, parse_header, TlsParsedRecord}
use mr_hak_os.Prelude.{
  ℕ, zero, suc, ◌≤◌, ◌<◌, ◌≡◌, ◌∙◌, refl, List, [], ◌∷◌, Bool, true, false, some, inl, inr, arith,
  ◌==◌, if◌then◌else◌, take, get_or, Bool-cases, ltb, ◌&&◌, leb, not, ap,
}

get_or-take : (n i : ℕ) (xs : List ℕ) → i < n → get_or (take n xs) i 0 ≡ get_or xs i 0
get_or-take zero i xs h = absurd (omega arith)
get_or-take (suc n) i [] h = refl
get_or-take (suc n) zero (x ∷ xs) h = refl
get_or-take (suc n) (suc i) (x ∷ xs) h = get_or-take n i xs (omega arith)

header-take :
    (len : ℕ) (bytes : List ℕ) → 5 ≤ len → parse_header (take len bytes) ≡ parse_header bytes
unfolding parse_header
header-take len bytes h =
    let a = get_or-take len 0 bytes (omega arith) in
    let b = get_or-take len 1 bytes (omega arith) in
    let c = get_or-take len 2 bytes (omega arith) in
    let d = get_or-take len 3 bytes (omega arith) in
    let e = get_or-take len 4 bytes (omega arith) in rw (a, b, c, d, e) refl

body-take :
    (len : ℕ) (bytes : List ℕ) (rec : TlsParsedRecord)
    → parse_body (take len bytes) len rec ≡ parse_body bytes len rec
unfolding parse_body
body-take len bytes rec = elim (Bool-cases ((rec.record_type == 0x16) && leb 9 len)) [
  | inl x ↦
      let long : 9 ≤ len = ground arith in
      let a = get_or-take len 5 bytes (omega arith) in
      let b = get_or-take len 6 bytes (omega arith) in
      let c = get_or-take len 7 bytes (omega arith) in
      let d = get_or-take len 8 bytes (omega arith) in rw (x, a, b, c, d) refl
  | inr x ↦ elim (Bool-cases ((rec.record_type == 0x15) && leb 7 len)) [
    | inl y ↦
        let long : 7 ≤ len = ground arith in
        let a = get_or-take len 5 bytes (omega arith) in
        let b = get_or-take len 6 bytes (omega arith) in rw (x, y, a, b) refl
    | inr y ↦ rw (x, y) refl
  ]
]

abbrev checked : TlsParsedRecord → TlsParsedRecord → Bool × TlsParsedRecord
checked head body = if not head.valid_record then (false, head) else (true, body)

-- `parseTlsRecord` looks at the first `len` bytes alone: cut to them, the data gives the same result and the same record,
-- on every branch.
pub parse_tls_record-take :
    (len : ℕ) (bytes : List ℕ)
    → parse_tls_record (some (take len bytes)) len ≡ parse_tls_record (some bytes) len
unfolding parse_tls_record
parse_tls_record-take len bytes = elim (Bool-cases (ltb len 5)) [
  | inl short ↦ rw short refl
  | inr long ↦
      let head = header-take len bytes (ground arith) in
      let body = body-take len bytes (parse_header bytes) in
      rw long (
        ap (λ h. checked h (parse_body (take len bytes) len h)) head
        ∙ ap (checked (parse_header bytes)) body)
]
