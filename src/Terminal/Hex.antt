-- ===== src/Terminal/Hex.antt =====
-- u32ToHex and bytesToHexLowerT of src/libc/terminal.cpp. The output buffers are lists; what is written is given back.
use mr_hak_os.Prelude.{
  ℕ, zero, suc, ◌+◌, ◌-◌, ◌*◌, ◌≡◌, ◌∙◌, refl, List, [], ◌∷◌, Option, none, some, inl, inr,
  if◌then◌else◌, ◌/◌, set, ltb, length, ◌^◌, ◌%◌, Bool-cases, length-set,
}

-- TERMINAL_HEX[n] and H[n], for n below 16.
abbrev hex_digit : ℕ → ℕ → ℕ
hex_digit letter n = if ltb n 10 then b'0' + n else letter + (n - 10)

-- for (i = i; n more rounds; i++) out[2 + i] = the digit of that place;
unfoldable pub hex_places : ℕ → ℕ → ℕ → List ℕ → List ℕ
hex_places zero i value out = out
hex_places (suc n) i value out =
    hex_places n (i + 1) value (set out (2 + i) (hex_digit b'A' (value / 2 ^ ((7 - i) * 4) % 16)))

unfoldable pub u32_to_hex : ℕ → Option (List ℕ) → ℕ → Option (List ℕ)
unfolding hex_places
u32_to_hex value none out_len = none
u32_to_hex value (some out) out_len =
    if ltb out_len 11
    then some out
    else some (set (hex_places 8 0 value (set (set out 0 b'0') 1 b'x')) 10 0)

-- The characters of the bytes, and the terminator.
unfoldable pub bytes_to_hex_lower : List ℕ → List ℕ
bytes_to_hex_lower [] = 0 ∷ []
bytes_to_hex_lower (b ∷ bytes) =
    hex_digit b'a' (b / 16) ∷ hex_digit b'a' (b % 16) ∷ bytes_to_hex_lower bytes

length-hex_places : (n i value : ℕ) (out : List ℕ) → length (hex_places n i value out) ≡ length out
unfolding hex_places
length-hex_places zero i value out = refl
length-hex_places (suc n) i value out =
    let digit = hex_digit b'A' (value / 2 ^ ((7 - i) * 4) % 16) in
    length-hex_places n (i + 1) value (set out (2 + i) digit) ∙ length-set out (2 + i) digit

-- The buffer keeps its size.
pub length-u32_to_hex :
    (value out_len : ℕ) (out : List ℕ)
    → (out' : List ℕ) × (u32_to_hex value (some out) out_len ≡ some out')
      × (length out' ≡ length out)
unfolding u32_to_hex
length-u32_to_hex value out_len out = elim (Bool-cases (ltb out_len 11)) [
  | inl short ↦ (out, rw short refl, refl)
  | inr long ↦
      let start = set (set out 0 b'0') 1 b'x' in
      (
        set (hex_places 8 0 value start) 10 0,
        rw long refl,
        length-set (hex_places 8 0 value start) 10 0
            ∙ length-hex_places 8 0 value start
            ∙ length-set (set out 0 b'0') 1 b'x'
            ∙ length-set out 0 b'0',
      )
]
