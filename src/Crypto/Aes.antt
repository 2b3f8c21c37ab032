-- ===== src/Crypto/Aes.antt =====
-- AES-128 of src/libc/crypto.cpp, and its streaming counter mode. The exclusive or of two bytes is a byte.
use mr_hak_os.Prelude.{
  ℕ, zero, suc, ◌+◌, ◌-◌, ◌*◌, List, [], ◌∷◌, ◌++◌, Bool, ◌==◌, if◌then◌else◌, get_or, bit_xor,
  bit_or, take, ◌%◌, ◌/◌, set, ◌^◌,
}

unfoldable pub sbox : List ℕ
sbox =
    0x63 ∷ 0x7c ∷ 0x77 ∷ 0x7b ∷ 0xf2 ∷ 0x6b ∷ 0x6f ∷ 0xc5 ∷ 0x30 ∷ 0x01 ∷ 0x67 ∷ 0x2b ∷ 0xfe ∷ 0xd7
    ∷ 0xab ∷ 0x76 ∷ 0xca ∷ 0x82 ∷ 0xc9 ∷ 0x7d ∷ 0xfa ∷ 0x59 ∷ 0x47 ∷ 0xf0 ∷ 0xad ∷ 0xd4 ∷ 0xa2
    ∷ 0xaf ∷ 0x9c ∷ 0xa4 ∷ 0x72 ∷ 0xc0 ∷ 0xb7 ∷ 0xfd ∷ 0x93 ∷ 0x26 ∷ 0x36 ∷ 0x3f ∷ 0xf7 ∷ 0xcc
    ∷ 0x34 ∷ 0xa5 ∷ 0xe5 ∷ 0xf1 ∷ 0x71 ∷ 0xd8 ∷ 0x31 ∷ 0x15 ∷ 0x04 ∷ 0xc7 ∷ 0x23 ∷ 0xc3 ∷ 0x18
    ∷ 0x96 ∷ 0x05 ∷ 0x9a ∷ 0x07 ∷ 0x12 ∷ 0x80 ∷ 0xe2 ∷ 0xeb ∷ 0x27 ∷ 0xb2 ∷ 0x75 ∷ 0x09 ∷ 0x83
    ∷ 0x2c ∷ 0x1a ∷ 0x1b ∷ 0x6e ∷ 0x5a ∷ 0xa0 ∷ 0x52 ∷ 0x3b ∷ 0xd6 ∷ 0xb3 ∷ 0x29 ∷ 0xe3 ∷ 0x2f
    ∷ 0x84 ∷ 0x53 ∷ 0xd1 ∷ 0x00 ∷ 0xed ∷ 0x20 ∷ 0xfc ∷ 0xb1 ∷ 0x5b ∷ 0x6a ∷ 0xcb ∷ 0xbe ∷ 0x39
    ∷ 0x4a ∷ 0x4c ∷ 0x58 ∷ 0xcf ∷ 0xd0 ∷ 0xef ∷ 0xaa ∷ 0xfb ∷ 0x43 ∷ 0x4d ∷ 0x33 ∷ 0x85 ∷ 0x45
    ∷ 0xf9 ∷ 0x02 ∷ 0x7f ∷ 0x50 ∷ 0x3c ∷ 0x9f ∷ 0xa8 ∷ 0x51 ∷ 0xa3 ∷ 0x40 ∷ 0x8f ∷ 0x92 ∷ 0x9d
    ∷ 0x38 ∷ 0xf5 ∷ 0xbc ∷ 0xb6 ∷ 0xda ∷ 0x21 ∷ 0x10 ∷ 0xff ∷ 0xf3 ∷ 0xd2 ∷ 0xcd ∷ 0x0c ∷ 0x13
    ∷ 0xec ∷ 0x5f ∷ 0x97 ∷ 0x44 ∷ 0x17 ∷ 0xc4 ∷ 0xa7 ∷ 0x7e ∷ 0x3d ∷ 0x64 ∷ 0x5d ∷ 0x19 ∷ 0x73
    ∷ 0x60 ∷ 0x81 ∷ 0x4f ∷ 0xdc ∷ 0x22 ∷ 0x2a ∷ 0x90 ∷ 0x88 ∷ 0x46 ∷ 0xee ∷ 0xb8 ∷ 0x14 ∷ 0xde
    ∷ 0x5e ∷ 0x0b ∷ 0xdb ∷ 0xe0 ∷ 0x32 ∷ 0x3a ∷ 0x0a ∷ 0x49 ∷ 0x06 ∷ 0x24 ∷ 0x5c ∷ 0xc2 ∷ 0xd3
    ∷ 0xac ∷ 0x62 ∷ 0x91 ∷ 0x95 ∷ 0xe4 ∷ 0x79 ∷ 0xe7 ∷ 0xc8 ∷ 0x37 ∷ 0x6d ∷ 0x8d ∷ 0xd5 ∷ 0x4e
    ∷ 0xa9 ∷ 0x6c ∷ 0x56 ∷ 0xf4 ∷ 0xea ∷ 0x65 ∷ 0x7a ∷ 0xae ∷ 0x08 ∷ 0xba ∷ 0x78 ∷ 0x25 ∷ 0x2e
    ∷ 0x1c ∷ 0xa6 ∷ 0xb4 ∷ 0xc6 ∷ 0xe8 ∷ 0xdd ∷ 0x74 ∷ 0x1f ∷ 0x4b ∷ 0xbd ∷ 0x8b ∷ 0x8a ∷ 0x70
    ∷ 0x3e ∷ 0xb5 ∷ 0x66 ∷ 0x48 ∷ 0x03 ∷ 0xf6 ∷ 0x0e ∷ 0x61 ∷ 0x35 ∷ 0x57 ∷ 0xb9 ∷ 0x86 ∷ 0xc1
    ∷ 0x1d ∷ 0x9e ∷ 0xe1 ∷ 0xf8 ∷ 0x98 ∷ 0x11 ∷ 0x69 ∷ 0xd9 ∷ 0x8e ∷ 0x94 ∷ 0x9b ∷ 0x1e ∷ 0x87
    ∷ 0xe9 ∷ 0xce ∷ 0x55 ∷ 0x28 ∷ 0xdf ∷ 0x8c ∷ 0xa1 ∷ 0x89 ∷ 0x0d ∷ 0xbf ∷ 0xe6 ∷ 0x42 ∷ 0x68
    ∷ 0x41 ∷ 0x99 ∷ 0x2d ∷ 0x0f ∷ 0xb0 ∷ 0x54 ∷ 0xbb ∷ 0x16 ∷ []

unfoldable pub rcon : List ℕ
rcon = 0x01 ∷ 0x02 ∷ 0x04 ∷ 0x08 ∷ 0x10 ∷ 0x20 ∷ 0x40 ∷ 0x80 ∷ 0x1b ∷ 0x36 ∷ []

abbrev pub substitute : ℕ → ℕ
substitute b = get_or sbox b 0

-- The last four bytes before byte i, with the change at the start of a round key.
unfoldable pub schedule_word : ℕ → List ℕ → List ℕ
unfolding sbox rcon
schedule_word i rk =
    let t0 = get_or rk (i - 4) 0 in
    let t1 = get_or rk (i - 3) 0 in
    let t2 = get_or rk (i - 2) 0 in
    let t3 = get_or rk (i - 1) 0 in
    if i % 16 == 0
    then bit_xor (substitute t1) (get_or rcon (i / 16 - 1) 0)
      ∷ substitute t2
      ∷ substitute t3
      ∷ substitute t0
      ∷ []
    else t0 ∷ t1 ∷ t2 ∷ t3 ∷ []

-- for (i = i; n more rounds; i += 4): rk has the bytes before i.
unfoldable pub expand_key : ℕ → ℕ → List ℕ → List ℕ
unfolding schedule_word
expand_key zero i rk = rk
expand_key (suc n) i rk =
    let t = schedule_word i rk in
    expand_key n (i + 4) (
      rk
      ++ (bit_xor (get_or rk (i - 16) 0) (get_or t 0 0)
          ∷ bit_xor (get_or rk (i - 15) 0) (get_or t 1 0)
          ∷ bit_xor (get_or rk (i - 14) 0) (get_or t 2 0)
          ∷ bit_xor (get_or rk (i - 13) 0) (get_or t 3 0)
          ∷ []))

-- The 176 bytes of the round keys.
unfoldable pub aes128_init : List ℕ → List ℕ
unfolding expand_key
aes128_init key = expand_key 40 16 (take 16 key)

unfoldable pub xtime : ℕ → ℕ
xtime x = bit_xor (x * 2 % 256) (x / 2 ^ 7 * 0x1b)

-- s[i] ^ rk[from + i], for the bytes of s
unfoldable pub add_round_key : List ℕ → ℕ → List ℕ → List ℕ
add_round_key [] from rk = []
add_round_key (b ∷ s) from rk = bit_xor b (get_or rk from 0) ∷ add_round_key s (from + 1) rk

unfoldable pub sub_bytes : List ℕ → List ℕ
unfolding sbox
sub_bytes [] = []
sub_bytes (b ∷ s) = substitute b ∷ sub_bytes s

-- The state is column-major.
unfoldable pub aes_shift_rows : List ℕ → List ℕ
aes_shift_rows s =
    let at = λ (i : ℕ). get_or s i 0 in
    at 0
    ∷ at 5
    ∷ at 10
    ∷ at 15
    ∷ at 4
    ∷ at 9
    ∷ at 14
    ∷ at 3
    ∷ at 8
    ∷ at 13
    ∷ at 2
    ∷ at 7
    ∷ at 12
    ∷ at 1
    ∷ at 6
    ∷ at 11
    ∷ []

-- n more columns, from byte i
unfoldable pub mix_columns : ℕ → ℕ → List ℕ → List ℕ
unfolding xtime
mix_columns zero i s = []
mix_columns (suc n) i s =
    let a0 = get_or s i 0 in
    let a1 = get_or s (i + 1) 0 in
    let a2 = get_or s (i + 2) 0 in
    let a3 = get_or s (i + 3) 0 in
    let h = bit_xor (bit_xor (bit_xor a0 a1) a2) a3 in
    bit_xor (bit_xor a0 h) (xtime (bit_xor a0 a1))
    ∷ bit_xor (bit_xor a1 h) (xtime (bit_xor a1 a2))
    ∷ bit_xor (bit_xor a2 h) (xtime (bit_xor a2 a3))
    ∷ bit_xor (bit_xor a3 h) (xtime (bit_xor a3 a0))
    ∷ mix_columns n (i + 4) s

-- for (round = round; n more rounds; round++)
unfoldable pub aes_rounds : ℕ → ℕ → List ℕ → List ℕ → List ℕ
unfolding add_round_key sub_bytes aes_shift_rows mix_columns
aes_rounds zero round rk s = s
aes_rounds (suc n) round rk s =
    let shifted = aes_shift_rows (sub_bytes s) in
    let mixed = if round == 10 then shifted else mix_columns 4 0 shifted in
    aes_rounds n (round + 1) rk (add_round_key mixed (round * 16) rk)

unfoldable pub aes128_encrypt_block : List ℕ → List ℕ → List ℕ
unfolding add_round_key aes_rounds
aes128_encrypt_block rk input = aes_rounds 10 1 rk (add_round_key (take 16 input) 0 rk)

-- for (i = n - 1; i >= 0; i--) { if (++c[i] != 0) break; }
unfoldable pub ctr_incr_full : ℕ → List ℕ → List ℕ
ctr_incr_full zero c = c
ctr_incr_full (suc i) c =
    let b = (get_or c i 0 + 1) % 256 in
    let carried = ctr_incr_full i (set c i b) in if b == 0 then carried else set c i b

pub record AesCtrState : Type 0 where
  pub round_key : List ℕ
  pub counter : List ℕ
  pub keystream : List ℕ
  pub place : ℕ

unfoldable pub aes128_ctr_init : List ℕ → List ℕ → List ℕ → AesCtrState
unfolding aes128_init
aes128_ctr_init key iv keystream = record {
  round_key = aes128_init key;
  counter = take 16 iv;
  keystream = keystream;
  place = 16;
}

-- if (st->pos == 16)
unfoldable pub refill : AesCtrState → AesCtrState
unfolding aes128_encrypt_block ctr_incr_full
refill st =
    if st.place == 16
    then record st {
      keystream = aes128_encrypt_block st.round_key st.counter;
      counter = ctr_incr_full 16 st.counter;
      place = 0;
    }
    else st

unfoldable pub aes128_ctr_crypt : List ℕ → AesCtrState → List ℕ × AesCtrState
unfolding refill
aes128_ctr_crypt [] st = ([], st)
aes128_ctr_crypt (b ∷ bytes) st =
    let ready = refill st in
    let (out, last) = aes128_ctr_crypt bytes (record ready { place = ready.place + 1 }) in
    (bit_xor b (get_or ready.keystream ready.place 0) ∷ out, last)

-- for each byte: diff |= a[i] ^ b[i];
unfoldable pub differences : ℕ → List ℕ → List ℕ → ℕ
differences diff [] b = diff
differences diff (x ∷ a) [] = differences (bit_or diff (bit_xor x 0)) a []
differences diff (x ∷ a) (y ∷ b) = differences (bit_or diff (bit_xor x y)) a b

-- Both have the same length.
unfoldable pub crypto_equal : List ℕ → List ℕ → Bool
unfolding differences
crypto_equal a b = differences 0 a b == 0
