-- ===== src/Crypto/Words.antt =====
-- The words of src/libc/crypto.cpp: rotations, the functions of SHA-256 on 32-bit words, and big-endian bytes.
use mr_hak_os.Prelude.{
  ℕ, zero, suc, ◌+◌, ◌-◌, ◌*◌, ◌<◌, ◌≡◌, List, [], ◌∷◌, ◌++◌, arith, bit_xor, set, ◌/◌, ◌^◌, get_or,
  bit_or, ◌%◌, bit_and,
}

unfoldable pub rotr32 : ℕ → ℕ → ℕ
rotr32 x n = bit_or (x / 2 ^ n) (x * 2 ^ (32 - n) % 2 ^ 32)

unfoldable pub rotl32 : ℕ → ℕ → ℕ
rotl32 x n = bit_or (x * 2 ^ n % 2 ^ 32) (x / 2 ^ (32 - n))

-- ~x on a 32-bit word
abbrev pub not32 : ℕ → ℕ
not32 x = 0xFFFFFFFF - x

unfoldable pub ch32 : ℕ → ℕ → ℕ → ℕ
ch32 x y z = bit_xor (bit_and x y) (bit_and (not32 x) z)

unfoldable pub maj32 : ℕ → ℕ → ℕ → ℕ
maj32 x y z = bit_xor (bit_xor (bit_and x y) (bit_and x z)) (bit_and y z)

unfoldable pub bsig0 : ℕ → ℕ
unfolding rotr32
bsig0 x = bit_xor (bit_xor (rotr32 x 2) (rotr32 x 13)) (rotr32 x 22)

unfoldable pub bsig1 : ℕ → ℕ
unfolding rotr32
bsig1 x = bit_xor (bit_xor (rotr32 x 6) (rotr32 x 11)) (rotr32 x 25)

unfoldable pub ssig0 : ℕ → ℕ
unfolding rotr32
ssig0 x = bit_xor (bit_xor (rotr32 x 7) (rotr32 x 18)) (x / 2 ^ 3)

unfoldable pub ssig1 : ℕ → ℕ
unfolding rotr32
ssig1 x = bit_xor (bit_xor (rotr32 x 17) (rotr32 x 19)) (x / 2 ^ 10)

-- The word at the bytes i .. i + 3; the bytes do not overlap.
unfoldable pub rdbe32 : List ℕ → ℕ → ℕ
rdbe32 p i =
    get_or p i 0 * 2 ^ 24
    + get_or p (i + 1) 0 * 2 ^ 16
    + get_or p (i + 2) 0 * 2 ^ 8
    + get_or p (i + 3) 0

unfoldable pub wrbe32 : ℕ → List ℕ
wrbe32 v = v / 2 ^ 24 % 256 ∷ v / 2 ^ 16 % 256 ∷ v / 2 ^ 8 % 256 ∷ v % 256 ∷ []

-- for (i = i; n more rounds; i++) p[at + i] = (uint8_t)(v >> (56 - i * 8));
unfoldable pub wrbe64 : ℕ → ℕ → ℕ → ℕ → List ℕ → List ℕ
wrbe64 zero i at v p = p
wrbe64 (suc n) i at v p = wrbe64 n (i + 1) at v (set p (at + i) (v / 2 ^ (56 - i * 8) % 256))

-- for (i = i; n more rounds; i++) w[i] = rdbe32(block + i * 4);
unfoldable pub words : ℕ → ℕ → List ℕ → List ℕ
unfolding rdbe32
words zero i block = []
words (suc n) i block = rdbe32 block (i * 4) ∷ words n (i + 1) block

-- The bytes of the state words.
unfoldable pub bytes : List ℕ → List ℕ
unfolding wrbe32
bytes [] = []
bytes (w ∷ ws) = wrbe32 w ++ bytes ws

-- `rdbe32` reads back what `wrbe32` has written, for a word of 32 bits.
pub rdbe32-wrbe32 : (v : ℕ) → v < 2 ^ 32 → rdbe32 (wrbe32 v) 0 ≡ v
unfolding rdbe32 wrbe32
rdbe32-wrbe32 v h = omega arith
