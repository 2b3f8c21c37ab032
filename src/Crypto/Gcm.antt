-- ===== src/Crypto/Gcm.antt =====
-- GHASH and AES-128-GCM of src/libc/crypto.cpp. A buffer with its length is the list of its bytes.
use mr_hak_os.Prelude.{
  ℕ, zero, suc, ◌+◌, ◌-◌, ◌*◌, List, [], ◌∷◌, ◌++◌, Option, none, some, ◌==◌, if◌then◌else◌, length,
  bit_or, take, replicate, get_or, bit_xor, ◌/◌, ◌%◌, drop, ◌^◌, set,
}
use mr_hak_os.Crypto.Aes.{aes128_init, aes128_encrypt_block, crypto_equal}
use mr_hak_os.Crypto.Words.{wrbe64}

-- (X[i >> 3] >> (7 - (i & 7))) & 1
abbrev pub bit_at : List ℕ → ℕ → ℕ
bit_at x i = get_or x (i / 8) 0 / 2 ^ (7 - i % 8) % 2

-- for each j: s[j] ^= d[j], as far as d goes
unfoldable pub xor_into : List ℕ → List ℕ → List ℕ
xor_into [] d = []
xor_into (b ∷ s) [] = b ∷ s
xor_into (b ∷ s) (x ∷ d) = bit_xor b x ∷ xor_into s d

-- V[j] = (V[j] >> 1) | ((V[j - 1] & 1) << 7), from the last byte to the first; `low` is the lowest bit before.
unfoldable pub shift_right : ℕ → List ℕ → List ℕ
shift_right low [] = []
shift_right low (b ∷ v) = bit_or (b / 2) (low * 2 ^ 7) ∷ shift_right (b % 2) v

-- for (i = i; n more rounds; i++)
unfoldable pub ghash_rounds : ℕ → ℕ → List ℕ → List ℕ → List ℕ → List ℕ
unfolding xor_into shift_right
ghash_rounds zero i x z v = z
ghash_rounds (suc n) i x z v =
    let shifted = shift_right 0 v in
    ghash_rounds n (i + 1) x (if bit_at x i == 1 then xor_into z v else z) (
      if get_or v 15 0 % 2 == 1 then set shifted 0 (bit_xor (get_or shifted 0 0) 0xe1) else shifted)

unfoldable pub ghash_mul : List ℕ → List ℕ → List ℕ
unfolding ghash_rounds
ghash_mul x h = ghash_rounds 128 0 x (replicate 16 0) h

-- The number of blocks of 16 bytes, the last one perhaps shorter.
abbrev pub blocks : List ℕ → ℕ
blocks d = (length d + 15) / 16

-- n more blocks
unfoldable pub ghash_blocks : ℕ → List ℕ → List ℕ → List ℕ → List ℕ
unfolding xor_into ghash_mul
ghash_blocks zero s h d = s
ghash_blocks (suc n) s h d = ghash_blocks n (ghash_mul (xor_into s (take 16 d)) h) h (drop 16 d)

abbrev pub ghash_data : List ℕ → List ℕ → List ℕ → List ℕ
ghash_data s h d = ghash_blocks (blocks d) s h d

-- for (i = 11 + n; i >= 12; i--) { if (++ctr[i] != 0) break; }
unfoldable pub incr_low : ℕ → List ℕ → List ℕ
incr_low zero c = c
incr_low (suc n) c =
    let b = (get_or c (12 + n) 0 + 1) % 256 in
    let carried = incr_low n (set c (12 + n) b) in if b == 0 then carried else set c (12 + n) b

-- The bytes of a block and the key stream from its i-th byte on.
unfoldable pub xor_block : List ℕ → ℕ → List ℕ → List ℕ
xor_block [] i ks = []
xor_block (b ∷ d) i ks = bit_xor b (get_or ks i 0) ∷ xor_block d (i + 1) ks

-- n more blocks, after the counter `ctr`
unfoldable pub ctr_blocks : ℕ → List ℕ → List ℕ → List ℕ → List ℕ
unfolding incr_low xor_block aes128_encrypt_block
ctr_blocks zero rk ctr d = []
ctr_blocks (suc n) rk ctr d =
    let next = incr_low 4 ctr in
    xor_block (take 16 d) 0 (aes128_encrypt_block rk next) ++ ctr_blocks n rk next (drop 16 d)

-- J0
abbrev pub first_counter : List ℕ → List ℕ
first_counter iv = take 12 iv ++ 0 ∷ 0 ∷ 0 ∷ 1 ∷ []

-- wrbe64(lenBlock, ..); wrbe64(lenBlock + 8, ..);
abbrev pub length_block : ℕ → ℕ → List ℕ
length_block aad_len data_len =
    wrbe64 8 0 8 (data_len * 8 % 2 ^ 64) (wrbe64 8 0 0 (aad_len * 8 % 2 ^ 64) (replicate 16 0))

unfoldable pub gcm_tag : List ℕ → List ℕ → List ℕ → List ℕ → List ℕ
unfolding aes128_init aes128_encrypt_block ghash_blocks ghash_mul xor_into wrbe64
gcm_tag key iv aad ct =
    let rk = aes128_init key in
    let h = aes128_encrypt_block rk (replicate 16 0) in
    let s = ghash_data (ghash_data (replicate 16 0) h aad) h ct in
    let hash = ghash_mul (xor_into s (length_block (length aad) (length ct))) h in
    xor_into (aes128_encrypt_block rk (first_counter iv)) hash

-- gcm_core: the cipher text, and the tag.
unfoldable pub aes128_gcm_encrypt : List ℕ → List ℕ → List ℕ → List ℕ → List ℕ × List ℕ
unfolding ctr_blocks gcm_tag aes128_init
aes128_gcm_encrypt key iv aad pt =
    let ct = ctr_blocks (blocks pt) (aes128_init key) (first_counter iv) pt in
    (ct, gcm_tag key iv aad ct)

-- The plain text, if the tag is right.
unfoldable pub aes128_gcm_decrypt : List ℕ → List ℕ → List ℕ → List ℕ → List ℕ → Option (List ℕ)
unfolding ctr_blocks gcm_tag aes128_init crypto_equal
aes128_gcm_decrypt key iv aad ct tag =
    if crypto_equal (gcm_tag key iv aad ct) tag
    then some (ctr_blocks (blocks ct) (aes128_init key) (first_counter iv) ct)
    else none
