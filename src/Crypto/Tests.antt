-- ===== src/Crypto/Tests.antt =====
-- A known digest, known blocks of AES and GCM, and the theorems at concrete contexts and keys.
use mr_hak_os.Crypto.Words.{ssig0, ssig1, bsig0, bsig1, ch32, maj32, rotr32, wrbe64, bytes, words}
use mr_hak_os.Crypto.Digest.{sha256, sha256_update, sha256_final, fresh_context}
use mr_hak_os.Prelude.{
  ℕ, ◌+◌, ◌*◌, ◌≡◌, refl, List, [], ◌∷◌, ◌++◌, arith, length-replicate, length, ◌%◌, ◌^◌, zero, suc,
  ◌<◌, get_or, true, ◌↔◌, some, replicate,
}
use mr_hak_os.Crypto.Words.{rdbe32, wrbe32, wrbe64, bytes, words, ssig0, ssig1}
use mr_hak_os.Crypto.Counting.{IsContext, total_bits, sha256_update_lem}
use mr_hak_os.Crypto.{sha256_init, sha256_transform, extend256, rounds256, round256, k256}
use mr_hak_os.Crypto.Stream.{update, absorb, final, last_block, zero_fill}
use mr_hak_os.Crypto.Aes.{
  aes128_encrypt_block, AesCtrState, aes128_ctr_crypt, aes128_init, expand_key, schedule_word, sbox,
  rcon, aes_rounds, add_round_key, sub_bytes, aes_shift_rows, mix_columns, xtime, ctr_incr_full,
  crypto_equal,
}
use mr_hak_os.Crypto.Keystream.{aes128_ctr_crypt-inverse}
use mr_hak_os.Crypto.Counter.{NextNumber, ctr_incr_full-NextNumber}
use mr_hak_os.Crypto.Equal.{crypto_equal_iff}
use mr_hak_os.Crypto.Gcm.{
  aes128_gcm_encrypt, aes128_gcm_decrypt, gcm_tag, ctr_blocks, ghash_mul, ghash_blocks,
  ghash_rounds, xor_into, xor_block, shift_right, incr_low,
}
use mr_hak_os.Crypto.Sealed.{aes128_gcm_decrypt-encrypt}

abbrev abc : List ℕ
abc = b'a' ∷ b'b' ∷ b'c' ∷ []

digest_of_abc :
    sha256 abc
    ≡ 0xba ∷ 0x78 ∷ 0x16 ∷ 0xbf ∷ 0x8f ∷ 0x01 ∷ 0xcf ∷ 0xea ∷ 0x41 ∷ 0x41 ∷ 0x40 ∷ 0xde ∷ 0x5d
      ∷ 0xae ∷ 0x22 ∷ 0x23 ∷ 0xb0 ∷ 0x03 ∷ 0x61 ∷ 0xa3 ∷ 0x96 ∷ 0x17 ∷ 0x7a ∷ 0x9c ∷ 0xb4 ∷ 0x10
      ∷ 0xff ∷ 0x61 ∷ 0xf2 ∷ 0x00 ∷ 0x15 ∷ 0xad ∷ []
unfolding sha256 sha256_update sha256_final sha256_init sha256_transform update absorb final
    last_block zero_fill wrbe64 bytes wrbe32 words rdbe32 extend256 rounds256 round256 ssig0 ssig1
    bsig0 bsig1 ch32 maj32 rotr32 k256
digest_of_abc = refl

start-IsContext : IsContext (sha256_init fresh_context)
unfolding sha256_init
start-IsContext = record { size = length-replicate {A = ℕ} 64 0; waiting = omega arith }

sha256_update_lem_example :
    IsContext (sha256_update abc (sha256_init fresh_context))
    × (total_bits (sha256_update abc (sha256_init fresh_context))
        ≡ (total_bits (sha256_init fresh_context) + 8 * length abc) % 2 ^ 64)
sha256_update_lem_example = sha256_update_lem abc (sha256_init fresh_context) start-IsContext

abbrev aes_key : List ℕ
aes_key = 0 ∷ 1 ∷ 2 ∷ 3 ∷ 4 ∷ 5 ∷ 6 ∷ 7 ∷ 8 ∷ 9 ∷ 10 ∷ 11 ∷ 12 ∷ 13 ∷ 14 ∷ 15 ∷ []

-- The example of FIPS-197.
block_of_fips :
    aes128_encrypt_block (aes128_init aes_key) (
      0x00 ∷ 0x11 ∷ 0x22 ∷ 0x33 ∷ 0x44 ∷ 0x55 ∷ 0x66 ∷ 0x77 ∷ 0x88 ∷ 0x99 ∷ 0xaa ∷ 0xbb ∷ 0xcc
      ∷ 0xdd ∷ 0xee ∷ 0xff ∷ [])
    ≡ 0x69 ∷ 0xc4 ∷ 0xe0 ∷ 0xd8 ∷ 0x6a ∷ 0x7b ∷ 0x04 ∷ 0x30 ∷ 0xd8 ∷ 0xcd ∷ 0xb7 ∷ 0x80 ∷ 0x70
      ∷ 0xb4 ∷ 0xc5 ∷ 0x5a ∷ []
unfolding aes128_encrypt_block aes128_init expand_key schedule_word sbox rcon aes_rounds
    add_round_key sub_bytes aes_shift_rows mix_columns xtime
block_of_fips = refl

abbrev aes_state : AesCtrState
aes_state = record {
  round_key = aes128_init aes_key;
  counter = aes_key;
  keystream = aes_key;
  place = 16;
}

aes128_ctr_crypt-inverse_example :
    aes128_ctr_crypt
      ((aes128_ctr_crypt (1 ∷ 2 ∷ []) aes_state).0
        ++ (aes128_ctr_crypt (3 ∷ []) (aes128_ctr_crypt (1 ∷ 2 ∷ []) aes_state).1).0)
      aes_state
    ≡ (1 ∷ 2 ∷ 3 ∷ [], (aes128_ctr_crypt (3 ∷ []) (aes128_ctr_crypt (1 ∷ 2 ∷ []) aes_state).1).1)
aes128_ctr_crypt-inverse_example = aes128_ctr_crypt-inverse (1 ∷ 2 ∷ []) (3 ∷ []) aes_state

-- The counter 00 FF with the bytes behind it becomes 01 00.
ctr_incr_full-NextNumber_example : NextNumber 2 (0 ∷ 255 ∷ []) (ctr_incr_full 2 (0 ∷ 255 ∷ []))
ctr_incr_full-NextNumber_example = ctr_incr_full-NextNumber 2 (0 ∷ 255 ∷ []) (omega arith) two_bytes
  where
    two_bytes : (i : ℕ) → i < 2 → get_or (0 ∷ 255 ∷ []) i 0 < 256
    two_bytes zero h = omega arith
    two_bytes (suc zero) h = omega arith
    two_bytes (suc (suc i)) h = absurd (omega arith)

abbrev one_two : List ℕ
one_two = 1 ∷ 2 ∷ []

abbrev one_three : List ℕ
one_three = 1 ∷ 3 ∷ []

crypto_equal_iff_example : (crypto_equal one_two one_three ≡ true) ↔ (one_two ≡ one_three)
crypto_equal_iff_example = crypto_equal_iff one_two one_three refl

-- The second test case of the specification of GCM: a zero key, a zero IV and one zero block.
sealed_block : aes128_gcm_encrypt (replicate 16 0) (replicate 12 0) [] (replicate 16 0) ≡ (
  0x03 ∷ 0x88 ∷ 0xda ∷ 0xce ∷ 0x60 ∷ 0xb6 ∷ 0xa3 ∷ 0x92 ∷ 0xf3 ∷ 0x28 ∷ 0xc2 ∷ 0xb9 ∷ 0x71 ∷ 0xb2
      ∷ 0xfe ∷ 0x78 ∷ [],
  0xab ∷ 0x6e ∷ 0x47 ∷ 0xd4 ∷ 0x2c ∷ 0xec ∷ 0x13 ∷ 0xbd ∷ 0xf5 ∷ 0x3a ∷ 0x67 ∷ 0xb2 ∷ 0x12 ∷ 0x57
      ∷ 0xbd ∷ 0xdf ∷ [],
)
unfolding aes128_gcm_encrypt gcm_tag ctr_blocks ghash_mul ghash_blocks ghash_rounds xor_into
    xor_block shift_right incr_low aes128_encrypt_block aes128_init expand_key schedule_word sbox
    rcon aes_rounds add_round_key sub_bytes aes_shift_rows mix_columns xtime wrbe64
sealed_block = refl

aes128_gcm_decrypt-encrypt_example :
    aes128_gcm_decrypt aes_key
      (replicate 12 7)
      (1 ∷ 2 ∷ [])
      (aes128_gcm_encrypt aes_key (replicate 12 7) (1 ∷ 2 ∷ []) (replicate 20 5)).0
      (aes128_gcm_encrypt aes_key (replicate 12 7) (1 ∷ 2 ∷ []) (replicate 20 5)).1
    ≡ some (replicate 20 5)
aes128_gcm_decrypt-encrypt_example =
    aes128_gcm_decrypt-encrypt aes_key (replicate 12 7) (1 ∷ 2 ∷ []) (replicate 20 5)
