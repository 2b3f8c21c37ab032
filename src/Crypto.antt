-- ===== src/Crypto.antt =====
-- src/libc/crypto.cpp and include/crypto.hpp: SHA-256, HMAC-SHA-256, SHA-1 and AES-128. A `uint8_t` buffer is a list of
-- bytes; a null pointer with its length is the empty list, on which the functions do nothing either.
pub mod Aes
pub mod Xor
pub mod Keystream
pub mod Counter
pub mod Equal
pub mod Gcm
pub mod Sealed
pub mod Words
pub mod Stream
pub mod Counting
pub mod Digest
mod Tests
use mr_hak_os.Prelude.{
  ℕ, zero, suc, ◌+◌, ◌-◌, ◌*◌, ◌≤◌, ◌<◌, ◌≡◌, ◌≢◌, ◌∙◌, ◌⊎◌, refl, List, [], ◌∷◌, ◌++◌, Bool, true,
  false, Option, none, some, inl, inr, arith, ◌==◌, if◌then◌else◌, ◌%◌, get_or, ltb, ◌^◌, bit_or,
  length, bit_xor, bit_and,
}
use Words.{words, rotl32, bsig0, ssig0, bsig1, ssig1, ch32, maj32, not32}

-- Sha256Ctx and Sha1Ctx: they differ in the number of state words, 8 or 5.
pub record Context : Type 0 where
  pub state : List ℕ
  pub bit_len : ℕ
  pub buffer : List ℕ
  pub buffer_len : ℕ

-- The round constants of SHA-256.
unfoldable pub k256 : List ℕ
k256 =
    0x428a2f98 ∷ 0x71374491 ∷ 0xb5c0fbcf ∷ 0xe9b5dba5 ∷ 0x3956c25b ∷ 0x59f111f1 ∷ 0x923f82a4
    ∷ 0xab1c5ed5 ∷ 0xd807aa98 ∷ 0x12835b01 ∷ 0x243185be ∷ 0x550c7dc3 ∷ 0x72be5d74 ∷ 0x80deb1fe
    ∷ 0x9bdc06a7 ∷ 0xc19bf174 ∷ 0xe49b69c1 ∷ 0xefbe4786 ∷ 0x0fc19dc6 ∷ 0x240ca1cc ∷ 0x2de92c6f
    ∷ 0x4a7484aa ∷ 0x5cb0a9dc ∷ 0x76f988da ∷ 0x983e5152 ∷ 0xa831c66d ∷ 0xb00327c8 ∷ 0xbf597fc7
    ∷ 0xc6e00bf3 ∷ 0xd5a79147 ∷ 0x06ca6351 ∷ 0x14292967 ∷ 0x27b70a85 ∷ 0x2e1b2138 ∷ 0x4d2c6dfc
    ∷ 0x53380d13 ∷ 0x650a7354 ∷ 0x766a0abb ∷ 0x81c2c92e ∷ 0x92722c85 ∷ 0xa2bfe8a1 ∷ 0xa81a664b
    ∷ 0xc24b8b70 ∷ 0xc76c51a3 ∷ 0xd192e819 ∷ 0xd6990624 ∷ 0xf40e3585 ∷ 0x106aa070 ∷ 0x19a4c116
    ∷ 0x1e376c08 ∷ 0x2748774c ∷ 0x34b0bcb5 ∷ 0x391c0cb3 ∷ 0x4ed8aa4a ∷ 0x5b9cca4f ∷ 0x682e6ff3
    ∷ 0x748f82ee ∷ 0x78a5636f ∷ 0x84c87814 ∷ 0x8cc70208 ∷ 0x90befffa ∷ 0xa4506ceb ∷ 0xbef9a3f7
    ∷ 0xc67178f2 ∷ []

-- The schedule of SHA-256: n more words behind those that are there.
unfoldable pub extend256 : ℕ → List ℕ → List ℕ
unfolding ssig0 ssig1
extend256 zero w = w
extend256 (suc n) w =
    let i = length w in
    extend256 n (
      w
      ++ (ssig1 (get_or w (i - 2) 0)
            + get_or w (i - 7) 0
            + ssig0 (get_or w (i - 15) 0)
            + get_or w (i - 16) 0)
          % 2 ^ 32
        ∷ [])

-- One round on the working variables a .. h.
pub record Work : Type 0 where
  pub a : ℕ
  pub b : ℕ
  pub c : ℕ
  pub d : ℕ
  pub e : ℕ
  pub f : ℕ
  pub g : ℕ
  pub h : ℕ

unfoldable pub round256 : ℕ → ℕ → Work → Work
unfolding bsig0 bsig1 ch32 maj32
round256 k w v =
    let t1 = v.h + bsig1 v.e + ch32 v.e v.f v.g + k + w in
    let t2 = bsig0 v.a + maj32 v.a v.b v.c in
    record {
      a = (t1 + t2) % 2 ^ 32;
      b = v.a;
      c = v.b;
      d = v.c;
      e = (v.d + t1) % 2 ^ 32;
      f = v.e;
      g = v.f;
      h = v.g;
    }

-- for (i = i; n more rounds; i++)
unfoldable pub rounds256 : ℕ → ℕ → List ℕ → Work → Work
unfolding round256
rounds256 zero i w v = v
rounds256 (suc n) i w v = rounds256 n (i + 1) w (round256 (get_or k256 i 0) (get_or w i 0) v)

abbrev pub add32 : ℕ → ℕ → ℕ
add32 x y = (x + y) % 2 ^ 32

-- sha256_transform: the new state words.
unfoldable pub sha256_transform : List ℕ → List ℕ → List ℕ
unfolding extend256 rounds256
sha256_transform s block =
    let w = extend256 48 (words 16 0 block) in
    let word : ℕ → ℕ = λ i. get_or s i 0 in
    let v = rounds256 64 0 w (record {
      a = word 0;
      b = word 1;
      c = word 2;
      d = word 3;
      e = word 4;
      f = word 5;
      g = word 6;
      h = word 7;
    }) in
    add32 (word 0) v.a
    ∷ add32 (word 1) v.b
    ∷ add32 (word 2) v.c
    ∷ add32 (word 3) v.d
    ∷ add32 (word 4) v.e
    ∷ add32 (word 5) v.f
    ∷ add32 (word 6) v.g
    ∷ add32 (word 7) v.h
    ∷ []

-- sha256_init; the buffer keeps what was in it.
unfoldable pub sha256_init : Context → Context
sha256_init ctx = record ctx {
  state =
      0x6a09e667 ∷ 0xbb67ae85 ∷ 0x3c6ef372 ∷ 0xa54ff53a ∷ 0x510e527f ∷ 0x9b05688c ∷ 0x1f83d9ab
      ∷ 0x5be0cd19 ∷ [];
  bit_len = 0;
  buffer_len = 0;
}

-- The f and the k of round i of SHA-1.
unfoldable pub choose1 : ℕ → ℕ → ℕ → ℕ → ℕ × ℕ
choose1 i b c d =
    if ltb i 20
    then (bit_or (bit_and b c) (bit_and (not32 b) d), 0x5a827999)
    else if ltb i 40
    then (bit_xor (bit_xor b c) d, 0x6ed9eba1)
    else if ltb i 60
    then (bit_or (bit_or (bit_and b c) (bit_and b d)) (bit_and c d), 0x8f1bbcdc)
    else (bit_xor (bit_xor b c) d, 0xca62c1d6)

unfoldable pub extend1 : ℕ → List ℕ → List ℕ
unfolding rotl32
extend1 zero w = w
extend1 (suc n) w =
    let i = length w in
    extend1 n (
      w
      ++ rotl32
          (bit_xor
            (bit_xor (bit_xor (get_or w (i - 3) 0) (get_or w (i - 8) 0)) (get_or w (i - 14) 0))
            (get_or w (i - 16) 0))
          1
        ∷ [])

-- The working variables a .. e of SHA-1, as a tuple.
unfoldable pub rounds1 : ℕ → ℕ → List ℕ → ℕ × ℕ × ℕ × ℕ × ℕ → ℕ × ℕ × ℕ × ℕ × ℕ
unfolding choose1 rotl32
rounds1 zero i w v = v
rounds1 (suc n) i w (a, b, c, d, e) =
    let (f, k) = choose1 i b c d in
    rounds1 n (i + 1) w ((rotl32 a 5 + f + e + k + get_or w i 0) % 2 ^ 32, a, rotl32 b 30, c, d)

unfoldable pub sha1_transform : List ℕ → List ℕ → List ℕ
unfolding extend1 rounds1
sha1_transform s block =
    let w = extend1 64 (words 16 0 block) in
    let word : ℕ → ℕ = λ i. get_or s i 0 in
    let (a, b, c, d, e) = rounds1 80 0 w (word 0, word 1, word 2, word 3, word 4) in
    add32 (word 0) a
    ∷ add32 (word 1) b
    ∷ add32 (word 2) c
    ∷ add32 (word 3) d
    ∷ add32 (word 4) e
    ∷ []

unfoldable pub sha1_init : Context → Context
sha1_init ctx = record ctx {
  state = 0x67452301 ∷ 0xefcdab89 ∷ 0x98badcfe ∷ 0x10325476 ∷ 0xc3d2e1f0 ∷ [];
  bit_len = 0;
  buffer_len = 0;
}
