-- ===== src/Crypto/Sealed.antt =====
-- AES-128-GCM of src/libc/crypto.cpp: encryption and then decryption.
use mr_hak_os.Prelude.{
  ℕ, zero, suc, ◌+◌, ◌*◌, ◌≤◌, ◌<◌, ◌≡◌, ◌∙◌, ◌⊎◌, refl, List, [], ◌∷◌, ◌++◌, true, none, some, inl,
  inr, arith, if◌then◌else◌, length, take, ap₂, drop, ap, length-append, length-take, length-drop,
  get_or, dec_lt, list_ext, get_or-take, get_or-append_left, get_or-drop, ◌/◌, get_or-append_right,
}
use mr_hak_os.Crypto.Gcm.{
  ctr_blocks, aes128_gcm_decrypt, xor_block, aes128_gcm_encrypt, incr_low, first_counter, blocks,
  gcm_tag,
}
use mr_hak_os.Crypto.Aes.{aes128_encrypt_block, aes128_init, crypto_equal}
use mr_hak_os.Crypto.Xor.{bit_xor-twice}
use mr_hak_os.Crypto.Equal.{crypto_equal_iff}

length-xor_block : (d : List ℕ) (i : ℕ) (ks : List ℕ) → length (xor_block d i ks) ≡ length d
unfolding xor_block
length-xor_block [] i ks = refl
length-xor_block (b ∷ d) i ks = ap suc (length-xor_block d (i + 1) ks)

xor_block_twice : (d : List ℕ) (i : ℕ) (ks : List ℕ) → xor_block (xor_block d i ks) i ks ≡ d
unfolding xor_block
xor_block_twice [] i ks = refl
xor_block_twice (b ∷ d) i ks =
    ap₂ ◌∷◌ (bit_xor-twice b (get_or ks i 0)) (xor_block_twice d (i + 1) ks)

-- A block and the rest behind it, when the rest is empty behind a short block.
block_split :
    (x y : List ℕ)
    → length x ≤ 16
    → (length x < 16 → length y ≡ 0)
    → (take 16 (x ++ y) ≡ x) × (drop 16 (x ++ y) ≡ y)
block_split x y h short =
    let n = length-append x y in
    let t = length-take 16 (x ++ y) in
    let k = length-drop 16 (x ++ y) in
    let size : (length x ≡ 16) ⊎ (length y ≡ 0) = elim (dec_lt (length x) 16) [
      | yes l ↦ inr (short l)
      | no l ↦ inl (omega arith)
    ] in
    (
      list_ext _ _ 0 (omega (arith, n, t, size)) (λ i l.
          get_or-take 16 i (x ++ y) 0 (omega (arith, t))
          ∙ get_or-append_left x y i 0 (omega (arith, n, t, size))),
      list_ext _ _ 0 (omega (arith, n, k, size)) (λ i l.
          get_or-drop 16 i (x ++ y) 0
          ∙ get_or-append_right x y (16 + i) 0 (omega arith)
          ∙ ap (λ j. get_or y j 0) (omega (arith, n, k, size))),
    )

take-drop : (n : ℕ) (d : List ℕ) → take n d ++ drop n d ≡ d
take-drop zero [] = refl
take-drop zero (x ∷ d) = refl
take-drop (suc n) [] = refl
take-drop (suc n) (x ∷ d) = ap (λ r. x ∷ r) (take-drop n d)

length-ctr_blocks :
    (n : ℕ) (rk ctr d : List ℕ) → length d ≤ n * 16 → length (ctr_blocks n rk ctr d) ≡ length d
unfolding ctr_blocks
length-ctr_blocks zero rk ctr d h = omega arith
length-ctr_blocks (suc n) rk ctr d h =
    let next = incr_low 4 ctr in
    let ks = aes128_encrypt_block rk next in
    omega (
      arith,
      length-append (xor_block (take 16 d) 0 ks) (ctr_blocks n rk next (drop 16 d)),
      length-xor_block (take 16 d) 0 ks,
      length-take 16 d,
      length-drop 16 d,
      length-ctr_blocks n rk next (drop 16 d) (omega (arith, length-drop 16 d)),
    )

ctr_blocks_twice :
    (n : ℕ) (rk ctr d : List ℕ)
    → length d ≤ n * 16
    → ctr_blocks n rk ctr (ctr_blocks n rk ctr d) ≡ d
unfolding ctr_blocks
ctr_blocks_twice zero rk ctr [] h = refl
ctr_blocks_twice zero rk ctr (b ∷ d) h = absurd (omega arith)
ctr_blocks_twice (suc n) rk ctr d h =
    let next = incr_low 4 ctr in
    let ks = aes128_encrypt_block rk next in
    let x = xor_block (take 16 d) 0 ks in
    let y = ctr_blocks n rk next (drop 16 d) in
    let m = length-xor_block (take 16 d) 0 ks in
    let k = length-drop 16 d in
    let l = length-ctr_blocks n rk next (drop 16 d) (omega (arith, k)) in
    let (first, rest) =
      block_split x y (omega (arith, m, length-take 16 d))
        (λ short. omega (arith, m, k, l, length-take 16 d)) in
    ap₂ (λ a b. xor_block a 0 ks ++ ctr_blocks n rk next b) first rest
    ∙ ap₂ ◌++◌ (xor_block_twice (take 16 d) 0 ks)
        (ctr_blocks_twice n rk next (drop 16 d) (omega (arith, k)))
    ∙ take-drop 16 d

-- What aes128_gcm_encrypt seals, aes128_gcm_decrypt opens under the same key, IV and additional data: the tag is
-- accepted and the plain text comes back.
pub aes128_gcm_decrypt-encrypt :
    (key iv aad pt : List ℕ)
    → aes128_gcm_decrypt key iv aad
        (aes128_gcm_encrypt key iv aad pt).0
        (aes128_gcm_encrypt key iv aad pt).1
      ≡ some pt
unfolding aes128_gcm_decrypt aes128_gcm_encrypt
aes128_gcm_decrypt-encrypt key iv aad pt =
    let rk = aes128_init key in
    let ctr = first_counter iv in
    let ct = ctr_blocks (blocks pt) rk ctr pt in
    let tag = gcm_tag key iv aad ct in
    let n = length-ctr_blocks (blocks pt) rk ctr pt (omega arith) in
    let same : crypto_equal tag tag ≡ true = (crypto_equal_iff tag tag refl).1 refl in
    let again : ctr_blocks (blocks ct) rk ctr ct ≡ pt =
      ap (λ k. ctr_blocks ((k + 15) / 16) rk ctr ct) n
      ∙ ctr_blocks_twice (blocks pt) rk ctr pt (omega arith) in
    ap₂ (λ c r. if c then some r else none) same again
