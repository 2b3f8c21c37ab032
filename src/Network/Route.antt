-- ===== src/Network/Route.antt =====
-- Routing and checksums of src/libc/network.cpp.
use mr_hak_os.Network.{route_next_hop, checksum, fold_carries, Addresses, sum_words, broadcast_ip}
use mr_hak_os.Network.Valid.{IsBytes}
use mr_hak_os.Prelude.{
  suc, ◌∙◌, length, ℕ, ◌+◌, ◌-◌, ◌*◌, ◌<◌, ◌≡◌, ◌≢◌, refl, List, [], ◌∷◌, true, some, inl, inr,
  arith, ◌==◌, if◌then◌else◌, ◌^◌, ◌%◌, bit_and, ◌/◌, Bool-cases,
}

-- With a gateway and a netmask, a packet to an address other than 0 and the broadcast address goes straight to its
-- target when the target lies in the own subnet, and to the gateway else (the gateway itself included).
pub route_next_hop_lem :
    (target : ℕ) (info : Addresses)
    → info.gateway_ip ≢ 0
    → info.netmask ≢ 0
    → target ≢ 0
    → target ≢ broadcast_ip
    → route_next_hop target info ≡ (
        if bit_and target info.netmask == bit_and info.ip_address info.netmask
        then target
        else info.gateway_ip)
unfolding route_next_hop
route_next_hop_lem target info g m z b = ground arith

-- The bytes with the weights 256 and 1 in turn, from the weight `w` on.
unfoldable pub word_sum : ℕ → List ℕ → ℕ
word_sum w [] = 0
word_sum w (b ∷ bytes) = b * w + word_sum (257 - w) bytes

-- The loop adds up these words, when the sum stays below 2^32.
sum_words-word_sum :
    (bytes : List ℕ) (sum : ℕ)
    → IsBytes bytes
    → sum + 2 ^ 16 * length bytes < 2 ^ 32
    → sum_words sum bytes ≡ sum + word_sum 256 bytes
unfolding sum_words word_sum
sum_words-word_sum [] sum b h = omega arith
sum_words-word_sum (x ∷ []) sum b h = let first = b 0 in omega (arith, first)
sum_words-word_sum (x ∷ y ∷ rest) sum b h =
    let first = b 0 in
    let second = b 1 in
    let plain : (sum + (x * 256 + y)) % 2 ^ 32 ≡ sum + (x * 256 + y) =
      omega (arith, first, second) in
    let more =
      sum_words-word_sum rest (sum + (x * 256 + y)) (λ i. b (suc (suc i)))
        (omega (arith, first, second)) in
    rw plain (more ∙ omega arith)

sum_words-lt : (bytes : List ℕ) (sum : ℕ) → sum < 2 ^ 32 → sum_words sum bytes < 2 ^ 32
unfolding sum_words
sum_words-lt [] sum h = h
sum_words-lt (a ∷ []) sum h = omega arith
sum_words-lt (a ∷ b ∷ rest) sum h = sum_words-lt rest ((sum + (a * 256 + b)) % 2 ^ 32) (omega arith)

fold_carries-mod :
    (sum : ℕ)
    → sum < 2 ^ 32
    → (r : ℕ) × (fold_carries 3 sum ≡ some r) × (r < 2 ^ 16) × (r % 65535 ≡ sum % 65535)
unfolding fold_carries
fold_carries-mod sum h =
    let s₁ = sum % 2 ^ 16 + sum / 2 ^ 16 in
    let s₂ = s₁ % 2 ^ 16 + s₁ / 2 ^ 16 in
    elim (Bool-cases (sum / 2 ^ 16 == 0)) [
      | inl a ↦ (sum, rw a refl, ground arith, refl)
      | inr a ↦ elim (Bool-cases (s₁ / 2 ^ 16 == 0)) [
        | inl b ↦ (s₁, rw (a, b) refl, ground arith, omega arith)
        | inr b ↦
            let small : s₂ / 2 ^ 16 ≡ 0 = omega arith in
            let c : (s₂ / 2 ^ 16 == 0) ≡ true = ground (arith, small) in
            (s₂, rw (a, b, c) refl, omega (arith, small), omega arith)
      ]
    ]

-- `checksum` of fewer than 65536 bytes returns: folding the carries ends. The result is a 16-bit word, and with the sum
-- of the big-endian 16-bit words of the bytes, a last odd byte being a high one, it is a multiple of 65535, which is
-- what a receiver tests.
pub checksum_lem :
    (bytes : List ℕ)
    → IsBytes bytes
    → length bytes < 2 ^ 16
    → (c : ℕ) × (checksum bytes ≡ some c) × (c < 2 ^ 16) × ((c + word_sum 256 bytes) % 65535 ≡ 0)
unfolding checksum
checksum_lem bytes b h =
    let (r, e, small, same) =
      fold_carries-mod (sum_words 0 bytes) (sum_words-lt bytes 0 (omega arith)) in
    let total = sum_words-word_sum bytes 0 b (omega arith) in
    (2 ^ 16 - 1 - r, rw (checksum, e) refl, omega arith, omega (arith, same, small, total))
