-- ===== src/Crypto/Counting.antt =====
-- The buffering of the hashes in src/libc/crypto.cpp: streaming, bounds and the count of bits.
use mr_hak_os.Crypto.{Context, sha256_transform}
use mr_hak_os.Prelude.{
  ℕ, ◌+◌, ◌*◌, ◌<◌, ◌≡◌, ◌∙◌, refl, List, [], ◌∷◌, ◌++◌, inl, inr, arith, ◌==◌, length, ◌%◌, ◌^◌,
  length-set, Bool-cases,
}
use mr_hak_os.Crypto.Digest.{sha256_update}
use mr_hak_os.Crypto.Stream.{absorb, update}

-- The buffer has 64 bytes, of which fewer than 64 wait for the rest of their block.
pub record IsContext (ctx : Context) : Type 0 where
  pub size : length ctx.buffer ≡ 64
  pub waiting : ctx.buffer_len < 64

-- The number of bits that `final` writes behind the message.
abbrev pub total_bits : Context → ℕ
total_bits ctx = (ctx.bit_len + ctx.buffer_len * 8) % 2 ^ 64

module _ (transform : List ℕ → List ℕ → List ℕ) where
  absorb_lem :
      (byte : ℕ) (ctx : Context)
      → IsContext ctx
      → IsContext (absorb transform byte ctx)
        × (total_bits (absorb transform byte ctx) ≡ (total_bits ctx + 8) % 2 ^ 64)
  unfolding absorb
  absorb_lem byte ctx v =
      let size = length-set ctx.buffer ctx.buffer_len byte ∙ v.size in
      elim (Bool-cases (ctx.buffer_len + 1 == 64)) [
        | inl full ↦
            let n : ctx.buffer_len ≡ 63 = ground arith in
            rw full (record { size = size; waiting = omega arith }, omega (arith, n))
        | inr room ↦
            let n : ctx.buffer_len + 1 < 64 = ground (arith, v.waiting) in
            rw room (record { size = size; waiting = n }, omega arith)
      ]

  update_lem :
      (input : List ℕ) (ctx : Context)
      → IsContext ctx
      → IsContext (update transform input ctx)
        × (total_bits (update transform input ctx) ≡ (total_bits ctx + 8 * length input) % 2 ^ 64)
  unfolding update
  update_lem [] ctx v = (v, omega arith)
  update_lem (byte ∷ input) ctx v =
      let (w, e) = absorb_lem byte ctx v in
      let (u, f) = update_lem input (absorb transform byte ctx) w in (u, omega (arith, e, f))

  update-append :
      (xs ys : List ℕ) (ctx : Context)
      → update transform (xs ++ ys) ctx ≡ update transform ys (update transform xs ctx)
  unfolding update
  update-append [] ys ctx = refl
  update-append (x ∷ xs) ys ctx = update-append xs ys (absorb transform x ctx)

-- `sha256_update` keeps the fill of the buffer below 64, and counts the bits: what `sha256_final` writes as the
-- length of the message is the count before it and eight bits for every byte, modulo 2 ^ 64.
pub sha256_update_lem :
    (input : List ℕ) (ctx : Context)
    → IsContext ctx
    → IsContext (sha256_update input ctx)
      × (total_bits (sha256_update input ctx) ≡ (total_bits ctx + 8 * length input) % 2 ^ 64)
unfolding sha256_update
sha256_update_lem input ctx v = update_lem sha256_transform input ctx v

-- Feeding a message in two parts gives the context of feeding it at once, wherever it is cut.
pub sha256_update-append :
    (xs ys : List ℕ) (ctx : Context)
    → sha256_update (xs ++ ys) ctx ≡ sha256_update ys (sha256_update xs ctx)
unfolding sha256_update
sha256_update-append xs ys ctx = update-append sha256_transform xs ys ctx
