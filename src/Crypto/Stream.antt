-- ===== src/Crypto/Stream.antt =====
-- The buffering of src/libc/crypto.cpp, which SHA-256 and SHA-1 share: bytes are collected in blocks of 64, and
-- `transform` takes a block into the state.
use mr_hak_os.Crypto.{Context}
use mr_hak_os.Prelude.{
  ℕ, zero, suc, ◌+◌, ◌-◌, ◌*◌, List, [], ◌∷◌, ◌==◌, if◌then◌else◌, ◌%◌, set, ◌^◌, ltb,
}
use mr_hak_os.Crypto.Words.{wrbe64}

module _ (transform : List ℕ → List ℕ → List ℕ) where
  -- One round of the loop of sha256_update and sha1_update.
  unfoldable pub absorb : ℕ → Context → Context
  absorb byte ctx =
      let filled = set ctx.buffer ctx.buffer_len byte in
      if ctx.buffer_len + 1 == 64
      then record {
        state = transform ctx.state filled;
        bit_len = (ctx.bit_len + 512) % 2 ^ 64;
        buffer = filled;
        buffer_len = 0;
      }
      else record ctx { buffer = filled; buffer_len = ctx.buffer_len + 1 }

  unfoldable pub update : List ℕ → Context → Context
  unfolding absorb
  update [] ctx = ctx
  update (byte ∷ input) ctx = update input (absorb byte ctx)

  -- for (i = i; n more rounds; i++) buffer[i] = 0;
  unfoldable pub zero_fill : ℕ → ℕ → List ℕ → List ℕ
  zero_fill zero i buffer = buffer
  zero_fill (suc n) i buffer = zero_fill n (i + 1) (set buffer i 0)

  -- The last block: zeros up to byte 56, and the number of bits.
  unfoldable pub last_block : ℕ → List ℕ → ℕ → List ℕ → List ℕ
  unfolding zero_fill
  last_block total state n buffer =
      transform state (wrbe64 8 0 56 total (zero_fill (56 - n) n buffer))

  -- sha256_final and sha1_final: the state words that are written out.
  unfoldable pub final : Context → List ℕ
  unfolding last_block
  final ctx =
      let total = (ctx.bit_len + ctx.buffer_len * 8) % 2 ^ 64 in
      let marked = set ctx.buffer ctx.buffer_len 0x80 in
      let n = ctx.buffer_len + 1 in
      if ltb 56 n
      then (let filled = zero_fill (64 - n) n marked in
          last_block total (transform ctx.state filled) 0 filled)
      else last_block total ctx.state n marked
