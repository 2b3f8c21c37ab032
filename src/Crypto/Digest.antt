-- ===== src/Crypto/Digest.antt =====
-- The digests of src/libc/crypto.cpp from their start to their bytes.
use mr_hak_os.Crypto.{Context, sha256_init, sha1_init, sha1_transform, sha256_transform}
use mr_hak_os.Prelude.{ℕ, List, [], ◌∷◌, if◌then◌else◌, replicate, bit_xor, ltb, length}
use mr_hak_os.Crypto.Words.{bytes}
use mr_hak_os.Crypto.Stream.{update, final}
use mr_hak_os.CString.{memcpy}

-- A context on the stack before its init, with a buffer of zeros.
abbrev pub fresh_context : Context
fresh_context = record { state = []; bit_len = 0; buffer = replicate 64 0; buffer_len = 0 }

unfoldable pub sha256_update : List ℕ → Context → Context
sha256_update input ctx = update sha256_transform input ctx

unfoldable pub sha256_final : Context → List ℕ
sha256_final ctx = bytes (final sha256_transform ctx)

unfoldable pub sha256 : List ℕ → List ℕ
unfolding sha256_update sha256_final sha256_init
sha256 input = sha256_final (sha256_update input (sha256_init fresh_context))

-- for (i = 0; i < 64; i++) pad[i] = k0[i] ^ mask;
unfoldable pub xor_all : ℕ → List ℕ → List ℕ
xor_all mask [] = []
xor_all mask (b ∷ bs) = bit_xor b mask ∷ xor_all mask bs

-- k0: the key, or its digest when it is longer than a block, in front of zeros.
unfoldable pub key_block : List ℕ → List ℕ
unfolding sha256
key_block key =
    if ltb 64 (length key)
    then memcpy (replicate 64 0) (sha256 key) 32
    else memcpy (replicate 64 0) key (length key)

unfoldable pub hmac_sha256 : List ℕ → List ℕ → List ℕ
unfolding sha256_update sha256_final sha256_init key_block xor_all
hmac_sha256 key input =
    let k0 = key_block key in
    let first = sha256_init fresh_context in
    let inner = sha256_final (sha256_update input (sha256_update (xor_all 0x36 k0) first)) in
    sha256_final (sha256_update inner (sha256_update (xor_all 0x5c k0) first))

unfoldable pub sha1_update : List ℕ → Context → Context
sha1_update input ctx = update sha1_transform input ctx

unfoldable pub sha1_final : Context → List ℕ
sha1_final ctx = bytes (final sha1_transform ctx)

unfoldable pub sha1 : List ℕ → List ℕ
unfolding sha1_update sha1_final sha1_init
sha1 input = sha1_final (sha1_update input (sha1_init fresh_context))
