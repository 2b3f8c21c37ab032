-- ===== src/Crypto/Keystream.antt =====
-- The streaming counter mode of src/libc/crypto.cpp: the stream cut in pieces, and run a second time.
use mr_hak_os.Prelude.{ℕ, ◌+◌, ◌≡◌, ◌∙◌, refl, List, [], ◌∷◌, ◌++◌, ap, bit_xor, get_or, sym, ap₂}
use mr_hak_os.Crypto.Aes.{AesCtrState, aes128_ctr_crypt, refill}
use mr_hak_os.Crypto.Xor.{bit_xor-twice}

-- The second run gives the bytes back, and leaves the state where the first run left it.
again :
    (bytes : List ℕ) (st : AesCtrState)
    → (aes128_ctr_crypt (aes128_ctr_crypt bytes st).0 st) ≡ (bytes, (aes128_ctr_crypt bytes st).1)
unfolding aes128_ctr_crypt
again [] st = refl
again (b ∷ bytes) st =
    let ready = refill st in
    let k = get_or ready.keystream ready.place 0 in
    let rest = again bytes (record ready { place = ready.place + 1 }) in
    ap₂ (λ x y. (x ∷ y.0, y.1)) (bit_xor-twice b k) rest

-- One call on two pieces of the stream, or two calls.
pieces :
    (a b : List ℕ) (st : AesCtrState)
    → aes128_ctr_crypt (a ++ b) st ≡ (
      (aes128_ctr_crypt a st).0 ++ (aes128_ctr_crypt b (aes128_ctr_crypt a st).1).0,
      (aes128_ctr_crypt b (aes128_ctr_crypt a st).1).1,
    )
unfolding aes128_ctr_crypt
pieces [] b st = refl
pieces (x ∷ a) b st =
    let ready = refill st in
    ap (λ y. (bit_xor x (get_or ready.keystream ready.place 0) ∷ y.0, y.1))
      (pieces a b (record ready { place = ready.place + 1 }))

-- What one end encrypts in two calls, the other end, which has the same key and counter, decrypts in one, and both stand
-- at the same place of the key stream then.
pub aes128_ctr_crypt-inverse :
    (a b : List ℕ) (st : AesCtrState)
    → aes128_ctr_crypt
        ((aes128_ctr_crypt a st).0 ++ (aes128_ctr_crypt b (aes128_ctr_crypt a st).1).0)
        st
      ≡ (a ++ b, (aes128_ctr_crypt b (aes128_ctr_crypt a st).1).1)
aes128_ctr_crypt-inverse a b st =
    let both = pieces a b st in
    ap (λ y. aes128_ctr_crypt y.0 st) (sym both) ∙ again (a ++ b) st ∙ ap (λ y. (a ++ b, y.1)) both
