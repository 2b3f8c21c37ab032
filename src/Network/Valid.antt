-- ===== src/Network/Valid.antt =====
-- What always holds of the object `Network` of src/libc/network.cpp.
use mr_hak_os.Prelude.{
  ℕ, ◌+◌, ◌≤◌, ◌<◌, ◌≡◌, refl, List, true, some, arith, ◌==◌, get_or, ◌^◌, length, ℕ_discrete,
  ==_iff, zero, suc, [], ◌∷◌, take, drop, subst, sym, get_or-drop,
}
use mr_hak_os.Network.{ArpCache, clear_arp_cache, remember_arp}
use mr_hak_os.Network.State.{Net, Tcp}
use mr_hak_os.Network.Packet.{be32, view}
use mr_hak_os.Network.Arp.{IsCache, remember-lookup}
use mr_hak_os.Network.Stream.{rx_capacity}

-- The receive buffer has its 16384 bytes, the last one is left for the closing 0, and the program has read a part of
-- what came.
pub record IsTcp (t : Tcp) : Type 0 where
  pub size : length t.rx_buffer ≡ rx_capacity + 1
  pub fits : t.rx_len ≤ rx_capacity
  pub read : t.consumed ≤ t.rx_len
  pub word : t.ack < 2 ^ 32

pub record IsNet (n : Net) : Type 0 where
  pub cache : IsCache n.arp
  pub stream : IsTcp n.tcp

-- A number of 32 bits from four bytes.
abbrev pub IsBytes : List ℕ → Type 0
IsBytes p = (i : ℕ) → get_or p i 0 < 256

pub IsBytes-be32 : (p : List ℕ) (i : ℕ) → IsBytes p → be32 p i < 2 ^ 32
IsBytes-be32 p i h = omega (arith, h i, h (i + 1), h (i + 2), h (i + 3))

pub clear-IsCache : IsCache clear_arp_cache
unfolding clear_arp_cache
clear-IsCache = record { size = refl; next_in = omega arith }

pub remember-IsCache :
    (ip : ℕ) (mac : List ℕ) (cache : ArpCache)
    → IsCache cache
    → IsCache (remember_arp ip (some mac) cache)
unfolding remember_arp
remember-IsCache ip mac cache v = elim (ℕ_discrete ip 0) [
  | yes e ↦ let zero_ip : (ip == 0) ≡ true = (==_iff ip 0).1 e in rw zero_ip v
  | no ne ↦ (remember-lookup ip mac cache v ne).0
]

IsBytes-take : (k : ℕ) (p : List ℕ) → IsBytes p → IsBytes (take k p)
IsBytes-take zero p h i = omega arith
IsBytes-take (suc k) [] h i = omega arith
IsBytes-take (suc k) (b ∷ p) h zero = h zero
IsBytes-take (suc k) (b ∷ p) h (suc i) = IsBytes-take k p (λ j. h (suc j)) i

pub IsBytes-view : (p : List ℕ) (from k : ℕ) → IsBytes p → IsBytes (view p from k)
IsBytes-view p from k h =
    IsBytes-take k (drop from p)
      (λ i. subst (λ b. b < 256) (sym (get_or-drop from i p 0)) (h (from + i)))
