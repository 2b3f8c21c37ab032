-- ===== src/Network/Stream.antt =====
-- The receiving side of a TCP connection in src/libc/network.cpp: tcpCompact and the part of handleTcp behind the header.
use mr_hak_os.Network.State.{Tcp}
use mr_hak_os.Prelude.{
  ℕ, zero, suc, ◌+◌, ◌-◌, List, [], ◌∷◌, Bool, true, Option, some, ◌==◌, if◌then◌else◌, ◌||◌, set,
  leb, ◌^◌, ◌&&◌, get_or, ◌%◌, length, ltb,
}
use mr_hak_os.Network.Packet.{◌>>=◌, branch, byte_of}

-- sizeof(tcpRxBuffer) - 1
abbrev pub rx_capacity : ℕ
rx_capacity = 16383

-- for (i = i; n more rounds; i++) buffer[i] = buffer[consumed + i];
unfoldable pub slide : ℕ → ℕ → ℕ → List ℕ → List ℕ
slide zero i consumed buffer = buffer
slide (suc n) i consumed buffer =
    slide n (i + 1) consumed (set buffer i (get_or buffer (consumed + i) 0))

unfoldable pub compact : Tcp → Tcp
unfolding slide
compact t =
    let rem = (t.rx_len + 2 ^ 16 - t.consumed) % 2 ^ 16 in
    if t.consumed == 0 then t else record t {
      rx_buffer = set (slide rem 0 t.consumed t.rx_buffer) rem 0;
      rx_len = rem;
      consumed = 0;
    }

-- a - b on 32-bit words
abbrev pub sub32 : ℕ → ℕ → ℕ
sub32 a b = (a + 2 ^ 32 - b) % 2 ^ 32

-- static_cast<int32_t>(a) < 0
abbrev pub is_negative : ℕ → Bool
is_negative a = leb (2 ^ 31) a

-- The `n` bytes at p + from, read one by one.
unfoldable pub read_bytes : ℕ → ℕ → List ℕ → Option (List ℕ)
unfolding ◌>>=◌
read_bytes zero from p = some []
read_bytes (suc n) from p = do b ← byte_of p from; bs ← read_bytes n (from + 1) p; some (b ∷ bs)

-- for each byte: buffer[at++] = byte;
unfoldable pub store_bytes : ℕ → List ℕ → List ℕ → List ℕ
store_bytes at [] buffer = buffer
store_bytes at (b ∷ bytes) buffer = store_bytes (at + 1) bytes (set buffer at b)

-- seq <= rcvNext and rcvNext < segEnd
unfoldable pub is_fresh : ℕ → ℕ → ℕ → Bool
is_fresh seq len ack =
    let ahead = sub32 seq ack in
    ((ahead == 0) || is_negative ahead) && is_negative (sub32 ack ((seq + len) % 2 ^ 32))

-- `rx_len` is rx_capacity at most, so that the differences are not negative.
-- What fits of the `fresh_len` bytes behind the `skip` that are known is stored.
unfoldable pub store_into : ℕ → ℕ → ℕ → List ℕ → Tcp → Option Tcp
unfolding ◌>>=◌
store_into seq skip fresh_len payload t =
    let free_space = rx_capacity - t.rx_len in
    let copy_len = if ltb fresh_len free_space then fresh_len else free_space in
    (read_bytes copy_len skip payload >>= λ bytes. some (record t {
      rx_buffer = set (store_bytes t.rx_len bytes t.rx_buffer) (t.rx_len + copy_len) 0;
      rx_len = t.rx_len + copy_len;
      ack = (seq + skip + copy_len) % 2 ^ 32;
      data_seen = true;
    }))

-- The bytes of a segment that is_fresh: its known prefix is skipped, and room is made when there is too little.
unfoldable pub store_fresh : ℕ → List ℕ → Tcp → Option Tcp
store_fresh seq payload t =
    let skip = sub32 t.ack seq in
    let fresh_len = (length payload + 2 ^ 32 - skip) % 2 ^ 32 % 2 ^ 16 in
    store_into seq skip fresh_len payload
      (if ltb (rx_capacity - t.rx_len) fresh_len then compact t else t)

unfoldable pub accept_data : ℕ → List ℕ → Tcp → Option Tcp
accept_data seq payload t =
    branch (is_fresh seq (length payload) t.ack) (store_fresh seq payload t) (some t)
