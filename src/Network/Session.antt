-- ===== src/Network/Session.antt =====
-- The reading side of a TCP connection of src/libc/network.cpp, and the stream of bytes that the connection stands
-- for.
use mr_hak_os.Prelude.{
  ℕ, ◌+◌, ◌-◌, ◌≤◌, ◌<◌, ◌≡◌, List, [], Option, some, arith, ◌==◌, if◌then◌else◌, leb, ◌%◌, ◌^◌,
  length, ◌&&◌, ltb, get_or, min, ◌||◌, ap₂, dec_lt,
}
use mr_hak_os.Network.Packet.{◌>>=◌, return_if}
use mr_hak_os.Network.State.{Tcp}
use mr_hak_os.Network.Stream.{is_fresh, sub32, read_bytes, compact, rx_capacity, is_negative}
use mr_hak_os.Network.Valid.{IsTcp}
use mr_hak_os.Network.Window.{unread, unread_at}

-- The reading part of tcpStreamRead and tcpSessionDrain: what is copied to `out`, and consumed.
unfoldable pub take_unread : ℕ → Tcp → Option (List ℕ × Tcp)
unfolding ◌>>=◌
take_unread cap t = do
  let avail = (t.rx_len + 2 ^ 16 - t.consumed) % 2 ^ 16
  let n = if ltb avail cap then avail else cap
  out ← read_bytes n t.consumed t.rx_buffer
  some (out, record t { consumed = (t.consumed + n) % 2 ^ 16 })

-- tcpStreamRead behind its wait.
unfoldable pub stream_read : ℕ → Tcp → Option (List ℕ × Tcp)
unfolding ◌>>=◌
stream_read needed t =
    return_if (needed == 0) ([], t) (take_unread needed t >>= λ (out, u). some (out, compact u))

-- The connection stands at byte `n` of the stream that starts with the number `base`, and byte `r` is the next to read.
pub record Delivered (stream : ℕ → ℕ) (base r n : ℕ) (t : Tcp) : Type 0 where
  pub valid : IsTcp t
  pub count : r + unread t ≡ n
  pub matches : (i : ℕ) → i < unread t → unread_at t i ≡ stream (r + i)
  pub next : t.ack ≡ (base + n) % 2 ^ 32

-- The bytes of a segment are those of the stream from byte `q`.
pub record Carries (stream : ℕ → ℕ) (base q seq : ℕ) (payload : List ℕ) : Type 0 where
  pub number : seq ≡ (base + q) % 2 ^ 32
  pub matches : (i : ℕ) → i < length payload → get_or payload i 0 ≡ stream (q + i)

-- The place in the stream behind a segment of `len` bytes from `q`: it moves on when the segment has the next byte, as
-- far as the segment goes and the buffer has room.
abbrev pub received : ℕ → ℕ → ℕ → ℕ → ℕ
received r n q len = if leb q n && ltb n (q + len) then min (q + len) (r + rx_capacity) else n

pub sub32-shift :
    (base n q : ℕ)
    → q ≤ n
    → n < q + 2 ^ 31
    → sub32 ((base + n) % 2 ^ 32) ((base + q) % 2 ^ 32) ≡ n - q
sub32-shift base n q h a = omega arith

sub32-ahead :
    (base n q : ℕ)
    → q < n
    → n < q + 2 ^ 31
    → sub32 ((base + q) % 2 ^ 32) ((base + n) % 2 ^ 32) ≡ 2 ^ 32 - (n - q)
sub32-ahead base n q h a = omega arith

-- The first test: the segment does not start behind the next byte.
starts_iff :
    (base n q : ℕ)
    → n < q + 2 ^ 31
    → q < n + 2 ^ 31
    → ((sub32 ((base + q) % 2 ^ 32) ((base + n) % 2 ^ 32) == 0)
        || is_negative (sub32 ((base + q) % 2 ^ 32) ((base + n) % 2 ^ 32)))
      ≡ leb q n
starts_iff base n q a b = elim (dec_lt q n) [
  | yes old ↦ rw (sub32-ahead base n q old a) (ground arith)
  | no new ↦ rw (sub32-shift base q n (omega arith) b) (ground arith)
]

-- The second test: the segment ends behind the next byte.
ends_iff :
    (base n e : ℕ)
    → n < e + 2 ^ 31
    → e < n + 2 ^ 31
    → is_negative (sub32 ((base + n) % 2 ^ 32) ((base + e) % 2 ^ 32)) ≡ ltb n e
ends_iff base n e a b = elim (dec_lt n e) [
  | yes ahead ↦ rw (sub32-ahead base e n ahead b) (ground arith)
  | no behind ↦ rw (sub32-shift base n e (omega arith) a) (ground arith)
]

-- The tests on the numbers of 32 bits find out whether the segment has the next byte.
pub is_fresh_iff :
    (base n q len : ℕ)
    → n < q + 2 ^ 31
    → q + len < n + 2 ^ 31
    → is_fresh ((base + q) % 2 ^ 32) len ((base + n) % 2 ^ 32) ≡ leb q n && ltb n (q + len)
unfolding is_fresh
is_fresh_iff base n q len a b =
    let wrap : ((base + q) % 2 ^ 32 + len) % 2 ^ 32 ≡ (base + (q + len)) % 2 ^ 32 = omega arith in
    rw wrap (
      ap₂ ◌&&◌ (starts_iff base n q a (omega arith))
        (ends_iff base n (q + len) (omega arith) (omega arith)))
