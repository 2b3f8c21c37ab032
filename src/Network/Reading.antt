-- ===== src/Network/Reading.antt =====
-- tcpStreamRead of src/libc/network.cpp: what it takes from the buffer.
use mr_hak_os.Prelude.{
  ℕ, ◌+◌, ◌-◌, ◌≤◌, ◌<◌, ◌≡◌, ◌∙◌, refl, List, [], arith, if◌then◌else◌, length, get_or, ◌%◌, min,
  ◌^◌, ltb, ap, subst,
}
use mr_hak_os.Network.Session.{take_unread, Delivered, stream_read}
use mr_hak_os.Network.Packet.{Returns, return_if-Returns, Returns-bind, returns}
use mr_hak_os.Network.State.{Tcp}
use mr_hak_os.Network.Stream.{compact}
use mr_hak_os.Network.Window.{unread, compact-SameUnread, read_bytes-Returns}

-- What a read gives to a program that has read `r` bytes: `k` more.
pub record Read (stream : ℕ → ℕ) (base r n k : ℕ) (got : List ℕ × Tcp) : Type 0 where
  pub size : length got.0 ≡ k
  pub matches : (i : ℕ) → i < k → get_or got.0 i 0 ≡ stream (r + i)
  pub rest : Delivered stream base (r + k) n got.1

taken-Delivered :
    (stream : ℕ → ℕ) (base r n k : ℕ) (t : Tcp)
    → Delivered stream base r n t
    → k ≤ unread t
    → Delivered stream base (r + k) n (record t { consumed = (t.consumed + k) % 2 ^ 16 })
taken-Delivered stream base r n k t d h =
    let v = d.valid in
    let e : (t.consumed + k) % 2 ^ 16 ≡ t.consumed + k = omega (arith, v.fits, v.read) in
    record {
      valid = record { size = v.size; fits = v.fits; read = omega (arith, v.read); word = v.word };
      count = omega (arith, d.count, v.read);
      matches = λ i j.
          ap (λ c. get_or t.rx_buffer c 0) (omega arith)
          ∙ d.matches (k + i) (omega arith)
          ∙ ap stream (omega arith);
      next = d.next;
    }

take_unread-Read :
    (stream : ℕ → ℕ) (base r n cap : ℕ) (t : Tcp)
    → Delivered stream base r n t
    → Returns (Read stream base r n (min cap (n - r))) (take_unread cap t)
unfolding take_unread
take_unread-Read stream base r n cap t d =
    let v = d.valid in
    let avail = (t.rx_len + 2 ^ 16 - t.consumed) % 2 ^ 16 in
    let k = if ltb avail cap then avail else cap in
    let all : avail ≡ unread t = omega (arith, v.fits, v.read) in
    let e : k ≡ min cap (n - r) = ground (arith, d.count) in
    let inside : k ≤ unread t = ground arith in
    Returns-bind
      (read_bytes-Returns k t.consumed t.rx_buffer (omega (arith, v.fits, v.read, v.size)))
      (λ out (size, at). returns _ (
        subst (λ m. Read stream base r n m (out, record t { consumed = (t.consumed + k) % 2 ^ 16 }))
          e
          (record {
            size = size;
            matches = λ i h. at i h ∙ d.matches i (omega arith);
            rest = taken-Delivered stream base r n k t d inside;
          })))

compact-Delivered :
    (stream : ℕ → ℕ) (base r n : ℕ) (t : Tcp)
    → Delivered stream base r n t
    → Delivered stream base r n (compact t)
compact-Delivered stream base r n t d =
    let (same, _) = compact-SameUnread t d.valid in
    record {
      valid = same.valid;
      count = omega (arith, same.count, d.count);
      matches = λ i h.
          same.matches i (omega (arith, same.count)) ∙ d.matches i (omega (arith, same.count));
      next = same.place ∙ d.next;
    }

-- tcpStreamRead gives the next bytes of the stream, as many as are wanted or as have come, and goes on behind them.
pub stream_read-Read :
    (stream : ℕ → ℕ) (base r n needed : ℕ) (t : Tcp)
    → Delivered stream base r n t
    → Returns (Read stream base r n (min needed (n - r))) (stream_read needed t)
unfolding stream_read
stream_read-Read stream base r n needed t d =
    return_if-Returns _ _ _
      (λ none_wanted.
        let e : 0 ≡ min needed (n - r) = ground arith in
        subst (λ k. Read stream base r n k ([], t)) e
          (record {
            size = refl;
            matches = λ i h. absurd (omega arith);
            rest = subst (λ m. Delivered stream base m n t) (omega arith) d;
          }))
      (λ some_wanted. Returns-bind (take_unread-Read stream base r n needed t d) (λ got read.
        returns _ (record {
          size = read.size;
          matches = read.matches;
          rest = compact-Delivered stream base _ n _ read.rest;
        })))
