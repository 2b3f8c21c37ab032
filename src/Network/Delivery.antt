-- ===== src/Network/Delivery.antt =====
-- The part of handleTcp in src/libc/network.cpp that stores the bytes of a segment.
use mr_hak_os.Prelude.{
  ℕ, ◌+◌, ◌-◌, ◌≤◌, ◌<◌, ◌≡◌, ◌∙◌, ◌⊎◌, refl, List, true, inl, inr, arith, if◌then◌else◌, set, ◌^◌,
  min, length, get_or, ◌%◌, Bool-cases, ltb, length-set, subst, get_or-set_ne, ap,
}
use mr_hak_os.Network.State.{Tcp}
use mr_hak_os.Network.Stream.{
  is_fresh, store_fresh, rx_capacity, store_bytes, sub32, store_into, compact, accept_data,
}
use mr_hak_os.Network.Valid.{IsTcp}
use mr_hak_os.Network.Window.{
  Kept, same-Kept, SameUnread, unread, unread_at, length-store_bytes, compact-SameUnread,
  store_bytes-below, read_bytes-Returns, store_bytes-at,
}
use mr_hak_os.Network.Packet.{Returns, Returns-bind, returns, branch-Returns, Returns-mono}

-- What the storing of a segment does: `n` bytes of it, from the first one that is not known.
pub record Stored (t : Tcp) (seq skip n : ℕ) (payload : List ℕ) (u : Tcp) : Type 0 where
  pub valid : IsTcp u
  pub count : unread u ≡ unread t + n
  pub old : (i : ℕ) → i < unread t → unread_at u i ≡ unread_at t i
  pub new : (i : ℕ) → i < n → unread_at u (unread t + i) ≡ get_or payload (skip + i) 0
  pub next : u.ack ≡ (seq + skip + n) % 2 ^ 32
  pub kept : Kept t u
  pub seen : u.data_seen ≡ true

-- A segment that is fresh reaches behind what is known by its last byte at least.
pub fresh-skip :
    (seq len ack : ℕ)
    → seq < 2 ^ 32
    → ack < 2 ^ 32
    → 0 < len
    → len < 2 ^ 16
    → is_fresh seq len ack ≡ true
    → sub32 ack seq < len
unfolding is_fresh
fresh-skip seq len ack s a p l e = ground arith

-- A buffer into which `n` bytes have been written.
abbrev written : Tcp → ℕ → List ℕ → ℕ → Tcp
written u n bytes ack = record u {
  rx_buffer = set (store_bytes u.rx_len bytes u.rx_buffer) (u.rx_len + n) 0;
  rx_len = u.rx_len + n;
  ack = ack;
  data_seen = true;
}

written-Kept :
    (t u : Tcp) (n : ℕ) (bytes : List ℕ) (ack : ℕ) → Kept t u → Kept t (written u n bytes ack)
written-Kept t u n bytes ack k = record {
  remote_ip = k.remote_ip;
  source_port = k.source_port;
  dest_port = k.dest_port;
  seq = k.seq;
  syn_ack_seen = k.syn_ack_seen;
  fin_seen = k.fin_seen;
  rst_seen = k.rst_seen;
}

written-Stored :
    (t u : Tcp) (seq skip n : ℕ) (payload bytes : List ℕ)
    → SameUnread t u
    → u.rx_len + n ≤ rx_capacity
    → length bytes ≡ n
    → ((i : ℕ) → i < n → get_or bytes i 0 ≡ get_or payload (skip + i) 0)
    → Stored t seq skip n payload (written u n bytes ((seq + skip + n) % 2 ^ 32))
written-Stored t u seq skip n payload bytes same room size at =
    let v = same.valid in
    let after = store_bytes u.rx_len bytes u.rx_buffer in
    let fit : u.rx_len + length bytes ≤ length u.rx_buffer = omega (arith, room, size, v.size) in
    record {
      valid = record {
        size =
            length-set after (u.rx_len + n) 0
            ∙ length-store_bytes u.rx_len bytes u.rx_buffer
            ∙ v.size;
        fits = room;
        read = omega (arith, v.read);
        word = omega arith;
      };
      count = omega (arith, same.count, v.read);
      old = λ i h.
          get_or-set_ne after (u.rx_len + n) (u.consumed + i) 0 0 (λ e. omega (arith, same.count))
          ∙ store_bytes-below u.rx_len (u.consumed + i) bytes u.rx_buffer
              (omega (arith, same.count))
          ∙ same.matches i h;
      new = λ i h.
          get_or-set_ne after (u.rx_len + n) (u.consumed + (unread t + i)) 0 0
            (λ e. omega (arith, same.count, v.read))
          ∙ ap (λ k. get_or after k 0) (omega (arith, same.count, v.read))
          ∙ store_bytes-at u.rx_len i bytes u.rx_buffer fit (omega (arith, size))
          ∙ at i h;
      next = refl;
      kept = written-Kept t u n bytes ((seq + skip + n) % 2 ^ 32) same.kept;
      seen = refl;
    }

-- What is stored of the bytes that are new: as many as there is room for.
abbrev pub accepted : Tcp → ℕ → ℕ
accepted t fresh_len = min fresh_len (rx_capacity - unread t)

store_into-Stored :
    (t u : Tcp) (seq skip fresh_len : ℕ) (payload : List ℕ)
    → SameUnread t u
    → skip + fresh_len ≤ length payload
    → (u.rx_len ≡ unread t) ⊎ (fresh_len ≤ rx_capacity - u.rx_len)
    → Returns
        (Stored t seq skip (accepted t fresh_len) payload)
        (store_into seq skip fresh_len payload u)
unfolding store_into
store_into-Stored t u seq skip fresh_len payload same inside room =
    let v = same.valid in
    let free_space = rx_capacity - u.rx_len in
    let copy_len = if ltb fresh_len free_space then fresh_len else free_space in
    let e : copy_len ≡ accepted t fresh_len = ground (arith, same.count, v.fits, v.read) in
    let fit : u.rx_len + copy_len ≤ rx_capacity = ground (arith, v.fits) in
    Returns-bind (read_bytes-Returns copy_len skip payload (ground arith)) (λ bytes (size, at).
      returns _ (
        subst
          (λ n.
            Stored t seq skip n payload
              (written u copy_len bytes ((seq + skip + copy_len) % 2 ^ 32)))
          e (written-Stored t u seq skip copy_len payload bytes same fit size at)))

pub store_fresh-Stored :
    (seq : ℕ) (payload : List ℕ) (t : Tcp)
    → IsTcp t
    → sub32 t.ack seq < length payload
    → length payload < 2 ^ 16
    → Returns
        (Stored t seq (sub32 t.ack seq) (accepted t (length payload - sub32 t.ack seq)) payload)
        (store_fresh seq payload t)
unfolding store_fresh
store_fresh-Stored seq payload t v inside h =
    let skip = sub32 t.ack seq in
    let fresh_len = (length payload + 2 ^ 32 - skip) % 2 ^ 32 % 2 ^ 16 in
    let e : fresh_len ≡ length payload - skip = omega arith in
    let here : skip + fresh_len ≤ length payload = omega arith in
    subst (λ n. Returns (Stored t seq skip (accepted t n) payload) (store_fresh seq payload t)) e
      (elim (Bool-cases (ltb (rx_capacity - t.rx_len) fresh_len)) [
        | inl full ↦
            let (same, start) = compact-SameUnread t v in
            rw full
              (store_into-Stored t (compact t) seq skip fresh_len payload same here (inl start))
        | inr room ↦
            let same : SameUnread t t = record {
              valid = v;
              count = refl;
              matches = λ i h. refl;
              place = refl;
              kept = same-Kept t;
            } in
            rw room
              (store_into-Stored t t seq skip fresh_len payload same here (inr (ground arith)))
      ])

-- Whatever the segment, the buffer stays within its bounds, and the connection is the same one.
pub accept_data-IsTcp :
    (seq : ℕ) (payload : List ℕ) (t : Tcp)
    → IsTcp t
    → seq < 2 ^ 32
    → 0 < length payload
    → length payload < 2 ^ 16
    → Returns (λ u. IsTcp u × Kept t u) (accept_data seq payload t)
unfolding accept_data
accept_data-IsTcp seq payload t v s p h =
    branch-Returns _ _ _
      (λ fresh.
        Returns-mono (λ u stored. (stored.valid, stored.kept))
          (store_fresh-Stored seq payload t v
            (fresh-skip seq (length payload) t.ack s v.word p h fresh) h))
      (λ stale. returns t (v, same-Kept t))
