-- ===== src/Network/Window.antt =====
-- The receive buffer of src/libc/network.cpp: what is read, stored and moved.
use mr_hak_os.Prelude.{
  ℕ, zero, suc, ◌+◌, ◌-◌, ◌≤◌, ◌<◌, ◌≡◌, ◌∙◌, refl, List, [], ◌∷◌, inl, inr, arith, ◌==◌, get_or,
  ap, set, length, get_or-set_ne, get_or-set_self, length-set, Bool-cases, ◌^◌, ◌%◌,
}
use mr_hak_os.Network.Stream.{store_bytes, compact, slide, read_bytes}
use mr_hak_os.Network.State.{Tcp}
use mr_hak_os.Network.Valid.{IsTcp}
use mr_hak_os.Network.Packet.{Returns, returns, byte_of-then, Returns-bind}

-- How many received bytes the program has not read yet, and the i-th of them.
abbrev pub unread : Tcp → ℕ
unread t = t.rx_len - t.consumed

abbrev pub unread_at : Tcp → ℕ → ℕ
unread_at t i = get_or t.rx_buffer (t.consumed + i) 0

cons-agrees :
    (n from : ℕ) (p bs : List ℕ)
    → ((i : ℕ) → i < n → get_or bs i 0 ≡ get_or p (from + 1 + i) 0)
    → (i : ℕ) → i < suc n
    → get_or (get_or p from 0 ∷ bs) i 0 ≡ get_or p (from + i) 0
cons-agrees n from p bs at zero h = ap (λ k. get_or p k 0) (omega arith)
cons-agrees n from p bs at (suc i) h = at i (omega arith) ∙ ap (λ k. get_or p k 0) (omega arith)

-- The `n` bytes at p + from, when they are there.
pub read_bytes-Returns :
    (n from : ℕ) (p : List ℕ)
    → from + n ≤ length p
    → Returns
        (λ bs. (length bs ≡ n) × ((i : ℕ) → i < n → get_or bs i 0 ≡ get_or p (from + i) 0))
        (read_bytes n from p)
unfolding read_bytes
read_bytes-Returns zero from p h = returns _ (refl, λ i j. absurd (omega arith))
read_bytes-Returns (suc n) from p h = byte_of-then p from _ (omega arith) (
    Returns-bind (read_bytes-Returns n (from + 1) p (omega arith))
      (λ bs (size, at). returns _ (ap suc size, cons-agrees n from p bs at)))

pub length-store_bytes :
    (at : ℕ) (bytes buffer : List ℕ) → length (store_bytes at bytes buffer) ≡ length buffer
unfolding store_bytes
length-store_bytes at [] buffer = refl
length-store_bytes at (b ∷ bytes) buffer =
    length-store_bytes (at + 1) bytes (set buffer at b) ∙ length-set buffer at b

pub store_bytes-below :
    (at j : ℕ) (bytes buffer : List ℕ)
    → j < at
    → get_or (store_bytes at bytes buffer) j 0 ≡ get_or buffer j 0
unfolding store_bytes
store_bytes-below at j [] buffer h = refl
store_bytes-below at j (b ∷ bytes) buffer h =
    store_bytes-below (at + 1) j bytes (set buffer at b) (omega arith)
    ∙ get_or-set_ne buffer at j b 0 (λ e. omega arith)

pub store_bytes-at :
    (at i : ℕ) (bytes buffer : List ℕ)
    → at + length bytes ≤ length buffer
    → i < length bytes
    → get_or (store_bytes at bytes buffer) (at + i) 0 ≡ get_or bytes i 0
unfolding store_bytes
store_bytes-at at i [] buffer h l = absurd (omega arith)
store_bytes-at at zero (b ∷ bytes) buffer h l =
    ap (λ k. get_or (store_bytes (at + 1) bytes (set buffer at b)) k 0) (omega arith)
    ∙ store_bytes-below (at + 1) at bytes (set buffer at b) (omega arith)
    ∙ get_or-set_self buffer at b 0 (omega arith)
store_bytes-at at (suc i) (b ∷ bytes) buffer h l =
    ap (λ k. get_or (store_bytes (at + 1) bytes (set buffer at b)) k 0) (omega arith)
    ∙ store_bytes-at (at + 1) i bytes (set buffer at b) (omega (arith, length-set buffer at b))
        (omega arith)

length-slide : (n i c : ℕ) (buffer : List ℕ) → length (slide n i c buffer) ≡ length buffer
unfolding slide
length-slide zero i c buffer = refl
length-slide (suc n) i c buffer =
    length-slide n (i + 1) c (set buffer i (get_or buffer (c + i) 0))
    ∙ length-set buffer i (get_or buffer (c + i) 0)

slide-below :
    (n i c j : ℕ) (buffer : List ℕ) → j < i → get_or (slide n i c buffer) j 0 ≡ get_or buffer j 0
unfolding slide
slide-below zero i c j buffer h = refl
slide-below (suc n) i c j buffer h =
    slide-below n (i + 1) c j (set buffer i (get_or buffer (c + i) 0)) (omega arith)
    ∙ get_or-set_ne buffer i j (get_or buffer (c + i) 0) 0 (λ e. omega arith)

-- The loop moves every byte down by `c`.
slide-at :
    (n i c k : ℕ) (buffer : List ℕ)
    → i + n ≤ length buffer
    → k < n
    → get_or (slide n i c buffer) (i + k) 0 ≡ get_or buffer (c + (i + k)) 0
unfolding slide
slide-at zero i c k buffer h l = absurd (omega arith)
slide-at (suc n) i c zero buffer h l =
    ap (λ j. get_or (slide (suc n) i c buffer) j 0) (omega arith)
    ∙ slide-below n (i + 1) c i (set buffer i (get_or buffer (c + i) 0)) (omega arith)
    ∙ get_or-set_self buffer i (get_or buffer (c + i) 0) 0 (omega arith)
    ∙ ap (λ j. get_or buffer j 0) (omega arith)
slide-at (suc n) i c (suc k) buffer h l =
    let w = get_or buffer (c + i) 0 in
    ap (λ j. get_or (slide n (i + 1) c (set buffer i w)) j 0) (omega arith)
    ∙ slide-at n (i + 1) c k (set buffer i w) (omega (arith, length-set buffer i w)) (omega arith)
    ∙ get_or-set_ne buffer i (c + ((i + 1) + k)) w 0 (λ e. omega arith)
    ∙ ap (λ j. get_or buffer j 0) (omega arith)

-- What the data of a segment do not change: whom the connection is with, and how far its opening and closing are.
pub record Kept (t u : Tcp) : Type 0 where
  pub remote_ip : u.remote_ip ≡ t.remote_ip
  pub source_port : u.source_port ≡ t.source_port
  pub dest_port : u.dest_port ≡ t.dest_port
  pub seq : u.seq ≡ t.seq
  pub syn_ack_seen : u.syn_ack_seen ≡ t.syn_ack_seen
  pub fin_seen : u.fin_seen ≡ t.fin_seen
  pub rst_seen : u.rst_seen ≡ t.rst_seen

pub same-Kept : (t : Tcp) → Kept t t
same-Kept t = record {
  remote_ip = refl;
  source_port = refl;
  dest_port = refl;
  seq = refl;
  syn_ack_seen = refl;
  fin_seen = refl;
  rst_seen = refl;
}

-- The same bytes are unread in both, at the same place in the stream.
pub record SameUnread (t u : Tcp) : Type 0 where
  pub valid : IsTcp u
  pub count : unread u ≡ unread t
  pub matches : (i : ℕ) → i < unread t → unread_at u i ≡ unread_at t i
  pub place : u.ack ≡ t.ack
  pub kept : Kept t u

-- What tcpCompact makes of a connection when something has been read.
abbrev moved : Tcp → ℕ → Tcp
moved t rem = record t {
  rx_buffer = set (slide rem 0 t.consumed t.rx_buffer) rem 0;
  rx_len = rem;
  consumed = 0;
}

moved-SameUnread : (t : Tcp) (rem : ℕ) → IsTcp t → rem ≡ unread t → SameUnread t (moved t rem)
moved-SameUnread t rem v e =
    let down = slide rem 0 t.consumed t.rx_buffer in
    let room : 0 + rem ≤ length t.rx_buffer = omega (arith, v.size, v.fits, v.read, e) in
    record {
      valid = record {
        size = length-set down rem 0 ∙ length-slide rem 0 t.consumed t.rx_buffer ∙ v.size;
        fits = omega (arith, v.fits, e);
        read = omega arith;
        word = v.word;
      };
      count = omega (arith, e);
      matches = λ i h.
          ap (λ k. get_or (set down rem 0) k 0) (omega arith)
          ∙ get_or-set_ne down rem i 0 0 (λ same. omega arith)
          ∙ ap (λ k. get_or down k 0) (omega arith)
          ∙ slide-at rem 0 t.consumed i t.rx_buffer room (omega arith)
          ∙ ap (λ k. get_or t.rx_buffer k 0) (omega arith);
      place = refl;
      kept = record {
        remote_ip = refl;
        source_port = refl;
        dest_port = refl;
        seq = refl;
        syn_ack_seen = refl;
        fin_seen = refl;
        rst_seen = refl;
      };
    }

-- tcpCompact moves the unread bytes to the start of the buffer and loses none.
pub compact-SameUnread :
    (t : Tcp) → IsTcp t → SameUnread t (compact t) × ((compact t).rx_len ≡ unread t)
unfolding compact
compact-SameUnread t v = elim (Bool-cases (t.consumed == 0)) [
  | inl none_read ↦ rw none_read (
    record { valid = v; count = refl; matches = λ i h. refl; place = refl; kept = same-Kept t },
    ground arith,
  )
  | inr some_read ↦
      let e : (t.rx_len + 2 ^ 16 - t.consumed) % 2 ^ 16 ≡ unread t =
        omega (arith, v.fits, v.read) in
      rw some_read (moved-SameUnread t _ v e, e)
]
