-- ===== src/Network/Complete.antt =====
-- A TCP connection of src/libc/network.cpp over which the pieces of a stream come in order.
use mr_hak_os.Prelude.{
  ℕ, ◌+◌, ◌-◌, ◌≤◌, ◌<◌, ◌≡◌, ◌∙◌, refl, List, [], ◌∷◌, ◌++◌, arith, get_or, ◌%◌, length, ◌^◌,
  subst, length-append, sym, get_or-append_left, ap, list_ext, get_or-append_right,
}
use mr_hak_os.Network.Sequence.{run, Event, step, stream_read_of, segment}
use mr_hak_os.Network.State.{Tcp}
use mr_hak_os.Network.Session.{Delivered, Carries, received}
use mr_hak_os.Network.Stream.{rx_capacity}
use mr_hak_os.Network.Packet.{Returns, Returns-bind, returns}
use mr_hak_os.Network.Reading.{stream_read-Read}
use mr_hak_os.Network.InOrder.{accept_data-Delivered}
use mr_hak_os.Network.Valid.{IsTcp}

abbrev pub joined : List (List ℕ) → List ℕ
joined [] = []
joined (p ∷ pieces) = p ++ joined pieces

-- The pieces come as segments one behind the other, from byte `n` of the stream on; then the program reads up to `size`
-- bytes.
abbrev pub transfer : ℕ → ℕ → ℕ → List (List ℕ) → List Event
transfer base n size [] = stream_read_of size ∷ []
transfer base n size (p ∷ pieces) =
    segment ((base + n) % 2 ^ 32) p ∷ transfer base (n + length p) size pieces

module _ (whole : List ℕ) (base : ℕ) where
  abbrev stream : ℕ → ℕ
  stream i = get_or whole i 0

  -- The last step: everything is there, and is read.
  read-whole :
      (t : Tcp)
      → Delivered stream base 0 (length whole) t
      → Returns
          (λ s. s.output ≡ whole)
          (run (stream_read_of (length whole) ∷ []) (record { tcp = t; output = [] }))
  unfolding run step
  read-whole t d =
      let r = stream_read-Read stream base 0 (length whole) (length whole) t d in
      Returns-bind
        (Returns-bind {Q = λ s. s.output ≡ whole} r (λ got g. returns _ (
          list_ext got.0 whole 0 (omega (arith, g.size))
            (λ i h. g.matches i (omega (arith, g.size)) ∙ ap stream (omega arith)))))
        (λ s e. returns s e)

  transfer-whole :
      (n : ℕ) (pieces : List (List ℕ)) (t : Tcp)
      → Delivered stream base 0 n t
      → n + length (joined pieces) ≡ length whole
      → ((i : ℕ) → i < length (joined pieces) → get_or (joined pieces) i 0 ≡ stream (n + i))
      → length whole ≤ rx_capacity
      → Returns
          (λ s. s.output ≡ whole)
          (run (transfer base n (length whole) pieces) (record { tcp = t; output = [] }))
  unfolding run step
  transfer-whole n [] t d e same fits =
      read-whole t (subst (λ k. Delivered stream base 0 k t) (omega arith) d)
  transfer-whole n (p ∷ pieces) t d e same fits =
      let size = length-append p (joined pieces) in
      let carries : Carries stream base n ((base + n) % 2 ^ 32) p = record {
        number = refl;
        matches =
            λ i h. sym (get_or-append_left p (joined pieces) i 0 h) ∙ same i (omega (arith, size));
      } in
      let on : received 0 n n (length p) ≡ n + length p = ground (arith, size) in
      let received_all =
        accept_data-Delivered stream base 0 n n ((base + n) % 2 ^ 32) p t d carries
          (omega (arith, size)) (omega arith) (omega (arith, size)) in
      Returns-bind
        (Returns-bind
          {Q = λ s.
            (u : Tcp) × (s ≡ record { tcp = u; output = [] })
            × Delivered stream base 0 (n + length p) u}
          received_all
          (λ u f. returns _ (u, refl, subst (λ k. Delivered stream base 0 k u) on f.0)))
        (λ s (u, is_u, f).
          subst
            (λ x.
              Returns (λ s. s.output ≡ whole)
                (run (transfer base (n + length p) (length whole) pieces) x))
            (sym is_u)
            (transfer-whole (n + length p) pieces u f (omega (arith, size))
              (λ i h.
                let back : length p + i - length p ≡ i = omega arith in
                sym (
                  get_or-append_right p (joined pieces) (length p + i) 0 (omega arith)
                  ∙ ap (λ k. get_or (joined pieces) k 0) back)
                ∙ same (length p + i) (omega (arith, size))
                ∙ ap stream (omega arith))
              fits))

-- What the other side sends in order in pieces of any size, at most 16383 bytes in all, arrives: on a connection in which
-- nothing is unread, the program that then reads that many bytes gets exactly these.
pub transfer_complete :
    (base : ℕ) (pieces : List (List ℕ)) (t : Tcp)
    → IsTcp t
    → t.rx_len ≡ t.consumed
    → t.ack ≡ base % 2 ^ 32
    → length (joined pieces) ≤ rx_capacity
    → Returns
        (λ s. s.output ≡ joined pieces)
        (run (transfer base 0 (length (joined pieces)) pieces) (record { tcp = t; output = [] }))
transfer_complete base pieces t v none_unread next fits =
    transfer-whole (joined pieces) base 0 pieces t
      (record {
        valid = v;
        count = omega (arith, none_unread);
        matches = λ i h. absurd (omega (arith, none_unread));
        next = omega (arith, next);
      })
      (omega arith) (λ i h. ap (λ k. get_or (joined pieces) k 0) (omega arith)) fits
