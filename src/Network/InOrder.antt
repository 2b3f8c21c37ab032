-- ===== src/Network/InOrder.antt =====
-- What a segment does to a TCP connection of src/libc/network.cpp, in terms of the stream of the other side.
use mr_hak_os.Network.Stream.{sub32}
use mr_hak_os.Prelude.{
  refl, ℕ, ◌+◌, ◌-◌, ◌≤◌, ◌<◌, ◌≡◌, ◌∙◌, List, true, false, arith, length, ◌^◌, min, dec_lt, leb,
  ◌&&◌, ap, ltb, ap₂, sym, subst,
}
use mr_hak_os.Network.Stream.{accept_data, rx_capacity, is_fresh, sub32}
use mr_hak_os.Network.State.{Tcp}
use mr_hak_os.Network.Session.{Delivered, Carries, received, is_fresh_iff, sub32-shift}
use mr_hak_os.Network.Delivery.{Stored, accepted, store_fresh-Stored}
use mr_hak_os.Network.Packet.{Returns, branch-Returns, Returns-mono, returns}
use mr_hak_os.Network.Window.{Kept, same-Kept, unread, unread_at}

module _ (stream : ℕ → ℕ) (base : ℕ) where
  Stored-Delivered :
      (r n q seq : ℕ) (payload : List ℕ) (t u : Tcp)
      → Delivered stream base r n t
      → Carries stream base q seq payload
      → q ≤ n
      → n < q + length payload
      → Stored t seq (n - q) (accepted t (length payload - (n - q))) payload u
      → Delivered stream base r (min (q + length payload) (r + rx_capacity)) u
  Stored-Delivered r n q seq payload t u d c start end st = record {
    valid = st.valid;
    count = omega (arith, d.count, st.count, d.valid.fits);
    matches = λ i h. elim (dec_lt i (unread t)) [
      | yes old ↦ st.old i old ∙ d.matches i old
      | no new ↦
          let k = i - unread t in
          ap (unread_at u) (omega arith)
          ∙ st.new k (omega (arith, st.count))
          ∙ c.matches (n - q + k) (omega (arith, st.count))
          ∙ ap stream (omega (arith, d.count))
    ];
    next = omega (arith, st.next, c.number, d.count, d.valid.fits);
  }

  -- A segment of the stream that is not half of the numbers away moves the connection on to its end, or as far as there is
  -- room, and sets the flag for data, when it has the next byte; when it has not, because it is old or comes too early,
  -- it leaves the connection as it was, every part of it. What is unread is always the stream, from the next byte to
  -- read to the byte that is acknowledged, and whom the connection is with, its sequence number and its other
  -- flags stay.
  pub accept_data-Delivered :
      (r n q seq : ℕ) (payload : List ℕ) (t : Tcp)
      → Delivered stream base r n t
      → Carries stream base q seq payload
      → length payload < 2 ^ 16
      → n < q + 2 ^ 31
      → q + length payload < n + 2 ^ 31
      → Returns
          (λ u.
            Delivered stream base r (received r n q (length payload)) u
            × Kept t u
            × ((leb q n && ltb n (q + length payload)) ≡ true → u.data_seen ≡ true)
            × ((leb q n && ltb n (q + length payload)) ≡ false → u ≡ t))
          (accept_data seq payload t)
  unfolding accept_data
  accept_data-Delivered r n q seq payload t d c h a b =
      let test : is_fresh seq (length payload) t.ack ≡ leb q n && ltb n (q + length payload) =
        ap₂ (λ s k. is_fresh s (length payload) k) c.number d.next
        ∙ is_fresh_iff base n q (length payload) a b in
      branch-Returns _ _ _
        (λ fresh.
          let has : (leb q n && ltb n (q + length payload)) ≡ true = sym test ∙ fresh in
          let start : q ≤ n = ground arith in
          let end : n < q + length payload = ground arith in
          let skip : sub32 t.ack seq ≡ n - q =
            ap₂ sub32 d.next c.number ∙ sub32-shift base n q start a in
          rw has (
            Returns-mono
              (λ u st. (
                Stored-Delivered r n q seq payload t u d c start end (
                    subst (λ k. Stored t seq k (accepted t (length payload - k)) payload u) skip
                      st),
                st.kept,
                (λ e. st.seen),
                (λ e. absurd (cc)),
              ))
              (store_fresh-Stored seq payload t d.valid (omega arith) h)))
        (λ stale.
          let has : (leb q n && ltb n (q + length payload)) ≡ false = sym test ∙ stale in
          rw has (returns t (d, same-Kept t, (λ e. absurd (cc)), (λ e. refl))))
