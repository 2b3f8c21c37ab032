-- ===== src/Network/Connection.antt =====
-- handleTcp of src/libc/network.cpp: the bytes that are read, and what is kept.
use mr_hak_os.Prelude.{
  if◌then◌else◌, ◌≡◌, refl, some, subst, sym, ℕ, ◌+◌, ◌-◌, ◌*◌, ◌≤◌, ◌<◌, List, [], ◌∷◌, true, inl,
  inr, arith, ◌==◌, length, ◌^◌, Bool-cases, ◌/◌, ◌%◌, ◌&&◌, get_or, length-take, drop, length-drop,
}
use mr_hak_os.Network.Segment.{
  handle_tcp, accept_payload, accept_syn_ack, accept_segment, accept_fin, send_ack,
}
use mr_hak_os.Network.{lookup_arp, route_next_hop}
use mr_hak_os.Network.State.{Net, Tcp}
use mr_hak_os.Network.Valid.{IsNet, IsBytes, IsTcp, IsBytes-be32}
use mr_hak_os.Network.Packet.{
  Returns-mono, branch-Returns, Returns, return_if-Returns, returns, rd32-then, Returns-bind,
  rd16-then, byte_of-then,
}
use mr_hak_os.Network.Delivery.{accept_data-IsTcp}

-- The MAC address of the next hop to the host is known.
abbrev pub HasRoute : ℕ → Net → Type 0
HasRoute host n = (mac : List ℕ) × (lookup_arp (route_next_hop host n.addresses) n.arp ≡ some mac)

-- The network while a segment is handled.
abbrev Routed : Net → Type 0
Routed n = IsNet n × HasRoute n.tcp.remote_ip n

send_ack-Returns : (n : Net) → Routed n → Returns Routed (send_ack n)
unfolding send_ack
send_ack-Returns n (v, (mac, e)) =
    rw (send_ack, e) (returns _ (record { cache = v.cache; stream = v.stream }, (mac, e)))

-- A change of the connection that keeps the host.
with_tcp-Routed :
    (n : Net) (t : Tcp)
    → Routed n
    → IsTcp t
    → t.remote_ip ≡ n.tcp.remote_ip
    → Routed (record n { tcp = t })
with_tcp-Routed n t (v, route) w same =
    (record { cache = v.cache; stream = w }, subst (λ host. HasRoute host n) (sym same) route)

accept_syn_ack-remote_ip :
    (flags seq ack : ℕ) (t : Tcp) → (accept_syn_ack flags seq ack t).remote_ip ≡ t.remote_ip
unfolding accept_syn_ack
accept_syn_ack-remote_ip flags seq ack t = ground arith

pub accept_syn_ack-IsTcp :
    (flags seq ack : ℕ) (t : Tcp) → IsTcp t → IsTcp (accept_syn_ack flags seq ack t)
unfolding accept_syn_ack
accept_syn_ack-IsTcp flags seq ack t v =
    elim (Bool-cases
      ((flags / 2 % 2 == 1) && (flags / 16 % 2 == 1) && (ack == (t.seq + 1) % 2 ^ 32))) [
        | inl both ↦
            rw both (record { size = v.size; fits = v.fits; read = v.read; word = omega arith })
        | inr other ↦ rw other v
      ]

accept_payload-Returns :
    (seq : ℕ) (payload : List ℕ) (n : Net)
    → Routed n
    → seq < 2 ^ 32
    → length payload < 2 ^ 16
    → Returns Routed (accept_payload seq payload n)
unfolding accept_payload
accept_payload-Returns seq [] n v s h = returns n v
accept_payload-Returns seq (b ∷ payload) n v s h =
    Returns-bind (accept_data-IsTcp seq (b ∷ payload) n.tcp v.0.stream s (omega arith) h)
      (λ t w. send_ack-Returns _ (with_tcp-Routed n t v w.0 w.1.remote_ip))

accept_fin-Returns :
    (flags fin_seq : ℕ) (n : Net) → Routed n → Returns Routed (accept_fin flags fin_seq n)
unfolding accept_fin
accept_fin-Returns flags fin_seq n v =
    let w = v.0.stream in
    let closing : Tcp = record n.tcp {
      ack = if n.tcp.ack == fin_seq then (fin_seq + 1) % 2 ^ 32 else n.tcp.ack;
      fin_seen = true;
    } in
    let closing_valid : IsTcp closing = record {
      size = w.size;
      fits = w.fits;
      read = w.read;
      word = ground (arith, w.word);
    } in
    branch-Returns _ _ _
      (λ fin. send_ack-Returns _ (with_tcp-Routed n closing v closing_valid refl))
      (λ other. returns n v)

accept_segment-Returns :
    (flags seq ack : ℕ) (payload : List ℕ) (n : Net)
    → Routed n
    → seq < 2 ^ 32
    → length payload < 2 ^ 16
    → Returns Routed (accept_segment flags seq ack payload n)
unfolding accept_segment
accept_segment-Returns flags seq ack payload n v s h =
    let w = v.0.stream in
    let closed : Tcp = record n.tcp { rst_seen = true } in
    let closed_valid : IsTcp closed = record {
      size = w.size;
      fits = w.fits;
      read = w.read;
      word = w.word;
    } in
    let started =
      with_tcp-Routed n (accept_syn_ack flags seq ack n.tcp) v
        (accept_syn_ack-IsTcp flags seq ack n.tcp w)
        (accept_syn_ack-remote_ip flags seq ack n.tcp) in
    return_if-Returns (flags / 4 % 2 == 1) (record n { tcp = closed }) _
      (λ reset. with_tcp-Routed n closed v closed_valid refl)
      (λ _.
        Returns-bind (accept_payload-Returns seq payload _ started s h)
          (λ n' v'. accept_fin-Returns flags _ n' v'))

pub handle_tcp-Returns :
    (ip : List ℕ) (ihl total : ℕ) (n : Net)
    → IsBytes ip
    → 20 ≤ ihl
    → total ≤ length ip
    → length ip < 2 ^ 16
    → IsNet n
    → HasRoute n.tcp.remote_ip n
    → Returns IsNet (handle_tcp ip ihl total n)
unfolding handle_tcp
handle_tcp-Returns ip ihl total n bytes i l h v route =
    return_if-Returns _ _ _ (λ _. v)
      (λ long. rd32-then ip 12 _ (ground arith) (
        rd16-then ip _ _ (ground arith) (
          rd16-then ip _ _ (ground arith) (
            rd32-then ip _ _ (ground arith) (
              rd32-then ip _ _ (ground arith) (
                byte_of-then ip _ _ (ground arith) (
                  byte_of-then ip _ _ (ground arith) (
                    return_if-Returns _ _ _ (λ _. v)
                      (λ ours.
                        return_if-Returns _ _ _ (λ _. v)
                          (λ fits.
                            let at = ihl + get_or ip (ihl + 12) 0 / 16 % 16 * 4 in
                            let seq_word = IsBytes-be32 ip (ihl + 4) bytes in
                            Returns-mono (λ m w. w.0)
                              (accept_segment-Returns _ _ _ _ n (v, route) seq_word
                                (omega (
                                  arith,
                                  length-take (total - ihl - get_or ip (ihl + 12) 0 / 16 % 16 * 4)
                                      (drop at ip),
                                  length-drop at ip,
                                )))))))))))))
