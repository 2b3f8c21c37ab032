-- ===== src/Network/Segment.antt =====
-- handleTcp of src/libc/network.cpp.
use mr_hak_os.Network.State.{Tcp, Net, tcp_segment}
use mr_hak_os.Network.{lookup_arp, route_next_hop}
use mr_hak_os.Prelude.{
  none, ℕ, ◌+◌, ◌-◌, ◌*◌, List, [], ◌∷◌, true, Option, some, ◌==◌, if◌then◌else◌, ◌%◌, ◌/◌, ltb,
  ◌&&◌, length, ◌^◌, not, ◌||◌,
}
use mr_hak_os.Network.Stream.{accept_data, is_negative, sub32}
use mr_hak_os.Network.Packet.{branch, ◌>>=◌, return_if, rd32, rd16, byte_of, view}

-- sendTcpPacket(lastTcpRemoteIp, .., lastTcpSeq, lastTcpAck, 0x10, 0, 0), while a frame is handled. The segment goes out
-- when the MAC address of the next hop is in the ARP cache. Else arping polls, and finds the same frame again, which the
-- drivers hand on before they step behind it: its handling comes to the same call, with no end, and no result.
unfoldable pub send_ack : Net → Option Net
unfolding route_next_hop lookup_arp
send_ack n = elim (lookup_arp (route_next_hop n.tcp.remote_ip n.addresses) n.arp) [
  | none ↦ none
  | some mac ↦ some (record n {
    sent =
        tcp_segment mac n.tcp.remote_ip n.tcp.source_port n.tcp.dest_port n.tcp.seq n.tcp.ack 0x10
        ∷ n.sent;
  })
]

-- (flags & 0x12) == 0x12 && ack == lastTcpSeq + 1
unfoldable pub accept_syn_ack : ℕ → ℕ → ℕ → Tcp → Tcp
accept_syn_ack flags seq ack t =
    if (flags / 2 % 2 == 1) && (flags / 16 % 2 == 1) && (ack == (t.seq + 1) % 2 ^ 32)
    then record t { ack = (seq + 1) % 2 ^ 32; seq = ack; syn_ack_seen = true }
    else t

-- if (payloadLen > 0): the data, and the acknowledgement
unfoldable pub accept_payload : ℕ → List ℕ → Net → Option Net
unfolding accept_data ◌>>=◌ send_ack
accept_payload seq [] n = some n
accept_payload seq (b ∷ payload) n =
    (accept_data seq (b ∷ payload) n.tcp >>= λ t. send_ack (record n { tcp = t }))

-- if (flags & 0x01)
unfoldable pub accept_fin : ℕ → ℕ → Net → Option Net
unfolding send_ack branch
accept_fin flags fin_seq n =
    branch ((flags % 2 == 1) && not (is_negative (sub32 n.tcp.ack fin_seq)))
      (send_ack (record n {
        tcp = record n.tcp {
          ack = if n.tcp.ack == fin_seq then (fin_seq + 1) % 2 ^ 32 else n.tcp.ack;
          fin_seen = true;
        };
      }))
      (some n)

-- Behind the tests of the header: the segment belongs to the connection.
unfoldable pub accept_segment : ℕ → ℕ → ℕ → List ℕ → Net → Option Net
unfolding accept_syn_ack accept_payload accept_fin ◌>>=◌ return_if
accept_segment flags seq ack payload n =
    return_if (flags / 4 % 2 == 1) (record n { tcp = record n.tcp { rst_seen = true } })
      (accept_payload seq payload (record n { tcp = accept_syn_ack flags seq ack n.tcp })
        >>= accept_fin flags ((seq + length payload) % 2 ^ 32))

-- The packet is the first `total` bytes.
unfoldable pub handle_tcp : List ℕ → ℕ → ℕ → Net → Option Net
handle_tcp ip ihl total n = return_if (ltb total (ihl + 20)) n (do
  source_ip ← rd32 ip 12
  source_port ← rd16 ip (ihl + 0)
  dest_port ← rd16 ip (ihl + 2)
  seq ← rd32 ip (ihl + 4)
  ack ← rd32 ip (ihl + 8)
  offset ← byte_of ip (ihl + 12)
  flags ← byte_of ip (ihl + 13)
  let data_offset = offset / 16 % 16 * 4
  return_if
      (not (source_ip == n.tcp.remote_ip)
        || not (source_port == n.tcp.dest_port)
        || not (dest_port == n.tcp.source_port)
        || ltb data_offset 20)
      n
      (return_if (ltb total (ihl + data_offset)) n
        (accept_segment flags seq ack (view ip (ihl + data_offset) (total - ihl - data_offset)) n)))
