-- ===== src/Network/Receive.antt =====
-- handleFrame of src/libc/network.cpp and what it hands the payload to: handleArp, handleIpv4 and handleUdp.
use mr_hak_os.Network.State.{Net, count32, arp_reply}
use mr_hak_os.Prelude.{
  ℕ, ◌+◌, ◌-◌, ◌*◌, List, [], ◌∷◌, ◌++◌, Bool, true, false, Option, some, ◌==◌, if◌then◌else◌, ◌/◌,
  ltb, ◌^◌, ◌&&◌, leb, length, ◌%◌, ◌||◌, not,
}
use mr_hak_os.Network.Packet.{◌>>=◌, return_if, branch, byte_of, rd16, view, rd32}
use mr_hak_os.Network.Segment.{handle_tcp}
use mr_hak_os.Network.Replies.{handle_dns_response, handle_dhcp_response}
use mr_hak_os.Network.{broadcast_ip, remember_arp}
use mr_hak_os.Network.Stream.{read_bytes}

-- wr16 and wr32: big-endian bytes
abbrev pub wr16 : ℕ → List ℕ
wr16 v = v / 2 ^ 8 % 256 ∷ v % 256 ∷ []

abbrev pub wr32 : ℕ → List ℕ
wr32 v = v / 2 ^ 24 % 256 ∷ v / 2 ^ 16 % 256 ∷ v / 2 ^ 8 % 256 ∷ v % 256 ∷ []

-- The 28 bytes of the reply to who-has our address.
unfoldable pub arp_answer : Net → List ℕ → ℕ → List ℕ
arp_answer n sender_mac sender_ip =
    wr16 1
    ++ (wr16 0x0800
        ++ (6
            ∷ 4
            ∷ (wr16 2
                ++ (n.mac ++ (wr32 n.addresses.ip_address ++ (sender_mac ++ wr32 sender_ip))))))

-- The effect of an ARP packet from a host; `asks` is the test for a question about our address.
unfoldable pub learn_arp : Bool → List ℕ → ℕ → Net → Net
unfolding arp_answer
learn_arp asks sender_mac sender_ip n =
    let known = record n {
      arp = remember_arp sender_ip (some sender_mac) n.arp;
      arp_packets = count32 n.arp_packets;
    } in
    if asks
    then record known { sent = arp_reply sender_mac (arp_answer n sender_mac sender_ip) ∷ n.sent }
    else known

unfoldable pub handle_arp : List ℕ → Net → Option Net
handle_arp p n = return_if (ltb (length p) 28) n (do
  hardware ← rd16 p 0
  protocol ← rd16 p 2
  hlen ← byte_of p 4
  plen ← byte_of p 5
  return_if (not (hardware == 1) || not (protocol == 0x0800) || not (hlen == 6) || not (plen == 4))
      n
      (do
        op ← rd16 p 6
        sender_ip ← rd32 p 14
        target_ip ← rd32 p 24
        sender_mac ← read_bytes 6 8 p
        some (
            learn_arp ((op == 1) && (target_ip == n.addresses.ip_address)) sender_mac sender_ip n)))

unfoldable pub handle_udp : List ℕ → ℕ → ℕ → Net → Option Net
handle_udp ip ihl total n = return_if (ltb total (ihl + 8)) n (do
  source_port ← rd16 ip (ihl + 0)
  dest_port ← rd16 ip (ihl + 2)
  udp_len ← rd16 ip (ihl + 4)
  return_if (ltb udp_len 8 || ltb total (ihl + udp_len)) n (
      branch ((source_port == 53) && (dest_port == 5300))
        (handle_dns_response (view ip (ihl + 8) (udp_len - 8)) n.dns >>= λ dns.
          some (record n { dns = dns }))
        (branch ((source_port == 67) && (dest_port == 68))
          (handle_dhcp_response (view ip (ihl + 8) (udp_len - 8)) n) (some n))))

-- The quoted packet in a time-exceeded message at `icmp`.
unfoldable pub handle_time_exceeded : List ℕ → ℕ → ℕ → ℕ → Net → Option Net
handle_time_exceeded p icmp total source_ip n = do
  first ← byte_of p (icmp + 8)
  let inner_ihl = first % 16 * 4
  return_if (not (first / 16 == 4) || ltb inner_ihl 20) n (do
    protocol ← byte_of p (icmp + 8 + 9)
    return_if (not (protocol == 1) || ltb total (icmp + 8 + inner_ihl + 8)) n (do
      seq ← rd16 p (icmp + 8 + inner_ihl + 6)
      some (
          if seq == n.icmp.last_error_seq
          then record n {
            icmp = record n.icmp { time_exceeded_seen = true; last_error_ip = source_ip };
            icmp_packets = count32 n.icmp_packets;
          }
          else n)))

unfoldable pub handle_icmp : List ℕ → ℕ → ℕ → ℕ → Net → Option Net
handle_icmp p ihl total source_ip n = do
  type ← byte_of p ihl
  echo_seq ← rd16 p (ihl + 6)
  ttl ← byte_of p 8
  branch ((type == 0) && (echo_seq == n.icmp.last_echo_seq))
      (some (record n {
        icmp = record n.icmp {
          echo_reply_seen = true;
          last_echo_reply_ip = source_ip;
          last_echo_reply_ttl = ttl;
        };
        icmp_packets = count32 n.icmp_packets;
      }))
      (branch ((type == 11) && leb (ihl + 36) total) (handle_time_exceeded p ihl total source_ip n)
        (some n))

-- The packet is for us, or for all, or the answer of a DHCP server; `protocol` is p[9].
unfoldable pub dispatch : List ℕ → ℕ → ℕ → ℕ → ℕ → Net → Option Net
dispatch p ihl total protocol source_ip n =
    branch ((protocol == 1) && leb (ihl + 8) total) (handle_icmp p ihl total source_ip n) (
      branch (protocol == 17) (handle_udp p ihl total n)
        (branch (protocol == 6) (handle_tcp p ihl total n) (some n)))

-- Whether a datagram goes from port 67 to port 68.
unfoldable pub is_dhcp : List ℕ → ℕ → ℕ → ℕ → Option Bool
is_dhcp p ihl total protocol =
    branch ((protocol == 17) && leb (ihl + 8) total)
      (do
        source_port ← rd16 p (ihl + 0)
        dest_port ← rd16 p (ihl + 2)
        some ((source_port == 67) && (dest_port == 68)))
      (some false)

unfoldable pub handle_ipv4 : List ℕ → Net → Option Net
handle_ipv4 p n = return_if (ltb (length p) 20) n (do
  first ← byte_of p 0
  return_if (not (first / 16 == 4)) n (do
    total ← rd16 p 2
    source_ip ← rd32 p 12
    dest_ip ← rd32 p 16
    let ihl = first % 16 * 4
    return_if (ltb ihl 20 || ltb (length p) total) n (do
      protocol ← byte_of p 9
      dhcp ← is_dhcp p ihl total protocol
      return_if
          (not (dest_ip == n.addresses.ip_address) && not (dest_ip == broadcast_ip) && not dhcp) n
          (dispatch p ihl total protocol source_ip
            (record n { ipv4_packets = count32 n.ipv4_packets })))))

unfoldable pub handle_frame : List ℕ → Net → Option Net
handle_frame frame n = return_if (ltb (length frame) 14) n (do
  type ← rd16 frame 12
  let payload = view frame 14 (length frame - 14)
  branch (type == 0x0806) (handle_arp payload n)
      (branch (type == 0x0800) (handle_ipv4 payload n) (some n)))
