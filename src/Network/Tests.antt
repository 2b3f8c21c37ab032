-- ===== src/Network/Tests.antt =====
-- The ARP cache, a route and a checksum on concrete values.
use mr_hak_os.Network.Arp.{remember-lookup, IsCache}
use mr_hak_os.Prelude.{
  leb, ℕ, ◌+◌, ◌<◌, ◌≡◌, refl, List, [], ◌∷◌, some, arith, ◌^◌, ◌%◌, zero, suc, Bool, true, false,
  get_or, ltb, drop, replicate, ap, ◌&&◌, length-replicate, get_or-drop,
}
use mr_hak_os.Network.{checksum, clear_arp_cache, remember_arp, lookup_arp}
use mr_hak_os.Network.Route.{checksum_lem, word_sum}
use mr_hak_os.Network.Sequence.{Event, InOrder, segment, run, run-InOrder, stream_read_of}
use mr_hak_os.Network.Session.{Delivered, Carries, received}
use mr_hak_os.Network.Packet.{Returns}
use mr_hak_os.Network.Valid.{IsTcp, IsBytes}
use mr_hak_os.Network.Window.{Kept}
use mr_hak_os.Network.State.{Net, Tcp}
use mr_hak_os.Network.Stream.{accept_data}
use mr_hak_os.Network.InOrder.{accept_data-Delivered}
use mr_hak_os.Network.Complete.{joined, transfer, transfer_complete}
use mr_hak_os.Network.Address.{parse_ip, format_ip, ip_text, octet_text, write_chars}
use mr_hak_os.Network.Printed.{parse_ip-format_ip}

empty-IsCache : IsCache clear_arp_cache
unfolding clear_arp_cache
empty-IsCache = record { size = refl; next_in = omega arith }

remember-lookup_example :
    IsCache (remember_arp 0x0A000202 (some (1 ∷ 2 ∷ 3 ∷ 4 ∷ 5 ∷ 6 ∷ [])) clear_arp_cache)
    × (lookup_arp 0x0A000202
          (remember_arp 0x0A000202 (some (1 ∷ 2 ∷ 3 ∷ 4 ∷ 5 ∷ 6 ∷ [])) clear_arp_cache)
        ≡ some (1 ∷ 2 ∷ 3 ∷ 4 ∷ 5 ∷ 6 ∷ []))
remember-lookup_example =
    remember-lookup 0x0A000202 (1 ∷ 2 ∷ 3 ∷ 4 ∷ 5 ∷ 6 ∷ []) clear_arp_cache empty-IsCache
      (λ e. absurd (omega arith))

-- A connection before its first data, with the number 7 expected.
abbrev new_tcp : Tcp
new_tcp = record {
  remote_ip = 0x0A000202;
  source_port = 40000;
  dest_port = 80;
  seq = 1;
  ack = 7;
  syn_ack_seen = true;
  fin_seen = false;
  rst_seen = false;
  data_seen = false;
  rx_buffer = replicate 16384 0;
  rx_len = 0;
  consumed = 0;
}

new-IsTcp : IsTcp new_tcp
new-IsTcp = record {
  size = length-replicate {A = ℕ} 16384 0;
  fits = omega arith;
  read = omega arith;
  word = omega arith;
}

abbrev net : Net
net = record {
  addresses = record { ip_address = 0x0A00020F; netmask = 0xFFFFFF00; gateway_ip = 0x0A000202 };
  dns_server = 0x0A000203;
  mac = 0x52 ∷ 0x54 ∷ 0 ∷ 0x12 ∷ 0x34 ∷ 0x56 ∷ [];
  arp_packets = 0;
  ipv4_packets = 0;
  icmp_packets = 0;
  dhcp_configured = true;
  arp = clear_arp_cache;
  icmp = record {
    last_echo_id = 0;
    last_echo_seq = 0;
    echo_reply_seen = false;
    last_echo_reply_ip = 0;
    last_echo_reply_ttl = 0;
    time_exceeded_seen = false;
    last_error_ip = 0;
    last_error_seq = 0;
  };
  dns = record { reply_seen = false; last_id = 0; last_ip = 0 };
  tcp = new_tcp;
  dhcp = record {
    offer_seen = false;
    ack_seen = false;
    xid = 0;
    offered_ip = 0;
    server_ip = 0;
    router_ip = 0;
    dns_ip = 0;
    netmask = 0;
  };
  sent = [];
}

abbrev all_bytes : List ℕ → Bool
all_bytes [] = true
all_bytes (b ∷ p) = ltb b 256 && all_bytes p

IsBytes-of_all : (p : List ℕ) → all_bytes p ≡ true → IsBytes p
IsBytes-of_all [] e i = omega arith
IsBytes-of_all (b ∷ p) e zero = ground arith
IsBytes-of_all (b ∷ p) e (suc i) = IsBytes-of_all p (ground arith) i

abbrev header : List ℕ
header = 0x45 ∷ 0x00 ∷ 0x12 ∷ []

-- Three bytes: the word 0x4500, and 0x12 as a high byte.
checksum_lem_example :
    (c : ℕ) × (checksum header ≡ some c) × (c < 2 ^ 16) × ((c + word_sum 256 header) % 65535 ≡ 0)
checksum_lem_example = checksum_lem header (IsBytes-of_all header refl) (omega arith)

-- The gateway, which is the other side of the connection, is in the ARP cache.
abbrev routed_net : Net
routed_net = record net {
  arp = remember_arp 0x0A000202 (some (2 ∷ 2 ∷ 2 ∷ 2 ∷ 2 ∷ 2 ∷ [])) clear_arp_cache;
}

-- A segment with "hello" from there.
abbrev tcp_frame : List ℕ
tcp_frame =
    82 ∷ 84 ∷ 0 ∷ 18 ∷ 52 ∷ 86 ∷ 2 ∷ 2 ∷ 2 ∷ 2 ∷ 2 ∷ 2 ∷ 8 ∷ 0 ∷ 69 ∷ 0 ∷ 0 ∷ 45 ∷ 0 ∷ 0 ∷ 0 ∷ 0
    ∷ 64 ∷ 6 ∷ 0 ∷ 0 ∷ 10 ∷ 0 ∷ 2 ∷ 2 ∷ 10 ∷ 0 ∷ 2 ∷ 15 ∷ 0 ∷ 80 ∷ 156 ∷ 64 ∷ 0 ∷ 0 ∷ 0 ∷ 7 ∷ 0 ∷ 0
    ∷ 0 ∷ 1 ∷ 80 ∷ 24 ∷ 16 ∷ 0 ∷ 0 ∷ 0 ∷ 0 ∷ 0 ∷ 104 ∷ 101 ∷ 108 ∷ 108 ∷ 111 ∷ []

abbrev hello : List ℕ
hello = b'h' ∷ b'e' ∷ b'l' ∷ b'l' ∷ b'o' ∷ []

abbrev hello_stream : ℕ → ℕ
hello_stream i = get_or hello i 0

new-Delivered : Delivered hello_stream 7 0 0 new_tcp
new-Delivered = record {
  valid = new-IsTcp;
  count = refl;
  matches = λ i h. absurd (omega arith);
  next = refl;
}

whole-Carries : Carries hello_stream 7 0 7 hello
whole-Carries = record { number = refl; matches = λ i h. ap hello_stream (omega arith) }

accept_data-Delivered_example :
    Returns
      (λ u.
        Delivered hello_stream 7 0 (received 0 0 0 5) u
        × Kept new_tcp u
        × ((leb 0 0 && ltb 0 5) ≡ true → u.data_seen ≡ true)
        × ((leb 0 0 && ltb 0 5) ≡ false → u ≡ new_tcp))
      (accept_data 7 hello new_tcp)
accept_data-Delivered_example =
    accept_data-Delivered hello_stream 7 0 0 0 7 hello new_tcp new-Delivered whole-Carries
      (omega arith) (omega arith) (omega arith)

-- The end of the stream comes first, then all of it twice.
abbrev disorder : List Event
disorder =
    segment 9 (drop 2 hello)
    ∷ segment 7 hello
    ∷ stream_read_of 3
    ∷ segment 7 hello
    ∷ stream_read_of 9
    ∷ []

tail-Carries : Carries hello_stream 7 2 9 (drop 2 hello)
tail-Carries = record { number = refl; matches = λ i h. get_or-drop 2 i hello 0 }

run-InOrder_example :
    Returns (InOrder hello_stream 7 5) (run disorder (record { tcp = new_tcp; output = [] }))
run-InOrder_example =
    run-InOrder hello_stream 7 5 disorder (record { tcp = new_tcp; output = [] }) (omega arith)
      (
        (2, tail-Carries, omega arith, omega arith),
        (
          (0, whole-Carries, omega arith, omega arith),
          (tt, ((0, whole-Carries, omega arith, omega arith), (tt, tt))),
        ),
      )
      (record {
        place = 0;
        inside = omega arith;
        connection = new-Delivered;
        so_far = λ i h. absurd (omega arith);
      })

transfer_complete_example :
    Returns
      (λ s. s.output ≡ joined (hello ∷ hello ∷ []))
      (run (transfer 7 0 10 (hello ∷ hello ∷ [])) (record { tcp = new_tcp; output = [] }))
transfer_complete_example =
    transfer_complete 7 (hello ∷ hello ∷ []) new_tcp new-IsTcp refl refl (omega arith)

parse_ip-format_ip_example : parse_ip (format_ip 0x0A00020F 16) ≡ some 0x0A00020F
parse_ip-format_ip_example = parse_ip-format_ip 0x0A00020F 16 (omega arith) (omega arith)

-- "10.0.2.15"
text_of_address :
    format_ip 0x0A00020F 16 ≡ b'1' ∷ b'0' ∷ b'.' ∷ b'0' ∷ b'.' ∷ b'2' ∷ b'.' ∷ b'1' ∷ b'5' ∷ 0 ∷ []
unfolding format_ip ip_text octet_text write_chars
text_of_address = refl
