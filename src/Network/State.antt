-- ===== src/Network/State.antt =====
-- The object `Network` of src/libc/network.cpp, as far as the handlers of received packets use it.
use mr_hak_os.Network.{Addresses, ArpCache}
use mr_hak_os.Prelude.{ℕ, ◌+◌, List, Bool, ◌%◌, ◌^◌}

-- The echo request that is out, and the answers to it.
pub record Icmp : Type 0 where
  pub last_echo_id : ℕ
  pub last_echo_seq : ℕ
  pub echo_reply_seen : Bool
  pub last_echo_reply_ip : ℕ
  pub last_echo_reply_ttl : ℕ
  pub time_exceeded_seen : Bool
  pub last_error_ip : ℕ
  pub last_error_seq : ℕ

pub record Dns : Type 0 where
  pub reply_seen : Bool
  pub last_id : ℕ
  pub last_ip : ℕ

-- lastTcp.. and tcp..: the one connection.
pub record Tcp : Type 0 where
  pub remote_ip : ℕ
  pub source_port : ℕ
  pub dest_port : ℕ
  pub seq : ℕ
  pub ack : ℕ
  pub syn_ack_seen : Bool
  pub fin_seen : Bool
  pub rst_seen : Bool
  pub data_seen : Bool
  pub rx_buffer : List ℕ
  pub rx_len : ℕ
  pub consumed : ℕ

pub record Dhcp : Type 0 where
  pub offer_seen : Bool
  pub ack_seen : Bool
  pub xid : ℕ
  pub offered_ip : ℕ
  pub server_ip : ℕ
  pub router_ip : ℕ
  pub dns_ip : ℕ
  pub netmask : ℕ

-- What is handed to sendFrame: an ARP reply to a MAC address; and what sendTcpPacket makes of its arguments, a segment
-- without data to a MAC address, for the remote host, with its ports, numbers and flags.
pub data Sent : Type 0 where
  arp_reply : List ℕ → List ℕ → Sent
  tcp_segment : List ℕ → ℕ → ℕ → ℕ → ℕ → ℕ → ℕ → Sent

-- `sent` is newest first.
pub record Net : Type 0 where
  pub addresses : Addresses
  pub dns_server : ℕ
  pub mac : List ℕ
  pub arp_packets : ℕ
  pub ipv4_packets : ℕ
  pub icmp_packets : ℕ
  pub dhcp_configured : Bool
  pub arp : ArpCache
  pub icmp : Icmp
  pub dns : Dns
  pub tcp : Tcp
  pub dhcp : Dhcp
  pub sent : List Sent

-- A counter of 32 bits.
abbrev pub count32 : ℕ → ℕ
count32 n = (n + 1) % 2 ^ 32
