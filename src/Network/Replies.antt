-- ===== src/Network/Replies.antt =====
-- handleDnsResponse and handleDhcpResponse of src/libc/network.cpp. `p` is `data` with its `length`; the
-- places are `uint16_t`.
use mr_hak_os.Network.State.{Dns, Net}
use mr_hak_os.Prelude.{
  ℕ, zero, suc, ◌+◌, List, Bool, true, false, Option, none, some, ◌==◌, if◌then◌else◌, not, ◌%◌,
  ltb, ◌^◌, leb, ◌&&◌, length, get_or, ◌||◌, ◌/◌,
}
use mr_hak_os.Network.Packet.{return_if, branch, ◌>>=◌, byte_of, or_return, rd32, rd16}
use mr_hak_os.Network.{default_netmask_for_ip, clear_arp_cache}

abbrev pub u16 : ℕ → ℕ
u16 n = n % 2 ^ 16

-- while (off < length && data[off] != 0): the place behind the labels; empty inside where the handler returns. At most
-- `fuel` rounds.
unfoldable pub skip_labels : ℕ → List ℕ → ℕ → Option (Option ℕ)
skip_labels zero p off = none
skip_labels (suc fuel) p off = return_if (leb (length p) off) (some off) (do
  label_len ← byte_of p off
  let rest = skip_labels fuel p (u16 (u16 (off + 1) + label_len))
  return_if (label_len == 0) (some off)
      (return_if (leb 0x40 label_len || ltb (length p) (u16 (off + 1) + label_len)) none rest))

-- for (q = 0; q < qd; q++): n more rounds
unfoldable pub skip_questions : ℕ → List ℕ → ℕ → Option (Option ℕ)
skip_questions zero p off = some (some off)
skip_questions (suc n) p off = do
  labels ← skip_labels (length p + 1) p off
  or_return labels none (λ off'.
      let rest = skip_questions n p (u16 (off' + 5)) in
      return_if (ltb (length p) (off' + 5)) none rest)

-- The name of an answer, compressed or not.
unfoldable pub skip_name : List ℕ → ℕ → Option (Option ℕ)
skip_name p off = do
  first ← byte_of p off
  branch (leb 0xC0 first) (return_if (ltb (length p) (off + 2)) none (some (some (u16 (off + 2)))))
      (skip_labels (length p + 1) p off >>= λ labels.
        or_return labels none
          (λ off'. return_if (leb (length p) off') none (some (some (u16 (off' + 1))))))

-- for (a = 0; a < an; a++): n more rounds; the first A record of class IN is taken.
unfoldable pub read_answers : ℕ → List ℕ → ℕ → Dns → Option Dns
read_answers zero p off dns = some dns
read_answers (suc n) p off dns = return_if (leb (length p) off) dns (do
  name ← skip_name p off
  or_return name dns (λ at. return_if (ltb (length p) (at + 10)) dns (do
    type ← rd16 p at
    klass ← rd16 p (at + 2)
    rd_len ← rd16 p (at + 8)
    let rest = read_answers n p (u16 (at + 10 + rd_len)) dns
    return_if (ltb (length p) (at + 10 + rd_len)) dns (
        branch ((type == 1) && (klass == 1) && (rd_len == 4))
          (rd32 p (at + 10) >>= λ ip. some (record dns { last_ip = ip; reply_seen = true }))
          rest))))

unfoldable pub handle_dns_response : List ℕ → Dns → Option Dns
handle_dns_response p dns = return_if (ltb (length p) 12) dns (do
  id ← rd16 p 0
  flags ← rd16 p 2
  qd ← rd16 p 4
  an ← rd16 p 6
  return_if (not (id == dns.last_id) || (flags / 2 ^ 15 % 2 == 0) || (qd == 0) || (an == 0)) dns (do
    questions ← skip_questions qd p 12
    or_return questions dns (λ off. read_answers an p off dns)))

-- What the options of a DHCP message say; 0 where an option is missing.
pub record Options : Type 0 where
  pub msg_type : ℕ
  pub router : ℕ
  pub dns : ℕ
  pub mask : ℕ
  pub server : ℕ

abbrev pub no_options : Options
no_options = record { msg_type = 0; router = 0; dns = 0; mask = 0; server = 0 }

-- The option `opt` with `len` bytes at `off`.
unfoldable pub read_option : ℕ → ℕ → List ℕ → ℕ → Options → Option Options
read_option opt len p off o =
    branch ((opt == 53) && leb 1 len) (byte_of p off >>= λ b. some (record o { msg_type = b })) (
      branch ((opt == 1) && leb 4 len) (rd32 p off >>= λ w. some (record o { mask = w })) (
        branch ((opt == 3) && leb 4 len) (rd32 p off >>= λ w. some (record o { router = w })) (
          branch ((opt == 6) && leb 4 len) (rd32 p off >>= λ w. some (record o { dns = w })) (
            branch ((opt == 54) && leb 4 len) (rd32 p off >>= λ w. some (record o { server = w }))
              (some o)))))

-- while (off < length): at most `fuel` rounds
unfoldable pub read_options : ℕ → List ℕ → ℕ → Options → Option Options
read_options zero p off o = none
read_options (suc fuel) p off o = return_if (leb (length p) off) o (do
  opt ← byte_of p off
  let at = u16 (off + 1)
  let pad = read_options fuel p at o
  branch (opt == 0) pad (
      return_if (opt == 255) o (
        return_if (leb (length p) at) o (do
          len ← byte_of p at
          let value = u16 (at + 1)
          return_if (ltb (length p) (value + len)) o (do
            o' ← read_option opt len p value o
            read_options fuel p (u16 (value + len)) o')))))

-- The first value that is not 0.
abbrev pub first_set : ℕ → ℕ → ℕ → ℕ
first_set a b c = if not (a == 0) then a else if not (b == 0) then b else c

-- The effect of a message with the address `yiaddr`.
unfoldable pub apply_dhcp : ℕ → Options → Net → Net
apply_dhcp yiaddr o n =
    if o.msg_type == 2
    then record n {
      dhcp = record n.dhcp {
        offered_ip = yiaddr;
        server_ip = o.server;
        router_ip = o.router;
        dns_ip = o.dns;
        netmask = o.mask;
        offer_seen = true;
      };
    }
    else if o.msg_type == 5
    then record n {
      addresses = record {
        ip_address = yiaddr;
        gateway_ip = first_set o.router n.dhcp.router_ip n.addresses.gateway_ip;
        netmask = first_set o.mask n.dhcp.netmask (default_netmask_for_ip yiaddr);
      };
      dns_server = first_set o.dns n.dhcp.dns_ip n.dns_server;
      dhcp_configured = true;
      dhcp = record n.dhcp { ack_seen = true };
      arp = clear_arp_cache;
    }
    else n

-- for (m = m; n more rounds; m++) if (data[28 + m] != info.mac[m]) return;
unfoldable pub same_mac : ℕ → ℕ → List ℕ → List ℕ → Option Bool
same_mac zero m p mac = some true
same_mac (suc n) m p mac = do
  b ← byte_of p (28 + m)
  let rest = same_mac n (m + 1) p mac
  return_if (not (b == get_or mac m 0)) false rest

unfoldable pub handle_dhcp_response : List ℕ → Net → Option Net
handle_dhcp_response p n = return_if (ltb (length p) 240) n (do
  op ← byte_of p 0
  htype ← byte_of p 1
  hlen ← byte_of p 2
  return_if (not (op == 2) || not (htype == 1) || not (hlen == 6)) n (do
    xid ← rd32 p 4
    return_if (not (xid == n.dhcp.xid)) n (do
      same ← same_mac 6 0 p n.mac
      return_if (not same) n (do
        a ← byte_of p 236
        b ← byte_of p 237
        c ← byte_of p 238
        d ← byte_of p 239
        return_if (not (a == 99) || not (b == 130) || not (c == 83) || not (d == 99)) n (do
          yiaddr ← rd32 p 16
          o ← read_options (length p + 1) p 240 no_options
          some (apply_dhcp yiaddr o n))))))
