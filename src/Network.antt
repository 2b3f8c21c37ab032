-- ===== src/Network.antt =====
-- Parts of src/libc/network.cpp: here the ARP cache, the choice of the next hop and the Internet checksums. An
-- IPv4 address is a 32-bit word; a MAC address is the list of its six bytes.
pub mod Arp
pub mod Packet
pub mod State
pub mod Stream
pub mod Segment
pub mod Replies
pub mod Receive
pub mod Route
pub mod Responses
pub mod Valid
pub mod Lease
pub mod Connection
pub mod Safety
pub mod Window
pub mod Delivery
pub mod Session
pub mod InOrder
pub mod Reading
pub mod Sequence
pub mod Complete
pub mod Answer
pub mod Address
pub mod Printed
mod Tests
use mr_hak_os.Prelude.{
  ℕ, zero, suc, ◌+◌, ◌-◌, ◌*◌, ◌≤◌, ◌<◌, ◌≡◌, ◌≢◌, ◌∙◌, ◌⊎◌, refl, List, [], ◌∷◌, ◌++◌, Bool, true,
  false, Option, none, some, inl, inr, arith, ◌==◌, if◌then◌else◌, replicate, ◌/◌, not, set, ◌&&◌,
  ◌%◌, ◌||◌, ◌^◌, length, ltb, bit_and,
}

-- One slot: arpIp[i], arpMac[i], arpValid[i].
pub record ArpSlot : Type 0 where
  pub ip : ℕ
  pub mac : List ℕ
  pub valid : Bool

pub record ArpCache : Type 0 where
  pub slots : List ArpSlot
  pub next : ℕ

abbrev pub arp_cache_size : ℕ
arp_cache_size = 8

abbrev pub is_for : ℕ → ArpSlot → Bool
is_for ip slot = slot.valid && (slot.ip == ip)

-- The loop of lookupArp.
unfoldable pub lookup_slots : ℕ → List ArpSlot → Option (List ℕ)
lookup_slots ip [] = none
lookup_slots ip (slot ∷ slots) =
    let rest = lookup_slots ip slots in if is_for ip slot then some slot.mac else rest

unfoldable pub lookup_arp : ℕ → ArpCache → Option (List ℕ)
unfolding lookup_slots
lookup_arp ip cache = lookup_slots ip cache.slots

-- The loop of rememberArp: the slots with the new address in the first slot for `ip`, if there is one.
unfoldable pub refresh : ℕ → List ℕ → List ArpSlot → Option (List ArpSlot)
refresh ip mac [] = none
refresh ip mac (slot ∷ slots) =
    let rest = refresh ip mac slots in
    if is_for ip slot
    then some (record slot { mac = mac } ∷ slots)
    else elim rest [ none ↦ none | some slots' ↦ some (slot ∷ slots') ]

unfoldable pub remember_arp : ℕ → Option (List ℕ) → ArpCache → ArpCache
unfolding refresh
remember_arp ip none cache = cache
remember_arp ip (some mac) cache = if ip == 0 then cache else elim (refresh ip mac cache.slots) [
  | some slots ↦ record cache { slots = slots }
  | none ↦ record {
    slots = set cache.slots cache.next (record { ip = ip; mac = mac; valid = true });
    next = (cache.next + 1) % arp_cache_size;
  }
]

unfoldable pub clear_arp_cache : ArpCache
clear_arp_cache = record {
  slots = replicate arp_cache_size (record { ip = 0; mac = replicate 6 0; valid = false });
  next = 0;
}

-- The fields of `info` that the routing reads.
pub record Addresses : Type 0 where
  pub ip_address : ℕ
  pub netmask : ℕ
  pub gateway_ip : ℕ

abbrev pub broadcast_ip : ℕ
broadcast_ip = 0xFFFFFFFF

abbrev pub same_subnet : ℕ → ℕ → ℕ → Bool
same_subnet a b mask = not (mask == 0) && (bit_and a mask == bit_and b mask)

unfoldable pub default_netmask_for_ip : ℕ → ℕ
default_netmask_for_ip ip =
    let first = ip / 2 ^ 24 % 256 in
    if ltb first 128 then 0xFF000000 else if ltb first 192 then 0xFFFF0000 else 0xFFFFFF00

unfoldable pub route_next_hop : ℕ → Addresses → ℕ
route_next_hop target info =
    if (target == 0) || (target == broadcast_ip)
    then target
    else if info.gateway_ip == 0
    then target
    else if target == info.gateway_ip
    then target
    else if info.netmask == 0
    then info.gateway_ip
    else if not (same_subnet target info.ip_address info.netmask)
    then info.gateway_ip
    else target

-- The 16-bit words of the bytes, the last odd byte as a high byte, added to `sum`.
unfoldable pub sum_words : ℕ → List ℕ → ℕ
sum_words sum [] = sum
sum_words sum (a ∷ []) = (sum + a * 256) % 2 ^ 32
sum_words sum (a ∷ b ∷ rest) = sum_words ((sum + (a * 256 + b)) % 2 ^ 32) rest

-- while (sum >> 16) sum = (sum & 0xffff) + (sum >> 16); at most `fuel` rounds.
unfoldable pub fold_carries : ℕ → ℕ → Option ℕ
fold_carries zero sum = none
fold_carries (suc fuel) sum =
    let rest = fold_carries fuel (sum % 2 ^ 16 + sum / 2 ^ 16) in
    if sum / 2 ^ 16 == 0 then some sum else rest

-- The loop ends after two rounds at most; the third finds nothing left to fold.
unfoldable pub checksum : List ℕ → Option ℕ
unfolding sum_words fold_carries
checksum bytes = elim (fold_carries 3 (sum_words 0 bytes)) [
  | none ↦ none
  | some sum ↦ some (2 ^ 16 - 1 - sum)
]

unfoldable pub tcp_checksum : ℕ → ℕ → List ℕ → Option ℕ
unfolding sum_words fold_carries
tcp_checksum source destination segment =
    let pseudo =
      source / 2 ^ 16
      + source % 2 ^ 16
      + destination / 2 ^ 16
      + destination % 2 ^ 16
      + 6
      + length segment in
    elim (fold_carries 3 (sum_words pseudo segment)) [
      | none ↦ none
      | some sum ↦ some (2 ^ 16 - 1 - sum)
    ]
