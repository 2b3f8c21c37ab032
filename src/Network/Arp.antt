-- ===== src/Network/Arp.antt =====
-- The ARP cache of src/libc/network.cpp: what is remembered is found.
use mr_hak_os.Network.{
  lookup_slots, ArpCache, refresh, ArpSlot, arp_cache_size, is_for, remember_arp, lookup_arp,
}
use mr_hak_os.Prelude.{
  ℕ, zero, suc, ◌<◌, ◌≡◌, ◌≢◌, ◌∙◌, refl, List, [], ◌∷◌, true, false, none, some, inl, inr, arith,
  ◌==◌, length, set, Bool-cases, Option-cases, ap, sym, length-set, subst,
}

-- Eight slots, and the next one to use among them.
pub record IsCache (cache : ArpCache) : Type 0 where
  pub size : length cache.slots ≡ arp_cache_size
  pub next_in : cache.next < arp_cache_size

-- The first slot for an address, after the others have been passed over.
refresh-some :
    (ip : ℕ) (mac : List ℕ) (slots slots' : List ArpSlot)
    → refresh ip mac slots ≡ some slots'
    → (length slots' ≡ length slots) × (lookup_slots ip slots' ≡ some mac)
unfolding refresh lookup_slots
refresh-some ip mac [] slots' e = absurd (cc)
refresh-some ip mac (slot ∷ slots) slots' e = elim (Bool-cases (is_for ip slot)) [
  | inl here ↦
      let same : record slot { mac = mac } ∷ slots ≡ slots' = ground arith in
      (ap length (sym same), subst (λ s. lookup_slots ip s ≡ some mac) same (rw here refl))
  | inr other ↦ elim (Option-cases (refresh ip mac slots)) [
    | inl missing ↦ absurd (ground arith)
    | inr (rest, r) ↦
        let same : slot ∷ rest ≡ slots' = ground arith in
        let (n, found) = refresh-some ip mac slots rest r in
        (
          ap length (sym same) ∙ ap suc n,
          subst (λ s. lookup_slots ip s ≡ some mac) same (rw other found),
        )
  ]
]

refresh-none :
    (ip : ℕ) (mac : List ℕ) (slot : ArpSlot) (slots : List ArpSlot)
    → refresh ip mac (slot ∷ slots) ≡ none
    → (is_for ip slot ≡ false) × (refresh ip mac slots ≡ none)
unfolding refresh
refresh-none ip mac slot slots e = elim (Bool-cases (is_for ip slot)) [
  | inl here ↦ absurd (ground arith)
  | inr other ↦ elim (Option-cases (refresh ip mac slots)) [
    | inl missing ↦ (other, missing)
    | inr (rest, r) ↦ absurd (ground arith)
  ]
]

lookup-set :
    (ip : ℕ) (mac : List ℕ) (slots : List ArpSlot) (i : ℕ)
    → refresh ip mac slots ≡ none
    → i < length slots
    → lookup_slots ip (set slots i (record { ip = ip; mac = mac; valid = true })) ≡ some mac
unfolding lookup_slots
lookup-set ip mac [] i e h = elim h [ ]
lookup-set ip mac (slot ∷ slots) zero e h = ground arith
lookup-set ip mac (slot ∷ slots) (suc i) e h =
    let (other, rest) = refresh-none ip mac slot slots e in
    rw other (lookup-set ip mac slots i rest (omega arith))

-- What `rememberArp` has been told, `lookupArp` finds: the address other than 0 is found with the MAC address given last,
-- whether it was in the cache before, took a free slot or took the place of another; the cache keeps its eight slots.
pub remember-lookup :
    (ip : ℕ) (mac : List ℕ) (cache : ArpCache)
    → IsCache cache
    → ip ≢ 0
    → IsCache (remember_arp ip (some mac) cache)
      × (lookup_arp ip (remember_arp ip (some mac) cache) ≡ some mac)
unfolding remember_arp lookup_arp
remember-lookup ip mac cache v some_ip =
    let z : (ip == 0) ≡ false = ground arith in
    elim (Option-cases (refresh ip mac cache.slots)) [
      | inl missing ↦
          let new : ArpSlot = record { ip = ip; mac = mac; valid = true } in
          rw (z, missing)
            (
              record {
                size = length-set cache.slots cache.next new ∙ v.size;
                next_in = omega arith;
              },
              lookup-set ip mac cache.slots cache.next missing (omega (arith, v.size, v.next_in)),
            )
      | inr (slots, r) ↦
          let (n, found) = refresh-some ip mac cache.slots slots r in
          rw (z, r) (record { size = n ∙ v.size; next_in = v.next_in }, found)
    ]
