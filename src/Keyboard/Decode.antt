-- ===== src/Keyboard/Decode.antt =====
-- What a scancode means: the key that it delivers, and the two mode flags.
use mr_hak_os.Keyboard.{
  Keyboard, is_release, process_extended, table_key, special_key, enqueue_key, process_scancode,
  process_plain,
}
use mr_hak_os.Prelude.{
  ℕ, ◌≡◌, ◌∙◌, refl, List, Bool, false, inl, inr, arith, ◌==◌, if◌then◌else◌, Bool-cases, sym, not,
  ap, true, ◌||◌, ℕ_discrete, subst,
}
use mr_hak_os.Keyboard.Queue.{push, IsRing, waiting, enqueue_key_lem}

-- The key of a scancode, by the tables of the code. A byte from 0x80 on (a release or a prefix) delivers nothing; behind a prefix
-- the special keys count, else the table of the current shift state. 0 stands for no key.
unfoldable pub table_decoded : ℕ → Keyboard → ℕ
table_decoded scancode k =
    if is_release scancode
    then 0
    else if k.extended_scancode
    then special_key scancode
    else table_key scancode k

-- The flags alone do not touch the ring.
flags-IsRing :
    (k : Keyboard) (a b : Bool)
    → IsRing k
    → IsRing (record k { shift_pressed = a; extended_scancode = b })
flags-IsRing k a b v = record { size = v.size; head_in = v.head_in; tail_in = v.tail_in }

shift_keys : (k : Keyboard) → (table_key 0x2A k ≡ 0) × (table_key 0x36 k ≡ 0)
unfolding table_key
shift_keys k = elim (Bool-cases k.shift_pressed) [ inl e ↦ (rw e, rw e) | inr e ↦ (rw e, rw e) ]

modifier_key :
    (scancode : ℕ) (k : Keyboard)
    → (scancode == 0x2A || scancode == 0x36) ≡ true
    → table_key scancode k ≡ 0
modifier_key scancode k e = elim (ℕ_discrete scancode 0x2A) [
  | yes a ↦ subst (λ n. table_key n k ≡ 0) (sym a) (shift_keys k).0
  | no a ↦
      let b : scancode ≡ 0x36 = ground arith in
      subst (λ n. table_key n k ≡ 0) (sym b) (shift_keys k).1
]

-- The effect of a call: the ring is still one, the key is pushed, and the result tells if there is one.
abbrev Delivers : ℕ → Keyboard → Bool × Keyboard → Type 0
Delivers key k (done, k') =
    IsRing k' × (waiting k' ≡ push key (waiting k)) × (done ≡ not (key == 0))

push_zero : (keys : List ℕ) → push 0 keys ≡ keys
unfolding push
push_zero keys = refl

Delivers-none :
    (k k' : Keyboard) (key : ℕ)
    → IsRing k'
    → waiting k' ≡ waiting k
    → key ≡ 0
    → Delivers key k (false, k')
Delivers-none k k' key v same z = rw z (v, same ∙ sym (push_zero (waiting k)), refl)

Delivers-key :
    (k k' : Keyboard) (key : ℕ)
    → IsRing k'
    → waiting k' ≡ waiting k
    → Delivers key k (not (key == 0), enqueue_key key k')
Delivers-key k k' key v same =
    let (ring, keys) = enqueue_key_lem key k' v in (ring, keys ∙ ap (push key) same, refl)

extended-Delivers :
    (scancode : ℕ) (k k' : Keyboard)
    → IsRing k'
    → waiting k' ≡ waiting k
    → Delivers
        (if is_release scancode then 0 else special_key scancode)
        k
        (process_extended scancode k')
unfolding process_extended
extended-Delivers scancode k k' v same = elim (Bool-cases (is_release scancode)) [
  | inl r ↦ rw r (Delivers-none k k' 0 v same refl)
  | inr r ↦ elim (Bool-cases (special_key scancode == 0)) [
    | inl z ↦
        let d = Delivers-none k k' (special_key scancode) v same (ground arith) in
        rw (r, z) (d.0, d.1, refl)
    | inr z ↦ let d = Delivers-key k k' (special_key scancode) v same in rw (r, z) (d.0, d.1, refl)
  ]
]

plain-Delivers :
    (scancode : ℕ) (k : Keyboard)
    → IsRing k
    → Delivers
        (if is_release scancode then 0 else table_key scancode k)
        k
        (process_plain scancode k)
unfolding process_plain
plain-Delivers scancode k v = elim (Bool-cases (is_release scancode)) [
  | inl r ↦
      let a : (scancode == 0x2A || scancode == 0x36) ≡ false = ground arith in
      elim (Bool-cases (scancode == 0xAA || scancode == 0xB6)) [
        | inl b ↦
            rw (a, b, r)
              (flags-IsRing k false k.extended_scancode v, sym (push_zero (waiting k)), refl)
        | inr b ↦ rw (a, b, r) (v, sym (push_zero (waiting k)), refl)
      ]
  | inr r ↦ elim (Bool-cases (scancode == 0x2A || scancode == 0x36)) [
    | inl a ↦
        rw (a, r, modifier_key scancode k a)
          (flags-IsRing k true k.extended_scancode v, sym (push_zero (waiting k)), refl)
    | inr a ↦
        let b : (scancode == 0xAA || scancode == 0xB6) ≡ false = ground arith in
        let d = Delivers-key k k (table_key scancode k) v refl in rw (a, b, r) (d.0, d.1, refl)
  ]
]

either-Delivers :
    (extended : Bool) (scancode : ℕ) (k : Keyboard)
    → IsRing k
    → Delivers
        (if is_release scancode
          then 0
          else if extended
          then special_key scancode
          else table_key scancode k)
        k
        (if extended
          then process_extended scancode (record k { extended_scancode = false })
          else process_plain scancode k)
either-Delivers true scancode k v =
    extended-Delivers scancode k (record k { extended_scancode = false })
      (flags-IsRing k k.shift_pressed false v) refl
either-Delivers false scancode k v = plain-Delivers scancode k v

-- The keys of the queue after a scancode are those before it with the key of the tables, if there is one,
-- pushed behind them; the ring stays intact, and the result tells whether the scancode stood for a key.
pub process_scancode-push :
    (scancode : ℕ) (k : Keyboard)
    → IsRing k
    → IsRing (process_scancode scancode k).1
      × (waiting (process_scancode scancode k).1 ≡ push (table_decoded scancode k) (waiting k))
      × ((process_scancode scancode k).0 ≡ not (table_decoded scancode k == 0))
unfolding process_scancode table_decoded
process_scancode-push scancode k v = elim (Bool-cases (scancode == 0xE0 || scancode == 0xE1)) [
  | inl prefix ↦
      let r : is_release scancode ≡ true = ground arith in
      rw (prefix, r) (flags-IsRing k k.shift_pressed true v, sym (push_zero (waiting k)), refl)
  | inr other ↦ let d = either-Delivers k.extended_scancode scancode k v in rw other (d.0, d.1, d.2)
]

-- The flags after a scancode: the prefix flag is up exactly behind a prefix byte, and the shift flag follows the
-- press and the release of the two shift keys, but for a byte behind a prefix.
pub process_scancode_flags :
    (scancode : ℕ) (k : Keyboard)
    → ((process_scancode scancode k).1.extended_scancode ≡ (scancode == 0xE0 || scancode == 0xE1))
      × ((process_scancode scancode k).1.shift_pressed ≡ (
          if k.extended_scancode
          then k.shift_pressed
          else if scancode == 0x2A || scancode == 0x36
          then true
          else if scancode == 0xAA || scancode == 0xB6
          then false
          else k.shift_pressed))
unfolding process_scancode process_plain process_extended enqueue_key
process_scancode_flags scancode k = ground arith
