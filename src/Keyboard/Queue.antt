-- ===== src/Keyboard/Queue.antt =====
-- The keyboard ring against a bounded queue: 64 slots hold at most 63 keys.
use mr_hak_os.Keyboard.{Keyboard, queue_size, next_index, enqueue_key, get_last_key}
use mr_hak_os.Prelude.{
  ℕ, zero, suc, ◌+◌, ◌-◌, ◌<◌, ◌≡◌, ◌∙◌, refl, List, [], ◌∷◌, ◌++◌, true, false, inl, inr, arith,
  ◌==◌, if◌then◌else◌, get_or, leb, ◌%◌, length, Bool-cases, length-set, ap, set, sym, subst,
  get_or-set_self, ap₂, get_or-set_ne,
}

-- The number of keys between the tail and the head.
abbrev pub count : Keyboard → ℕ
count k = (k.head + 64 - k.tail) % 64

-- The indices stay inside the array.
pub record IsRing (k : Keyboard) : Type 0 where
  pub size : length k.queue ≡ queue_size
  pub head_in : k.head < queue_size
  pub tail_in : k.tail < queue_size

-- The `n` keys from index `i` on, going round at 64.
abbrev pub window : List ℕ → ℕ → ℕ → List ℕ
window queue i zero = []
window queue i (suc n) = get_or queue i 0 ∷ window queue ((i + 1) % 64) n

-- The keys that wait, oldest first.
abbrev pub waiting : Keyboard → List ℕ
waiting k = window k.queue k.tail (count k)

-- The specification: a queue of at most 63 keys, that drops the newest key when it is full.
unfoldable pub push : ℕ → List ℕ → List ℕ
push key keys = if key == 0 then keys else if leb 63 (length keys) then keys else keys ++ key ∷ []

unfoldable pub pop : List ℕ → ℕ × List ℕ
pop [] = (0, [])
pop (key ∷ keys) = (key, keys)

pub length-window : (queue : List ℕ) (i n : ℕ) → length (window queue i n) ≡ n
length-window queue i zero = refl
length-window queue i (suc n) = ap suc (length-window queue ((i + 1) % 64) n)

window-set :
    (queue : List ℕ) (n i j key : ℕ)
    → length queue ≡ 64
    → i < 64
    → n < 64
    → j ≡ (i + n) % 64
    → window (set queue j key) i (suc n) ≡ window queue i n ++ key ∷ []
window-set queue zero i j key l hi hn e =
    let e' : j ≡ i = omega arith in
    rw e' (ap (λ x. x ∷ []) (get_or-set_self queue i key 0 (omega arith)))
window-set queue (suc n) i j key l hi hn e =
    ap₂ ◌∷◌ (get_or-set_ne queue j i key 0 (omega arith))
      (window-set queue n ((i + 1) % 64) j key l (omega arith) (omega arith) (omega arith))

-- `enqueueKey` keeps the indices inside the array, and does to the waiting keys what `push` does:
-- it appends a key that is not 0, unless 63 keys wait already.
pub enqueue_key_lem :
    (key : ℕ) (k : Keyboard)
    → IsRing k
    → IsRing (enqueue_key key k) × (waiting (enqueue_key key k) ≡ push key (waiting k))
unfolding enqueue_key push
enqueue_key_lem key k v = elim (Bool-cases (key == 0)) [
  | inl z ↦ rw z (v, refl)
  | inr nz ↦ elim (Bool-cases (next_index k.head == k.tail)) [
    | inl full ↦
        let f : leb 63 (length (waiting k)) ≡ true =
          ground (arith, v.head_in, v.tail_in, length-window k.queue k.tail (count k)) in
        rw (nz, full, f) (v, refl)
    | inr room ↦
        let f : leb 63 (length (waiting k)) ≡ false =
          ground (arith, v.head_in, v.tail_in, length-window k.queue k.tail (count k)) in
        let n : suc (count k) ≡ (next_index k.head + 64 - k.tail) % 64 =
          ground (arith, v.head_in, v.tail_in) in
        rw (nz, room, f)
          (
            record {
              size = length-set k.queue k.head key ∙ v.size;
              head_in = omega arith;
              tail_in = v.tail_in;
            },
            subst (λ c. window (set k.queue k.head key) k.tail c ≡ waiting k ++ key ∷ []) n
                (window-set k.queue (count k) k.tail k.head key v.size v.tail_in (omega arith)
                  (omega (arith, v.head_in, v.tail_in))),
          )
  ]
]

window_none : (queue : List ℕ) (i n : ℕ) → n ≡ 0 → (0, window queue i n) ≡ pop (window queue i n)
unfolding pop
window_none queue i n e = rw e

window_step :
    (queue : List ℕ) (i n m : ℕ)
    → n ≡ suc m
    → pop (window queue i n) ≡ (get_or queue i 0, window queue ((i + 1) % 64) m)
unfolding pop
window_step queue i n m e = rw e

-- `getLastKey` keeps the indices inside the array, returns the oldest waiting key, or 0 if none
-- waits, and takes that key alone off the queue.
pub get_last_key_lem :
    (k : Keyboard)
    → IsRing k
    → IsRing (get_last_key k).1
      × (((get_last_key k).0, waiting (get_last_key k).1) ≡ pop (waiting k))
unfolding get_last_key
get_last_key_lem k v = elim (Bool-cases (k.head == k.tail)) [
  | inl empty ↦
      let z : count k ≡ 0 = ground (arith, v.head_in, v.tail_in) in
      rw empty (v, window_none k.queue k.tail (count k) z)
  | inr some_key ↦
      let n : count k ≡ suc ((k.head + 64 - next_index k.tail) % 64) =
        ground (arith, v.head_in, v.tail_in) in
      rw some_key (
        record { size = v.size; head_in = v.head_in; tail_in = omega arith },
        sym (window_step k.queue k.tail (count k) ((k.head + 64 - next_index k.tail) % 64) n),
      )
]
