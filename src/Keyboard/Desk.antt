-- ===== src/Keyboard/Desk.antt =====
-- The keyboard of src/libc/interrupts.cpp as a whole, against a desk: the keys that wait, the shift key, a prefix, and
-- whether the interrupts own the port.
use mr_hak_os.Keyboard.{Keyboard, process_scancode, start, get_last_key, isr_keyboard_handler, u32}
use mr_hak_os.Keyboard.Port.{Answer, poll_loop, poll_keyboard, is_drained, is_mouse}
use mr_hak_os.Keyboard.Queue.{IsRing, waiting, push, pop, get_last_key_lem}
use mr_hak_os.Keyboard.Layout.{decoded, process_scancode_lem}
use mr_hak_os.Keyboard.Sharing.{Event, irq, polls, takes, event, run, scancode_keeps}
use mr_hak_os.Prelude.{
  ℕ, zero, suc, ◌+◌, ◌≡◌, ◌∙◌, refl, List, [], ◌∷◌, Bool, true, false, inl, inr, arith, ◌==◌,
  if◌then◌else◌, ◌||◌, ◌%◌, Bool-cases, ap,
}

pub record Desk : Type 0 where
  pub keys : List ℕ
  pub shift : Bool
  pub prefix : Bool
  pub owned : Bool

abbrev pub empty_desk : Desk
empty_desk = record { keys = []; shift = false; prefix = false; owned = false }

-- The specification: what a scancode does.
unfoldable pub press : ℕ → Desk → Desk
press scancode d = record {
  keys = push (decoded scancode d.prefix d.shift) d.keys;
  shift =
      if d.prefix
      then d.shift
      else if scancode == 0x2A || scancode == 0x36
      then true
      else if scancode == 0xAA || scancode == 0xB6
      then false
      else d.shift;
  prefix = scancode == 0xE0 || scancode == 0xE1;
  owned = d.owned;
}

abbrev presses : List ℕ → Desk → Desk
presses [] d = d
presses (s ∷ scancodes) d = presses scancodes (press s d)

-- What a poll may take: the bytes of the keyboard among the first `n` answers, up to where nothing waits.
abbrev typed : ℕ → List Answer → List ℕ
typed zero answers = []
typed (suc n) [] = []
typed (suc n) (a ∷ answers) =
    if is_drained a.status
    then []
    else if is_mouse a.status
    then typed n answers
    else a.byte ∷ typed n answers

abbrev happens : Event → Desk → Desk
happens (irq scancode) d = press scancode (record d { owned = true })
happens (polls answers) d = if d.owned then d else presses (typed 16 answers) d
happens takes d = record d { keys = (pop d.keys).1 }

unfoldable pub course : List Event → Desk → Desk
course [] d = d
course (e ∷ events) d = course events (happens e d)

-- The desk that a keyboard stands for.
abbrev desk_of : Keyboard → Desk
desk_of k = record {
  keys = waiting k;
  shift = k.shift_pressed;
  prefix = k.extended_scancode;
  owned = k.irq_seen;
}

desk_ext :
    (d e : Desk)
    → d.keys ≡ e.keys
    → d.shift ≡ e.shift
    → d.prefix ≡ e.prefix
    → d.owned ≡ e.owned
    → d ≡ e
desk_ext d e a b c f i = record { keys = a i; shift = b i; prefix = c i; owned = f i }

-- A keyboard with an intact ring, which stands for the desk.
abbrev pub StandsFor : Desk → Keyboard → Type 0
StandsFor d k = IsRing k × (desk_of k ≡ d)

process_scancode-press :
    (scancode : ℕ) (k : Keyboard)
    → IsRing k
    → StandsFor (press scancode (desk_of k)) (process_scancode scancode k).1
unfolding press
process_scancode-press scancode k v =
    let (ring, keys, told, prefix, shift) = process_scancode_lem scancode k v in
    (ring, desk_ext _ _ keys shift prefix (scancode_keeps scancode k).0)

poll_loop-presses :
    (n : ℕ) (answers : List Answer) (handled : Bool) (k : Keyboard)
    → IsRing k
    → StandsFor (presses (typed n answers) (desk_of k)) (poll_loop n answers handled k).1
unfolding poll_loop
poll_loop-presses zero answers handled k v = (v, refl)
poll_loop-presses (suc n) [] handled k v = (v, refl)
poll_loop-presses (suc n) (a ∷ answers) handled k v =
    let k₁ = record k { polled_scancodes = (k.polled_scancodes + 1) % u32 } in
    let (ring, pressed) =
      process_scancode-press a.byte k₁
        (record { size = v.size; head_in = v.head_in; tail_in = v.tail_in }) in
    elim (Bool-cases (is_drained a.status)) [
      | inl e ↦ rw e (v, refl)
      | inr e ↦ elim (Bool-cases (is_mouse a.status)) [
        | inl m ↦ rw (e, m) (poll_loop-presses n answers handled k v)
        | inr m ↦
            let (ring', same) =
              poll_loop-presses n answers (handled || (process_scancode a.byte k₁).0)
                (process_scancode a.byte k₁).1 ring in
            rw (e, m) (ring', same ∙ ap (presses (typed n answers)) pressed)
      ]
    ]

poll-presses :
    (owned : Bool) (answers : List Answer) (k : Keyboard)
    → IsRing k
    → StandsFor
        (if owned then desk_of k else presses (typed 16 answers) (desk_of k))
        (if owned then (false, k) else poll_loop 16 answers false k).1
poll-presses true answers k v = (v, refl)
poll-presses false answers k v = poll_loop-presses 16 answers false k v

event-happens :
    (e : Event) (k : Keyboard) → IsRing k → StandsFor (happens e (desk_of k)) (event e k)
unfolding event isr_keyboard_handler poll_keyboard get_last_key
event-happens (irq scancode) k v =
    process_scancode-press scancode
      (record k { irq_scancodes = (k.irq_scancodes + 1) % u32; irq_seen = true })
      (record { size = v.size; head_in = v.head_in; tail_in = v.tail_in })
event-happens (polls answers) k v = poll-presses k.irq_seen answers k v
event-happens takes k v =
    let (ring, taken) = get_last_key_lem k v in
    (ring, desk_ext _ _ (ap (λ t. t.1) taken) (takes_keeps k).0 (takes_keeps k).1 (takes_keeps k).2)
  where
    takes_keeps :
        (k : Keyboard)
        → ((get_last_key k).1.shift_pressed ≡ k.shift_pressed)
          × ((get_last_key k).1.extended_scancode ≡ k.extended_scancode)
          × ((get_last_key k).1.irq_seen ≡ k.irq_seen)
    takes_keeps k = ground arith

run-course :
    (events : List Event) (k : Keyboard)
    → IsRing k
    → StandsFor (course events (desk_of k)) (run events k)
unfolding run course
run-course [] k v = (v, refl)
run-course (e ∷ events) k v =
    let (ring, same) = event-happens e k v in
    let (ring', rest) = run-course events (event e k) ring in
    (ring', rest ∙ ap (course events) same)

-- However interrupts, polls and reads of the queue follow one another from the start, the keyboard stands for the desk
-- that the same course of events leaves, with an intact ring, and the next read gives the oldest key of that desk, or 0
-- when none waits. On the desk every interrupt presses its key; a poll presses the keys among its first 16 answers, up to
-- where nothing waits and without those of the mouse, but none once an interrupt has come; a key is one of the US layout
-- under the shift and prefix of the moment, and is dropped when 63 keys wait.
pub keyboard-StandsFor :
    (events : List Event)
    → StandsFor (course events empty_desk) (run events start)
      × ((get_last_key (run events start)).0 ≡ (pop (course events empty_desk).keys).0)
keyboard-StandsFor events =
    let (ring, same) = run-course events start (omega arith) in
    let read = ap (λ t. t.0) (get_last_key_lem (run events start) ring).1 in
    ((ring, same), read ∙ ap (λ d. (pop d.keys).0) same)
