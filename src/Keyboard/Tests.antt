-- ===== src/Keyboard/Tests.antt =====
-- Concrete keyboards, and the theorems at them.
use mr_hak_os.Keyboard.Sharing.{Event, polls, run, irq}
use mr_hak_os.Keyboard.Port.{Answer}
use mr_hak_os.Prelude.{List, ◌≡◌, refl, [], ◌∷◌, false, arith, ◌==◌, not}
use mr_hak_os.Keyboard.Queue.{IsRing, waiting, push, pop, get_last_key_lem, enqueue_key_lem}
use mr_hak_os.Keyboard.{process_scancode, enqueue_key, get_last_key, start}
use mr_hak_os.Keyboard.Desk.{StandsFor, course, empty_desk, keyboard-StandsFor, press}
use mr_hak_os.Keyboard.Layout.{decoded, process_scancode_lem}

start-IsRing : IsRing start
start-IsRing = record { size = refl; head_in = omega arith; tail_in = omega arith }

enqueue_key_lem_example :
    IsRing (enqueue_key b'a' start) × (waiting (enqueue_key b'a' start) ≡ push b'a' (waiting start))
enqueue_key_lem_example = enqueue_key_lem b'a' start start-IsRing

get_last_key_lem_example :
    IsRing (get_last_key start).1
    × (((get_last_key start).0, waiting (get_last_key start).1) ≡ pop (waiting start))
get_last_key_lem_example = get_last_key_lem start start-IsRing

-- The press of A, with shift up.
process_scancode_lem_example :
    let after = (process_scancode 0x1E start).1 in
    let key = decoded 0x1E false false in
    IsRing after
    × (waiting after ≡ push key (waiting start))
    × ((process_scancode 0x1E start).0 ≡ not (key == 0))
    × (after.extended_scancode ≡ false)
    × (after.shift_pressed ≡ false)
process_scancode_lem_example = process_scancode_lem 0x1E start start-IsRing

abbrev one_answer : Answer
one_answer = record { status = 1; byte = 0x1E }

-- Shift is pressed and A; then the poller would find B, but the interrupts own the port; then a key is read.
abbrev typing : List Event
typing = irq 0x2A ∷ irq 0x1E ∷ polls (record { status = 1; byte = 0x30 } ∷ []) ∷ []

keyboard-StandsFor_example :
    StandsFor (course typing empty_desk) (run typing start)
    × ((get_last_key (run typing start)).0 ≡ (pop (course typing empty_desk).keys).0)
keyboard-StandsFor_example = keyboard-StandsFor typing

shifted_a : (course typing empty_desk).keys ≡ b'A' ∷ []
unfolding course press decoded push
shifted_a = refl
