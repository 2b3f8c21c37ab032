-- ===== src/Keyboard/Sharing.antt =====
-- The interrupt handler and the poller share the keyboard port.
use mr_hak_os.Keyboard.{
  Keyboard, process_scancode, process_plain, isr_keyboard_handler, process_extended, get_last_key,
  enqueue_key,
}
use mr_hak_os.Keyboard.Port.{poll_keyboard, Answer}
use mr_hak_os.Prelude.{ℕ, ◌≡◌, List, [], ◌∷◌, true, arith}

-- What may happen to the keyboard, in any order.
pub data Event : Type 0 where
  irq : ℕ → Event
  polls : List Answer → Event
  takes : Event

unfoldable pub event : Event → Keyboard → Keyboard
event (irq scancode) k = isr_keyboard_handler scancode k
event (polls answers) k = (poll_keyboard answers k).1
event takes k = (get_last_key k).1

unfoldable pub run : List Event → Keyboard → Keyboard
unfolding event
run [] k = k
run (e ∷ events) k = run events (event e k)

-- The poller has given up the port.
abbrev Owned : ℕ → Keyboard → Type 0
Owned polled k = (k.irq_seen ≡ true) × (k.polled_scancodes ≡ polled)

pub scancode_keeps :
    (scancode : ℕ) (k : Keyboard)
    → ((process_scancode scancode k).1.irq_seen ≡ k.irq_seen)
      × ((process_scancode scancode k).1.polled_scancodes ≡ k.polled_scancodes)
unfolding process_scancode process_plain process_extended enqueue_key
scancode_keeps scancode k = ground arith
