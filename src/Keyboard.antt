-- ===== src/Keyboard.antt =====
-- src/libc/interrupts.cpp: the keyboard queue, the decoding of scancodes, the handlers of IRQ0 and
-- IRQ1 and the polling of the keyboard port. A `char` is a byte.
pub mod Queue
pub mod Decode
pub mod Layout
pub mod Port
pub mod Sharing
pub mod Desk
pub mod Tables
mod Tests
use mr_hak_os.Prelude.{
  ℕ, zero, suc, ◌+◌, ◌%◌, ◌^◌, List, [], ◌∷◌, Bool, true, false, ◌==◌, ◌||◌, leb, if◌then◌else◌,
  set, get_or, replicate, not, Option, none, some, ◌-◌, ◌*◌, ◌≤◌, ◌<◌, ◌≡◌, ◌≢◌, ◌∙◌, ◌⊎◌, refl,
  ◌++◌, inl, inr, arith,
}
use Tables.{scancode_to_ascii, scancode_to_ascii_shifted}

-- The static variables of the keyboard. The counters are `uint32_t`.
pub record Keyboard : Type 0 where
  pub queue : List ℕ
  pub head : ℕ
  pub tail : ℕ
  pub shift_pressed : Bool
  pub extended_scancode : Bool
  pub irq_scancodes : ℕ
  pub polled_scancodes : ℕ
  pub irq_seen : Bool

abbrev pub queue_size : ℕ
queue_size = 64

-- (uint8_t)((i + 1) & 63)
abbrev pub next_index : ℕ → ℕ
next_index i = (i + 1) % 64

abbrev pub start : Keyboard
start = record {
  queue = replicate queue_size 0;
  head = 0;
  tail = 0;
  shift_pressed = false;
  extended_scancode = false;
  irq_scancodes = 0;
  polled_scancodes = 0;
  irq_seen = false;
}

unfoldable pub enqueue_key : ℕ → Keyboard → Keyboard
enqueue_key key k =
    if key == 0
    then k
    else if next_index k.head == k.tail
    then k
    else record k { queue = set k.queue k.head key; head = next_index k.head }

unfoldable pub get_last_key : Keyboard → ℕ × Keyboard
get_last_key k =
    if k.head == k.tail
    then (0, k)
    else (get_or k.queue k.tail 0, record k { tail = next_index k.tail })

-- The `switch` over the make codes behind 0xE0; 0 where it returns.
unfoldable pub special_key : ℕ → ℕ
special_key scancode =
    if scancode == 0x48
    then 0x11
    else if scancode == 0x50
    then 0x12
    else if scancode == 0x4B
    then 0x13
    else if scancode == 0x4D
    then 0x14
    else if scancode == 0x47
    then 0x15
    else if scancode == 0x4F
    then 0x16
    else if scancode == 0x49
    then 0x17
    else if scancode == 0x51
    then 0x18
    else if scancode == 0x53
    then 0x7F
    else 0

-- scancode & 0x80, for a byte
abbrev pub is_release : ℕ → Bool
is_release scancode = leb 0x80 scancode

-- The branch behind an extended prefix.
unfoldable pub process_extended : ℕ → Keyboard → Bool × Keyboard
process_extended scancode k =
    if is_release scancode
    then (false, k)
    else if special_key scancode == 0
    then (false, k)
    else (true, enqueue_key (special_key scancode) k)

-- The key of the tables.
unfoldable pub table_key : ℕ → Keyboard → ℕ
table_key scancode k =
    if k.shift_pressed
    then get_or scancode_to_ascii_shifted scancode 0
    else get_or scancode_to_ascii scancode 0

-- The branches without a prefix.
unfoldable pub process_plain : ℕ → Keyboard → Bool × Keyboard
process_plain scancode k =
    if scancode == 0x2A || scancode == 0x36
    then (false, record k { shift_pressed = true })
    else if scancode == 0xAA || scancode == 0xB6
    then (false, record k { shift_pressed = false })
    else if is_release scancode
    then (false, k)
    else (not (table_key scancode k == 0), enqueue_key (table_key scancode k) k)

unfoldable pub process_scancode : ℕ → Keyboard → Bool × Keyboard
process_scancode scancode k =
    if scancode == 0xE0 || scancode == 0xE1
    then (false, record k { extended_scancode = true })
    else if k.extended_scancode
    then process_extended scancode (record k { extended_scancode = false })
    else process_plain scancode k

abbrev pub u32 : ℕ
u32 = 2 ^ 32

-- The handler of IRQ1, with the byte that it reads from port 0x60.
unfoldable pub isr_keyboard_handler : ℕ → Keyboard → Keyboard
isr_keyboard_handler scancode k =
    (process_scancode scancode
      (record k { irq_scancodes = (k.irq_scancodes + 1) % u32; irq_seen = true })).1
