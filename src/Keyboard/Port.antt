-- ===== src/Keyboard/Port.antt =====
-- The polling of the keyboard controller.
use mr_hak_os.Prelude.{
  ℕ, zero, suc, ◌+◌, List, [], ◌∷◌, Bool, false, ◌==◌, if◌then◌else◌, not, ◌%◌, ◌/◌, ◌||◌,
}
use mr_hak_os.Keyboard.{Keyboard, process_scancode, u32}

-- What the controller answers in one round: the status of port 0x64, and the byte of port 0x60.
pub record Answer : Type 0 where
  pub status : ℕ
  pub byte : ℕ

-- (status & 0x20) != 0
abbrev pub is_mouse : ℕ → Bool
is_mouse status = not (status / 32 % 2 == 0)

-- (status & 0x01) == 0
abbrev pub is_drained : ℕ → Bool
is_drained status = status % 2 == 0

-- At most `n` more rounds of the loop; a list that ends stands for an empty controller.
unfoldable pub poll_loop : ℕ → List Answer → Bool → Keyboard → Bool × Keyboard
poll_loop zero answers handled k = (handled, k)
poll_loop (suc n) [] handled k = (handled, k)
poll_loop (suc n) (a ∷ answers) handled k =
    let (done, k') =
      process_scancode a.byte (record k { polled_scancodes = (k.polled_scancodes + 1) % u32 }) in
    let skipped = poll_loop n answers handled k in
    let rest = poll_loop n answers (handled || done) k' in
    if is_drained a.status then (handled, k) else if is_mouse a.status then skipped else rest

unfoldable pub poll_keyboard : List Answer → Keyboard → Bool × Keyboard
unfolding poll_loop
poll_keyboard answers k = if k.irq_seen then (false, k) else poll_loop 16 answers false k
