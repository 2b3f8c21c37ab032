-- ===== src/Interrupts.antt =====
-- src/libc/interrupts.cpp on x86_64: the interrupt table and the sleep on the timer. The two handler addresses and the
-- code selector come from the assembly and the processor, and are arguments.
pub mod Gates
mod Tests
use mr_hak_os.Prelude.{
  ℕ, zero, suc, ◌+◌, ◌-◌, ◌*◌, ◌≤◌, ◌<◌, ◌≡◌, ◌≢◌, ◌∙◌, ◌⊎◌, refl, List, [], ◌∷◌, ◌++◌, Bool, true,
  false, Option, none, some, inl, inr, arith, ◌==◌, if◌then◌else◌, ◌^◌, ltb, ◌%◌, set, ◌/◌, ◌&&◌,
}

pub record IdtEntry64 : Type 0 where
  pub offset_low : ℕ
  pub selector : ℕ
  pub ist : ℕ
  pub type_attr : ℕ
  pub offset_mid : ℕ
  pub offset_high : ℕ
  pub zeros : ℕ

-- The entry that setIDTEntry64 writes.
unfoldable pub idt_entry : ℕ → ℕ → ℕ → IdtEntry64
idt_entry code_selector handler flags = record {
  offset_low = handler % 2 ^ 16;
  selector = code_selector;
  ist = 0;
  type_attr = flags;
  offset_mid = handler / 2 ^ 16 % 2 ^ 16;
  offset_high = handler / 2 ^ 32 % 2 ^ 32;
  zeros = 0;
}

-- for (i = i; n more rounds; i++) setIDTEntry64(i, nullptr, 0);
unfoldable pub clear_gates : ℕ → ℕ → ℕ → List IdtEntry64 → List IdtEntry64
clear_gates code_selector zero i idt = idt
clear_gates code_selector (suc n) i idt =
    clear_gates code_selector n (i + 1) (set idt i (idt_entry code_selector 0 0))

-- The table after Interrupts::init.
unfoldable pub install : ℕ → ℕ → ℕ → List IdtEntry64 → List IdtEntry64
install code_selector timer keyboard idt =
    set (set (clear_gates code_selector 256 0 idt) 0x20 (idt_entry code_selector timer 0x8E)) 0x21
      (idt_entry code_selector keyboard 0x8E)

-- The address that the processor puts together from an entry.
unfoldable pub target : IdtEntry64 → ℕ
target e = e.offset_low + e.offset_mid * 2 ^ 16 + e.offset_high * 2 ^ 32

-- The loop of pitSleepMs from `guard` rounds on, at most `fuel` rounds; `ticks` says what the timer shows
-- in a round. The result is the number of rounds.
unfoldable pub sleep_loop : ℕ → (ℕ → ℕ) → ℕ → ℕ → ℕ → ℕ → Option ℕ
sleep_loop zero ticks started ms max_guard guard = none
sleep_loop (suc fuel) ticks started ms max_guard guard =
    let rest = sleep_loop fuel ticks started ms max_guard (guard + 1) in
    if ltb ((ticks guard + 2 ^ 32 - started) % 2 ^ 32) ms && ltb guard max_guard
    then rest
    else some guard

-- ms * 20u + 200u
abbrev pub max_rounds : ℕ → ℕ
max_rounds ms = (ms * 20 + 200) % 2 ^ 32

unfoldable pub pit_sleep_ms : ℕ → (ℕ → ℕ) → ℕ → ℕ → Option ℕ
unfolding sleep_loop
pit_sleep_ms fuel ticks started ms = sleep_loop fuel ticks started ms (max_rounds ms) 0
