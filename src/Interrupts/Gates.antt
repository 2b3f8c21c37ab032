-- ===== src/Interrupts/Gates.antt =====
-- The gates of src/libc/interrupts.cpp lead where they should, and pitSleepMs returns.
use mr_hak_os.Interrupts.{
  idt_entry, install, pit_sleep_ms, target, sleep_loop, clear_gates, IdtEntry64, max_rounds,
}
use mr_hak_os.Prelude.{
  ℕ, zero, suc, ◌+◌, ◌-◌, ◌≤◌, ◌<◌, ◌≡◌, ◌∙◌, refl, List, some, inl, inr, arith, ◌==◌,
  if◌then◌else◌, ◌^◌, Bool-cases, length, ltb, get_elem?, ◌||◌, ℕ_discrete, ◌%◌, set, ◌&&◌,
  get_elem?-set_ne, subst, length-set, get_elem?-set_self,
}

idt_entry-target :
    (selector handler flags : ℕ)
    → handler < 2 ^ 64
    → target (idt_entry selector handler flags) ≡ handler
unfolding target idt_entry
idt_entry-target selector handler flags h = omega arith

length-clear_gates :
    (selector n i : ℕ) (idt : List IdtEntry64) → length (clear_gates selector n i idt) ≡ length idt
unfolding clear_gates
length-clear_gates selector zero i idt = refl
length-clear_gates selector (suc n) i idt =
    length-clear_gates selector n (i + 1) (set idt i (idt_entry selector 0 0))
    ∙ length-set idt i (idt_entry selector 0 0)

clear_gates-other :
    (selector n i j : ℕ) (idt : List IdtEntry64)
    → j < i
    → get_elem? (clear_gates selector n i idt) j ≡ get_elem? idt j
unfolding clear_gates
clear_gates-other selector zero i j idt h = refl
clear_gates-other selector (suc n) i j idt h =
    clear_gates-other selector n (i + 1) j (set idt i (idt_entry selector 0 0)) (omega arith)
    ∙ get_elem?-set_ne idt i j (idt_entry selector 0 0) (λ e. absurd (omega arith))

clear_gates-at :
    (selector n i j : ℕ) (idt : List IdtEntry64)
    → i ≤ j
    → j < i + n
    → i + n ≤ length idt
    → get_elem? (clear_gates selector n i idt) j ≡ some (idt_entry selector 0 0)
unfolding clear_gates
clear_gates-at selector zero i j idt a b c = absurd (omega arith)
clear_gates-at selector (suc n) i j idt a b c =
    let e = idt_entry selector 0 0 in
    elim (ℕ_discrete i j) [
      | yes same ↦
          clear_gates-other selector n (i + 1) j (set idt i e) (omega arith)
          ∙ subst (λ k. get_elem? (set idt i e) k ≡ some e) same
              (get_elem?-set_self idt i e (omega arith))
      | no ne ↦
          clear_gates-at selector n (i + 1) j (set idt i e) (omega arith) (omega arith)
            (omega (arith, length-set idt i e))
    ]

-- After Interrupts::init on a table of 256 entries, gate 0x20 is present and leads to the timer handler, gate 0x21 is
-- present and leads to the keyboard handler (both addresses below 2 ^ 64), and every other gate is absent.
pub install_lem :
    (selector timer keyboard j : ℕ) (idt : List IdtEntry64)
    → length idt ≡ 256
    → timer < 2 ^ 64
    → keyboard < 2 ^ 64
    → j < 256
    → (e : IdtEntry64) × (get_elem? (install selector timer keyboard idt) j ≡ some e)
      × (e.type_attr ≡ (if j == 0x20 || j == 0x21 then 0x8E else 0))
      × (target e ≡ (if j == 0x20 then timer else if j == 0x21 then keyboard else 0))
unfolding install
install_lem selector timer keyboard j idt size ht hk hj =
    let cleared = clear_gates selector 256 0 idt in
    let gate1 = idt_entry selector timer 0x8E in
    let gate2 = idt_entry selector keyboard 0x8E in
    let n : length cleared ≡ 256 = length-clear_gates selector 256 0 idt ∙ size in
    let m = length-set cleared 0x20 gate1 in
    elim (ℕ_discrete 0x21 j) [
      | yes e ↦ (
        gate2,
        subst (λ k. get_elem? (install selector timer keyboard idt) k ≡ some gate2) e
            (get_elem?-set_self (set cleared 0x20 gate1) 0x21 gate2 (omega (arith, n, m))),
        (unfold idt_entry in ground arith),
        idt_entry-target selector keyboard 0x8E hk ∙ ground arith,
      )
      | no ne ↦
          let other = get_elem?-set_ne (set cleared 0x20 gate1) 0x21 j gate2 ne in
          elim (ℕ_discrete 0x20 j) [
            | yes e ↦ (
              gate1,
              other
                  ∙ subst (λ k. get_elem? (set cleared 0x20 gate1) k ≡ some gate1) e
                      (get_elem?-set_self cleared 0x20 gate1 (omega (arith, n))),
              (unfold idt_entry in ground arith),
              idt_entry-target selector timer 0x8E ht ∙ ground arith,
            )
            | no ne' ↦ (
              idt_entry selector 0 0,
              other
                  ∙ get_elem?-set_ne cleared 0x20 j gate1 ne'
                  ∙ clear_gates-at selector 256 0 j idt (omega arith) (omega arith) (omega arith),
              (unfold idt_entry in ground arith),
              idt_entry-target selector 0 0 (omega arith) ∙ ground arith,
            )
          ]
    ]

sleep_loop-returns :
    (fuel : ℕ) (ticks : ℕ → ℕ) (started ms max_guard guard : ℕ)
    → guard ≤ max_guard
    → max_guard < guard + fuel
    → (r : ℕ) × (sleep_loop fuel ticks started ms max_guard guard ≡ some r) × (r ≤ max_guard)
unfolding sleep_loop
sleep_loop-returns zero ticks started ms max_guard guard a b = absurd (omega arith)
sleep_loop-returns (suc fuel) ticks started ms max_guard guard a b =
    elim (Bool-cases (ltb ((ticks guard + 2 ^ 32 - started) % 2 ^ 32) ms && ltb guard max_guard)) [
      | inl e ↦
          let below : guard < max_guard = ground arith in
          let (r, f, h) =
            sleep_loop-returns fuel ticks started ms max_guard (guard + 1) (omega arith)
              (omega arith) in
          (r, rw e f, h)
      | inr e ↦ (guard, rw e refl, a)
    ]

-- `pitSleepMs` returns whatever the timer does, stopped or running, after at most (20 ms + 200) modulo 2 ^ 32 rounds.
pub pit_sleep_ms_lem :
    (ticks : ℕ → ℕ) (started ms : ℕ)
    → (r : ℕ) × (pit_sleep_ms (max_rounds ms + 1) ticks started ms ≡ some r) × (r ≤ max_rounds ms)
unfolding pit_sleep_ms
pit_sleep_ms_lem ticks started ms =
    sleep_loop-returns (max_rounds ms + 1) ticks started ms (max_rounds ms) 0 (omega arith)
      (omega arith)
