-- ===== src/Interrupts/Tests.antt =====
-- The interrupt table and the sleep on concrete values.
use mr_hak_os.Interrupts.Gates.{install_lem, pit_sleep_ms_lem}
use mr_hak_os.Prelude.{ℕ, ◌+◌, ◌≤◌, ◌≡◌, List, some, arith, get_elem?, replicate, length-replicate}
use mr_hak_os.Interrupts.{pit_sleep_ms, IdtEntry64, max_rounds, install, idt_entry, target}

abbrev old_table : List IdtEntry64
old_table = replicate 256 (idt_entry 8 7 1)

install_lem_example :
    (e : IdtEntry64) × (get_elem? (install 8 0x100000 0x100040 old_table) 0x21 ≡ some e)
    × (e.type_attr ≡ 0x8E)
    × (target e ≡ 0x100040)
install_lem_example =
    install_lem 8 0x100000 0x100040 0x21 old_table (length-replicate 256 (idt_entry 8 7 1))
      (omega arith) (omega arith) (omega arith)

stopped : ℕ → ℕ
stopped n = 5

pit_sleep_ms_lem_example :
    (r : ℕ) × (pit_sleep_ms (max_rounds 10 + 1) stopped 5 10 ≡ some r) × (r ≤ max_rounds 10)
pit_sleep_ms_lem_example = pit_sleep_ms_lem stopped 5 10
