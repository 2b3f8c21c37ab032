-- ===== src/Memory/Pages.antt =====
-- The page arithmetic of src/libc/memory.cpp against the pages that a range touches.
use mr_hak_os.Memory.{address_in_range, page_down, page_up}
use mr_hak_os.Prelude.{ℕ, ◌+◌, ◌-◌, ◌*◌, ◌≤◌, ◌<◌, ◌≡◌, true, arith, ◌^◌, ◌↔◌, ◌/◌, ◌%◌}

-- An address is in the range of a section that is not empty exactly when its page is one of the pages from that of the
-- section's first byte to that of its last; the section ends below the last page of the address space.
pub address_in_range_iff :
    (address start end : ℕ)
    → start < end
    → end ≤ 2 ^ 64 - 4096
    → (address_in_range address start end ≡ true)
      ↔ ((start / 4096 ≤ address / 4096) × (address / 4096 ≤ (end - 1) / 4096))
unfolding address_in_range page_down page_up
address_in_range_iff address start end h k =
    let up : (end + 0xFFF) % 2 ^ 64 ≡ end + 0xFFF = omega arith in
    (
      λ e.
          (let low : start / 4096 * 4096 ≤ address = ground arith in
            let high : address < (end + 0xFFF) % 2 ^ 64 / 4096 * 4096 = ground arith in
            (omega arith, omega arith)),
      λ (low, high).
          (let a : start / 4096 * 4096 ≤ address = omega arith in
            let b : address < (end + 0xFFF) % 2 ^ 64 / 4096 * 4096 = omega arith in
            ground (arith, a, b)),
    )
