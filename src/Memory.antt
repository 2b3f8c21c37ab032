-- ===== src/Memory.antt =====
-- src/libc/memory.cpp and include/memory.hpp on x86_64: the page arithmetic and the status of the memory
-- protection. The addresses of the linker symbols are arguments; an address is below 2 ^ 64.
pub mod Pages
use mr_hak_os.Prelude.{
  ℕ, zero, suc, ◌+◌, ◌-◌, ◌*◌, ◌≤◌, ◌<◌, ◌≡◌, ◌≢◌, ◌∙◌, ◌⊎◌, refl, List, [], ◌∷◌, ◌++◌, Bool, true,
  false, Option, none, some, inl, inr, arith, ◌==◌, if◌then◌else◌, ◌/◌, leb, ◌%◌, ◌&&◌, ◌^◌, ltb,
}

-- __text_start .. __bss_end
pub record Symbols : Type 0 where
  pub text_start : ℕ
  pub text_end : ℕ
  pub rodata_start : ℕ
  pub rodata_end : ℕ
  pub data_start : ℕ
  pub data_end : ℕ
  pub bss_start : ℕ
  pub bss_end : ℕ

-- The addresses in the status are those of the symbols.
pub record KernelMemoryStatus : Type 0 where
  pub paging_active : Bool
  pub nx_supported : Bool
  pub nx_enabled : Bool
  pub write_protect_enabled : Bool
  pub kernel_wx_protected : Bool
  pub symbols : Symbols

-- value & ~0xFFF
unfoldable pub page_down : ℕ → ℕ
page_down value = value / 4096 * 4096

-- (value + 0xFFF) & ~0xFFF
unfoldable pub page_up : ℕ → ℕ
page_up value = (value + 0xFFF) % 2 ^ 64 / 4096 * 4096

unfoldable pub address_in_range : ℕ → ℕ → ℕ → Bool
unfolding page_down page_up
address_in_range address start end = leb (page_down start) address && ltb address (page_up end)

unfoldable pub init_kernel_memory_protection : Symbols → KernelMemoryStatus
init_kernel_memory_protection symbols = record {
  paging_active = true;
  nx_supported = false;
  nx_enabled = false;
  write_protect_enabled = false;
  kernel_wx_protected = false;
  symbols = symbols;
}
