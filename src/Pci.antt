-- ===== src/Pci.antt =====
-- src/libc/pci.cpp and include/pci.hpp: reading the PCI configuration space and the search for a device. What the
-- hardware answers is the parameter `config`: the value that port 0xCFC gives for an address written to port 0xCF8.
pub mod Search
mod Tests
use mr_hak_os.Prelude.{
  ℕ, zero, suc, ◌+◌, ◌-◌, ◌*◌, ◌≤◌, ◌<◌, ◌≡◌, ◌≢◌, ◌∙◌, ◌⊎◌, refl, List, [], ◌∷◌, ◌++◌, Bool, true,
  false, Option, none, some, inl, inr, arith, ◌==◌, if◌then◌else◌, bit_or, ◌/◌, map, ◌&&◌, not, ◌^◌,
  leb, ◌%◌, bit_and,
}

pub record PciDeviceInfo : Type 0 where
  pub present : Bool
  pub bus : ℕ
  pub device : ℕ
  pub function : ℕ
  pub vendor_id : ℕ
  pub device_id : ℕ
  pub class_code : ℕ
  pub subclass : ℕ
  pub prog_if : ℕ
  pub revision_id : ℕ
  pub bars : List ℕ
  pub irq_line : ℕ

-- The arguments are bytes.
unfoldable pub pci_address : ℕ → ℕ → ℕ → ℕ → ℕ
pci_address bus device function offset =
    bit_or
      (bit_or (bit_or (bit_or (2 ^ 31) (bus * 2 ^ 16)) (device % 32 * 2 ^ 11))
        (function % 8 * 2 ^ 8))
      (bit_and offset 0xFC)

module _ (config : ℕ → ℕ) where
  unfoldable pub read_config32 : ℕ → ℕ → ℕ → ℕ → ℕ
  read_config32 bus device function offset = config (pci_address bus device function offset)

  -- (value >> ((offset & 2) * 8)) & 0xFFFF
  unfoldable pub read_config16 : ℕ → ℕ → ℕ → ℕ → ℕ
  read_config16 bus device function offset =
      read_config32 bus device function offset / 2 ^ (bit_and offset 2 * 8) % 2 ^ 16

  unfoldable pub read_config8 : ℕ → ℕ → ℕ → ℕ → ℕ
  read_config8 bus device function offset =
      read_config32 bus device function offset / 2 ^ (offset % 4 * 8) % 2 ^ 8

  unfoldable pub fill_device_info : ℕ → ℕ → ℕ → PciDeviceInfo
  fill_device_info bus device function = record {
    present = true;
    bus = bus;
    device = device;
    function = function;
    vendor_id = read_config16 bus device function 0x00;
    device_id = read_config16 bus device function 0x02;
    revision_id = read_config8 bus device function 0x08;
    prog_if = read_config8 bus device function 0x09;
    subclass = read_config8 bus device function 0x0A;
    class_code = read_config8 bus device function 0x0B;
    bars = map (read_config32 bus device function) (0x10 ∷ 0x14 ∷ 0x18 ∷ 0x1C ∷ 0x20 ∷ 0x24 ∷ []);
    irq_line = read_config8 bus device function 0x3C;
  }

  -- The header type says that the device has one function only.
  abbrev pub single_function : ℕ → ℕ → Bool
  single_function bus device = not (leb 0x80 (read_config8 bus device 0 0x0E))

  -- for (function = function; n more rounds; function++): the tests of `findDevice` and `findClass`
  -- differ in `wanted` alone.
  unfoldable pub scan_functions : (ℕ → ℕ → ℕ → Bool) → ℕ → ℕ → ℕ → ℕ → Option PciDeviceInfo
  scan_functions wanted bus device zero function = none
  scan_functions wanted bus device (suc n) function =
      let rest = scan_functions wanted bus device n (function + 1) in
      if read_config16 bus device function 0x00 == 0xFFFF
      then (if function == 0 then none else rest)
      else if wanted bus device function
      then some (fill_device_info bus device function)
      else if (function == 0) && single_function bus device
      then none
      else rest

  -- for (device = device; n more rounds; device++)
  unfoldable pub scan_devices : (ℕ → ℕ → ℕ → Bool) → ℕ → ℕ → ℕ → Option PciDeviceInfo
  unfolding scan_functions
  scan_devices wanted bus zero device = none
  scan_devices wanted bus (suc n) device =
      let rest = scan_devices wanted bus n (device + 1) in
      elim (scan_functions wanted bus device 8 0) [ some info ↦ some info | none ↦ rest ]

  -- for (bus = bus; n more rounds; bus++)
  unfoldable pub scan_buses : (ℕ → ℕ → ℕ → Bool) → ℕ → ℕ → Option PciDeviceInfo
  unfolding scan_devices
  scan_buses wanted zero bus = none
  scan_buses wanted (suc n) bus =
      let rest = scan_buses wanted n (bus + 1) in
      elim (scan_devices wanted bus 32 0) [ some info ↦ some info | none ↦ rest ]

  abbrev pub is_device : ℕ → ℕ → ℕ → ℕ → ℕ → Bool
  is_device vendor device_id bus device function =
      (read_config16 bus device function 0x00 == vendor)
      && (read_config16 bus device function 0x02 == device_id)

  abbrev pub is_class : ℕ → ℕ → ℕ → ℕ → ℕ → Bool
  is_class class_code subclass bus device function =
      (read_config8 bus device function 0x0B == class_code)
      && (read_config8 bus device function 0x0A == subclass)

  -- The result, and what `outDevice` points to: filled when a device is found, and marked absent else.
  abbrev pub answer : Option PciDeviceInfo → Option PciDeviceInfo → Bool × Option PciDeviceInfo
  answer (some info) none = (true, none)
  answer (some info) (some out) = (true, some info)
  answer none none = (false, none)
  answer none (some out) = (false, some (record out { present = false }))

  unfoldable pub find_device : ℕ → ℕ → Option PciDeviceInfo → Bool × Option PciDeviceInfo
  find_device vendor device_id out = answer (scan_buses (is_device vendor device_id) 256 0) out

  unfoldable pub find_class : ℕ → ℕ → Option PciDeviceInfo → Bool × Option PciDeviceInfo
  find_class class_code subclass out = answer (scan_buses (is_class class_code subclass) 256 0) out

  -- The address and the value that the two ports are given.
  unfoldable pub write_config32 : ℕ → ℕ → ℕ → ℕ → ℕ → ℕ × ℕ
  write_config32 bus device function offset value = (pci_address bus device function offset, value)

  -- The other half of the register keeps what was read.
  unfoldable pub write_config16 : ℕ → ℕ → ℕ → ℕ → ℕ → ℕ × ℕ
  unfolding write_config32
  write_config16 bus device function offset value =
      let current = read_config32 bus device function offset in
      let shift = bit_and offset 2 * 8 in
      write_config32 bus device function offset
        (bit_or (bit_and current (2 ^ 32 - 1 - 0xFFFF * 2 ^ shift)) (value * 2 ^ shift))
