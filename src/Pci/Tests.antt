-- ===== src/Pci/Tests.antt =====
-- The search for a PCI device on a concrete machine.
use mr_hak_os.Pci.Search.{find_device_lem, find_class_lem}
use mr_hak_os.Prelude.{ℕ, ◌≡◌, refl, [], true, false, some, arith, ◌==◌, if◌then◌else◌}
use mr_hak_os.Pci.{
  read_config16, PciDeviceInfo, read_config32, read_config8, pci_address, find_class, find_device,
}

-- A network card (8086:100E, class 02, subclass 00) as device 3 of bus 0, and nothing else.
machine : ℕ → ℕ
machine a =
    if a == 0x80001800
    then 0x100E8086
    else if a == 0x80001808
    then 0x02000003
    else if a == 0x8000180C
    then 0
    else 0xFFFFFFFF

abbrev blank : PciDeviceInfo
blank = record {
  present = false;
  bus = 0;
  device = 0;
  function = 0;
  vendor_id = 0;
  device_id = 0;
  class_code = 0;
  subclass = 0;
  prog_if = 0;
  revision_id = 0;
  bars = [];
  irq_line = 0;
}

find_device_lem_example :
    (info : PciDeviceInfo) × (find_device machine 0x8086 0x100E (some blank) ≡ (true, some info))
    × (info.present ≡ true)
    × (info.vendor_id ≡ 0x8086)
    × (info.device_id ≡ 0x100E)
unfolding machine read_config16 read_config32 pci_address
find_device_lem_example =
    find_device_lem machine 0x8086 0x100E 0 3 blank (omega arith) (omega arith)
      (λ e. absurd (omega arith)) refl refl

find_class_lem_example :
    (info : PciDeviceInfo) × (find_class machine 2 0 (some blank) ≡ (true, some info))
    × (info.class_code ≡ 2)
    × (info.subclass ≡ 0)
unfolding machine read_config16 read_config8 read_config32 pci_address
find_class_lem_example =
    find_class_lem machine 2 0 0 3 blank (omega arith) (omega arith) (λ e. absurd (omega arith))
      refl refl
