-- ===== src/Pci/Search.antt =====
-- The search of src/libc/pci.cpp for a device or a class: what it finds, and that it finds what is there.
use mr_hak_os.Pci.{
  scan_functions, fill_device_info, scan_devices, read_config16, scan_buses, PciDeviceInfo,
  single_function, find_class, find_device, read_config8, is_device, is_class, answer,
}
use mr_hak_os.Prelude.{
  ℕ, zero, suc, ◌+◌, ◌≤◌, ◌<◌, ◌≡◌, ◌≢◌, ◌⊎◌, refl, Bool, true, false, Option, none, some, inl, inr,
  arith, ◌==◌, Bool-cases, ℕ_discrete, subst, ◌&&◌, sym, ◌∙◌, ap,
}

module _ (config : ℕ → ℕ) (wanted : ℕ → ℕ → ℕ → Bool) where
  -- A function that is there and wanted.
  abbrev Sound : Option PciDeviceInfo → Type 0
  Sound none = Unit
  Sound (some info) =
      (info ≡ fill_device_info config info.bus info.device info.function)
      × (wanted info.bus info.device info.function ≡ true)

  functions-Sound :
      (bus device n function : ℕ) → Sound (scan_functions config wanted bus device n function)
  unfolding scan_functions
  functions-Sound bus device zero function = tt
  functions-Sound bus device (suc n) function =
      let rest = functions-Sound bus device n (function + 1) in
      elim (Bool-cases (read_config16 config bus device function 0x00 == 0xFFFF)) [
        | inl e ↦ elim (Bool-cases (function == 0)) [
          | inl z ↦ rw (e, z) tt
          | inr z ↦ rw (e, z) rest
        ]
        | inr e ↦ elim (Bool-cases (wanted bus device function)) [
          | inl w ↦ rw (e, w) (found w)
          | inr w ↦ elim (Bool-cases ((function == 0) && single_function config bus device)) [
            | inl s ↦ rw (e, w, s) tt
            | inr s ↦ rw (e, w, s) rest
          ]
        ]
      ]
    where
      found :
          wanted bus device function ≡ true
          → Sound (some (fill_device_info config bus device function))
      found w = unfold fill_device_info in (refl, w)

  first-Sound :
      (a b : Option PciDeviceInfo)
      → Sound a
      → Sound b
      → Sound (elim a [ some info ↦ some info | none ↦ b ])
  first-Sound none b s t = t
  first-Sound (some info) b s t = s

  devices-Sound : (bus n device : ℕ) → Sound (scan_devices config wanted bus n device)
  unfolding scan_devices
  devices-Sound bus zero device = tt
  devices-Sound bus (suc n) device =
      first-Sound (scan_functions config wanted bus device 8 0)
        (scan_devices config wanted bus n (device + 1)) (functions-Sound bus device 8 0)
        (devices-Sound bus n (device + 1))

  buses-Sound : (n bus : ℕ) → Sound (scan_buses config wanted n bus)
  unfolding scan_buses
  buses-Sound zero bus = tt
  buses-Sound (suc n) bus =
      first-Sound (scan_devices config wanted bus 32 0) (scan_buses config wanted n (bus + 1))
        (devices-Sound bus 32 0) (buses-Sound n (bus + 1))

  abbrev Found : Option PciDeviceInfo → Type 0
  Found none = ⊥
  Found (some info) = Unit

  functions-Found :
      (bus device : ℕ)
      → read_config16 config bus device 0 0x00 ≢ 0xFFFF
      → wanted bus device 0 ≡ true
      → Found (scan_functions config wanted bus device 8 0)
  unfolding scan_functions
  functions-Found bus device there w =
      let e : (read_config16 config bus device 0 0x00 == 0xFFFF) ≡ false = ground arith in
      rw (e, w) tt

  first-Found :
      (a b : Option PciDeviceInfo)
      → Found a ⊎ Found b
      → Found (elim a [ some info ↦ some info | none ↦ b ])
  first-Found none b (inl f) = absurd f
  first-Found none b (inr f) = f
  first-Found (some info) b f = tt

  devices-Found :
      (bus device n from : ℕ)
      → Found (scan_functions config wanted bus device 8 0)
      → from ≤ device
      → device < from + n
      → Found (scan_devices config wanted bus n from)
  unfolding scan_devices
  devices-Found bus device zero from f a b = absurd (omega arith)
  devices-Found bus device (suc n) from f a b = elim (ℕ_discrete from device) [
    | yes e ↦
        first-Found (scan_functions config wanted bus from 8 0)
          (scan_devices config wanted bus n (from + 1))
          (inl (subst (λ d. Found (scan_functions config wanted bus d 8 0)) (sym e) f))
    | no ne ↦
        first-Found (scan_functions config wanted bus from 8 0)
          (scan_devices config wanted bus n (from + 1))
          (inr (devices-Found bus device n (from + 1) f (omega arith) (omega arith)))
  ]

  buses-Found :
      (bus n from : ℕ)
      → Found (scan_devices config wanted bus 32 0)
      → from ≤ bus
      → bus < from + n
      → Found (scan_buses config wanted n from)
  unfolding scan_buses
  buses-Found bus zero from f a b = absurd (omega arith)
  buses-Found bus (suc n) from f a b = elim (ℕ_discrete from bus) [
    | yes e ↦
        first-Found (scan_devices config wanted from 32 0) (scan_buses config wanted n (from + 1))
          (inl (subst (λ d. Found (scan_devices config wanted d 32 0)) (sym e) f))
    | no ne ↦
        first-Found (scan_devices config wanted from 32 0) (scan_buses config wanted n (from + 1))
          (inr (buses-Found bus n (from + 1) f (omega arith) (omega arith)))
  ]

Found-info :
    (config : ℕ → ℕ) (wanted : ℕ → ℕ → ℕ → Bool) (r : Option PciDeviceInfo)
    → Sound config wanted r
    → Found config wanted r
    → (info : PciDeviceInfo) × (r ≡ some info)
      × (info ≡ fill_device_info config info.bus info.device info.function)
      × (wanted info.bus info.device info.function ≡ true)
Found-info config wanted none s f = absurd f
Found-info config wanted (some info) (e, w) f = (info, refl, e, w)

-- `findDevice` finds a device that is there: when function 0 of some device on some bus answers with the vendor (not
-- 0xFFFF) and the device number asked for, it returns true, and the entry that it fills is marked present and has
-- that vendor and that device number.
pub find_device_lem :
    (config : ℕ → ℕ) (vendor device_id bus device : ℕ) (out : PciDeviceInfo)
    → bus < 256
    → device < 32
    → vendor ≢ 0xFFFF
    → read_config16 config bus device 0 0x00 ≡ vendor
    → read_config16 config bus device 0 0x02 ≡ device_id
    → (info : PciDeviceInfo) × (find_device config vendor device_id (some out) ≡ (true, some info))
      × (info.present ≡ true)
      × (info.vendor_id ≡ vendor)
      × (info.device_id ≡ device_id)
unfolding find_device fill_device_info
find_device_lem config vendor device_id bus device out hb hd there v d =
    let wanted = is_device config vendor device_id in
    let w : wanted bus device 0 ≡ true = ground arith in
    let here = functions-Found config wanted bus device (λ e. there (sym v ∙ e)) w in
    let on_bus = devices-Found config wanted bus device 32 0 here (omega arith) (omega arith) in
    let all = buses-Found config wanted bus 256 0 on_bus (omega arith) (omega arith) in
    let (info, r, e, same) =
      Found-info config wanted (scan_buses config wanted 256 0) (buses-Sound config wanted 256 0)
        all in
    let a : read_config16 config info.bus info.device info.function 0x00 ≡ vendor = ground arith in
    let b : read_config16 config info.bus info.device info.function 0x02 ≡ device_id =
      ground arith in
    (
      info,
      ap (λ r. answer config r (some out)) r,
      ap (λ i. i.present) e,
      ap (λ i. i.vendor_id) e ∙ a,
      ap (λ i. i.device_id) e ∙ b,
    )

-- `findClass` finds a device of the class that is there: when function 0 of some device answers with a vendor
-- other than 0xFFFF and the class and subclass asked for, it returns true, and the entry that it fills has them.
pub find_class_lem :
    (config : ℕ → ℕ) (class_code subclass bus device : ℕ) (out : PciDeviceInfo)
    → bus < 256
    → device < 32
    → read_config16 config bus device 0 0x00 ≢ 0xFFFF
    → read_config8 config bus device 0 0x0B ≡ class_code
    → read_config8 config bus device 0 0x0A ≡ subclass
    → (info : PciDeviceInfo) × (find_class config class_code subclass (some out)
        ≡ (true, some info))
      × (info.class_code ≡ class_code)
      × (info.subclass ≡ subclass)
unfolding find_class fill_device_info
find_class_lem config class_code subclass bus device out hb hd there c s =
    let wanted = is_class config class_code subclass in
    let w : wanted bus device 0 ≡ true = ground arith in
    let here = functions-Found config wanted bus device there w in
    let on_bus = devices-Found config wanted bus device 32 0 here (omega arith) (omega arith) in
    let all = buses-Found config wanted bus 256 0 on_bus (omega arith) (omega arith) in
    let (info, r, e, same) =
      Found-info config wanted (scan_buses config wanted 256 0) (buses-Sound config wanted 256 0)
        all in
    let a : read_config8 config info.bus info.device info.function 0x0B ≡ class_code =
      ground arith in
    let b : read_config8 config info.bus info.device info.function 0x0A ≡ subclass = ground arith in
    (
      info,
      ap (λ r. answer config r (some out)) r,
      ap (λ i. i.class_code) e ∙ a,
      ap (λ i. i.subclass) e ∙ b,
    )
