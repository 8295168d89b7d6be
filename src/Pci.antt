-- ===== src/Pci.antt =====
-- The names of PCI devices: kernel/src/pci_descriptors.cpp. A code that is not in the tables is
-- printed by `to_hstring` of kernel/src/c_str.cpp, which is an argument here.
pub mod Names
pub mod Enumerate
use Prim.Native.String.{String}
use eta_os.Base.{ℕ, zero, suc, ◌&&◌, Option, none, some, List, [], ◌∷◌, ◌==◌, if◌then◌else◌}

-- `device_classes`; `none` is a read past the end of the array.
abbrev pub device_classes : List String
device_classes =
    "Unclassified" ∷ "Mass Storage Controller" ∷ "Network Controller" ∷ "Display Controller"
    ∷ "Multimedia Controller" ∷ "Memory Controller" ∷ "Bridge Device"
    ∷ "Simple Communication Controller" ∷ "Base System Peripheral" ∷ "Input Device Controller"
    ∷ "Docking Station" ∷ "Processor" ∷ "Serial Bus Controller" ∷ "Wireless Controller"
    ∷ "Intelligent Controller" ∷ "Satellite Communication Controller" ∷ "Encryption Controller"
    ∷ "Signal Processing Controller" ∷ "Processing Accelerator" ∷ "Non Essential Instrumentation"
    ∷ []

abbrev pub element : List String → ℕ → Option String
element [] i = none
element (x ∷ xs) zero = some x
element (x ∷ xs) (suc i) = element xs i

-- A `switch` over codes: the name of the first case that fits.
abbrev pub switch : ℕ → List (ℕ × String) → String → String
switch code [] other = other
switch code ((c, name) ∷ cases) other = if code == c then name else switch code cases other

abbrev pub vendors : List (ℕ × String)
vendors = (0x8086, "Intel Corporation") ∷ (0x1022, "AMD") ∷ (0x10de, "NVIDIA Corporation") ∷ []

abbrev pub intel_devices : List (ℕ × String)
intel_devices =
    (0x29C0, "Express DRAM Controller")
    ∷ (0x2918, "LPC Interface Controller")
    ∷ (0x2922, "6 port SATA Controller [AHCI mode]")
    ∷ (0x2930, "SMBus Controller")
    ∷ []

abbrev pub storage_subclasses : List (ℕ × String)
storage_subclasses =
    (0x00, "SCSI Bus Controller")
    ∷ (0x01, "IDE Controller")
    ∷ (0x02, "Floppy Disk Controller")
    ∷ (0x03, "IPI Bus Controller")
    ∷ (0x04, "RAID Controller")
    ∷ (0x05, "ATA Controller")
    ∷ (0x06, "Serial ATA")
    ∷ (0x07, "Serial Attached SCSI")
    ∷ (0x08, "Non-Volatile Memory Controller")
    ∷ (0x80, "Other")
    ∷ []

abbrev pub sata_prog_ifs : List (ℕ × String)
sata_prog_ifs =
    (0x00, "Vendor Specific Interface") ∷ (0x01, "AHCI 1.0") ∷ (0x02, "Serial Storage Bus") ∷ []

abbrev pub vga_prog_ifs : List (ℕ × String)
vga_prog_ifs = (0x00, "VGA Controller") ∷ (0x01, "8514-Compatible Controller") ∷ []

abbrev pub usb_prog_ifs : List (ℕ × String)
usb_prog_ifs =
    (0x00, "UHCI Controller")
    ∷ (0x10, "OHCI Controller")
    ∷ (0x20, "EHCI (USB2) Controller")
    ∷ (0x30, "XHCI (USB3) Controller")
    ∷ (0x80, "Unspecified")
    ∷ (0xFE, "USB Device (Not a Host Controller)")
    ∷ []

-- `to_hstring` at the width of each argument.
module _ (to_hstring_16 to_hstring_8 : ℕ → String) where
  unfoldable pub get_vendor_name : ℕ → String
  get_vendor_name vendor_id = switch vendor_id vendors (to_hstring_16 vendor_id)

  unfoldable pub get_device_name : ℕ → ℕ → String
  get_device_name vendor_id device_id =
      let other = to_hstring_16 device_id in
      if vendor_id == 0x8086 then switch device_id intel_devices other else other

  unfoldable pub mass_storage_controller_subclass_name : ℕ → String
  mass_storage_controller_subclass_name subclass_code =
      switch subclass_code storage_subclasses (to_hstring_8 subclass_code)

  unfoldable pub get_subclass_name : ℕ → ℕ → String
  unfolding mass_storage_controller_subclass_name
  get_subclass_name class_code subclass_code =
      if class_code == 0x01
      then mass_storage_controller_subclass_name subclass_code
      else if (class_code == 0x03) && (subclass_code == 0x00)
      then "VGA Compatible Controller"
      else to_hstring_8 subclass_code

  -- The cases of `get_prog_if_name` have no `break`: each falls through into the next.
  unfoldable pub serial_bus_case : ℕ → ℕ → String
  serial_bus_case subclass_code prog_if =
      let other = to_hstring_8 prog_if in
      if subclass_code == 0x03 then switch prog_if usb_prog_ifs other else other

  unfoldable pub display_case : ℕ → ℕ → String
  unfolding serial_bus_case
  display_case subclass_code prog_if =
      let next = serial_bus_case subclass_code prog_if in
      if subclass_code == 0x00 then switch prog_if vga_prog_ifs next else next

  unfoldable pub storage_case : ℕ → ℕ → String
  unfolding display_case
  storage_case subclass_code prog_if =
      let next = display_case subclass_code prog_if in
      if subclass_code == 0x06 then switch prog_if sata_prog_ifs next else next

  unfoldable pub get_prog_if_name : ℕ → ℕ → ℕ → String
  unfolding storage_case
  get_prog_if_name class_code subclass_code prog_if =
      if class_code == 0x01
      then storage_case subclass_code prog_if
      else if class_code == 0x03
      then display_case subclass_code prog_if
      else if class_code == 0x0C
      then serial_bus_case subclass_code prog_if
      else to_hstring_8 prog_if
