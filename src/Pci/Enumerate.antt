-- ===== src/Pci/Enumerate.antt =====
-- The walk over the PCI buses: kernel/src/pci.cpp. Each device's header is mapped to itself and
-- read. What is printed is a list of the calls of the renderer.
pub mod Listing
pub mod Printed
pub mod Buses
use Prim.Native.String.{String}
use eta_os.Base.{
  ℕ, zero, suc, ◌+◌, ◌*◌, ◌/◌, ◌^◌, Bool, ◌||◌, Option, some, List, [], ◌∷◌, ◌++◌, ltb, ◌==◌,
  if◌then◌else◌, u32, u64, sub64, ◌<<<◌,
}
use eta_os.Pci.{device_classes, element, get_vendor_name, get_device_name, get_subclass_name}
use eta_os.Memory.{Mem, load16, load32, load64}
use eta_os.Frames.{Kernel}
use eta_os.Paging.{map_mem}

-- A call of `print`, where `none` is what a read past the end of an array gives, or of `nextln`.
pub data Output : Type 0 where
  text : Option String → Output
  newline : Output

-- The globals that the walk changes.
pub record Walk : Type 0 where
  pub kernel : Kernel
  pub output : List Output

-- The fields of PCIDeviceHeader that are read, at address `h`.
abbrev pub vendor_id : Mem → ℕ → ℕ
vendor_id m h = load16 m h

abbrev pub device_id : Mem → ℕ → ℕ
device_id m h = load16 m (h + 2)

abbrev pub subclass : Mem → ℕ → ℕ
subclass m h = m (h + 10)

abbrev pub class_code : Mem → ℕ → ℕ
class_code m h = m (h + 11)

-- `device_id == 0` or `device_id == 0xffff`
unfoldable pub is_absent : Mem → ℕ → Bool
is_absent m h = (device_id m h == 0) || (device_id m h == 0xffff)

-- `global_ptm.map_mem(addr, addr)`
unfoldable pub map_header : ℕ → Walk → ℕ → Walk
map_header pml4 w addr = record w { kernel = map_mem w.kernel pml4 addr addr }

module _ (to_hstring_16 to_hstring_8 : ℕ → String) where
  -- What `enumerate_function` prints.
  unfoldable pub print_device : Mem → ℕ → List Output
  print_device m h =
      text (some (get_vendor_name to_hstring_16 to_hstring_8 (vendor_id m h)))
      ∷ text (some " / ")
      ∷ text (some (get_device_name to_hstring_16 to_hstring_8 (vendor_id m h) (device_id m h)))
      ∷ text (some " / ")
      ∷ text (element device_classes (class_code m h))
      ∷ text (some " / ")
      ∷ text (some (get_subclass_name to_hstring_16 to_hstring_8 (class_code m h) (subclass m h)))
      ∷ newline
      ∷ []

module _ (to_hstring_16 to_hstring_8 : ℕ → String) (pml4 : ℕ) where
  unfoldable pub enumerate_function : Walk → ℕ → ℕ → Walk
  unfolding map_header is_absent print_device
  enumerate_function w device_addr function =
      let function_addr = u64 (device_addr + u64 (function <<< 12)) in
      let w' = map_header pml4 w function_addr in
      if is_absent w'.kernel.mem function_addr then w' else record w' {
        output = w'.output ++ print_device to_hstring_16 to_hstring_8 w'.kernel.mem function_addr;
      }

  -- The loop of `enumerate_device`, from `function` on.
  unfoldable pub functions_from : ℕ → Walk → ℕ → ℕ → Walk
  unfolding enumerate_function
  functions_from zero w device_addr function = w
  functions_from (suc left) w device_addr function =
      functions_from left (enumerate_function w device_addr function) device_addr (function + 1)

  unfoldable pub enumerate_device : Walk → ℕ → ℕ → Walk
  enumerate_device w bus_addr device =
      let device_addr = u64 (bus_addr + u64 (device <<< 15)) in
      let w' = map_header pml4 w device_addr in
      let walked = functions_from 8 w' device_addr 0 in
      if is_absent w'.kernel.mem device_addr then w' else walked

  -- The loop of `enumerate_bus`, from `device` on.
  unfoldable pub devices_from : ℕ → Walk → ℕ → ℕ → Walk
  unfolding enumerate_device
  devices_from zero w bus_addr device = w
  devices_from (suc left) w bus_addr device =
      devices_from left (enumerate_device w bus_addr device) bus_addr (device + 1)

  unfoldable pub enumerate_bus : Walk → ℕ → ℕ → Walk
  enumerate_bus w base_addr bus =
      let bus_addr = u64 (base_addr + u64 (bus <<< 20)) in
      let w' = map_header pml4 w bus_addr in
      let walked = devices_from 32 w' bus_addr 0 in
      if is_absent w'.kernel.mem bus_addr then w' else walked

  -- The inner loop of `enumerate_pci`, from `bus` on, for the entry at `config`, which is read in
  -- each round. `end_bus` is a byte and is left out, so 255 rounds are enough.
  unfoldable pub buses_from : ℕ → Walk → ℕ → ℕ → Walk
  unfolding enumerate_bus
  buses_from zero w config bus = w
  buses_from (suc left) w config bus =
      let m = w.kernel.mem in
      let rest = buses_from left (enumerate_bus w (load64 m config) bus) config (bus + 1) in
      if ltb bus (m (config + 11)) then rest else w

  -- The outer loop, from entry `i` on, at `mcfg + sizeof(MCFGHeader) + sizeof(DeviceConfig) * i`.
  unfoldable pub configs_from : ℕ → Walk → ℕ → ℕ → Walk
  unfolding buses_from
  configs_from zero w mcfg i = w
  configs_from (suc left) w mcfg i =
      let config = u64 (mcfg + 44 + 16 * i) in
      let start_bus = w.kernel.mem (config + 10) in
      configs_from left (buses_from 255 w config start_bus) mcfg (i + 1)

  -- `entries` is an `int`, and no round is made where it is negative.
  unfoldable pub enumerate_pci : Walk → ℕ → Walk
  unfolding configs_from
  enumerate_pci w mcfg =
      let entries = u32 (sub64 (load32 w.kernel.mem (mcfg + 4)) 44 / 16) in
      configs_from (if ltb entries (2 ^ 31) then entries else 0) w mcfg 0
