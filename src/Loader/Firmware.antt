-- ===== src/Loader/Firmware.antt =====
-- What gnu-efi/bootloader/main.c calls of the UEFI firmware and of its library: the services over an
-- unknown state, which includes the memory. Pointers are addresses, and 0 is NULL; a status is 0 for
-- success. Statuses that the loader does not look at are left out.
use Prim.Native.String.{String}
use eta_os.Base.{ℕ, Option, none, some, List, ◌==◌, if◌then◌else◌}
use eta_os.Memory.{Mem}

-- The fields of EFI_GRAPHICS_OUTPUT_PROTOCOL that are read.
pub record Gop : Type 0 where
  pub frame_buffer_base : ℕ
  pub frame_buffer_size : ℕ
  pub horizontal_resolution : ℕ
  pub vertical_resolution : ℕ
  pub pixels_per_scan_line : ℕ

-- A status, with the protocol that was found, and with the file that was opened.
pub record Located : Type 0 where
  pub status : ℕ
  pub protocol : Gop

pub record Opened : Type 0 where
  pub status : ℕ
  pub file : ℕ

-- What GetMemoryMap stores.
pub record MapSizes : Type 0 where
  pub map_size : ℕ
  pub map_key : ℕ
  pub descriptor_size : ℕ

pub record Firmware : Type 1 where
  pub State : Type 0
  pub memory : State → Mem
  pub initialize_lib : State → ℕ → State
  -- `Print(format, values)`
  pub print : State → String → List ℕ → State
  pub locate_protocol : State → State × Located
  -- The interface of a handle; the GUID is given by its name.
  pub handle_protocol : State → ℕ → String → State × ℕ
  pub device_handle : Mem → ℕ → ℕ
  pub open_volume : State → ℕ → State × ℕ
  -- `directory->Open(path)`
  pub open_file : State → ℕ → String → State × Opened
  -- `GetInfo(file, size, buffer)`: the size that is stored.
  pub get_info : State → ℕ → ℕ → ℕ → State × ℕ
  pub set_position : State → ℕ → ℕ → State
  -- `Read(file, size, buffer)`
  pub read : State → ℕ → ℕ → ℕ → State
  pub allocate_pool : State → ℕ → State × ℕ
  -- `AllocatePages(AllocateAddress, pages, segment)`: the segment that is stored.
  pub allocate_pages : State → ℕ → ℕ → State × ℕ
  -- `GetMemoryMap(size, map)`
  pub get_memory_map : State → ℕ → ℕ → State × MapSizes
  -- The configuration tables and their number.
  pub configuration_table : State → ℕ × ℕ
  -- 0 where the two are equal.
  pub compare_guid : Mem → ℕ → ℕ → ℕ
  pub exit_boot_services : State → ℕ → State

-- `none` is a use of a null pointer.
abbrev pub M : Type 0 → Type 0 → Type 0
M S A = S → Option (A × S)

module _ {S : Type 0} where
  abbrev pub pure : {A : Type 0} → A → M S A
  pure a s = some (a, s)

  infixl 5 ◌>>=◌ ◌>>◌
  abbrev pub ◌>>=◌ : {A B : Type 0} → M S A → (A → M S B) → M S B
  ◌>>=◌ m f s = elim (m s) [ none ↦ none | some (a, s') ↦ f a s' ]

  abbrev pub ◌>>◌ : {B : Type 0} → M S (Unit {0}) → M S B → M S B
  m >> k = m >>= λ _. k

  -- A call that stores a value, and one that does not.
  abbrev pub call : {A : Type 0} → (S → S × A) → M S A
  call f s = let (s', a) = f s in some (a, s')

  abbrev pub act : (S → S) → M S (Unit {0})
  act f s = some (tt, f s)

  abbrev pub gets : {A : Type 0} → (S → A) → M S A
  gets f s = some (f s, s)

  -- The use of a pointer.
  abbrev pub not_null : ℕ → M S (Unit {0})
  not_null p s = if p == 0 then none else some (tt, s)
