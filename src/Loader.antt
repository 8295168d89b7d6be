-- ===== src/Loader.antt =====
-- The parts of the boot loader, gnu-efi/bootloader/main.c, that do not call the firmware: `memcmp`,
-- `strncmp` and the search for the RSDP in the firmware's configuration tables. A record of those
-- has 24 bytes, the GUID first and the pointer to the table at 16; CompareGuid, of the firmware's
-- library, is an argument.
pub mod Compare
pub mod Rsdp
pub mod Firmware
pub mod Files
pub mod Elf
pub mod Main
use eta_os.Base.{ℕ, zero, suc, ◌+◌, ◌*◌, not, ltb, ◌==◌, if◌then◌else◌}
use eta_os.Memory.{Mem, load64}

-- A C `int`.
pub data ℤ : Type 0 where
  pos : ℕ → ℤ
  negsuc : ℕ → ℤ

-- `memcmp` with `left` bytes to go, `a` and `b` at the next ones.
unfoldable pub memcmp : ℕ → Mem → ℕ → ℕ → ℤ
memcmp zero m a b = pos 0
memcmp (suc left) m a b =
    let rest = memcmp left m (a + 1) (b + 1) in
    if ltb (m a) (m b) then negsuc 0 else if ltb (m b) (m a) then pos 1 else rest

-- `strncmp` gives 1 where the characters are equal, and 0 where they are not.
unfoldable pub strncmp : ℕ → Mem → ℕ → ℕ → ℕ
strncmp zero m a b = 1
strncmp (suc left) m a b =
    let rest = strncmp left m (a + 1) (b + 1) in if not (m a == m b) then 0 else rest

-- The record at `config_table`, a pointer.
abbrev pub vendor_table : Mem → ℕ → ℕ
vendor_table m config_table = load64 m (config_table + 16)

module _ (compare_guid : Mem → ℕ → ℕ → ℕ) (acpi2_table_guid rsd_ptr : ℕ) where
  -- One round: `config_table[i]` for the GUID, `config_table` itself for the table. The branch is
  -- taken where CompareGuid does not give 0.
  unfoldable pub rsdp_round : Mem → ℕ → ℕ → ℕ → ℕ
  unfolding strncmp
  rsdp_round m config_table i rsdp =
      if not (compare_guid m (config_table + 24 * i) acpi2_table_guid == 0)
      then if not (strncmp 8 m rsd_ptr (vendor_table m config_table) == 0)
        then vendor_table m config_table
        else rsdp
      else rsdp

  -- The search with `left` rounds to go; both `i` and `config_table` go on in each.
  unfoldable pub find_rsdp_from : ℕ → Mem → ℕ → ℕ → ℕ → ℕ
  unfolding rsdp_round
  find_rsdp_from zero m config_table i rsdp = rsdp
  find_rsdp_from (suc left) m config_table i rsdp =
      find_rsdp_from left m (config_table + 24) (i + 1) (rsdp_round m config_table i rsdp)

  unfoldable pub find_rsdp : Mem → ℕ → ℕ → ℕ
  unfolding find_rsdp_from
  find_rsdp m config_table number_of_table_entries =
      find_rsdp_from number_of_table_entries m config_table 0 0
