-- ===== src/Gdt.antt =====
-- The segment descriptors of kernel/src/gdt: the structures of gdt.h and the table of gdt.cpp.
use eta_os.Base.{ℕ, ◌-◌}

pub record GdtDescriptor : Type 0 where
  pub size : ℕ
  pub offset : ℕ

pub record GdtEntry : Type 0 where
  pub limit0 : ℕ
  pub base0 : ℕ
  pub base1 : ℕ
  pub access_byte : ℕ
  pub limit1_flags : ℕ
  pub base2 : ℕ

pub record Gdt : Type 0 where
  pub null : GdtEntry
  pub kernel_code : GdtEntry
  pub kernel_data : GdtEntry
  pub user_null : GdtEntry
  pub user_code : GdtEntry
  pub user_data : GdtEntry

-- An entry of `default_gdt`, whose base and limit are 0.
abbrev pub segment : ℕ → ℕ → GdtEntry
segment access_byte limit1_flags = record {
  limit0 = 0;
  base0 = 0;
  base1 = 0;
  access_byte = access_byte;
  limit1_flags = limit1_flags;
  base2 = 0;
}

abbrev pub default_gdt : Gdt
default_gdt = record {
  null = segment 0x00 0x00;
  kernel_code = segment 0x9a 0xa0;
  kernel_data = segment 0x92 0xa0;
  user_null = segment 0x00 0x00;
  user_code = segment 0x9a 0xa0;
  user_data = segment 0x92 0xa0;
}

-- What `init_kernel` hands to load_gdt; the table is aligned to 4096 bytes, and so is its size.
abbrev pub gdt_desc : ℕ → GdtDescriptor
gdt_desc default_gdt_addr = record { size = 4096 - 1; offset = default_gdt_addr }
