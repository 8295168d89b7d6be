-- ===== src/Loader/Elf.antt =====
-- The kernel's image in gnu-efi/bootloader/main.c: the test of its header, and the loop over its
-- program headers.
pub mod Segments
pub mod Loop
use eta_os.Base.{
  ℕ, zero, suc, ◌+◌, ◌-◌, ◌*◌, ◌/◌, ◌^◌, Bool, true, not, ◌||◌, ltb, ◌==◌, if◌then◌else◌, u32, u64,
}
use eta_os.Loader.{ℤ, pos, negsuc, memcmp}
use eta_os.Loader.Firmware.{Firmware, M, pure, ◌>>=◌, ◌>>◌, call, act, gets}
use eta_os.Memory.{Mem}

-- What main.c uses of the C library's elf.h: the fields of the headers at an address, their sizes,
-- and the constants. `elfmag` is the address of ELFMAG.
pub record ElfFormat : Type 0 where
  pub e_ident : ℕ → ℕ
  pub ei_mag0 : ℕ
  pub ei_class : ℕ
  pub ei_data : ℕ
  pub e_type : Mem → ℕ → ℕ
  pub e_machine : Mem → ℕ → ℕ
  pub e_version : Mem → ℕ → ℕ
  pub e_entry : Mem → ℕ → ℕ
  pub e_phoff : Mem → ℕ → ℕ
  pub e_phnum : Mem → ℕ → ℕ
  pub e_phentsize : Mem → ℕ → ℕ
  pub p_type : Mem → ℕ → ℕ
  pub p_offset : Mem → ℕ → ℕ
  pub p_paddr : Mem → ℕ → ℕ
  pub p_filesz : Mem → ℕ → ℕ
  pub p_memsz : Mem → ℕ → ℕ
  pub sizeof_ehdr : ℕ
  pub sizeof_phdr : ℕ
  pub elfmag : ℕ
  pub selfmag : ℕ
  pub elfclass64 : ℕ
  pub elfdata2lsb : ℕ
  pub et_exec : ℕ
  pub em_x86_64 : ℕ
  pub ev_current : ℕ
  pub pt_load : ℕ

-- `a != b`, of an `int` and 0.
abbrev pub ne_zero : ℤ → Bool
ne_zero (pos n) = not (n == 0)
ne_zero (negsuc n) = true

-- `(p_memsz + 0x1000 - 1) / 0x1000` as an `int`, which AllocatePages takes widened to 64 bits.
unfoldable pub segment_pages : ℕ → ℕ
segment_pages p_memsz =
    let pages = u32 (u64 (p_memsz + 0xfff) / 0x1000) in
    if ltb pages (2 ^ 31) then pages else pages + (2 ^ 64 - 2 ^ 32)

module _ (elf : ElfFormat) where
  -- The condition under which the image is called bad.
  unfoldable pub is_bad : Mem → ℕ → Bool
  unfolding memcmp
  is_bad m header =
      ne_zero (memcmp elf.selfmag m (elf.e_ident header + elf.ei_mag0) elf.elfmag)
      || not (m (elf.e_ident header + elf.ei_class) == elf.elfclass64)
      || not (m (elf.e_ident header + elf.ei_data) == elf.elfdata2lsb)
      || not (elf.e_type m header == elf.et_exec)
      || not (elf.e_machine m header == elf.em_x86_64)
      || not (elf.e_version m header == elf.ev_current)

  -- `header.e_phnum * header.e_phentsize`, a product of type `int`, widened to 64 bits.
  unfoldable pub p_headers_size : Mem → ℕ → ℕ
  p_headers_size m header =
      let product = u32 (elf.e_phnum m header * elf.e_phentsize m header) in
      if ltb product (2 ^ 31) then product else product + (2 ^ 64 - 2 ^ 32)

  module _ (fw : Firmware) where
    -- The case PT_LOAD.
    unfoldable pub load_segment : ℕ → ℕ → M fw.State (Unit {0})
    unfolding segment_pages
    load_segment kernel p_header = do
      m ← gets fw.memory
      segment ←
          call λ s.
            fw.allocate_pages s (segment_pages (elf.p_memsz m p_header)) (elf.p_paddr m p_header)
      n ← gets fw.memory
      act λ s. fw.set_position s kernel (elf.p_offset n p_header)
      o ← gets fw.memory
      act λ s. fw.read s kernel (elf.p_filesz o p_header) segment

    unfoldable pub visit_header : ℕ → ℕ → M fw.State (Unit {0})
    unfolding load_segment
    visit_header kernel p_header = do
      m ← gets fw.memory
      if elf.p_type m p_header == elf.pt_load then load_segment kernel p_header else pure tt

    -- The loop, with `left` rounds at most, from `p_header` to below `last`.
    unfoldable pub visit_headers : ℕ → ℕ → ℕ → ℕ → ℕ → M fw.State (Unit {0})
    visit_headers zero kernel e_phentsize p_header last = pure tt
    visit_headers (suc left) kernel e_phentsize p_header last =
        let rest = visit_headers left kernel e_phentsize (u64 (p_header + e_phentsize)) last in
        if ltb p_header last then visit_header kernel p_header >> rest else pure tt

    -- The program headers are read, and what they name is loaded. `header` is the address of the
    -- image's header. A header's rounds are `e_phnum`, since each goes on by `e_phentsize`.
    unfoldable pub load_segments : ℕ → ℕ → M fw.State (Unit {0})
    unfolding p_headers_size
    load_segments kernel header = do
      m ← gets fw.memory
      act λ s. fw.set_position s kernel (elf.e_phoff m header)
      p_headers ← call λ s. fw.allocate_pool s (p_headers_size m header)
      act λ s. fw.read s kernel (p_headers_size m header) p_headers
      visit_headers (elf.e_phnum m header) kernel (elf.e_phentsize m header) p_headers
          (u64 (p_headers + p_headers_size m header))
