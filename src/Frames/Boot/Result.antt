-- ===== src/Frames/Boot/Result.antt =====
-- The state that `read_efi_memory_map` leaves, page by page.
use eta_os.Base.{ℕ, ◌+◌, ◌*◌, ◌/◌, ◌^◌, ◌≤◌, ◌<◌, ◌≡◌, refl, true, false, not, ◌||◌, arith, ltb}
use eta_os.Bitmap.{Bitmap}
use eta_os.Frames.{Kernel, page_locked, lock_pages, reserve_pages}
use eta_os.Frames.Boot.{
  MemMap, add_sizes, get_memory_size, Segment, largest_free, init_bitmap, unreserve_conventional,
  read_efi_memory_map,
}
use eta_os.Frames.Boot.Map.{
  conventional_page, MapOutside, SegmentsFit, Agrees, page_locked-unreserve_conventional,
  unreserve_conventional-Agrees, boot_bitmap, clear_buffer_lem,
}
use eta_os.Frames.Ranges.{among, reserve_pages-among, lock_pages-among, reserve_pages-page_bitmap}
use eta_os.Frames.Boot.Writes.{reserve_pages-Keeps}

module _ (s : Kernel) (map : MemMap) (mem_map_size : ℕ) where
  abbrev pub map_entries : ℕ
  map_entries = mem_map_size / map.desc_size

  abbrev pub total_memory : ℕ
  total_memory = add_sizes s.mem map map_entries 0 0

  abbrev pub home : Segment
  home = largest_free s.mem map map_entries 0 (record { seg = 0; seg_size = 0 })

  abbrev pub new_bitmap : Bitmap
  new_bitmap = boot_bitmap total_memory home.seg

  -- The allocator is in its initial state, memory is below 2 GiB, and the bitmap's home does not
  -- meet the memory map.
  pub record CanBoot : Type 0 where
    pub fresh : s.initialized ≡ false
    pub unsized : s.mem_size_bytes ≡ 0
    pub small : total_memory / 4096 + 1 ≤ 2 ^ 19
    pub home_fits : home.seg + (new_bitmap.size / 4096 + 1) * 4096 ≤ 2 ^ 64
    pub outside : MapOutside new_bitmap map map_entries
    pub fit : SegmentsFit s.mem map map_entries

  -- The states between the calls of `read_efi_memory_map`.
  unfoldable pub mapped : Kernel
  mapped =
      init_bitmap
        (record s { initialized = true; mem_size_bytes = total_memory; free_memory = total_memory })
        new_bitmap.size home.seg

  unfoldable pub reserved : Kernel
  reserved = reserve_pages mapped 0 (total_memory / 4096 + 1)

  unfoldable pub given_back : Kernel
  given_back = unreserve_conventional map_entries 0 map reserved

  unfoldable pub bios : Kernel
  bios = reserve_pages given_back 0 0x100

module _ (s : Kernel) (map : MemMap) (mem_map_size : ℕ) (can : CanBoot s map mem_map_size) where
  pub read_efi_memory_map-bios :
      read_efi_memory_map s map mem_map_size
      ≡ lock_pages
          (bios s map mem_map_size)
          (bios s map mem_map_size).page_bitmap.buffer
          ((bios s map mem_map_size).page_bitmap.size / 4096 + 1)
  unfolding read_efi_memory_map get_memory_size mapped reserved given_back bios
  read_efi_memory_map-bios = ground (arith, can.fresh, can.unsized)

  pub small_size : (new_bitmap s map mem_map_size).size < 2 ^ 49
  small_size = let l = can.small in omega arith

  reserved-Agrees : Agrees (new_bitmap s map mem_map_size) s.mem (reserved s map mem_map_size)
  unfolding reserved mapped init_bitmap
  reserved-Agrees =
      let start = mapped s map mem_map_size in
      let total = total_memory s map mem_map_size in
      (
        reserve_pages-page_bitmap start 0 (total / 4096 + 1),
        λ x out.
            (reserve_pages-Keeps (new_bitmap s map mem_map_size) x (s.mem x) small_size out start 0
              (total / 4096 + 1)
              (
                refl,
                ground (
                  arith,
                  clear_buffer_lem (total / 4096 / 8 + 1) 0 (home s map mem_map_size).seg s.mem x,
                ),
              )).1,
      )

  page_locked-reserved :
      (j : ℕ)
      → j < total_memory s map mem_map_size / 4096 + 1
      → page_locked (reserved s map mem_map_size) j ≡ true
  unfolding reserved mapped init_bitmap
  page_locked-reserved j l =
      let total = total_memory s map mem_map_size in
      let few = can.small in
      ground (
        arith,
        reserve_pages-among (mapped s map mem_map_size) 0 (total / 4096 + 1) j few (omega arith),
      )

  -- On a fresh allocator, with memory below 2 GiB, conventional segments that end in the
  -- address space, and a bitmap that ends in the address space and does not meet the memory
  -- map, a page of the memory is locked after read_efi_memory_map exactly if it is in no
  -- conventional segment, in the first MiB, or a page of the bitmap.
  pub read_efi_memory_map-locked :
      (j : ℕ)
      → j < total_memory s map mem_map_size / 4096 + 1
      → page_locked (read_efi_memory_map s map mem_map_size) j ≡ (
          not (conventional_page s.mem map (map_entries s map mem_map_size) 0 j)
          || ltb j 0x100
          || among
              (home s map mem_map_size).seg
              ((new_bitmap s map mem_map_size).size / 4096 + 1)
              j)
  unfolding given_back bios
  read_efi_memory_map-locked j l =
      let b = new_bitmap s map mem_map_size in
      let n = map_entries s map mem_map_size in
      let few = can.small in
      (rw (read_efi_memory_map-bios) (
        ground (
          arith,
          lock_pages-among (bios s map mem_map_size) b.buffer (b.size / 4096 + 1) j (omega arith)
              can.home_fits,
          reserve_pages-page_bitmap (given_back s map mem_map_size) 0 0x100,
          reserve_pages-among (given_back s map mem_map_size) 0 0x100 j (omega arith) (omega arith),
          unreserve_conventional-Agrees b s.mem map n small_size can.outside can.fit n 0
              (reserved s map mem_map_size) reserved-Agrees,
          page_locked-unreserve_conventional b s.mem map n small_size can.outside can.fit n 0 j
              (reserved s map mem_map_size) (omega arith) reserved-Agrees,
          page_locked-reserved j l,
        )))
