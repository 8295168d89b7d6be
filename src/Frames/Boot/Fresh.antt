-- ===== src/Frames/Boot/Fresh.antt =====
-- What the state after `read_efi_memory_map` gives to the page tables.
use eta_os.Base.{
  ℕ, zero, suc, ◌+◌, ◌/◌, ◌≡◌, refl, ◌∙◌, inl, inr, true, false, map, arith, ◌==◌, Bool-cases,
}
use eta_os.Frames.Boot.{
  MemMap, memory_descriptor, conventional, init_bitmap, unreserve_entry, unreserve_conventional,
  read_efi_memory_map,
}
use eta_os.Frames.Boot.Result.{
  map_entries, total_memory, home, new_bitmap, CanBoot, mapped, reserved, given_back, bios,
  read_efi_memory_map-bios,
}
use eta_os.Frames.Scan.{
  IsScanned, lock_page-IsScanned, reserve_page-IsScanned, unreserve_page-IsScanned,
}
use eta_os.Frames.{
  Kernel, lock_page, reserve_page, unreserve_page, lock_pages, reserve_pages, unreserve_pages,
}
use eta_os.Frames.Ranges.{for_pages_keeps}
use eta_os.Memory.Words.{IsBytes}
use eta_os.Frames.Ledger.{
  lock_page-page_bitmap, reserve_page-page_bitmap, unreserve_page-page_bitmap,
}
use eta_os.Frames.Boot.Map.{clear_buffer_lem}
use eta_os.Bitmap.Laws.{set-IsBytes}

module _ (P : Kernel → Type 0) (lock : (s : Kernel) (addr : ℕ) → P s → P (lock_page s addr))
    (reserve : (s : Kernel) (addr : ℕ) → P s → P (reserve_page s addr))
    (unreserve : (s : Kernel) (addr : ℕ) → P s → P (unreserve_page s addr)) where
  unreserve_conventional_keeps :
      (left i : ℕ) (map : MemMap) (s : Kernel) → P s → P (unreserve_conventional left i map s)
  unfolding unreserve_conventional unreserve_pages
  unreserve_conventional_keeps zero i map s h = h
  unreserve_conventional_keeps (suc left) i map s h =
      let d = memory_descriptor s.mem map i in
      unreserve_conventional_keeps left (i + 1) map (unreserve_entry s map i)
        (elim (Bool-cases (d.type == conventional)) [
          | inl free ↦
              rw free (for_pages_keeps P unreserve_page unreserve d.num_pages 0 d.phys_addr s h)
          | inr other ↦ rw other h
        ])

  -- What holds of the state with its empty bitmap, and what each page operation keeps, holds in
  -- the end.
  pub read_efi_memory_map_keeps :
      (s : Kernel) (map : MemMap) (mem_map_size : ℕ)
      → CanBoot s map mem_map_size
      → P (mapped s map mem_map_size)
      → P (read_efi_memory_map s map mem_map_size)
  unfolding bios given_back reserved lock_pages reserve_pages
  read_efi_memory_map_keeps s map mem_map_size can h =
      rw (read_efi_memory_map-bios s map mem_map_size can) (
        for_pages_keeps P lock_page lock _ 0 _ (bios s map mem_map_size) (
          for_pages_keeps P reserve_page reserve 0x100 0 0 (given_back s map mem_map_size) (
            unreserve_conventional_keeps (map_entries s map mem_map_size) 0 map
              (reserved s map mem_map_size)
              (for_pages_keeps P reserve_page reserve _ 0 0 (mapped s map mem_map_size) h))))

-- What the page operations keep.
module _ (s : Kernel) (addr : ℕ) where
  pub lock_page-mem_size_bytes : (lock_page s addr).mem_size_bytes ≡ s.mem_size_bytes
  unfolding lock_page
  lock_page-mem_size_bytes = ground arith

  reserve_page-mem_size_bytes : (reserve_page s addr).mem_size_bytes ≡ s.mem_size_bytes
  unfolding reserve_page
  reserve_page-mem_size_bytes = ground arith

  unreserve_page-mem_size_bytes : (unreserve_page s addr).mem_size_bytes ≡ s.mem_size_bytes
  unfolding unreserve_page
  unreserve_page-mem_size_bytes = ground arith

  module _ (bytes : IsBytes s.mem) where
    pub lock_page-IsBytes : IsBytes (lock_page s addr).mem
    unfolding lock_page
    lock_page-IsBytes x =
        ground (arith, bytes x, set-IsBytes s.page_bitmap s.mem (addr / 4096) true bytes x)

    reserve_page-IsBytes : IsBytes (reserve_page s addr).mem
    unfolding reserve_page
    reserve_page-IsBytes x =
        ground (arith, bytes x, set-IsBytes s.page_bitmap s.mem (addr / 4096) true bytes x)

    unreserve_page-IsBytes : IsBytes (unreserve_page s addr).mem
    unfolding unreserve_page
    unreserve_page-IsBytes x =
        ground (arith, bytes x, set-IsBytes s.page_bitmap s.mem (addr / 4096) false bytes x)

module _ (s : Kernel) (map : MemMap) (mem_map_size : ℕ) (can : CanBoot s map mem_map_size) where
  abbrev booted : Kernel
  booted = read_efi_memory_map s map mem_map_size

  pub booted-page_bitmap : booted.page_bitmap ≡ new_bitmap s map mem_map_size
  unfolding mapped init_bitmap
  booted-page_bitmap =
      read_efi_memory_map_keeps (λ k. k.page_bitmap ≡ new_bitmap s map mem_map_size)
        (λ k a h. lock_page-page_bitmap k a ∙ h) (λ k a h. reserve_page-page_bitmap k a ∙ h)
        (λ k a h. unreserve_page-page_bitmap k a ∙ h) s map mem_map_size can refl

  pub booted-mem_size_bytes : booted.mem_size_bytes ≡ total_memory s map mem_map_size
  unfolding mapped init_bitmap
  booted-mem_size_bytes =
      read_efi_memory_map_keeps (λ k. k.mem_size_bytes ≡ total_memory s map mem_map_size)
        (λ k a h. lock_page-mem_size_bytes k a ∙ h) (λ k a h. reserve_page-mem_size_bytes k a ∙ h)
        (λ k a h. unreserve_page-mem_size_bytes k a ∙ h) s map mem_map_size can refl

  pub booted-IsBytes : IsBytes s.mem → IsBytes booted.mem
  unfolding mapped init_bitmap
  booted-IsBytes bytes =
      read_efi_memory_map_keeps (λ k. IsBytes k.mem) lock_page-IsBytes reserve_page-IsBytes
        unreserve_page-IsBytes s map mem_map_size can
        λ x. ground (
          arith,
          bytes x,
          clear_buffer_lem (total_memory s map mem_map_size / 4096 / 8 + 1) 0
              (home s map mem_map_size).seg s.mem x,
        )

  pub booted-IsScanned : s.page_bitmap_index ≡ 0 → IsScanned booted
  unfolding mapped init_bitmap
  booted-IsScanned first =
      read_efi_memory_map_keeps IsScanned lock_page-IsScanned reserve_page-IsScanned
        unreserve_page-IsScanned s map mem_map_size can λ i l. absurd (omega (arith, first))
