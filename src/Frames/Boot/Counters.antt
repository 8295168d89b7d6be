-- ===== src/Frames/Boot/Counters.antt =====
-- The memory counters once the memory map has been read.
use eta_os.Base.{ℕ, zero, suc, ◌+◌, ◌/◌, ◌≡◌, inl, inr, map, arith, ◌==◌, Bool-cases}
use eta_os.Frames.{
  Kernel, page_locked, lock_page, reserve_page, unreserve_page, lock_pages, reserve_pages,
  unreserve_pages,
}
use eta_os.Frames.Boot.{
  MemMap, memory_descriptor, conventional, init_bitmap, unreserve_entry, unreserve_conventional,
  read_efi_memory_map,
}
use eta_os.Frames.Ledger.{
  page_indices, locked_pages, IsLedger, lock_page-IsLedger, reserve_page-IsLedger,
  unreserve_page-IsLedger,
}
use eta_os.Frames.Boot.Result.{
  map_entries, total_memory, home, new_bitmap, CanBoot, mapped, reserved, given_back, bios,
  read_efi_memory_map-bios, small_size,
}
use eta_os.Frames.Count.{count_below_none}
use eta_os.Frames.Ranges.{for_pages_keeps}
use eta_os.Frames.Boot.Map.{clear_buffer_lem}
use eta_os.Bitmap.Laws.{get_cleared}

reserve_pages-IsLedger :
    {total : ℕ} (s : Kernel) (addr n : ℕ)
    → IsLedger total s
    → IsLedger total (reserve_pages s addr n)
unfolding reserve_pages
reserve_pages-IsLedger {total} s addr n =
    for_pages_keeps (IsLedger total) reserve_page (λ t a l. reserve_page-IsLedger a l) n 0 addr s

lock_pages-IsLedger :
    {total : ℕ} (s : Kernel) (addr n : ℕ) → IsLedger total s → IsLedger total (lock_pages s addr n)
unfolding lock_pages
lock_pages-IsLedger {total} s addr n =
    for_pages_keeps (IsLedger total) lock_page (λ t a l. lock_page-IsLedger a l) n 0 addr s

unreserve_pages-IsLedger :
    {total : ℕ} (s : Kernel) (addr n : ℕ)
    → IsLedger total s
    → IsLedger total (unreserve_pages s addr n)
unfolding unreserve_pages
unreserve_pages-IsLedger {total} s addr n =
    for_pages_keeps (IsLedger total) unreserve_page (λ t a l. unreserve_page-IsLedger a l) n 0 addr
      s

unreserve_conventional-IsLedger :
    {total : ℕ} (left i : ℕ) (map : MemMap) (s : Kernel)
    → IsLedger total s
    → IsLedger total (unreserve_conventional left i map s)
unfolding unreserve_conventional
unreserve_conventional-IsLedger zero i map s l = l
unreserve_conventional-IsLedger (suc left) i map s l =
    unreserve_conventional-IsLedger left (i + 1) map (unreserve_entry s map i)
      (elim (Bool-cases ((memory_descriptor s.mem map i).type == conventional)) [
        | inl given ↦ rw given (
            unreserve_pages-IsLedger s (memory_descriptor s.mem map i).phys_addr
              (memory_descriptor s.mem map i).num_pages l)
        | inr kept ↦ rw kept l
      ])

module _ (s : Kernel) (map : MemMap) (mem_map_size : ℕ) (can : CanBoot s map mem_map_size)
    (none_reserved : s.reserved_memory ≡ 0) (none_used : s.used_memory ≡ 0)
    (clear_end : s.mem ((home s map mem_map_size).seg + (new_bitmap s map mem_map_size).size)
      ≡ 0) where
  mapped-IsLedger : IsLedger (total_memory s map mem_map_size) (mapped s map mem_map_size)
  unfolding mapped init_bitmap locked_pages
  mapped-IsLedger =
      let start = mapped s map mem_map_size in
      let b = new_bitmap s map mem_map_size in
      let few = can.small in
      let empty = count_below_none (page_locked start) (page_indices start) (λ j l.
        get_cleared b start.mem j
          (ground (arith, clear_buffer_lem b.size 0 b.buffer s.mem (b.buffer + j / 8)))) in
      record {
        size_fits = small_size s map mem_map_size can;
        balance = ground arith;
        locked = ground (arith, empty);
      }

  -- On a fresh allocator with zero counters, with memory below 2 GiB, conventional segments and
  -- a bitmap that end in the address space, a bitmap that does not meet the memory map and the
  -- byte behind the bitmap clear, the counters after read_efi_memory_map add up to the memory
  -- of the map, and those of locked memory are 4096 for each locked page, modulo 2^64.
  pub read_efi_memory_map-IsLedger :
      IsLedger (total_memory s map mem_map_size) (read_efi_memory_map s map mem_map_size)
  unfolding bios given_back reserved
  read_efi_memory_map-IsLedger =
      let few = can.small in
      rw (read_efi_memory_map-bios s map mem_map_size can) (
        lock_pages-IsLedger (bios s map mem_map_size) _ _ (
          reserve_pages-IsLedger (given_back s map mem_map_size) 0 0x100 (
            unreserve_conventional-IsLedger (map_entries s map mem_map_size) 0 map
              (reserved s map mem_map_size)
              (reserve_pages-IsLedger (mapped s map mem_map_size) 0
                (total_memory s map mem_map_size / 4096 + 1) mapped-IsLedger))))
