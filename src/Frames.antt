-- ===== src/Frames.antt =====
-- The page frame allocator: class PageFrameAllocator of
-- kernel/src/paging/page_frame_allocator.h and .cpp, with the globals of that file, the memory
-- descriptors of kernel/src/efi_memory.h and `get_memory_size` of kernel/src/memory.cpp.
pub mod Pages
pub mod Count
pub mod Ledger
pub mod Scan
pub mod Ranges
pub mod Boot
pub mod Run
use eta_os.Base.{
  ℕ, zero, suc, ◌+◌, ◌-◌, ◌*◌, ◌/◌, ◌^◌, Bool, true, false, not, ltb, if◌then◌else◌, u32, u64,
  add64, sub64,
}
use eta_os.Memory.{Mem}
use eta_os.Bitmap.{Bitmap, get, set}

-- Physical memory, `global_allocator` with the file's globals, and the static counter of
-- `get_memory_size`.
pub record Kernel : Type 0 where
  pub mem : Mem
  pub page_bitmap : Bitmap
  pub free_memory : ℕ
  pub reserved_memory : ℕ
  pub used_memory : ℕ
  pub initialized : Bool
  pub page_bitmap_index : ℕ
  pub mem_size_bytes : ℕ

abbrev pub page_size : ℕ
page_size = 4096

-- `page_bitmap[index]`
abbrev pub page_locked : Kernel → ℕ → Bool
page_locked s index = get s.page_bitmap s.mem index

unfoldable pub lock_page : Kernel → ℕ → Kernel
lock_page s addr =
    let index = addr / 4096 in
    if page_locked s index
    then s
    else let (m, done) = set s.page_bitmap s.mem index true in
      if done
      then record s {
        mem = m;
        free_memory = sub64 s.free_memory 4096;
        used_memory = add64 s.used_memory 4096;
      }
      else record s { mem = m }

unfoldable pub reserve_page : Kernel → ℕ → Kernel
reserve_page s addr =
    let index = addr / 4096 in
    if page_locked s index
    then s
    else let (m, done) = set s.page_bitmap s.mem index true in
      if done
      then record s {
        mem = m;
        free_memory = sub64 s.free_memory 4096;
        reserved_memory = add64 s.reserved_memory 4096;
      }
      else record s { mem = m }

-- `if (page_bitmap_index > index) { page_bitmap_index = index; }`
abbrev pub scan_from : ℕ → ℕ → ℕ
scan_from current index = if ltb index current then index else current

unfoldable pub free_page : Kernel → ℕ → Kernel
free_page s addr =
    let index = addr / 4096 in
    if not (page_locked s index)
    then s
    else let (m, done) = set s.page_bitmap s.mem index false in
      if done
      then record s {
        mem = m;
        free_memory = add64 s.free_memory 4096;
        used_memory = sub64 s.used_memory 4096;
        page_bitmap_index = scan_from s.page_bitmap_index index;
      }
      else record s { mem = m }

unfoldable pub unreserve_page : Kernel → ℕ → Kernel
unreserve_page s addr =
    let index = addr / 4096 in
    if not (page_locked s index)
    then s
    else let (m, done) = set s.page_bitmap s.mem index false in
      if done
      then record s {
        mem = m;
        free_memory = add64 s.free_memory 4096;
        reserved_memory = sub64 s.reserved_memory 4096;
        page_bitmap_index = scan_from s.page_bitmap_index index;
      }
      else record s { mem = m }

-- `i * 4096` for an `int i`, widened to 64 bits: the product wraps at 32 bits and is signed.
abbrev pub int_offset : ℕ → ℕ
int_offset i = let w = u32 (i * 4096) in if ltb w (2 ^ 31) then w else w + (2 ^ 64 - 2 ^ 32)

-- `for (int i = 0; i < page_count; i++) op((uint64_t)addr + i * 4096)`, from round `i` on.
unfoldable pub for_pages_from : (Kernel → ℕ → Kernel) → ℕ → ℕ → ℕ → Kernel → Kernel
for_pages_from op zero i addr s = s
for_pages_from op (suc left) i addr s =
    for_pages_from op left (i + 1) addr (op s (u64 (addr + int_offset i)))

abbrev pub for_pages : (Kernel → ℕ → Kernel) → Kernel → ℕ → ℕ → Kernel
for_pages op s addr page_count = for_pages_from op page_count 0 addr s

unfoldable pub lock_pages : Kernel → ℕ → ℕ → Kernel
lock_pages = for_pages lock_page

unfoldable pub reserve_pages : Kernel → ℕ → ℕ → Kernel
reserve_pages = for_pages reserve_page

unfoldable pub free_pages : Kernel → ℕ → ℕ → Kernel
free_pages = for_pages free_page

unfoldable pub unreserve_pages : Kernel → ℕ → ℕ → Kernel
unreserve_pages = for_pages unreserve_page

-- The scan of `request_page`, with `left` indices below `page_bitmap.size` to go; 0 is NULL.
unfoldable pub request_scan : ℕ → Kernel → Kernel × ℕ
request_scan zero s = (s, 0)
request_scan (suc left) s =
    let rest = request_scan left (record s { page_bitmap_index = s.page_bitmap_index + 1 }) in
    let addr = u64 (s.page_bitmap_index * 4096) in
    if page_locked s s.page_bitmap_index then rest else (lock_page s addr, addr)

unfoldable pub request_page : Kernel → Kernel × ℕ
unfolding request_scan
request_page s = request_scan (s.page_bitmap.size - s.page_bitmap_index) s

abbrev pub get_free_mem : Kernel → ℕ
get_free_mem s = s.free_memory

abbrev pub get_used_mem : Kernel → ℕ
get_used_mem s = s.used_memory

abbrev pub get_reserved_mem : Kernel → ℕ
get_reserved_mem s = s.reserved_memory
