-- ===== src/Frames/Boot.antt =====
-- How the allocator reads the memory map that the firmware hands over:
-- `PageFrameAllocator::read_efi_memory_map` and `init_bitmap` of
-- kernel/src/paging/page_frame_allocator.cpp, `get_memory_size` of kernel/src/memory.cpp and
-- EFI_MEMORY_DESCRIPTOR of kernel/src/efi_memory.h.
pub mod Writes
pub mod Map
pub mod Result
pub mod Counters
pub mod Fresh
use eta_os.Base.{ℕ, zero, suc, ◌+◌, ◌*◌, ◌/◌, true, map, ltb, ◌==◌, if◌then◌else◌, u64, add64}
use eta_os.Memory.{Mem, store8, load32, load64}
use eta_os.Frames.{Kernel, lock_pages, reserve_pages, unreserve_pages}

pub record EfiMemoryDescriptor : Type 0 where
  pub type : ℕ
  pub phys_addr : ℕ
  pub virt_addr : ℕ
  pub num_pages : ℕ
  pub attrib : ℕ

-- The descriptor at an address: `type` is followed by four bytes of padding.
abbrev pub descriptor : Mem → ℕ → EfiMemoryDescriptor
descriptor m a = record {
  type = load32 m a;
  phys_addr = load64 m (a + 8);
  virt_addr = load64 m (a + 16);
  num_pages = load64 m (a + 24);
  attrib = load64 m (a + 32);
}

-- Where the map lies, and the size that the firmware gives each descriptor.
pub record MemMap : Type 0 where
  pub start : ℕ
  pub desc_size : ℕ

-- `(uint64_t)mem_map + (i * mem_map_desc_size)`
abbrev pub entry_addr : MemMap → ℕ → ℕ
entry_addr map i = u64 (map.start + u64 (i * map.desc_size))

abbrev pub memory_descriptor : Mem → MemMap → ℕ → EfiMemoryDescriptor
memory_descriptor m map i = descriptor m (entry_addr map i)

-- EfiConventionalMemory
abbrev pub conventional : ℕ
conventional = 7

-- The loop of `get_memory_size`.
unfoldable pub add_sizes : Mem → MemMap → ℕ → ℕ → ℕ → ℕ
add_sizes m map zero i acc = acc
add_sizes m map (suc left) i acc =
    add_sizes m map left (i + 1) (add64 acc (u64 ((memory_descriptor m map i).num_pages * 4096)))

-- The sum is computed once, and kept.
unfoldable pub get_memory_size : Kernel → MemMap → ℕ → Kernel × ℕ
unfolding add_sizes
get_memory_size s map entries =
    if ltb 0 s.mem_size_bytes
    then (s, s.mem_size_bytes)
    else let total = add_sizes s.mem map entries 0 s.mem_size_bytes in
      (record s { mem_size_bytes = total }, total)

-- A candidate for the bitmap: the largest conventional segment so far, and its size.
pub record Segment : Type 0 where
  pub seg : ℕ
  pub seg_size : ℕ

abbrev pub larger : EfiMemoryDescriptor → Segment → Segment
larger d best =
    if d.type == conventional
    then if ltb best.seg_size (u64 (d.num_pages * 4096))
      then record { seg = d.phys_addr; seg_size = u64 (d.num_pages * 4096) }
      else best
    else best

unfoldable pub largest_free : Mem → MemMap → ℕ → ℕ → Segment → Segment
largest_free m map zero i best = best
largest_free m map (suc left) i best =
    largest_free m map left (i + 1) (larger (memory_descriptor m map i) best)

-- The loop of `init_bitmap`.
unfoldable pub clear_buffer : ℕ → ℕ → ℕ → Mem → Mem
clear_buffer zero i buffer m = m
clear_buffer (suc left) i buffer m = clear_buffer left (i + 1) buffer (store8 m (buffer + i) 0)

unfoldable pub init_bitmap : Kernel → ℕ → ℕ → Kernel
unfolding clear_buffer
init_bitmap s bitmap_size buffer_addr = record s {
  page_bitmap = record { size = bitmap_size; buffer = buffer_addr };
  mem = clear_buffer bitmap_size 0 buffer_addr s.mem;
}

-- The second loop: conventional memory is given back. The map is read from the memory as it is
-- in that round.
abbrev pub unreserve_entry : Kernel → MemMap → ℕ → Kernel
unreserve_entry s map i =
    let d = memory_descriptor s.mem map i in
    if d.type == conventional then unreserve_pages s d.phys_addr d.num_pages else s

unfoldable pub unreserve_conventional : ℕ → ℕ → MemMap → Kernel → Kernel
unreserve_conventional zero i map s = s
unreserve_conventional (suc left) i map s =
    unreserve_conventional left (i + 1) map (unreserve_entry s map i)

unfoldable pub read_efi_memory_map : Kernel → MemMap → ℕ → Kernel
unfolding largest_free get_memory_size init_bitmap unreserve_conventional
read_efi_memory_map s map mem_map_size =
    if s.initialized
    then s
    else let entries = mem_map_size / map.desc_size in
      let best = largest_free s.mem map entries 0 (record { seg = 0; seg_size = 0 }) in
      let (sized, mem_size) = get_memory_size (record s { initialized = true }) map entries in
      let counted = record sized { free_memory = mem_size } in
      let mapped = init_bitmap counted (mem_size / 4096 / 8 + 1) best.seg in
      let reserved = reserve_pages mapped 0 (mem_size / 4096 + 1) in
      let given = unreserve_conventional entries 0 map reserved in
      let bios = reserve_pages given 0 0x100 in
      lock_pages bios bios.page_bitmap.buffer (bios.page_bitmap.size / 4096 + 1)
