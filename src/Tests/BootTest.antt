-- ===== src/Tests/BootTest.antt =====
-- `prepare_mem` on a machine of 3000 pages, with a memory map of two descriptors.
use eta_os.Base.{zero, suc, ◌/◌, ◌≡◌, refl, inl, inr, false, none, some, arith, ◌==◌, if◌then◌else◌}
use eta_os.Start.Memory.{is_free, CanPrepare, prepare_mem-translate, prepare_mem-translate_outside}
use eta_os.Paging.Tables.{translate}
use eta_os.Start.{BootInfo, prepare_mem}
use eta_os.Frames.Boot.{add_sizes, largest_free}
use eta_os.Frames.Boot.Map.{conventional_page, MapOutside, SegmentsFit}
use eta_os.Frames.{Kernel}
use eta_os.Memory.Words.{IsBytes}
use eta_os.Memory.{Mem, load16, load32, load64}
use eta_os.Frames.Count.{count_below}
use eta_os.Frames.Boot.Result.{new_bitmap, CanBoot}
use eta_os.Start.Heap.{prepare_heap, HasHeapRoom, HasHeap, prepare_heap-HasHeap}

-- 2800 conventional pages at 0x100000, and 200 others.
abbrev machine_memory : Mem
machine_memory x =
    if x == 65536
    then 7
    else if x == 65546
    then 0x10
    else if x == 65560
    then 0xf0
    else if x == 65561
    then 0x0a
    else if x == 65608
    then 200
    else 0

abbrev machine : Kernel
machine = record {
  mem = machine_memory;
  page_bitmap = record { size = 0; buffer = 0 };
  free_memory = 0;
  reserved_memory = 0;
  used_memory = 0;
  initialized = false;
  page_bitmap_index = 0;
  mem_size_bytes = 0;
}

abbrev boot_info : BootInfo
boot_info = record {
  framebuffer = record {
    base_adress = 0x8000_0000;
    buffer_size = 8192;
    width = 32;
    height = 32;
    pixels_per_scanline = 64;
  };
  mem_map = record { start = 65536; desc_size = 48 };
  mem_map_size = 96;
}

machine-CanBoot : CanBoot machine boot_info.mem_map 96
unfolding add_sizes largest_free load64 load32 load16
machine-CanBoot = record {
  fresh = refl;
  unsized = refl;
  small = omega arith;
  home_fits = omega arith;
  outside = outside;
  fit = fit;
}
  where
    outside : MapOutside (new_bitmap machine boot_info.mem_map 96) boot_info.mem_map 2
    outside zero l x p q = inl (omega arith)
    outside (suc zero) l x p q = inl (omega arith)
    outside (suc (suc i)) l x p q = absurd (omega arith)

    fit : SegmentsFit machine_memory boot_info.mem_map 2
    fit zero l = (omega arith, omega arith)
    fit (suc zero) l = (omega arith, omega arith)
    fit (suc (suc i)) l = absurd (omega arith)

machine-IsBytes : IsBytes machine_memory
machine-IsBytes x = ground arith

free_pages_counted : count_below (is_free machine boot_info 0x10_4000 0x10_5000) 376 ≡ 117
unfolding add_sizes largest_free load64 load32 load16 count_below conventional_page
free_pages_counted = refl

machine-CanPrepare : CanPrepare machine boot_info 0x10_4000 0x10_5000
unfolding add_sizes largest_free load64 load32 load16
machine-CanPrepare = record {
  can = machine-CanBoot;
  bytes = machine-IsBytes;
  first = refl;
  some_memory = omega arith;
  aligned = refl;
  kernel_few = omega arith;
  kernel_fits = omega arith;
  framebuffer_aligned = refl;
  framebuffer_beyond = omega arith;
  framebuffer_few = omega arith;
  framebuffer_fits = omega arith;
  enough = omega (arith, free_pages_counted);
}

prepare_mem-translate_example :
    translate
      (prepare_mem machine boot_info 0x10_4000 0x10_5000).0.mem
      (prepare_mem machine boot_info 0x10_4000 0x10_5000).1
      0x8000_1234
    ≡ some (0x8000_1234 / 4096)
unfolding add_sizes load64 load32 load16
prepare_mem-translate_example =
    prepare_mem-translate machine boot_info 0x10_4000 0x10_5000 machine-CanPrepare 0x8000_1234
      (inr (omega arith, omega arith))

prepare_mem-translate_outside_example :
    translate
      (prepare_mem machine boot_info 0x10_4000 0x10_5000).0.mem
      (prepare_mem machine boot_info 0x10_4000 0x10_5000).1
      0x4000_0000
    ≡ none
unfolding add_sizes load64 load32 load16
prepare_mem-translate_outside_example =
    prepare_mem-translate_outside machine boot_info 0x10_4000 0x10_5000 machine-CanPrepare
      0x4000_0000 (omega arith) (omega arith) (inl (omega arith))

machine-HasHeapRoom : HasHeapRoom machine boot_info 0x10_4000 0x10_5000 0x1_0000_0000 16
unfolding add_sizes largest_free load64 load32 load16
machine-HasHeapRoom = record {
  fits = omega arith;
  behind = omega arith;
  apart = inr (omega arith);
  buffer_fits = omega arith;
  bitmap_apart = inr (omega arith);
  enough = omega (arith, free_pages_counted);
}

prepare_heap-HasHeap_example :
    HasHeap machine boot_info 0x10_4000 0x10_5000 0x1_0000_0000 16
      (prepare_heap machine boot_info 0x10_4000 0x10_5000 0x1_0000_0000 16)
prepare_heap-HasHeap_example =
    prepare_heap-HasHeap machine boot_info 0x10_4000 0x10_5000 0x1_0000_0000 16 machine-CanPrepare
      machine-HasHeapRoom
