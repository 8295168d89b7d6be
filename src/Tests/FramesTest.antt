-- ===== src/Tests/FramesTest.antt =====
-- The page frame allocator on a memory of 17 pages, and on a small memory map.
use eta_os.Base.{
  zero, suc, ◌+◌, ◌/◌, ◌≡◌, refl, inr, true, false, not, ◌&&◌, ◌||◌, arith, ltb, ◌==◌,
  if◌then◌else◌,
}
use eta_os.Memory.{Mem, store8, load16, load32, load64}
use eta_os.Bitmap.{in_range, get, set}
use eta_os.Bitmap.Laws.{get-set, get_cleared}
use eta_os.Frames.{Kernel, page_locked, lock_page, free_page, lock_pages, free_pages, request_page}
use eta_os.Frames.Ranges.{among, lock_pages-among, free_pages-lock_pages}
use eta_os.Frames.Run.{Call, Calls, IsSound, Calls-IsSound}
use eta_os.Frames.Boot.{MemMap, add_sizes, largest_free, read_efi_memory_map}
use eta_os.Frames.Boot.Map.{conventional_page, MapOutside, SegmentsFit}
use eta_os.Frames.Count.{count_below}
use eta_os.Frames.Ledger.{locked_pages, IsLedger}
use eta_os.Frames.Boot.Result.{
  map_entries, total_memory, home, new_bitmap, CanBoot, read_efi_memory_map-locked,
}
use eta_os.Frames.Scan.{Requested, request_page-Requested}
use eta_os.Frames.Boot.Counters.{read_efi_memory_map-IsLedger}

-- Two bytes of bitmap at the start of memory, nothing locked.
abbrev small : Kernel
small = record {
  mem = λ x. 0;
  page_bitmap = record { size = 2; buffer = 0 };
  free_memory = 69632;
  reserved_memory = 0;
  used_memory = 0;
  initialized = true;
  page_bitmap_index = 0;
  mem_size_bytes = 69632;
}

small-IsSound : IsSound 69632 small
unfolding locked_pages count_below get
small-IsSound = record {
  ledger = record { size_fits = omega arith; balance = refl; locked = refl };
  scanned = λ i l. absurd (omega arith);
}

-- Lock page 1, request a page, free page 1.
abbrev some_calls : Kernel
some_calls = free_page (request_page (lock_page small 4096)).0 4096

small-Calls : Calls small some_calls
small-Calls =
    Calls.next (Calls.next (Calls.next Calls.here (Call.lock small 4096)) (Call.request _))
      (Call.free _ 4096)

Calls-IsSound_example : IsSound 69632 some_calls
Calls-IsSound_example = Calls-IsSound small-IsSound small-Calls

-- The first request gives page 0, the second page 1.
two_requests : (request_page (request_page small).0).1 ≡ 4096
unfolding request_page lock_page get set store8
two_requests = refl

request_page-Requested_example : Requested small (request_page small)
request_page-Requested_example = request_page-Requested small (omega arith) small-IsSound.scanned

free_pages-lock_pages_example :
    page_locked (free_pages (lock_pages small 8192 3) 8192 3) 4 ≡ page_locked small 4
free_pages-lock_pages_example =
    free_pages-lock_pages small 8192 3 (omega arith) (omega arith)
      (λ j h. get_cleared small.page_bitmap small.mem j refl) 4

lock_pages-among_example :
    page_locked (lock_pages small 8192 3) 4
    ≡ (page_locked small 4 || (in_range small.page_bitmap 4 && among 8192 3 4))
lock_pages-among_example = lock_pages-among small 8192 3 4 (omega arith) (omega arith)

get-set_example :
    get small.page_bitmap (set small.page_bitmap small.mem 3 true).0 3
    ≡ (if in_range small.page_bitmap 3 && (3 == 3) then true else get small.page_bitmap small.mem 3)
get-set_example = get-set small.page_bitmap small.mem 3 3 true

-- A map of two descriptors at 65536: two conventional pages at 4096, and two others.
abbrev boot_memory : Mem
boot_memory x =
    if x == 65536
    then 7
    else if x == 65545
    then 16
    else if x == 65560
    then 2
    else if x == 65608
    then 2
    else 0

abbrev boot_map : MemMap
boot_map = record { start = 65536; desc_size = 48 }

abbrev booting : Kernel
booting = record {
  mem = boot_memory;
  page_bitmap = record { size = 0; buffer = 0 };
  free_memory = 0;
  reserved_memory = 0;
  used_memory = 0;
  initialized = false;
  page_bitmap_index = 0;
  mem_size_bytes = 0;
}

booting-CanBoot : CanBoot booting boot_map 96
unfolding add_sizes largest_free load64 load32 load16
booting-CanBoot = record {
  fresh = refl;
  unsized = refl;
  small = omega arith;
  home_fits = omega arith;
  outside = outside;
  fit = fit;
}
  where
    outside : MapOutside (new_bitmap booting boot_map 96) boot_map 2
    outside zero l x p q = inr (omega arith)
    outside (suc zero) l x p q = inr (omega arith)
    outside (suc (suc i)) l x p q = absurd (omega arith)

    fit : SegmentsFit boot_memory boot_map 2
    fit zero l = (omega arith, omega arith)
    fit (suc zero) l = (omega arith, omega arith)
    fit (suc (suc i)) l = absurd (omega arith)

read_efi_memory_map-locked_example : page_locked (read_efi_memory_map booting boot_map 96) 2 ≡ (
    not (conventional_page boot_memory boot_map (map_entries booting boot_map 96) 0 2)
    || ltb 2 0x100
    || among (home booting boot_map 96).seg ((new_bitmap booting boot_map 96).size / 4096 + 1) 2)
unfolding add_sizes load64 load32 load16
read_efi_memory_map-locked_example =
    read_efi_memory_map-locked booting boot_map 96 booting-CanBoot 2 (omega arith)

read_efi_memory_map-IsLedger_example :
    IsLedger (total_memory booting boot_map 96) (read_efi_memory_map booting boot_map 96)
unfolding add_sizes largest_free load64 load32 load16
read_efi_memory_map-IsLedger_example =
    read_efi_memory_map-IsLedger booting boot_map 96 booting-CanBoot refl refl refl
