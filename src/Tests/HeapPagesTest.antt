-- ===== src/Tests/HeapPagesTest.antt =====
-- Two pages of a heap on a machine of 16 pages with an empty top table in page 0.
use eta_os.Tests.PagingTest.{heights}
use eta_os.Base.{◌+◌, ◌*◌, ◌≤◌, ◌≡◌, refl, ap, inl, true, arith, ◌==◌, if◌then◌else◌}
use eta_os.Frames.{Kernel}
use eta_os.Bitmap.{get}
use eta_os.Memory.{load16, load32, load64}
use eta_os.Paging.{get_flag}
use eta_os.Paging.Tables.{entry, is_present, spare_pages, IsPaged}
use eta_os.Heap.Pages.Backed.{IsBacked, map_new_pages-IsBacked}
use eta_os.Heap.Pages.{map_new_pages}
use eta_os.Heap.Pages.Seen.{seen, map_new_pages-seen}
use eta_os.Frames.Count.{count_below}

-- The bitmap is two bytes long, at page 20; page 0 is locked.
abbrev wide : Kernel
wide = record {
  mem = λ x. if x == 81920 then 128 else 0;
  page_bitmap = record { size = 16; buffer = 81920 };
  free_memory = 61440;
  reserved_memory = 0;
  used_memory = 4096;
  initialized = true;
  page_bitmap_index = 1;
  mem_size_bytes = 65536;
}

wide-IsPaged : IsPaged heights (λ p. 0) wide
unfolding get load64 load32 load16 get_flag
wide-IsPaged = record {
  size_fits = omega arith;
  bytes = λ a. ground arith;
  scanned = λ i l. let e : i ≡ 0 = omega arith in rw e;
  locked = λ p h. let e : p ≡ 0 = ground arith in rw e;
  apart = λ p h x lo hi. let e : p ≡ 0 = ground arith in omega arith;
  spare = λ p below clear x lo hi. omega arith;
  links = λ p i tall i_fits there.
      let e : p ≡ 0 = ground arith in
      let empty : entry wide.mem p i ≡ 0 = ground arith in
      absurd (ground (arith, ap is_present empty));
}

wide_spare : 4 * 2 ≤ spare_pages wide
unfolding spare_pages count_below get
wide_spare = omega arith

map_new_pages-IsBacked_example :
    IsBacked heights wide 0 0x1000_0000_0 2 (map_new_pages 2 wide (0 * 4096) (0x1000_0000_0 * 4096))
map_new_pages-IsBacked_example =
    map_new_pages-IsBacked 2 heights (λ p. 0) wide 0 0x1000_0000_0 wide-IsPaged refl (omega arith)
      wide_spare

-- The heap has one page, and gets a second one behind it.
grown_once : Kernel
grown_once = map_new_pages 1 wide (0 * 4096) (0x1000_0000_0 * 4096)

grown_once-IsBacked : IsBacked heights wide 0 0x1000_0000_0 1 grown_once
unfolding grown_once
grown_once-IsBacked =
    map_new_pages-IsBacked 1 heights (λ p. 0) wide 0 0x1000_0000_0 wide-IsPaged refl (omega arith)
      (omega (arith, wide_spare))

map_new_pages-seen_example :
    seen
      (map_new_pages 1 grown_once (0 * 4096) (0x1000_0000_1 * 4096)).mem
      (0 * 4096)
      (0x1000_0000_0 * 4096 + 24)
    ≡ seen grown_once.mem (0 * 4096) (0x1000_0000_0 * 4096 + 24)
map_new_pages-seen_example =
    let b = grown_once-IsBacked in
    map_new_pages-seen 1 b.heights b.parents grown_once 0 0x1000_0000_1 (0x1000_0000_0 * 4096 + 24)
      (b.pages 0) b.paged b.top (omega arith) (omega (arith, wide_spare, b.spare)) (omega arith)
      (inl (omega arith)) (b.backs 0 (0x1000_0000_0 * 4096 + 24) (omega arith) (omega arith))
      (b.taken 0 (omega arith)) (b.no_tables 0 (omega arith))
      (rw b.placed (b.clear 0 (omega arith)))
