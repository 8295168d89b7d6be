-- ===== src/Tests/PagingTest.antt =====
-- The page tables of a machine of 8 pages with an empty top table in page 0.
use eta_os.Base.{ℕ, ◌%◌, ◌^◌, ◌≤◌, ◌≡◌, refl, ap, true, some, arith, ◌==◌, if◌then◌else◌}
use eta_os.Bitmap.{get}
use eta_os.Frames.{Kernel}
use eta_os.Paging.{get_flag, get_address, set_address, map_mem}
use eta_os.Paging.Tables.{entry, is_present, translate, spare_pages, IsPaged}
use eta_os.Paging.Tables.Translate.{map_mem-translate, map_mem-translate_other, map_mem-IsPaged}
use eta_os.Frames.Count.{count_below}
use eta_os.Memory.{load16, load32, load64}
use eta_os.Paging.Entry.{get_address-set_address}

-- The bitmap is one byte long, at page 10; page 0 is locked.
abbrev pub machine : Kernel
machine = record {
  mem = λ x. if x == 40960 then 128 else 0;
  page_bitmap = record { size = 8; buffer = 40960 };
  free_memory = 28672;
  reserved_memory = 0;
  used_memory = 4096;
  initialized = true;
  page_bitmap_index = 1;
  mem_size_bytes = 32768;
}

abbrev pub heights : ℕ → ℕ
heights p = if p == 0 then 4 else 0

pub machine-IsPaged : IsPaged heights (λ p. 0) machine
unfolding get load64 load32 load16 get_flag
machine-IsPaged = record {
  size_fits = omega arith;
  bytes = λ a. ground arith;
  scanned = λ i l. let e : i ≡ 0 = omega arith in rw e;
  locked = λ p h. let e : p ≡ 0 = ground arith in rw e;
  apart = λ p h x lo hi. let e : p ≡ 0 = ground arith in omega arith;
  spare = λ p below clear x lo hi. omega arith;
  links = λ p i tall i_fits there.
      let e : p ≡ 0 = ground arith in
      let empty : entry machine.mem p i ≡ 0 = ground arith in
      absurd (ground (arith, ap is_present empty));
}

pub machine_spare : 3 ≤ spare_pages machine
unfolding spare_pages count_below get
machine_spare = omega arith

map_mem-translate_example :
    translate (map_mem machine 0 0x7fff_0000_1234 0x5000).mem 0 0x7fff_0000_1234 ≡ some 5
map_mem-translate_example =
    map_mem-translate heights (λ p. 0) machine machine-IsPaged 0 0x7fff_0000_1234 0x5000 refl
      machine_spare

map_mem-translate_other_example :
    translate (map_mem machine 0 0x7fff_0000_1234 0x5000).mem 0 0x1000
    ≡ translate machine.mem 0 0x1000
map_mem-translate_other_example =
    map_mem-translate_other heights (λ p. 0) machine machine-IsPaged 0 0x7fff_0000_1234 0x5000 refl
      machine_spare 0x1000 (omega arith)

map_mem-IsPaged_example :
    (height' : ℕ → ℕ) × (parent' : ℕ → ℕ) × IsPaged height' parent'
      (map_mem machine 0 0x7fff_0000_1234 0x5000)
    × (height' 0 ≡ 4)
map_mem-IsPaged_example =
    map_mem-IsPaged heights (λ p. 0) machine machine-IsPaged 0 0x7fff_0000_1234 0x5000 refl
      machine_spare

get_address-set_address_example :
    get_address (set_address 0x8000_0000_0000_0fff 0x12345) ≡ 0x12345 % 2 ^ 40
get_address-set_address_example = get_address-set_address 0x8000_0000_0000_0fff 0x12345
