-- ===== src/Tests/PciTest.antt =====
-- The walk over a machine with one device: its table of buses at 0x60000 has an entry with base
-- 0x1000_0000 and the buses from 0 to 1.
use eta_os.Paging.Tables.{entry, is_present, spare_pages, IsPaged}
use eta_os.Bitmap.{get}
use eta_os.Base.{
  ℕ, ◌+◌, ◌-◌, ◌*◌, ◌≤◌, ◌≡◌, refl, ap, inr, true, [], ◌++◌, arith, ◌==◌, if◌then◌else◌,
}
use eta_os.Memory.{load16, load32, load64}
use eta_os.Pci.Enumerate.Buses.{buses_from-listed_buses}
use eta_os.Paging.{get_flag}
use eta_os.Pci.Enumerate.Listing.{listed_buses}
use eta_os.Frames.Count.{count_below}
use eta_os.Frames.{Kernel}
use eta_os.Pci.Enumerate.{buses_from}

abbrev bus_machine : Kernel
bus_machine = record {
  mem = λ x.
      if x == 40960
      then 128
      else if x == 0x60003
      then 0x10
      else if x == 0x6000b
      then 1
      else if x == 0x1000_0002
      then 0x18
      else 0;
  page_bitmap = record { size = 8; buffer = 40960 };
  free_memory = 28672;
  reserved_memory = 0;
  used_memory = 4096;
  initialized = true;
  page_bitmap_index = 1;
  mem_size_bytes = 32768;
}

abbrev tables : ℕ → ℕ
tables p = if p == 0 then 4 else 0

bus_machine-IsPaged : IsPaged tables (λ p. 0) bus_machine
unfolding get load64 load32 load16 get_flag
bus_machine-IsPaged = record {
  size_fits = omega arith;
  bytes = λ a. ground arith;
  scanned = λ i l. let e : i ≡ 0 = omega arith in rw e;
  locked = λ p h. let e : p ≡ 0 = ground arith in rw e;
  apart = λ p h x lo hi. let e : p ≡ 0 = ground arith in omega arith;
  spare = λ p below clear x lo hi. omega arith;
  links = λ p i tall i_fits there.
      let e : p ≡ 0 = ground arith in
      let empty : entry bus_machine.mem p i ≡ 0 = ground arith in
      absurd (ground (arith, ap is_present empty));
}

bus_machine_spare :
    3 * (bus_machine.mem 0x6000b - bus_machine.mem 0x6000a) ≤ spare_pages bus_machine
unfolding spare_pages count_below get
bus_machine_spare = omega arith

bus_base : load64 bus_machine.mem 0x60000 ≡ 0x1000_0000
unfolding load64 load32 load16
bus_base = refl

buses_from-listed_buses_example :
    (buses_from
      (λ n. "hex")
      (λ n. "hex")
      (0 * 4096)
      255
      (record { kernel = bus_machine; output = [] })
      0x60000
      (bus_machine.mem (0x60000 + 10))).output
    ≡ ([]
        ++ listed_buses
            (λ n. "hex")
            (λ n. "hex")
            (bus_machine.mem (0x60000 + 11) - bus_machine.mem (0x60000 + 10))
            bus_machine.mem
            0x1000_0000
            (bus_machine.mem (0x60000 + 10)))
buses_from-listed_buses_example =
    buses_from-listed_buses (λ n. "hex") (λ n. "hex") bus_machine 0 0x1000_0000 refl (omega arith)
      (λ x l u. (inr (omega arith), omega arith)) tables (λ p. 0) 0x60000 [] bus_machine-IsPaged
      refl (λ x l u. (inr (omega arith), omega arith)) bus_base bus_machine_spare
