-- ===== src/Tests/LoaderTest.antt =====
-- The boot loader on a firmware with one file, and the program headers of an image with a segment.
use eta_os.Base.{
  ℕ, ◌+◌, ◌-◌, ◌*◌, ◌%◌, ◌≤◌, ◌≡◌, refl, inr, ◌&&◌, none, some, arith, ltb, leb, ◌==◌,
  if◌then◌else◌,
}
use eta_os.Memory.{Mem, load16, load32, load64}
use eta_os.Loader.Elf.{ElfFormat, segment_pages, load_segment, visit_headers}
use eta_os.Loader.Elf.Segments.{Disk, IsLayout, Off, load_segment-uncleared}
use eta_os.Loader.Firmware.{Firmware}
use eta_os.Memory.Words.{load32_same, load64_same}
use eta_os.Loader.Main.Failures.{efi_main-no_kernel}
use eta_os.Loader.Main.{Locals, efi_main}
use eta_os.Loader.Elf.Loop.{visit_headers-copied}

-- The headers of a file of 64 bits.
abbrev elf64 : ElfFormat
elf64 = record {
  e_ident = λ h. h;
  ei_mag0 = 0;
  ei_class = 4;
  ei_data = 5;
  e_type = λ m h. load16 m (h + 16);
  e_machine = λ m h. load16 m (h + 18);
  e_version = λ m h. load32 m (h + 20);
  e_entry = λ m h. load64 m (h + 24);
  e_phoff = λ m h. load64 m (h + 32);
  e_phnum = λ m h. load16 m (h + 56);
  e_phentsize = λ m h. load16 m (h + 54);
  p_type = λ m h. load32 m h;
  p_offset = λ m h. load64 m (h + 8);
  p_paddr = λ m h. load64 m (h + 24);
  p_filesz = λ m h. load64 m (h + 32);
  p_memsz = λ m h. load64 m (h + 40);
  sizeof_ehdr = 64;
  sizeof_phdr = 56;
  elfmag = 0x7000;
  selfmag = 4;
  elfclass64 = 2;
  elfdata2lsb = 1;
  et_exec = 2;
  em_x86_64 = 62;
  ev_current = 1;
  pt_load = 1;
}

elf64-IsLayout : IsLayout elf64
elf64-IsLayout = record {
  fields = λ m m' h same. (
    load32_same {m = m} {m' = m'} h λ x l u. same x (omega arith) (omega arith),
    load64_same {m = m} {m' = m'} (h + 8) λ x l u. same x (omega arith) (omega arith),
    load64_same {m = m} {m' = m'} (h + 24) λ x l u. same x (omega arith) (omega arith),
    load64_same {m = m} {m' = m'} (h + 32) λ x l u. same x (omega arith) (omega arith),
    load64_same {m = m} {m' = m'} (h + 40) λ x l u. same x (omega arith) (omega arith),
  );
}

-- Memory and the place in the file.
record Machine : Type 0 where
  mem : Mem
  pos : ℕ

-- Byte `o` of the file is `o` modulo 256, and it has 200 of them. `open_status` is what Open returns.
abbrev firmware : ℕ → Firmware
firmware open_status = record {
  State = Machine;
  memory = λ s. s.mem;
  initialize_lib = λ s h. s;
  print = λ s text values. s;
  locate_protocol = λ s. (
    s,
    record {
      status = 0;
      protocol = record {
        frame_buffer_base = 0x8000_0000;
        frame_buffer_size = 0x10_0000;
        horizontal_resolution = 640;
        vertical_resolution = 400;
        pixels_per_scan_line = 640;
      };
    },
  );
  handle_protocol = λ s handle guid. (s, handle);
  device_handle = λ m handle. handle;
  open_volume = λ s file_system. (s, 1);
  open_file = λ s directory path. (s, record { status = open_status; file = 5 });
  get_info = λ s file size buffer. (s, size);
  set_position = λ s file p. record s { pos = p };
  read = λ s file size buffer. record s {
    mem = λ x.
        if (leb buffer x && ltb x (buffer + size)) && ltb (s.pos + (x - buffer)) 200
        then (s.pos + (x - buffer)) % 256
        else s.mem x;
  };
  allocate_pool = λ s size. (s, 0x9000);
  allocate_pages = λ s pages segment. (s, segment);
  get_memory_map = λ s size map. (s, record { map_size = 96; map_key = 7; descriptor_size = 48 });
  configuration_table = λ s. (0x6000, 0);
  compare_guid = λ m a b. 1;
  exit_boot_services = λ s key. s;
}

firmware_disk : Disk (firmware 0)
firmware_disk = record {
  file = λ f o. o % 256;
  file_size = λ f. 200;
  position = λ s f. s.pos;
  set_position_memory = λ s f p. refl;
  position-set_position = λ s f p. refl;
  read_within = λ s f n b j below inside. ground arith;
  read_outside = λ s f n b x out. ground arith;
  allocate_pages_segment = λ s n a. refl;
  allocate_pages_outside = λ s n a x out. refl;
}

-- At 0x8000 a program header: 16 bytes from 64 on go to 0x1000, where 32 are taken.
abbrev image : Machine
image = record {
  mem = λ x.
      if x == 0x8000
      then 1
      else if x == 0x8008
      then 64
      else if x == 0x8019
      then 0x10
      else if x == 0x8020
      then 16
      else if x == 0x8028
      then 32
      else 0;
  pos = 0;
}

image_fields :
    (elf64.p_type image.mem 0x8000 ≡ 1)
    × (elf64.p_offset image.mem 0x8000 ≡ 64)
    × (elf64.p_paddr image.mem 0x8000 ≡ 0x1000)
    × (elf64.p_filesz image.mem 0x8000 ≡ 16)
    × (elf64.p_memsz image.mem 0x8000 ≡ 32)
unfolding load64 load32 load16
image_fields = (refl, refl, refl, refl, refl)

-- The segment ends below the header.
image_clear : (x : ℕ) → 0x8000 ≤ x → Off elf64 image.mem 0x8000 x
unfolding segment_pages load64 load32 load16
image_clear x l = inr (inr (omega arith))

visit_headers-copied_example :
    (s' : Machine) × (visit_headers elf64
        (firmware 0)
        1
        5
        56
        (0x8000 + 0 * 56)
        (0x8000 + 1 * 56)
        image
      ≡ some (tt, s'))
    × (s'.mem (elf64.p_paddr image.mem (0x8000 + 0 * 56) + 3)
        ≡ (elf64.p_offset image.mem (0x8000 + 0 * 56) + 3) % 256)
unfolding load64 firmware_disk
visit_headers-copied_example =
    visit_headers-copied elf64 elf64-IsLayout (firmware 0) firmware_disk 5 image 0x8000 56 1
      (omega arith) (omega arith) (omega arith)
      (λ i j x l u lo hi. let e : i ≡ 0 = omega arith in rw e (image_clear x (omega arith))) 0 3
      (omega arith) image_fields.0 (omega (arith, image_fields)) (omega (arith, image_fields))
      (λ j l u. absurd (omega arith))

load_segment-uncleared_example :
    (s' : Machine) × (load_segment elf64 (firmware 0) 5 0x8000 image ≡ some (tt, s'))
    × (s'.mem (elf64.p_paddr image.mem 0x8000 + 20)
        ≡ image.mem (elf64.p_paddr image.mem 0x8000 + 20))
load_segment-uncleared_example =
    load_segment-uncleared elf64 elf64-IsLayout (firmware 0) firmware_disk 5 0x8000 image 20
      image_fields.0 (λ x l u. image_clear x l) (omega (arith, image_fields))

abbrev locals : Locals
locals = record {
  header = 0xa000;
  file_info = 0xb000;
  acpi2_table_guid = 0xc000;
  rsd_ptr = 0xd000;
  file_info_size = 0;
  map_size = 0;
}

efi_main-no_kernel_example : efi_main elf64 (firmware 14) locals 3 image ≡ none
efi_main-no_kernel_example =
    efi_main-no_kernel elf64 (firmware 14) locals 3 image λ s d. omega arith
