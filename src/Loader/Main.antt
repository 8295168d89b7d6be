-- ===== src/Loader/Main.antt =====
-- `efi_main` of gnu-efi/bootloader/main.c. It returns at the call of the kernel's entry.
pub mod Failures
use Prim.Native.String.{String}
use eta_os.Base.{ℕ, not, Option, none, some, [], ◌∷◌, map, ◌==◌, if◌then◌else◌}
use eta_os.Screen.{Framebuffer}
use eta_os.Loader.{find_rsdp}
use eta_os.Loader.Files.{LoadedFont, charsize, init_gop, load_file, load_psf1_font}
use eta_os.Loader.Elf.{ElfFormat, is_bad, load_segments}
use eta_os.Loader.Firmware.{Firmware, M, pure, ◌>>=◌, ◌>>◌, call, act, gets, not_null}

-- BOOT_INFO, whose pointers to the framebuffer and to the font are what they point to.
pub record LoaderBootInfo : Type 0 where
  pub framebuffer : Framebuffer
  pub psf1_font : Option LoadedFont
  pub mem_map : ℕ
  pub mem_map_size : ℕ
  pub mem_map_descriptor_size : ℕ
  pub rsdp : ℕ

-- The call `kernel_start(&boot_info)`.
pub record Started : Type 0 where
  pub kernel_start : ℕ
  pub boot_info : LoaderBootInfo

-- The local variables whose addresses are used, the constants, and what is in the two variables for
-- sizes that are not set before their first use. The header is read once, behind its own Read.
pub record Locals : Type 0 where
  pub header : ℕ
  pub file_info : ℕ
  pub acpi2_table_guid : ℕ
  pub rsd_ptr : ℕ
  pub file_info_size : ℕ
  pub map_size : ℕ

module _ (fw : Firmware) where
  -- A line without values.
  abbrev line : String → M fw.State (Unit {0})
  line text = act λ s. fw.print s text []

module _ (fw : Firmware) (locals : Locals) (image_handle : ℕ) where
  -- The framebuffer that is used where there is one.
  abbrev present : Option Framebuffer → M fw.State Framebuffer
  present none s = none
  present (some fb) s = some (fb, s)

  abbrev print_font : Option LoadedFont → M fw.State (Unit {0})
  print_font none s = some (tt, fw.print s "Main font not found or is not valid!\r\n" [])
  print_font (some font) s = some (
    tt,
    fw.print s "Font found, char size = %d.\r\n" (charsize (fw.memory s) font.psf1_header ∷ []),
  )

  -- Behind the loading of the kernel: the font, the screen, the memory map and the RSDP.
  unfoldable pub collect_boot_info : M fw.State LoaderBootInfo
  collect_boot_info = do
    new_font ← load_psf1_font fw 0 "zap-light16.psf" image_handle
    print_font new_font
    found ← init_gop fw
    fb ← present found
    act λ s.
        fw.print s
          "Base: 0x%x\r\nSize: 0x%x\r\nWidth: %d\r\nHeight: %d\r\nPixels per scanline: %d\r\n"
          (fb.base_adress ∷ fb.buffer_size ∷ fb.width ∷ fb.height ∷ fb.pixels_per_scanline ∷ [])
    first ← call λ s. fw.get_memory_map s locals.map_size 0
    map ← call λ s. fw.allocate_pool s first.map_size
    sizes ← call λ s. fw.get_memory_map s first.map_size map
    m ← gets fw.memory
    tables ← gets fw.configuration_table
    let rsdp = find_rsdp fw.compare_guid locals.acpi2_table_guid locals.rsd_ptr m tables.0 tables.1
    act λ s. fw.exit_boot_services s sizes.map_key
    pure (record {
      framebuffer = fb;
      psf1_font = new_font;
      mem_map = map;
      mem_map_size = sizes.map_size;
      mem_map_descriptor_size = sizes.descriptor_size;
      rsdp = rsdp;
    })

module _ (elf : ElfFormat) (fw : Firmware) (locals : Locals) (image_handle : ℕ) where
  -- The block that fills `header`. The second GetInfo has the address of the pointer for its buffer.
  unfoldable pub read_header : ℕ → M fw.State (Unit {0})
  read_header kernel = do
    not_null kernel
    file_info_size ← call λ s. fw.get_info s kernel locals.file_info_size 0
    allocated ← call λ s. fw.allocate_pool s file_info_size
    stored ← call λ s. fw.get_info s kernel file_info_size locals.file_info
    act λ s. fw.read s kernel elf.sizeof_ehdr locals.header

  unfoldable pub efi_main : M fw.State Started
  unfolding read_header
  efi_main = do
    act λ s. fw.initialize_lib s image_handle
    line fw "LESS GO \n\r"
    kernel ← load_file fw 0 "kernel.elf" image_handle
    line fw (
        if kernel == 0
        then "Could not load Eta-OS kernel, check image. \n\r"
        else "Eta-OS kernel found successfully. \n\r")
    read_header kernel
    m ← gets fw.memory
    line fw (
        if is_bad elf m locals.header
        then "Eta-OS kernel format is bad, check compilation or image.\n\r"
        else "Eta-OS kernel header successfully verified.\n\r")
    load_segments elf fw kernel locals.header
    line fw "Eta-OS kernel loaded. \n\r"
    boot_info ← collect_boot_info fw locals image_handle
    pure (record { kernel_start = elf.e_entry m locals.header; boot_info = boot_info })
