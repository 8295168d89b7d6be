-- ===== src/Start.antt =====
-- The start of the kernel: `prepare_mem`, `prepare_interrupts` and `prepare_acpi` of
-- kernel/src/kernel_util.cpp.
pub mod Root
pub mod Identity
pub mod Stages
pub mod Memory
pub mod Heap
pub mod Gates
use Prim.Native.String.{String}
use eta_os.Base.{ℕ, zero, suc, ◌+◌, ◌-◌, ◌/◌, List, [], ◌∷◌, u64, sub64}
use eta_os.Memory.{Mem, load64, memset}
use eta_os.Frames.{Kernel, lock_pages, request_page}
use eta_os.Frames.Boot.{MemMap, get_memory_size, read_efi_memory_map}
use eta_os.Paging.{map_mem}
use eta_os.Screen.{Framebuffer}
use eta_os.Timer.{PortWrite}
use eta_os.Interrupts.{set_idt_gate}
use eta_os.Interrupts.Pic.{pic1_data, pic2_data, remap_pic}
use eta_os.Frames.Boot.Result.{mapped}
use eta_os.Pci.Enumerate.{Walk, enumerate_pci}
use eta_os.Acpi.{entries, find_table}

-- What the boot loader hands over, in the fields that are used here.
pub record BootInfo : Type 0 where
  pub framebuffer : Framebuffer
  pub mem_map : MemMap
  pub mem_map_size : ℕ

-- `for (; i < to; i += 4096)`: its rounds.
abbrev pub page_rounds : ℕ → ℕ → ℕ
page_rounds i to = (to - i + 4095) / 4096

-- Both loops of `prepare_mem`: pages are mapped to themselves, from address `i` on.
unfoldable pub map_identity : ℕ → Kernel → ℕ → ℕ → Kernel
map_identity zero k pml4 i = k
map_identity (suc left) k pml4 i = map_identity left (map_mem k pml4 i i) pml4 (u64 (i + 4096))

-- `prepare_mem`, with the kernel's own place in memory; the new state and the top table.
unfoldable pub prepare_mem : Kernel → BootInfo → ℕ → ℕ → Kernel × ℕ
unfolding map_identity
prepare_mem k boot kernel_start kernel_end =
    let entries = boot.mem_map_size / boot.mem_map.desc_size in
    let fresh = record k { page_bitmap = record { size = 0; buffer = 0 } } in
    let allocator = read_efi_memory_map fresh boot.mem_map boot.mem_map_size in
    let kernel_pages = sub64 kernel_end kernel_start / 4096 + 1 in
    let locked = lock_pages allocator kernel_start kernel_pages in
    let (requested, pml4) = request_page locked in
    let cleared = record requested { mem = memset requested.mem pml4 0 4096 } in
    let (sized, mem_size) = get_memory_size cleared boot.mem_map entries in
    let mapped = map_identity (page_rounds 0 mem_size) sized pml4 0 in
    let frame_buf_base = boot.framebuffer.base_adress in
    let frame_buf_size = u64 (boot.framebuffer.buffer_size + 4096) in
    let framed = lock_pages mapped frame_buf_base (frame_buf_size / 4096 + 1) in
    let rounds = page_rounds frame_buf_base (u64 (frame_buf_base + frame_buf_size)) in
    (map_identity rounds framed pml4 frame_buf_base, pml4)

-- The addresses of the handlers.
pub record Handlers : Type 0 where
  pub page_fault_handler : ℕ
  pub double_fault_handler : ℕ
  pub gp_fault_handler : ℕ
  pub keyboard_int_handler : ℕ
  pub pit_int_handler : ℕ

-- IDT_TA_INTERRUPTGATE
abbrev pub interrupt_gate : ℕ
interrupt_gate = 0b10001110

-- The five gates of the table at `idt`.
unfoldable pub set_gates : Mem → ℕ → Handlers → Mem
set_gates m idt h =
    let m₁ = set_idt_gate m idt h.page_fault_handler 0xe interrupt_gate 0x08 in
    let m₂ = set_idt_gate m₁ idt h.double_fault_handler 0x8 interrupt_gate 0x08 in
    let m₃ = set_idt_gate m₂ idt h.gp_fault_handler 0xd interrupt_gate 0x08 in
    let m₄ = set_idt_gate m₃ idt h.keyboard_int_handler 0x21 interrupt_gate 0x08 in
    set_idt_gate m₄ idt h.pit_int_handler 0x20 interrupt_gate 0x08

-- `prepare_interrupts`: the new state, the table's address and the writes to the controllers, whose
-- masks are `a1` and `a2`.
unfoldable pub prepare_interrupts : Kernel → Handlers → ℕ → ℕ → Kernel × ℕ × List PortWrite
unfolding set_gates
prepare_interrupts k h a1 a2 =
    let (requested, idt) = request_page k in
    (record requested { mem = set_gates requested.mem idt h }, idt, remap_pic a1 a2)

-- `prepare_acpi`; `rsdp` holds `xsdt_adrr` at 24, and the text "MCFG" is at `signature`. Where there
-- is no such table, the walk starts at address 0.
unfoldable pub prepare_acpi : (ℕ → String) → (ℕ → String) → ℕ → Walk → ℕ → ℕ → Walk
prepare_acpi to_hstring_16 to_hstring_8 pml4 w rsdp signature =
    let m = w.kernel.mem in
    let xsdt = load64 m (rsdp + 24) in
    let mcfg = find_table m xsdt signature in enumerate_pci to_hstring_16 to_hstring_8 pml4 w mcfg

-- The masks that `init_kernel` sets at last: lines 0 to 2 of the master, and line 4 of the slave.
abbrev pub unmask : List PortWrite
unmask =
    record { port = pic1_data; value = 0b11111000 }
    ∷ record { port = pic2_data; value = 0b11101111 }
    ∷ []
