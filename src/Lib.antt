-- ===== src/Lib.antt =====
-- Verification library of the Eta-OS kernel (kernel/src).
--
-- The kernel boots on x86-64 from a UEFI loader, takes over the firmware's memory map, hands out
-- physical pages by a bitmap and maps virtual memory by four levels of page tables. The library
-- models that code over one byte-addressed physical memory: a function from addresses to bytes.
-- C integers are numbers with their wrap written out.
--
--   Base      shared names: Boolean tests, conditionals, machine words.
--   Bits      the binary digits of a number under `&`, `|`, `~`, shifts and truncation.
--   Memory    bytes and little-endian words in memory; memset of kernel/src/memory.cpp.
--   Bitmap    class Bitmap of kernel/src/bitmap.cpp: `get` is operator[], `set` is set.
--   Frames    class PageFrameAllocator of kernel/src/paging/page_frame_allocator.cpp. `Kernel` is
--             memory with that file's globals; each method is the function of its name. The
--             child Frames.Boot has read_efi_memory_map, init_bitmap and get_memory_size
--             (kernel/src/memory.cpp); Pages, Count, Ledger, Scan, Ranges and Run are proofs.
--   Paging    PageDirEntry, PageMapIndexer and PageTableManager of kernel/src/paging. `map_mem`
--             is map_mem; its three like blocks are one function, `next_table`. Paging.Tables has
--             the walk of the MMU, the invariant of the tables and the proofs.
--   Interrupts  the entries of the interrupt descriptor table, kernel/src/interrupts/idt.cpp, and
--             `set_idt_gate` of kernel/src/kernel_util.cpp; Gate has the proofs. Pic has the port
--             writes of kernel/src/interrupts/interrupts.cpp, and Pic.Chip the controllers they
--             go to.
--   Screen    class BasicRenderer of kernel/src/basic_renderer.cpp, which draws to the memory of
--             a Framebuffer; Cursor and Cell have the proofs.
--   Keyboard  `handle_keyboard` and `translate` of kernel/src/input; a read past the end of the
--             table is `none`.
--   Pci       the names of kernel/src/pci_descriptors.cpp; `to_hstring` of kernel/src/c_str.cpp is
--             an argument. Pci.Enumerate has kernel/src/pci.cpp: each header is mapped and then
--             read in one memory, and the calls of the renderer are a list; Listing, Printed and
--             Buses lead to what the walk prints.
--   Acpi      `find_table` of kernel/src/acpi.cpp; Find has the proof.
--   Doubles   what the code uses of the C type `double`, as a record.
--   Timer     kernel/src/scheduling/pit/pit.cpp, with the port writes of kernel/src/io.cpp as a
--             list; Divisor has the proofs. Timer.Clock is the time since boot, with `sleep` over
--             the interrupts that come, in rounds from each test of its loop to the next.
--   Loader    gnu-efi/bootloader/main.c. Firmware is a record of the services that it calls, over an
--             unknown state, with the monad of functions that may use a null pointer; Files has
--             `init_gop`, `load_file` and `load_psf1_font`, Elf the kernel's image and Main
--             `efi_main`. Elf.Segments, Elf.Loop, Main.Failures, Compare and Rsdp have the proofs.
--   Heap      kernel/src/memory/heap.cpp over the headers in memory. Blocks is the abstract view,
--             a list of blocks with first fit, and Chain says that memory holds such a list; Find,
--             Split, Take, Larger, Change, Taken and Malloc lead to the refinement, Append, Extend
--             and Returns to its end, and Init, Free and Combine are about the other functions.
--             In Heap the mapping of a page is a parameter on the
--             memory that the program sees; Heap.Pages has the loop of `init_heap` and `extend_heap`
--             that maps the pages over the real map_mem and request_page, Backed and Seen its proofs.
--   Strings   `to_string` and `to_hstring` of kernel/src/c_str.cpp; Decimal, Signed and Hex have
--             the proofs. Strings.Fraction is `to_string` of a floating point number,
--             Digits and Written have its proofs.
--   Panic     kernel/src/panic_screen.cpp; Interrupts.Handlers has the handlers that call it.
--   Gdt       the segment descriptors of kernel/src/gdt.
--   Start     `prepare_mem`, `prepare_interrupts` and `prepare_acpi` of
--             kernel/src/kernel_util.cpp, which compose the allocator, the page tables, the
--             gates, the controllers and the walk over the buses; Gates has the proofs of the
--             gates, Root, Identity, Stages and Memory lead to what `prepare_mem` maps, and Heap goes
--             on to the pages of the heap.
--   Tests     runs on small inputs, and the theorems at inputs that meet their conditions.
--
-- Loops recur on the rounds that they have left, which the source's own loop bound gives, so no
-- fuel can run out. `malloc` has as bounds its calls of itself and the rounds of its loop, and is
-- `none` where they are too few: as many rounds as the heap has segments, and two calls, are enough.
-- `probe` and `put_digits` have 20 rounds, and a value of 64 bits has at most 20 digits.
-- `buses_from` has 255 rounds, since the numbers of the buses are bytes and the last is left out.
-- A signed overflow, undefined in C++, is modelled as the wrap of two's complement (`int_offset`);
-- theorems on ranges have the bound of 2 ^ 19 pages below which it does not happen. Page tables and bitmap are read and written in the same memory, so that the theorems
-- on them include that neither overwrites the other.
--
-- Floating point numbers are a parameter; the digits of a fraction rest on three laws of theirs,
-- `IsDouble`, which IEEE 754 and the conversions of C++ give. `copy_text` copies 20
-- digits and the end of a text at most, so 21 rounds are enough.
--
-- Not modelled: the instructions written in assembly (port I/O, lgdt, lidt, cr3), `init_kernel` and
-- `start`, which call the parts in turn, and gnu-efi but for its boot loader, a copy of another project's library.
pub mod Base
pub mod Bits
pub mod Memory
pub mod Bitmap
pub mod Frames
pub mod Paging
pub mod Interrupts
pub mod Pci
pub mod Screen
pub mod Keyboard
pub mod Acpi
pub mod Doubles
pub mod Timer
pub mod Loader
pub mod Heap
pub mod Strings
pub mod Panic
pub mod Gdt
pub mod Start
pub mod Tests
