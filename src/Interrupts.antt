-- ===== src/Interrupts.antt =====
-- The interrupt descriptor table: IDTDescEntry of kernel/src/interrupts/idt.h and idt.cpp, and
-- `set_idt_gate` of kernel/src/kernel_util.cpp. The table lies in memory; an entry has 16 bytes.
pub mod Gate
pub mod Handlers
pub mod Pic
use eta_os.Base.{ℕ, ◌+◌, ◌*◌, bit_and, bit_or, u16, u32, u64, ◌<<<◌, ◌>>>◌}
use eta_os.Memory.{Mem, store8, load16, load32, store16, store32}

-- The fields' places in an entry.
abbrev pub selector_at : ℕ → ℕ
selector_at a = a + 2

abbrev pub type_attr_at : ℕ → ℕ
type_attr_at a = a + 5

abbrev pub offset1_at : ℕ → ℕ
offset1_at a = a + 6

abbrev pub offset2_at : ℕ → ℕ
offset2_at a = a + 8

-- `set_offset` and `get_offset` of the entry at `a`.
unfoldable pub set_offset : Mem → ℕ → ℕ → Mem
set_offset m a offset =
    let low = store16 m a (u16 (bit_and offset 0x000000000000ffff)) in
    let middle = store16 low (offset1_at a) (u16 (bit_and offset 0x00000000ffff0000 >>> 16)) in
    store32 middle (offset2_at a) (u32 (bit_and offset 0xffffffff00000000 >>> 32))

unfoldable pub get_offset : Mem → ℕ → ℕ
get_offset m a =
    bit_or (bit_or (bit_or 0 (load16 m a)) (u64 (load16 m (offset1_at a) <<< 16)))
      (u64 (load32 m (offset2_at a) <<< 32))

-- `idtr.offset + entry_offset * sizeof(IDTDescEntry)`
abbrev pub gate_at : ℕ → ℕ → ℕ
gate_at idt entry_offset = u64 (idt + entry_offset * 16)

unfoldable pub set_idt_gate : Mem → ℕ → ℕ → ℕ → ℕ → ℕ → Mem
set_idt_gate m idt handler entry_offset type_attr selector =
    let a = gate_at idt entry_offset in
    let pointed = set_offset m a handler in
    let typed = store8 pointed (type_attr_at a) type_attr in store16 typed (selector_at a) selector
