-- ===== src/Paging.antt =====
-- Paging: PageDirEntry of kernel/src/paging/paging.h and paging.cpp, PageMapIndexer of
-- page_map_indexer.h and .cpp, and PageTableManager of page_table_manager.h and .cpp.
-- The tables lie in the physical memory of the allocator's state, at their addresses.
pub mod Entry
pub mod Indexer
pub mod Tables
use eta_os.Base.{
  ℕ, ◌+◌, ◌*◌, bit_and, bit_or, Bool, true, not, ltb, if◌then◌else◌, u64, ◌<<<◌, ◌>>>◌, bit_not,
}
use eta_os.Memory.{load64, store64, memset}
use eta_os.Frames.{Kernel, request_page}

-- enum PT_FLAG
pub data PtFlag : Type 0 where
  present read_write user_super write_through cache_disabled accessed : PtFlag
  larger_pages custom0 custom1 custom2 nx : PtFlag

abbrev pub flag_bit : PtFlag → ℕ
flag_bit present = 0
flag_bit read_write = 1
flag_bit user_super = 2
flag_bit write_through = 3
flag_bit cache_disabled = 4
flag_bit accessed = 5
flag_bit larger_pages = 7
flag_bit custom0 = 9
flag_bit custom1 = 10
flag_bit custom2 = 11
flag_bit nx = 63

-- `(uint64_t)1 << flag`
abbrev pub bit_selector : PtFlag → ℕ
bit_selector flag = u64 (1 <<< flag_bit flag)

unfoldable pub set_flag : ℕ → PtFlag → Bool → ℕ
set_flag value flag enabled =
    let cleared = bit_and value (bit_not 64 (bit_selector flag)) in
    if enabled then bit_or cleared (bit_selector flag) else cleared

-- `value & bit_selector > 0`: in C++ the comparison binds tighter than `&`.
unfoldable pub get_flag : ℕ → PtFlag → Bool
get_flag value flag = ltb 0 (bit_and value (if ltb 0 (bit_selector flag) then 1 else 0))

unfoldable pub get_address : ℕ → ℕ
get_address value = bit_and value 0x000ffffffffff000 >>> 12

unfoldable pub set_address : ℕ → ℕ → ℕ
set_address value addr =
    bit_or (bit_and value 0xfff0000000000fff) (u64 (bit_and addr 0x000000ffffffffff <<< 12))

-- The indices that the constructor of PageMapIndexer takes from a virtual address.
pub record PageMapIndexer : Type 0 where
  pub pdp_i : ℕ
  pub pd_i : ℕ
  pub pt_i : ℕ
  pub p_i : ℕ

unfoldable pub page_map_indexer : ℕ → PageMapIndexer
page_map_indexer virt_addr =
    let page = virt_addr >>> 12 in
    let table = page >>> 9 in
    let directory = table >>> 9 in
    let pointer = directory >>> 9 in
    record {
      p_i = bit_and page 0x1ff;
      pt_i = bit_and table 0x1ff;
      pd_i = bit_and directory 0x1ff;
      pdp_i = bit_and pointer 0x1ff;
    }

-- `&table->entries[i]`
abbrev pub entry_at : ℕ → ℕ → ℕ
entry_at table i = table + 8 * i

-- An entry that points to `addr`, present and writable.
abbrev pub filled : ℕ → ℕ → ℕ
filled pde addr = set_flag (set_flag (set_address pde (addr >>> 12)) present true) read_write true

-- The body of `if (!pde.get_flag(Present))`: a page is requested, cleared and entered.
unfoldable pub new_table : Kernel → ℕ → ℕ → ℕ → Kernel × ℕ
new_table k table i pde =
    let (k', new) = request_page k in
    let cleared = memset k'.mem new 0 4096 in
    (record k' { mem = store64 cleared (entry_at table i) (filled pde new) }, new)

-- One level of `map_mem`: the table that entry `i` of `table` points to, made if it is not there.
-- The new state and the table's address.
unfoldable pub next_table : Kernel → ℕ → ℕ → Kernel × ℕ
unfolding new_table
next_table k table i =
    let pde = load64 k.mem (entry_at table i) in
    if not (get_flag pde present)
    then new_table k table i pde
    else (k, u64 (get_address pde <<< 12))

-- The last level: the page's own entry.
unfoldable pub enter_page : Kernel → ℕ → ℕ → ℕ → Kernel
enter_page k table i phys_mem =
    let pde = load64 k.mem (entry_at table i) in
    record k { mem = store64 k.mem (entry_at table i) (filled pde phys_mem) }

unfoldable pub map_mem : Kernel → ℕ → ℕ → ℕ → Kernel
unfolding next_table enter_page
map_mem k pml4_addr virt_mem phys_mem =
    let indexer = page_map_indexer virt_mem in
    let (k₁, pdp) = next_table k pml4_addr indexer.pdp_i in
    let (k₂, pd) = next_table k₁ pdp indexer.pd_i in
    let (k₃, pt) = next_table k₂ pd indexer.pt_i in enter_page k₃ pt indexer.p_i phys_mem
