-- ===== src/Heap/Pages.antt =====
-- The pages of the heap: the loops of `init_heap` and `extend_heap` of kernel/src/memory/heap.cpp
-- on the allocator and the page tables.
pub mod Backed
pub mod Seen
use eta_os.Base.{ℕ, zero, suc, ◌+◌, u64}
use eta_os.Frames.{Kernel, request_page}
use eta_os.Paging.{map_mem}

-- `global_ptm.map_mem(pos, global_allocator.request_page()); pos += 4096`, for each page.
unfoldable pub map_new_pages : ℕ → Kernel → ℕ → ℕ → Kernel
map_new_pages zero k pml4 pos = k
map_new_pages (suc left) k pml4 pos =
    let (requested, page) = request_page k in
    map_new_pages left (map_mem requested pml4 pos page) pml4 (u64 (pos + 4096))
