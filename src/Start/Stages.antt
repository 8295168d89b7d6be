-- ===== src/Start/Stages.antt =====
-- The stretches of `prepare_mem` around its two loops: what locking pages that the bitmap does not
-- reach does, and what the operations before the tables leave of the memory's size.
use eta_os.Bitmap.{get, set}
use eta_os.Base.{ℕ, zero, suc, ◌+◌, ◌*◌, ◌/◌, ◌^◌, ◌≤◌, ◌<◌, ◌≡◌, refl, ◌∙◌, map, arith, u64}
use eta_os.Frames.{Kernel, lock_page, int_offset, for_pages_from, lock_pages}
use eta_os.Frames.Boot.{MemMap, get_memory_size}
use eta_os.Frames.Scan.{request_page-keeps}
use eta_os.Frames.Ranges.{round_page, for_pages_keeps}
use eta_os.Start.Root.{with_root}
use eta_os.Frames.Boot.Fresh.{lock_page-mem_size_bytes}

-- A page behind those of the bitmap is not locked.
lock_page-beyond :
    (k : Kernel) (addr : ℕ)
    → k.page_bitmap.size < 2 ^ 40
    → k.page_bitmap.size * 8 < addr / 4096
    → lock_page k addr ≡ k
unfolding lock_page get set
lock_page-beyond k addr small over = ground arith

lock_pages_from-beyond :
    (left i addr : ℕ) (k : Kernel)
    → k.page_bitmap.size < 2 ^ 40
    → k.page_bitmap.size * 8 < addr / 4096
    → i + left ≤ 2 ^ 19
    → addr + (i + left) * 4096 ≤ 2 ^ 64
    → for_pages_from lock_page left i addr k ≡ k
unfolding for_pages_from
lock_pages_from-beyond zero i addr k small over few fits = refl
lock_pages_from-beyond (suc left) i addr k small over few fits =
    let page = round_page addr i (omega arith) (omega arith) in
    rw (lock_page-beyond k (u64 (addr + int_offset i)) small (omega arith))
      (lock_pages_from-beyond left (i + 1) addr k small over (omega arith) (omega arith))

pub lock_pages-beyond :
    (k : Kernel) (addr n : ℕ)
    → k.page_bitmap.size < 2 ^ 40
    → k.page_bitmap.size * 8 < addr / 4096
    → n ≤ 2 ^ 19
    → addr + n * 4096 ≤ 2 ^ 64
    → lock_pages k addr n ≡ k
unfolding lock_pages
lock_pages-beyond k addr n small over few fits =
    lock_pages_from-beyond n 0 addr k small over (omega arith) (omega arith)

pub lock_pages-mem_size_bytes :
    (k : Kernel) (addr n : ℕ) → (lock_pages k addr n).mem_size_bytes ≡ k.mem_size_bytes
unfolding lock_pages
lock_pages-mem_size_bytes k addr n =
    for_pages_keeps (λ s. s.mem_size_bytes ≡ k.mem_size_bytes) lock_page
      (λ s a h. lock_page-mem_size_bytes s a ∙ h) n 0 addr k refl

pub with_root-mem_size_bytes : (k : Kernel) → (with_root k).mem_size_bytes ≡ k.mem_size_bytes
with_root-mem_size_bytes k =
    request_page-keeps (λ s. s.mem_size_bytes ≡ k.mem_size_bytes) (λ s i h. h)
      (λ s a h. lock_page-mem_size_bytes s a ∙ h) k refl

-- Once the memory's size is known, it is not computed again.
pub get_memory_size-known :
    (k : Kernel) (map : MemMap) (entries : ℕ)
    → 0 < k.mem_size_bytes
    → get_memory_size k map entries ≡ (k, k.mem_size_bytes)
unfolding get_memory_size
get_memory_size-known k map entries known = ground arith
