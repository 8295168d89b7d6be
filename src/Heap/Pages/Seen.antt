-- ===== src/Heap/Pages/Seen.antt =====
-- What the program sees through its page tables while pages are added to the heap.
use mathlib.Core.Option
use eta_os.Base.{
  ℕ, ◌+◌, ◌*◌, ◌/◌, ◌%◌, ◌^◌, ◌≤◌, ◌<◌, ◌≡◌, sym, ap, ◌∙◌, ◌⊎◌, true, Option, some, arith,
}
use eta_os.Memory.{Mem}
use eta_os.Frames.{Kernel, page_locked}
use eta_os.Paging.Tables.{translate, spare_pages, PageOutside, IsPaged}
use eta_os.Heap.Pages.{map_new_pages}
use eta_os.Heap.Pages.Backed.{map_new_pages-IsBacked}

-- The byte that is seen at a virtual address, if its page is mapped.
abbrev pub seen : Mem → ℕ → ℕ → Option ℕ
seen m pml4_addr virt = Option.map (λ p. m (p * 4096 + virt % 4096)) (translate m pml4_addr virt)

-- Where the tables satisfy the invariant, the allocator has four pages for each new page of the
-- heap, and the new pages lie in the 48 bits of an address, the loop of extend_heap changes no
-- byte that the program sees on another virtual page of those 48 bits, if that page leads to a
-- physical page that is locked, is no page table and does not meet the bitmap.
pub map_new_pages-seen :
    (left : ℕ) (height parent : ℕ → ℕ) (k : Kernel) (root v a p : ℕ)
    → IsPaged height parent k
    → height root ≡ 4
    → v + left ≤ 2 ^ 36
    → 4 * left ≤ spare_pages k
    → a < 2 ^ 48
    → (a / 4096 < v) ⊎ (v + left ≤ a / 4096)
    → translate k.mem (root * 4096) a ≡ some p
    → page_locked k p ≡ true
    → height p ≡ 0
    → PageOutside k p
    → seen (map_new_pages left k (root * 4096) (v * 4096)).mem (root * 4096) a
      ≡ seen k.mem (root * 4096) a
map_new_pages-seen left height parent k root v a p paged top fits enough low off leads held plain
      clear =
    let backed = map_new_pages-IsBacked left height parent k root v paged top fits enough in
    let page : (p * 4096 + a % 4096) / 4096 ≡ p = omega arith in
    let same =
      backed.untouched (p * 4096 + a % 4096) (rw page held) (rw page plain)
        (clear (p * 4096 + a % 4096) (omega arith) (omega arith)) in
    let k' = map_new_pages left k (root * 4096) (v * 4096) in
    ap (Option.map (λ q. k'.mem (q * 4096 + a % 4096))) (backed.others a low off ∙ leads)
    ∙ ap some same
    ∙ sym (ap (Option.map (λ q. k.mem (q * 4096 + a % 4096))) leads)
