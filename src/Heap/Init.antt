-- ===== src/Heap/Init.antt =====
-- The heap after `init_heap`.
use eta_os.Base.{ℕ, ◌+◌, ◌-◌, ◌*◌, ◌^◌, ◌≤◌, ◌<◌, ◌≡◌, refl, ◌∙◌, false, [], ◌∷◌, arith, u64, sub64}
use eta_os.Memory.{Mem, store64}
use eta_os.Memory.Words.{load64-store64, load64-store64_other, store8_self, load64-store8_other}
use eta_os.Heap.{Heap, map_pages, init_heap}
use eta_os.Heap.Chain.{Holds}

-- For at least one page, within the lower half of the address space and from address 24 on,
-- after init_heap the heap holds one free block, whatever was in its pages.
pub init_heap-Holds :
    (map_page : Mem → ℕ → Mem) (h : Heap) (heap_addr page_count : ℕ)
    → 24 ≤ heap_addr
    → 0 < page_count
    → heap_addr + page_count * 4096 ≤ 2 ^ 63
    → Holds
        (init_heap map_page h heap_addr page_count)
        (record { size = page_count * 4096 - 32; used = false } ∷ [])
unfolding init_heap
init_heap-Holds map_page h a page_count starts some_page fits =
    let m = map_pages map_page page_count h.mem a in
    let size : sub64 (u64 (page_count * 4096)) 32 ≡ page_count * 4096 - 32 = omega arith in
    let end : u64 (a + u64 (page_count * 4096)) ≡ a + page_count * 4096 = omega arith in
    let m₁ = store64 m a (page_count * 4096 - 32) in
    let m₂ = store64 m₁ (a + 8) 0 in
    let m₃ = store64 m₂ (a + 16) 0 in
    record {
      chain = (
        record {
          length_is = rw size (
              load64-store8_other m₃ (a + 24) a 1 (omega arith)
              ∙ load64-store64_other m₂ (a + 16) a 0 (omega arith)
              ∙ load64-store64_other m₁ (a + 8) a 0 (omega arith)
              ∙ load64-store64 m a (page_count * 4096 - 32) (omega arith));
          next_is = rw size (
              load64-store8_other m₃ (a + 24) (a + 8) 1 (omega arith)
              ∙ load64-store64_other m₂ (a + 16) (a + 8) 0 (omega arith)
              ∙ load64-store64 m₁ (a + 8) 0 (omega arith));
          last_is = rw size (
              load64-store8_other m₃ (a + 24) (a + 16) 1 (omega arith)
              ∙ load64-store64 m₂ (a + 16) 0 (omega arith));
          flag_is = store8_self _ (a + 24) 1;
        },
        tt,
      );
      some_block = omega arith;
      starts = starts;
      ends = omega arith;
      lower_half = omega arith;
      last_header_is = refl;
    }
