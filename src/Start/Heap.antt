-- ===== src/Start/Heap.antt =====
-- The start up to the pages of the heap: `prepare_mem`, and the loop of `init_heap`.
use eta_os.Base.{ℕ, ◌+◌, ◌*◌, ◌/◌, ◌^◌, ◌≤◌, ◌<◌, ◌≡◌, sym, ap, ◌∙◌, ◌⊎◌, false, some, arith}
use eta_os.Start.{BootInfo, page_rounds, prepare_mem}
use eta_os.Paging.Tables.{translate}
use eta_os.Start.Memory.{
  memory_size, bitmap, framebuffer_size, framebuffer_rounds, is_free, CanPrepare, IsPrepared,
  prepare_mem-translate, prepare_mem-IsPrepared,
}
use eta_os.Frames.{Kernel, page_locked}
use eta_os.Frames.Count.{count_below}
use eta_os.Start.Identity.{tables_for}
use eta_os.Heap.Pages.Backed.{IsBacked, map_new_pages-IsBacked}
use eta_os.Heap.Pages.{map_new_pages}
use eta_os.Paging.Tables.Elsewhere.{
  walk-elsewhere, page_locked-elsewhere, elsewhere-IsPaged, spare_pages-elsewhere,
}
use eta_os.Memory.Memset.{memset_lem, memset-IsBytes}
use eta_os.Memory.Words.{IsBytes, Apart}
use eta_os.Memory.{Mem, memset}

-- `init_kernel` from `prepare_mem` on: the framebuffer is cleared, which is mapped to itself, and the
-- heap, of `n` pages from virtual page `v` on, gets its pages.
unfoldable pub prepare_heap : Kernel → BootInfo → ℕ → ℕ → ℕ → ℕ → Kernel × ℕ
prepare_heap k boot kernel_start kernel_end v n =
    let (prepared, pml4) = prepare_mem k boot kernel_start kernel_end in
    let fb = boot.framebuffer in
    let cleared = record prepared { mem = memset prepared.mem fb.base_adress 0 fb.buffer_size } in
    (map_new_pages n cleared pml4 (v * 4096), pml4)

module _ (k : Kernel) (boot : BootInfo) (kernel_start kernel_end v n : ℕ) where
  -- The heap lies in the address space behind the memory, apart from the framebuffer, the framebuffer
  -- does not meet the bitmap, and there are four pages for each page of the heap besides those for
  -- the tables.
  pub record HasHeapRoom : Type 0 where
    pub fits : v + n ≤ 2 ^ 36
    pub behind : page_rounds 0 (memory_size k boot kernel_start kernel_end) ≤ v
    pub apart :
        ((v + n) * 4096 ≤ boot.framebuffer.base_adress)
        ⊎ (boot.framebuffer.base_adress + framebuffer_size k boot kernel_start kernel_end
            ≤ v * 4096)
    pub buffer_fits : boot.framebuffer.buffer_size + 4096 < 2 ^ 64
    pub bitmap_apart :
        Apart boot.framebuffer.base_adress
          (boot.framebuffer.buffer_size)
          (bitmap k boot kernel_start kernel_end).buffer
          ((bitmap k boot kernel_start kernel_end).size + 1)
    pub enough :
        tables_for 0 (page_rounds 0 (memory_size k boot kernel_start kernel_end))
          + tables_for
              (boot.framebuffer.base_adress / 4096)
              (framebuffer_rounds k boot kernel_start kernel_end)
          + 1
          + 4 * n
        ≤ count_below
            (is_free k boot kernel_start kernel_end)
            (bitmap k boot kernel_start kernel_end).size

  -- Each page of the heap has a page of its own, and the memory is mapped as before.
  pub record HasHeap (result : Kernel × ℕ) : Type 0 where
    pub pages : ℕ → ℕ
    pub backs :
        (i a : ℕ) → i < n → a / 4096 ≡ v + i → translate result.0.mem result.1 a ≡ some (pages i)
    pub distinct : (i j : ℕ) → i < n → j < n → pages i ≡ pages j → i ≡ j
    pub unused :
        (i : ℕ)
        → i < n
        → page_locked (prepare_mem k boot kernel_start kernel_end).0 (pages i) ≡ false
    pub memory :
        (a : ℕ)
        → (a < page_rounds 0 (memory_size k boot kernel_start kernel_end) * 4096)
          ⊎ ((boot.framebuffer.base_adress ≤ a)
              × (a
                  < boot.framebuffer.base_adress + framebuffer_size k boot kernel_start kernel_end))
        → translate result.0.mem result.1 a ≡ some (a / 4096)

  module _ (h : CanPrepare k boot kernel_start kernel_end) (room : HasHeapRoom) where
    abbrev prepared : Kernel
    prepared = (prepare_mem k boot kernel_start kernel_end).0

    abbrev cleared : Mem
    cleared = memset prepared.mem boot.framebuffer.base_adress 0 boot.framebuffer.buffer_size

    done : IsPrepared k boot kernel_start kernel_end (prepare_mem k boot kernel_start kernel_end)
    done = prepare_mem-IsPrepared k boot kernel_start kernel_end h

    cleared_outside :
        (x : ℕ)
        → Apart boot.framebuffer.base_adress boot.framebuffer.buffer_size x 1
        → cleared x ≡ prepared.mem x
    cleared_outside x out =
        let few = h.framebuffer_few in
        let end = h.framebuffer_fits in
        let fits = room.buffer_fits in
        ground (
          arith,
          memset_lem prepared.mem boot.framebuffer.base_adress 0 boot.framebuffer.buffer_size x
              (omega arith),
        )

    cleared-IsBytes : IsBytes cleared
    cleared-IsBytes =
        let few = h.framebuffer_few in
        let end = h.framebuffer_fits in
        let fits = room.buffer_fits in
        memset-IsBytes boot.framebuffer.base_adress 0 boot.framebuffer.buffer_size (omega arith)
          (omega arith) done.paged.bytes

    low : (x : ℕ) → x < (prepared.page_bitmap.size * 8 + 1) * 4096 → cleared x ≡ prepared.mem x
    low x l =
        let beyond = h.framebuffer_beyond in
        cleared_outside x (omega (arith, ap (λ b. b.size) done.placed))

    kept :
        (x : ℕ)
        → prepared.page_bitmap.buffer ≤ x
        → x ≤ prepared.page_bitmap.buffer + prepared.page_bitmap.size
        → cleared x ≡ prepared.mem x
    kept x l u =
        let apart = room.bitmap_apart in
        cleared_outside x
          (omega (arith, ap (λ b. b.size) done.placed, ap (λ b. b.buffer) done.placed))

    heap :
        IsBacked done.height
          (record prepared { mem = cleared })
          done.root
          v
          n
          (map_new_pages n (record prepared { mem = cleared }) (done.root * 4096) (v * 4096))
    heap =
        let used = done.spare in
        let had = room.enough in
        let spare =
          spare_pages-elsewhere done.height done.parent prepared cleared done.paged cleared-IsBytes
            low kept in
        map_new_pages-IsBacked n done.height done.parent (record prepared { mem = cleared })
          done.root v
          (elsewhere-IsPaged done.height done.parent prepared cleared done.paged cleared-IsBytes low
            kept)
          done.top room.fits (omega arith)

    translate-cleared :
        (a : ℕ)
        → translate cleared (done.root * 4096) a ≡ translate prepared.mem (done.root * 4096) a
    unfolding translate
    translate-cleared a =
        let page : done.root * 4096 / 4096 ≡ done.root = omega arith in
        rw page (
          walk-elsewhere done.height done.parent prepared cleared done.paged cleared-IsBytes low
            kept 3 done.root (a / 4096) done.top)

    -- Under the conditions of prepare_mem, with a heap behind the memory and apart from the
    -- framebuffer, a framebuffer that does not meet the bitmap, and four more free pages for
    -- each page of the heap, after prepare_mem, the clearing of the framebuffer and the loop of
    -- init_heap each page of the heap leads to a physical page of its own, which was free, and
    -- the memory and the framebuffer are still mapped to themselves.
    pub prepare_heap-HasHeap : HasHeap (prepare_heap k boot kernel_start kernel_end v n)
    unfolding prepare_heap
    prepare_heap-HasHeap = rw done.address (record {
      pages = heap.pages;
      backs = heap.backs;
      distinct = heap.distinct;
      unused = λ i l.
          sym (
            page_locked-elsewhere done.height done.parent prepared cleared done.paged
              cleared-IsBytes low kept (heap.pages i))
          ∙ heap.unused i l;
      memory = λ a inside.
          let small = h.can.small in
          let few = h.framebuffer_few in
          let end = h.framebuffer_fits in
          let behind = room.behind in
          let apart = room.apart in
          heap.others a (omega arith) (omega arith)
          ∙ translate-cleared a
          ∙ (rw done.address at (prepare_mem-translate k boot kernel_start kernel_end h a inside));
    })
