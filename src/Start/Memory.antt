-- ===== src/Start/Memory.antt =====
-- What `prepare_mem` leaves: the MMU's translation under the new tables.
use eta_os.Base.{
  ℕ, ◌+◌, ◌*◌, ◌/◌, ◌%◌, ◌^◌, ◌≤◌, ◌<◌, ◌≡◌, refl, ap, ◌∙◌, ◌⊎◌, inl, inr, Bool, not, ◌&&◌, none,
  some, arith, ltb, leb, Bool-cases, u64, sub64,
}
use eta_os.Start.{BootInfo, page_rounds, map_identity, prepare_mem}
use eta_os.Frames.Boot.Result.{
  map_entries, total_memory, home, new_bitmap, CanBoot, read_efi_memory_map-locked,
}
use eta_os.Frames.{Kernel, page_locked, lock_pages, request_page}
use eta_os.Frames.Count.{count_below, count_below_same}
use eta_os.Start.Root.{
  IsSettled, lock_pages-IsSettled, booted-IsSettled, root_height, with_root, IsRooted,
  with_root-IsRooted,
}
use eta_os.Frames.Ranges.{among, lock_pages-among, lock_pages-page_bitmap}
use eta_os.Frames.Boot.Map.{conventional_page}
use eta_os.Memory.Words.{IsBytes}
use eta_os.Bitmap.{Bitmap}
use eta_os.Start.Identity.{tables_for, IsIdentity, map_identity-IsIdentity}
use eta_os.Paging.Tables.{translate, spare_pages, IsPaged}
use eta_os.Frames.Boot.{read_efi_memory_map}
use eta_os.Frames.Boot.Fresh.{booted-page_bitmap, booted-mem_size_bytes}
use eta_os.Start.Stages.{
  lock_pages-beyond, lock_pages-mem_size_bytes, with_root-mem_size_bytes, get_memory_size-known,
}
use eta_os.Paging.Tables.Request.{request_page-page_bitmap}

module _ (k : Kernel) (boot : BootInfo) (kernel_start kernel_end : ℕ) where
  abbrev fresh : Kernel
  fresh = record k { page_bitmap = record { size = 0; buffer = 0 } }

  abbrev kernel_pages : ℕ
  kernel_pages = sub64 kernel_end kernel_start / 4096 + 1

  abbrev pub memory_size : ℕ
  memory_size = total_memory fresh boot.mem_map boot.mem_map_size

  abbrev pub bitmap : Bitmap
  bitmap = new_bitmap fresh boot.mem_map boot.mem_map_size

  abbrev pub framebuffer_size : ℕ
  framebuffer_size = u64 (boot.framebuffer.buffer_size + 4096)

  abbrev pub framebuffer_rounds : ℕ
  framebuffer_rounds =
      page_rounds boot.framebuffer.base_adress
        (u64 (boot.framebuffer.base_adress + framebuffer_size))

  -- By the memory map, page `j` can be given out once the kernel's own pages are locked.
  abbrev pub is_free : ℕ → Bool
  is_free j =
      conventional_page k.mem boot.mem_map (map_entries fresh boot.mem_map boot.mem_map_size) 0 j
      && not (ltb j 0x100)
      && not (among (home fresh boot.mem_map boot.mem_map_size).seg (bitmap.size / 4096 + 1) j)
      && not (among kernel_start kernel_pages j)

  -- The conditions of `read_efi_memory_map`; a search that starts at page 0, some memory, and a bitmap
  -- whose home starts a page; a kernel that ends in the address space; a framebuffer that starts a
  -- page, behind the pages of the bitmap, has less than 1 GiB with one page more, and ends within 48
  -- bits; and enough free pages for the tables.
  pub record CanPrepare : Type 0 where
    pub can : CanBoot fresh boot.mem_map boot.mem_map_size
    pub bytes : IsBytes k.mem
    pub first : k.page_bitmap_index ≡ 0
    pub some_memory : 0 < memory_size
    pub aligned : (home fresh boot.mem_map boot.mem_map_size).seg % 4096 ≡ 0
    pub kernel_few : kernel_pages ≤ 2 ^ 19
    pub kernel_fits : kernel_start + kernel_pages * 4096 ≤ 2 ^ 64
    pub framebuffer_aligned : boot.framebuffer.base_adress % 4096 ≡ 0
    pub framebuffer_beyond : bitmap.size * 8 < boot.framebuffer.base_adress / 4096
    pub framebuffer_few : framebuffer_size < 2 ^ 30
    pub framebuffer_fits : boot.framebuffer.base_adress + 2 ^ 31 ≤ 2 ^ 48
    pub enough :
        tables_for 0 (page_rounds 0 memory_size)
          + tables_for (boot.framebuffer.base_adress / 4096) framebuffer_rounds
          + 1
        ≤ count_below is_free bitmap.size

  -- The state before the tables.
  abbrev locked : Kernel
  locked =
      lock_pages (read_efi_memory_map fresh boot.mem_map boot.mem_map_size) kernel_start
        kernel_pages

  -- The tables are there, and no more pages are used for them than was counted.
  pub record IsPrepared (result : Kernel × ℕ) : Type 0 where
    pub root : ℕ
    pub height : ℕ → ℕ
    pub parent : ℕ → ℕ
    pub address : result.1 ≡ root * 4096
    pub placed : result.0.page_bitmap ≡ bitmap
    pub paged : IsPaged height parent result.0
    pub top : height root ≡ 4
    pub spare :
        count_below is_free bitmap.size
        ≤ spare_pages result.0
          + tables_for 0 (page_rounds 0 memory_size)
          + tables_for (boot.framebuffer.base_adress / 4096) framebuffer_rounds
          + 1

  module _ (h : CanPrepare) where
    locked-IsSettled : IsSettled locked
    locked-IsSettled =
        lock_pages-IsSettled (read_efi_memory_map fresh boot.mem_map boot.mem_map_size) kernel_start
          kernel_pages
          (booted-IsSettled fresh boot.mem_map boot.mem_map_size h.can h.bytes h.first h.aligned)

    locked-page_bitmap : locked.page_bitmap ≡ bitmap
    locked-page_bitmap =
        lock_pages-page_bitmap (read_efi_memory_map fresh boot.mem_map boot.mem_map_size)
          kernel_start kernel_pages
        ∙ booted-page_bitmap fresh boot.mem_map boot.mem_map_size h.can

    locked-mem_size_bytes : locked.mem_size_bytes ≡ memory_size
    locked-mem_size_bytes =
        lock_pages-mem_size_bytes (read_efi_memory_map fresh boot.mem_map boot.mem_map_size)
          kernel_start kernel_pages
        ∙ booted-mem_size_bytes fresh boot.mem_map boot.mem_map_size h.can

    page_locked-locked : (j : ℕ) → j < bitmap.size → not (page_locked locked j) ≡ is_free j
    page_locked-locked j below =
        let small = h.can.small in
        ground (
          arith,
          lock_pages-among (read_efi_memory_map fresh boot.mem_map boot.mem_map_size) kernel_start
              kernel_pages j h.kernel_few h.kernel_fits,
          read_efi_memory_map-locked fresh boot.mem_map boot.mem_map_size h.can j (omega arith),
          booted-page_bitmap fresh boot.mem_map boot.mem_map_size h.can,
        )

    locked-spare_pages : spare_pages locked ≡ count_below is_free bitmap.size
    unfolding spare_pages
    locked-spare_pages =
        ap (λ b. count_below (λ j. not (page_locked locked j)) b.size) locked-page_bitmap
        ∙ count_below_same is_free (λ j. not (page_locked locked j)) bitmap.size page_locked-locked

    locked-IsRooted : IsRooted locked
    locked-IsRooted =
        let left = h.enough in
        with_root-IsRooted locked locked-IsSettled (omega (arith, locked-spare_pages))

    -- The first loop.
    abbrev low : Kernel
    low =
        map_identity (page_rounds 0 memory_size) (with_root locked) (locked-IsRooted.root * 4096) 0

    low-IsIdentity :
        IsIdentity (with_root locked) locked-IsRooted.root 0 (page_rounds 0 memory_size) 0 low
    low-IsIdentity =
        let left = h.enough in
        let few = h.can.small in
        let given = locked-IsRooted.spare in
        map_identity-IsIdentity (page_rounds 0 memory_size) (root_height locked-IsRooted.root)
          (λ p. 0) (with_root locked) locked-IsRooted.root 0 0 locked-IsRooted.paged (ground arith)
          (omega arith) (omega (arith, locked-spare_pages), inl refl)

    low-page_bitmap : low.page_bitmap ≡ bitmap
    low-page_bitmap = low-IsIdentity.framed ∙ request_page-page_bitmap locked ∙ locked-page_bitmap

    -- The second loop.
    abbrev base_page : ℕ
    base_page = boot.framebuffer.base_adress / 4096

    abbrev both : Kernel
    both = map_identity framebuffer_rounds low (locked-IsRooted.root * 4096) (base_page * 4096)

    both-IsIdentity : IsIdentity low locked-IsRooted.root base_page framebuffer_rounds 0 both
    both-IsIdentity =
        let left = h.enough in
        let few = h.framebuffer_few in
        let fits = h.framebuffer_fits in
        let given = locked-IsRooted.spare in
        let used = low-IsIdentity.spare in
        map_identity-IsIdentity framebuffer_rounds low-IsIdentity.height low-IsIdentity.parent low
          locked-IsRooted.root base_page 0 low-IsIdentity.paged low-IsIdentity.top (omega arith)
          (omega (arith, locked-spare_pages), inl refl)

    -- What follows the question for the memory's size.
    abbrev after_root : ℕ → Kernel × ℕ → Kernel × ℕ
    after_root pml4 (sized, size) =
        let mapped = map_identity (page_rounds 0 size) sized pml4 0 in
        let framed = lock_pages mapped boot.framebuffer.base_adress (framebuffer_size / 4096 + 1) in
        (map_identity framebuffer_rounds framed pml4 boot.framebuffer.base_adress, pml4)

    prepare_mem-both :
        prepare_mem k boot kernel_start kernel_end ≡ (both, locked-IsRooted.root * 4096)
    unfolding prepare_mem
    prepare_mem-both =
        let known : (with_root locked).mem_size_bytes ≡ memory_size =
          with_root-mem_size_bytes locked ∙ locked-mem_size_bytes in
        let sized =
          get_memory_size-known (with_root locked) boot.mem_map
            (map_entries fresh boot.mem_map boot.mem_map_size) (rw known h.some_memory) in
        let beyond =
          lock_pages-beyond low boot.framebuffer.base_adress (framebuffer_size / 4096 + 1)
            (rw low-page_bitmap (let small = h.can.small in omega arith))
            (rw low-page_bitmap h.framebuffer_beyond) (let few = h.framebuffer_few in omega arith)
            (let few = h.framebuffer_few in let fits = h.framebuffer_fits in omega arith) in
        let base : boot.framebuffer.base_adress ≡ base_page * 4096 =
          let aligned = h.framebuffer_aligned in omega arith in
        ap (after_root (request_page locked).1)
          (sized ∙ ap (λ size. (with_root locked, size)) known)
        ∙ ap (λ pml4. after_root pml4 (with_root locked, memory_size)) locked-IsRooted.address
        ∙ ap
            (λ t. (
              map_identity framebuffer_rounds t (locked-IsRooted.root * 4096)
                  boot.framebuffer.base_adress,
              locked-IsRooted.root * 4096,
            ))
            beyond
        ∙ ap
            (λ i. (
              map_identity framebuffer_rounds low (locked-IsRooted.root * 4096) i,
              locked-IsRooted.root * 4096,
            ))
            base

    -- On a fresh allocator whose search starts at page 0, with a memory of bytes that is not
    -- empty and, by the memory map, below 2 GiB, where the memory map lies outside the bitmap's
    -- home, each of its segments has 2 ^ 19 pages at most and ends in the address space, and
    -- the bitmap's home starts a page and its pages end in the address space; with a kernel
    -- that ends in the address space and has 2 ^ 19 pages at most; with a framebuffer that
    -- starts a page, behind the pages of the bitmap and 2 GiB below 2 ^ 48 at least, and has
    -- less than 1 GiB with one page more; and with enough free pages for the tables by the
    -- memory map: after prepare_mem the new tables lead each address of the memory, and each of
    -- the framebuffer and the page behind it, to its own page.
    pub prepare_mem-translate :
        (a : ℕ)
        → (a < page_rounds 0 memory_size * 4096)
          ⊎ ((boot.framebuffer.base_adress ≤ a)
              × (a < boot.framebuffer.base_adress + framebuffer_size))
        → translate
            (prepare_mem k boot kernel_start kernel_end).0.mem
            (prepare_mem k boot kernel_start kernel_end).1
            a
          ≡ some (a / 4096)
    prepare_mem-translate a inside =
        let few = h.framebuffer_few in
        let fits = h.framebuffer_fits in
        let aligned = h.framebuffer_aligned in
        let small = h.can.small in
        rw prepare_mem-both
          (elim (Bool-cases
            (leb (base_page * 4096) a && ltb a ((base_page + framebuffer_rounds) * 4096))) [
              | inl within ↦ both-IsIdentity.inside a (ground arith) (ground arith)
              | inr without ↦
                  both-IsIdentity.outside a (omega arith) (ground arith)
                  ∙ low-IsIdentity.inside a (omega arith) (ground arith)
            ])

    -- Under the same conditions, after prepare_mem the new tables map no other address of 48
    -- bits than the pages of the memory and those of the framebuffer.
    pub prepare_mem-translate_outside :
        (a : ℕ)
        → a < 2 ^ 48
        → page_rounds 0 memory_size * 4096 ≤ a
        → (a < boot.framebuffer.base_adress)
          ⊎ (boot.framebuffer.base_adress + framebuffer_rounds * 4096 ≤ a)
        → translate
            (prepare_mem k boot kernel_start kernel_end).0.mem
            (prepare_mem k boot kernel_start kernel_end).1
            a
          ≡ none
    prepare_mem-translate_outside a low_enough over out =
        let aligned = h.framebuffer_aligned in
        rw prepare_mem-both (
          both-IsIdentity.outside a low_enough (ground arith)
          ∙ low-IsIdentity.outside a low_enough (inr (omega arith))
          ∙ locked-IsRooted.empty a)

    pub prepare_mem-IsPrepared : IsPrepared (prepare_mem k boot kernel_start kernel_end)
    prepare_mem-IsPrepared =
        let given = locked-IsRooted.spare in
        let used = low-IsIdentity.spare in
        let used' = both-IsIdentity.spare in
        rw prepare_mem-both (record {
          root = locked-IsRooted.root;
          height = both-IsIdentity.height;
          parent = both-IsIdentity.parent;
          address = refl;
          placed = both-IsIdentity.framed ∙ low-page_bitmap;
          paged = both-IsIdentity.paged;
          top = both-IsIdentity.top;
          spare = omega (arith, locked-spare_pages);
        })
