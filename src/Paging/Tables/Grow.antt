-- ===== src/Paging/Tables/Grow.antt =====
-- A new table keeps the invariant of the page tables.
use eta_os.Base.{
  ℕ, suc, ◌+◌, ◌-◌, ◌*◌, ◌/◌, ◌≤◌, ◌<◌, ◌≡◌, sym, ap, ◌∙◌, ◌≢◌, ◌⊎◌, inl, inr, Bool, true, false,
  not, ◌&&◌, ◌||◌, arith, ◌==◌, Bool-cases, u64,
}
use eta_os.Frames.{Kernel, page_locked, request_page}
use eta_os.Frames.Scan.{IsScanned, IsFirstFree, request_page-IsScanned}
use eta_os.Paging.Tables.{entry, is_present, spare_pages, PageOutside, IsPaged}
use eta_os.Paging.Tables.New
use eta_os.Paging.Tables.New.{mark}
use eta_os.Memory.Words.{IsBytes, Apart, store64-IsBytes, store64_outside}
use eta_os.Bitmap.Laws.{get_same}
use eta_os.Paging.{get_address, entry_at, new_table}
use eta_os.Paging.Tables.Request.{request_page-page_bitmap, request_page-IsBytes}
use eta_os.Memory.Memset.{memset_lem, memset-IsBytes}
use eta_os.Frames.Count.{count_below, count_below_clear}

-- A byte of the bitmap is not in a page that is outside it.
pub bitmap_byte_off :
    (k : Kernel) (p b : ℕ)
    → PageOutside k p
    → k.page_bitmap.buffer ≤ b
    → b ≤ k.page_bitmap.buffer + k.page_bitmap.size
    → Apart (p * 4096) 4096 b 1
bitmap_byte_off k p b h lo hi = ground (arith, h b)

module _ (height parent : ℕ → ℕ) (k : Kernel) (paged : IsPaged height parent k) (p i n : ℕ)
    (inner : 2 ≤ height p) (i_fits : i < 512) (absent : is_present (entry k.mem p i) ≡ false)
    (free : IsFirstFree k n) (given : (request_page k).1 ≡ n * 4096)
    (marked : (j : ℕ) → page_locked (request_page k).0 j ≡ (page_locked k j || (n == j))) where
  abbrev grown : Kernel
  grown = (new_table k (p * 4096) i (entry k.mem p i)).0

  abbrev height' : ℕ → ℕ
  height' = mark height n (height p - 1)

  abbrev parent' : ℕ → ℕ
  parent' = mark parent n (p * 512 + i)

  grown-page_bitmap : grown.page_bitmap ≡ k.page_bitmap
  unfolding new_table
  grown-page_bitmap = request_page-page_bitmap k

  -- Neither the cleared page nor the entry is in the bitmap.
  pub page_locked-grown : (j : ℕ) → page_locked grown j ≡ (page_locked k j || (n == j))
  unfolding new_table
  page_locked-grown j =
      get_same (request_page k).0.page_bitmap (request_page k).0.mem grown.mem j kept ∙ marked j
    where
      byte : ℕ
      byte = k.page_bitmap.buffer + j / 8

      kept :
          j ≤ u64 ((request_page k).0.page_bitmap.size * 8)
          → grown.mem ((request_page k).0.page_bitmap.buffer + j / 8)
            ≡ (request_page k).0.mem ((request_page k).0.page_bitmap.buffer + j / 8)
      kept l =
          let small = paged.size_fits in
          let below = free.0 in
          let fits = i_fits in
          let same = request_page-page_bitmap k in
          let in_table =
            New.height_ne_zero height parent k paged p i n inner i_fits absent free given marked in
          let inside : j ≤ u64 (k.page_bitmap.size * 8) = rw same at l in
          let off_table =
            bitmap_byte_off k p byte (paged.apart p in_table) (omega arith) (omega arith) in
          let off_new =
            bitmap_byte_off k n byte (paged.spare n free.0 free.1) (omega arith) (omega arith) in
          rw same (
            store64_outside _ (entry_at (p * 4096) i) _ byte (omega arith)
            ∙ rw given (
                memset_lem (request_page k).0.mem (n * 4096) 0 4096 byte (omega arith)
                ∙ ground arith))

  grown-IsBytes : IsBytes grown.mem
  unfolding new_table
  grown-IsBytes =
      let small = paged.size_fits in
      let below = free.0 in
      rw given (
        store64-IsBytes (entry_at (p * 4096) i) _ (
          memset-IsBytes (n * 4096) 0 4096 (omega arith) (omega arith)
            (request_page-IsBytes k paged.bytes)))

  grown-IsScanned : IsScanned grown
  grown-IsScanned j l =
      page_locked-grown j
      ∙ sym (marked j)
      ∙ request_page-IsScanned k paged.scanned j (unfold new_table in l)

  -- What the invariant says of an old table's entry, in the grown state.
  grown_links_old :
      (r j : ℕ)
      → r ≢ n
      → 2 ≤ height r
      → j < 512
      → (r ≢ p) ⊎ (j ≢ i)
      → is_present (entry grown.mem r j) ≡ true
      → (suc (height' (get_address (entry grown.mem r j))) ≡ height' r)
        × (parent' (get_address (entry grown.mem r j)) ≡ r * 512 + j)
  grown_links_old r j r_old tall j_fits other there =
      let same =
        New.entry_same height parent k paged p i n inner i_fits absent free given marked r j
          (omega arith) j_fits other in
      let (up, from) = paged.links r j tall j_fits (rw same at there) in
      let child_old =
        New.table_ne_new height parent k paged p i n inner i_fits absent free given marked
          (get_address (entry k.mem r j)) (omega arith) in
      rw same (ground (arith, up, from), ground (arith, up, from))

  grown_links :
      (r j : ℕ)
      → 2 ≤ height' r
      → j < 512
      → is_present (entry grown.mem r j) ≡ true
      → (suc (height' (get_address (entry grown.mem r j))) ≡ height' r)
        × (parent' (get_address (entry grown.mem r j)) ≡ r * 512 + j)
  grown_links r j tall j_fits there = elim (Bool-cases (n == r)) [
    | inl fresh ↦
        let e : r ≡ n = ground arith in
        let none_there =
          New.new_absent height parent k paged p i n inner i_fits absent free given marked j
            j_fits in
        absurd (ground (arith, none_there, ap (λ t. is_present (entry grown.mem t j)) e))
    | inr old ↦ elim (Bool-cases ((r == p) && (j == i))) [
      | inl here ↦
          let r_p : r ≡ p = ground arith in
          let j_i : j ≡ i = ground arith in
          let to_new =
            New.entered_address height parent k paged p i n inner i_fits absent free given marked in
          rw (r_p, j_i, to_new) (ground arith, ground arith)
      | inr other ↦ grown_links_old r j (ground arith) (ground arith) j_fits (ground arith) there
    ]
  ]

  -- The new table has the height below its parent's, and hangs on the entry that was made.
  pub grown-IsPaged : IsPaged height' parent' grown
  grown-IsPaged = record {
    size_fits = rw grown-page_bitmap paged.size_fits;
    bytes = grown-IsBytes;
    scanned = grown-IsScanned;
    locked = λ r t. ground (arith, page_locked-grown r, paged.locked r);
    apart = λ r t. rw grown-page_bitmap (elim (Bool-cases (n == r)) [
      | inl fresh ↦ let e : r ≡ n = ground arith in rw e (paged.spare n free.0 free.1)
      | inr old ↦ paged.apart r (ground arith)
    ]);
    spare = λ r below clear.
        rw grown-page_bitmap
          (paged.spare r (rw grown-page_bitmap at below) (ground (arith, page_locked-grown r)));
    links = grown_links;
  }

  pub grown-spare_pages : spare_pages k ≡ spare_pages grown + 1
  unfolding spare_pages
  grown-spare_pages =
      let clear_after : ℕ → Bool = λ j. not (page_locked grown j) in
      let counted =
        count_below_clear (λ j. not (page_locked k j)) clear_after n k.page_bitmap.size
          (λ j. ground (arith, page_locked-grown j)) free.0 in
      let size : grown.page_bitmap.size ≡ k.page_bitmap.size = ap (λ b. b.size) grown-page_bitmap in
      ground (arith, counted, free.1, ap (count_below clear_after) size)
