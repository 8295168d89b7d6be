-- ===== src/Paging/Tables/Elsewhere.antt =====
-- Memory that is neither a page table's nor the bitmap's does not matter to the page tables.
use eta_os.Base.{
  ℕ, zero, suc, ◌+◌, ◌*◌, ◌/◌, ◌≤◌, ◌<◌, ◌≡◌, sym, ap, ◌∙◌, ◌≢◌, inl, inr, not, arith, Bool-cases,
}
use eta_os.Memory.{Mem}
use eta_os.Frames.{Kernel, page_locked}
use eta_os.Bitmap.Laws.{get_same}
use eta_os.Paging.{get_address, entry_at}
use eta_os.Memory.Words.{IsBytes, load64_same}
use eta_os.Paging.Tables.{entry, is_present, index_at, walk, spare_pages, IsPaged}
use eta_os.Paging.Tables.Next.{index_at-lt}
use eta_os.Paging.Tables.Frame.{page_locked-le}
use eta_os.Frames.Count.{count_below_same}

module _ (height parent : ℕ → ℕ) (k : Kernel) (m : Mem) (paged : IsPaged height parent k)
    (bytes : IsBytes m) (low : (x : ℕ) → x < (k.page_bitmap.size * 8 + 1) * 4096 → m x ≡ k.mem x)
    (kept : (x : ℕ)
      → k.page_bitmap.buffer ≤ x
      → x ≤ k.page_bitmap.buffer + k.page_bitmap.size
      → m x ≡ k.mem x) where
  abbrev pub elsewhere : Kernel
  elsewhere = record k { mem = m }

  entry-elsewhere : (r j : ℕ) → height r ≢ 0 → j < 512 → entry elsewhere.mem r j ≡ entry k.mem r j
  entry-elsewhere r j t j_fits =
      let bit = page_locked-le k r paged.size_fits (paged.locked r t) in
      load64_same {m = k.mem} {m' = m} (entry_at (r * 4096) j) λ x lo hi. low x (omega arith)

  pub walk-elsewhere : (l r v : ℕ) → height r ≡ suc l → walk elsewhere.mem l r v ≡ walk k.mem l r v
  unfolding walk
  walk-elsewhere zero r v h = rw (entry-elsewhere r (index_at 0 v) (omega arith) (index_at-lt 0 v))
  walk-elsewhere (suc l) r v h =
      let j = index_at (suc l) v in
      rw (entry-elsewhere r j (omega arith) (index_at-lt (suc l) v))
        (elim (Bool-cases (is_present (entry k.mem r j))) [
          | inl there ↦
              let up = (paged.links r j (omega arith) (index_at-lt (suc l) v) there).0 in
              rw there (walk-elsewhere l (get_address (entry k.mem r j)) v (omega arith))
          | inr missing ↦ rw missing
        ])

  pub page_locked-elsewhere : (j : ℕ) → page_locked elsewhere j ≡ page_locked k j
  page_locked-elsewhere j = get_same k.page_bitmap k.mem m j λ l.
      let small = paged.size_fits in kept (k.page_bitmap.buffer + j / 8) (omega arith) (omega arith)

  pub elsewhere-IsPaged : IsPaged height parent elsewhere
  elsewhere-IsPaged = record {
    size_fits = paged.size_fits;
    bytes = bytes;
    scanned = λ j l. page_locked-elsewhere j ∙ paged.scanned j l;
    locked = λ r h. page_locked-elsewhere r ∙ paged.locked r h;
    apart = paged.apart;
    spare = λ r below clear. paged.spare r below (sym (page_locked-elsewhere r) ∙ clear);
    links = λ r j tall j_fits there.
        let same = entry-elsewhere r j (omega arith) j_fits in
        rw same (paged.links r j tall j_fits (rw same at there));
  }

  pub spare_pages-elsewhere : spare_pages elsewhere ≡ spare_pages k
  unfolding spare_pages
  spare_pages-elsewhere =
      count_below_same (λ j. not (page_locked k j)) (λ j. not (page_locked elsewhere j))
        k.page_bitmap.size λ j l. ap not (page_locked-elsewhere j)
