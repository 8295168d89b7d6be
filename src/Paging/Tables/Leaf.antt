-- ===== src/Paging/Tables/Leaf.antt =====
-- The last write of `map_mem`: the entry of the page itself.
use eta_os.Base.{ℕ, ◌+◌, ◌*◌, ◌/◌, ◌<◌, ◌≡◌, refl, sym, ap, ◌∙◌, ◌≢◌, ◌⊎◌, inl, not, arith}
use eta_os.Frames.{Kernel, page_locked}
use eta_os.Paging.{entry_at, filled, enter_page}
use eta_os.Paging.Tables.{entry, spare_pages, IsPaged}
use eta_os.Frames.Count.{count_below_same}
use eta_os.Paging.Tables.Grow.{bitmap_byte_off}
use eta_os.Memory.Words.{
  store64-IsBytes, store64_outside, load64-store64, load64-store64_other, load64-lt,
}
use eta_os.Bitmap.Laws.{get_same}
use eta_os.Paging.Entry.{filled-lt}
use eta_os.Paging.Tables.Frame.{KeepsPlain, IsFramed, page_locked-le}

module _ (height parent : ℕ → ℕ) (k : Kernel) (paged : IsPaged height parent k) (t i phys : ℕ)
    (leaf : height t ≡ 1) (i_fits : i < 512) where
  abbrev pub entered : Kernel
  entered = enter_page k (t * 4096) i phys

  pub leaf_same : (r j : ℕ) → j < 512 → (r ≢ t) ⊎ (j ≢ i) → entry entered.mem r j ≡ entry k.mem r j
  unfolding enter_page
  leaf_same r j j_fits other =
      let fits = i_fits in
      load64-store64_other k.mem (entry_at (t * 4096) i) (entry_at (r * 4096) j) _ (omega arith)

  pub leaf_entered : entry entered.mem t i ≡ filled (entry k.mem t i) phys
  unfolding enter_page
  leaf_entered =
      load64-store64 k.mem (entry_at (t * 4096) i) _
        (filled-lt _ phys (load64-lt k.mem (entry_at (t * 4096) i) paged.bytes))

  pub page_locked-entered : (j : ℕ) → page_locked entered j ≡ page_locked k j
  unfolding enter_page
  page_locked-entered j =
      let small = paged.size_fits in
      let fits = i_fits in
      get_same k.page_bitmap k.mem entered.mem j λ l.
        let off =
          bitmap_byte_off k t (k.page_bitmap.buffer + j / 8)
            (paged.apart t (let h = leaf in omega arith)) (omega arith) (omega arith) in
        store64_outside k.mem (entry_at (t * 4096) i) _ (k.page_bitmap.buffer + j / 8) (omega arith)

  pub entered-IsPaged : IsPaged height parent entered
  unfolding enter_page
  entered-IsPaged = record {
    size_fits = paged.size_fits;
    bytes = store64-IsBytes (entry_at (t * 4096) i) _ paged.bytes;
    scanned = λ j l. page_locked-entered j ∙ paged.scanned j l;
    locked = λ r h. page_locked-entered r ∙ paged.locked r h;
    apart = paged.apart;
    spare = λ r below clear. paged.spare r below (sym (page_locked-entered r) ∙ clear);
    links = λ r j tall j_fits there.
        let same = leaf_same r j j_fits (inl λ e. omega (arith, ap height e)) in
        rw same (paged.links r j tall j_fits (rw same at there));
  }

  pub spare_pages-entered : spare_pages entered ≡ spare_pages k
  unfolding spare_pages enter_page
  spare_pages-entered =
      count_below_same (λ j. not (page_locked k j)) (λ j. not (page_locked entered j))
        k.page_bitmap.size λ j l. ap not (page_locked-entered j)

  pub IsFramed-entered : IsFramed k entered
  unfolding enter_page
  IsFramed-entered =
      let small = paged.size_fits in
      let fits = i_fits in
      let bit = page_locked-le k t small (paged.locked t (let h = leaf in omega arith)) in
      record {
        bitmap = refl;
        beyond = λ x (out, far). store64_outside k.mem (entry_at (t * 4096) i) _ x (omega arith);
      }

  pub entered-KeepsPlain : KeepsPlain height k entered
  unfolding enter_page
  entered-KeepsPlain x held low out =
      let fits = i_fits in
      let not_table : x / 4096 ≢ t = λ e. omega (arith, leaf, low, ap height e) in
      store64_outside k.mem (entry_at (t * 4096) i) _ x (omega arith)
