-- ===== src/Frames/Ledger.antt =====
-- The memory counters of the allocator and the pages that are locked agree.
use eta_os.Base.{
  ℕ, ◌+◌, ◌*◌, ◌/◌, ◌^◌, ◌<◌, ◌≡◌, inl, inr, true, false, not, ◌&&◌, ◌||◌, arith, if◌then◌else◌,
  Bool-cases, u64,
}
use eta_os.Bitmap.{in_range}
use eta_os.Frames.{
  Kernel, page_locked, lock_page, reserve_page, free_page, unreserve_page, request_page,
}
use eta_os.Frames.Pages.{
  is_page, page_locked-lock_page, page_locked-reserve_page, page_locked-free_page,
  page_locked-unreserve_page,
}
use eta_os.Frames.Count.{count_below, count_below_same, count_below_mark, count_below_clear}
use eta_os.Bitmap.Laws.{set-in_range}
use eta_os.Frames.Scan.{request_page-keeps}

-- The indices that the bitmap accepts.
abbrev pub page_indices : Kernel → ℕ
page_indices s = s.page_bitmap.size * 8 + 1

unfoldable pub locked_pages : Kernel → ℕ
locked_pages s = count_below (page_locked s) (page_indices s)

-- `total` bytes are divided between the three counters, and those that are not free are
-- 4096 for each locked page. The counters are 64-bit words, so both hold modulo 2 ^ 64.
pub record IsLedger (total : ℕ) (s : Kernel) : Type 0 where
  pub size_fits : s.page_bitmap.size < 2 ^ 49
  pub balance : u64 (s.free_memory + s.reserved_memory + s.used_memory) ≡ u64 total
  pub locked : u64 (s.reserved_memory + s.used_memory) ≡ u64 (4096 * locked_pages s)

-- Of a state with one more page marked, the number of locked pages.
locked_pages-mark :
    (s s' : Kernel) (addr : ℕ)
    → s.page_bitmap.size < 2 ^ 49
    → s'.page_bitmap ≡ s.page_bitmap
    → ((j : ℕ) → page_locked s' j ≡ (page_locked s j || is_page s addr j))
    → locked_pages s'
      ≡ locked_pages s
        + (if in_range s.page_bitmap (addr / 4096) && not (page_locked s (addr / 4096))
            then 1
            else 0)
unfolding locked_pages
locked_pages-mark s s' addr fits same h = elim (Bool-cases (in_range s.page_bitmap (addr / 4096))) [
  | inl inside ↦
      let shape =
        count_below_mark (page_locked s) (page_locked s') (addr / 4096) (page_indices s)
          (λ j. ground (arith, h j)) (ground arith) in
      rw same (ground (arith, shape))
  | inr outside ↦
      let shape =
        count_below_same (page_locked s) (page_locked s') (page_indices s)
          (λ j l. ground (arith, h j)) in
      rw same (ground (arith, shape))
]

-- Of a state with one page fewer marked.
locked_pages-clear :
    (s s' : Kernel) (addr : ℕ)
    → s.page_bitmap.size < 2 ^ 49
    → s'.page_bitmap ≡ s.page_bitmap
    → ((j : ℕ) → page_locked s' j ≡ (page_locked s j && not (is_page s addr j)))
    → locked_pages s
      ≡ locked_pages s'
        + (if in_range s.page_bitmap (addr / 4096) && page_locked s (addr / 4096) then 1 else 0)
unfolding locked_pages
locked_pages-clear s s' addr fits same h =
    elim (Bool-cases (in_range s.page_bitmap (addr / 4096))) [
      | inl inside ↦
          let shape =
            count_below_clear (page_locked s) (page_locked s') (addr / 4096) (page_indices s)
              (λ j. ground (arith, h j)) (ground arith) in
          rw same (ground (arith, shape))
      | inr outside ↦
          let shape =
            count_below_same (page_locked s) (page_locked s') (page_indices s)
              (λ j l. ground (arith, h j)) in
          rw same (ground (arith, shape))
    ]

module _ (s : Kernel) (addr : ℕ) where
  pub lock_page-page_bitmap : (lock_page s addr).page_bitmap ≡ s.page_bitmap
  unfolding lock_page
  lock_page-page_bitmap = ground arith

  pub reserve_page-page_bitmap : (reserve_page s addr).page_bitmap ≡ s.page_bitmap
  unfolding reserve_page
  reserve_page-page_bitmap = ground arith

  pub free_page-page_bitmap : (free_page s addr).page_bitmap ≡ s.page_bitmap
  unfolding free_page
  free_page-page_bitmap = ground arith

  pub unreserve_page-page_bitmap : (unreserve_page s addr).page_bitmap ≡ s.page_bitmap
  unfolding unreserve_page
  unreserve_page-page_bitmap = ground arith

module _ {total : ℕ} {s : Kernel} (addr : ℕ) (l : IsLedger total s) where
  pub lock_page-IsLedger : IsLedger total (lock_page s addr)
  unfolding lock_page
  lock_page-IsLedger =
      let counted =
        locked_pages-mark s (lock_page s addr) addr l.size_fits (lock_page-page_bitmap s addr)
          (page_locked-lock_page s addr) in
      ground (arith, set-in_range s.page_bitmap s.mem (addr / 4096) true)

  pub reserve_page-IsLedger : IsLedger total (reserve_page s addr)
  unfolding reserve_page
  reserve_page-IsLedger =
      let counted =
        locked_pages-mark s (reserve_page s addr) addr l.size_fits (reserve_page-page_bitmap s addr)
          (page_locked-reserve_page s addr) in
      ground (arith, set-in_range s.page_bitmap s.mem (addr / 4096) true)

  pub free_page-IsLedger : IsLedger total (free_page s addr)
  unfolding free_page
  free_page-IsLedger =
      let counted =
        locked_pages-clear s (free_page s addr) addr l.size_fits (free_page-page_bitmap s addr)
          (page_locked-free_page s addr) in
      ground (arith, set-in_range s.page_bitmap s.mem (addr / 4096) false)

  pub unreserve_page-IsLedger : IsLedger total (unreserve_page s addr)
  unfolding unreserve_page
  unreserve_page-IsLedger =
      let counted =
        locked_pages-clear s (unreserve_page s addr) addr l.size_fits
          (unreserve_page-page_bitmap s addr) (page_locked-unreserve_page s addr) in
      ground (arith, set-in_range s.page_bitmap s.mem (addr / 4096) false)

IsLedger-index :
    {total : ℕ} (s : Kernel) (i : ℕ)
    → IsLedger total s
    → IsLedger total (record s { page_bitmap_index = i })
unfolding locked_pages
IsLedger-index s i l = record { size_fits = l.size_fits; balance = l.balance; locked = l.locked }

pub request_page-IsLedger :
    {total : ℕ} {s : Kernel} → IsLedger total s → IsLedger total (request_page s).0
request_page-IsLedger {total} {s} l =
    request_page-keeps (IsLedger total) IsLedger-index (λ s addr l. lock_page-IsLedger addr l) s l
