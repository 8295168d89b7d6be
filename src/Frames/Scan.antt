-- ===== src/Frames/Scan.antt =====
-- The search of `request_page` for a free page, and the index where the search starts.
use eta_os.Base.{
  ℕ, zero, suc, ◌+◌, ◌-◌, ◌*◌, ◌/◌, ◌^◌, ◌<◌, ◌≡◌, refl, ◌⊎◌, inl, inr, true, false, ◌&&◌, ◌||◌,
  arith, ◌==◌, if◌then◌else◌, Bool-cases, u64,
}
use eta_os.Bitmap.{in_range}
use eta_os.Bitmap.Laws.{set-in_range}
use eta_os.Frames.{
  Kernel, page_locked, lock_page, reserve_page, scan_from, free_page, unreserve_page, request_scan,
  request_page,
}
use eta_os.Frames.Pages.{
  page_locked-lock_page, page_locked-reserve_page, page_locked-free_page,
  page_locked-unreserve_page,
}

-- Every page below `page_bitmap_index` is locked, so no free page is passed over.
abbrev pub IsScanned : Kernel → Type 0
IsScanned s = (i : ℕ) → i < s.page_bitmap_index → page_locked s i ≡ true

module _ (s : Kernel) (addr : ℕ) (scanned : IsScanned s) where
  pub lock_page-IsScanned : IsScanned (lock_page s addr)
  lock_page-IsScanned i l =
      ground (arith, page_locked-lock_page s addr i, scanned i (unfold lock_page in ground arith))

  pub reserve_page-IsScanned : IsScanned (reserve_page s addr)
  reserve_page-IsScanned i l =
      ground
        (arith, page_locked-reserve_page s addr i, scanned i (unfold reserve_page in ground arith))

free_page-index :
    (s : Kernel) (addr : ℕ)
    → (free_page s addr).page_bitmap_index ≡ (
        if page_locked s (addr / 4096) && in_range s.page_bitmap (addr / 4096)
        then scan_from s.page_bitmap_index (addr / 4096)
        else s.page_bitmap_index)
unfolding free_page
free_page-index s addr = ground (arith, set-in_range s.page_bitmap s.mem (addr / 4096) false)

unreserve_page-index :
    (s : Kernel) (addr : ℕ)
    → (unreserve_page s addr).page_bitmap_index ≡ (
        if page_locked s (addr / 4096) && in_range s.page_bitmap (addr / 4096)
        then scan_from s.page_bitmap_index (addr / 4096)
        else s.page_bitmap_index)
unfolding unreserve_page
unreserve_page-index s addr = ground (arith, set-in_range s.page_bitmap s.mem (addr / 4096) false)

module _ (s : Kernel) (addr : ℕ) (scanned : IsScanned s) where
  pub free_page-IsScanned : IsScanned (free_page s addr)
  free_page-IsScanned i l =
      ground (arith, free_page-index s addr, page_locked-free_page s addr i, scanned i)

  pub unreserve_page-IsScanned : IsScanned (unreserve_page s addr)
  unreserve_page-IsScanned i l =
      ground (arith, unreserve_page-index s addr, page_locked-unreserve_page s addr i, scanned i)

-- `i` is the lowest page that is free, among those that `request_page` looks at.
abbrev pub IsFirstFree : Kernel → ℕ → Type 0
IsFirstFree s i =
    (i < s.page_bitmap.size)
    × (page_locked s i ≡ false)
    × ((j : ℕ) → j < i → page_locked s j ≡ true)

-- The address of the lowest free page, which is locked now and is the only one that changed; or
-- NULL, with no free page to be found and none changed.
abbrev pub Requested : Kernel → Kernel × ℕ → Type 0
Requested s (s', addr) =
    ((i : ℕ) × IsFirstFree s i
      × (addr ≡ i * 4096)
      × ((j : ℕ) → page_locked s' j ≡ (page_locked s j || (i == j))))
    ⊎ (((j : ℕ) → j < s.page_bitmap.size → page_locked s j ≡ true)
        × (addr ≡ 0)
        × ((j : ℕ) → page_locked s' j ≡ page_locked s j))

request_scan-Requested :
    (left : ℕ) (s : Kernel)
    → left ≡ s.page_bitmap.size - s.page_bitmap_index
    → s.page_bitmap.size < 2 ^ 49
    → IsScanned s
    → Requested s (request_scan left s)
unfolding request_scan
request_scan-Requested zero s e fits scanned = inr (λ j l. scanned j (omega arith), refl, λ j. refl)
request_scan-Requested (suc left) s e fits scanned =
    elim (Bool-cases (page_locked s s.page_bitmap_index)) [
      | inl taken ↦ rw taken (
          request_scan-Requested left (record s { page_bitmap_index = s.page_bitmap_index + 1 })
            (omega arith) fits
            (λ i l. elim (Bool-cases (i == s.page_bitmap_index)) [
              | inl here ↦ let e : i ≡ s.page_bitmap_index = ground arith in rw e taken
              | inr before ↦ scanned i (ground arith)
            ]))
      | inr spare ↦ rw spare (
          inl (
            s.page_bitmap_index,
            (omega arith, spare, scanned),
            omega arith,
            λ j. ground (arith, page_locked-lock_page s (u64 (s.page_bitmap_index * 4096)) j),
          ))
    ]

-- With a bitmap of less than 2 ^ 49 bytes, if every page below the search index is locked,
-- request_page gives out the lowest free page below page_bitmap.size, locks it and changes no
-- other page; it gives NULL, and changes no page, only if all of those pages are locked.
pub request_page-Requested :
    (s : Kernel) → s.page_bitmap.size < 2 ^ 49 → IsScanned s → Requested s (request_page s)
unfolding request_page
request_page-Requested s fits scanned =
    request_scan-Requested (s.page_bitmap.size - s.page_bitmap_index) s refl fits scanned

-- A property that the index does not matter for, and that locking a page keeps.
request_scan_keeps :
    (P : Kernel → Type 0)
    → ((s : Kernel) (i : ℕ) → P s → P (record s { page_bitmap_index = i }))
    → ((s : Kernel) (addr : ℕ) → P s → P (lock_page s addr))
    → (left : ℕ) (s : Kernel) → P s
    → P (request_scan left s).0
unfolding request_scan
request_scan_keeps P move lock zero s h = h
request_scan_keeps P move lock (suc left) s h =
    elim (Bool-cases (page_locked s s.page_bitmap_index)) [
      | inl taken ↦ rw taken (
          request_scan_keeps P move lock left
            (record s { page_bitmap_index = s.page_bitmap_index + 1 })
            (move s (s.page_bitmap_index + 1) h))
      | inr spare ↦ rw spare (lock s (u64 (s.page_bitmap_index * 4096)) h)
    ]

pub request_page-keeps :
    (P : Kernel → Type 0)
    → ((s : Kernel) (i : ℕ) → P s → P (record s { page_bitmap_index = i }))
    → ((s : Kernel) (addr : ℕ) → P s → P (lock_page s addr))
    → (s : Kernel) → P s
    → P (request_page s).0
unfolding request_page
request_page-keeps P move lock s h =
    request_scan_keeps P move lock (s.page_bitmap.size - s.page_bitmap_index) s h

request_scan-IsScanned : (left : ℕ) (s : Kernel) → IsScanned s → IsScanned (request_scan left s).0
unfolding request_scan
request_scan-IsScanned zero s scanned = scanned
request_scan-IsScanned (suc left) s scanned =
    elim (Bool-cases (page_locked s s.page_bitmap_index)) [
      | inl taken ↦ rw taken (
          request_scan-IsScanned left (record s { page_bitmap_index = s.page_bitmap_index + 1 })
            (λ i l. elim (Bool-cases (i == s.page_bitmap_index)) [
              | inl here ↦ let e : i ≡ s.page_bitmap_index = ground arith in rw e taken
              | inr before ↦ scanned i (ground arith)
            ]))
      | inr spare ↦ rw spare (lock_page-IsScanned s (u64 (s.page_bitmap_index * 4096)) scanned)
    ]

pub request_page-IsScanned : (s : Kernel) → IsScanned s → IsScanned (request_page s).0
unfolding request_page
request_page-IsScanned s = request_scan-IsScanned (s.page_bitmap.size - s.page_bitmap_index) s
