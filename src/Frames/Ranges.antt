-- ===== src/Frames/Ranges.antt =====
-- The operations on a range of pages.
use eta_os.Base.{
  ℕ, zero, suc, ◌+◌, ◌-◌, ◌*◌, ◌/◌, ◌^◌, ◌≤◌, ◌<◌, ◌≡◌, refl, ◌∙◌, Bool, true, false, not, ◌&&◌,
  ◌||◌, arith, ltb, leb, u64,
}
use eta_os.Bitmap.{in_range}
use eta_os.Frames.{
  Kernel, page_locked, lock_page, reserve_page, free_page, unreserve_page, int_offset,
  for_pages_from, lock_pages, reserve_pages, free_pages, unreserve_pages,
}
use eta_os.Frames.Pages.{
  is_page, page_locked-lock_page, page_locked-reserve_page, page_locked-free_page,
  page_locked-unreserve_page,
}
use eta_os.Frames.Ledger.{
  lock_page-page_bitmap, reserve_page-page_bitmap, free_page-page_bitmap,
  unreserve_page-page_bitmap,
}

-- Page `j` is one of the `n` from the page of `addr` on.
abbrev pub among : ℕ → ℕ → ℕ → Bool
among addr n j = leb (addr / 4096) j && ltb j (addr / 4096 + n)

-- Below 2 ^ 19 rounds, `i * 4096` fits an `int`.
int_offset-exact : (i : ℕ) → i < 2 ^ 19 → int_offset i ≡ i * 4096
int_offset-exact i h = ground arith

-- The page of the address that round `i` works on.
pub round_page :
    (addr i : ℕ)
    → i < 2 ^ 19
    → addr + (i + 1) * 4096 ≤ 2 ^ 64
    → u64 (addr + int_offset i) / 4096 ≡ addr / 4096 + i
round_page addr i h fits = rw (int_offset-exact i h) (omega arith)

-- A property of the state that each round keeps.
pub for_pages_keeps :
    (P : Kernel → Type 0) (op : Kernel → ℕ → Kernel)
    → ((s : Kernel) (addr : ℕ) → P s → P (op s addr))
    → (left i addr : ℕ) (s : Kernel) → P s
    → P (for_pages_from op left i addr s)
unfolding for_pages_from
for_pages_keeps P op keep zero i addr s h = h
for_pages_keeps P op keep (suc left) i addr s h =
    for_pages_keeps P op keep left (i + 1) addr (op s (u64 (addr + int_offset i)))
      (keep s (u64 (addr + int_offset i)) h)

module _ (op : Kernel → ℕ → Kernel)
    (same : (s : Kernel) (addr : ℕ) → (op s addr).page_bitmap ≡ s.page_bitmap) where
  for_pages-page_bitmap :
      (left i addr : ℕ) (s : Kernel) → (for_pages_from op left i addr s).page_bitmap ≡ s.page_bitmap
  unfolding for_pages_from
  for_pages-page_bitmap zero i addr s = refl
  for_pages-page_bitmap (suc left) i addr s =
      for_pages-page_bitmap left (i + 1) addr (op s (u64 (addr + int_offset i)))
      ∙ same s (u64 (addr + int_offset i))

  -- For an operation that marks its page, a range marks its pages.
  for_pages-mark :
      ((s : Kernel) (addr j : ℕ)
        → page_locked (op s addr) j ≡ (page_locked s j || is_page s addr j))
      → (left i addr j : ℕ) (s : Kernel) → i + left ≤ 2 ^ 19
      → addr + (i + left) * 4096 ≤ 2 ^ 64
      → page_locked (for_pages_from op left i addr s) j
        ≡ (page_locked s j || (in_range s.page_bitmap j && among (addr + i * 4096) left j))
  unfolding for_pages_from
  for_pages-mark mark zero i addr j s few fits = ground arith
  for_pages-mark mark (suc left) i addr j s few fits =
      let at = u64 (addr + int_offset i) in
      for_pages-mark mark left (i + 1) addr j (op s at) (omega arith) (omega arith)
      ∙ ground (arith, mark s at j, same s at, round_page addr i (omega arith) (omega arith))

  -- For one that clears its page, a range clears its pages.
  for_pages-clear :
      ((s : Kernel) (addr j : ℕ)
        → page_locked (op s addr) j ≡ (page_locked s j && not (is_page s addr j)))
      → (left i addr j : ℕ) (s : Kernel) → i + left ≤ 2 ^ 19
      → addr + (i + left) * 4096 ≤ 2 ^ 64
      → page_locked (for_pages_from op left i addr s) j
        ≡ (page_locked s j && not (in_range s.page_bitmap j && among (addr + i * 4096) left j))
  unfolding for_pages_from
  for_pages-clear clear zero i addr j s few fits = ground arith
  for_pages-clear clear (suc left) i addr j s few fits =
      let at = u64 (addr + int_offset i) in
      for_pages-clear clear left (i + 1) addr j (op s at) (omega arith) (omega arith)
      ∙ ground (arith, clear s at j, same s at, round_page addr i (omega arith) (omega arith))

-- Reserving a range marks exactly its pages.
pub reserve_pages-among :
    (s : Kernel) (addr n j : ℕ)
    → n ≤ 2 ^ 19
    → addr + n * 4096 ≤ 2 ^ 64
    → page_locked (reserve_pages s addr n) j
      ≡ (page_locked s j || (in_range s.page_bitmap j && among addr n j))
unfolding reserve_pages
reserve_pages-among s addr n j few fits =
    for_pages-mark reserve_page reserve_page-page_bitmap page_locked-reserve_page n 0 addr j s
      (omega arith) (omega arith)
    ∙ ground arith

-- lock_pages on at most 2^19 pages that end in the address space marks exactly the pages of the
-- range that the bitmap accepts.
pub lock_pages-among :
    (s : Kernel) (addr n j : ℕ)
    → n ≤ 2 ^ 19
    → addr + n * 4096 ≤ 2 ^ 64
    → page_locked (lock_pages s addr n) j
      ≡ (page_locked s j || (in_range s.page_bitmap j && among addr n j))
unfolding lock_pages
lock_pages-among s addr n j few fits =
    for_pages-mark lock_page lock_page-page_bitmap page_locked-lock_page n 0 addr j s (omega arith)
      (omega arith)
    ∙ ground arith

pub free_pages-among :
    (s : Kernel) (addr n j : ℕ)
    → n ≤ 2 ^ 19
    → addr + n * 4096 ≤ 2 ^ 64
    → page_locked (free_pages s addr n) j
      ≡ (page_locked s j && not (in_range s.page_bitmap j && among addr n j))
unfolding free_pages
free_pages-among s addr n j few fits =
    for_pages-clear free_page free_page-page_bitmap page_locked-free_page n 0 addr j s (omega arith)
      (omega arith)
    ∙ ground arith

pub unreserve_pages-among :
    (s : Kernel) (addr n j : ℕ)
    → n ≤ 2 ^ 19
    → addr + n * 4096 ≤ 2 ^ 64
    → page_locked (unreserve_pages s addr n) j
      ≡ (page_locked s j && not (in_range s.page_bitmap j && among addr n j))
unfolding unreserve_pages
unreserve_pages-among s addr n j few fits =
    for_pages-clear unreserve_page unreserve_page-page_bitmap page_locked-unreserve_page n 0 addr j
      s (omega arith) (omega arith)
    ∙ ground arith

pub lock_pages-page_bitmap :
    (s : Kernel) (addr n : ℕ) → (lock_pages s addr n).page_bitmap ≡ s.page_bitmap
unfolding lock_pages
lock_pages-page_bitmap s addr n = for_pages-page_bitmap lock_page lock_page-page_bitmap n 0 addr s

pub reserve_pages-page_bitmap :
    (s : Kernel) (addr n : ℕ) → (reserve_pages s addr n).page_bitmap ≡ s.page_bitmap
unfolding reserve_pages
reserve_pages-page_bitmap s addr n =
    for_pages-page_bitmap reserve_page reserve_page-page_bitmap n 0 addr s

pub unreserve_pages-page_bitmap :
    (s : Kernel) (addr n : ℕ) → (unreserve_pages s addr n).page_bitmap ≡ s.page_bitmap
unfolding unreserve_pages
unreserve_pages-page_bitmap s addr n =
    for_pages-page_bitmap unreserve_page unreserve_page-page_bitmap n 0 addr s

-- Locking a range of at most 2^19 free pages that ends in the address space and then freeing it
-- leaves each page as it was.
pub free_pages-lock_pages :
    (s : Kernel) (addr n : ℕ)
    → n ≤ 2 ^ 19
    → addr + n * 4096 ≤ 2 ^ 64
    → ((j : ℕ) → among addr n j ≡ true → page_locked s j ≡ false)
    → (j : ℕ) → page_locked (free_pages (lock_pages s addr n) addr n) j ≡ page_locked s j
free_pages-lock_pages s addr n few fits clear j = ground (
  arith,
  free_pages-among (lock_pages s addr n) addr n j few fits,
  lock_pages-among s addr n j few fits,
  lock_pages-page_bitmap s addr n,
  clear j,
)

-- From round 2^19 to round 2^20, the product i * 4096 of the page loops overflows int, and the
-- round works on an address that is 2^32 bytes too low.
pub int_offset_wraps :
    (addr i : ℕ)
    → 2 ^ 19 ≤ i
    → i < 2 ^ 20
    → u64 (addr + int_offset i) ≡ u64 (addr + i * 4096 + (2 ^ 64 - 2 ^ 32))
int_offset_wraps addr i lo hi = ground arith
