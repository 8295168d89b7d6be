-- ===== src/Paging/Tables/Request.antt =====
-- What `request_page` means for the page tables.
use eta_os.Base.{ℕ, ◌+◌, ◌*◌, ◌/◌, ◌^◌, ◌<◌, ◌≡◌, refl, ◌∙◌, inl, inr, true, not, ◌||◌, arith, ◌==◌}
use eta_os.Frames.{Kernel, page_locked, lock_page, request_page}
use eta_os.Frames.Scan.{IsScanned, IsFirstFree, request_page-Requested, request_page-keeps}
use eta_os.Paging.Tables.{spare_pages}
use eta_os.Frames.Boot.Writes.{Keeps, Outside, lock_page-Keeps}
use eta_os.Memory.Words.{IsBytes}
use eta_os.Frames.Count.{count_below_clear, count_below_none}
use eta_os.Frames.Ledger.{lock_page-page_bitmap}
use eta_os.Bitmap.Laws.{set-IsBytes}

-- Outside its bitmap a request changes no memory, nor the bitmap's place.
pub request_page-Keeps :
    (k : Kernel) (x : ℕ)
    → k.page_bitmap.size < 2 ^ 49
    → Outside k.page_bitmap x
    → Keeps k.page_bitmap x (k.mem x) (request_page k).0
request_page-Keeps k x small out =
    request_page-keeps (Keeps k.page_bitmap x (k.mem x)) (λ s i h. h)
      (lock_page-Keeps k.page_bitmap x (k.mem x) small out) k (refl, refl)

pub request_page-page_bitmap : (k : Kernel) → (request_page k).0.page_bitmap ≡ k.page_bitmap
request_page-page_bitmap k =
    request_page-keeps (λ s. s.page_bitmap ≡ k.page_bitmap) (λ s i h. h)
      (λ s addr h. lock_page-page_bitmap s addr ∙ h) k refl

pub request_page-IsBytes : (k : Kernel) → IsBytes k.mem → IsBytes (request_page k).0.mem
request_page-IsBytes k h =
    request_page-keeps (λ s. IsBytes s.mem) (λ s i b. b) lock_page-IsBytes k h
  where
    lock_page-IsBytes : (s : Kernel) (addr : ℕ) → IsBytes s.mem → IsBytes (lock_page s addr).mem
    lock_page-IsBytes s addr b x =
        unfold lock_page in
        ground (arith, b x, set-IsBytes s.page_bitmap s.mem (addr / 4096) true b x)

-- With a page to spare, a request gives one out.
pub request_page-found :
    (k : Kernel)
    → k.page_bitmap.size < 2 ^ 49
    → IsScanned k
    → 0 < spare_pages k
    → (n : ℕ) × IsFirstFree k n
      × ((request_page k).1 ≡ n * 4096)
      × ((j : ℕ) → page_locked (request_page k).0 j ≡ (page_locked k j || (n == j)))
unfolding spare_pages
request_page-found k small scanned some_left = elim (request_page-Requested k small scanned) [
  | inl found ↦ found
  | inr (full, _, _) ↦ absurd (
      omega (
        arith,
        count_below_none (λ j. not (page_locked k j)) k.page_bitmap.size
            (λ j l. ground (arith, full j l)),
      ))
]

-- It takes one of the spare pages.
pub request_page-spare_pages :
    (k : Kernel)
    → k.page_bitmap.size < 2 ^ 49
    → IsScanned k
    → 0 < spare_pages k
    → spare_pages k ≡ spare_pages (request_page k).0 + 1
request_page-spare_pages k small scanned some_left =
    let (n, (below, clear, _), _, marked) = request_page-found k small scanned some_left in
    let counted =
      count_below_clear (λ j. not (page_locked k j)) (λ j. not (page_locked (request_page k).0 j)) n
        k.page_bitmap.size (λ j. ground (arith, marked j)) below in
    unfold spare_pages in ground (arith, counted, request_page-page_bitmap k)
