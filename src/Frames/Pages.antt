-- ===== src/Frames/Pages.antt =====
-- What each operation of the allocator does to the state of every page.
use eta_os.Base.{ℕ, ◌/◌, ◌≡◌, Bool, true, false, not, ◌&&◌, ◌||◌, arith, ◌==◌}
use eta_os.Bitmap.{in_range}
use eta_os.Bitmap.Laws.{get-set, set-in_range}
use eta_os.Frames.{Kernel, page_locked, lock_page, reserve_page, free_page, unreserve_page}

-- `j` is the page of `addr` and the bitmap accepts it.
abbrev pub is_page : Kernel → ℕ → ℕ → Bool
is_page s addr j = in_range s.page_bitmap j && (addr / 4096 == j)

pub page_locked-lock_page :
    (s : Kernel) (addr j : ℕ)
    → page_locked (lock_page s addr) j ≡ (page_locked s j || is_page s addr j)
unfolding lock_page
page_locked-lock_page s addr j = ground (
  arith,
  get-set s.page_bitmap s.mem (addr / 4096) j true,
  set-in_range s.page_bitmap s.mem (addr / 4096) true,
)

pub page_locked-reserve_page :
    (s : Kernel) (addr j : ℕ)
    → page_locked (reserve_page s addr) j ≡ (page_locked s j || is_page s addr j)
unfolding reserve_page
page_locked-reserve_page s addr j = ground (
  arith,
  get-set s.page_bitmap s.mem (addr / 4096) j true,
  set-in_range s.page_bitmap s.mem (addr / 4096) true,
)

pub page_locked-free_page :
    (s : Kernel) (addr j : ℕ)
    → page_locked (free_page s addr) j ≡ (page_locked s j && not (is_page s addr j))
unfolding free_page
page_locked-free_page s addr j = ground (
  arith,
  get-set s.page_bitmap s.mem (addr / 4096) j false,
  set-in_range s.page_bitmap s.mem (addr / 4096) false,
)

pub page_locked-unreserve_page :
    (s : Kernel) (addr j : ℕ)
    → page_locked (unreserve_page s addr) j ≡ (page_locked s j && not (is_page s addr j))
unfolding unreserve_page
page_locked-unreserve_page s addr j = ground (
  arith,
  get-set s.page_bitmap s.mem (addr / 4096) j false,
  set-in_range s.page_bitmap s.mem (addr / 4096) false,
)
