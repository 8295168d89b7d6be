-- ===== src/Frames/Boot/Writes.antt =====
-- Where the allocator writes: only into the bytes of its bitmap.
use eta_os.Base.{
  ℕ, ◌+◌, ◌/◌, ◌^◌, ◌<◌, ◌≡◌, ◌∙◌, ◌⊎◌, inl, inr, Bool, true, false, arith, Bool-cases,
}
use eta_os.Memory.{Mem}
use eta_os.Bitmap.{Bitmap, in_range, set}
use eta_os.Bitmap.Laws.{set_outside}
use eta_os.Frames.{Kernel, lock_page, reserve_page, unreserve_page, reserve_pages, unreserve_pages}
use eta_os.Frames.Ledger.{
  lock_page-page_bitmap, reserve_page-page_bitmap, unreserve_page-page_bitmap,
}
use eta_os.Frames.Ranges.{for_pages_keeps}

-- `x` is not a byte that the bitmap accepts an index for; the last one is one past its size.
abbrev pub Outside : Bitmap → ℕ → Type 0
Outside b x = (x < b.buffer) ⊎ (b.buffer + b.size < x)

-- The bitmap is `b`, and the byte at `x` is `v`.
abbrev pub Keeps : Bitmap → ℕ → ℕ → Kernel → Type 0
Keeps b x v s = (s.page_bitmap ≡ b) × (s.mem x ≡ v)

module _ (b : Bitmap) (x v : ℕ) (fits : b.size < 2 ^ 49) (out : Outside b x) where
  set_same : (m : Mem) (index : ℕ) (value : Bool) → m x ≡ v → (set b m index value).0 x ≡ v
  set_same m index value h = elim (Bool-cases (in_range b index)) [
    | inl inside ↦ set_outside b m index value x (ground arith) ∙ h
    | inr refused ↦ unfold set in ground arith
  ]

  pub lock_page-Keeps : (s : Kernel) (addr : ℕ) → Keeps b x v s → Keeps b x v (lock_page s addr)
  unfolding lock_page
  lock_page-Keeps s addr (e, h) =
      (lock_page-page_bitmap s addr ∙ e, ground (arith, set_same s.mem (addr / 4096) true h))

  reserve_page-Keeps : (s : Kernel) (addr : ℕ) → Keeps b x v s → Keeps b x v (reserve_page s addr)
  unfolding reserve_page
  reserve_page-Keeps s addr (e, h) =
      (reserve_page-page_bitmap s addr ∙ e, ground (arith, set_same s.mem (addr / 4096) true h))

  unreserve_page-Keeps :
      (s : Kernel) (addr : ℕ) → Keeps b x v s → Keeps b x v (unreserve_page s addr)
  unfolding unreserve_page
  unreserve_page-Keeps s addr (e, h) =
      (unreserve_page-page_bitmap s addr ∙ e, ground (arith, set_same s.mem (addr / 4096) false h))

  pub unreserve_pages-Keeps :
      (s : Kernel) (addr n : ℕ) → Keeps b x v s → Keeps b x v (unreserve_pages s addr n)
  unfolding unreserve_pages
  unreserve_pages-Keeps s addr n =
      for_pages_keeps (Keeps b x v) unreserve_page unreserve_page-Keeps n 0 addr s

  pub reserve_pages-Keeps :
      (s : Kernel) (addr n : ℕ) → Keeps b x v s → Keeps b x v (reserve_pages s addr n)
  unfolding reserve_pages
  reserve_pages-Keeps s addr n =
      for_pages_keeps (Keeps b x v) reserve_page reserve_page-Keeps n 0 addr s
