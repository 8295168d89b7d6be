-- ===== src/Paging/Tables/New.antt =====
-- A new table: what the body of `if (!pde.get_flag(Present))` in `map_mem` leaves in memory.
use eta_os.Base.{
  ℕ, ◌*◌, ◌≤◌, ◌<◌, ◌≡◌, ap, ◌∙◌, ◌≢◌, ◌⊎◌, true, false, ◌||◌, arith, ◌==◌, if◌then◌else◌,
}
use eta_os.Frames.{Kernel, page_locked, request_page}
use eta_os.Frames.Scan.{IsFirstFree}
use eta_os.Paging.{get_address, entry_at, filled, new_table}
use eta_os.Paging.Tables.{entry, is_present, PageOutside, IsPaged}
use eta_os.Frames.Boot.Writes.{Outside}
use eta_os.Memory.Words.{
  Apart, store64_outside, load64_same, load64-store64, load64-store64_other, load64-lt,
}
use eta_os.Paging.Entry.{present-digit, filled-present, filled-address, filled-lt}
use eta_os.Bits.Digit.{digit-zero}
use eta_os.Memory.Memset.{memset_lem, load64-memset}
use eta_os.Paging.Tables.Request.{request_page-Keeps}

-- `f` with a new value at `n`.
abbrev pub mark : (ℕ → ℕ) → ℕ → ℕ → ℕ → ℕ
mark f n v r = if n == r then v else f r

module _ (height parent : ℕ → ℕ) (k : Kernel) (paged : IsPaged height parent k) (p i n : ℕ)
    (inner : 2 ≤ height p) (i_fits : i < 512) (absent : is_present (entry k.mem p i) ≡ false)
    (free : IsFirstFree k n) (given : (request_page k).1 ≡ n * 4096)
    (marked : (j : ℕ) → page_locked (request_page k).0 j ≡ (page_locked k j || (n == j))) where
  abbrev pub after : Kernel
  after = (new_table k (p * 4096) i (entry k.mem p i)).0

  -- A table is not the page that was free.
  pub table_ne_new : (r : ℕ) → height r ≢ 0 → r ≢ n
  table_ne_new r t e = ground (arith, paged.locked r t, free.1, ap (page_locked k) e)

  pub new_outside : PageOutside k n
  new_outside = paged.spare n free.0 free.1

  pub height_ne_zero : height p ≢ 0
  height_ne_zero = let h = inner in omega arith

  -- The bytes that stay.
  pub after_same :
      (x : ℕ)
      → Outside k.page_bitmap x
      → Apart (n * 4096) 4096 x 1
      → Apart (entry_at (p * 4096) i) 8 x 1
      → after.mem x ≡ k.mem x
  unfolding new_table
  after_same x out off_new off_entry =
      let small = paged.size_fits in
      let below = free.0 in
      let requested = (request_page-Keeps k x (omega arith) out).1 in
      let cleared = memset_lem (request_page k).0.mem (n * 4096) 0 4096 x (omega arith) in
      store64_outside _ (entry_at (p * 4096) i) _ x off_entry
      ∙ rw given (ground (arith, requested, cleared))

  -- The entries of the tables that there were, but for the one that is entered.
  pub entry_same :
      (r j : ℕ) → height r ≢ 0 → j < 512 → (r ≢ p) ⊎ (j ≢ i) → entry after.mem r j ≡ entry k.mem r j
  entry_same r j t j_fits other =
      let ne = table_ne_new r t in
      let fits = i_fits in
      load64_same {m = k.mem} {m' = after.mem} (entry_at (r * 4096) j) λ x lo hi.
        after_same x (paged.apart r t x (omega arith) (omega arith)) (omega arith) (omega arith)

  -- The entry that is made.
  pub entry_entered : entry after.mem p i ≡ filled (entry k.mem p i) (n * 4096)
  unfolding new_table
  entry_entered = rw given (
      load64-store64 _ (entry_at (p * 4096) i) _
        (filled-lt _ (n * 4096) (load64-lt k.mem (entry_at (p * 4096) i) paged.bytes)))

  pub entered_present : is_present (entry after.mem p i) ≡ true
  entered_present = rw entry_entered (filled-present (entry k.mem p i) (n * 4096))

  pub entered_address : get_address (entry after.mem p i) ≡ n
  entered_address =
      let small = paged.size_fits in
      let below = free.0 in
      rw entry_entered (filled-address (entry k.mem p i) (n * 4096) ∙ omega arith)

  -- The entries of the new table.
  pub new_absent : (j : ℕ) → j < 512 → is_present (entry after.mem n j) ≡ false
  unfolding new_table
  new_absent j j_fits =
      let small = paged.size_fits in
      let below = free.0 in
      let ne = table_ne_new p height_ne_zero in
      let fits = i_fits in
      let zero_entry : entry after.mem n j ≡ 0 =
        load64-store64_other _ (entry_at (p * 4096) i) (entry_at (n * 4096) j) _ (omega arith)
        ∙ rw given (
            load64-memset (request_page k).0.mem (n * 4096) 4096 (entry_at (n * 4096) j)
              (omega arith) (omega arith) (omega arith)) in
      rw zero_entry (present-digit 0 ∙ rw (digit-zero 0))
