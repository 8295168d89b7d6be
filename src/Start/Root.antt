-- ===== src/Start/Root.antt =====
-- The top table that `prepare_mem` makes.
use eta_os.Base.{
  ℕ, ◌+◌, ◌*◌, ◌/◌, ◌%◌, ◌^◌, ◌≤◌, ◌<◌, ◌≡◌, refl, sym, ap, ◌∙◌, Bool, false, not, ◌||◌, none, map,
  arith, ◌==◌, if◌then◌else◌, u64,
}
use eta_os.Memory.{memset}
use eta_os.Frames.Boot.Fresh.{
  lock_page-IsBytes, booted-page_bitmap, booted-IsBytes, booted-IsScanned,
}
use eta_os.Frames.Boot.Result.{home, new_bitmap, CanBoot, read_efi_memory_map-locked}
use eta_os.Memory.Memset.{memset_lem, memset-IsBytes, load64-memset}
use eta_os.Paging.Tables.{
  entry, is_present, index_at, walk, translate, spare_pages, PageOutside, IsPaged,
}
use eta_os.Memory.Words.{IsBytes}
use eta_os.Paging.Tables.Request.{
  request_page-page_bitmap, request_page-IsBytes, request_page-found,
}
use eta_os.Frames.Scan.{IsScanned, lock_page-IsScanned, IsFirstFree, request_page-IsScanned}
use eta_os.Frames.{Kernel, page_locked, lock_page, lock_pages, request_page}
use eta_os.Frames.Pages.{page_locked-lock_page}
use eta_os.Bitmap.Laws.{get_same}
use eta_os.Paging.Tables.Grow.{bitmap_byte_off}
use eta_os.Frames.Count.{count_below, count_below_clear}
use eta_os.Paging.{entry_at}
use eta_os.Paging.Entry.{present-digit}
use eta_os.Bits.Digit.{digit-zero}
use eta_os.Frames.Boot.{MemMap, read_efi_memory_map}
use eta_os.Frames.Ranges.{for_pages_keeps}
use eta_os.Frames.Ledger.{lock_page-page_bitmap}
use eta_os.Paging.Tables.Next.{index_at-lt}

-- What the tables need of a state without tables: no page that can be given out meets the bitmap.
pub record IsSettled (k : Kernel) : Type 0 where
  pub size_fits : k.page_bitmap.size < 2 ^ 40
  pub bytes : IsBytes k.mem
  pub scanned : IsScanned k
  pub spare : (p : ℕ) → p < k.page_bitmap.size → page_locked k p ≡ false → PageOutside k p

pub lock_pages-IsSettled : (k : Kernel) (addr n : ℕ) → IsSettled k → IsSettled (lock_pages k addr n)
unfolding lock_pages
lock_pages-IsSettled k addr n = for_pages_keeps IsSettled lock_page keep n 0 addr k
  where
    keep : (k : Kernel) (addr : ℕ) → IsSettled k → IsSettled (lock_page k addr)
    keep k addr settled =
        let same = lock_page-page_bitmap k addr in
        record {
          size_fits = rw same settled.size_fits;
          bytes = lock_page-IsBytes k addr settled.bytes;
          scanned = lock_page-IsScanned k addr settled.scanned;
          spare = λ p below clear.
              rw same (
                settled.spare p (rw same at below)
                  (ground (arith, page_locked-lock_page k addr p)));
        }

pub booted-IsSettled :
    (s : Kernel) (map : MemMap) (mem_map_size : ℕ)
    → CanBoot s map mem_map_size
    → IsBytes s.mem
    → s.page_bitmap_index ≡ 0
    → (home s map mem_map_size).seg % 4096 ≡ 0
    → IsSettled (read_efi_memory_map s map mem_map_size)
booted-IsSettled s map mem_map_size can bytes first aligned =
    let few = can.small in
    let same = booted-page_bitmap s map mem_map_size can in
    record {
      size_fits = rw same (omega arith);
      bytes = booted-IsBytes s map mem_map_size can bytes;
      scanned = booted-IsScanned s map mem_map_size can first;
      spare = λ p below clear x lo hi.
          let inside : p < (new_bitmap s map mem_map_size).size = rw same at below in
          let free = read_efi_memory_map-locked s map mem_map_size can p (omega arith) in
          rw same (ground (arith, free));
    }

-- The height of each page: only the page of the new table has one.
abbrev pub root_height : ℕ → ℕ → ℕ
root_height n p = if n == p then 4 else 0

-- The state with a new top table, and its address.
abbrev pub with_root : Kernel → Kernel
with_root k = record (request_page k).0 {
  mem = memset (request_page k).0.mem (request_page k).1 0 4096;
}

-- A page is given out and cleared, and nothing is mapped.
pub record IsRooted (k : Kernel) : Type 0 where
  pub root : ℕ
  pub paged : IsPaged (root_height root) (λ p. 0) (with_root k)
  pub address : (request_page k).1 ≡ root * 4096
  pub spare : spare_pages k ≡ spare_pages (with_root k) + 1
  pub empty : (a : ℕ) → translate (with_root k).mem (root * 4096) a ≡ none

module _ (k : Kernel) (settled : IsSettled k) (n : ℕ) (free : IsFirstFree k n)
    (given : (request_page k).1 ≡ n * 4096)
    (marked : (j : ℕ) → page_locked (request_page k).0 j ≡ (page_locked k j || (n == j))) where
  -- The new table does not meet the bitmap.
  page_locked-with_root : (j : ℕ) → page_locked (with_root k) j ≡ (page_locked k j || (n == j))
  page_locked-with_root j =
      let small = settled.size_fits in
      let below = free.0 in
      let same = request_page-page_bitmap k in
      get_same (request_page k).0.page_bitmap (request_page k).0.mem (with_root k).mem j (λ l.
        let inside : j ≤ u64 (k.page_bitmap.size * 8) = rw same at l in
        let off =
          bitmap_byte_off k n (k.page_bitmap.buffer + j / 8) (settled.spare n free.0 free.1)
            (omega arith) (omega arith) in
        rw same (
          rw given (
            memset_lem (request_page k).0.mem (n * 4096) 0 4096 (k.page_bitmap.buffer + j / 8)
              (omega arith)
            ∙ ground arith)))
      ∙ marked j

  with_root-entry : (i : ℕ) → i < 512 → is_present (entry (with_root k).mem n i) ≡ false
  with_root-entry i i_fits =
      let small = settled.size_fits in
      let below = free.0 in
      let zero_entry : entry (with_root k).mem n i ≡ 0 = rw given (
        load64-memset (request_page k).0.mem (n * 4096) 4096 (entry_at (n * 4096) i) (omega arith)
          (omega arith) (omega arith)) in
      rw zero_entry (present-digit 0 ∙ rw (digit-zero 0))

  with_root-translate : (a : ℕ) → translate (with_root k).mem (n * 4096) a ≡ none
  unfolding translate walk
  with_root-translate a =
      let page : n * 4096 / 4096 ≡ n = omega arith in
      rw (page, with_root-entry (index_at 3 (a / 4096)) (index_at-lt 3 (a / 4096))) refl

  with_root-IsPaged : IsPaged (root_height n) (λ p. 0) (with_root k)
  with_root-IsPaged =
      let small = settled.size_fits in
      let below = free.0 in
      let same = request_page-page_bitmap k in
      record {
        size_fits = rw same settled.size_fits;
        bytes = rw given (
            memset-IsBytes (n * 4096) 0 4096 (omega arith) (omega arith)
              (request_page-IsBytes k settled.bytes));
        scanned = λ i l.
            page_locked-with_root i ∙ sym (marked i) ∙ request_page-IsScanned k settled.scanned i l;
        locked = λ p tall. ground (arith, page_locked-with_root p);
        apart = λ p tall.
            let e : p ≡ n = ground arith in rw same (rw e (settled.spare n free.0 free.1));
        spare = λ p under clear.
            rw same (settled.spare p (rw same at under) (ground (arith, page_locked-with_root p)));
        links = λ p i tall i_fits there.
            let e : p ≡ n = ground arith in
            let absent = with_root-entry i i_fits in
            absurd (ground (arith, absent, ap (λ t. is_present (entry (with_root k).mem t i)) e));
      }

  with_root-spare_pages : spare_pages k ≡ spare_pages (with_root k) + 1
  unfolding spare_pages
  with_root-spare_pages =
      let clear_after : ℕ → Bool = λ j. not (page_locked (with_root k) j) in
      let counted =
        count_below_clear (λ j. not (page_locked k j)) clear_after n k.page_bitmap.size
          (λ j. ground (arith, page_locked-with_root j)) free.0 in
      let size : (with_root k).page_bitmap.size ≡ k.page_bitmap.size =
        ap (λ b. b.size) (request_page-page_bitmap k) in
      ground (arith, counted, free.1, ap (count_below clear_after) size)

pub with_root-IsRooted : (k : Kernel) → IsSettled k → 0 < spare_pages k → IsRooted k
with_root-IsRooted k settled some_left =
    let small = settled.size_fits in
    let (n, free, given, marked) = request_page-found k (omega arith) settled.scanned some_left in
    record {
      root = n;
      paged = with_root-IsPaged k settled n free given marked;
      address = given;
      spare = with_root-spare_pages k settled n free given marked;
      empty = with_root-translate k settled n free given marked;
    }
