-- ===== src/Paging/Tables.antt =====
-- What page tables mean: the walk that the MMU makes through four levels of tables, and the
-- invariant under which `map_mem` works.
pub mod Frame
pub mod Request
pub mod New
pub mod Grow
pub mod Next
pub mod Leaf
pub mod Reach
pub mod MapMem
pub mod Translate
pub mod Ready
pub mod Given
pub mod Elsewhere
use eta_os.Base.{
  ℕ, zero, suc, ◌+◌, ◌*◌, ◌/◌, ◌%◌, ◌^◌, ◌≤◌, ◌<◌, ◌≡◌, ◌≢◌, Bool, true, false, not, Option, none,
  some, if◌then◌else◌,
}
use eta_os.Memory.{Mem, load64}
use eta_os.Memory.Words.{IsBytes}
use eta_os.Frames.{Kernel, page_locked}
use eta_os.Frames.Count.{count_below}
use eta_os.Frames.Scan.{IsScanned}
use eta_os.Frames.Boot.Writes.{Outside}
use eta_os.Paging.{present, get_flag, get_address, entry_at}

-- Entry `i` of the table in page `p`.
abbrev pub entry : Mem → ℕ → ℕ → ℕ
entry m p i = load64 m (entry_at (p * 4096) i)

abbrev pub is_present : ℕ → Bool
is_present e = get_flag e present

-- The index of virtual page `v` at a level; level 0 is that of the pages' own entries.
unfoldable pub index_at : ℕ → ℕ → ℕ
index_at l v = v / 512 ^ l % 512

-- The page that virtual page `v` leads to from the table in page `p`, `l` levels above the last.
unfoldable pub walk : Mem → ℕ → ℕ → ℕ → Option ℕ
walk m zero p v =
    let e = entry m p (index_at 0 v) in if is_present e then some (get_address e) else none
walk m (suc l) p v =
    let e = entry m p (index_at (suc l) v) in
    let deeper = walk m l (get_address e) v in if is_present e then deeper else none

-- The physical page of a virtual address.
unfoldable pub translate : Mem → ℕ → ℕ → Option ℕ
unfolding walk index_at
translate m pml4_addr virt = walk m 3 (pml4_addr / 4096) (virt / 4096)

-- How many pages `request_page` can still give out.
unfoldable pub spare_pages : Kernel → ℕ
spare_pages k = count_below (λ j. not (page_locked k j)) k.page_bitmap.size

-- No byte of page `p` is a byte of the bitmap.
abbrev pub PageOutside : Kernel → ℕ → Type 0
PageOutside k p = (x : ℕ) → p * 4096 ≤ x → x < p * 4096 + 4096 → Outside k.page_bitmap x

-- `height p` is 0 for a page that is no table, and from 1 to 4 for a table, 4 at the top.
-- `parent p` names the entry that points to the table, as 512 times its page plus its index.
pub record IsPaged (height parent : ℕ → ℕ) (k : Kernel) : Type 0 where
  pub size_fits : k.page_bitmap.size < 2 ^ 40
  pub bytes : IsBytes k.mem
  pub scanned : IsScanned k
  pub locked : (p : ℕ) → height p ≢ 0 → page_locked k p ≡ true
  pub apart : (p : ℕ) → height p ≢ 0 → PageOutside k p
  pub spare : (p : ℕ) → p < k.page_bitmap.size → page_locked k p ≡ false → PageOutside k p
  pub links :
      (p i : ℕ)
      → 2 ≤ height p
      → i < 512
      → is_present (entry k.mem p i) ≡ true
      → (suc (height (get_address (entry k.mem p i))) ≡ height p)
        × (parent (get_address (entry k.mem p i)) ≡ p * 512 + i)
