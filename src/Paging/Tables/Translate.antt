-- ===== src/Paging/Tables/Translate.antt =====
-- The contract of `PageTableManager::map_mem`, in terms of the translation that the MMU makes.
use eta_os.Base.{
  ℕ, zero, suc, ◌*◌, ◌/◌, ◌%◌, ◌^◌, ◌≤◌, ◌≡◌, refl, ap, ◌∙◌, ◌≢◌, ◌⊎◌, inl, inr, some, arith, ◌==◌,
  Bool-cases,
}
use eta_os.Frames.{Kernel}
use eta_os.Paging.{get_address, enter_page, map_mem}
use eta_os.Paging.Tables.{entry, index_at, walk, translate, spare_pages, IsPaged}
use eta_os.Paging.Tables.Next.{index_at-lt}
use eta_os.Paging.Tables.Leaf.{leaf_same, leaf_entered, entered-IsPaged}
use eta_os.Paging.Tables.Reach.{reach, reach-suc, reach_unique}
use eta_os.Paging.Tables.MapMem.{walk-entered, IsMapped, map_mem-IsMapped}
use eta_os.Paging.Entry.{filled-present, filled-address}
use eta_os.Memory.{Mem}

-- Addresses of one page.
pub translate_page :
    (m : Mem) (pml4 a b : ℕ) → a / 4096 ≡ b / 4096 → translate m pml4 a ≡ translate m pml4 b
unfolding translate
translate_page m pml4 a b same = rw same refl

-- A walk that ends at the entry that was written finds the page.
module _ (height parent : ℕ → ℕ) (k : Kernel) (paged : IsPaged height parent k) (t v phys : ℕ)
    (leaf : height t ≡ 1) where
  walk-entered_here :
      (l r : ℕ)
      → height r ≡ suc l
      → reach k.mem l r v ≡ some t
      → walk (enter_page k (t * 4096) (index_at 0 v) phys).mem l r v ≡ some (phys / 4096 % 2 ^ 40)
  unfolding walk
  walk-entered_here zero r h at =
      let here : r ≡ t = unfold reach in cc in
      rw (here, leaf_entered height parent k paged t (index_at 0 v) phys leaf (index_at-lt 0 v))
        (rw (filled-present (entry k.mem t (index_at 0 v)) phys)
          (ap some (filled-address (entry k.mem t (index_at 0 v)) phys)))
  walk-entered_here (suc l) r h at =
      let j = index_at (suc l) v in
      let same =
        leaf_same height parent k paged t (index_at 0 v) phys leaf (index_at-lt 0 v) r j
          (index_at-lt (suc l) v) (inl λ e. omega (arith, ap height e)) in
      let (there, deeper) = reach-suc height parent k paged l r v t at in
      let up = (paged.links r j (omega arith) (index_at-lt (suc l) v) there).0 in
      rw (same, there) (walk-entered_here l (get_address (entry k.mem r j)) (omega arith) deeper)

-- Whatever tables were made on the way, the page is there, and no other page is touched.
module _ {old : ℕ → ℕ} (k : Kernel) (root virt phys pages : ℕ) (k' : Kernel)
    (done : IsMapped old k root (virt / 4096) phys pages k') where
  pub IsMapped-translate : translate k'.mem (root * 4096) virt ≡ some (phys / 4096 % 2 ^ 40)
  unfolding translate
  IsMapped-translate =
      let page : root * 4096 / 4096 ≡ root = omega arith in
      rw (page, done.entered)
        (walk-entered_here done.height done.parent done.before done.paged done.table (virt / 4096)
          phys done.leaf 3 root done.top done.reaches)

  pub IsMapped-translate_other :
      (other : ℕ)
      → other / 4096 % 2 ^ 36 ≢ virt / 4096 % 2 ^ 36
      → translate k'.mem (root * 4096) other ≡ translate k.mem (root * 4096) other
  unfolding translate
  IsMapped-translate_other other ne =
      let page : root * 4096 / 4096 ≡ root = omega arith in
      rw (page, done.entered)
        (walk-entered done.height done.parent done.before done.paged done.table
            (index_at 0 (virt / 4096)) phys done.leaf (index_at-lt 0 (virt / 4096)) 3 root
            (other / 4096) done.top apart
          ∙ done.walks (other / 4096))
    where
      apart :
          (reach done.before.mem 3 root (other / 4096) ≢ some done.table)
          ⊎ (index_at 0 (other / 4096) ≢ index_at 0 (virt / 4096))
      apart = elim (Bool-cases (index_at 0 (other / 4096) == index_at 0 (virt / 4096))) [
        | inl same ↦ inl λ way.
            let (_, indices) =
              reach_unique done.height done.parent done.before done.paged 3 root root (other / 4096)
                (virt / 4096) done.table done.top done.top way done.reaches in
            ne (unfold index_at in ground (arith, indices))
        | inr differ ↦ inr (ground arith)
      ]

  pub IsMapped-IsPaged : IsPaged done.height done.parent k'
  IsMapped-IsPaged = rw done.entered (
      entered-IsPaged done.height done.parent done.before done.paged done.table
        (index_at 0 (virt / 4096)) phys done.leaf (index_at-lt 0 (virt / 4096)))

module _ (height parent : ℕ → ℕ) (k : Kernel) (paged : IsPaged height parent k) (root virt phys : ℕ)
    (top : height root ≡ 4) (enough : 3 ≤ spare_pages k) where
  -- In a state whose tables satisfy the invariant and whose allocator has three pages to spare,
  -- after map_mem the page walk of the virtual address ends at the physical page that was asked
  -- for, in the 40 bits that an entry has for it.
  pub map_mem-translate :
      translate (map_mem k (root * 4096) virt phys).mem (root * 4096) virt
      ≡ some (phys / 4096 % 2 ^ 40)
  map_mem-translate =
      IsMapped-translate k root virt phys 3 (map_mem k (root * 4096) virt phys)
        (map_mem-IsMapped height parent k paged root virt phys top enough)

  -- In a state whose tables satisfy the invariant and whose allocator has three pages to spare,
  -- map_mem changes the translation of no address of another virtual page, the unmapped ones
  -- included.
  pub map_mem-translate_other :
      (other : ℕ)
      → other / 4096 % 2 ^ 36 ≢ virt / 4096 % 2 ^ 36
      → translate (map_mem k (root * 4096) virt phys).mem (root * 4096) other
        ≡ translate k.mem (root * 4096) other
  map_mem-translate_other =
      IsMapped-translate_other k root virt phys 3 (map_mem k (root * 4096) virt phys)
        (map_mem-IsMapped height parent k paged root virt phys top enough)

  -- In a state whose tables satisfy the invariant and whose allocator has three pages to spare,
  -- map_mem keeps the invariant of the tables: they are a tree of four levels in locked pages,
  -- and meet neither the bitmap nor the pages that the allocator can give out.
  pub map_mem-IsPaged :
      (height' : ℕ → ℕ) × (parent' : ℕ → ℕ) × IsPaged height' parent'
        (map_mem k (root * 4096) virt phys)
      × (height' root ≡ 4)
  map_mem-IsPaged =
      let done = map_mem-IsMapped height parent k paged root virt phys top enough in
      (
        done.height,
        done.parent,
        IsMapped-IsPaged k root virt phys 3 (map_mem k (root * 4096) virt phys) done,
        done.top,
      )
