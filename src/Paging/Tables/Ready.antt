-- ===== src/Paging/Tables/Ready.antt =====
-- Where the tables for a page are there already, `map_mem` takes no page.
use eta_os.Base.{
  ℕ, zero, suc, ◌+◌, ◌*◌, ◌/◌, ◌%◌, ◌^◌, ◌≤◌, ◌<◌, ◌≡◌, refl, ap, ◌∙◌, inl, inr, true, some, arith,
  Bool-cases, u64,
}
use eta_os.Frames.{Kernel, page_locked}
use eta_os.Paging.{get_address, next_table, enter_page, map_mem}
use eta_os.Paging.Tables.{entry, is_present, index_at, spare_pages, IsPaged}
use eta_os.Paging.Tables.Next.{index_at-lt}
use eta_os.Paging.Tables.Leaf.{
  entered-KeepsPlain, leaf_same, page_locked-entered, spare_pages-entered, IsFramed-entered,
}
use eta_os.Paging.Tables.Reach.{reach, reach-suc}
use eta_os.Paging.Tables.MapMem.{IsMapped, indexer_index}
use eta_os.Paging.Entry.{get_address-lt}
use eta_os.Paging.Tables.Frame.{
  KeepsPlain, KeepsPlain-trans, IsFramed, IsFramed-refl, IsFramed-trans,
}

-- The tables for virtual page `v` are there.
abbrev pub Ready : Kernel → ℕ → ℕ → Type 0
Ready k root v = (t : ℕ) × (reach k.mem 3 root v ≡ some t)

-- Pages of one last table share the way to it.
pub reach-block :
    (k : Kernel) (root v w : ℕ) → v / 512 ≡ w / 512 → reach k.mem 3 root v ≡ reach k.mem 3 root w
unfolding reach index_at
reach-block k root v w same =
    let a : v / 512 ^ 3 % 512 ≡ w / 512 ^ 3 % 512 = omega arith in
    let b : v / 512 ^ 2 % 512 ≡ w / 512 ^ 2 % 512 = omega arith in
    let c : v / 512 ^ 1 % 512 ≡ w / 512 ^ 1 % 512 = omega arith in rw (a, b, c) refl

next_table-present :
    (k : Kernel) (p i : ℕ)
    → is_present (entry k.mem p i) ≡ true
    → next_table k (p * 4096) i ≡ (k, get_address (entry k.mem p i) * 4096)
unfolding next_table
next_table-present k p i there =
    let at : u64 (get_address (entry k.mem p i) * 2 ^ 12) ≡ get_address (entry k.mem p i) * 4096 =
      omega (arith, get_address-lt (entry k.mem p i)) in
    rw (there, at) refl

module _ (height parent : ℕ → ℕ) (k : Kernel) (paged : IsPaged height parent k) where
  -- The write of the last entry leaves the ways to the last tables.
  pub reach-entered :
      (t i phys l r v : ℕ)
      → height t ≡ 1
      → i < 512
      → height r ≡ suc l
      → reach (enter_page k (t * 4096) i phys).mem l r v ≡ reach k.mem l r v
  unfolding reach
  reach-entered t i phys zero r v leaf fits high = refl
  reach-entered t i phys (suc l) r v leaf fits high =
      let j = index_at (suc l) v in
      let same =
        leaf_same height parent k paged t i phys leaf fits r j (index_at-lt (suc l) v)
          (inl λ e. omega (arith, ap height e)) in
      rw same (elim (Bool-cases (is_present (entry k.mem r j))) [
        | inl there ↦
            let up = (paged.links r j (omega arith) (index_at-lt (suc l) v) there).0 in
            rw there
              (reach-entered t i phys l (get_address (entry k.mem r j)) v leaf fits (omega arith))
        | inr missing ↦ rw missing
      ])

  pub Ready-IsMapped :
      (root virt phys : ℕ)
      → height root ≡ 4
      → Ready k root (virt / 4096)
      → IsMapped height k root (virt / 4096) phys 0 (map_mem k (root * 4096) virt phys)
  unfolding map_mem
  Ready-IsMapped root virt phys top (t, way) =
      let v = virt / 4096 in
      let (i₃, i₂, i₁, i₀) = indexer_index virt in
      let (there₃, way₂) = reach-suc height parent k paged 2 root v t way in
      let pdp = get_address (entry k.mem root (index_at 3 v)) in
      let (there₂, way₁) = reach-suc height parent k paged 1 pdp v t way₂ in
      let pd = get_address (entry k.mem pdp (index_at 2 v)) in
      let (there₁, way₀) = reach-suc height parent k paged 0 pd v t way₁ in
      let pt = get_address (entry k.mem pd (index_at 1 v)) in
      let here : pt ≡ t = unfold reach in cc in
      let up₃ = (paged.links root (index_at 3 v) (omega arith) (index_at-lt 3 v) there₃).0 in
      let up₂ = (paged.links pdp (index_at 2 v) (omega arith) (index_at-lt 2 v) there₂).0 in
      let up₁ = (paged.links pd (index_at 1 v) (omega arith) (index_at-lt 1 v) there₁).0 in
      rw
        (
          i₃,
          i₂,
          i₁,
          i₀,
          next_table-present k root (index_at 3 v) there₃,
          next_table-present k pdp (index_at 2 v) there₂,
          next_table-present k pd (index_at 1 v) there₁,
          here,
        )
        (record {
          before = k;
          height = height;
          parent = parent;
          table = t;
          paged = paged;
          top = top;
          leaf = omega (arith, ap height here);
          reaches = way;
          walks = λ w. refl;
          spare = omega arith;
          framed = IsFramed-refl k;
          locks = λ j h. h;
          plain = λ j h low. low;
          untouched = λ x held low out. refl;
          entered = refl;
        })

-- Afterwards the tables for the page are there, and as many pages fewer are left.
module _ {old : ℕ → ℕ} (k : Kernel) (root virt phys pages : ℕ) (k' : Kernel)
    (done : IsMapped old k root (virt / 4096) phys pages k') where
  pub IsMapped-Ready : Ready k' root (virt / 4096)
  IsMapped-Ready =
      let same =
        reach-entered done.height done.parent done.before done.paged done.table
          (index_at 0 (virt / 4096)) phys 3 root (virt / 4096) done.leaf
          (index_at-lt 0 (virt / 4096)) done.top in
      (done.table, rw done.entered (same ∙ done.reaches))

  pub IsMapped-spare_pages : spare_pages k ≤ spare_pages k' + pages
  IsMapped-spare_pages =
      let same =
        spare_pages-entered done.height done.parent done.before done.paged done.table
          (index_at 0 (virt / 4096)) phys done.leaf (index_at-lt 0 (virt / 4096)) in
      let left = done.spare in rw done.entered (omega arith)

  pub IsMapped-IsFramed : IsFramed k k'
  IsMapped-IsFramed =
      let last =
        IsFramed-entered done.height done.parent done.before done.paged done.table
          (index_at 0 (virt / 4096)) phys done.leaf (index_at-lt 0 (virt / 4096)) in
      rw done.entered (IsFramed-trans k done.before _ done.framed last)

  pub IsMapped-KeepsPlain : KeepsPlain old k k'
  IsMapped-KeepsPlain = rw done.entered (
      KeepsPlain-trans old done.height k done.before
        (enter_page done.before (done.table * 4096) (index_at 0 (virt / 4096)) phys)
        done.framed.bitmap done.locks done.plain done.untouched
        (entered-KeepsPlain done.height done.parent done.before done.paged done.table
          (index_at 0 (virt / 4096)) phys done.leaf (index_at-lt 0 (virt / 4096))))

  -- What was locked stays locked.
  pub IsMapped-locks : (j : ℕ) → page_locked k j ≡ true → page_locked k' j ≡ true
  IsMapped-locks j h = rw done.entered (
      page_locked-entered done.height done.parent done.before done.paged done.table
        (index_at 0 (virt / 4096)) phys done.leaf (index_at-lt 0 (virt / 4096)) j
      ∙ done.locks j h)
