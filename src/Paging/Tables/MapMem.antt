-- ===== src/Paging/Tables/MapMem.antt =====
-- What `map_mem` does to every translation.
use eta_os.Base.{
  ℕ, zero, suc, ◌+◌, ◌*◌, ◌/◌, ◌≤◌, ◌<◌, ◌≡◌, refl, ap, ◌∙◌, ◌≢◌, ◌⊎◌, inl, inr, true, some, arith,
  Bool-cases,
}
use eta_os.Frames.{Kernel, page_locked}
use eta_os.Paging.{get_address, page_map_indexer, next_table, enter_page, map_mem}
use eta_os.Paging.Tables.{entry, is_present, index_at, walk, spare_pages, IsPaged}
use eta_os.Paging.Tables.Next.{index_at-lt, next_table-IsNext, child_height}
use eta_os.Paging.Tables.Leaf.{leaf_same}
use eta_os.Paging.Tables.Reach.{reach, reach-cons}
use eta_os.Paging.Indexer.{page_map_indexer_lem}
use eta_os.Paging.Tables.Frame.{KeepsPlain, KeepsPlain-trans, IsFramed, IsFramed-trans}

-- The last write changes a walk only if the walk ends at its entry.
module _ (height parent : ℕ → ℕ) (k : Kernel) (paged : IsPaged height parent k) (t i phys : ℕ)
    (leaf : height t ≡ 1) (i_fits : i < 512) where
  pub walk-entered :
      (l r v : ℕ)
      → height r ≡ suc l
      → (reach k.mem l r v ≢ some t) ⊎ (index_at 0 v ≢ i)
      → walk (enter_page k (t * 4096) i phys).mem l r v ≡ walk k.mem l r v
  unfolding walk reach
  walk-entered zero r v h other =
      let same =
        leaf_same height parent k paged t i phys leaf i_fits r (index_at 0 v) (index_at-lt 0 v)
          (elim other [ inl off ↦ inl (λ e. off (ap some e)) | inr off ↦ inr off ]) in
      rw same
  walk-entered (suc l) r v h other =
      let j = index_at (suc l) v in
      let same =
        leaf_same height parent k paged t i phys leaf i_fits r j (index_at-lt (suc l) v)
          (inl λ e. omega (arith, ap height e)) in
      rw same (elim (Bool-cases (is_present (entry k.mem r j))) [
        | inl there ↦
            let up = (paged.links r j (omega arith) (index_at-lt (suc l) v) there).0 in
            rw there
              (walk-entered l (get_address (entry k.mem r j)) v (omega arith) (rw there at other))
        | inr missing ↦ rw missing
      ])

-- `map_mem` is a write to the entry of `v` in the last table `table` on its way, in a state
-- `before` that has that table and the translations of `k`, and at most `pages` more tables.
pub record IsMapped (old : ℕ → ℕ) (k : Kernel) (root v phys pages : ℕ) (k' : Kernel) : Type 0 where
  pub before : Kernel
  pub height : ℕ → ℕ
  pub parent : ℕ → ℕ
  pub table : ℕ
  pub paged : IsPaged height parent before
  pub top : height root ≡ 4
  pub leaf : height table ≡ 1
  pub reaches : reach before.mem 3 root v ≡ some table
  pub walks : (w : ℕ) → walk before.mem 3 root w ≡ walk k.mem 3 root w
  pub spare : spare_pages k ≤ spare_pages before + pages
  pub framed : IsFramed k before
  pub locks : (j : ℕ) → page_locked k j ≡ true → page_locked before j ≡ true
  pub plain : (j : ℕ) → page_locked k j ≡ true → old j ≡ 0 → height j ≡ 0
  pub untouched : KeepsPlain old k before
  pub entered : k' ≡ enter_page before (table * 4096) (index_at 0 v) phys

module _ (height parent : ℕ → ℕ) (k : Kernel) (paged : IsPaged height parent k) (root v phys : ℕ)
    (top : height root ≡ 4) (enough : 3 ≤ spare_pages k) where
  map_mem-steps : IsMapped height k root v phys 3 (
      let (k₁, pdp) = next_table k (root * 4096) (index_at 3 v) in
      let (k₂, pd) = next_table k₁ pdp (index_at 2 v) in
      let (k₃, pt) = next_table k₂ pd (index_at 1 v) in enter_page k₃ pt (index_at 0 v) phys)
  unfolding reach
  map_mem-steps =
      let few = enough in
      let high = top in
      let one =
        next_table-IsNext height parent k paged root (index_at 3 v) (omega arith) (index_at-lt 3 v)
          (omega arith) in
      let k₁ = (next_table k (root * 4096) (index_at 3 v)).0 in
      let low₁ =
        child_height height parent k root (index_at 3 v) _ one (omega arith) (index_at-lt 3 v) in
      let two =
        next_table-IsNext one.height' one.parent' k₁ one.paged one.child (index_at 2 v)
          (omega arith) (index_at-lt 2 v) (let left = one.spare in omega arith) in
      let k₂ = (next_table k₁ (one.child * 4096) (index_at 2 v)).0 in
      let low₂ =
        child_height one.height' one.parent' k₁ one.child (index_at 2 v) _ two (omega arith)
          (index_at-lt 2 v) in
      let three =
        next_table-IsNext two.height' two.parent' k₂ two.paged two.child (index_at 1 v)
          (omega arith) (index_at-lt 1 v)
          (let left = one.spare in let left' = two.spare in omega arith) in
      let k₃ = (next_table k₂ (two.child * 4096) (index_at 1 v)).0 in
      let low₃ =
        child_height two.height' two.parent' k₂ two.child (index_at 1 v) _ three (omega arith)
          (index_at-lt 1 v) in
      let top₁ = one.kept root (omega arith) in
      let top₂ = two.kept root (omega arith) in
      let top₃ = three.kept root (omega arith) in
      let kept = two.stays root (index_at 3 v) (omega arith) (index_at-lt 3 v) one.there in
      let stay₁ =
        three.stays root (index_at 3 v) (omega arith) (index_at-lt 3 v) (rw kept one.there)
        ∙ kept in
      let same₂ = two.kept one.child (omega arith) in
      let stay₂ = three.stays one.child (index_at 2 v) (omega arith) (index_at-lt 2 v) two.there in
      rw (one.address, two.address, three.address)
        (record {
          before = k₃;
          height = three.height';
          parent = three.parent';
          table = three.child;
          paged = three.paged;
          top = omega arith;
          leaf = omega arith;
          reaches =
              reach-cons k₃.mem 2 root v one.child three.child (rw stay₁ one.there)
                (ap get_address stay₁ ∙ one.leads)
                (reach-cons k₃.mem 1 one.child v two.child three.child (rw stay₂ two.there)
                  (ap get_address stay₂ ∙ two.leads)
                  (reach-cons k₃.mem 0 two.child v three.child three.child three.there three.leads
                    refl));
          walks = λ w.
              three.walks 3 root w (omega arith)
              ∙ two.walks 3 root w (omega arith)
              ∙ one.walks 3 root w (omega arith);
          spare =
              let left = one.spare in
              let left' = two.spare in let left'' = three.spare in omega arith;
          framed =
              IsFramed-trans k k₁ k₃ one.framed (IsFramed-trans k₁ k₂ k₃ two.framed three.framed);
          locks = λ j h. three.locks j (two.locks j (one.locks j h));
          plain = λ j h low.
              three.plain j (two.locks j (one.locks j h))
                (two.plain j (one.locks j h) (one.plain j h low));
          untouched =
              KeepsPlain-trans height one.height' k k₁ k₃ one.framed.bitmap one.locks one.plain
                one.untouched
                (KeepsPlain-trans one.height' two.height' k₁ k₂ k₃ two.framed.bitmap two.locks
                  two.plain two.untouched three.untouched);
          entered = refl;
        })

-- From the indices of PageMapIndexer to those of the walk.
pub indexer_index :
    (virt : ℕ)
    → let indexer = page_map_indexer virt in
      (indexer.pdp_i ≡ index_at 3 (virt / 4096))
      × (indexer.pd_i ≡ index_at 2 (virt / 4096))
      × (indexer.pt_i ≡ index_at 1 (virt / 4096))
      × (indexer.p_i ≡ index_at 0 (virt / 4096))
unfolding index_at
indexer_index virt = omega (arith, page_map_indexer_lem virt)

module _ (height parent : ℕ → ℕ) (k : Kernel) (paged : IsPaged height parent k) (root virt phys : ℕ)
    (top : height root ≡ 4) (enough : 3 ≤ spare_pages k) where
  pub map_mem-IsMapped :
      IsMapped height k root (virt / 4096) phys 3 (map_mem k (root * 4096) virt phys)
  unfolding map_mem
  map_mem-IsMapped =
      let (a, b, c, d) = indexer_index virt in
      rw (a, b, c, d) (map_mem-steps height parent k paged root (virt / 4096) phys top enough)
