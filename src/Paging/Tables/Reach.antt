-- ===== src/Paging/Tables/Reach.antt =====
-- The table that a walk ends in, and that no two paths end in one.
use eta_os.Base.{ℕ, zero, suc, ◌≡◌, ap, true, Option, none, some, arith, if◌then◌else◌}
use eta_os.Memory.{Mem}
use eta_os.Frames.{Kernel}
use eta_os.Paging.{get_address}
use eta_os.Paging.Tables.{entry, is_present, index_at, IsPaged}
use eta_os.Paging.Tables.Next.{index_at-lt}

-- The last table on the walk of virtual page `v` from table `r`, which is `l` levels above.
unfoldable pub reach : Mem → ℕ → ℕ → ℕ → Option ℕ
reach m zero r v = some r
reach m (suc l) r v =
    let e = entry m r (index_at (suc l) v) in
    let deeper = reach m l (get_address e) v in if is_present e then deeper else none

-- The indices of `v` and `w` agree at levels 1 to `l`.
abbrev pub SameIndices : ℕ → ℕ → ℕ → Type 0
SameIndices zero v w = Unit {0}
SameIndices (suc l) v w = (index_at (suc l) v ≡ index_at (suc l) w) × SameIndices l v w

-- One step of the way.
pub reach-cons :
    (m : Mem) (l r v c t : ℕ)
    → is_present (entry m r (index_at (suc l) v)) ≡ true
    → get_address (entry m r (index_at (suc l) v)) ≡ c
    → reach m l c v ≡ some t
    → reach m (suc l) r v ≡ some t
unfolding reach
reach-cons m l r v c t there leads rest = rw (there, leads) rest

module _ (height parent : ℕ → ℕ) (k : Kernel) (paged : IsPaged height parent k) where
  -- Inversion of one step.
  pub reach-suc :
      (l r v t : ℕ)
      → reach k.mem (suc l) r v ≡ some t
      → (is_present (entry k.mem r (index_at (suc l) v)) ≡ true)
        × (reach k.mem l (get_address (entry k.mem r (index_at (suc l) v))) v ≡ some t)
  unfolding reach
  reach-suc l r v t h = ground arith

  -- A table hangs on one entry, so the paths to it are one path.
  pub reach_unique :
      (l r q v w t : ℕ)
      → height r ≡ suc l
      → height q ≡ suc l
      → reach k.mem l r v ≡ some t
      → reach k.mem l q w ≡ some t
      → (r ≡ q) × SameIndices l v w
  reach_unique zero r q v w t hr hq a b = (unfold reach in cc, tt)
  reach_unique (suc l) r q v w t hr hq a b =
      let i = index_at (suc l) v in
      let j = index_at (suc l) w in
      let (here, deeper) = reach-suc l r v t a in
      let (here', deeper') = reach-suc l q w t b in
      let (up, from) = paged.links r i (omega arith) (index_at-lt (suc l) v) here in
      let (up', from') = paged.links q j (omega arith) (index_at-lt (suc l) w) here' in
      let (same, rest) =
        reach_unique l (get_address (entry k.mem r i)) (get_address (entry k.mem q j)) v w t
          (omega arith) (omega arith) deeper deeper' in
      let one = ap parent same in
      let low = index_at-lt (suc l) v in
      let low' = index_at-lt (suc l) w in
      (omega (arith, up, from, up', from', one), (omega (arith, up, from, up', from', one), rest))
