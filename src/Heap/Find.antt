-- ===== src/Heap/Find.antt =====
-- Which segment the loop of `malloc` finds.
use eta_os.Base.{
  ℕ, zero, suc, ◌+◌, ◌<◌, ◌≡◌, some, List, [], ◌∷◌, arith, ltb, ◌==◌, if◌then◌else◌, length,
}
use eta_os.Memory.{Mem}
use eta_os.Heap.{Fit, larger, exact, nothing, find_fit}
use eta_os.Heap.Blocks.{Block}
use eta_os.Heap.Chain.{Chain}

-- The first fit among the blocks that begin at `a`.
abbrev pub fit_at : ℕ → ℕ → List Block → Fit
fit_at n a [] = nothing
fit_at n a (b ∷ bs) =
    let later = fit_at n (a + 32 + b.size) bs in
    if b.used
    then later
    else if ltb n b.size
    then larger a
    else if b.size == n
    then exact a
    else later

-- With a round for each block, the loop ends and finds the first fit.
pub find_fit-Chain :
    (rounds : ℕ) (m : Mem) (last a n : ℕ) (b : Block) (bs : List Block)
    → length bs < rounds
    → Chain m last a (b ∷ bs)
    → find_fit rounds m a n ≡ some (fit_at n a (b ∷ bs))
unfolding find_fit
find_fit-Chain zero m last a n b bs r c = absurd (omega arith)
find_fit-Chain (suc rounds) m last a n b [] r (h, t) =
    rw (h.next_is, h.length_is, h.flag_is) (ground arith)
find_fit-Chain (suc rounds) m last a n b (c ∷ bs) r (h, t) =
    let ih = find_fit-Chain rounds m a (a + 32 + b.size) n c bs (omega arith) t in
    rw (h.next_is, h.length_is, h.flag_is, ih) (ground arith)
