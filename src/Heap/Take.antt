-- ===== src/Heap/Take.antt =====
-- What becomes of the blocks when `malloc` takes a segment that is longer than the size.
use eta_os.Base.{ℕ, ◌+◌, ◌^◌, ◌≤◌, ◌<◌, ◌≡◌, refl, ◌∙◌, List, [], ◌∷◌, arith, u64}
use eta_os.Memory.{Mem, store8, load64, store64}
use eta_os.Memory.Words.{Apart, store64_outside, load64_same, load64-store64, load64-store64_other}
use eta_os.Heap.{Heap, next_of, last_of, split_at}
use eta_os.Heap.Blocks.{Block}
use eta_os.Heap.Chain.{link, Chain, Chain-same}
use eta_os.Heap.Split.{relinked, headed, parted, headed_outside, parted_outside, parted_behind}

-- The stores of `split_at` and the mark are those of `parted`.
pub split_at-parted :
    (h : Heap) (a n d new next : ℕ)
    → next_of h.mem a ≡ next
    → h.mem (a + 24) ≡ 1
    → u64 (a + n + 32) ≡ new
    → Apart (next + 16) 8 a 32
    → a + 32 ≤ new
    → store8 (split_at h a n d).mem (a + 24) 0 ≡ parted h.mem a (next + 16) new next d n
unfolding split_at parted headed relinked
split_at-parted h a n d new next is_next is_flag is_new apart behind =
    let m₁ = store64 h.mem (next + 16) new in
    let next_again : load64 m₁ (a + 8) ≡ next =
      load64-store64_other h.mem (next + 16) (a + 8) new (omega arith) ∙ is_next in
    let m₅ =
      store64 (store64 (store64 (store64 m₁ (new + 8) next) (a + 8) new) (new + 16) a) new d in
    let flag_again : m₅ (a + 24) ≡ 1 =
      store64_outside _ new d (a + 24) (omega arith)
      ∙ store64_outside _ (new + 16) a (a + 24) (omega arith)
      ∙ store64_outside _ (a + 8) new (a + 24) (omega arith)
      ∙ store64_outside _ (new + 8) next (a + 24) (omega arith)
      ∙ store64_outside h.mem (next + 16) new (a + 24) (omega arith)
      ∙ is_flag in
    rw (is_new, is_next, next_again, flag_again) refl

linked_before :
    (m : Mem) (a new d n e : ℕ)
    → new < 2 ^ 64
    → a + 32 ≤ new
    → new + 32 ≤ e
    → last_of (relinked m a (e + 16) new e d n) e ≡ new
unfolding relinked
linked_before m a new d n e fits an ne =
    load64-store64_other _ (a + 8) (e + 16) new (omega arith)
    ∙ load64-store64_other _ (new + 8) (e + 16) e (omega arith)
    ∙ load64-store64 m (e + 16) new fits

-- Behind the segment that is split, only the `last` of the next header changes.
pub parted-Chain :
    (m : Mem) (a new d n e : ℕ) (bs : List Block)
    → new < 2 ^ 64
    → a + 32 ≤ new
    → new + 32 ≤ e
    → Chain m a e bs
    → Chain (parted m a (link e bs + 16) new (link e bs) d n) new e bs
parted-Chain m a new d n e [] fits an ne c = tt
parted-Chain m a new d n e (b ∷ bs) fits an ne (h, c) =
    let m' = parted m a (e + 16) new e d n in
    let m₁ = store64 m (e + 16) new in
    let keep : (x : ℕ) → e ≤ x → Apart (e + 16) 8 x 1 → m' x ≡ m x = λ x l o.
      parted_behind m a (e + 16) new e d n (omega arith) (omega arith) an x o (omega arith)
        (omega arith) (omega arith) in
    let linked : last_of m' e ≡ new =
      load64_same {m = relinked m a (e + 16) new e d n} {m' = m'} (e + 16) (λ x l u.
        parted_outside m a (e + 16) new e d n (omega arith) (omega arith) an x (omega arith)
          (omega arith)
        ∙ headed_outside m a (e + 16) new e d n (omega arith) (omega arith) an x (omega arith)
            (omega arith))
      ∙ linked_before m a new d n e fits an ne in
    (
      record {
        length_is = load64_same {m = m} {m' = m'} e (λ x l u. keep x l (omega arith)) ∙ h.length_is;
        next_is =
            load64_same {m = m} {m' = m'} (e + 8) (λ x l u. keep x (omega arith) (omega arith))
            ∙ h.next_is;
        last_is = linked;
        flag_is = keep (e + 24) (omega arith) (omega arith) ∙ h.flag_is;
      },
      Chain-same m m' e (e + 32 + b.size) bs c (λ x l u. keep x (omega arith) (omega arith)),
    )
