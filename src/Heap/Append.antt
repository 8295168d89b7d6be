-- ===== src/Heap/Append.antt =====
-- A block behind the last one of a chain.
use eta_os.Base.{ℕ, ◌+◌, ◌≤◌, ◌<◌, ◌≡◌, refl, ◌∙◌, List, [], ◌∷◌, ◌++◌, arith, length}
use eta_os.Memory.{Mem}
use eta_os.Memory.Words.{Apart, load64_same}
use eta_os.Heap.{next_of}
use eta_os.Heap.Blocks.{Block, span, last_at}
use eta_os.Heap.Chain.{Header, Chain, Chain-cons}
use eta_os.Heap.Change.{last_at-le}
use eta_os.Heap.Free.{EndsUsed}

-- A block behind the blocks `bs`: the last header's `next` leads to it, all else stays.
pub append-Chain :
    (m m' : Mem) (last a : ℕ) (bs : List Block) (new : Block)
    → 0 < length bs
    → Chain m last a bs
    → ((x : ℕ) → a ≤ x → x < a + span bs → Apart (last_at a bs + 8) 8 x 1 → m' x ≡ m x)
    → next_of m' (last_at a bs) ≡ a + span bs
    → Header m' (last_at a bs) (a + span bs) new 0
    → Chain m' last a (bs ++ (new ∷ []))
append-Chain m m' last a [] new some_block c keep linked header = absurd (omega arith)
append-Chain m m' last a (b ∷ []) new some_block (h, c) keep linked header =
    let e : a + (32 + b.size + 0) ≡ a + 32 + b.size = omega arith in
    (
      record {
        length_is =
            load64_same {m = m} {m' = m'} a (λ x l u. keep x l (omega arith) (omega arith))
            ∙ h.length_is;
        next_is = linked ∙ e;
        last_is =
            load64_same {m = m} {m' = m'} (a + 16)
              (λ x l u. keep x (omega arith) (omega arith) (omega arith))
            ∙ h.last_is;
        flag_is = keep (a + 24) (omega arith) (omega arith) (omega arith) ∙ h.flag_is;
      },
      (rw e at header, tt),
    )
append-Chain m m' last a (b ∷ c ∷ bs) new some_block (h, t) keep linked header =
    let e : a + span (b ∷ c ∷ bs) ≡ a + 32 + b.size + span (c ∷ bs) = omega arith in
    let far = last_at-le (a + 32 + b.size) c bs in
    Chain-cons m m' last a b (a + 32 + b.size) (c ∷ bs ++ (new ∷ [])) h refl
      (λ x l u. keep x l (omega arith) (omega arith))
      (append-Chain m m' a (a + 32 + b.size) (c ∷ bs) new (omega arith) t
        (λ x l u o. keep x (omega arith) (omega arith) o) (linked ∙ e) (rw e at header))

-- The last segment is in use.
pub last_flag :
    (m : Mem) (last a : ℕ) (bs : List Block)
    → 0 < length bs
    → EndsUsed bs
    → Chain m last a bs
    → m (last_at a bs + 24) ≡ 0
last_flag m last a [] some_block used c = absurd (omega arith)
last_flag m last a (b ∷ []) some_block used (h, c) = h.flag_is ∙ rw used refl
last_flag m last a (b ∷ d ∷ bs) some_block used (h, c) =
    last_flag m a (a + 32 + b.size) (d ∷ bs) (omega arith) used c

-- The last header lies before the end.
pub last_at-lt :
    (a : ℕ) (bs : List Block)
    → 0 < length bs
    → (a ≤ last_at a bs) × (last_at a bs + 32 ≤ a + span bs)
last_at-lt a [] h = absurd (omega arith)
last_at-lt a (b ∷ []) h = omega arith
last_at-lt a (b ∷ c ∷ bs) h = omega (arith, last_at-lt (a + 32 + b.size) (c ∷ bs) (omega arith))

pub last_at-append :
    (a : ℕ) (bs : List Block) (new : Block) → last_at a (bs ++ (new ∷ [])) ≡ a + span bs
last_at-append a [] new = omega arith
last_at-append a (b ∷ []) new = omega arith
last_at-append a (b ∷ c ∷ bs) new = omega (arith, last_at-append (a + 32 + b.size) (c ∷ bs) new)

pub length-append : (bs : List Block) (new : Block) → 0 < length (bs ++ (new ∷ []))
length-append [] new = omega arith
length-append (b ∷ bs) new = omega arith
