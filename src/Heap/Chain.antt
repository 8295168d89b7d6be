-- ===== src/Heap/Chain.antt =====
-- Memory that holds a list of blocks as the headers of segments, each behind the one before.
use eta_os.Base.{ℕ, ◌+◌, ◌^◌, ◌≤◌, ◌<◌, ◌≡◌, ◌∙◌, List, [], ◌∷◌, arith, if◌then◌else◌, length}
use eta_os.Memory.{Mem}
use eta_os.Memory.Words.{SameOn, load64_same}
use eta_os.Heap.{Heap, length_of, next_of, last_of}
use eta_os.Heap.Blocks.{Block, span, last_at}

-- The header at `a` is that of the block `b`.
pub record Header (m : Mem) (last a : ℕ) (b : Block) (next : ℕ) : Type 0 where
  pub length_is : length_of m a ≡ b.size
  pub next_is : next_of m a ≡ next
  pub last_is : last_of m a ≡ last
  pub flag_is : m (a + 24) ≡ (if b.used then 0 else 1)

-- The `next` of a segment that ends at `e`, before the blocks `bs`.
abbrev pub link : ℕ → List Block → ℕ
link e [] = 0
link e (b ∷ bs) = e

abbrev pub Chain : Mem → ℕ → ℕ → List Block → Type 0
Chain m last a [] = Unit
Chain m last a (b ∷ bs) =
    Header m last a b (link (a + 32 + b.size) bs) × Chain m a (a + 32 + b.size) bs

Header-same :
    {m m' : Mem} {last : ℕ} (a : ℕ) {b : Block} {next : ℕ}
    → Header m last a b next
    → SameOn a 32 m m'
    → Header m' last a b next
Header-same {m} {m'} a h same = record {
  length_is = load64_same {m = m} {m' = m'} a (λ x l u. same x l (omega arith)) ∙ h.length_is;
  next_is =
      load64_same {m = m} {m' = m'} (a + 8) (λ x l u. same x (omega arith) (omega arith))
      ∙ h.next_is;
  last_is =
      load64_same {m = m} {m' = m'} (a + 16) (λ x l u. same x (omega arith) (omega arith))
      ∙ h.last_is;
  flag_is = same (a + 24) (omega arith) (omega arith) ∙ h.flag_is;
}

-- A change outside the blocks keeps their headers.
pub Chain-same :
    (m m' : Mem) (last a : ℕ) (bs : List Block)
    → Chain m last a bs
    → SameOn a (span bs) m m'
    → Chain m' last a bs
Chain-same m m' last a [] c same = tt
Chain-same m m' last a (b ∷ bs) (h, c) same = (
  Header-same {m = m} {m' = m'} a h (λ x l u. same x l (omega arith)),
  Chain-same m m' a (a + 32 + b.size) bs c (λ x l u. same x (omega arith) (omega arith)),
)

-- A block before a change keeps its header.
pub Chain-cons :
    (m m' : Mem) (last a : ℕ) (b : Block) (next : ℕ) (bs : List Block)
    → Header m last a b next
    → next ≡ link (a + 32 + b.size) bs
    → SameOn a 32 m m'
    → Chain m' a (a + 32 + b.size) bs
    → Chain m' last a (b ∷ bs)
Chain-cons m m' last a b next bs h e same c = (rw (← e) (Header-same {m = m} {m' = m'} a h same), c)

-- The heap `h` holds the blocks `bs`, at least one, in the lower half of the address space.
pub record Holds (h : Heap) (bs : List Block) : Type 0 where
  pub chain : Chain h.mem 0 h.heap_start bs
  pub some_block : 0 < length bs
  pub starts : 24 ≤ h.heap_start
  pub ends : h.heap_end ≡ h.heap_start + span bs
  pub lower_half : h.heap_end ≤ 2 ^ 63
  pub last_header_is : h.last_header ≡ last_at h.heap_start bs
