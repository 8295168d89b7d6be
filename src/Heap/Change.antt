-- ===== src/Heap/Change.antt =====
-- Changes to some of the blocks of a heap, and what they keep.
use eta_os.Base.{
  ℕ, ◌+◌, ◌-◌, ◌≤◌, ◌<◌, ◌≡◌, refl, sym, ap, ◌∙◌, inl, inr, List, [], ◌∷◌, arith, ltb, Bool-cases,
  length,
}
use eta_os.Heap.{Heap}
use eta_os.Heap.Blocks.{Block, span, last_at, cut}
use eta_os.Heap.Chain.{link, Chain, Chain-cons}
use eta_os.Heap.Larger.{last_after, Cut}

pub last_at-le : (a : ℕ) (b : Block) (bs : List Block) → a ≤ last_at a (b ∷ bs)
last_at-le a b [] = omega arith
last_at-le a b (c ∷ bs) = omega (arith, last_at-le (a + 32 + b.size) c bs)

pub last_at-cons :
    (a : ℕ) (b : Block) (bs : List Block)
    → 0 < length bs
    → last_at a (b ∷ bs) ≡ last_at (a + 32 + b.size) bs
last_at-cons a b [] h = absurd (omega arith)
last_at-cons a b (c ∷ bs) h = refl

link-cons : (e : ℕ) (bs bs' : List Block) → 0 < length bs → 0 < length bs' → link e bs ≡ link e bs'
link-cons e [] bs' h h' = absurd (omega arith)
link-cons e (b ∷ bs) [] h h' = absurd (omega arith)
link-cons e (b ∷ bs) (b' ∷ bs') h h' = refl

last_after-cut :
    (n a : ℕ) (b : Block) (bs : List Block)
    → n < b.size
    → last_after n a b (last_at a (b ∷ bs)) ≡ last_at a (cut n b bs)
last_after-cut n a b [] fits = ground arith
last_after-cut n a b (c ∷ bs) fits = elim (Bool-cases (ltb b.size (n + 48))) [
  | inl small ↦ rw small refl
  | inr large ↦
      let e : a + 32 + n + 32 + (b.size - n - 32) ≡ a + 32 + b.size = ground arith in
      let far = last_at-le (a + 32 + b.size) c bs in rw (large, e) (ground arith)
]

span-cut : (n : ℕ) (b : Block) (bs : List Block) → n < b.size → span (cut n b bs) ≡ span (b ∷ bs)
span-cut n b bs fits = elim (Bool-cases (ltb b.size (n + 48))) [
  | inl small ↦ rw small refl
  | inr large ↦ rw large (ground arith)
]

length-cut : (n : ℕ) (b : Block) (bs : List Block) → 0 < length (cut n b bs)
length-cut n b bs = elim (Bool-cases (ltb b.size (n + 48))) [
  | inl small ↦ rw small (omega arith)
  | inr large ↦ rw large (omega arith)
]

-- The blocks `bs` at `a` become `bs'`, and no byte from 24 on before them changes.
pub record Becomes (h h' : Heap) (last a : ℕ) (bs bs' : List Block) : Type 0 where
  pub chain : Chain h'.mem last a bs'
  pub before : (x : ℕ) → 24 ≤ x → x < a → h'.mem x ≡ h.mem x
  pub last_header_is : h.last_header ≡ last_at a bs → h'.last_header ≡ last_at a bs'
  pub same_span : span bs' ≡ span bs
  pub some_block : 0 < length bs'
  pub same_start : h'.heap_start ≡ h.heap_start
  pub same_end : h'.heap_end ≡ h.heap_end

pub Cut-Becomes :
    (h h' : Heap) (last a n : ℕ) (b : Block) (bs : List Block)
    → n < b.size
    → Cut h h' last a n b bs
    → Becomes h h' last a (b ∷ bs) (cut n b bs)
Cut-Becomes h h' last a n b bs fits c = record {
  chain = c.chain;
  before = c.before;
  last_header_is = λ e. c.last_header_is ∙ rw e (last_after-cut n a b bs fits);
  same_span = span-cut n b bs fits;
  some_block = length-cut n b bs;
  same_start = c.same_start;
  same_end = c.same_end;
}

-- A block before a change stays.
pub Becomes-cons :
    (h h' : Heap) (last a : ℕ) (b : Block) (bs bs' : List Block)
    → 24 ≤ a
    → 0 < length bs
    → Chain h.mem last a (b ∷ bs)
    → Becomes h h' a (a + 32 + b.size) bs bs'
    → Becomes h h' last a (b ∷ bs) (b ∷ bs')
Becomes-cons h h' last a b bs bs' starts more (header, c) t =
    let link_is = link-cons (a + 32 + b.size) bs bs' more t.some_block in
    record {
      chain =
          Chain-cons h.mem h'.mem last a b (link (a + 32 + b.size) bs) bs' header link_is
            (λ x l u. t.before x (omega arith) (omega arith)) t.chain;
      before = λ x l u. t.before x l (omega arith);
      last_header_is = λ e.
          t.last_header_is (e ∙ last_at-cons a b bs more) ∙ sym (last_at-cons a b bs' t.some_block);
      same_span = ap (λ (k : ℕ). 32 + b.size + k) t.same_span;
      some_block = omega arith;
      same_start = t.same_start;
      same_end = t.same_end;
    }
