-- ===== src/Heap/Free.antt =====
-- What `free` does where no neighbour is free.
use eta_os.Base.{
  ℕ, ◌+◌, ◌<◌, ◌≡◌, refl, sym, ◌∙◌, ◌⊎◌, inl, inr, true, false, List, [], ◌∷◌, ◌++◌, arith, ◌==◌,
  Bool-cases, sub64, length,
}
use eta_os.Memory.{Mem, store8}
use eta_os.Memory.Words.{Apart, load64_same, store8_outside, store8_self}
use eta_os.Heap.Blocks.{Block, span, last_at}
use eta_os.Heap.Chain.{link, Chain, Chain-same, Chain-cons, Holds}
use eta_os.Heap.{Heap, last_of, combine_forward, combine_backward, free}

-- The last of the blocks, if there is one, is in use; and the first.
abbrev pub EndsUsed : List Block → Type 0
EndsUsed [] = Unit
EndsUsed (b ∷ []) = b.used ≡ true
EndsUsed (b ∷ c ∷ bs) = EndsUsed (c ∷ bs)

abbrev pub StartsUsed : List Block → Type 0
StartsUsed [] = Unit
StartsUsed (b ∷ bs) = b.used ≡ true

-- The `last` of the segment behind the blocks `xs`, which begin at `a`.
abbrev pub last_behind : ℕ → ℕ → List Block → ℕ
last_behind last a [] = last
last_behind last a (x ∷ xs) = last_behind a (a + 32 + x.size) xs

locate :
    (m : Mem) (last a : ℕ) (xs ys : List Block)
    → Chain m last a (xs ++ ys)
    → Chain m (last_behind last a xs) (a + span xs) ys
locate m last a [] ys c = let e : a + 0 ≡ a = omega arith in rw e c
locate m last a (x ∷ xs) ys c =
    let e : a + (32 + x.size + span xs) ≡ a + 32 + x.size + span xs = omega arith in
    rw e (locate m a (a + 32 + x.size) xs ys c.1)

-- The segment before is in use, or there is none.
last_used :
    (m : Mem) (last a : ℕ) (x : Block) (xs ys : List Block)
    → EndsUsed (x ∷ xs)
    → Chain m last a ((x ∷ xs) ++ ys)
    → m (last_behind last a (x ∷ xs) + 24) ≡ 0
last_used m last a x [] ys used c = c.0.flag_is ∙ rw used refl
last_used m last a x (y ∷ xs) ys used c = last_used m a (a + 32 + x.size) y xs ys used c.1

link-append :
    (e : ℕ) (xs : List Block) (b b' : Block) (ys : List Block)
    → link e (xs ++ (b ∷ ys)) ≡ link e (xs ++ (b' ∷ ys))
link-append e [] b b' ys = refl
link-append e (x ∷ xs) b b' ys = refl

-- With the flag set, the block behind `xs` is free.
relabel :
    (m : Mem) (last a at : ℕ) (xs : List Block) (b : Block) (ys : List Block)
    → at ≡ a + span xs
    → Chain m last a (xs ++ (b ∷ ys))
    → Chain (store8 m (at + 24) 1) last a (xs ++ (record b { used = false } ∷ ys))
relabel m last a at [] b ys place (h, c) =
    let m' = store8 m (at + 24) 1 in
    let e : a + 24 ≡ at + 24 = omega arith in
    let same : (x : ℕ) → Apart (a + 24) 1 x 1 → m' x ≡ m x =
      λ x o. store8_outside m (at + 24) 1 x (omega arith) in
    (
      record {
        length_is = load64_same {m = m} {m' = m'} a (λ x l u. same x (omega arith)) ∙ h.length_is;
        next_is = load64_same {m = m} {m' = m'} (a + 8) (λ x l u. same x (omega arith)) ∙ h.next_is;
        last_is =
            load64_same {m = m} {m' = m'} (a + 16) (λ x l u. same x (omega arith)) ∙ h.last_is;
        flag_is = rw e (store8_self m (at + 24) 1);
      },
      Chain-same m m' a (a + 32 + b.size) ys c (λ x l u. same x (omega arith)),
    )
relabel m last a at (x ∷ xs) b ys place (h, c) =
    let m' = store8 m (at + 24) 1 in
    Chain-cons m m' last a x (link (a + 32 + x.size) (xs ++ (b ∷ ys)))
      (xs ++ (record b { used = false } ∷ ys)) h
      (link-append (a + 32 + x.size) xs b (record b { used = false }) ys)
      (λ y l u. store8_outside m (at + 24) 1 y (omega arith))
      (relabel m a (a + 32 + x.size) at xs b ys (omega arith) c)

pub span-append : (xs ys : List Block) → span (xs ++ ys) ≡ span xs + span ys
span-append [] ys = omega arith
span-append (x ∷ xs) ys = omega (arith, span-append xs ys)

last_at-relabel :
    (a : ℕ) (xs : List Block) (b : Block) (ys : List Block)
    → last_at a (xs ++ (record b { used = false } ∷ ys)) ≡ last_at a (xs ++ (b ∷ ys))
last_at-relabel a [] b [] = refl
last_at-relabel a [] b (y ∷ ys) = refl
last_at-relabel a (x ∷ []) b ys = last_at-relabel (a + 32 + x.size) [] b ys
last_at-relabel a (x ∷ z ∷ xs) b ys = last_at-relabel (a + 32 + x.size) (z ∷ xs) b ys

length-relabel : (xs : List Block) (b : Block) (ys : List Block) → 0 < length (xs ++ (b ∷ ys))
length-relabel [] b ys = omega arith
length-relabel (x ∷ xs) b ys = omega arith

-- With no free neighbour neither combination does anything.
combine_forward_none :
    (h : Heap) (a : ℕ) (b : Block) (last : ℕ) (ys : List Block)
    → StartsUsed ys
    → Chain h.mem last a (b ∷ ys)
    → combine_forward h a ≡ h
unfolding combine_forward
combine_forward_none h a b last [] used c = rw (c.0.next_is) refl
combine_forward_none h a b last (y ∷ ys) used c =
    let flag : h.mem (a + 32 + b.size + 24) ≡ 0 = c.1.0.flag_is ∙ rw used refl in
    let there : ((a + 32 + b.size) == 0) ≡ false = ground arith in
    rw (c.0.next_is, there, flag) refl

pub combine_backward_none :
    (h : Heap) (a last : ℕ)
    → last_of h.mem a ≡ last
    → (last ≡ 0) ⊎ (h.mem (last + 24) ≡ 0)
    → combine_backward h a ≡ h
unfolding combine_backward
combine_backward_none h a last e (inl none_before) = rw (e, none_before) refl
combine_backward_none h a last e (inr used) = elim (Bool-cases (last == 0)) [
  | inl zero_last ↦ rw (e, zero_last) refl
  | inr there ↦ rw (e, there, used) refl
]

before_used :
    (m : Mem) (a : ℕ) (xs ys : List Block)
    → EndsUsed xs
    → Chain m 0 a (xs ++ ys)
    → (last_behind 0 a xs ≡ 0) ⊎ (m (last_behind 0 a xs + 24) ≡ 0)
before_used m a [] ys used c = inl refl
before_used m a (x ∷ xs) ys used c = inr (last_used m 0 a x xs ys used c)

-- Where the segments before and behind the one that is freed are in use, or are not there, free
-- marks its block as free and keeps every other.
pub free-Holds :
    (h : Heap) (xs : List Block) (b : Block) (ys : List Block)
    → Holds h (xs ++ (b ∷ ys))
    → EndsUsed xs
    → StartsUsed ys
    → Holds (free h (h.heap_start + span xs + 32)) (xs ++ (record b { used = false } ∷ ys))
unfolding free
free-Holds h xs b ys held before after =
    let size = span-append xs (b ∷ ys) in
    let at = h.heap_start + span xs in
    let b' = record b { used = false } in
    let place : sub64 (at + 32) 32 ≡ at = omega (arith, held.ends, held.lower_half) in
    let m' = store8 h.mem (at + 24) 1 in
    let freed = record h { mem = m' } in
    let chain = relabel h.mem 0 h.heap_start at xs b ys refl held.chain in
    let here = locate m' 0 h.heap_start xs (b' ∷ ys) chain in
    let forward = combine_forward_none freed at b' (last_behind 0 h.heap_start xs) ys after here in
    let backward =
      combine_backward_none freed at (last_behind 0 h.heap_start xs) here.0.last_is
        (before_used m' h.heap_start xs (b' ∷ ys) before chain) in
    rw (place, forward, backward)
      (record {
        chain = chain;
        some_block = length-relabel xs b' ys;
        starts = held.starts;
        ends = omega (arith, held.ends, span-append xs (b' ∷ ys), size);
        lower_half = held.lower_half;
        last_header_is = held.last_header_is ∙ sym (last_at-relabel h.heap_start xs b ys);
      })
