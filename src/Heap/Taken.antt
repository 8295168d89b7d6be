-- ===== src/Heap/Taken.antt =====
-- The search of `malloc` and the search of `allocate`, side by side.
use eta_os.Base.{
  ℕ, ◌+◌, ◌^◌, ◌≤◌, ◌<◌, ◌≡◌, refl, sym, ◌∙◌, ◌⊎◌, inl, inr, false, none, some, List, [], ◌∷◌,
  arith, ltb, ◌==◌, ltb→lt, Bool-cases, length,
}
use eta_os.Heap.{Heap, Fit, larger, exact, nothing, take_larger}
use eta_os.Heap.Blocks.{Block, span, cut, behind, allocate}
use eta_os.Heap.Chain.{Chain}
use eta_os.Heap.Find.{fit_at}
use eta_os.Heap.Change.{Becomes, Cut-Becomes, Becomes-cons}
use eta_os.Heap.Larger.{take_larger-Cut}

pub Fit-cases : (f : Fit) → ((c : ℕ) × (f ≡ larger c)) ⊎ ((c : ℕ) × (f ≡ exact c)) ⊎ (f ≡ nothing)
Fit-cases (larger c) = inl (c, refl)
Fit-cases (exact c) = inr (inl (c, refl))
Fit-cases nothing = inr (inr refl)

-- What taking the block at `c` comes to.
pub record Taken (h h' : Heap) (last a n c : ℕ) (bs : List Block) : Type 0 where
  pub blocks : List Block
  pub offset : ℕ
  pub allocated : allocate n bs ≡ some (blocks, offset)
  pub place : c + 32 ≡ a + offset
  pub inside : offset ≤ span bs
  pub becomes : Becomes h h' last a bs blocks

-- The first block is cut, or given out whole, or the search goes on behind it.
pub head-cases :
    (n a : ℕ) (b : Block) (bs : List Block)
    → (((b.used ≡ false) × (n < b.size))
        × (fit_at n a (b ∷ bs) ≡ larger a)
        × (allocate n (b ∷ bs) ≡ some (cut n b bs, 32)))
      ⊎ ((fit_at n a (b ∷ bs) ≡ exact a) × (allocate n (b ∷ bs) ≡ some (b ∷ bs, 32)))
      ⊎ ((fit_at n a (b ∷ bs) ≡ fit_at n (a + 32 + b.size) bs)
          × (allocate n (b ∷ bs) ≡ behind b (allocate n bs)))
unfolding allocate
head-cases n a b bs = elim (Bool-cases b.used) [
  | inl used ↦ inr (inr (rw used refl, rw used refl))
  | inr unused ↦ (elim (Bool-cases (ltb n b.size)) [
    | inl less ↦
        inl ((unused, ltb→lt n b.size less), rw (unused, less) refl, rw (unused, less) refl)
    | inr not_less ↦ (elim (Bool-cases (b.size == n)) [
      | inl same ↦ inr (inl (rw (unused, not_less, same) refl, rw (unused, not_less, same) refl))
      | inr other ↦ inr (inr (rw (unused, not_less, other) refl, rw (unused, not_less, other) refl))
    ])
  ])
]

exact-injective : {c d : ℕ} → exact c ≡ exact d → c ≡ d
exact-injective h = cc

larger-ne-exact : {c d : ℕ} → larger c ≡ exact d → ⊥
larger-ne-exact h = cc

larger-injective : {c d : ℕ} → larger c ≡ larger d → c ≡ d
larger-injective h = cc

Taken-cons :
    (h h' : Heap) (last a n c : ℕ) (b : Block) (bs : List Block)
    → 24 ≤ a
    → 0 < length bs
    → Chain h.mem last a (b ∷ bs)
    → allocate n (b ∷ bs) ≡ behind b (allocate n bs)
    → Taken h h' a (a + 32 + b.size) n c bs
    → Taken h h' last a n c (b ∷ bs)
Taken-cons h h' last a n c b bs starts more chain later t = record {
  blocks = b ∷ t.blocks;
  offset = 32 + b.size + t.offset;
  allocated = later ∙ rw t.allocated refl;
  place = omega (arith, t.place);
  inside = omega (arith, t.inside);
  becomes = Becomes-cons h h' last a b bs t.blocks starts more chain t.becomes;
}

fit_at-some : (n a c : ℕ) (bs : List Block) → fit_at n a bs ≡ larger c → 0 < length bs
fit_at-some n a c [] found = cc
fit_at-some n a c (b ∷ bs) found = omega arith

pub take-Taken :
    (h : Heap) (last a n c : ℕ) (bs : List Block)
    → 24 ≤ a
    → 16 ≤ n
    → a + span bs ≤ 2 ^ 63
    → Chain h.mem last a bs
    → fit_at n a bs ≡ larger c
    → Taken h (take_larger h c n) last a n c bs
take-Taken h last a n c [] starts whole ends chain found = cc
take-Taken h last a n c (b ∷ bs) starts whole ends chain found = elim (head-cases n a b bs) [
  | inl ((unused, fits), fit, given) ↦
      let here : c ≡ a = larger-injective (sym found ∙ fit) in
      rw here (record {
        blocks = cut n b bs;
        offset = 32;
        allocated = given;
        place = refl;
        inside = omega arith;
        becomes =
            Cut-Becomes h (take_larger h a n) last a n b bs fits
              (take_larger-Cut h last a n b bs chain unused fits whole starts (omega arith));
      })
  | inr (inl (fit, given)) ↦ absurd (larger-ne-exact (sym found ∙ fit))
  | inr (inr (fit, later)) ↦
      let found_later = sym fit ∙ found in
      Taken-cons h (take_larger h c n) last a n c b bs starts
        (fit_at-some n (a + 32 + b.size) c bs found_later) chain later
        (take-Taken h a (a + 32 + b.size) n c bs (omega arith) whole (omega arith) chain.1
          found_later)
]

pub exact_lem :
    (a n c : ℕ) (bs : List Block)
    → fit_at n a bs ≡ exact c
    → (offset : ℕ) × (allocate n bs ≡ some (bs, offset))
      × (c + 32 ≡ a + offset)
      × (offset ≤ span bs)
exact_lem a n c [] found = cc
exact_lem a n c (b ∷ bs) found = elim (head-cases n a b bs) [
  | inl (_, fit, given) ↦ absurd (larger-ne-exact (sym fit ∙ found))
  | inr (inl (fit, given)) ↦
      let here : c ≡ a = exact-injective (sym found ∙ fit) in (32, given, omega arith, omega arith)
  | inr (inr (fit, later)) ↦
      let (offset, e, place, inside) = exact_lem (a + 32 + b.size) n c bs (sym fit ∙ found) in
      (32 + b.size + offset, later ∙ rw e refl, omega arith, omega arith)
]

pub nothing_lem : (a n : ℕ) (bs : List Block) → fit_at n a bs ≡ nothing → allocate n bs ≡ none
unfolding allocate
nothing_lem a n [] found = refl
nothing_lem a n (b ∷ bs) found = elim (head-cases n a b bs) [
  | inl (_, fit, given) ↦ cc
  | inr (inl (fit, given)) ↦ cc
  | inr (inr (fit, later)) ↦ later ∙ rw (nothing_lem (a + 32 + b.size) n bs (sym fit ∙ found)) refl
]
