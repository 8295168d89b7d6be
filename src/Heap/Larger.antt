-- ===== src/Heap/Larger.antt =====
-- `take_larger` cuts the block at the head of a chain.
use eta_os.Base.{
  ℕ, ◌+◌, ◌-◌, ◌^◌, ◌≤◌, ◌<◌, ◌≡◌, refl, ◌∙◌, inl, inr, false, List, [], ◌∷◌, arith, ltb, ◌==◌,
  if◌then◌else◌, ltb→lt, lt→ltb, Bool-cases, u64, sub64,
}
use eta_os.Memory.{store8}
use eta_os.Memory.Words.{Apart, load64_same, store8_outside, store8_self}
use eta_os.Heap.{Heap, length_of, split_at, split, take_larger}
use eta_os.Heap.Blocks.{Block, cut}
use eta_os.Heap.Chain.{link, Chain, Chain-same}
use eta_os.Heap.Split.{parted, parted_behind, first_Header, second_Header}
use eta_os.Heap.Take.{split_at-parted, parted-Chain}

-- Which header is the last after the block at `a` is cut.
abbrev pub last_after : ℕ → ℕ → Block → ℕ → ℕ
last_after n a b current =
    if ltb b.size (n + 48) then current else if current == a then a + 32 + n else current

-- The block at `a` is cut, and no byte from 24 on before it changes.
pub record Cut (h h' : Heap) (last a n : ℕ) (b : Block) (bs : List Block) : Type 0 where
  pub chain : Chain h'.mem last a (cut n b bs)
  pub before : (x : ℕ) → 24 ≤ x → x < a → h'.mem x ≡ h.mem x
  pub last_header_is : h'.last_header ≡ last_after n a b h.last_header
  pub same_start : h'.heap_start ≡ h.heap_start
  pub same_end : h'.heap_end ≡ h.heap_end

link-lt : (e : ℕ) (bs : List Block) → e < 2 ^ 64 → link e bs < 2 ^ 64
link-lt e [] h = omega arith
link-lt e (b ∷ bs) h = h

link-Apart : (e : ℕ) (bs : List Block) (x k : ℕ) → 24 ≤ x → x + k ≤ e → Apart (link e bs + 16) 8 x k
link-Apart e [] x k lo hi = inl (omega arith)
link-Apart e (b ∷ bs) x k lo hi = inr (omega arith)

split_small :
    (h : Heap) (a n size : ℕ)
    → length_of h.mem a ≡ size
    → n < size
    → size < 2 ^ 63
    → size < n + 48
    → split h a n ≡ h
unfolding split
split_small h a n size is_length fits low small = rw is_length (ground arith)

split_large :
    (h : Heap) (a n size : ℕ)
    → length_of h.mem a ≡ size
    → 16 ≤ n
    → size < 2 ^ 63
    → n + 48 ≤ size
    → split h a n ≡ split_at h a n (size - n - 32)
unfolding split
split_large h a n size is_length fits low large =
    let d : sub64 (sub64 size n) 32 ≡ size - n - 32 = omega arith in
    rw (is_length, d) (ground arith)

module _ (h : Heap) (last a n : ℕ) (b : Block) (bs : List Block) (c : Chain h.mem last a (b ∷ bs))
    (unused : b.used ≡ false) (fits : n < b.size) (whole : 16 ≤ n) (starts : 24 ≤ a)
    (ends : a + 32 + b.size ≤ 2 ^ 63) where
  take_small : b.size < n + 48 → Cut h (take_larger h a n) last a n b bs
  unfolding take_larger
  take_small small =
      let m' = store8 h.mem (a + 24) 0 in
      let same : (x : ℕ) → Apart (a + 24) 1 x 1 → m' x ≡ h.mem x =
        λ x o. store8_outside h.mem (a + 24) 0 x o in
      let small_is = lt→ltb b.size (n + 48) small in
      let taken : take_larger h a n ≡ record h { mem = m' } =
        rw (split_small h a n b.size c.0.length_is fits (omega arith) small) refl in
      rw taken (record {
        chain = rw small_is (
          record {
            length_is =
                load64_same {m = h.mem} {m' = m'} a (λ x l u. same x (omega arith)) ∙ c.0.length_is;
            next_is =
                load64_same {m = h.mem} {m' = m'} (a + 8) (λ x l u. same x (omega arith))
                ∙ c.0.next_is;
            last_is =
                load64_same {m = h.mem} {m' = m'} (a + 16) (λ x l u. same x (omega arith))
                ∙ c.0.last_is;
            flag_is = store8_self h.mem (a + 24) 0;
          },
          Chain-same h.mem m' a (a + 32 + b.size) bs c.1 (λ x l u. same x (omega arith)),
        );
        before = λ x l u. same x (omega arith);
        last_header_is = rw small_is refl;
        same_start = refl;
        same_end = refl;
      })

  take_large : ltb b.size (n + 48) ≡ false → Cut h (take_larger h a n) last a n b bs
  unfolding take_larger
  take_large large =
      let e = a + 32 + b.size in
      let new = a + 32 + n in
      let next = link e bs in
      let d = b.size - n - 32 in
      let apart : Apart (next + 16) 8 a 32 = link-Apart e bs a 32 starts (omega arith) in
      let apart' : Apart (next + 16) 8 new 32 =
        link-Apart e bs new 32 (omega arith) (ground arith) in
      let flag : h.mem (a + 24) ≡ 1 = c.0.flag_is ∙ rw unused refl in
      let new_is : u64 (a + n + 32) ≡ new = ground arith in
      let m_is = split_at-parted h a n d new next c.0.next_is flag new_is apart (omega arith) in
      let m' = parted h.mem a (next + 16) new next d n in
      let tail : Chain m' new e bs =
        parted-Chain h.mem a new d n e bs (omega arith) (omega arith) (ground arith) c.1 in
      let rest : new + 32 + d ≡ e = ground arith in
      let head =
        first_Header h.mem a (next + 16) new next d n apart apart' (omega arith) last (omega arith)
          (omega arith) c.0.last_is in
      let second =
        second_Header h.mem a (next + 16) new next d n apart apart' (omega arith)
          (link-lt e bs (omega arith)) (omega arith) (omega arith) in
      let taken : take_larger h a n
          ≡ record h { mem = m'; last_header = if h.last_header == a then new else h.last_header } =
        rw (split_large h a n b.size c.0.length_is whole (omega arith) (ground arith), m_is)
          (unfold split_at in rw new_is refl) in
      rw taken (record {
        chain = rw large (head, (rw rest second, rw rest tail));
        before = λ x l u.
            parted_behind h.mem a (next + 16) new next d n apart apart' (omega arith) x
              (link-Apart e bs x 1 l (omega arith)) (omega arith) (omega arith) (omega arith);
        last_header_is = rw large refl;
        same_start = refl;
        same_end = refl;
      })

  pub take_larger-Cut : Cut h (take_larger h a n) last a n b bs
  take_larger-Cut = elim (Bool-cases (ltb b.size (n + 48))) [
    | inl small ↦ take_small (ltb→lt _ _ small)
    | inr large ↦ take_large large
  ]
