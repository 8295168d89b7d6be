-- ===== src/Heap/Malloc.antt =====
-- `malloc` does what `allocate` says.
use eta_os.Base.{
  ℕ, suc, ◌+◌, ◌^◌, ◌≤◌, ◌<◌, ◌≡◌, refl, sym, ap, ◌∙◌, inl, inr, false, Option, some, List, [], ◌∷◌,
  arith, ◌==◌, u64, length,
}
use eta_os.Memory.{Mem}
use eta_os.Heap.{Heap, larger, exact, find_fit, round_up, take_larger, malloc}
use eta_os.Heap.Blocks.{Block, allocate}
use eta_os.Heap.Chain.{Holds}
use eta_os.Heap.Find.{fit_at, find_fit-Chain}
use eta_os.Heap.Change.{Becomes}
use eta_os.Heap.Taken.{Fit-cases, take-Taken, exact_lem, nothing_lem}

Becomes-Holds :
    (h h' : Heap) (bs bs' : List Block)
    → Holds h bs
    → Becomes h h' 0 h.heap_start bs bs'
    → Holds h' bs'
Becomes-Holds h h' bs bs' held t =
    let start = t.same_start in
    let size = t.same_span in
    record {
      chain = rw start t.chain;
      some_block = t.some_block;
      starts = omega (arith, held.starts);
      ends = omega (arith, held.ends, t.same_end);
      lower_half = omega (arith, held.lower_half, t.same_end);
      last_header_is = rw start (t.last_header_is held.last_header_is);
    }

pub find_fit-Holds :
    (rounds : ℕ) (h : Heap) (bs : List Block) (n : ℕ)
    → Holds h bs
    → length bs ≤ rounds
    → find_fit rounds h.mem h.heap_start n ≡ some (fit_at n h.heap_start bs)
find_fit-Holds rounds h [] n held r = absurd (omega (arith, held.some_block))
find_fit-Holds rounds h (b ∷ bs) n held r =
    find_fit-Chain rounds h.mem 0 h.heap_start n b bs (omega arith) held.chain

same_answer :
    {bs bs' : List Block} {offset offset' : ℕ}
    → ◌≡◌ {A = Option (List Block × ℕ)} (some (bs, offset)) (some (bs', offset'))
    → (bs ≡ bs') × (offset ≡ offset')
same_answer h = (cc, cc)

same_result :
    {h h' : Heap} {p p' : ℕ}
    → ◌≡◌ {A = Option (Heap × ℕ)} (some (h, p)) (some (h', p'))
    → (h ≡ h') × (p ≡ p')
same_result e = (cc, cc)

-- The size that is asked of the segments.
abbrev pub rounded : ℕ → ℕ
rounded requested = round_up 0x10 requested

pub rounded-le : (requested : ℕ) → 0 < requested → requested ≤ 2 ^ 63 → 16 ≤ rounded requested
rounded-le requested some_byte fits = ground arith

module _ (map_page : Mem → ℕ → Mem) (calls rounds : ℕ) (h : Heap) (bs : List Block) (requested : ℕ)
    (held : Holds h bs) (enough : length bs ≤ rounds) (some_byte : 0 < requested)
    (fits : requested ≤ 2 ^ 63) where
  malloc-larger :
      (c : ℕ)
      → fit_at (rounded requested) h.heap_start bs ≡ larger c
      → malloc map_page (suc calls) rounds h requested
        ≡ some (take_larger h c (rounded requested), u64 (c + 32))
  unfolding malloc
  malloc-larger c found =
      let big = rounded-le requested some_byte fits in
      let search : find_fit rounds h.mem h.heap_start (rounded requested) ≡ some (larger c) =
        find_fit-Holds rounds h bs (rounded requested) held enough ∙ ap some found in
      let positive : (rounded requested == 0) ≡ false = ground arith in rw (positive, search) refl

  malloc-exact :
      (c : ℕ)
      → fit_at (rounded requested) h.heap_start bs ≡ exact c
      → malloc map_page (suc calls) rounds h requested ≡ some (h, u64 (c + 32))
  unfolding malloc
  malloc-exact c found =
      let big = rounded-le requested some_byte fits in
      let search : find_fit rounds h.mem h.heap_start (rounded requested) ≡ some (exact c) =
        find_fit-Holds rounds h bs (rounded requested) held enough ∙ ap some found in
      let positive : (rounded requested == 0) ≡ false = ground arith in rw (positive, search) refl

  -- For a request of at least one byte and at most 2 ^ 63, where the heap holds the blocks and
  -- their first fit gives new blocks and a place, malloc returns, with as many rounds as there
  -- are blocks, the address of that place, and the heap, with the same start, then holds the
  -- new blocks.
  pub malloc-allocate :
      (bs' : List Block) (offset : ℕ)
      → allocate (rounded requested) bs ≡ some (bs', offset)
      → (h' : Heap) × (malloc map_page (suc calls) rounds h requested
          ≡ some (h', h.heap_start + offset))
        × Holds h' bs'
        × (h'.heap_start ≡ h.heap_start)
  malloc-allocate bs' offset given = elim (Fit-cases (fit_at (rounded requested) h.heap_start bs)) [
    | inl (c, found) ↦
        let t =
          take-Taken h 0 h.heap_start (rounded requested) c bs held.starts
            (rounded-le requested some_byte fits) (omega (arith, held.ends, held.lower_half))
            held.chain found in
        let (blocks_are, offset_is) = same_answer (sym t.allocated ∙ given) in
        let at : u64 (c + 32) ≡ h.heap_start + offset =
          omega (arith, t.place, t.inside, held.ends, held.lower_half) in
        (
          take_larger h c (rounded requested),
          malloc-larger c found ∙ rw at refl,
          rw (← blocks_are)
              (Becomes-Holds h (take_larger h c (rounded requested)) bs t.blocks held t.becomes),
          t.becomes.same_start,
        )
    | inr (inl (c, found)) ↦
        let (offset', given', place, inside) =
          exact_lem h.heap_start (rounded requested) c bs found in
        let (blocks_are, offset_is) = same_answer (sym given' ∙ given) in
        let at : u64 (c + 32) ≡ h.heap_start + offset = omega (arith, held.ends, held.lower_half) in
        (h, malloc-exact c found ∙ rw at refl, rw (← blocks_are) held, refl)
    | inr (inr found) ↦
        let none_is = nothing_lem h.heap_start (rounded requested) bs found in
        cc (sym none_is ∙ given)
  ]

  -- Where the first fit is a free segment of exactly the size, two calls of malloc in a row, if
  -- they return, return the same address.
  pub malloc-exact_twice :
      (c : ℕ) (h₁ h₂ : Heap) (p q : ℕ)
      → fit_at (rounded requested) h.heap_start bs ≡ exact c
      → malloc map_page (suc calls) rounds h requested ≡ some (h₁, p)
      → malloc map_page (suc calls) rounds h₁ requested ≡ some (h₂, q)
      → p ≡ q
  malloc-exact_twice c h₁ h₂ p q found first second =
      let (same, at) = same_result (sym (malloc-exact c found) ∙ first) in
      let again : malloc map_page (suc calls) rounds h requested ≡ some (h₂, q) = rw same second in
      let (same', at') = same_result (sym (malloc-exact c found) ∙ again) in sym at ∙ at'
