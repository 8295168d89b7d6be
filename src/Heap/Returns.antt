-- ===== src/Heap/Returns.antt =====
-- `malloc` returns: a call of itself after the heap is extended finds the new segment.
use eta_os.Base.{
  ℕ, suc, ◌+◌, ◌-◌, ◌%◌, ◌^◌, ◌≤◌, ◌<◌, ◌≡◌, refl, ap, ◌∙◌, inl, inr, true, false, some, List, [],
  ◌∷◌, ◌++◌, arith, ltb, ◌==◌, Bool-cases, length,
}
use eta_os.Memory.{Mem}
use eta_os.Heap.{Heap, nothing, find_fit, round_up, extend_heap, malloc}
use eta_os.Heap.Blocks.{Block, cut, allocate}
use eta_os.Heap.Chain.{Holds}
use eta_os.Heap.Find.{fit_at}
use eta_os.Heap.Taken.{Fit-cases, head-cases, take-Taken, exact_lem}
use eta_os.Heap.Free.{EndsUsed}
use eta_os.Heap.Extend.{KeepsHeap, extend_heap-Holds}
use eta_os.Heap.Malloc.{find_fit-Holds, rounded, rounded-le, malloc-allocate}

-- With a block behind them that has the size, some block fits.
allocate-append :
    (n size : ℕ) (bs : List Block)
    → n ≤ size
    → (bs' : List Block) × (offset : ℕ) × (allocate n
          (bs ++ (record { size = size; used = false } ∷ []))
        ≡ some (bs', offset))
unfolding allocate
allocate-append n size [] fits = elim (Bool-cases (ltb n size)) [
  | inl less ↦ (cut n (record { size = size; used = false }) [], 32, rw less refl)
  | inr not_less ↦
      let same : (size == n) ≡ true = ground arith in
      (record { size = size; used = false } ∷ [], 32, rw (not_less, same) refl)
]
allocate-append n size (b ∷ bs) fits =
    let (later, offset, e) = allocate-append n size bs fits in
    let all = bs ++ (record { size = size; used = false } ∷ []) in
    elim (head-cases n 0 b all) [
      | inl (_, _, given) ↦ (cut n b all, 32, given)
      | inr (inl (_, given)) ↦ (b ∷ all, 32, given)
      | inr (inr (_, given)) ↦ (b ∷ later, 32 + b.size + offset, given ∙ rw e refl)
    ]

length-append_one : (bs : List Block) (new : Block) → length (bs ++ (new ∷ [])) ≡ suc (length bs)
length-append_one [] new = refl
length-append_one (b ∷ bs) new = omega (arith, length-append_one bs new)

round_twice : (requested : ℕ) → requested ≤ 2 ^ 62 → rounded (rounded requested) ≡ rounded requested
round_twice requested fits = let whole : rounded requested % 16 ≡ 0 = ground arith in rw whole refl

module _ (map_page : Mem → ℕ → Mem) (calls rounds : ℕ) (h : Heap) (bs : List Block) (requested : ℕ)
    (held : Holds h bs) (enough : length bs < rounds) (some_byte : 0 < requested)
    (fits : requested ≤ 2 ^ 62) where
  malloc_again :
      fit_at (rounded requested) h.heap_start bs ≡ nothing
      → malloc map_page (suc (suc calls)) rounds h requested
        ≡ malloc map_page
            (suc calls)
            rounds
            (extend_heap map_page h (rounded requested))
            (rounded requested)
  unfolding malloc
  malloc_again found =
      let big = rounded-le requested some_byte (omega arith) in
      let search : find_fit rounds h.mem h.heap_start (rounded requested) ≡ some nothing =
        find_fit-Holds rounds h bs (rounded requested) held (omega arith) ∙ ap some found in
      let positive : (rounded requested == 0) ≡ false = ground arith in rw (positive, search) refl

  -- For a request of at least one byte and at most 2 ^ 62, on a heap that holds blocks, with
  -- more rounds than blocks, where the last segment is in use, the pages for the size have room
  -- for a header too and end at 2 ^ 63 at most, and mapping them leaves the bytes of the heap
  -- as they are, malloc returns after at most one extension of the heap, and the heap it leaves
  -- holds blocks again.
  pub malloc_returns :
      EndsUsed bs
      → KeepsHeap map_page h (rounded requested)
      → rounded requested + 32 ≤ round_up 0x1000 (rounded requested)
      → h.heap_end + round_up 0x1000 (rounded requested) ≤ 2 ^ 63
      → (h' : Heap) × (p : ℕ) × (bs' : List Block) × (malloc map_page
            (suc (suc calls))
            rounds
            h
            requested
          ≡ some (h', p))
        × Holds h' bs'
  malloc_returns used keeps header_fits room =
      let n = rounded requested in
      let big = rounded-le requested some_byte (omega arith) in
      let small : n ≤ 2 ^ 62 + 16 = ground arith in
      let give = λ (bs' : List Block) (offset : ℕ) (e : allocate n bs ≡ some (bs', offset)).
        malloc-allocate map_page (suc calls) rounds h bs requested held (omega arith) some_byte
          (omega arith) bs' offset e in
      elim (Fit-cases (fit_at n h.heap_start bs)) [
        | inl (c, found) ↦
            let t =
              take-Taken h 0 h.heap_start n c bs held.starts big
                (omega (arith, held.ends, held.lower_half)) held.chain found in
            let (h', e, holds, _) = give t.blocks t.offset t.allocated in
            (h', h.heap_start + t.offset, t.blocks, e, holds)
        | inr (inl (c, found)) ↦
            let (offset, given, _, _) = exact_lem h.heap_start n c bs found in
            let (h', e, holds, _) = give bs offset given in
            (h', h.heap_start + offset, bs, e, holds)
        | inr (inr found) ↦
            let size = round_up 0x1000 n - 32 in
            let new : Block = record { size = size; used = false } in
            let grown = extend_heap map_page h n in
            let grown_holds =
              extend_heap-Holds map_page h bs n held used keeps (omega arith) (omega arith) room in
            let (bs', offset, given) = allocate-append n size bs (omega arith) in
            let (h', e, holds, _) =
              malloc-allocate map_page calls rounds grown (bs ++ (new ∷ [])) n grown_holds
                (omega (arith, length-append_one bs new)) (omega arith) (omega arith) bs' offset
                (rw (round_twice requested fits) given) in
            (h', grown.heap_start + offset, bs', malloc_again found ∙ e, holds)
      ]
