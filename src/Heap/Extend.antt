-- ===== src/Heap/Extend.antt =====
-- The heap after `extend_heap`, where its last segment is in use.
use eta_os.Base.{
  ℕ, ◌+◌, ◌-◌, ◌*◌, ◌/◌, ◌%◌, ◌^◌, ◌≤◌, ◌<◌, ◌≡◌, sym, ◌∙◌, inr, false, List, [], ◌∷◌, ◌++◌, arith,
  u64, sub64,
}
use eta_os.Memory.{Mem, store8, store64}
use eta_os.Memory.Words.{
  Apart, store64_outside, load64-store64, load64-store64_other, store8_outside, store8_self,
}
use eta_os.Heap.{Heap, next_of, round_up, map_pages, extend_heap}
use eta_os.Heap.Blocks.{Block}
use eta_os.Heap.Chain.{Header, Chain, Holds}
use eta_os.Heap.Free.{EndsUsed, span-append, combine_backward_none}
use eta_os.Heap.Append.{append-Chain, last_flag, last_at-lt, last_at-append, length-append}

-- The stores of `extend_heap` in the memory `m` of the new pages.
module _ (m : Mem) (new last size : ℕ) where
  extended : Mem
  extended =
      store64
        (store64 (store64 (store64 (store8 m (new + 24) 1) (new + 16) last) (last + 8) new)
          (new + 8) 0)
        new size

  module _ (below : last + 32 ≤ new) (new_fits : new < 2 ^ 64) where
    extended_before : (x : ℕ) → x < new → Apart (last + 8) 8 x 1 → extended x ≡ m x
    unfolding extended
    extended_before x l o =
        store64_outside _ new size x (omega arith)
        ∙ store64_outside _ (new + 8) 0 x (omega arith)
        ∙ store64_outside _ (last + 8) new x o
        ∙ store64_outside _ (new + 16) last x (omega arith)
        ∙ store8_outside m (new + 24) 1 x (omega arith)

    extended-next_of : next_of extended last ≡ new
    unfolding extended
    extended-next_of =
        load64-store64_other _ new (last + 8) size (omega arith)
        ∙ load64-store64_other _ (new + 8) (last + 8) 0 (omega arith)
        ∙ load64-store64 _ (last + 8) new new_fits

    extended-Header :
        size < 2 ^ 64 → Header extended last new (record { size = size; used = false }) 0
    unfolding extended
    extended-Header fits = record {
      length_is = load64-store64 _ new size fits;
      next_is =
          load64-store64_other _ new (new + 8) size (omega arith)
          ∙ load64-store64 _ (new + 8) 0 (omega arith);
      last_is =
          load64-store64_other _ new (new + 16) size (omega arith)
          ∙ load64-store64_other _ (new + 8) (new + 16) 0 (omega arith)
          ∙ load64-store64_other _ (last + 8) (new + 16) new (omega arith)
          ∙ load64-store64 _ (new + 16) last (omega arith);
      flag_is =
          store64_outside _ new size (new + 24) (omega arith)
          ∙ store64_outside _ (new + 8) 0 (new + 24) (omega arith)
          ∙ store64_outside _ (last + 8) new (new + 24) (omega arith)
          ∙ store64_outside _ (new + 16) last (new + 24) (omega arith)
          ∙ store8_self m (new + 24) 1;
    }

-- The pages that `extend_heap` maps for `length'` bytes leave the bytes of the heap as they are.
abbrev pub KeepsHeap : (Mem → ℕ → Mem) → Heap → ℕ → Type 0
KeepsHeap map_page h length' =
    (x : ℕ)
    → h.heap_start ≤ x
    → x < h.heap_end
    → map_pages map_page (round_up 0x1000 length' / 0x1000) h.mem h.heap_end x ≡ h.mem x

module _ (map_page : Mem → ℕ → Mem) where
  module _ (h : Heap) (bs : List Block) (length' : ℕ) (held : Holds h bs) (used : EndsUsed bs)
      (keeps : KeepsHeap map_page h length') (some_byte : 0 < length') (fits : length' ≤ 2 ^ 63)
      (room : h.heap_end + round_up 0x1000 length' ≤ 2 ^ 63) where
    -- The heap with the new block.
    grown : Heap
    unfolding extended
    grown =
        let r = round_up 0x1000 length' in
        record h {
          mem =
              extended (map_pages map_page (r / 4096) h.mem h.heap_end) h.heap_end h.last_header
                (r - 32);
          heap_end = h.heap_end + r;
          last_header = h.heap_end;
        }

    last_below : h.last_header + 32 ≤ h.heap_end
    last_below =
        omega (arith, held.last_header_is, held.ends, last_at-lt h.heap_start bs held.some_block)

    whole_pages : (4096 ≤ round_up 0x1000 length') × (round_up 0x1000 length' % 4096 ≡ 0)
    whole_pages = ground arith

    grown_before :
        (x : ℕ)
        → h.heap_start ≤ x
        → x < h.heap_end
        → Apart (h.last_header + 8) 8 x 1
        → grown.mem x ≡ h.mem x
    unfolding grown
    grown_before x lo l o =
        extended_before _ h.heap_end h.last_header (round_up 0x1000 length' - 32) last_below
          (omega (arith, held.lower_half)) x l o
        ∙ keeps x lo l

    grown-Header :
        Header grown.mem h.last_header h.heap_end
          (record { size = round_up 0x1000 length' - 32; used = false })
          0
    unfolding grown
    grown-Header =
        extended-Header _ h.heap_end h.last_header (round_up 0x1000 length' - 32) last_below
          (omega (arith, held.lower_half)) (omega arith)

    grown-next_of : next_of grown.mem h.last_header ≡ h.heap_end
    unfolding grown
    grown-next_of =
        extended-next_of _ h.heap_end h.last_header (round_up 0x1000 length' - 32) last_below
          (omega (arith, held.lower_half))

    grown-Chain :
        Chain grown.mem 0 h.heap_start
          (bs ++ (record { size = round_up 0x1000 length' - 32; used = false } ∷ []))
    grown-Chain =
        let at = held.last_header_is in
        let end = held.ends in
        append-Chain h.mem grown.mem 0 h.heap_start bs
          (record { size = round_up 0x1000 length' - 32; used = false }) held.some_block held.chain
          (λ x l u o. grown_before x l (omega arith) (rw at o)) (rw (← at, ← end) grown-next_of)
          (rw (← at, ← end) grown-Header)

    extend_heap-grown : extend_heap map_page h length' ≡ grown
    unfolding extend_heap grown extended
    extend_heap-grown =
        let r = round_up 0x1000 length' in
        let whole = whole_pages in
        let size : sub64 r 32 ≡ r - 32 = omega arith in
        let end : u64 (h.heap_end + r / 4096 * 4096) ≡ h.heap_end + r = omega arith in
        let flag : grown.mem (h.last_header + 24) ≡ 0 =
          grown_before (h.last_header + 24)
            (omega (arith, held.last_header_is, last_at-lt h.heap_start bs held.some_block))
            (omega (arith, last_below)) (omega arith)
          ∙ rw held.last_header_is
              (last_flag h.mem 0 h.heap_start bs held.some_block used held.chain) in
        rw (size, end)
          (combine_backward_none grown h.heap_end h.last_header grown-Header.last_is (inr flag))

    -- Where the last segment is in use, `extend_heap` puts one free block of whole pages behind it.
    pub extend_heap-Holds :
        Holds
          (extend_heap map_page h length')
          (bs ++ (record { size = round_up 0x1000 length' - 32; used = false } ∷ []))
    unfolding grown
    extend_heap-Holds =
        let new : Block = record { size = round_up 0x1000 length' - 32; used = false } in
        let whole = whole_pages in
        let at = held.last_header_is in
        let end = held.ends in
        rw extend_heap-grown (record {
          chain = grown-Chain;
          some_block = length-append bs new;
          starts = held.starts;
          ends = omega (arith, span-append bs (new ∷ []));
          lower_half = room;
          last_header_is = end ∙ sym (last_at-append h.heap_start bs new);
        })
