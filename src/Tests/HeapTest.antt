-- ===== src/Tests/HeapTest.antt =====
-- A heap of one page at 4096.
use eta_os.Base.{
  ℕ, ◌+◌, ◌-◌, ◌*◌, ◌≡◌, refl, inl, true, false, ◌&&◌, some, List, [], ◌∷◌, arith, ltb, leb, ◌==◌,
  if◌then◌else◌,
}
use eta_os.Memory.{Mem, store8, load16, load32, load64, store16, store32, store64}
use eta_os.Heap.{Heap, combine_forward, free, find_fit, map_pages, init_heap, malloc}
use eta_os.Heap.Blocks.{Block, allocate}
use eta_os.Heap.Chain.{Holds}
use eta_os.Heap.Init.{init_heap-Holds}
use eta_os.Heap.Free.{free-Holds}
use eta_os.Heap.Combine.{Swallowed, combine_forward-Swallowed}
use eta_os.Heap.Malloc.{rounded, malloc-allocate, malloc-exact_twice}
use eta_os.Heap.Extend.{KeepsHeap}
use eta_os.Heap.Returns.{malloc_returns}

-- A page that is mapped shows zeros.
abbrev fresh_page : Mem → ℕ → Mem
fresh_page m pos x = if leb pos x && ltb x (pos + 4096) then 0 else m x

abbrev before_boot : Heap
before_boot = record { mem = λ x. 0; heap_start = 0; heap_end = 0; last_header = 0 }

one_page : Heap
one_page = init_heap fresh_page before_boot 4096 1

abbrev one_block : List Block
one_block = record { size = 4064; used = false } ∷ []

one_page-Holds : Holds one_page one_block
unfolding one_page
one_page-Holds =
    init_heap-Holds fresh_page before_boot 4096 1 (omega arith) (omega arith) (omega arith)

one_page_start : one_page.heap_start ≡ 4096
unfolding one_page init_heap
one_page_start = refl

init_heap-Holds_example :
    Holds
      (init_heap fresh_page before_boot 4096 1)
      (record { size = 1 * 4096 - 32; used = false } ∷ [])
init_heap-Holds_example =
    init_heap-Holds fresh_page before_boot 4096 1 (omega arith) (omega arith) (omega arith)

-- 100 bytes become 112, and the rest of the page is a block of 3920.
abbrev two_blocks : List Block
two_blocks = record { size = 112; used = true } ∷ record { size = 3920; used = false } ∷ []

malloc-allocate_example :
    (h' : Heap) × (malloc fresh_page 1 1 one_page 100 ≡ some (h', one_page.heap_start + 32))
    × Holds h' two_blocks
    × (h'.heap_start ≡ one_page.heap_start)
unfolding allocate
malloc-allocate_example =
    malloc-allocate fresh_page 0 1 one_page one_block 100 one_page-Holds (omega arith) (omega arith)
      (omega arith) two_blocks 32 refl

exact_call : malloc fresh_page 1 1 one_page 4064 ≡ some (one_page, 4128)
unfolding malloc find_fit one_page init_heap map_pages store64 store32 store16 store8 load64 load32
    load16
exact_call = refl

malloc-exact_twice_example : ◌≡◌ {A = ℕ} 4128 4128
unfolding one_page init_heap
malloc-exact_twice_example =
    malloc-exact_twice fresh_page 0 1 one_page one_block 4064 one_page-Holds (omega arith)
      (omega arith) (omega arith) 4096 one_page one_page 4128 4128 refl exact_call exact_call

-- The whole page in one block that is in use.
full_call :
    (h' : Heap) × (malloc fresh_page 1 1 one_page 4032 ≡ some (h', one_page.heap_start + 32))
    × Holds h' (record { size = 4064; used = true } ∷ [])
    × (h'.heap_start ≡ one_page.heap_start)
unfolding allocate
full_call =
    malloc-allocate fresh_page 0 1 one_page one_block 4032 one_page-Holds (omega arith)
      (omega arith) (omega arith) (record { size = 4064; used = true } ∷ []) 32 refl

free-Holds_example : Holds (free full_call.0 (full_call.0.heap_start + 0 + 32)) one_block
free-Holds_example =
    free-Holds full_call.0 [] (record { size = 4064; used = true }) [] full_call.2 tt tt

full_end : full_call.0.heap_end ≡ 8192
full_end = omega (arith, full_call.2.ends, full_call.3, one_page_start)

-- The page behind the heap is outside it.
full_call-KeepsHeap : KeepsHeap fresh_page full_call.0 (rounded 100)
unfolding map_pages
full_call-KeepsHeap x lo hi = ground arith

malloc_returns_example :
    (h' : Heap) × (p : ℕ) × (bs' : List Block) × (malloc fresh_page 2 2 full_call.0 100
      ≡ some (h', p))
    × Holds h' bs'
malloc_returns_example =
    malloc_returns fresh_page 0 2 full_call.0 (record { size = 4064; used = true } ∷ []) 100
      full_call.2 (omega arith) (omega arith) (omega arith) refl full_call-KeepsHeap (omega arith)
      (omega (arith, full_end))

-- Two free segments of 16 and 32 bytes, at 4096 and 4144.
abbrev two_free : Heap
two_free = record {
  mem = λ x.
      if x == 4096
      then 16
      else if x == 4104
      then 0x30
      else if x == 4105
      then 0x10
      else if x == 4144
      then 32
      else if x == 4168
      then 1
      else 0;
  heap_start = 4096;
  heap_end = 4208;
  last_header = 4144;
}

combine_forward-Swallowed_example :
    Swallowed two_free.mem (combine_forward two_free 4096).mem 4096 4144
unfolding load64 load32 load16
combine_forward-Swallowed_example =
    combine_forward-Swallowed two_free 4096 4144 refl (omega arith) refl (inl refl)
