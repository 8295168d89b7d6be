-- ===== src/Heap.antt =====
-- The kernel's heap: kernel/src/memory/heap.h and heap.cpp. Segments lie one behind the other, each
-- with a header of 32 bytes: the length at 0, `next` at 8, `last` at 16 and `free` at 24. The memory
-- is what the kernel sees through its page tables.
pub mod Blocks
pub mod Chain
pub mod Find
pub mod Split
pub mod Take
pub mod Larger
pub mod Change
pub mod Taken
pub mod Combine
pub mod Malloc
pub mod Init
pub mod Append
pub mod Extend
pub mod Returns
pub mod Free
pub mod Pages
use eta_os.Base.{
  ℕ, zero, suc, ◌+◌, ◌-◌, ◌*◌, ◌/◌, ◌%◌, ◌^◌, Bool, not, ◌&&◌, ◌||◌, Option, none, some, ltb, leb,
  ◌==◌, if◌then◌else◌, u64, sub64, length,
}
use eta_os.Memory.{Mem, store8, load64, store64}

-- The globals of the file, and memory.
pub record Heap : Type 0 where
  pub mem : Mem
  pub heap_start : ℕ
  pub heap_end : ℕ
  pub last_header : ℕ

-- The fields of the header at `seg`.
abbrev pub length_of : Mem → ℕ → ℕ
length_of m seg = load64 m seg

abbrev pub next_of : Mem → ℕ → ℕ
next_of m seg = load64 m (seg + 8)

abbrev pub last_of : Mem → ℕ → ℕ
last_of m seg = load64 m (seg + 16)

abbrev pub is_free : Mem → ℕ → Bool
is_free m seg = ltb 0 (m (seg + 24))

-- `HeapSegHeader::split` where it goes through: the stores in their order, each reading what it
-- needs from the memory at that time.
unfoldable pub split_at : Heap → ℕ → ℕ → ℕ → Heap
split_at h seg split_length split_seg_length =
    let new = u64 (seg + split_length + 32) in
    let m₁ = store64 h.mem (next_of h.mem seg + 16) new in
    let m₂ = store64 m₁ (new + 8) (next_of m₁ seg) in
    let m₃ = store64 m₂ (seg + 8) new in
    let m₄ = store64 m₃ (new + 16) seg in
    let m₅ = store64 m₄ new split_seg_length in
    let m₆ = store8 m₅ (new + 24) (m₅ (seg + 24)) in
    record h {
      mem = store64 m₆ seg split_length;
      last_header = if h.last_header == seg then new else h.last_header;
    }

-- `split_seg_length` is signed: a difference from 2 ^ 63 on is negative. The result of `split` is
-- not used by the source.
unfoldable pub split : Heap → ℕ → ℕ → Heap
unfolding split_at
split h seg split_length =
    let split_seg_length = sub64 (sub64 (length_of h.mem seg) split_length) 32 in
    if ltb split_length 0x10
    then h
    else if ltb split_seg_length 0x10 || leb (2 ^ 63) split_seg_length
    then h
    else split_at h seg split_length split_seg_length

unfoldable pub combine_forward : Heap → ℕ → Heap
combine_forward h seg =
    let next = next_of h.mem seg in
    let after = next_of h.mem next in
    let m = if after == 0 then h.mem else store64 h.mem (after + 16) seg in
    if next == 0 then h else if not (is_free h.mem next) then h else record h {
      mem = store64 m seg (u64 (length_of m seg + length_of m (next_of m seg) + 32));
      last_header = if next == h.last_header then seg else h.last_header;
    }

unfoldable pub combine_backward : Heap → ℕ → Heap
unfolding combine_forward
combine_backward h seg =
    let last = last_of h.mem seg in
    if not (last == 0) && is_free h.mem last then combine_forward h last else h

unfoldable pub free : Heap → ℕ → Heap
unfolding combine_backward
free h addr =
    let seg = sub64 addr 32 in
    let freed = record h { mem = store8 h.mem (seg + 24) 1 } in
    combine_backward (combine_forward freed seg) seg

-- What the loop of `malloc` comes to: a free segment that is longer than the size, one that has
-- exactly the size, or the end of the list.
pub data Fit : Type 0 where
  larger : ℕ → Fit
  exact : ℕ → Fit
  nothing : Fit

-- The loop, with `rounds` rounds at most; `none` means that these were too few.
unfoldable pub find_fit : ℕ → Mem → ℕ → ℕ → Option Fit
find_fit zero m cur size = none
find_fit (suc rounds) m cur size =
    let rest = find_fit rounds m (next_of m cur) size in
    let onward = if next_of m cur == 0 then some nothing else rest in
    if is_free m cur
    then if ltb size (length_of m cur)
      then some (larger cur)
      else if length_of m cur == size
      then some (exact cur)
      else onward
    else onward

-- `size` as a multiple of 16, and a length as a multiple of 4096.
abbrev pub round_up : ℕ → ℕ → ℕ
round_up unit size = if ltb 0 (size % unit) then u64 (size - size % unit + unit) else size

-- The branch of a longer segment: it is split and marked as used.
unfoldable pub take_larger : Heap → ℕ → ℕ → Heap
unfolding split
take_larger h cur size =
    let parted = split h cur size in record parted { mem = store8 parted.mem (cur + 24) 0 }

-- `map_page m pos` stands for `global_ptm.map_mem(pos, global_allocator.request_page())`: the memory
-- that is seen once the page at `pos` is there.
module _ (map_page : Mem → ℕ → Mem) where
  unfoldable pub map_pages : ℕ → Mem → ℕ → Mem
  map_pages zero m pos = m
  map_pages (suc left) m pos = map_pages left (map_page m pos) (u64 (pos + 4096))

  unfoldable pub init_heap : Heap → ℕ → ℕ → Heap
  unfolding map_pages
  init_heap h heap_addr page_count =
      let heap_length = u64 (page_count * 4096) in
      let m₁ = store64 (map_pages page_count h.mem heap_addr) heap_addr (sub64 heap_length 32) in
      let m₂ = store64 m₁ (heap_addr + 8) 0 in
      let m₃ = store64 m₂ (heap_addr + 16) 0 in
      record {
        mem = store8 m₃ (heap_addr + 24) 1;
        heap_start = heap_addr;
        heap_end = u64 (heap_addr + heap_length);
        last_header = heap_addr;
      }

  -- `page_count` rounds move `heap_end` on.
  unfoldable pub extend_heap : Heap → ℕ → Heap
  unfolding map_pages combine_backward
  extend_heap h length =
      let rounded = round_up 0x1000 length in
      let page_count = rounded / 0x1000 in
      let new = h.heap_end in
      let m₁ = store8 (map_pages page_count h.mem new) (new + 24) 1 in
      let m₂ = store64 m₁ (new + 16) h.last_header in
      let m₃ = store64 m₂ (h.last_header + 8) new in
      let m₄ = store64 m₃ (new + 8) 0 in
      combine_backward
        (record h {
          mem = store64 m₄ new (sub64 rounded 32);
          heap_end = u64 (new + page_count * 4096);
          last_header = new;
        })
        new

  -- `malloc`, with at most `calls` calls of itself and `rounds` rounds in each; `none` means that
  -- these were too few. The new heap and the address, where 0 is NULL.
  unfoldable pub malloc : ℕ → ℕ → Heap → ℕ → Option (Heap × ℕ)
  unfolding find_fit take_larger extend_heap
  malloc zero rounds h requested = none
  malloc (suc calls) rounds h requested =
      let size = round_up 0x10 requested in
      let again = malloc calls rounds (extend_heap h size) size in
      if size == 0 then some (h, 0) else elim (find_fit rounds h.mem h.heap_start size) [
        | none ↦ none
        | some (larger cur) ↦ some (take_larger h cur size, u64 (cur + 32))
        | some (exact cur) ↦ some (h, u64 (cur + 32))
        | some nothing ↦ again
      ]
