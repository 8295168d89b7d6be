-- ===== src/Bitmap.antt =====
-- class Bitmap of kernel/src/bitmap.h and bitmap.cpp: bit `i` of the map is bit `7 - i % 8` of
-- byte `i / 8` of the buffer. The buffer is a range of physical memory.
pub mod Laws
use eta_os.Base.{
  ltb, leb, if◌then◌else◌, u64, ◌>>>◌, bit_not, ℕ, ◌+◌, ◌*◌, ◌/◌, ◌%◌, bit_and, bit_or, Bool, true,
  false,
}
use eta_os.Memory.{Mem, store8}

pub record Bitmap : Type 0 where
  pub size : ℕ
  pub buffer : ℕ

-- The test of both operations is `index > size * 8`, in 64 bits.
abbrev pub in_range : Bitmap → ℕ → Bool
in_range b index = leb index (u64 (b.size * 8))

-- `0b10000000 >> bit_index`
abbrev pub bit_indexer : ℕ → ℕ
bit_indexer index = 0b10000000 >>> (index % 8)

-- `operator[]`
unfoldable pub get : Bitmap → Mem → ℕ → Bool
get b m index =
    if ltb (u64 (b.size * 8)) index
    then false
    else ltb 0 (bit_and (m (b.buffer + index / 8)) (bit_indexer index))

-- The new memory, and the success that `set` returns. `~` is at the width of the byte that it
-- is stored into.
unfoldable pub set : Bitmap → Mem → ℕ → Bool → Mem × Bool
set b m index value =
    if ltb (u64 (b.size * 8)) index
    then (m, false)
    else let at = b.buffer + index / 8 in
      let cleared = bit_and (m at) (bit_not 8 (bit_indexer index)) in
      (store8 m at (if value then bit_or cleared (bit_indexer index) else cleared), true)
