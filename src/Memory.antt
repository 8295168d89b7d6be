-- ===== src/Memory.antt =====
-- Byte-addressed memory, as the kernel sees it through a pointer, with little-endian words
-- (x86-64), and `memset` of kernel/src/memory.cpp.
pub mod Words
pub mod Memset
use eta_os.Base.{◌==◌, if◌then◌else◌, u64, ℕ, zero, suc, ◌+◌, ◌*◌, ◌/◌, ◌%◌, ◌^◌}

-- The byte at each address.
abbrev pub Mem : Type 0
Mem = ℕ → ℕ

-- `*(uint8_t*)a = v`
unfoldable pub store8 : Mem → ℕ → ℕ → Mem
store8 m a v x = if a == x then v else m x

-- `*(uint16_t*)a`, `*(uint32_t*)a` and `*(uint64_t*)a`
unfoldable pub load16 : Mem → ℕ → ℕ
load16 m a = m a + 2 ^ 8 * m (a + 1)

unfoldable pub load32 : Mem → ℕ → ℕ
load32 m a = load16 m a + 2 ^ 16 * load16 m (a + 2)

unfoldable pub load64 : Mem → ℕ → ℕ
load64 m a = load32 m a + 2 ^ 32 * load32 m (a + 4)

unfoldable pub store16 : Mem → ℕ → ℕ → Mem
store16 m a v = store8 (store8 m a (v % 2 ^ 8)) (a + 1) (v / 2 ^ 8 % 2 ^ 8)

unfoldable pub store32 : Mem → ℕ → ℕ → Mem
store32 m a v = store16 (store16 m a (v % 2 ^ 16)) (a + 2) (v / 2 ^ 16 % 2 ^ 16)

unfoldable pub store64 : Mem → ℕ → ℕ → Mem
store64 m a v = store32 (store32 m a (v % 2 ^ 32)) (a + 4) (v / 2 ^ 32 % 2 ^ 32)

-- `memset(start, value, num)`, from the byte at offset `i` on, with `left` rounds to go; the
-- address is an integer sum, so it wraps.
unfoldable pub memset_from : ℕ → Mem → ℕ → ℕ → ℕ → Mem
memset_from zero m start value i = m
memset_from (suc left) m start value i =
    memset_from left (store8 m (u64 (start + i)) value) start value (i + 1)

unfoldable pub memset : Mem → ℕ → ℕ → ℕ → Mem
unfolding memset_from
memset m start value num = memset_from num m start value 0
