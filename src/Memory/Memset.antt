-- ===== src/Memory/Memset.antt =====
-- What `memset` of kernel/src/memory.cpp does to each byte.
use eta_os.Base.{ltb, leb, if◌then◌else◌, u64, ℕ, zero, suc, ◌+◌, ◌^◌, ◌≤◌, ◌<◌, ◌≡◌, ◌&&◌, arith}
use eta_os.Memory.{Mem, store8, load16, load32, load64, memset_from, memset}
use eta_os.Memory.Words.{IsBytes}

memset_from_lem :
    (left : ℕ) (m : Mem) (start value i x : ℕ)
    → start + i + left ≤ 2 ^ 64
    → memset_from left m start value i x
      ≡ (if leb (start + i) x && ltb x (start + i + left) then value else m x)
unfolding memset_from store8
memset_from_lem zero m start value i x h = ground arith
memset_from_lem (suc left) m start value i x h =
    let next =
      memset_from_lem left (store8 m (u64 (start + i)) value) start value (i + 1) x (omega arith) in
    ground (arith, next)

-- Where its range does not pass the end of the address space, memset sets exactly the num bytes
-- from start on to the value.
pub memset_lem :
    (m : Mem) (start value num x : ℕ)
    → start + num ≤ 2 ^ 64
    → memset m start value num x ≡ (if leb start x && ltb x (start + num) then value else m x)
unfolding memset
memset_lem m start value num x h =
    ground (arith, memset_from_lem num m start value 0 x (omega arith))

pub memset-IsBytes :
    {m : Mem} (start value num : ℕ)
    → start + num ≤ 2 ^ 64
    → value < 256
    → IsBytes m
    → IsBytes (memset m start value num)
memset-IsBytes {m} start value num fits small h x =
    ground (arith, memset_lem m start value num x fits, h x)

-- A word of a cleared range is zero.
pub load64-memset :
    (m : Mem) (start num a : ℕ)
    → start + num ≤ 2 ^ 64
    → start ≤ a
    → a + 8 ≤ start + num
    → load64 (memset m start 0 num) a ≡ 0
unfolding load64 load32 load16
load64-memset m start num a fits lo hi = omega (
  arith,
  cleared a (omega arith) (omega arith),
  cleared (a + 1) (omega arith) (omega arith),
  cleared (a + 2) (omega arith) (omega arith),
  cleared (a + 2 + 1) (omega arith) (omega arith),
  cleared (a + 4) (omega arith) (omega arith),
  cleared (a + 4 + 1) (omega arith) (omega arith),
  cleared (a + 4 + 2) (omega arith) (omega arith),
  cleared (a + 4 + 2 + 1) (omega arith) (omega arith),
)
  where
    cleared : (x : ℕ) → start ≤ x → x < start + num → memset m start 0 num x ≡ 0
    cleared x p q = ground (arith, memset_lem m start 0 num x fits)
