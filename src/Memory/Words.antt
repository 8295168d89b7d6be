-- ===== src/Memory/Words.antt =====
-- Reads after writes of words, and of a cleared range.
use eta_os.Base.{ℕ, ◌+◌, ◌/◌, ◌%◌, ◌^◌, ◌≤◌, ◌<◌, ◌≡◌, ◌⊎◌, arith}
use eta_os.Memory.{Mem, store8, load16, load32, load64, store16, store32, store64}

-- Every byte is one.
abbrev pub IsBytes : Mem → Type 0
IsBytes m = (a : ℕ) → m a < 256

-- The ranges of `n` bytes at `a` and `k` bytes at `b` do not meet.
abbrev pub Apart : ℕ → ℕ → ℕ → ℕ → Type 0
Apart a n b k = (a + n ≤ b) ⊎ (b + k ≤ a)

pub store8-IsBytes : {m : Mem} (a v : ℕ) → IsBytes m → v < 256 → IsBytes (store8 m a v)
unfolding store8
store8-IsBytes a v h lt x = ground (arith, h x)

pub store16-IsBytes : {m : Mem} (a v : ℕ) → IsBytes m → IsBytes (store16 m a v)
unfolding store16
store16-IsBytes a v h = store8-IsBytes (a + 1) _ (store8-IsBytes a _ h (omega arith)) (omega arith)

pub store32-IsBytes : {m : Mem} (a v : ℕ) → IsBytes m → IsBytes (store32 m a v)
unfolding store32
store32-IsBytes a v h = store16-IsBytes (a + 2) _ (store16-IsBytes a _ h)

pub store64-IsBytes : {m : Mem} (a v : ℕ) → IsBytes m → IsBytes (store64 m a v)
unfolding store64
store64-IsBytes a v h = store32-IsBytes (a + 4) _ (store32-IsBytes a _ h)

-- A write leaves the bytes outside its range alone.
pub store16_outside : (m : Mem) (a v x : ℕ) → Apart a 2 x 1 → store16 m a v x ≡ m x
unfolding store16 store8
store16_outside m a v x h = ground arith

pub store32_outside : (m : Mem) (a v x : ℕ) → Apart a 4 x 1 → store32 m a v x ≡ m x
unfolding store32
store32_outside m a v x h = ground (
  arith,
  store16_outside (store16 m a (v % 2 ^ 16)) (a + 2) (v / 2 ^ 16 % 2 ^ 16) x,
  store16_outside m a (v % 2 ^ 16) x,
)

pub store64_outside : (m : Mem) (a v x : ℕ) → Apart a 8 x 1 → store64 m a v x ≡ m x
unfolding store64
store64_outside m a v x h = ground (
  arith,
  store32_outside (store32 m a (v % 2 ^ 32)) (a + 4) (v / 2 ^ 32 % 2 ^ 32) x,
  store32_outside m a (v % 2 ^ 32) x,
)

-- Memories that agree on a range give the same word there.
abbrev pub SameOn : ℕ → ℕ → Mem → Mem → Type 0
SameOn a n m m' = (x : ℕ) → a ≤ x → x < a + n → m' x ≡ m x

pub load16_same : {m m' : Mem} (a : ℕ) → SameOn a 2 m m' → load16 m' a ≡ load16 m a
unfolding load16
load16_same a h =
    omega (arith, h a (omega arith) (omega arith), h (a + 1) (omega arith) (omega arith))

pub load32_same : {m m' : Mem} (a : ℕ) → SameOn a 4 m m' → load32 m' a ≡ load32 m a
unfolding load32
load32_same {m} {m'} a h = omega (
  arith,
  load16_same {m = m} {m' = m'} a (λ x p q. h x p (omega arith)),
  load16_same {m = m} {m' = m'} (a + 2) (λ x p q. h x (omega arith) (omega arith)),
)

pub load64_same : {m m' : Mem} (a : ℕ) → SameOn a 8 m m' → load64 m' a ≡ load64 m a
unfolding load64
load64_same {m} {m'} a h = omega (
  arith,
  load32_same {m = m} {m' = m'} a (λ x p q. h x p (omega arith)),
  load32_same {m = m} {m' = m'} (a + 4) (λ x p q. h x (omega arith) (omega arith)),
)

-- A word read back where it was written.
pub load16-store16 : (m : Mem) (a v : ℕ) → v < 2 ^ 16 → load16 (store16 m a v) a ≡ v
unfolding load16 store16 store8
load16-store16 m a v h = ground arith

pub load32-store32 : (m : Mem) (a v : ℕ) → v < 2 ^ 32 → load32 (store32 m a v) a ≡ v
unfolding load32 store32
load32-store32 m a v h =
    let m₁ : Mem = store16 m a (v % 2 ^ 16) in
    omega (
      arith,
      load16_same {m = m₁} {m' = store16 m₁ (a + 2) (v / 2 ^ 16 % 2 ^ 16)} a
          (λ x p q. store16_outside m₁ (a + 2) (v / 2 ^ 16 % 2 ^ 16) x (omega arith)),
      load16-store16 m a (v % 2 ^ 16) (omega arith),
      load16-store16 m₁ (a + 2) (v / 2 ^ 16 % 2 ^ 16) (omega arith),
    )

pub load64-store64 : (m : Mem) (a v : ℕ) → v < 2 ^ 64 → load64 (store64 m a v) a ≡ v
unfolding load64 store64
load64-store64 m a v h =
    let m₁ : Mem = store32 m a (v % 2 ^ 32) in
    omega (
      arith,
      load32_same {m = m₁} {m' = store32 m₁ (a + 4) (v / 2 ^ 32 % 2 ^ 32)} a
          (λ x p q. store32_outside m₁ (a + 4) (v / 2 ^ 32 % 2 ^ 32) x (omega arith)),
      load32-store32 m a (v % 2 ^ 32) (omega arith),
      load32-store32 m₁ (a + 4) (v / 2 ^ 32 % 2 ^ 32) (omega arith),
    )

pub load64-store64_other :
    (m : Mem) (a b v : ℕ) → Apart a 8 b 8 → load64 (store64 m a v) b ≡ load64 m b
load64-store64_other m a b v h =
    load64_same {m = m} {m' = store64 m a v} b (λ x p q. store64_outside m a v x (omega arith))

-- A word of bytes is a word.
pub load64-lt : (m : Mem) (a : ℕ) → IsBytes m → load64 m a < 2 ^ 64
unfolding load64 load32 load16
load64-lt m a h = omega (
  arith,
  h a,
  h (a + 1),
  h (a + 2),
  h (a + 2 + 1),
  h (a + 4),
  h (a + 4 + 1),
  h (a + 4 + 2),
  h (a + 4 + 2 + 1),
)

pub store8_outside : (m : Mem) (a v x : ℕ) → Apart a 1 x 1 → store8 m a v x ≡ m x
unfolding store8
store8_outside m a v x h = ground arith

pub store8_self : (m : Mem) (a v : ℕ) → store8 m a v a ≡ v
unfolding store8
store8_self m a v = ground arith

pub load64-store8_other :
    (m : Mem) (a b v : ℕ) → Apart a 1 b 8 → load64 (store8 m a v) b ≡ load64 m b
load64-store8_other m a b v h =
    load64_same {m = m} {m' = store8 m a v} b (λ x p q. store8_outside m a v x (omega arith))
