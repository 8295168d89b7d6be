-- ===== src/Heap/Blocks.antt =====
-- The heap as a list of blocks: what `malloc` promises, without headers and pointers.
use eta_os.Base.{
  ℕ, ◌+◌, ◌-◌, Bool, true, false, Option, none, some, List, [], ◌∷◌, ltb, ◌==◌, if◌then◌else◌,
}

-- A block has a size, behind a header of 32 bytes, and is in use or free.
pub record Block : Type 0 where
  pub size : ℕ
  pub used : Bool

-- The bytes of the blocks with their headers, and the place of the last of them from `a` on.
abbrev pub span : List Block → ℕ
span [] = 0
span (b ∷ bs) = 32 + b.size + span bs

abbrev pub last_at : ℕ → List Block → ℕ
last_at a [] = 0
last_at a (b ∷ []) = a
last_at a (b ∷ c ∷ bs) = last_at (a + 32 + b.size) (c ∷ bs)

-- A free block that gives `n` bytes: a rest that is too short for a block of 16 bytes stays in it.
abbrev pub cut : ℕ → Block → List Block → List Block
cut n b bs =
    if ltb b.size (n + 48)
    then record { size = b.size; used = true } ∷ bs
    else record { size = n; used = true } ∷ record { size = b.size - n - 32; used = false } ∷ bs

-- What is found behind a block.
abbrev pub behind : Block → Option (List Block × ℕ) → Option (List Block × ℕ)
behind b none = none
behind b (some (bs, offset)) = some (b ∷ bs, 32 + b.size + offset)

-- First fit: the blocks after it, and where the bytes begin. A block of exactly `n` bytes is given
-- out and stays free.
unfoldable pub allocate : ℕ → List Block → Option (List Block × ℕ)
allocate n [] = none
allocate n (b ∷ bs) =
    let later = behind b (allocate n bs) in
    if b.used
    then later
    else if ltb n b.size
    then some (cut n b bs, 32)
    else if b.size == n
    then some (b ∷ bs, 32)
    else later
