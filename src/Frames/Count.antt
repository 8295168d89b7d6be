-- ===== src/Frames/Count.antt =====
-- Counting the pages of which a test holds.
use eta_os.Base.{
  ℕ, zero, suc, ◌+◌, ◌<◌, ◌≡◌, refl, inl, inr, Bool, false, not, ◌&&◌, ◌||◌, arith, ◌==◌,
  if◌then◌else◌, Bool-cases,
}

-- How many numbers below `n` pass the test.
unfoldable pub count_below : (ℕ → Bool) → ℕ → ℕ
count_below p zero = 0
count_below p (suc n) = (if p n then 1 else 0) + count_below p n

pub count_below_same :
    (p q : ℕ → Bool) (n : ℕ) → ((j : ℕ) → j < n → q j ≡ p j) → count_below q n ≡ count_below p n
unfolding count_below
count_below_same p q zero h = refl
count_below_same p q (suc n) h =
    ground (arith, h n (omega arith), count_below_same p q n (λ j l. h j (omega arith)))

-- One more number passes.
pub count_below_mark :
    (p q : ℕ → Bool) (i n : ℕ)
    → ((j : ℕ) → q j ≡ (p j || (i == j)))
    → i < n
    → count_below q n ≡ count_below p n + (if p i then 0 else 1)
unfolding count_below
count_below_mark p q i zero h l = absurd (omega arith)
count_below_mark p q i (suc n) h l = elim (Bool-cases (i == n)) [
  | inl here ↦ ground (arith, h n, count_below_same p q n (λ j l'. ground (arith, h j)))
  | inr below ↦ ground (arith, h n, count_below_mark p q i n h (ground arith))
]

-- One number fewer passes.
pub count_below_clear :
    (p q : ℕ → Bool) (i n : ℕ)
    → ((j : ℕ) → q j ≡ (p j && not (i == j)))
    → i < n
    → count_below p n ≡ count_below q n + (if p i then 1 else 0)
unfolding count_below
count_below_clear p q i zero h l = absurd (omega arith)
count_below_clear p q i (suc n) h l = elim (Bool-cases (i == n)) [
  | inl here ↦ ground (arith, h n, count_below_same p q n (λ j l'. ground (arith, h j)))
  | inr below ↦ ground (arith, h n, count_below_clear p q i n h (ground arith))
]

pub count_below_none :
    (p : ℕ → Bool) (n : ℕ) → ((j : ℕ) → j < n → p j ≡ false) → count_below p n ≡ 0
unfolding count_below
count_below_none p zero h = refl
count_below_none p (suc n) h =
    ground (arith, h n (omega arith), count_below_none p n (λ j l. h j (omega arith)))
