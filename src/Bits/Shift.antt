-- ===== src/Bits/Shift.antt =====
-- The digits of shifted and truncated numbers, and tables of the digits of constant masks.
use Prim.Native.Nat.{bit_or-bitwise}
use native.Mathlib.Nat.{
  one-le-pow, mod-lt, pow-suc, div-div-eq-div-mul, mod-eq-sub-div-mul, div-mul-le_self,
}
use eta_os.Base.{
  ℕ, zero, suc, ◌+◌, ◌-◌, ◌*◌, ◌/◌, ◌%◌, ◌^◌, ◌<◌, bit_and, bit_or, ◌≡◌, sym, ap, ◌∙◌, Bool, true,
  ◌&&◌, arith, ltb, if◌then◌else◌, bit_not,
}
use eta_os.Bits.Digit.{
  digit, digit-lt, digit-zero, digit-and, digit-not, digit_ext, bit_and-lt_right,
}
use eta_os.Bits.Step.{or_digit}

double : (k : ℕ) → 2 ^ suc k ≡ 2 * 2 ^ k
double k = omega (arith, pow-suc 2 k)

mul-double : (x k : ℕ) → x * 2 ^ suc k ≡ 2 * (x * 2 ^ k)
mul-double x k = omega (arith, ap (λ (t : ℕ). x * t) (pow-suc 2 k))

half-pow : (x k : ℕ) → x / 2 ^ suc k ≡ x / 2 / 2 ^ k
half-pow x k = ap (λ (d : ℕ). x / d) (double k) ∙ sym (div-div-eq-div-mul x 2 (2 ^ k))

pub digit-shr : (x k i : ℕ) → digit (x / 2 ^ k) i ≡ digit x (i + k)
unfolding digit
digit-shr x zero i =
    let whole : x / 2 ^ 0 ≡ x = omega arith in
    let same : i + 0 ≡ i = omega arith in rw (whole, same)
digit-shr x (suc k) i =
    let up : i + suc k ≡ suc (i + k) = omega arith in rw (half-pow x k, up) (digit-shr (x / 2) k i)

pub digit-shl : (x k i : ℕ) → digit (x * 2 ^ k) i ≡ (if ltb i k then 0 else digit x (i - k))
unfolding digit
digit-shl x zero i =
    let one : x * 2 ^ 0 ≡ x = omega arith in
    let same : i - 0 ≡ i = omega arith in rw (one, same) (ground arith)
digit-shl x (suc k) zero = ground (arith, mul-double x k)
digit-shl x (suc k) (suc i) =
    let half : x * 2 ^ suc k / 2 ≡ x * 2 ^ k = omega (arith, mul-double x k) in
    let same : suc i - suc k ≡ i - k = omega arith in
    rw (half, same) (ground (arith, digit-shl x k i))

mod-double : (x w : ℕ) → x % 2 ^ suc w ≡ x / 2 % 2 ^ w * 2 + x % 2
mod-double x w = omega (
  arith,
  mod-eq-sub-div-mul x (2 ^ suc w),
  mod-eq-sub-div-mul (x / 2) (2 ^ w),
  div-mul-le_self (x / 2) (2 ^ w),
  ap (λ (q : ℕ). q * 2 ^ suc w) (half-pow x w),
  mul-double (x / 2 / 2 ^ w) w,
)

pub digit-mod : (x w i : ℕ) → digit (x % 2 ^ w) i ≡ (if ltb i w then digit x i else 0)
unfolding digit
digit-mod x zero i =
    let none_left : x % 2 ^ 0 ≡ 0 = omega arith in rw none_left (ground (arith, digit-zero i))
digit-mod x (suc w) zero = ground (arith, mod-double x w)
digit-mod x (suc w) (suc i) =
    let half : x % 2 ^ suc w / 2 ≡ x / 2 % 2 ^ w = omega (arith, mod-double x w) in
    rw half (ground (arith, digit-mod (x / 2) w i))

-- All numbers below `n` pass the test.
unfoldable pub all_below : ℕ → (ℕ → Bool) → Bool
all_below zero p = true
all_below (suc n) p = p n && all_below n p

pub all_below-apply : (n : ℕ) (p : ℕ → Bool) (i : ℕ) → all_below n p ≡ true → i < n → p i ≡ true
unfolding all_below
all_below-apply zero p i h l = absurd (omega arith)
all_below-apply (suc n) p i h l = ground (arith, all_below-apply n p i)

-- `a | b << k` is a sum where `a` has `k` bits.
pub bit_or-shl : (k a b : ℕ) → a < 2 ^ k → bit_or a (b * 2 ^ k) ≡ a + b * 2 ^ k
bit_or-shl zero a b l =
    let none_there : a ≡ 0 = omega arith in
    rw none_there (bit_or-bitwise 0 (b * 2 ^ 0) ∙ omega arith)
bit_or-shl (suc k) a b l =
    let half : b * 2 ^ suc k / 2 ≡ b * 2 ^ k = omega (arith, mul-double b k) in
    omega (
      arith,
      or_digit a (b * 2 ^ suc k),
      ap (bit_or (a / 2)) half,
      bit_or-shl k (a / 2) b (omega (arith, double k)),
      mul-double b k,
    )

-- The mask of `w` ones is the remainder.
pub bit_and-ones : (w x : ℕ) → bit_and x (bit_not w 0) ≡ x % 2 ^ w
bit_and-ones w x =
    let positive : 0 < 2 ^ w = one-le-pow w 2 (omega arith) in
    digit_ext w _ _ (bit_and-lt_right w x (bit_not w 0) (omega arith)) (mod-lt x positive) λ i l.
      ground (
        arith,
        digit-and x (bit_not w 0) i,
        digit-not w 0 i positive l,
        digit-zero i,
        digit-lt x i,
        digit-mod x w i,
      )
