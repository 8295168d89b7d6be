-- ===== src/Bits/Digit.antt =====
-- The digit of a number at a place, and the digits of `&`, `|`, `~`, shifts and single bits.
use Prim.Native.Nat.{bit_and-bitwise, bit_or-bitwise}
use native.Mathlib.Nat.{pow-suc, one-le-pow, pow-le-pow_right}
use eta_os.Base.{
  ℕ, zero, suc, ◌-◌, ◌*◌, ◌/◌, ◌%◌, ◌^◌, ◌≤◌, ◌<◌, min, max, bit_and, bit_or, ◌≡◌, refl, arith,
  ◌==◌, if◌then◌else◌, bit_not,
}
use eta_os.Bits.Step.{and_digit, or_digit}

-- The binary digit of `x` at place `i`.
unfoldable pub digit : ℕ → ℕ → ℕ
digit x zero = x % 2
digit x (suc i) = digit (x / 2) i

pub digit-lt : (x i : ℕ) → digit x i < 2
unfolding digit
digit-lt x zero = omega arith
digit-lt x (suc i) = digit-lt (x / 2) i

pub digit-zero : (i : ℕ) → digit 0 i ≡ 0
unfolding digit
digit-zero zero = refl
digit-zero (suc i) = digit-zero i

pub digit-and : (x y i : ℕ) → digit (bit_and x y) i ≡ min (digit x i) (digit y i)
unfolding digit
digit-and x y zero = omega (arith, and_digit x y)
digit-and x y (suc i) =
    let half : bit_and x y / 2 ≡ bit_and (x / 2) (y / 2) = omega (arith, and_digit x y) in
    rw half (digit-and (x / 2) (y / 2) i)

pub digit-or : (x y i : ℕ) → digit (bit_or x y) i ≡ max (digit x i) (digit y i)
unfolding digit
digit-or x y zero = omega (arith, or_digit x y)
digit-or x y (suc i) =
    let half : bit_or x y / 2 ≡ bit_or (x / 2) (y / 2) = omega (arith, or_digit x y) in
    rw half (digit-or (x / 2) (y / 2) i)

-- `~x` flips each of its `w` digits.
pub digit-not : (w x i : ℕ) → x < 2 ^ w → i < w → digit (bit_not w x) i ≡ 1 - digit x i
unfolding digit
digit-not zero x i p q = absurd (omega arith)
digit-not (suc w) x zero p q = omega (arith, pow-suc 2 w, one-le-pow w 2)
digit-not (suc w) x (suc i) p q =
    let half : (2 ^ suc w - 1 - x) / 2 ≡ 2 ^ w - 1 - x / 2 =
      omega (arith, pow-suc 2 w, one-le-pow w 2) in
    rw half (digit-not w (x / 2) i (omega (arith, pow-suc 2 w)) (omega arith))

-- A single bit.
pub digit-pow : (k i : ℕ) → digit (2 ^ k) i ≡ (if k == i then 1 else 0)
unfolding digit
digit-pow zero zero = refl
digit-pow zero (suc i) = ground (arith, digit-zero i)
digit-pow (suc k) zero = grind (arith, pow-suc 2 k)
digit-pow (suc k) (suc i) =
    let half : 2 ^ suc k / 2 ≡ 2 ^ k = omega (arith, pow-suc 2 k) in
    rw half (ground (arith, digit-pow k i))

-- Digits decide a number below `2 ^ w`.
pub digit_ext :
    (w x y : ℕ) → x < 2 ^ w → y < 2 ^ w → ((i : ℕ) → i < w → digit x i ≡ digit y i) → x ≡ y
unfolding digit
digit_ext zero x y p q h = omega arith
digit_ext (suc w) x y p q h = omega (
  arith,
  h 0 (omega arith),
  digit_ext w (x / 2) (y / 2) (omega (arith, pow-suc 2 w)) (omega (arith, pow-suc 2 w))
      (λ i l. h (suc i) (omega arith)),
)

-- A number below `2 ^ w` has no digit from place `w` on.
pub digit_high : (w x i : ℕ) → x < 2 ^ w → w ≤ i → digit x i ≡ 0
unfolding digit
digit_high zero x i p q = let z : x ≡ 0 = omega arith in rw z (digit-zero i)
digit_high (suc w) x zero p q = absurd (omega arith)
digit_high (suc w) x (suc i) p q = digit_high w (x / 2) i (omega (arith, pow-suc 2 w)) (omega arith)

zero-bit_and : (y : ℕ) → bit_and 0 y ≡ 0
zero-bit_and y = bit_and-bitwise 0 y

bit_and-zero_below : (n x : ℕ) → x ≤ n → bit_and x 0 ≡ 0
bit_and-zero_below n zero p = refl
bit_and-zero_below zero (suc x) p = absurd (omega arith)
bit_and-zero_below (suc n) (suc x) p =
    omega (arith, and_digit (suc x) 0, bit_and-zero_below n (suc x / 2) (omega arith))

bit_and-zero : (x : ℕ) → bit_and x 0 ≡ 0
bit_and-zero x = bit_and-zero_below x x (omega arith)

-- `x & (1 << k)` keeps that one digit of `x`.
pub bit_and-pow : (x k : ℕ) → bit_and x (2 ^ k) ≡ digit x k * 2 ^ k
unfolding digit
bit_and-pow x zero = omega (arith, and_digit x 1, bit_and-zero (x / 2))
bit_and-pow x (suc k) =
    let half : 2 ^ suc k / 2 ≡ 2 ^ k = omega (arith, pow-suc 2 k) in
    let bottom : 2 ^ suc k % 2 ≡ 0 = omega (arith, pow-suc 2 k) in
    rw (and_digit x (2 ^ suc k), half, bottom, bit_and-pow (x / 2) k, pow-suc 2 k) (grind arith)

pub bit_and-lt : (w x y : ℕ) → x < 2 ^ w → bit_and x y < 2 ^ w
bit_and-lt w zero y p = rw zero-bit_and p
bit_and-lt zero (suc x) y p = absurd (omega arith)
bit_and-lt (suc w) (suc x) y p = omega (
  arith,
  and_digit (suc x) y,
  pow-suc 2 w,
  bit_and-lt w (suc x / 2) (y / 2) (omega (arith, pow-suc 2 w)),
)

pub bit_or-lt : (w x y : ℕ) → x < 2 ^ w → y < 2 ^ w → bit_or x y < 2 ^ w
bit_or-lt w zero y p q = rw (bit_or-bitwise 0 y) q
bit_or-lt zero (suc x) y p q = absurd (omega arith)
bit_or-lt (suc w) (suc x) y p q = omega (
  arith,
  or_digit (suc x) y,
  pow-suc 2 w,
  bit_or-lt w (suc x / 2) (y / 2) (omega (arith, pow-suc 2 w)) (omega (arith, pow-suc 2 w)),
)

pub pow-lt-pow : (k w : ℕ) → k < w → 2 ^ k < 2 ^ w
pow-lt-pow k w l = omega (
  arith,
  pow-suc 2 k,
  one-le-pow k 2,
  pow-le-pow_right {n = 2} (omega arith) {i = suc k} {j = w} l,
)

pub bit_and-lt_right : (w x y : ℕ) → y < 2 ^ w → bit_and x y < 2 ^ w
bit_and-lt_right w zero y p = rw zero-bit_and (one-le-pow w 2 (omega arith))
bit_and-lt_right zero (suc x) y p =
    let none : y ≡ 0 = omega arith in rw (none, bit_and-zero (suc x)) (omega arith)
bit_and-lt_right (suc w) (suc x) y p = omega (
  arith,
  and_digit (suc x) y,
  pow-suc 2 w,
  bit_and-lt_right w (suc x / 2) (y / 2) (omega (arith, pow-suc 2 w)),
)
