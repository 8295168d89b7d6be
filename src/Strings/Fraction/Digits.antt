-- ===== src/Strings/Fraction/Digits.antt =====
-- The digits of a fraction, and what IEEE 754 gives for them.
use eta_os.Base.{
  ℕ, zero, suc, ◌-◌, ◌^◌, ◌≤◌, ◌<◌, ◌≡◌, inl, inr, true, false, arith, if◌then◌else◌, Bool-cases,
}
use eta_os.Doubles.{Floats}

-- At least 0 and below `n`, and at least 0 and below 1.
abbrev pub IsBelow : (f : Floats) → ℕ → f.Double → Type 0
IsBelow f n v = (f.less v (f.of_uint 0) ≡ false) × (f.less v (f.of_uint n) ≡ true)

abbrev pub IsFraction : (f : Floats) → f.Double → Type 0
IsFraction f = IsBelow f 1

-- What IEEE 754 and the conversions of C++ give: -1 times a number below 0 is not below 0, ten times
-- a fraction is below 10, and without its integer part a number that an int holds is a fraction.
pub record IsDouble (f : Floats) : Type 0 where
  pub negated :
      (v : f.Double)
      → f.less v (f.of_uint 0) ≡ true
      → f.less (f.multiply v (f.of_int (2 ^ 32 - 1))) (f.of_uint 0) ≡ false
  pub tenfold : (v : f.Double) → IsFraction f v → IsBelow f 10 (f.multiply v (f.of_uint 10))
  pub truncated :
      (n : ℕ) (v : f.Double)
      → n ≤ 2 ^ 31
      → IsBelow f n v
      → (f.to_int v < n) × IsFraction f (f.subtract v (f.of_int (f.to_int v)))

-- What is left of a fraction behind its first `i` digits, and digit `i` behind the point.
abbrev pub remainder : (f : Floats) → f.Double → ℕ → f.Double
remainder f value zero = value
remainder f value (suc i) =
    let scaled = f.multiply value (f.of_uint 10) in
    remainder f (f.subtract scaled (f.of_int (f.to_int scaled))) i

abbrev pub digit : (f : Floats) → f.Double → ℕ → ℕ
digit f value i = f.to_int (f.multiply (remainder f value i) (f.of_uint 10))

-- The absolute value, and what is behind its point.
abbrev pub absolute : (f : Floats) → f.Double → f.Double
absolute f value =
    if f.less value (f.of_uint 0) then f.multiply value (f.of_int (2 ^ 32 - 1)) else value

abbrev pub fractional : (f : Floats) → f.Double → f.Double
fractional f value = f.subtract (absolute f value) (f.of_int (f.to_int (absolute f value)))

module _ (f : Floats) (laws : IsDouble f) where
  pub digit_lt : (i : ℕ) (value : f.Double) → IsFraction f value → digit f value i < 10
  digit_lt zero value is_fraction =
      (laws.truncated 10 (f.multiply value (f.of_uint 10)) (omega arith)
        (laws.tenfold value is_fraction)).0
  digit_lt (suc i) value is_fraction =
      let scaled = f.multiply value (f.of_uint 10) in
      digit_lt i (f.subtract scaled (f.of_int (f.to_int scaled)))
        (laws.truncated 10 scaled (omega arith) (laws.tenfold value is_fraction)).1

  -- The absolute value is not below 0.
  absolute_lem : (value : f.Double) → f.less (absolute f value) (f.of_uint 0) ≡ false
  absolute_lem value = elim (Bool-cases (f.less value (f.of_uint 0))) [
    | inl below ↦ rw below (laws.negated value below)
    | inr above ↦ rw above above
  ]

  pub fractional-IsFraction :
      (value : f.Double)
      → f.less (absolute f value) (f.of_uint (2 ^ 31)) ≡ true
      → IsFraction f (fractional f value)
  fractional-IsFraction value small =
      (laws.truncated (2 ^ 31) (absolute f value) (omega arith) (absolute_lem value, small)).1
