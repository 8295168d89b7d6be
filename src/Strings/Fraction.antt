-- ===== src/Strings/Fraction.antt =====
-- Floating point numbers as text: `to_string(double)` of kernel/src/c_str.cpp.
pub mod Digits
pub mod Written
use mathlib.Core.Option
use eta_os.Doubles.{Floats}
use eta_os.Memory.{Mem, store8}
use eta_os.Base.{ℕ, zero, suc, ◌+◌, ◌-◌, ◌^◌, Option, none, some, ltb, ◌==◌, if◌then◌else◌, u8}
use eta_os.Strings.{to_string_signed}
use eta_os.Paging.{filled}

-- `while (*int_ptr != 0)`: the text at `int_ptr` is copied, and the place behind the copy is
-- returned; `none` where there are too few rounds for it.
unfoldable pub copy_text : ℕ → Mem → ℕ → ℕ → Option (Mem × ℕ)
copy_text zero m int_ptr double_ptr = none
copy_text (suc rounds) m int_ptr double_ptr =
    let rest = copy_text rounds (store8 m double_ptr (m int_ptr)) (int_ptr + 1) (double_ptr + 1) in
    if m int_ptr == 0 then some (m, double_ptr) else rest

-- `new_value *= 10` and `new_value -= (int)new_value`.
abbrev pub times_ten : (f : Floats) → f.Double → f.Double
times_ten f new_value = f.multiply new_value (f.of_uint 10)

abbrev pub without_int : (f : Floats) → f.Double → f.Double
without_int f value = f.subtract value (f.of_int (f.to_int value))

-- `(int)new_value + '0'` as a byte.
abbrev pub digit_char : (f : Floats) → f.Double → ℕ
digit_char f new_value = u8 (f.to_int new_value + b'0')

-- The loop over the digits behind the point.
unfoldable pub put_fraction : (f : Floats) → ℕ → Mem → ℕ → f.Double → Mem × ℕ
put_fraction f zero m double_ptr new_value = (m, double_ptr)
put_fraction f (suc left) m double_ptr new_value =
    let scaled = times_ten f new_value in
    put_fraction f left (store8 m double_ptr (digit_char f scaled)) (double_ptr + 1)
      (without_int f scaled)

-- `value *= -1` if it is below zero.
abbrev pub magnitude : (f : Floats) → f.Double → f.Double
magnitude f value =
    if f.less value (f.of_uint 0) then f.multiply value (f.of_int (2 ^ 32 - 1)) else value

-- `if (precision > 20) { precision = 20; }`
abbrev pub at_most_20 : ℕ → ℕ
at_most_20 precision = if ltb 20 precision then 20 else precision

-- What follows the copy of the digits before the point.
abbrev pub put_point : (f : Floats) → f.Double → ℕ → Mem × ℕ → Mem
put_point f value precision (m, double_ptr) =
    let point = store8 m double_ptr b'.' in
    let new_value = without_int f (magnitude f value) in
    let filled = put_fraction f (at_most_20 precision) point (double_ptr + 1) new_value in
    store8 filled.0 filled.1 0

-- `to_string(double, uint8_t)`, with `to_string(int64_t)` and its variables that are not
-- initialised. The text that is copied has a sign, 20 digits and what those variables put before
-- them at most, and `rounds` bounds it.
unfoldable pub to_string_double : (f : Floats) → ℕ → Mem → ℕ → ℕ → ℕ → ℕ → f.Double → ℕ → Option Mem
unfolding copy_text put_fraction
to_string_double f rounds m output int_output is_negative₀ size₀ value precision =
    let digits = to_string_signed m int_output is_negative₀ size₀ (f.to_int64 value) in
    Option.map (put_point f value precision) (copy_text rounds digits int_output output)

-- `to_string(double)`
unfoldable pub to_string_four_digits :
    (f : Floats) → ℕ → Mem → ℕ → ℕ → ℕ → ℕ → f.Double → Option Mem
unfolding to_string_double
to_string_four_digits f rounds m output int_output is_negative₀ size₀ value =
    to_string_double f rounds m output int_output is_negative₀ size₀ value 4
