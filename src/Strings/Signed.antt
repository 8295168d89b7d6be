-- ===== src/Strings/Signed.antt =====
-- What `to_string` of a signed value spells.
use eta_os.Base.{ℕ, ◌+◌, ◌-◌, ◌^◌, ◌<◌, ◌≡◌, ◌∙◌, true, false, arith, leb, u64}
use eta_os.Memory.{Mem, store8}
use eta_os.Strings.{to_string_signed}
use eta_os.Strings.Decimal.{IsDecimal, digits-IsDecimal}
use eta_os.Memory.Words.{store8_self}

-- For a value that is not below zero, the text is its decimal, behind as many bytes as the two
-- variables that are not initialised hold before (size below 230).
pub to_string_signed-IsDecimal :
    (m : Mem) (output is_negative₀ size₀ value : ℕ)
    → size₀ < 230
    → value < 2 ^ 63
    → IsDecimal m
        (to_string_signed m output is_negative₀ size₀ value)
        (output + is_negative₀ + size₀)
        value
unfolding to_string_signed
to_string_signed-IsDecimal m output is_negative₀ size₀ value garbage fits =
    let above : leb (2 ^ 63) value ≡ false = ground arith in
    rw (above, above) (digits-IsDecimal m output is_negative₀ size₀ value garbage (omega arith))

-- For a value below zero, but for -2 ^ 63, the text is a minus sign, and the decimal of the
-- absolute value behind it and as many bytes as size, which is not initialised, holds before
-- (below 230).
pub to_string_signed_minus :
    (m : Mem) (output is_negative₀ size₀ value : ℕ)
    → size₀ < 230
    → 2 ^ 63 < value
    → value < 2 ^ 64
    → let m' = to_string_signed m output is_negative₀ size₀ value in
      (m' output ≡ b'-') × IsDecimal (store8 m output b'-') m' (output + 1 + size₀) (2 ^ 64 - value)
unfolding to_string_signed
to_string_signed_minus m output is_negative₀ size₀ value garbage below fits =
    let below_zero : leb (2 ^ 63) value ≡ true = ground arith in
    let minus : u64 (2 ^ 64 - value) ≡ 2 ^ 64 - value = omega arith in
    let above : leb (2 ^ 63) (2 ^ 64 - value) ≡ false = ground arith in
    let d =
      digits-IsDecimal (store8 m output b'-') output 1 size₀ (2 ^ 64 - value) garbage
        (omega arith) in
    rw (below_zero, minus, above) (d.outside output (omega arith) ∙ store8_self m output b'-', d)
