-- ===== src/Tests/StringsTest.antt =====
-- Texts in a buffer at 1000.
use eta_os.Tests.ClockTest.{millionths}
use eta_os.Base.{ℕ, ◌+◌, ◌-◌, ◌*◌, ◌%◌, ◌^◌, ◌<◌, ◌≡◌, refl, inr, some, arith}
use eta_os.Memory.{Mem, store8}
use eta_os.Strings.{probe, put_digits, to_string, to_string_signed, put_hex, to_hstring}
use eta_os.Strings.Decimal.{IsDecimal, to_string-IsDecimal}
use eta_os.Strings.Signed.{to_string_signed_minus}
use eta_os.Strings.Hex.{HexAt, to_hstring-HexAt}
use eta_os.Strings.Fraction.Digits.{IsDouble}
use eta_os.Strings.Fraction.Written.{IsPointed, to_string_double-IsPointed}
use eta_os.Strings.Fraction.{to_string_double}

to_string-IsDecimal_example : IsDecimal (λ x. 7) (to_string (λ x. 7) 1000 0 1234) (1000 + 0) 1234
to_string-IsDecimal_example = to_string-IsDecimal (λ x. 7) 1000 0 1234 (omega arith) (omega arith)

-- The characters of 1234.
text_1234 :
    let m = to_string (λ x. 7) 1000 0 1234 in
    (m 1000 ≡ b'1') × (m 1001 ≡ b'2') × (m 1002 ≡ b'3') × (m 1003 ≡ b'4') × (m 1004 ≡ 0)
unfolding to_string probe put_digits store8
text_1234 = (refl, refl, refl, refl, refl)

-- Where the variable holds 3 before, three old bytes stand before the text.
text_later :
    let m = to_string (λ x. 7) 1000 3 42 in
    (m 1000 ≡ 7) × (m 1003 ≡ b'4') × (m 1004 ≡ b'2') × (m 1005 ≡ 0)
unfolding to_string probe put_digits store8
text_later = (refl, refl, refl, refl)

-- The bits of -42.
to_string_signed_minus_example :
    let m' = to_string_signed (λ x. 7) 1000 0 0 (2 ^ 64 - 42) in
    (m' 1000 ≡ b'-')
    × IsDecimal (store8 (λ x. 7) 1000 b'-') m' (1000 + 1 + 0) (2 ^ 64 - (2 ^ 64 - 42))
to_string_signed_minus_example =
    to_string_signed_minus (λ x. 7) 1000 0 0 (2 ^ 64 - 42) (omega arith) (omega arith) (omega arith)

-- A byte at 5000, and those behind it.
to_hstring-HexAt_example :
    let m' = to_hstring 2 (λ x. x % 256) 1000 5000 in
    ((j : ℕ) → j < 2 * 2 - 1 → HexAt (λ x. x % 256) m' 1000 5000 (2 * 2 - 1) j)
    × (m' (1000 + (2 * 2 - 1) + 1) ≡ 0)
to_hstring-HexAt_example =
    to_hstring-HexAt 2 (λ x. x % 256) 1000 5000 (omega arith) (omega arith) (inr (omega arith))
      (λ j l. omega arith)

-- The bytes at 5000 are 0x88, 0x89 and 0x8A: the text is 8988, and 8A lies before it.
hex_8988 :
    let m = to_hstring 2 (λ x. x % 256) 1000 5000 in
    (m 998 ≡ b'8')
    × (m 999 ≡ b'A')
    × (m 1000 ≡ b'8')
    × (m 1001 ≡ b'9')
    × (m 1002 ≡ b'8')
    × (m 1003 ≡ b'8')
    × (m 1004 ≡ 0)
unfolding to_hstring put_hex store8
hex_8988 = (refl, refl, refl, refl, refl, refl, refl)

millionths-IsDouble : IsDouble millionths
millionths-IsDouble = record {
  negated = λ v below. absurd (ground arith);
  tenfold = λ v (above, below). (ground arith, ground arith);
  truncated = λ n v small (above, below).
      let under : v < n * 1000000 = ground arith in (omega arith, (ground arith, ground arith));
}

-- 3.25 with two digits.
to_string_double-IsPointed_example :
    (m' : Mem) × (to_string_double millionths 21 (λ x. 7) 1000 2000 0 0 3250000 2 ≡ some m')
    × IsPointed millionths (λ x. 7) m' 1000 2000 3 2 250000
to_string_double-IsPointed_example =
    to_string_double-IsPointed millionths millionths-IsDouble 21 (λ x. 7) 1000 2000 3250000 2
      (omega arith) (omega arith) (omega arith) refl
