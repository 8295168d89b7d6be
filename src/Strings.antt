-- ===== src/Strings.antt =====
-- Numbers as text: `to_string` and `to_hstring` of kernel/src/c_str.cpp. A text lies in memory, in
-- the buffer at `output`, and ends at a zero byte. A variable that the source does not initialise
-- is an argument.
pub mod Decimal
pub mod Signed
pub mod Hex
pub mod Fraction
use eta_os.Base.{
  ℕ, zero, suc, ◌+◌, ◌-◌, ◌*◌, ◌/◌, ◌%◌, ◌^◌, bit_and, Bool, ltb, leb, if◌then◌else◌, u8, u64,
  ◌>>>◌,
}
use eta_os.Memory.{Mem, store8}

-- `while (size_probe / 10 > 0)`: a value of 64 bits has at most 20 digits, so 20 rounds are enough.
unfoldable pub probe : ℕ → ℕ → ℕ → ℕ
probe zero size_probe size = size
probe (suc rounds) size_probe size =
    let rest = probe rounds (size_probe / 10) (u8 (size + 1)) in
    if ltb 0 (size_probe / 10) then rest else size

-- The address of `output[is_negative + size - index]`.
abbrev pub char_at : ℕ → ℕ → ℕ → ℕ → ℕ
char_at output is_negative size index = output + is_negative + size - index

-- `while (value / 10 > 0)`, and the last digit behind it.
unfoldable pub put_digits : ℕ → Mem → ℕ → ℕ → ℕ → ℕ → ℕ → Mem
put_digits zero m output is_negative size index value = m
put_digits (suc rounds) m output is_negative size index value =
    let put = store8 m (char_at output is_negative size index) (value % 10 + b'0') in
    let rest = put_digits rounds put output is_negative size (u8 (index + 1)) (value / 10) in
    if ltb 0 (value / 10) then rest else put

-- `to_string(uint64_t)`; `size₀` is what the variable `size` holds before.
unfoldable pub to_string : Mem → ℕ → ℕ → ℕ → Mem
to_string m output size₀ value =
    let size = probe 20 value size₀ in
    store8 (put_digits 20 m output 0 size 0 value) (output + size + 1) 0

-- `-value` and `value` of 64 bits, signed: the absolute value, but for -2 ^ 63, which is its own.
abbrev pub is_below_zero : ℕ → Bool
is_below_zero value = leb (2 ^ 63) value

abbrev pub negated : ℕ → ℕ
negated value = if is_below_zero value then u64 (2 ^ 64 - value) else value

-- `to_string(int64_t)`; `is_negative₀` is what the variable `is_negative` holds before. A value that
-- is below zero after all, -2 ^ 63, makes no round of the second loop, and its remainder is -8.
unfoldable pub to_string_signed : Mem → ℕ → ℕ → ℕ → ℕ → Mem
to_string_signed m output is_negative₀ size₀ value =
    let is_negative = if is_below_zero value then 1 else is_negative₀ in
    let signed = if is_below_zero value then store8 m output b'-' else m in
    let absolute = negated value in
    let size = probe 20 absolute size₀ in
    let digits =
      if is_below_zero absolute
      then store8 signed (char_at output is_negative size 0) (u8 (256 - 8 + b'0'))
      else put_digits 20 signed output is_negative size 0 absolute in
    store8 digits (output + is_negative + size + 1) 0

-- `tmp + (tmp > 9 ? 55 : '0')`
abbrev pub hex_char : ℕ → ℕ
hex_char tmp = tmp + (if ltb 9 tmp then 55 else b'0')

-- The loop of `to_hstring`, from round `i` on: byte `i` of the value, which lies at `value_ptr`.
unfoldable pub put_hex : ℕ → Mem → ℕ → ℕ → ℕ → ℕ → Mem
put_hex zero m output value_ptr size i = m
put_hex (suc left) m output value_ptr size i =
    let high = bit_and (m (value_ptr + i)) 0xF0 >>> 4 in
    let m₁ = store8 m (output + size - (i * 2 + 1)) (hex_char high) in
    let low = bit_and (m₁ (value_ptr + i)) 0x0F in
    let m₂ = store8 m₁ (output + size - i * 2) (hex_char low) in
    put_hex left m₂ output value_ptr size (i + 1)

-- `to_hstring` of a value of `bytes` bytes: 8, 4, 2 or 1. Its loop makes `size` rounds.
unfoldable pub to_hstring : ℕ → Mem → ℕ → ℕ → Mem
unfolding put_hex
to_hstring bytes m output value_ptr =
    let size = bytes * 2 - 1 in
    store8 (put_hex size m output value_ptr size 0) (output + size + 1) 0
