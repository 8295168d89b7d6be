-- ===== src/Strings/Fraction/Written.antt =====
-- What `to_string(double)` writes.
use mathlib.Core.Option
use eta_os.Base.{
  ℕ, zero, suc, ◌+◌, ◌^◌, ◌≤◌, ◌<◌, ◌≡◌, refl, sym, ap, ◌∙◌, ◌≢◌, ◌⊎◌, true, false, some, arith,
  ◌==◌, u8,
}
use eta_os.Memory.{Mem, store8}
use eta_os.Memory.Words.{Apart, store8_outside, store8_self}
use eta_os.Strings.Fraction.{
  copy_text, times_ten, without_int, digit_char, put_fraction, at_most_20, put_point,
  to_string_double,
}
use eta_os.Doubles.{Floats}
use eta_os.Strings.Fraction.Digits.{
  IsFraction, IsDouble, digit, absolute, fractional, digit_lt, fractional-IsFraction,
}
use eta_os.Strings.Decimal.{spelled, IsDigits, IsDecimal}
use eta_os.Strings.Signed.{to_string_signed-IsDecimal}
use eta_os.Strings.{to_string_signed}

-- The bytes from `to` on to `to + n` are as given, and no other is changed.
record Put (m m' : Mem) (to n : ℕ) (byte : ℕ → ℕ) : Type 0 where
  puts : (i : ℕ) → i < n → m' (to + i) ≡ byte i
  outside : (x : ℕ) → Apart to n x 1 → m' x ≡ m x

-- No byte, and a byte before others.
Put-none : (m : Mem) (to : ℕ) (byte : ℕ → ℕ) → Put m m to 0 byte
Put-none m to byte = record { puts = λ i l. absurd (omega arith); outside = λ x o. refl }

Put-store8 :
    (m m' : Mem) (to n b : ℕ) (byte rest : ℕ → ℕ)
    → b ≡ byte 0
    → ((i : ℕ) → i < n → rest i ≡ byte (suc i))
    → Put (store8 m to b) m' (to + 1) n rest
    → Put m m' to (suc n) byte
Put-store8 m m' to n b byte rest first same put = record {
  puts = puts;
  outside = λ x o. put.outside x (omega arith) ∙ store8_outside m to b x (omega arith);
}
  where
    puts : (i : ℕ) → i < suc n → m' (to + i) ≡ byte i
    puts zero l =
        let at : to + 0 ≡ to = omega arith in
        rw at (put.outside to (omega arith) ∙ store8_self m to b ∙ first)
    puts (suc j) l =
        let place : to + suc j ≡ to + 1 + j = omega arith in
        rw place (put.puts j (omega arith) ∙ same j (omega arith))

-- A text of `n` characters at `from`.
pub record IsText (m : Mem) (from n : ℕ) : Type 0 where
  pub chars : (i : ℕ) → i < n → m (from + i) ≢ 0
  pub end : m (from + n) ≡ 0

IsText-tail :
    (m m₁ : Mem) (from n : ℕ)
    → ((x : ℕ) → from < x → x ≤ from + suc n → m₁ x ≡ m x)
    → IsText m from (suc n)
    → IsText m₁ (from + 1) n
IsText-tail m m₁ from n same text = record {
  chars = λ i l.
      let place : from + 1 + i ≡ from + suc i = omega arith in
      rw (place, same (from + suc i) (omega arith) (omega arith))
        (text.chars (suc i) (omega arith));
  end =
      let place : from + 1 + n ≡ from + suc n = omega arith in
      rw (place, same (from + suc n) (omega arith) (omega arith)) text.end;
}

copy_text-stop :
    (rounds : ℕ) (m : Mem) (from to : ℕ)
    → m from ≡ 0
    → copy_text (suc rounds) m from to ≡ some (m, to)
unfolding copy_text
copy_text-stop rounds m from to end = rw end refl

copy_text-next :
    (rounds : ℕ) (m : Mem) (from to : ℕ)
    → m from ≢ 0
    → copy_text (suc rounds) m from to ≡ copy_text rounds (store8 m to (m from)) (from + 1) (to + 1)
unfolding copy_text
copy_text-next rounds m from to char =
    let goes : (m from == 0) ≡ false = ground arith in rw goes refl

copy_text-Put :
    (n rounds : ℕ) (m : Mem) (from to : ℕ)
    → n < rounds
    → IsText m from n
    → Apart to n from (n + 1)
    → (m' : Mem) × (copy_text rounds m from to ≡ some (m', to + n))
      × Put m m' to n (λ i. m (from + i))
copy_text-Put n zero m from to few text apart = absurd (omega arith)
copy_text-Put zero (suc rounds) m from to few text apart =
    let here : from + 0 ≡ from = omega arith in
    let place : to ≡ to + 0 = omega arith in
    (
      m,
      copy_text-stop rounds m from to (rw here at text.end) ∙ ap (λ p. some (m, p)) place,
      Put-none m to (λ i. m (from + i)),
    )
copy_text-Put (suc n) (suc rounds) m from to few text apart =
    let m₁ = store8 m to (m from) in
    let here : from + 0 ≡ from = omega arith in
    let kept : (x : ℕ) → from < x → x ≤ from + suc n → m₁ x ≡ m x =
      λ x lo hi. store8_outside m to (m from) x (omega arith) in
    let (m', copied, put) =
      copy_text-Put n rounds m₁ (from + 1) (to + 1) (omega arith)
        (IsText-tail m m₁ from n kept text) (omega arith) in
    let place : to + 1 + n ≡ to + suc n = omega arith in
    let next : (i : ℕ) → i < n → m₁ (from + 1 + i) ≡ m (from + suc i) = λ i l.
      let step : from + 1 + i ≡ from + suc i = omega arith in
      rw step (kept (from + suc i) (omega arith) (omega arith)) in
    (
      m',
      copy_text-next rounds m from to (rw here at (text.chars 0 (omega arith)))
          ∙ copied
          ∙ ap (λ p. some (m', p)) place,
      Put-store8 m m' to n (m from) (λ i. m (from + i)) (λ i. m₁ (from + 1 + i)) (ap m (sym here))
          next put,
    )

-- The characters of the digits.
abbrev digit_byte : (f : Floats) → f.Double → ℕ → ℕ
digit_byte f value i = u8 (digit f value i + b'0')

put_fraction-Put :
    (f : Floats) (left : ℕ) (m : Mem) (to : ℕ) (value : f.Double)
    → ((put_fraction f left m to value).1 ≡ to + left)
      × Put m (put_fraction f left m to value).0 to left (digit_byte f value)
unfolding put_fraction
put_fraction-Put f zero m to value = (omega arith, Put-none m to (digit_byte f value))
put_fraction-Put f (suc left) m to value =
    let scaled = times_ten f value in
    let m₁ = store8 m to (digit_char f scaled) in
    let (place, put) = put_fraction-Put f left m₁ (to + 1) (without_int f scaled) in
    (
      place ∙ omega arith,
      Put-store8 m (put_fraction f left m₁ (to + 1) (without_int f scaled)).0 to left
          (digit_char f scaled) (digit_byte f value) (digit_byte f (without_int f scaled)) refl
          (λ i l. refl) put,
    )

-- A text that has been copied spells the same.
spelled_moved :
    (m m' : Mem) (a b k : ℕ)
    → ((i : ℕ) → i ≤ k → m' (b + i) ≡ m (a + i))
    → spelled m' b k ≡ spelled m a k
spelled_moved m m' a b zero same =
    let here : a + 0 ≡ a = omega arith in
    let there : b + 0 ≡ b = omega arith in
    omega (arith, (rw (here, there) at (same 0 (omega arith))))
spelled_moved m m' a b (suc k) same =
    omega
      (arith, spelled_moved m m' a b k (λ i l. same i (omega arith)), same (suc k) (omega arith))

-- From `output` on there stand the decimal of `v`, a point, `n` digits of `fraction` and a zero
-- byte, and besides them only bytes of the buffer at `int_output` have changed.
pub record IsPointed (f : Floats) (m m' : Mem) (output int_output v n : ℕ) (fraction : f.Double)
    : Type 0 where
  pub last : ℕ
  pub short : last < 20
  pub reads : spelled m' output last ≡ v
  pub digits : IsDigits m' output last
  pub point : m' (output + last + 1) ≡ b'.'
  pub behind :
      (i : ℕ)
      → i < n
      → (digit f fraction i < 10) × (m' (output + last + 2 + i) ≡ digit f fraction i + b'0')
  pub terminated : m' (output + last + 2 + n) ≡ 0
  pub outside :
      (x : ℕ) → Apart output (last + n + 3) x 1 → Apart int_output (last + 2) x 1 → m' x ≡ m x

-- What follows the copy of a decimal.
pointed :
    (f : Floats) (laws : IsDouble f) (m m₁ m₂ : Mem) (output int_output v n : ℕ)
    (fraction : f.Double)
    → IsFraction f fraction
    → (d : IsDecimal m m₁ int_output v) → Put m₁ m₂ output (d.last + 1) (λ i. m₁ (int_output + i))
    → let filled =
        put_fraction f n
          (store8 m₂ (output + (d.last + 1)) b'.')
          (output + (d.last + 1) + 1)
          fraction in
      IsPointed f m (store8 filled.0 filled.1 0) output int_output v n fraction
pointed f laws m m₁ m₂ output int_output v n fraction is_fraction d copied =
    let end = output + (d.last + 1) in
    let m₃ = store8 m₂ end b'.' in
    let (place, put) = put_fraction-Put f n m₃ (end + 1) fraction in
    let m₄ = (put_fraction f n m₃ (end + 1) fraction).0 in
    let m₅ = store8 m₄ (end + 1 + n) 0 in
    let same : (x : ℕ) → (x < end + 1) ⊎ (end + 2 + n ≤ x) → m₅ x ≡ m₃ x =
      λ x o. store8_outside m₄ (end + 1 + n) 0 x (omega arith) ∙ put.outside x (omega arith) in
    let kept : (x : ℕ) → (x < end) ⊎ (end + 2 + n ≤ x) → m₅ x ≡ m₂ x =
      λ x o. same x (omega arith) ∙ store8_outside m₂ end b'.' x (omega arith) in
    let char : (i : ℕ) → i ≤ d.last → m₅ (output + i) ≡ m₁ (int_output + i) =
      λ i l. kept (output + i) (omega arith) ∙ copied.puts i (omega arith) in
    rw place (record {
      last = d.last;
      short = d.short;
      reads = spelled_moved m₁ m₅ int_output output d.last char ∙ d.reads;
      digits = λ j l. rw (char j l) (d.digits j l);
      point =
          let here : output + d.last + 1 ≡ end = omega arith in
          rw here (same end (omega arith) ∙ store8_self m₂ end b'.');
      behind = λ i l.
          let here : output + d.last + 2 + i ≡ end + 1 + i = omega arith in
          let below = digit_lt f laws i fraction is_fraction in
          let char : m₅ (output + d.last + 2 + i) ≡ digit_byte f fraction i =
            rw here
              (store8_outside m₄ (end + 1 + n) 0 (end + 1 + i) (omega arith) ∙ put.puts i l) in
          (below, omega (arith, below, char));
      terminated =
          let here : output + d.last + 2 + n ≡ end + 1 + n = omega arith in
          rw here (store8_self m₄ (end + 1 + n) 0);
      outside = λ x o o'.
          kept x (omega arith) ∙ copied.outside x (omega arith) ∙ d.outside x (omega arith);
    })

IsDecimal-IsText : (m m₁ : Mem) (a v : ℕ) (d : IsDecimal m m₁ a v) → IsText m₁ a (d.last + 1)
IsDecimal-IsText m m₁ a v d = record {
  chars = λ i l zero_char. omega (arith, d.digits i (omega arith), zero_char);
  end = let here : a + (d.last + 1) ≡ a + d.last + 1 = omega arith in rw here d.terminated;
}

-- Where the variables of to_string(int64_t) that are not initialised hold 0, the two buffers
-- are apart, the value's integer part is not below zero, its absolute value is below 2 ^ 31,
-- and the numbers are such that -1 times a number below 0 is not below 0, ten times a fraction
-- is below 10 and a number that an int holds less its integer part is a fraction, to_string of
-- a floating point number returns within 21 rounds of its copy: the text is the decimal of the
-- integer part, a point, as many characters as the precision says, 20 at most, and a zero byte;
-- each character is that of the digit, below 10, which is the integer part of ten times what is
-- left of the fraction, and no byte outside the two texts has changed.
pub to_string_double-IsPointed :
    (f : Floats) (laws : IsDouble f) (rounds : ℕ) (m : Mem) (output int_output : ℕ)
    (value : f.Double) (precision : ℕ)
    → 21 ≤ rounds
    → Apart output 64 int_output 64
    → f.to_int64 value < 2 ^ 63
    → f.less (absolute f value) (f.of_uint (2 ^ 31)) ≡ true
    → (m' : Mem) × (to_string_double f rounds m output int_output 0 0 value precision ≡ some m')
      × IsPointed f m m' output int_output
          (f.to_int64 value)
          (at_most_20 precision)
          (fractional f value)
unfolding to_string_double
to_string_double-IsPointed f laws rounds m output int_output value precision enough apart above
      small =
    let m₁ = to_string_signed m int_output 0 0 (f.to_int64 value) in
    let start : int_output + 0 + 0 ≡ int_output = omega arith in
    let d : IsDecimal m m₁ int_output (f.to_int64 value) =
      rw start at
        (to_string_signed-IsDecimal m int_output 0 0 (f.to_int64 value) (omega arith) above) in
    let short = d.short in
    let (m₂, copied, put) =
      copy_text-Put (d.last + 1) rounds m₁ int_output output (omega arith)
        (IsDecimal-IsText m m₁ int_output (f.to_int64 value) d) (omega arith) in
    let fraction = fractional f value in
    (
      put_point f value precision (m₂, output + (d.last + 1)),
      ap (Option.map (put_point f value precision)) copied,
      pointed f laws m m₁ m₂ output int_output (f.to_int64 value) (at_most_20 precision) fraction
          (fractional-IsFraction f laws value small) d put,
    )
