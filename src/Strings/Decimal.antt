-- ===== src/Strings/Decimal.antt =====
-- What `to_string` spells.
use native.Mathlib.Nat.{pow-suc}
use eta_os.Base.{
  ℕ, zero, suc, ◌+◌, ◌-◌, ◌*◌, ◌/◌, ◌%◌, ◌^◌, ◌≤◌, ◌<◌, ◌≡◌, refl, ◌∙◌, inl, inr, false, arith, ltb,
  ◌==◌, if◌then◌else◌, ltb→lt, ==_iff, Bool-cases, u8,
}
use eta_os.Memory.{Mem, store8}
use eta_os.Memory.Words.{Apart, store8_outside, store8_self}
use eta_os.Strings.{probe, put_digits, to_string}

-- The number of digits of a value, less one.
pub more_digits : ℕ → ℕ → ℕ
more_digits zero v = 0
more_digits (suc rounds) v =
    let rest = suc (more_digits rounds (v / 10)) in if ltb 0 (v / 10) then rest else 0

-- The number that the characters from `a` on to `a + k` spell.
abbrev pub spelled : Mem → ℕ → ℕ → ℕ
spelled m a zero = m a - b'0'
spelled m a (suc k) = spelled m a k * 10 + (m (a + suc k) - b'0')

abbrev pub IsDigits : Mem → ℕ → ℕ → Type 0
IsDigits m a k = (j : ℕ) → j ≤ k → (b'0' ≤ m (a + j)) × (m (a + j) ≤ b'9')

spelled_same :
    (m m' : Mem) (a k : ℕ) → ((x : ℕ) → x ≤ a + k → m' x ≡ m x) → spelled m' a k ≡ spelled m a k
spelled_same m m' a zero same = rw (same a (omega arith)) refl
spelled_same m m' a (suc k) same =
    rw (spelled_same m m' a k (λ x l. same x (omega arith)), same (a + suc k) (omega arith)) refl

probe-more_digits :
    (rounds v size : ℕ)
    → size + more_digits rounds v < 256
    → probe rounds v size ≡ size + more_digits rounds v
unfolding probe more_digits
probe-more_digits zero v size h = omega arith
probe-more_digits (suc rounds) v size h = elim (Bool-cases (ltb 0 (v / 10))) [
  | inl more ↦
      let few : size + suc (more_digits rounds (v / 10)) < 256 = rw more at h in
      let byte : u8 (size + 1) ≡ size + 1 = omega arith in
      rw (more, byte) (probe-more_digits rounds (v / 10) (size + 1) (omega arith) ∙ omega arith)
  | inr done ↦ rw done (omega arith)
]

pub more_digits-lt : (rounds v : ℕ) → v < 10 ^ suc rounds → more_digits (suc rounds) v ≤ rounds
unfolding more_digits
more_digits-lt zero v h = let done : ltb 0 (v / 10) ≡ false = ground arith in rw done (omega arith)
more_digits-lt (suc rounds) v h = elim (Bool-cases (ltb 0 (v / 10))) [
  | inl more ↦ rw more (
      let ih = more_digits-lt rounds (v / 10) (omega (arith, pow-suc 10 (suc rounds))) in
      omega arith)
  | inr done ↦ rw done (omega arith)
]

-- The digits from `a` on to `a + k` are those of the value, the first is not 0 unless the value is,
-- and nothing else is written.
pub record Spells (m m' : Mem) (a k v : ℕ) : Type 0 where
  pub reads : spelled m' a k ≡ v
  pub digits : IsDigits m' a k
  pub outside : (x : ℕ) → Apart a (suc k) x 1 → m' x ≡ m x
  pub leading : 0 < v → b'0' < m' a

-- One digit.
put-Spells : (m : Mem) (a v : ℕ) → v < 10 → Spells m (store8 m a (v % 10 + b'0')) a 0 v
put-Spells m a v small =
    let put = store8 m a (v % 10 + b'0') in
    let here : put a ≡ v % 10 + b'0' = store8_self m a (v % 10 + b'0') in
    record {
      reads = omega (arith, here);
      digits = λ j l. let e : a + j ≡ a = omega arith in rw e (omega (arith, here));
      outside = λ x o. store8_outside m a (v % 10 + b'0') x (omega arith);
      leading = λ pos. omega (arith, here);
    }

-- The last digit, and those before it.
put-Spells_cons :
    (m m' : Mem) (a k v : ℕ)
    → 0 < v / 10
    → Spells (store8 m (a + suc k) (v % 10 + b'0')) m' a k (v / 10)
    → Spells m m' a (suc k) v
put-Spells_cons m m' a k v more s =
    let put = store8 m (a + suc k) (v % 10 + b'0') in
    let here : m' (a + suc k) ≡ v % 10 + b'0' =
      s.outside (a + suc k) (omega arith) ∙ store8_self m (a + suc k) (v % 10 + b'0') in
    record {
      reads = omega (arith, s.reads, here);
      digits = λ j l. elim (Bool-cases (j == suc k)) [
        | inl last ↦ let e : j ≡ suc k = (==_iff j (suc k)).0 last in rw e (omega (arith, here))
        | inr before ↦ s.digits j (ground arith)
      ];
      outside = λ x o.
          s.outside x (omega arith) ∙ store8_outside m (a + suc k) (v % 10 + b'0') x (omega arith);
      leading = λ pos. s.leading more;
    }

-- The loop puts the digits of the value, with a round for each; where `size` is too large by `shift`,
-- they begin that much later.
pub put_digits-Spells :
    (rounds : ℕ) (m : Mem) (output is_negative shift size index v : ℕ)
    → v < 10 ^ suc rounds
    → size < 256
    → size ≡ shift + index + more_digits (suc rounds) v
    → Spells m
        (put_digits (suc rounds) m output is_negative size index v)
        (output + is_negative + shift)
        (more_digits (suc rounds) v)
        v
unfolding put_digits more_digits
put_digits-Spells zero m output is_negative shift size index v fits small e =
    let done : ltb 0 (v / 10) ≡ false = ground arith in
    let e' : size ≡ shift + index + 0 = rw done at e in
    let at : output + is_negative + size - index ≡ output + is_negative + shift = omega arith in
    rw (done, at) (put-Spells m (output + is_negative + shift) v (omega arith))
put_digits-Spells (suc rounds) m output is_negative shift size index v fits small e =
    elim (Bool-cases (ltb 0 (v / 10))) [
      | inl more ↦
          let k = more_digits (suc rounds) (v / 10) in
          let a = output + is_negative + shift in
          let e' : size ≡ shift + index + suc k = rw more at e in
          let at : output + is_negative + size - index ≡ a + suc k = omega arith in
          let byte : u8 (index + 1) ≡ index + 1 = omega arith in
          rw (more, at, byte)
            (put-Spells_cons m _ a k v (ltb→lt 0 (v / 10) more) (
              put_digits-Spells rounds (store8 m (a + suc k) (v % 10 + b'0')) output is_negative
                shift size (index + 1) (v / 10) (omega (arith, pow-suc 10 (suc rounds))) small
                (omega arith)))
      | inr done ↦
          let e' : size ≡ shift + index + 0 = rw done at e in
          let at : output + is_negative + size - index ≡ output + is_negative + shift =
            omega arith in
          rw (done, at) (put-Spells m (output + is_negative + shift) v (ground arith))
    ]

-- The text at `a` is the decimal of `v`, with a zero byte behind it.
pub record IsDecimal (m m' : Mem) (a v : ℕ) : Type 0 where
  pub last : ℕ
  pub short : last < 20
  pub reads : spelled m' a last ≡ v
  pub digits : IsDigits m' a last
  pub leading : 0 < v → b'0' < m' a
  pub terminated : m' (a + last + 1) ≡ 0
  pub outside : (x : ℕ) → Apart a (last + 2) x 1 → m' x ≡ m x

pub terminate-IsDecimal :
    (m m' : Mem) (a last v : ℕ)
    → last < 20
    → Spells m m' a last v
    → IsDecimal m (store8 m' (a + last + 1) 0) a v
terminate-IsDecimal m m' a last v short s =
    let m'' = store8 m' (a + last + 1) 0 in
    let keep : (x : ℕ) → x ≤ a + last → m'' x ≡ m' x =
      λ x l. store8_outside m' (a + last + 1) 0 x (omega arith) in
    record {
      last = last;
      short = short;
      reads = spelled_same m' m'' a last keep ∙ s.reads;
      digits = λ j l. rw (keep (a + j) (omega arith)) (s.digits j l);
      leading = λ pos. rw (keep a (omega arith)) (s.leading pos);
      terminated = store8_self m' (a + last + 1) 0;
      outside =
          λ x o. store8_outside m' (a + last + 1) 0 x (omega arith) ∙ s.outside x (omega arith);
    }

-- The value's digits behind `is_negative` other bytes, from the two loops of both `to_string`.
pub digits-IsDecimal :
    (m : Mem) (output is_negative size₀ value : ℕ)
    → size₀ < 230
    → value < 2 ^ 64
    → let size = probe 20 value size₀ in
      IsDecimal m
        (store8
          (put_digits 20 m output is_negative size 0 value)
          (output + is_negative + size + 1)
          0)
        (output + is_negative + size₀)
        value
digits-IsDecimal m output is_negative size₀ value garbage fits =
    let k = more_digits 20 value in
    let few = more_digits-lt 19 value (omega arith) in
    let size : probe 20 value size₀ ≡ size₀ + k = probe-more_digits 20 value size₀ (omega arith) in
    let end : output + is_negative + (size₀ + k) + 1 ≡ output + is_negative + size₀ + k + 1 =
      omega arith in
    rw (size, end)
      (terminate-IsDecimal m (put_digits 20 m output is_negative (size₀ + k) 0 value)
        (output + is_negative + size₀) k value (omega arith)
        (put_digits-Spells 19 m output is_negative size₀ (size₀ + k) 0 value (omega arith)
          (omega arith) (omega arith)))

-- The text of a value of 64 bits is its decimal, with a zero byte behind it, and no other byte
-- is written; but it stands as many bytes behind the start of the buffer as size, which is not
-- initialised, holds before (below 230).
pub to_string-IsDecimal :
    (m : Mem) (output size₀ value : ℕ)
    → size₀ < 230
    → value < 2 ^ 64
    → IsDecimal m (to_string m output size₀ value) (output + size₀) value
unfolding to_string
to_string-IsDecimal m output size₀ value garbage fits =
    let start : output + 0 ≡ output = omega arith in
    rw start at (digits-IsDecimal m output 0 size₀ value garbage fits)
