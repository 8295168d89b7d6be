-- ===== src/Strings/Hex.antt =====
-- What `to_hstring` writes.
use eta_os.Base.{
  ℕ, zero, suc, ◌+◌, ◌-◌, ◌*◌, ◌/◌, ◌%◌, ◌^◌, ◌≤◌, ◌<◌, bit_and, ◌≡◌, refl, ◌∙◌, ◌⊎◌, inl, inr,
  arith, ◌==◌, ==_iff, Bool-cases,
}
use eta_os.Memory.{Mem, store8}
use eta_os.Memory.Words.{Apart, store8_outside, store8_self}
use eta_os.Strings.{hex_char, put_hex, to_hstring}
use eta_os.Bits.Shift.{all_below, all_below-apply}

high_half : (b : ℕ) → b < 256 → bit_and b 0xF0 / 2 ^ 4 ≡ b / 16
unfolding all_below
high_half b h =
    (==_iff _ _).0 (all_below-apply 256 (λ x. bit_and x 0xF0 / 2 ^ 4 == x / 16) b refl h)

low_half : (b : ℕ) → b < 256 → bit_and b 0x0F ≡ b % 16
unfolding all_below
low_half b h = (==_iff _ _).0 (all_below-apply 256 (λ x. bit_and x 0x0F == x % 16) b refl h)

-- The two characters of byte `j` of the value stand where they belong.
abbrev pub HexAt : Mem → Mem → ℕ → ℕ → ℕ → ℕ → Type 0
HexAt m m' output value_ptr size j =
    (m' (output + size - (j * 2 + 1)) ≡ hex_char (m (value_ptr + j) / 16))
    × (m' (output + size - j * 2) ≡ hex_char (m (value_ptr + j) % 16))

module _ (output value_ptr size : ℕ) (room : size ≤ output)
    (apart : (value_ptr + size + size ≤ output) ⊎ (output + size < value_ptr)) where
  -- One round.
  round : Mem → ℕ → Mem
  round m i =
      store8 (store8 m (output + size - (i * 2 + 1)) (hex_char (m (value_ptr + i) / 16)))
        (output + size - i * 2) (hex_char (m (value_ptr + i) % 16))

  round_outside :
      (m : Mem) (i x : ℕ) → i < size → Apart (output + size - (i * 2 + 1)) 2 x 1 → round m i x ≡ m x
  unfolding round
  round_outside m i x l o =
      store8_outside _ (output + size - i * 2) _ x (omega arith)
      ∙ store8_outside m (output + size - (i * 2 + 1)) _ x (omega arith)

  round-HexAt : (m : Mem) (i : ℕ) → i < size → HexAt m (round m i) output value_ptr size i
  unfolding round
  round-HexAt m i l = (
    store8_outside _ (output + size - i * 2) _ (output + size - (i * 2 + 1)) (omega arith)
        ∙ store8_self m (output + size - (i * 2 + 1)) _,
    store8_self _ (output + size - i * 2) _,
  )

  put_hex-round :
      (left : ℕ) (m : Mem) (i : ℕ)
      → m (value_ptr + i) < 256
      → i < size
      → put_hex (suc left) m output value_ptr size i
        ≡ put_hex left (round m i) output value_ptr size (i + 1)
  unfolding put_hex round
  put_hex-round left m i byte l =
      let again : store8 m (output + size - (i * 2 + 1)) (hex_char (m (value_ptr + i) / 16))
            (value_ptr + i)
          ≡ m (value_ptr + i) =
        store8_outside m (output + size - (i * 2 + 1)) _ (value_ptr + i) (omega arith) in
      rw (high_half (m (value_ptr + i)) byte, again, low_half (m (value_ptr + i)) byte) refl

  put_hex-HexAt :
      (left : ℕ) (m m₀ : Mem) (i : ℕ)
      → ((j : ℕ) → j < size → m (value_ptr + j) ≡ m₀ (value_ptr + j))
      → ((j : ℕ) → j < size → m₀ (value_ptr + j) < 256)
      → i + left ≡ size
      → let m' = put_hex left m output value_ptr size i in
        ((j : ℕ) → i ≤ j → j < size → HexAt m₀ m' output value_ptr size j)
        × ((x : ℕ) → (output + size < x + i * 2) ⊎ (x + size ≤ output) → m' x ≡ m x)
  unfolding put_hex
  put_hex-HexAt zero m m₀ i same bytes e = (λ j lo hi. absurd (omega arith), λ x o. refl)
  put_hex-HexAt (suc left) m m₀ i same bytes e =
      let l : i < size = omega arith in
      let byte : m (value_ptr + i) < 256 = rw (same i l) (bytes i l) in
      let (later, outside) =
        put_hex-HexAt left (round m i) m₀ (i + 1)
          (λ j lj. round_outside m i (value_ptr + j) l (omega arith) ∙ same j lj) bytes
          (omega arith) in
      let (high, low) = round-HexAt m i l in
      rw (put_hex-round left m i byte l) (
        λ j lo hi. elim (Bool-cases (j == i)) [
          | inl here ↦
              let is : j ≡ i = (==_iff j i).0 here in
              rw is (
                outside (output + size - (i * 2 + 1)) (inl (omega arith))
                    ∙ high
                    ∙ rw (same i l) refl,
                outside (output + size - i * 2) (inl (omega arith)) ∙ low ∙ rw (same i l) refl,
              )
          | inr other ↦ later j (ground arith) hi
        ],
        λ x o. outside x (omega arith) ∙ round_outside m i x l (omega arith),
      )

-- Where the buffer and the bytes that are read do not meet, to_hstring makes 2 * bytes - 1
-- rounds, one for each byte from the value's first on: the two characters of byte j are at the
-- places size - 2 * j - 1 and size - 2 * j of the buffer, with a zero byte behind the first.
-- From round bytes on, these are bytes behind the value, and places before the buffer.
pub to_hstring-HexAt :
    (bytes : ℕ) (m : Mem) (output value_ptr : ℕ)
    → 0 < bytes
    → bytes * 2 - 1 ≤ output
    → (value_ptr + (bytes * 2 - 1) + (bytes * 2 - 1) ≤ output)
      ⊎ (output + (bytes * 2 - 1) + 1 < value_ptr)
    → ((j : ℕ) → j < bytes * 2 - 1 → m (value_ptr + j) < 256)
    → let m' = to_hstring bytes m output value_ptr in
      ((j : ℕ) → j < bytes * 2 - 1 → HexAt m m' output value_ptr (bytes * 2 - 1) j)
      × (m' (output + (bytes * 2 - 1) + 1) ≡ 0)
unfolding to_hstring
to_hstring-HexAt bytes m output value_ptr some_byte room apart is_byte =
    let size = bytes * 2 - 1 in
    let written = put_hex size m output value_ptr size 0 in
    let (chars, outside) =
      put_hex-HexAt output value_ptr size room (omega arith) size m m 0 (λ j l. refl) is_byte
        (omega arith) in
    let keep : (x : ℕ) → x ≤ output + size → store8 written (output + size + 1) 0 x ≡ written x =
      λ x l. store8_outside written (output + size + 1) 0 x (omega arith) in
    (
      λ j l.
          let (high, low) = chars j (omega arith) l in
          (
            keep (output + size - (j * 2 + 1)) (omega arith) ∙ high,
            keep (output + size - j * 2) (omega arith) ∙ low,
          ),
      store8_self written (output + size + 1) 0,
    )
