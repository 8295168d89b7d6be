-- ===== src/Interrupts/Gate.antt =====
-- A gate that is set is the gate that is read, and no other gate changes.
use Prim.Native.Nat.{bit_or-bitwise}
use eta_os.Base.{
  ℕ, ◌+◌, ◌*◌, ◌/◌, ◌%◌, ◌^◌, ◌≤◌, ◌<◌, bit_and, bit_or, ◌≡◌, refl, ◌∙◌, ◌≢◌, ◌&&◌, arith, ltb, leb,
  ◌==◌, if◌then◌else◌, ==_iff, u16, u32, u64,
}
use eta_os.Bits.Digit.{digit, digit-lt, digit-and, digit_ext, bit_and-lt, bit_and-lt_right}
use eta_os.Bits.Shift.{digit-shr, digit-mod, all_below, all_below-apply, bit_or-shl, bit_and-ones}
use eta_os.Memory.{Mem, store8, load16, load32, store16, store32}
use eta_os.Interrupts.{set_offset, get_offset, gate_at, set_idt_gate}
use eta_os.Memory.Words.{
  Apart, store16_outside, store32_outside, SameOn, load16_same, load32_same, load16-store16,
  load32-store32,
}

-- The three parts of an offset, as arithmetic.
low_part : (x : ℕ) → bit_and x 0x000000000000ffff ≡ x % 2 ^ 16
low_part x = bit_and-ones 16 x

middle_digit :
    (i : ℕ) → i < 64 → digit 0x00000000ffff0000 i ≡ (if leb 16 i && ltb i 32 then 1 else 0)
unfolding digit all_below
middle_digit i l = (==_iff _ _).0 (
    all_below-apply 64 (λ j. digit 0x00000000ffff0000 j == (if leb 16 j && ltb j 32 then 1 else 0))
      i refl l)

middle_part : (x : ℕ) → bit_and x 0x00000000ffff0000 / 2 ^ 16 ≡ x / 2 ^ 16 % 2 ^ 16
middle_part x =
    digit_ext 16 _ _ (let l = bit_and-lt_right 32 x 0xffff0000 (omega arith) in omega arith)
      (omega arith)
      λ i l. ground (
        arith,
        digit-shr (bit_and x 0x00000000ffff0000) 16 i,
        digit-and x 0x00000000ffff0000 (i + 16),
        middle_digit (i + 16),
        digit-lt x (i + 16),
        digit-mod (x / 2 ^ 16) 16 i,
        digit-shr x 16 i,
      )

high_digit : (i : ℕ) → i < 64 → digit 0xffffffff00000000 i ≡ (if ltb i 32 then 0 else 1)
unfolding digit all_below
high_digit i l =
    (==_iff _ _).0
      (all_below-apply 64 (λ j. digit 0xffffffff00000000 j == (if ltb j 32 then 0 else 1)) i refl l)

high_part : (x : ℕ) → x < 2 ^ 64 → bit_and x 0xffffffff00000000 / 2 ^ 32 ≡ x / 2 ^ 32
high_part x h =
    digit_ext 32 _ _ (let l = bit_and-lt 64 x 0xffffffff00000000 h in omega arith) (omega arith)
      λ i l. ground (
        arith,
        digit-shr (bit_and x 0xffffffff00000000) 32 i,
        digit-and x 0xffffffff00000000 (i + 32),
        high_digit (i + 32),
        digit-lt x (i + 32),
        digit-shr x 32 i,
      )

-- `low | middle << 16 | high << 32` is a sum.
joined :
    (low middle high : ℕ)
    → low < 2 ^ 16
    → middle < 2 ^ 16
    → high < 2 ^ 32
    → bit_or (bit_or (bit_or 0 low) (u64 (middle * 2 ^ 16))) (u64 (high * 2 ^ 32))
      ≡ low + 2 ^ 16 * middle + 2 ^ 32 * high
joined low middle high a b c =
    let start : bit_or 0 low ≡ low = bit_or-bitwise 0 low in
    let middle_fits : u64 (middle * 2 ^ 16) ≡ middle * 2 ^ 16 = omega arith in
    let high_fits : u64 (high * 2 ^ 32) ≡ high * 2 ^ 32 = omega arith in
    rw (start, middle_fits, high_fits, bit_or-shl 16 low middle a)
      (bit_or-shl 32 (low + middle * 2 ^ 16) high (omega arith) ∙ omega arith)

-- The words of an entry after its three stores.
three_words :
    (m : Mem) (a p q r : ℕ)
    → p < 2 ^ 16
    → q < 2 ^ 16
    → r < 2 ^ 32
    → let m' = store32 (store16 (store16 m a p) (a + 6) q) (a + 8) r in
      (load16 m' a ≡ p) × (load16 m' (a + 6) ≡ q) × (load32 m' (a + 8) ≡ r)
three_words m a p q r hp hq hr =
    let m₁ = store16 m a p in
    let m₂ = store16 m₁ (a + 6) q in
    let m₃ = store32 m₂ (a + 8) r in
    (
      load16_same {m = m₂} {m' = m₃} a (λ x l h. store32_outside m₂ (a + 8) r x (omega arith))
          ∙ load16_same {m = m₁} {m' = m₂} a (λ x l h. store16_outside m₁ (a + 6) q x (omega arith))
          ∙ load16-store16 m a p hp,
      load16_same {m = m₂} {m' = m₃} (a + 6) (λ x l h. store32_outside m₂ (a + 8) r x (omega arith))
          ∙ load16-store16 m₁ (a + 6) q hq,
      load32-store32 m₂ (a + 8) r hr,
    )

store8_other : (m : Mem) (a v x : ℕ) → x ≢ a → store8 m a v x ≡ m x
unfolding store8
store8_other m a v x ne = ground arith

-- The offset of 64 bits that set_offset stores is the one that get_offset reads.
pub get_offset-set_offset :
    (m : Mem) (a offset : ℕ) → offset < 2 ^ 64 → get_offset (set_offset m a offset) a ≡ offset
unfolding get_offset set_offset
get_offset-set_offset m a offset fits =
    let low = low_part offset in
    let middle = middle_part offset in
    let high = high_part offset fits in
    let p : u16 (bit_and offset 0x000000000000ffff) ≡ offset % 2 ^ 16 = omega arith in
    let q : u16 (bit_and offset 0x00000000ffff0000 / 2 ^ 16) ≡ offset / 2 ^ 16 % 2 ^ 16 =
      omega arith in
    let r : u32 (bit_and offset 0xffffffff00000000 / 2 ^ 32) ≡ offset / 2 ^ 32 = omega arith in
    let (w₁, w₂, w₃) =
      three_words m a (offset % 2 ^ 16) (offset / 2 ^ 16 % 2 ^ 16) (offset / 2 ^ 32) (omega arith)
        (omega arith) (omega arith) in
    rw (p, q, r, w₁, w₂, w₃)
      (joined (offset % 2 ^ 16) (offset / 2 ^ 16 % 2 ^ 16) (offset / 2 ^ 32) (omega arith)
          (omega arith) (omega arith)
        ∙ omega arith)

set_offset_outside :
    (m : Mem) (a offset x : ℕ) → Apart a 2 x 1 → Apart (a + 6) 6 x 1 → set_offset m a offset x ≡ m x
unfolding set_offset
set_offset_outside m a offset x low high =
    store32_outside _ (a + 8) _ x (omega arith)
    ∙ store16_outside _ (a + 6) _ x (omega arith)
    ∙ store16_outside m a _ x low

pub get_offset_same :
    (m m' : Mem) (a : ℕ)
    → SameOn a 2 m m'
    → SameOn (a + 6) 6 m m'
    → get_offset m' a ≡ get_offset m a
unfolding get_offset
get_offset_same m m' a low high =
    rw
      (
        load16_same {m = m} {m' = m'} a low,
        load16_same {m = m} {m' = m'} (a + 6) (λ x l h. high x l (omega arith)),
        load32_same {m = m} {m' = m'} (a + 8) (λ x l h. high x (omega arith) (omega arith)),
      )
      refl

-- For a handler of 64 bits, a type of 8 and a selector of 16, the gate of the number that was
-- set has the handler, the type and the selector.
pub set_idt_gate-get_offset :
    (m : Mem) (idt handler entry_offset type_attr selector : ℕ)
    → handler < 2 ^ 64
    → type_attr < 2 ^ 8
    → selector < 2 ^ 16
    → let a = gate_at idt entry_offset in
      let m' = set_idt_gate m idt handler entry_offset type_attr selector in
      (get_offset m' a ≡ handler) × (m' (a + 5) ≡ type_attr) × (load16 m' (a + 2) ≡ selector)
unfolding set_idt_gate
set_idt_gate-get_offset m idt handler entry_offset type_attr selector hh ht hs =
    let a = gate_at idt entry_offset in
    let m₁ = set_offset m a handler in
    let m₂ = store8 m₁ (a + 5) type_attr in
    let m₃ = store16 m₂ (a + 2) selector in
    (
      get_offset_same m₁ m₃ a
            (λ x l h.
              store16_outside m₂ (a + 2) selector x (omega arith)
              ∙ store8_other m₁ (a + 5) type_attr x (omega arith))
            (λ x l h.
              store16_outside m₂ (a + 2) selector x (omega arith)
              ∙ store8_other m₁ (a + 5) type_attr x (omega arith))
          ∙ get_offset-set_offset m a handler hh,
      store16_outside m₂ (a + 2) selector (a + 5) (omega arith) ∙ unfold store8 in ground arith,
      load16-store16 m₂ (a + 2) selector hs,
    )

-- The bytes outside the gate's 16.
pub set_idt_gate_elsewhere :
    (m : Mem) (idt handler entry_offset type_attr selector x : ℕ)
    → Apart (gate_at idt entry_offset) 16 x 1
    → set_idt_gate m idt handler entry_offset type_attr selector x ≡ m x
unfolding set_idt_gate store8
set_idt_gate_elsewhere m idt handler entry_offset type_attr selector x off =
    let a = gate_at idt entry_offset in
    store16_outside _ (a + 2) selector x (omega arith)
    ∙ ground (arith, set_offset_outside m a handler x (omega arith) (omega arith))

-- In a table of 256 gates that ends in the address space, setting one gate changes none of the
-- 16 bytes of any other gate.
pub set_idt_gate_outside :
    (m : Mem) (idt handler entry_offset type_attr selector other i : ℕ)
    → idt + 256 * 16 ≤ 2 ^ 64
    → entry_offset < 256
    → other < 256
    → other ≢ entry_offset
    → i < 16
    → set_idt_gate m idt handler entry_offset type_attr selector (idt + other * 16 + i)
      ≡ m (idt + other * 16 + i)
set_idt_gate_outside m idt handler entry_offset type_attr selector other i fits e_fits o_fits ne l =
    set_idt_gate_elsewhere m idt handler entry_offset type_attr selector (idt + other * 16 + i)
      (omega arith)
