-- ===== src/Paging/Entry.antt =====
-- The bits of a page table entry.
use native.Mathlib.Nat.{one-le-pow}
use eta_os.Base.{
  ℕ, ◌+◌, ◌-◌, ◌%◌, ◌^◌, ◌<◌, bit_and, ◌≡◌, refl, ◌∙◌, ◌≢◌, Bool, true, ◌&&◌, arith, ltb, leb, ◌==◌,
  if◌then◌else◌, ==_iff, u64, ◌<<<◌, ◌>>>◌, bit_not,
}
use eta_os.Bits.Digit.{
  digit, digit-lt, digit-and, digit-or, digit-not, digit-pow, digit_ext, bit_and-pow, bit_and-lt,
  bit_or-lt, pow-lt-pow, bit_and-lt_right,
}
use eta_os.Paging.{
  PtFlag, present, read_write, nx, flag_bit, bit_selector, set_flag, get_flag, get_address,
  set_address, filled,
}
use eta_os.Bits.Shift.{digit-shr, digit-shl, digit-mod, all_below, all_below-apply}

flag_bit-lt : (f : PtFlag) → flag_bit f < 64
flag_bit-lt present = omega arith
flag_bit-lt _ = omega arith

low_flag : (f : PtFlag) → f ≢ nx → flag_bit f < 12
low_flag nx ne = absurd (ne refl)
low_flag _ ne = omega arith

bit_selector-pow : (f : PtFlag) → bit_selector f ≡ 2 ^ flag_bit f
bit_selector-pow present = refl
bit_selector-pow _ = refl

-- set_flag gives the flag's own bit the value and keeps every other bit of the entry.
pub digit-set_flag :
    (v : ℕ) (f : PtFlag) (b : Bool) (i : ℕ)
    → i < 64
    → digit (set_flag v f b) i ≡ (if flag_bit f == i then (if b then 1 else 0) else digit v i)
unfolding set_flag
digit-set_flag v f b i l =
    let power = pow-lt-pow (flag_bit f) 64 (flag_bit-lt f) in
    let mask = bit_not 64 (2 ^ flag_bit f) in
    rw (bit_selector-pow f) (
      ground (
        arith,
        digit-or (bit_and v mask) (2 ^ flag_bit f) i,
        digit-and v mask i,
        digit-not 64 (2 ^ flag_bit f) i power l,
        digit-pow (flag_bit f) i,
        digit-lt v i,
      ))

-- get_flag reads the lowest bit of the entry, whatever flag it is asked for.
pub get_flag-digit : (v : ℕ) (f : PtFlag) → get_flag v f ≡ (digit v 0 == 1)
unfolding get_flag
get_flag-digit v f =
    rw (bit_selector-pow f)
      (ground (arith, one-le-pow (flag_bit f) 2, bit_and-pow v 0, digit-lt v 0))

-- The masks of the two address operations, as ranges of digits.
address_mask :
    (i : ℕ) → i < 64 → digit 0x000ffffffffff000 i ≡ (if leb 12 i && ltb i 52 then 1 else 0)
unfolding digit all_below
address_mask i l = (==_iff _ _).0 (
    all_below-apply 64 (λ j. digit 0x000ffffffffff000 j == (if leb 12 j && ltb j 52 then 1 else 0))
      i refl l)

other_mask : (i : ℕ) → i < 64 → digit 0xfff0000000000fff i ≡ (if leb 12 i && ltb i 52 then 0 else 1)
unfolding digit all_below
other_mask i l = (==_iff _ _).0 (
    all_below-apply 64 (λ j. digit 0xfff0000000000fff j == (if leb 12 j && ltb j 52 then 0 else 1))
      i refl l)

low_mask : (i : ℕ) → i < 64 → digit 0x000000ffffffffff i ≡ (if ltb i 40 then 1 else 0)
unfolding digit all_below
low_mask i l =
    (==_iff _ _).0
      (all_below-apply 64 (λ j. digit 0x000000ffffffffff j == (if ltb j 40 then 1 else 0)) i refl l)

-- set_address replaces the bits 12 to 51 of an entry by the address and keeps every other bit.
pub digit-set_address :
    (v addr i : ℕ)
    → i < 64
    → digit (set_address v addr) i
      ≡ (if leb 12 i && ltb i 52 then digit addr (i - 12) else digit v i)
unfolding set_address
digit-set_address v addr i l =
    let low = bit_and addr 0x000000ffffffffff in
    ground (
      arith,
      digit-or (bit_and v 0xfff0000000000fff) (u64 (low <<< 12)) i,
      digit-and v 0xfff0000000000fff i,
      other_mask i l,
      digit-mod (low <<< 12) 64 i,
      digit-shl low 12 i,
      digit-and addr 0x000000ffffffffff (i - 12),
      low_mask (i - 12),
      digit-lt v i,
      digit-lt addr (i - 12),
    )

pub digit-get_address : (v i : ℕ) → i < 40 → digit (get_address v) i ≡ digit v (i + 12)
unfolding get_address
digit-get_address v i l = ground (
  arith,
  digit-shr (bit_and v 0x000ffffffffff000) 12 i,
  digit-and v 0x000ffffffffff000 (i + 12),
  address_mask (i + 12),
  digit-lt v (i + 12),
)

pub get_address-lt : (v : ℕ) → get_address v < 2 ^ 40
unfolding get_address
get_address-lt v = omega (arith, bit_and-lt_right 52 v 0x000ffffffffff000 (omega arith))

-- get_address returns the address that set_address was given, in 40 bits, whatever the entry
-- held.
pub get_address-set_address : (v addr : ℕ) → get_address (set_address v addr) ≡ addr % 2 ^ 40
get_address-set_address v addr =
    digit_ext 40 _ _ (get_address-lt (set_address v addr)) (omega arith) λ i l. ground (
      arith,
      digit-get_address (set_address v addr) i l,
      digit-set_address v addr (i + 12),
      digit-mod addr 40 i,
    )

-- The flags below the address do not change it.
pub get_address-set_flag :
    (v : ℕ) (f : PtFlag) (b : Bool) → f ≢ nx → get_address (set_flag v f b) ≡ get_address v
get_address-set_flag v f b ne =
    digit_ext 40 _ _ (get_address-lt (set_flag v f b)) (get_address-lt v) λ i l. ground (
      arith,
      digit-get_address (set_flag v f b) i l,
      digit-get_address v i l,
      digit-set_flag v f b (i + 12),
      low_flag f ne,
    )

-- The read of the present bit, which is the lowest one.
pub present-digit : (v : ℕ) → get_flag v present ≡ (digit v 0 == 1)
present-digit v = get_flag-digit v present

-- An entry that `map_mem` fills is present and points to the page of the address.
pub filled-present : (v addr : ℕ) → get_flag (filled v addr) present ≡ true
filled-present v addr =
    let entered = set_address v (addr >>> 12) in
    ground (
      arith,
      present-digit (filled v addr),
      digit-set_flag (set_flag entered present true) read_write true 0 (omega arith),
      digit-set_flag entered present true 0 (omega arith),
    )

pub filled-address : (v addr : ℕ) → get_address (filled v addr) ≡ (addr >>> 12) % 2 ^ 40
filled-address v addr =
    let entered = set_address v (addr >>> 12) in
    get_address-set_flag (set_flag entered present true) read_write true (cc)
    ∙ get_address-set_flag entered present true (cc)
    ∙ get_address-set_address v (addr >>> 12)

pub set_flag-lt : (v : ℕ) (f : PtFlag) (b : Bool) → v < 2 ^ 64 → set_flag v f b < 2 ^ 64
unfolding set_flag
set_flag-lt v f b h =
    let kept = bit_and-lt 64 v (bit_not 64 (bit_selector f)) h in
    ground (
      arith,
      kept,
      bit_or-lt 64 (bit_and v (bit_not 64 (bit_selector f))) (bit_selector f) kept (omega arith),
    )

pub filled-lt : (v addr : ℕ) → v < 2 ^ 64 → filled v addr < 2 ^ 64
unfolding set_address
filled-lt v addr h = set_flag-lt _ read_write true (
    set_flag-lt _ present true
      (bit_or-lt 64 _ _ (bit_and-lt 64 v 0xfff0000000000fff h) (omega arith)))
