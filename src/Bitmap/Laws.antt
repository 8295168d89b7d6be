-- ===== src/Bitmap/Laws.antt =====
-- Reads after writes of the bitmap.
use native.Mathlib.Nat.{pow-le-pow_right, one-le-pow}
use eta_os.Base.{
  ℕ, zero, suc, ◌+◌, ◌-◌, ◌*◌, ◌/◌, ◌%◌, ◌^◌, ◌≤◌, ◌<◌, bit_and, bit_or, ◌≡◌, refl, ◌≢◌, Bool, true,
  false, ◌&&◌, arith, ltb, ◌==◌, if◌then◌else◌, u64, bit_not,
}
use eta_os.Bits.Digit.{
  digit, digit-lt, digit-zero, digit-and, digit-or, digit-not, digit-pow, bit_and-pow, bit_and-lt,
  bit_or-lt,
}
use eta_os.Memory.{Mem, store8}
use eta_os.Memory.Words.{IsBytes}
use eta_os.Bitmap.{Bitmap, in_range, bit_indexer, get, set}

-- The digit of a byte that holds a bit of the map.
abbrev pub place : ℕ → ℕ
place index = 7 - index % 8

power_at : (k : ℕ) → k < 8 → 128 / 2 ^ k ≡ 2 ^ (7 - k)
power_at zero h = refl
power_at (suc zero) h = refl
power_at (suc (suc zero)) h = refl
power_at (suc (suc (suc zero))) h = refl
power_at (suc (suc (suc (suc zero)))) h = refl
power_at (suc (suc (suc (suc (suc zero))))) h = refl
power_at (suc (suc (suc (suc (suc (suc zero)))))) h = refl
power_at (suc (suc (suc (suc (suc (suc (suc zero))))))) h = refl
power_at (suc (suc (suc (suc (suc (suc (suc (suc k)))))))) h = absurd (omega arith)

bit_indexer-pow : (index : ℕ) → bit_indexer index ≡ 2 ^ place index
bit_indexer-pow index = power_at (index % 8) (omega arith)

pow_below_byte : (k : ℕ) → k < 8 → 2 ^ k < 256
pow_below_byte k h =
    omega (arith, pow-le-pow_right {n = 2} (omega arith) {i = k} {j = 7} (omega arith))

-- `x & ~(1 << k)` and then `| (1 << k)`, digit by digit.
digit-clear :
    (x k j : ℕ)
    → k < 8
    → j < 8
    → digit (bit_and x (bit_not 8 (2 ^ k))) j ≡ (if k == j then 0 else digit x j)
digit-clear x k j hk hj = ground (
  arith,
  digit-and x (bit_not 8 (2 ^ k)) j,
  digit-not 8 (2 ^ k) j (pow_below_byte k hk) hj,
  digit-pow k j,
  digit-lt x j,
)

digit-fill :
    (x k j : ℕ)
    → k < 8
    → j < 8
    → digit (bit_or (bit_and x (bit_not 8 (2 ^ k))) (2 ^ k)) j ≡ (if k == j then 1 else digit x j)
digit-fill x k j hk hj = ground (
  arith,
  digit-or (bit_and x (bit_not 8 (2 ^ k))) (2 ^ k) j,
  digit-clear x k j hk hj,
  digit-pow k j,
  digit-lt x j,
)

positive : (x k : ℕ) → ltb 0 (digit x k * 2 ^ k) ≡ (digit x k == 1)
positive x k = ground (arith, one-le-pow k 2, digit-lt x k)

-- A read, as a digit of a byte.
get-digit :
    (b : Bitmap) (m : Mem) (index : ℕ)
    → get b m index ≡ (in_range b index && (digit (m (b.buffer + index / 8)) (place index) == 1))
unfolding get
get-digit b m index =
    rw (bit_indexer-pow index, bit_and-pow)
      (ground (
        arith,
        digit-lt (m (b.buffer + index / 8)) (place index),
        positive (m (b.buffer + index / 8)) (place index),
      ))

-- What `set` stores.
stored : Bitmap → Mem → ℕ → Bool → ℕ
stored b m index value =
    let cleared = bit_and (m (b.buffer + index / 8)) (bit_not 8 (2 ^ place index)) in
    if value then bit_or cleared (2 ^ place index) else cleared

set-stored :
    (b : Bitmap) (m : Mem) (index : ℕ) (value : Bool)
    → set b m index value ≡ (
        if in_range b index
        then (store8 m (b.buffer + index / 8) (stored b m index value), true)
        else (m, false))
unfolding set stored
set-stored b m index value = rw (bit_indexer-pow index) (ground arith)

digit-stored :
    (b : Bitmap) (m : Mem) (index j : ℕ) (value : Bool)
    → j < 8
    → digit (stored b m index value) j
      ≡ (if place index == j then (if value then 1 else 0) else digit (m (b.buffer + index / 8)) j)
unfolding stored
digit-stored b m index j true h =
    digit-fill (m (b.buffer + index / 8)) (place index) j (omega arith) h
digit-stored b m index j false h =
    digit-clear (m (b.buffer + index / 8)) (place index) j (omega arith) h

-- After Bitmap::set the bit at the index reads as the value if the index passes the range test,
-- and every other bit reads as before.
pub get-set :
    (b : Bitmap) (m : Mem) (index j : ℕ) (value : Bool)
    → get b (set b m index value).0 j
      ≡ (if in_range b index && (index == j) then value else get b m j)
unfolding store8
get-set b m index j value =
    rw (get-digit b (set b m index value).0 j, get-digit b m j, set-stored b m index value)
      (ground (arith, digit-stored b m index (place j) value (omega arith)))

-- `set` says whether the index passed the test.
pub set-in_range :
    (b : Bitmap) (m : Mem) (index : ℕ) (value : Bool) → (set b m index value).1 ≡ in_range b index
set-in_range b m index value = rw (set-stored b m index value) (ground arith)

-- Only the byte of the index is written.
pub set_outside :
    (b : Bitmap) (m : Mem) (index : ℕ) (value : Bool) (x : ℕ)
    → x ≢ b.buffer + index / 8
    → (set b m index value).0 x ≡ m x
unfolding store8
set_outside b m index value x ne = rw (set-stored b m index value) (ground arith)

pub set-IsBytes :
    (b : Bitmap) (m : Mem) (index : ℕ) (value : Bool) → IsBytes m → IsBytes (set b m index value).0
unfolding store8 stored
set-IsBytes b m index value h x =
    let byte = m (b.buffer + index / 8) in
    let mask = bit_not 8 (2 ^ place index) in
    let low = bit_and-lt 8 byte mask (h (b.buffer + index / 8)) in
    let bit = pow_below_byte (place index) (omega arith) in
    rw (set-stored b m index value)
      (ground (arith, h x, low, bit_or-lt 8 (bit_and byte mask) (2 ^ place index) low bit))

-- A map of cleared bytes has no bit set.
pub get_cleared :
    (b : Bitmap) (m : Mem) (index : ℕ) → m (b.buffer + index / 8) ≡ 0 → get b m index ≡ false
get_cleared b m index h = rw (get-digit b m index) (ground (arith, digit-zero (place index)))

-- A read looks at one byte.
pub get_same :
    (b : Bitmap) (m m' : Mem) (index : ℕ)
    → (index ≤ u64 (b.size * 8) → m' (b.buffer + index / 8) ≡ m (b.buffer + index / 8))
    → get b m' index ≡ get b m index
unfolding get
get_same b m m' index h = ground (arith, h)
