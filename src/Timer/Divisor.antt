-- ===== src/Timer/Divisor.antt =====
-- What the timer is told, and what frequency is reported.
use eta_os.Base.{
  ℕ, ◌/◌, ◌%◌, max, bit_and, ◌≡◌, refl, ◌≢◌, some, [], ◌∷◌, ◌++◌, arith, ltb, if◌then◌else◌, u8,
  u16,
}
use eta_os.Timer.{Pit, base_freq, outb, io_wait, set_divisor, get_freq, set_freq}
use eta_os.Bits.Shift.{bit_and-ones}

-- A byte shifted by 8 is zero.
shifted_byte : (x : ℕ) → u8 x / 256 ≡ 0
shifted_byte x = omega arith

set_byte : (n : ℕ) → u8 (bit_and n 0x00ff) ≡ n % 256
set_byte n = let low : bit_and n 0x00ff ≡ n % 256 = bit_and-ones 8 n in omega arith

at_least : (d : ℕ) → (if ltb d 100 then 100 else d) ≡ max d 100
at_least d = ground arith

-- For every divisor the timer gets the low byte of the divisor, or of 100 where that is larger,
-- and then zero as the high byte, whatever the high byte of the divisor is.
pub set_divisor-written :
    (p : Pit) (divisor : ℕ)
    → (set_divisor p divisor).written
      ≡ ((p.written ++ (record { port = 0x40; value = max divisor 100 % 256 } ∷ []))
          ++ (record { port = 0x80; value = 0 } ∷ []))
        ++ (record { port = 0x40; value = 0 } ∷ [])
unfolding set_divisor outb io_wait
set_divisor-written p divisor =
    let low : u8 (bit_and (if ltb divisor 100 then 100 else divisor) 0x00ff)
        ≡ max divisor 100 % 256 =
      rw (at_least divisor) (set_byte (max divisor 100)) in
    rw (low, shifted_byte (bit_and (if ltb divisor 100 then 100 else divisor) 0xff00)) refl

-- Where set_freq returns, as it does for each frequency but zero, get_freq reports what it
-- reported before.
pub get_freq-set_freq :
    (p : Pit) (freq : ℕ)
    → freq ≢ 0
    → (p' : Pit) × (set_freq p freq ≡ some p') × (get_freq p' ≡ get_freq p)
unfolding set_freq set_divisor outb io_wait get_freq
get_freq-set_freq p freq ne = (set_divisor p (u16 (base_freq / freq)), ground arith, refl)
