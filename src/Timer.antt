-- ===== src/Timer.antt =====
-- The interval timer: kernel/src/scheduling/pit/pit.h and pit.cpp, with the port writes of
-- kernel/src/io.cpp as a list. The time since boot is a floating point number and is left out.
pub mod Divisor
pub mod Clock
use eta_os.Base.{
  ℕ, ◌/◌, bit_and, Option, none, some, List, [], ◌∷◌, ◌++◌, ltb, ◌==◌, if◌then◌else◌, u8, u16,
  ◌>>>◌,
}

-- `outb(port, value)`
pub record PortWrite : Type 0 where
  pub port : ℕ
  pub value : ℕ

-- The divisor of the file, and the port writes in the order in which they were made.
pub record Pit : Type 0 where
  pub divisor : ℕ
  pub written : List PortWrite

abbrev pub base_freq : ℕ
base_freq = 1193182

unfoldable pub outb : Pit → ℕ → ℕ → Pit
outb p port value = record p { written = p.written ++ (record { port = port; value = value } ∷ []) }

unfoldable pub io_wait : Pit → Pit
unfolding outb
io_wait p = outb p 0x80 0

-- `divisor = divisor` assigns the parameter to itself: the parameter hides the divisor of the file.
-- The cast to a byte comes before the shift by 8.
unfoldable pub set_divisor : Pit → ℕ → Pit
unfolding outb io_wait
set_divisor p divisor =
    let at_least = if ltb divisor 100 then 100 else divisor in
    let low = outb p 0x40 (u8 (bit_and at_least 0x00ff)) in
    outb (io_wait low) 0x40 (u8 (bit_and at_least 0xff00) >>> 8)

-- A division by zero is `none`.
unfoldable pub get_freq : Pit → Option ℕ
get_freq p = if p.divisor == 0 then none else some (base_freq / p.divisor)

unfoldable pub set_freq : Pit → ℕ → Option Pit
unfolding set_divisor
set_freq p freq = if freq == 0 then none else some (set_divisor p (u16 (base_freq / freq)))
