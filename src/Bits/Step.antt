-- ===== src/Bits/Step.antt =====
-- One equation for the lowest digit of `&` and `|`: the fuel of their definition is gone.
use Prim.Native.Nat.{digits, bitwise, bit_and-bitwise, bit_or-bitwise}
use eta_os.Base.{ℕ, zero, suc, ◌+◌, ◌*◌, ◌/◌, ◌%◌, ◌≤◌, min, max, bit_and, bit_or, ◌≡◌, refl, arith}

-- Any two amounts of fuel that reach the number's last digit give one result.
module _ (zf : ℕ → ℕ) (op : ℕ → ℕ → ℕ) where
  enough_fuel : (n m x y : ℕ) → x ≤ n → x ≤ m → digits zf op n x y ≡ digits zf op m x y
  enough_fuel zero zero x y p q = refl
  enough_fuel zero (suc m) zero y p q = refl
  enough_fuel zero (suc m) (suc x) y p q = absurd (omega arith)
  enough_fuel (suc n) zero zero y p q = refl
  enough_fuel (suc n) zero (suc x) y p q = absurd (omega arith)
  enough_fuel (suc n) (suc m) zero y p q = refl
  enough_fuel (suc n) (suc m) (suc x) y p q =
      rw (enough_fuel n m (suc x / 2) (y / 2) (omega arith) (omega arith))

  lowest_digit :
      (x y : ℕ)
      → bitwise zf op (suc x) y ≡ bitwise zf op (suc x / 2) (y / 2) * 2 + op (suc x % 2) (y % 2)
  lowest_digit x y =
      omega (arith, enough_fuel x (suc x / 2) (suc x / 2) (y / 2) (omega arith) (omega arith))

pub and_digit : (x y : ℕ) → bit_and x y ≡ bit_and (x / 2) (y / 2) * 2 + min (x % 2) (y % 2)
and_digit zero y = simp bit_and-bitwise (omega arith)
and_digit (suc x) y = simp bit_and-bitwise (lowest_digit (λ b. 0) min x y)

pub or_digit : (x y : ℕ) → bit_or x y ≡ bit_or (x / 2) (y / 2) * 2 + max (x % 2) (y % 2)
or_digit zero y = simp bit_or-bitwise (omega arith)
or_digit (suc x) y = simp bit_or-bitwise (lowest_digit (λ b. b) max x y)
