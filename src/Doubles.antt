-- ===== src/Doubles.antt =====
-- Floating point numbers: what the code uses of the C type `double`, an argument of the functions
-- that compute with it. An int of 32 bits and an int64_t are numbers in two's complement.
use eta_os.Base.{ℕ, Bool}

pub record Floats : Type 1 where
  pub Double : Type 0
  pub add : Double → Double → Double
  pub subtract : Double → Double → Double
  pub multiply : Double → Double → Double
  pub divide : Double → Double → Double
  pub less : Double → Double → Bool
  pub of_uint : ℕ → Double
  pub of_int : ℕ → Double
  pub to_int : Double → ℕ
  pub to_int64 : Double → ℕ
