-- ===== src/Tests/ClockTest.antt =====
-- The clock with numbers of millionths in place of floating point numbers.
use eta_os.Base.{ℕ, ◌+◌, ◌-◌, ◌*◌, ◌/◌, refl, List, [], ◌∷◌, ltb}
use eta_os.Doubles.{Floats}
use eta_os.Timer.Clock.{Clock, Interrupt, timer, other, sleep}
use eta_os.Timer.Clock.Sleep.{Awake, sleep_end, sleep-Awake}
use eta_os.Timer.{get_freq}

abbrev pub millionths : Floats
millionths = record {
  Double = ℕ;
  add = λ x y. x + y;
  subtract = λ x y. x - y;
  multiply = λ x y. x * y / 1000000;
  divide = λ x y. x * 1000000 / y;
  less = ltb;
  of_uint = λ n. n * 1000000;
  of_int = λ n. n * 1000000;
  to_int = λ x. x / 1000000;
  to_int64 = λ x. x / 1000000;
}

abbrev at_boot : Clock millionths
at_boot = record { pit = record { divisor = 65535; written = [] }; time_since_boot = 0 }

-- Two ticks, and a key between them, are enough for 100 ms; the third round stays.
abbrev interrupts : List (List Interrupt)
interrupts = (timer ∷ []) ∷ (other ∷ timer ∷ []) ∷ (timer ∷ []) ∷ []

sleep-Awake_example :
    Awake millionths 18 at_boot interrupts
      (sleep_end millionths 100 at_boot)
      (sleep millionths interrupts 100 at_boot)
unfolding get_freq
sleep-Awake_example = sleep-Awake millionths 18 interrupts 100 at_boot refl refl
