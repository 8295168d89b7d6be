-- ===== src/Timer/Clock.antt =====
-- The time since boot: `sleepd`, `sleep` and `tick` of kernel/src/scheduling/pit/pit.cpp, and
-- `pit_int_handler` of kernel/src/interrupts/interrupts.cpp.
pub mod Sleep
use mathlib.Core.Option
use eta_os.Doubles.{Floats}
use eta_os.Base.{ℕ, Option, none, some, List, [], ◌∷◌, ◌++◌, if◌then◌else◌}
use eta_os.Timer.{Pit, get_freq}
use eta_os.Interrupts.Pic.{pic_end_master}

pub record Clock (f : Floats) : Type 0 where
  pub pit : Pit
  pub time_since_boot : f.Double

-- What one tick adds, if the frequency is not zero.
abbrev pub tick_length : (f : Floats) → ℕ → f.Double
tick_length f freq = f.divide (f.of_uint 1) (f.of_uint freq)

-- A division by zero is `none`.
unfoldable pub tick : (f : Floats) → Clock f → Option (Clock f)
tick f c =
    Option.map (λ freq. record c { time_since_boot = f.add c.time_since_boot (tick_length f freq) })
      (get_freq c.pit)

-- `pic_end_master` of a clock.
abbrev pub end_master : (f : Floats) → Clock f → Clock f
end_master f c = record c { pit = record c.pit { written = c.pit.written ++ pic_end_master } }

unfoldable pub pit_int_handler : (f : Floats) → Clock f → Option (Clock f)
unfolding tick
pit_int_handler f c = Option.map (end_master f) (tick f c)

-- An interrupt is the timer's, or another that leaves the clock alone.
pub data Interrupt : Type 0 where
  timer : Interrupt
  other : Interrupt

-- What follows, unless there was a division by zero.
abbrev pub resume_with : {A : Type 0} → Option A → (A → Option A) → Option A
resume_with none next = none
resume_with (some c) next = next c

unfoldable pub take_interrupts : (f : Floats) → List Interrupt → Clock f → Option (Clock f)
unfolding pit_int_handler
take_interrupts f [] c = some c
take_interrupts f (other ∷ rest) c = take_interrupts f rest c
take_interrupts f (timer ∷ rest) c = resume_with (pit_int_handler f c) (take_interrupts f rest)

-- How a loop of `sleepd` stands: it has ended, with the rounds of interrupts that are still to
-- come; it waits for more; or a handler has divided by zero.
pub data Sleeper (f : Floats) : Type 0 where
  woke : Clock f → List (List Interrupt) → Sleeper f
  waits : Clock f → Sleeper f
  divided : Sleeper f

abbrev pub resume : (f : Floats) → Option (Clock f) → (Clock f → Sleeper f) → Sleeper f
resume f none loop = divided
resume f (some c) loop = loop c

-- The loop of `sleepd`, with the interrupts from each test of its condition to the next.
unfoldable pub sleep_until : (f : Floats) → List (List Interrupt) → f.Double → Clock f → Sleeper f
unfolding take_interrupts
sleep_until f [] end c = if f.less c.time_since_boot end then waits c else woke c []
sleep_until f (round ∷ rounds) end c =
    let rest = resume f (take_interrupts f round c) (sleep_until f rounds end) in
    if f.less c.time_since_boot end then rest else woke c (round ∷ rounds)

unfoldable pub sleepd : (f : Floats) → List (List Interrupt) → f.Double → Clock f → Sleeper f
unfolding sleep_until
sleepd f rounds seconds c =
    let start_time = c.time_since_boot in sleep_until f rounds (f.add start_time seconds) c

unfoldable pub sleep : (f : Floats) → List (List Interrupt) → ℕ → Clock f → Sleeper f
unfolding sleepd
sleep f rounds ms c = sleepd f rounds (f.divide (f.of_uint ms) (f.of_uint 1000)) c
