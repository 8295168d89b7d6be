-- ===== src/Timer/Clock/Sleep.antt =====
-- A sleep ends once the timer has ticked often enough, and not before the time has come.
use mathlib.Core.Option
use eta_os.Timer.Clock.{
  Clock, tick_length, tick, end_master, pit_int_handler, Interrupt, timer, other, resume_with,
  take_interrupts, Sleeper, woke, sleep_until, sleepd, sleep,
}
use eta_os.Doubles.{Floats}
use eta_os.Base.{
  ℕ, zero, suc, ◌+◌, ◌<◌, ◌≡◌, refl, sym, ap, ◌∙◌, inl, inr, true, false, some, List, [], ◌∷◌,
  arith, Bool-cases,
}
use eta_os.Timer.{get_freq}

-- The timer's interrupts in a round, and in several.
abbrev pub ticks_in : List Interrupt → ℕ
ticks_in [] = 0
ticks_in (timer ∷ rest) = suc (ticks_in rest)
ticks_in (other ∷ rest) = ticks_in rest

abbrev pub ticks : List (List Interrupt) → ℕ
ticks [] = 0
ticks (round ∷ rounds) = ticks_in round + ticks rounds

-- The time after `n` ticks.
abbrev pub after_ticks : (f : Floats) → ℕ → ℕ → f.Double → f.Double
after_ticks f freq zero t = t
after_ticks f freq (suc n) t = after_ticks f freq n (f.add t (tick_length f freq))

-- The ticks in the first `n` rounds, and the rounds behind them.
abbrev pub ticks_before : ℕ → List (List Interrupt) → ℕ
ticks_before zero rounds = 0
ticks_before (suc n) [] = 0
ticks_before (suc n) (round ∷ rounds) = ticks_in round + ticks_before n rounds

abbrev pub rounds_after : ℕ → List (List Interrupt) → List (List Interrupt)
rounds_after zero rounds = rounds
rounds_after (suc n) [] = []
rounds_after (suc n) (round ∷ rounds) = rounds_after n rounds

zero_plus : (b : ℕ) → 0 + b ≡ b
zero_plus b = omega arith

suc_plus : (a b : ℕ) → suc a + b ≡ suc (a + b)
suc_plus a b = omega arith

module _ (f : Floats) (freq : ℕ) where
  after_ticks_add :
      (a b : ℕ) (t : f.Double)
      → after_ticks f freq (a + b) t ≡ after_ticks f freq b (after_ticks f freq a t)
  after_ticks_add zero b t = ap (λ n. after_ticks f freq n t) (zero_plus b)
  after_ticks_add (suc a) b t =
      ap (λ n. after_ticks f freq n t) (suc_plus a b)
      ∙ after_ticks_add a b (f.add t (tick_length f freq))

  end_master-get_freq : (c : Clock f) → get_freq (end_master f c).pit ≡ get_freq c.pit
  unfolding get_freq
  end_master-get_freq c = refl

  timer_step :
      (rest : List Interrupt) (c : Clock f)
      → get_freq c.pit ≡ some freq
      → let c₀ : Clock f = record c {
        time_since_boot = f.add c.time_since_boot (tick_length f freq);
      } in
        take_interrupts f (timer ∷ rest) c ≡ take_interrupts f rest (end_master f c₀)
  unfolding take_interrupts pit_int_handler tick
  timer_step rest c runs =
      let ticked : ℕ → Clock f =
        λ n. record c { time_since_boot = f.add c.time_since_boot (tick_length f n) } in
      ap
        (λ o.
          resume_with (Option.map (end_master f) (Option.map ticked o)) (take_interrupts f rest))
        runs

  -- Interrupts move the clock by their ticks.
  record Ticked (c : Clock f) (n : ℕ) (c' : Clock f) : Type 0 where
    time : c'.time_since_boot ≡ after_ticks f freq n c.time_since_boot
    still : get_freq c'.pit ≡ some freq

  take_interrupts-Ticked :
      (round : List Interrupt) (c : Clock f)
      → get_freq c.pit ≡ some freq
      → (c' : Clock f) × (take_interrupts f round c ≡ some c') × Ticked c (ticks_in round) c'
  unfolding take_interrupts
  take_interrupts-Ticked [] c runs = (c, refl, record { time = refl; still = runs })
  take_interrupts-Ticked (other ∷ rest) c runs = take_interrupts-Ticked rest c runs
  take_interrupts-Ticked (timer ∷ rest) c runs =
      let c₀ : Clock f = record c {
        time_since_boot = f.add c.time_since_boot (tick_length f freq);
      } in
      let (c', moved, ticked) =
        take_interrupts-Ticked rest (end_master f c₀) (end_master-get_freq c₀ ∙ runs) in
      (c', timer_step rest c runs ∙ moved, record { time = ticked.time; still = ticked.still })

  after_ticks-Ticked :
      (c c₁ : Clock f) (a b : ℕ)
      → Ticked c a c₁
      → after_ticks f freq b c₁.time_since_boot ≡ after_ticks f freq (a + b) c.time_since_boot
  after_ticks-Ticked c c₁ a b ticked =
      ap (after_ticks f freq b) ticked.time ∙ sym (after_ticks_add a b c.time_since_boot)

  -- The loop ends after the first `rounds_made` rounds, the first after which the time has come.
  pub record Awake (c : Clock f) (rounds : List (List Interrupt)) (end : f.Double)
      (result : Sleeper f) : Type 0 where
    pub rounds_made : ℕ
    pub clock : Clock f
    pub result_is : result ≡ woke clock (rounds_after rounds_made rounds)
    pub time :
        clock.time_since_boot
        ≡ after_ticks f freq (ticks_before rounds_made rounds) c.time_since_boot
    pub not_early : f.less clock.time_since_boot end ≡ false
    pub not_late :
        (n : ℕ)
        → n < rounds_made
        → f.less (after_ticks f freq (ticks_before n rounds) c.time_since_boot) end ≡ true

  late :
      (c c₁ : Clock f) (round : List Interrupt) (rounds : List (List Interrupt)) (end : f.Double)
      (made : ℕ)
      → f.less c.time_since_boot end ≡ true
      → Ticked c (ticks_in round) c₁
      → ((n : ℕ)
          → n < made
          → f.less (after_ticks f freq (ticks_before n rounds) c₁.time_since_boot) end ≡ true)
      → (n : ℕ) → n < suc made
      → f.less (after_ticks f freq (ticks_before n (round ∷ rounds)) c.time_since_boot) end ≡ true
  late c c₁ round rounds end made before ticked h zero l = before
  late c c₁ round rounds end made before ticked h (suc n) l =
      ap (λ t. f.less t end)
        (sym (after_ticks-Ticked c c₁ (ticks_in round) (ticks_before n rounds) ticked))
      ∙ h n (omega arith)

  sleep_until-Awake :
      (rounds : List (List Interrupt)) (end : f.Double) (c : Clock f)
      → get_freq c.pit ≡ some freq
      → f.less (after_ticks f freq (ticks rounds) c.time_since_boot) end ≡ false
      → Awake c rounds end (sleep_until f rounds end c)
  unfolding sleep_until
  sleep_until-Awake [] end c runs comes = rw comes (record {
    rounds_made = 0;
    clock = c;
    result_is = refl;
    time = refl;
    not_early = comes;
    not_late = λ n l. absurd (omega arith);
  })
  sleep_until-Awake (round ∷ rounds) end c runs comes =
      elim (Bool-cases (f.less c.time_since_boot end)) [
        | inl before ↦
            let (c₁, moved, ticked) = take_interrupts-Ticked round c runs in
            let later = sleep_until-Awake rounds end c₁ ticked.still (
              ap (λ t. f.less t end)
                (after_ticks-Ticked c c₁ (ticks_in round) (ticks rounds) ticked)
              ∙ comes) in
            rw (before, moved)
              (record {
                rounds_made = suc later.rounds_made;
                clock = later.clock;
                result_is = later.result_is;
                time =
                    later.time
                    ∙ after_ticks-Ticked c c₁ (ticks_in round)
                        (ticks_before later.rounds_made rounds) ticked;
                not_early = later.not_early;
                not_late =
                    late c c₁ round rounds end later.rounds_made before ticked later.not_late;
              })
        | inr come ↦ rw come (record {
          rounds_made = 0;
          clock = c;
          result_is = refl;
          time = refl;
          not_early = come;
          not_late = λ n l. absurd (omega arith);
        })
      ]

-- When a sleep from now on is over.
abbrev pub sleep_end : (f : Floats) → ℕ → Clock f → f.Double
sleep_end f ms c = f.add c.time_since_boot (f.divide (f.of_uint ms) (f.of_uint 1000))

-- If the ticks in the rounds of interrupts that come bring the clock to the end of the sleep,
-- sleep returns: after the first round with which the clock has reached the end, with the clock
-- moved by exactly the ticks of the rounds until then.
pub sleep-Awake :
    (f : Floats) (freq : ℕ) (rounds : List (List Interrupt)) (ms : ℕ) (c : Clock f)
    → get_freq c.pit ≡ some freq
    → f.less (after_ticks f freq (ticks rounds) c.time_since_boot) (sleep_end f ms c) ≡ false
    → Awake f freq c rounds (sleep_end f ms c) (sleep f rounds ms c)
unfolding sleep sleepd
sleep-Awake f freq rounds ms c runs comes =
    sleep_until-Awake f freq rounds (sleep_end f ms c) c runs comes
