-- ===== src/Pwm/Output.antt =====
-- The output over any number of ticks (src/drivers/pwm/pwm_controller.cpp).
use native.Mathlib.Nat.{
  mod-eq_of_lt, mod_self, add-zero, zero-add, mul-le-mul_left, div-lt_iff_lt-mul,
}
use embedded_firmware_simula.Prelude.{
  ℕ, zero, suc, ◌+◌, ◌%◌, ◌^◌, ◌<◌, ◌≡◌, refl, ◌∙◌, ap, sym, ◌≤◌, Bool, true, false, Outcome, ok,
  and_then, and_then-ok, ltb, ◌*◌, ◌/◌, if◌then◌else◌, arith, Bool-cases, inl, inr,
}
use embedded_firmware_simula.Timer.{World, running, counter, start}
use embedded_firmware_simula.Timer
use embedded_firmware_simula.Pwm.{
  Pwm, PwmWorld, enabled, duty_cycle, output_state, tick, refresh, update_status_register,
  with_period,
}
use embedded_firmware_simula.Pwm.Phases.{Stands, start-Stands, tick-Stands, match-Stands}

-- Where the timer stands after `n` ticks that begin at 0.
abbrev place : ℕ → ℕ → ℕ
place n period = if ltb n period then n else period

place_mod : (n period : ℕ) → 0 < period → place n period % period ≡ (if ltb n period then n else 0)
place_mod n period l = elim (Bool-cases (ltb n period)) [
  | inl e ↦ rw e (mod-eq_of_lt (ground (arith, e)))
  | inr e ↦ rw e (mod_self period)
]

first : (period : ℕ) → 0 < period → ltb 0 period ≡ true
first period l = ground arith

period-pos : (p : Pwm) → with_period p ≡ p → 0 < p.period_ticks
unfolding with_period
period-pos p e = ground (arith, ap (λ q. q.period_ticks) e)

-- The on-ticks of a duty cycle are not cut to 32 bits.
on-small :
    (period duty : ℕ)
    → period + 1 < 2 ^ 32
    → duty < 100
    → (period * duty) / 100 % 2 ^ 32 ≡ (period * duty) / 100
on-small period duty small hi =
    let most : period * duty ≤ period * 100 = mul-le-mul_left period (omega arith) in
    mod-eq_of_lt (
      (div-lt_iff_lt-mul {k = 100} {x = period * duty} {y = 2 ^ 32} (omega arith)).1
        (omega (arith, most)))

on-with_period :
    (p : Pwm)
    → with_period p ≡ p
    → p.period_ticks + 1 < 2 ^ 32
    → duty_cycle p < 100
    → p.on_ticks ≡ (p.period_ticks * duty_cycle p) / 100
unfolding with_period
on-with_period p e small hi =
    sym (ap (λ q. q.on_ticks) e)
    ∙ ap (λ k. (k * duty_cycle p) / 100 % 2 ^ 32) (ap (λ q. q.period_ticks) e)
    ∙ on-small p.period_ticks (duty_cycle p) small hi

module _ {T H : Type 0} (m : T) where
  -- `n` calls of `tick`, up to one that throws.
  unfoldable pub ticks : ℕ → PwmWorld T H → PwmWorld T H × Outcome (Unit {0})
  ticks zero w = (w, ok tt)
  ticks (suc n) w = let rest = ticks n in and_then rest (tick m w)

  -- An enabled controller with a duty cycle between 0 and 100 per cent, whose timer stands at `n`.
  pub record Pulses (w : PwmWorld T H) (goes : Bool) (n period on duty : ℕ) : Type 0 where
    pub is_enabled : enabled w.pwm ≡ true
    pub stands : Stands w.world goes n period
    pub period_is : w.pwm.period_ticks ≡ period
    pub on_is : w.pwm.on_ticks ≡ on
    pub duty_is : duty_cycle w.pwm ≡ duty

  -- The timer as `tick` finds it, started again if it has stopped.
  abbrev awake : PwmWorld T H → World T H
  awake w = if running w.world.timer then w.world else start m w.world

  awake-Stands :
      (w : PwmWorld T H) (goes : Bool) (n period : ℕ)
      → Stands w.world goes n period
      → Stands (awake w) true n period
  awake-Stands w true n period s = simp (s.goes_as_said) s
  awake-Stands w false n period s = simp (s.goes_as_said) (start-Stands m w.world false n period s)

  tick-ok :
      (w : PwmWorld T H)
      → enabled w.pwm ≡ true
      → (Timer.tick (awake w)).1 ≡ ok tt
      → tick m w ≡ (refresh (record { pwm = w.pwm; world = (Timer.tick (awake w)).0 }), ok tt)
  unfolding tick
  tick-ok w on o = rw (on, o) refl

  -- The status register does not matter.
  refresh-Pulses :
      (p : Pwm) (w : World T H) (goes : Bool) (n period on duty : ℕ)
      → enabled p ≡ true
      → p.period_ticks ≡ period
      → p.on_ticks ≡ on
      → duty_cycle p ≡ duty
      → Stands w goes n period
      → Pulses (refresh (record { pwm = p; world = w })) goes n period on duty
  unfolding refresh update_status_register enabled duty_cycle
  refresh-Pulses p w goes n period on duty a b c d s = record {
    is_enabled = a;
    stands = s;
    period_is = b;
    on_is = c;
    duty_is = d;
  }

  -- Where a tick leads from the place that `n` ticks have led to.
  abbrev After : PwmWorld T H → ℕ → ℕ → ℕ → ℕ → Type 0
  After w n period on duty = Pulses w (ltb n period) (place n period) period on duty

  stepped :
      (w : World T H) (n period : ℕ)
      → Stands w true (place n period) period
      → period + 1 < 2 ^ 32
      → Stands (Timer.tick w).0 (ltb (n + 1) period) (place (n + 1) period) period
        × ((Timer.tick w).1 ≡ ok tt)
  stepped w n period s small = elim (Bool-cases (ltb (n + 1) period)) [
    | inl e ↦ rw e (tick-Stands w n period (rw (below e) at s) (ground (arith, e)) (omega arith))
    | inr e ↦
        rw e (match-Stands w (place n period) period s (ground (arith, e)) (ground (arith, e)))
  ]
    where
      below : ltb (n + 1) period ≡ true → place n period ≡ n
      below e = ground (arith, e)

  tick-After :
      (w : PwmWorld T H) (n period on duty : ℕ)
      → After w n period on duty
      → period + 1 < 2 ^ 32
      → After (tick m w).0 (n + 1) period on duty × ((tick m w).1 ≡ ok tt)
  tick-After w n period on duty p small =
      let (s, o) = stepped (awake w) n period (awake-Stands w _ _ period p.stands) small in
      rw (tick-ok w p.is_enabled o) (
        refresh-Pulses w.pwm (Timer.tick (awake w)).0 _ _ period on duty p.is_enabled p.period_is
            p.on_is p.duty_is s,
        refl,
      )

  ticks-ok :
      (n : ℕ) (w : PwmWorld T H) → (tick m w).1 ≡ ok tt → ticks (suc n) w ≡ ticks n (tick m w).0
  unfolding ticks
  ticks-ok n w h = and_then-ok (ticks n) (tick m w) h

  ticks-After :
      (n k : ℕ) (w : PwmWorld T H) (period on duty : ℕ)
      → After w k period on duty
      → period + 1 < 2 ^ 32
      → After (ticks n w).0 (k + n) period on duty × ((ticks n w).1 ≡ ok tt)
  unfolding ticks
  ticks-After zero k w period on duty p small = (rw (add-zero k) p, refl)
  ticks-After (suc n) k w period on duty p small =
      let (q, o) = tick-After w k period on duty p small in
      let rest = ticks-After n (k + 1) (tick m w).0 period on duty q small in
      rw (ticks-ok n w o) (rw (shift k n) at rest)
    where
      shift : (a b : ℕ) → a + 1 + b ≡ a + suc b
      shift a b = omega arith

  output-Pulses :
      (w : PwmWorld T H) (goes : Bool) (n period on duty : ℕ)
      → Pulses w goes n period on duty
      → 0 < period
      → 0 < duty
      → duty < 100
      → output_state w.pwm w.world.timer ≡ ltb (n % period) on
  unfolding output_state
  output-Pulses w goes n period on duty p l lo hi =
      ground (arith, p.is_enabled, p.period_is, p.on_is, p.duty_is, p.stands.counted)

  -- The output over time, of an enabled controller whose period and on-ticks are those that
  -- updatePeriodAndDuty computes of its frequency and duty cycle, with a duty cycle strictly
  -- between 0 and 100 per cent and a period below 2 ^ 32 - 1. Its timer has no clock and no event
  -- scheduler and a valid interrupt id, runs and stands at 0, and has the period as its compare
  -- value. No tick throws. After n ticks of the first period the timer runs and stands at n, and
  -- the output is on just if n is below the duty cycle's part of the period, rounded down. From
  -- the end of that period on the timer stands at the period, stopped, and the output is on for
  -- ever if that part is at least one tick, and off for ever if not.
  pub ticks-output :
      (n : ℕ) (w : PwmWorld T H)
      → enabled w.pwm ≡ true
      → with_period w.pwm ≡ w.pwm
      → Stands w.world true 0 w.pwm.period_ticks
      → w.pwm.period_ticks + 1 < 2 ^ 32
      → 0 < duty_cycle w.pwm
      → duty_cycle w.pwm < 100
      → let period = w.pwm.period_ticks in
        let (w', outcome) = ticks n w in
        (outcome ≡ ok tt)
        × (counter w'.world.timer ≡ (if ltb n period then n else period))
        × (running w'.world.timer ≡ ltb n period)
        × (output_state w'.pwm w'.world.timer
            ≡ ltb (if ltb n period then n else 0) ((period * duty_cycle w.pwm) / 100))
  ticks-output n w on fixed s small lo hi =
      let period = w.pwm.period_ticks in
      let duty = duty_cycle w.pwm in
      let above = period-pos w.pwm fixed in
      let on_ticks = on-with_period w.pwm fixed small hi in
      let starts : Pulses w true 0 period ((period * duty) / 100) duty = record {
        is_enabled = on;
        stands = s;
        period_is = refl;
        on_is = on_ticks;
        duty_is = refl;
      } in
      let begins : After w 0 period ((period * duty) / 100) duty = rw (first period above) starts in
      let (q, o) =
        rw (zero-add n) at (ticks-After n 0 w period ((period * duty) / 100) duty begins small) in
      (
        o,
        q.stands.counted,
        q.stands.goes_as_said,
        output-Pulses (ticks n w).0 _ _ period ((period * duty) / 100) duty q above lo hi
            ∙ ap (λ place. ltb place ((period * duty) / 100)) (place_mod n period above),
      )
