-- ===== src/Timer/Counting.antt =====
-- A timer that counts: what ticks do when no clock and no event scheduler is attached.
use native.Mathlib.Numerals.{add-one}
use embedded_firmware_simula.Prelude.{
  ℕ, zero, suc, ◌+◌, ◌<◌, ◌≡◌, ◌^◌, refl, ◌∙◌, true, false, ok, if◌then◌else◌, arith,
}
use embedded_firmware_simula.Prelude.Bits.{test_bit-set_bit, test_bit-clear_bit}
use embedded_firmware_simula.Interrupts.{trigger}
use embedded_firmware_simula.Timer.{
  World, tick, counter, compare, running, has_match, stop, cancel_scheduled_event,
  handle_compare_match,
}

module _ {T H : Type 0} where
  unfoldable pub ticks : ℕ → World T H → World T H
  unfolding tick
  ticks zero w = w
  ticks (suc n) w = ticks n (tick w).0

  -- Nothing else is attached.
  abbrev pub IsFree : World T H → Type 0
  IsFree w = (w.timer.clock ≡ false) × (w.timer.scheduler ≡ false)

  tick-counts :
      (w : World T H)
      → IsFree w
      → running w.timer ≡ true
      → counter w.timer + 1 < compare w.timer
      → compare w.timer < 2 ^ 32
      → IsFree (tick w).0
        × (running (tick w).0.timer ≡ true)
        × (counter (tick w).0.timer ≡ counter w.timer + 1)
        × (compare (tick w).0.timer ≡ compare w.timer)
        × (has_match (tick w).0.timer ≡ has_match w.timer)
        × ((tick w).0.interrupts ≡ w.interrupts)
        × ((tick w).0.timer.interrupt_controller ≡ w.timer.interrupt_controller)
        × ((tick w).0.timer.interrupt_id ≡ w.timer.interrupt_id)
  unfolding tick running counter compare has_match
  tick-counts w free on below small = ground arith

  -- As long as it is below the compare value, the counter goes up by one at every tick, the timer
  -- goes on running, and there is no match and no interrupt.
  ticks-count :
      (n : ℕ) (w : World T H)
      → IsFree w
      → running w.timer ≡ true
      → counter w.timer + n < compare w.timer
      → compare w.timer < 2 ^ 32
      → IsFree (ticks n w)
        × (running (ticks n w).timer ≡ true)
        × (counter (ticks n w).timer ≡ counter w.timer + n)
        × (compare (ticks n w).timer ≡ compare w.timer)
        × (has_match (ticks n w).timer ≡ has_match w.timer)
        × ((ticks n w).interrupts ≡ w.interrupts)
        × ((ticks n w).timer.interrupt_controller ≡ w.timer.interrupt_controller)
        × ((ticks n w).timer.interrupt_id ≡ w.timer.interrupt_id)
  unfolding ticks
  ticks-count zero w free on below small = (free, on, ground arith, refl, refl, refl, refl, refl)
  ticks-count (suc n) w free on below small =
      let (f, r, c, k, m, i, a, d) = tick-counts w free on (ground arith) small in
      let rest = ticks-count n (tick w).0 f r (ground arith) (ground arith) in ground (arith, rest)

  tick-matches :
      (w : World T H)
      → IsFree w
      → running w.timer ≡ true
      → counter w.timer + 1 ≡ compare w.timer
      → compare w.timer < 2 ^ 32
      → w.timer.interrupt_id < 32
      → (running (tick w).0.timer ≡ false)
        × (counter (tick w).0.timer ≡ compare w.timer)
        × (has_match (tick w).0.timer ≡ true)
        × ((if w.timer.interrupt_controller
              then trigger w.interrupts w.timer.interrupt_id
              else ok w.interrupts)
            ≡ ok (tick w).0.interrupts)
  unfolding trigger tick running counter compare has_match handle_compare_match stop
      cancel_scheduled_event
  tick-matches w free on at small valid = ground (
    arith,
    test_bit-set_bit w.timer.status_register.value 0 0,
    test_bit-clear_bit w.timer.ctrl_register.value 0 0,
  )

  ticks-suc : (n : ℕ) (w : World T H) → ticks (suc n) w ≡ (tick (ticks n w)).0
  unfolding ticks
  ticks-suc zero w = refl
  ticks-suc (suc n) w = ticks-suc n (tick w).0

  -- A timer with a valid interrupt id that runs with n + 1 below its compare value, which is below
  -- 2 ^ 32, with no clock and no event scheduler attached, does its match at the tick n + 1 and
  -- not before. Up to then it runs, the match bit is as it was and nothing is triggered; then it
  -- is stopped at the compare value, with the match bit set and its interrupt triggered if an
  -- interrupt controller is attached, whether the timer's interrupt-enable bit is set or not.
  pub ticks-match :
      (n : ℕ) (w : World T H)
      → IsFree w
      → running w.timer ≡ true
      → counter w.timer + (n + 1) ≡ compare w.timer
      → compare w.timer < 2 ^ 32
      → w.timer.interrupt_id < 32
      → (running (ticks n w).timer ≡ true)
        × (has_match (ticks n w).timer ≡ has_match w.timer)
        × ((ticks n w).interrupts ≡ w.interrupts)
        × (running (ticks (n + 1) w).timer ≡ false)
        × (counter (ticks (n + 1) w).timer ≡ compare w.timer)
        × (has_match (ticks (n + 1) w).timer ≡ true)
        × ((if w.timer.interrupt_controller
              then trigger w.interrupts w.timer.interrupt_id
              else ok w.interrupts)
            ≡ ok (ticks (n + 1) w).interrupts)
  ticks-match n w free on at small valid =
      let (f, r, c, k, m, i, a, d) = ticks-count n w free on (ground arith) small in
      let last =
        tick-matches (ticks n w) f r (rw (c, k) (ground arith)) (rw k small) (rw d valid) in
      rw (add-one n, ticks-suc n w)
        (r, m, i, last.0, last.1 ∙ k, last.2, ground (arith, last.3, i, a, d))
