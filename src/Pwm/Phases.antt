-- ===== src/Pwm/Phases.antt =====
-- What a tick does to a controller whose timer is attached to no clock and no event scheduler
-- (src/drivers/pwm/pwm_controller.cpp).
use embedded_firmware_simula.Prelude.{
  refl, ◌∙◌, ap, ℕ, ◌+◌, ◌^◌, ◌<◌, ◌≤◌, ◌≡◌, Bool, true, false, ok, arith,
}
use embedded_firmware_simula.Prelude.Bits.{set_bit, test_bit-set_bit}
use embedded_firmware_simula.Timer.{
  World, running, counter, compare, start, stop, cancel_scheduled_event, update_scheduled_event,
  handle_compare_match,
}
use embedded_firmware_simula.Timer
use embedded_firmware_simula.Timer.Counting.{IsFree}
use embedded_firmware_simula.Timer.Matching.{handle_compare_match_lem}

module _ {T H : Type 0} where
  -- The timer counts on its own, runs or not as said, and stands at `n`; its compare value is the
  -- period, and its interrupt id is valid.
  pub record Stands (w : World T H) (goes : Bool) (n period : ℕ) : Type 0 where
    pub free : IsFree w
    pub goes_as_said : running w.timer ≡ goes
    pub counted : counter w.timer ≡ n
    pub compared : compare w.timer ≡ period
    pub valid : w.timer.interrupt_id < 32

  pub start-Stands :
      (m : T) (w : World T H) (goes : Bool) (n period : ℕ)
      → Stands w goes n period
      → Stands (start m w) true n period
  unfolding start update_scheduled_event cancel_scheduled_event running counter compare
  start-Stands m w goes n period s = record {
    free = ground (arith, s.free);
    goes_as_said = ground (arith, s.free, test_bit-set_bit w.timer.ctrl_register.value 0 0);
    counted = ground (arith, s.free, s.counted);
    compared = ground (arith, s.free, s.compared);
    valid = ground (arith, s.free, s.valid);
  }

  -- A tick below the compare value counts.
  pub tick-Stands :
      (w : World T H) (n period : ℕ)
      → Stands w true n period
      → n + 1 < period
      → period < 2 ^ 32
      → Stands (Timer.tick w).0 true (n + 1) period × ((Timer.tick w).1 ≡ ok tt)
  unfolding Timer.tick running counter compare
  tick-Stands w n period s l small = (
    record {
      free = ground (arith, s.free, s.counted, s.compared, s.goes_as_said);
      goes_as_said = ground (arith, s.free, s.counted, s.compared, s.goes_as_said);
      counted = ground (arith, s.free, s.counted, s.compared, s.goes_as_said);
      compared = ground (arith, s.free, s.counted, s.compared, s.goes_as_said);
      valid = ground (arith, s.free, s.counted, s.compared, s.goes_as_said, s.valid);
    },
    ground (arith, s.free, s.counted, s.compared, s.goes_as_said),
  )

  -- The timer as a tick counts it.
  abbrev counted : World T H → ℕ → World T H
  counted w n = record w {
    timer = record w.timer { count_register = record w.timer.count_register { value = n + 1 } };
  }

  -- A tick that reaches the compare value, or goes past it, is a compare match.
  tick-match :
      (w : World T H) (n period : ℕ)
      → Stands w true n period
      → period ≤ n + 1
      → n + 1 < 2 ^ 32
      → Timer.tick w ≡ handle_compare_match (counted w n)
  unfolding Timer.tick running counter compare
  tick-match w n period s l small = ground (arith, s.free, s.counted, s.compared, s.goes_as_said)

  -- What a compare match leaves as it was.
  stop-keeps :
      (w : World T H)
      → ((stop w).timer.clock ≡ w.timer.clock)
        × ((stop w).timer.scheduler ≡ w.timer.scheduler)
        × (compare (stop w).timer ≡ compare w.timer)
        × ((stop w).timer.interrupt_id ≡ w.timer.interrupt_id)
  unfolding stop cancel_scheduled_event compare
  stop-keeps w = ground arith

  -- The timer that a match stops.
  abbrev matched : World T H → World T H
  matched w = record w {
    timer = record w.timer {
      count_register = record w.timer.count_register { value = compare w.timer };
      status_register = record w.timer.status_register {
        value = set_bit w.timer.status_register.value 0;
      };
    };
  }

  match-timer :
      (w : World T H)
      → running w.timer ≡ true
      → (handle_compare_match w).0.timer ≡ (stop (matched w)).timer
  unfolding handle_compare_match
  match-timer w on = ground (arith, on)

  counted_lem :
      (w : World T H) (n : ℕ)
      → (running (counted w n).timer ≡ running w.timer)
        × (compare (counted w n).timer ≡ compare w.timer)
        × (compare (matched (counted w n)).timer ≡ compare w.timer)
  unfolding running compare
  counted_lem w n = (refl, refl, refl)

  -- Such a tick stops the timer at the compare value.
  pub match-Stands :
      (w : World T H) (n period : ℕ)
      → Stands w true n period
      → period ≤ n + 1
      → n + 1 < 2 ^ 32
      → Stands (Timer.tick w).0 false period period × ((Timer.tick w).1 ≡ ok tt)
  match-Stands w n period s l small =
      let (r, c, m, o, i) = handle_compare_match_lem (counted w n) in
      let (going, limit, later) = counted_lem w n in
      let on = going ∙ s.goes_as_said in
      let t = match-timer (counted w n) on in
      let (k1, k2, k3, k4) = stop-keeps (matched (counted w n)) in
      rw (tick-match w n period s l small) (
        record {
          free = (ap (λ t. t.clock) t ∙ k1 ∙ s.free.0, ap (λ t. t.scheduler) t ∙ k2 ∙ s.free.1);
          goes_as_said = r;
          counted = c ∙ rw on (limit ∙ s.compared);
          compared = ap compare t ∙ k3 ∙ later ∙ s.compared;
          valid = rw (ap (λ t. t.interrupt_id) t ∙ k4) (s.valid);
        },
        o ∙ rw on (ground (arith, s.valid)),
      )
