-- ===== src/Timer/Matching.antt =====
-- The compare match itself, on every branch.
use embedded_firmware_simula.Prelude.{
  ◌≡◌, true, false, ◌&&◌, if◌then◌else◌, leb, ok, throws, out_of_range, ◌>>◌, arith,
}
use embedded_firmware_simula.Prelude.Bits.{test_bit-set_bit, test_bit-clear_bit}
use embedded_firmware_simula.Interrupts.{trigger}
use embedded_firmware_simula.Timer.{
  World, counter, compare, running, has_match, stop, cancel_scheduled_event, handle_compare_match,
}

module _ {T H : Type 0} where
  -- At a match a running timer stops at its compare value with the match bit set, and triggers its
  -- interrupt if it is attached to an interrupt controller, whatever its interrupt-enable and
  -- auto-reset bits are; one that does not run keeps its counter and its match bit, and triggers
  -- nothing. It throws exactly if the timer runs and is attached to an interrupt controller at an
  -- id from 32 on, and then the timer has stopped all the same, and nothing is triggered.
  pub handle_compare_match_lem :
      (w : World T H)
      → let (w', outcome) = handle_compare_match w in
        (running w'.timer ≡ false)
        × (counter w'.timer ≡ (if running w.timer then compare w.timer else counter w.timer))
        × (has_match w'.timer ≡ (if running w.timer then true else has_match w.timer))
        × (outcome ≡ (
            if running w.timer && w.timer.interrupt_controller && leb 32 w.timer.interrupt_id
            then throws out_of_range
            else ok tt))
        × ((if running w.timer && w.timer.interrupt_controller
              then trigger w.interrupts w.timer.interrupt_id
              else ok w.interrupts)
            ≡ (outcome >> ok w'.interrupts))
  unfolding handle_compare_match stop cancel_scheduled_event running counter compare has_match
      trigger
  handle_compare_match_lem w = ground (
    arith,
    test_bit-set_bit w.timer.status_register.value 0 0,
    test_bit-clear_bit w.timer.ctrl_register.value 0 0,
  )
