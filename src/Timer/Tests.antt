-- ===== src/Timer/Tests.antt =====
-- Witnesses for the timer's theorems: a timer that has counted to 2, with the compare value 5.
use embedded_firmware_simula.Prelude.{
  ℕ, ◌+◌, ◌≡◌, refl, Bool, true, false, ◌&&◌, [], none, leb, if◌then◌else◌, ok, throws,
  out_of_range, ◌>>◌, arith,
}
use embedded_firmware_simula.Prelude.Bits.{test_bit}
use embedded_firmware_simula.Interrupts.{InterruptController, trigger}
use embedded_firmware_simula.Events.{is_pending}
use embedded_firmware_simula.Timer.{
  Timer, World, running, counter, compare, has_match, start, stop, handle_compare_match,
}
use embedded_firmware_simula.Timer.Counting.{ticks, ticks-match}
use embedded_firmware_simula.Timer.Matching.{handle_compare_match_lem}
use embedded_firmware_simula.Timer.Scheduling.{stop-start}

abbrev counting : Bool → Timer
counting with_scheduler = record {
  base_address = 0;
  ctrl_register = record { address = 0; initial_value = 0; value = 3 };
  count_register = record { address = 4; initial_value = 0; value = 2 };
  compare_register = record { address = 8; initial_value = 0; value = 5 };
  status_register = record { address = 12; initial_value = 0; value = 0 };
  interrupt_controller = true;
  interrupt_id = 4;
  clock = false;
  scheduler = with_scheduler;
  scheduled_event_id = 0;
  last_clock_cycles = 0;
}

abbrev lines : InterruptController ℕ
lines = record {
  base_address = 64;
  enable_register = record { address = 64; initial_value = 0; value = 16 };
  pending_register = record { address = 68; initial_value = 0; value = 0 };
  priority_register = record { address = 72; initial_value = 0; value = 0 };
  registered = λ i. true;
  priorities = λ i. 128;
  handlers = λ i. none;
}

abbrev world : Bool → World ℕ ℕ
world with_scheduler = record {
  timer = counting with_scheduler;
  simulation_clock = record { frequency_hz = 1000; cycles = 10 };
  events = record { next_id = 1; events = [] };
  interrupts = lines;
}

ticks-match_example :
    (running (ticks 2 (world false)).timer ≡ true)
    × (has_match (ticks 2 (world false)).timer ≡ has_match (world false).timer)
    × ((ticks 2 (world false)).interrupts ≡ lines)
    × (running (ticks (2 + 1) (world false)).timer ≡ false)
    × (counter (ticks (2 + 1) (world false)).timer ≡ compare (world false).timer)
    × (has_match (ticks (2 + 1) (world false)).timer ≡ true)
    × (trigger lines 4 ≡ ok (ticks (2 + 1) (world false)).interrupts)
unfolding running counter compare test_bit
ticks-match_example = ticks-match 2 (world false) (refl, refl) refl refl (omega arith) (omega arith)

stop-start_example :
    (running (stop (start 1 (world true))).timer ≡ false)
    × (is_pending 1 (stop (start 1 (world true))).events.events ≡ false)
unfolding is_pending
stop-start_example = stop-start (world true) 1 1 (omega arith, tt) (omega arith) refl

handle_compare_match_lem_example :
    (running (handle_compare_match (world false)).0.timer ≡ false)
    × (counter (handle_compare_match (world false)).0.timer ≡ (
        if running (world false).timer
        then compare (world false).timer
        else counter (world false).timer))
    × (has_match (handle_compare_match (world false)).0.timer
        ≡ (if running (world false).timer then true else has_match (world false).timer))
    × ((handle_compare_match (world false)).1
        ≡ (if running (world false).timer && true && leb 32 4 then throws out_of_range else ok tt))
    × ((if running (world false).timer && true then trigger lines 4 else ok lines) ≡ (
        (handle_compare_match (world false)).1
        >> ok (handle_compare_match (world false)).0.interrupts))
handle_compare_match_lem_example = handle_compare_match_lem (world false)
