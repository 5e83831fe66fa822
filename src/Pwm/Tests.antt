-- ===== src/Pwm/Tests.antt =====
-- Witness for the PWM controller's theorem: a period of 4 ticks, 2 of them on, after 6 ticks.
use embedded_firmware_simula.Prelude.{ℕ, ◌≡◌, refl, false, [], none, ltb, ok, arith}
use embedded_firmware_simula.Prelude.Bits.{test_bit}
use embedded_firmware_simula.Timer.{Timer, running, counter, compare}
use embedded_firmware_simula.Pwm.{
  Pwm, PwmWorld, enabled, duty_cycle, output_state, with_period, frequency,
}
use embedded_firmware_simula.Pwm.Output.{ticks, ticks-output}

abbrev half : Pwm
half = record {
  base_address = 0;
  system_clock_hz = 4000;
  control_register = record { address = 0; initial_value = 0; value = 1 };
  freq_register = record { address = 4; initial_value = 1000; value = 1000 };
  duty_register = record { address = 8; initial_value = 50; value = 50 };
  status_register = record { address = 12; initial_value = 0; value = 3 };
  period_ticks = 4;
  on_ticks = 2;
}

abbrev timer : Timer
timer = record {
  base_address = 16;
  ctrl_register = record { address = 16; initial_value = 0; value = 5 };
  count_register = record { address = 20; initial_value = 0; value = 0 };
  compare_register = record { address = 24; initial_value = 0; value = 4 };
  status_register = record { address = 28; initial_value = 0; value = 0 };
  interrupt_controller = false;
  interrupt_id = 0;
  clock = false;
  scheduler = false;
  scheduled_event_id = 0;
  last_clock_cycles = 0;
}

abbrev pulsing : PwmWorld ℕ ℕ
pulsing = record {
  pwm = half;
  world = record {
    timer = timer;
    simulation_clock = record { frequency_hz = 1000; cycles = 0 };
    events = record { next_id = 1; events = [] };
    interrupts = record {
      base_address = 64;
      enable_register = record { address = 64; initial_value = 0; value = 0 };
      pending_register = record { address = 68; initial_value = 0; value = 0 };
      priority_register = record { address = 72; initial_value = 0; value = 0 };
      registered = λ i. false;
      priorities = λ i. 128;
      handlers = λ i. none;
    };
  };
}

ticks-output_example :
    ((ticks 0 6 pulsing).1 ≡ ok tt)
    × (counter (ticks 0 6 pulsing).0.world.timer ≡ 4)
    × (running (ticks 0 6 pulsing).0.world.timer ≡ false)
    × (output_state (ticks 0 6 pulsing).0.pwm (ticks 0 6 pulsing).0.world.timer ≡ ltb 0 2)
unfolding enabled duty_cycle running counter compare test_bit with_period frequency
ticks-output_example =
    ticks-output 0 6 pulsing refl refl
      (record {
        free = (refl, refl);
        goes_as_said = refl;
        counted = refl;
        compared = refl;
        valid = omega arith;
      })
      (omega arith) (omega arith) (omega arith)
