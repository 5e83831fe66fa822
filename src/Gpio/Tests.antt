-- ===== src/Gpio/Tests.antt =====
-- Witnesses for the theorems on the pins: pin 1 is an output, pin 2 an input.
use embedded_firmware_simula.Prelude.{ℕ}
use embedded_firmware_simula.Gpio.{Gpio}

abbrev pins : ℕ → ℕ → ℕ → Gpio
pins dir out in_value = record {
  base_address = 0;
  dir_register = record { address = 0; initial_value = 0; value = dir };
  out_register = record { address = 4; initial_value = 0; value = out };
  in_register = record { address = 8; initial_value = 0; value = in_value };
}
