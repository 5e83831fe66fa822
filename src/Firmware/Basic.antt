-- ===== src/Firmware/Basic.antt =====
-- The blinking application: include/firmware/basic_firmware.hpp, src/firmware/basic_firmware.cpp. Its
-- HAL is beside it; a call that throws ends the operation where it is.
use embedded_firmware_simula.Prelude.{
  ℕ, ◌+◌, ◌%◌, ◌^◌, Bool, true, false, not, ◌&&◌, ◌||◌, leb, ◌==◌, Outcome, ok, throws,
  if◌then◌else◌, and_then,
}
use embedded_firmware_simula.Hal.Gpio.{GpioHal}
use embedded_firmware_simula.Hal.Gpio as HalGpio

pub record BasicFirmware : Type 0 where
  pub pin : ℕ
  pub toggle_interval : ℕ
  pub cycle_counter : ℕ
  pub execution_count : ℕ
  pub initialized : Bool
  pub is_shutdown : Bool

-- The application and its HAL.
pub record BasicWorld : Type 0 where
  pub app : BasicFirmware
  pub hal : GpioHal

unfoldable pub new : ℕ → ℕ → BasicFirmware
new pin interval = record {
  pin = pin;
  toggle_interval = if interval == 0 then 1 else interval;
  cycle_counter = 0;
  execution_count = 0;
  initialized = false;
  is_shutdown = false;
}

-- What a call of the HAL leaves.
abbrev pub kept : BasicWorld → Outcome GpioHal → BasicWorld × Outcome (Unit {0})
kept w (ok h) = (record w { hal = h }, ok tt)
kept w (throws e) = (w, throws e)

-- `m_gpioHAL.write(m_pin, false)`
abbrev pub write_low : BasicWorld → BasicWorld × Outcome (Unit {0})
write_low w = kept w (HalGpio.write w.hal w.app.pin false)

-- The first four assignments of `initialize`.
abbrev pub begun : BasicWorld → BasicWorld
begun w = record w {
  app = record w.app {
    initialized = true;
    is_shutdown = false;
    cycle_counter = 0;
    execution_count = 0;
  };
}

unfoldable pub initialize : BasicWorld → BasicWorld × Outcome (Unit {0})
initialize w = and_then write_low (kept (begun w) (HalGpio.configure_output w.hal w.app.pin))

-- `m_executionCount++; m_cycleCounter++;`
abbrev pub counted : BasicWorld → BasicWorld
counted w = record w {
  app = record w.app {
    execution_count = (w.app.execution_count + 1) % 2 ^ 64;
    cycle_counter = (w.app.cycle_counter + 1) % 2 ^ 64;
  };
}

-- `m_cycleCounter = 0;`
abbrev pub zeroed : BasicWorld → BasicWorld
zeroed w = record w { app = record w.app { cycle_counter = 0 } }

-- `update` after its two increments.
abbrev pub blinked : BasicWorld → BasicWorld × Outcome (Unit {0})
blinked w =
    if leb w.app.toggle_interval w.app.cycle_counter
    then and_then (λ w'. (zeroed w', ok tt)) (kept w (HalGpio.toggle w.hal w.app.pin))
    else (w, ok tt)

unfoldable pub update : BasicWorld → BasicWorld × Outcome (Unit {0})
update w = if not w.app.initialized || w.app.is_shutdown then (w, ok tt) else blinked (counted w)

unfoldable pub execute : BasicWorld → BasicWorld × Outcome (Unit {0})
unfolding update
execute w = update w

abbrev pub is_active : BasicFirmware → Bool
is_active a = a.initialized && not a.is_shutdown

abbrev closed : BasicWorld → BasicWorld
closed w = record w { app = record w.app { is_shutdown = true } }

unfoldable pub shutdown : BasicWorld → BasicWorld × Outcome (Unit {0})
shutdown w =
    if is_active w.app then and_then (λ w'. (closed w', ok tt)) (write_low w) else (w, ok tt)

abbrev cleared : BasicWorld → BasicWorld
cleared w = record w {
  app = record w.app {
    initialized = false;
    is_shutdown = false;
    cycle_counter = 0;
    execution_count = 0;
  };
}

unfoldable pub reset : BasicWorld → BasicWorld × Outcome (Unit {0})
reset w =
    if is_active w.app
    then and_then (λ w'. (cleared w', ok tt)) (write_low w)
    else (cleared w, ok tt)
