-- ===== src/Firmware/TimerBlink.antt =====
-- The application that blinks by a timer: include/firmware/timer_blink_firmware.hpp,
-- src/firmware/timer_blink_firmware.cpp. Its HALs are beside it; a call that throws ends the
-- operation where it is. `compare_match` is the timer's event.
use embedded_firmware_simula.Prelude.{
  ℕ, ◌+◌, ◌%◌, ◌^◌, Bool, true, false, not, ◌&&◌, ◌||◌, leb, ◌==◌, Outcome, ok, throws,
  if◌then◌else◌, and_then,
}
use embedded_firmware_simula.Hal.Gpio.{GpioHal}
use embedded_firmware_simula.Hal.Gpio as HalGpio
use embedded_firmware_simula.Hal.Timer.{TimerHal}
use embedded_firmware_simula.Hal.Timer as HalTimer

pub record TimerBlinkFirmware : Type 0 where
  pub pin : ℕ
  pub compare_value : ℕ
  pub toggle_count : ℕ
  pub initialized : Bool
  pub is_shutdown : Bool

-- The application and its HALs.
pub record BlinkWorld (T H : Type 0) : Type 0 where
  pub app : TimerBlinkFirmware
  pub gpio_hal : GpioHal
  pub timer_hal : TimerHal T H

unfoldable pub new : ℕ → ℕ → TimerBlinkFirmware
new pin value = record {
  pin = pin;
  compare_value = if value == 0 then 1 else value;
  toggle_count = 0;
  initialized = false;
  is_shutdown = false;
}

abbrev pub is_active : TimerBlinkFirmware → Bool
is_active a = a.initialized && not a.is_shutdown

module _ {T H : Type 0} where
  -- What a call of the HAL of the GPIO leaves.
  abbrev pub kept : BlinkWorld T H → Outcome GpioHal → BlinkWorld T H × Outcome (Unit {0})
  kept w (ok h) = (record w { gpio_hal = h }, ok tt)
  kept w (throws e) = (w, throws e)

  -- `m_gpioHAL.write(m_pin, false)`
  abbrev pub write_low : BlinkWorld T H → BlinkWorld T H × Outcome (Unit {0})
  write_low w = kept w (HalGpio.write w.gpio_hal w.app.pin false)

  -- The first three assignments of `initialize`.
  abbrev pub begun : BlinkWorld T H → BlinkWorld T H
  begun w = record w {
    app = record w.app { initialized = true; is_shutdown = false; toggle_count = 0 };
  }

  -- `m_timerHAL.stop()`
  abbrev pub timer_stopped : BlinkWorld T H → BlinkWorld T H
  timer_stopped w = record w { timer_hal = HalTimer.stop w.timer_hal }

  -- `shutdown` and `reset` of an application that is active, up to their last assignments.
  abbrev pub put_out : BlinkWorld T H → BlinkWorld T H × Outcome (Unit {0})
  put_out w = write_low (timer_stopped w)

  abbrev closed : BlinkWorld T H → BlinkWorld T H
  closed w = record w { app = record w.app { is_shutdown = true } }

  unfoldable pub shutdown : BlinkWorld T H → BlinkWorld T H × Outcome (Unit {0})
  shutdown w =
      if is_active w.app then and_then (λ w'. (closed w', ok tt)) (put_out w) else (w, ok tt)

  abbrev cleared : BlinkWorld T H → BlinkWorld T H
  cleared w = record w {
    app = record w.app { initialized = false; is_shutdown = false; toggle_count = 0 };
  }

  unfoldable pub reset : BlinkWorld T H → BlinkWorld T H × Outcome (Unit {0})
  reset w =
      if is_active w.app
      then and_then (λ w'. (cleared w', ok tt)) (put_out w)
      else (cleared w, ok tt)

  -- `m_timerHAL.hasMatch() || m_timerHAL.counter() >= m_compareValue`
  abbrev pub is_due : BlinkWorld T H → Bool
  is_due w =
      HalTimer.has_match w.timer_hal || leb w.app.compare_value (HalTimer.counter w.timer_hal)

  module _ (compare_match : T) where
    -- The last four calls of `initialize`.
    abbrev pub timer_prepared : BlinkWorld T H → BlinkWorld T H
    timer_prepared w = record w {
      timer_hal = HalTimer.start compare_match (
          HalTimer.set_compare compare_match (HalTimer.reset (HalTimer.stop w.timer_hal))
            w.app.compare_value);
    }

    unfoldable pub initialize : BlinkWorld T H → BlinkWorld T H × Outcome (Unit {0})
    initialize w =
        and_then (λ w'. (timer_prepared w', ok tt))
          (and_then write_low (kept (begun w) (HalGpio.configure_output w.gpio_hal w.app.pin)))

    -- `m_toggleCount++; m_timerHAL.reset(); m_timerHAL.start();`
    abbrev pub counted : BlinkWorld T H → BlinkWorld T H
    counted w = record w {
      app = record w.app { toggle_count = (w.app.toggle_count + 1) % 2 ^ 64 };
      timer_hal = HalTimer.start compare_match (HalTimer.reset w.timer_hal);
    }

    unfoldable pub update : BlinkWorld T H → BlinkWorld T H × Outcome (Unit {0})
    update w =
        if not w.app.initialized || w.app.is_shutdown
        then (w, ok tt)
        else if is_due w
        then and_then (λ w'. (counted w', ok tt)) (kept w (HalGpio.toggle w.gpio_hal w.app.pin))
        else (w, ok tt)

    unfoldable pub execute : BlinkWorld T H → BlinkWorld T H × Outcome (Unit {0})
    unfolding update
    execute w = update w
