-- ===== src/Hal/Gpio.antt =====
-- The HAL of the GPIO: include/hal/gpio_hal.hpp, src/hal/gpio_hal.cpp. Its pointer is to the GPIO
-- beside it, or null. A call with no GPIO is a call that does nothing.
use embedded_firmware_simula.Prelude.{ℕ, Bool, true, false, Outcome, ok, if◌then◌else◌, ◌>>=◌}
use embedded_firmware_simula.Gpio.{PinState, low, high, input, output, level}
use embedded_firmware_simula.Gpio

pub record GpioHal : Type 0 where
  pub attached : Bool
  pub gpio : Gpio.Gpio

-- The constructors: with a GPIO or without.
unfoldable pub new : Gpio.Gpio → Bool → GpioHal
new g given = record { attached = given; gpio = g }

unfoldable pub attach_gpio : GpioHal → Bool → GpioHal
attach_gpio h given = record h { attached = given }

unfoldable pub is_attached : GpioHal → Bool
is_attached h = h.attached

-- The HAL with the outcome of a call of the GPIO.
abbrev pub called : GpioHal → Outcome Gpio.Gpio → Outcome GpioHal
called h r = do g ← r; ok (record h { gpio = g })

unfoldable pub configure_output : GpioHal → ℕ → Outcome GpioHal
configure_output h pin =
    if h.attached then called h (Gpio.configure_pin h.gpio pin output) else ok h

unfoldable pub configure_input : GpioHal → ℕ → Outcome GpioHal
configure_input h pin = if h.attached then called h (Gpio.configure_pin h.gpio pin input) else ok h

unfoldable pub write : GpioHal → ℕ → Bool → Outcome GpioHal
write h pin state = if h.attached then called h (Gpio.write_pin h.gpio pin (level state)) else ok h

-- `state == PinState::High`
abbrev pub is_high : PinState → Bool
is_high high = true
is_high low = false

unfoldable pub read : GpioHal → ℕ → Outcome Bool
read h pin =
    if h.attached then (do state ← Gpio.read_pin h.gpio pin; ok (is_high state)) else ok false

unfoldable pub toggle : GpioHal → ℕ → Outcome GpioHal
toggle h pin = if h.attached then called h (Gpio.toggle_pin h.gpio pin) else ok h
