-- ===== src/Hal/Uart.antt =====
-- The HAL of the UART: include/hal/uart_hal.hpp, src/hal/uart_hal.cpp. Its pointer is to the UART
-- beside it, or null. A call with no UART is a call that does nothing.
use embedded_firmware_simula.Prelude.{ℕ, Bool, false, Outcome, ok, if◌then◌else◌, ◌>>=◌}
use embedded_firmware_simula.Uart

pub record UartHal : Type 0 where
  pub attached : Bool
  pub uart : Uart.Uart

unfoldable pub attach_uart : UartHal → Bool → UartHal
attach_uart h given = record {
  attached = given;
  uart = if given then Uart.enable h.uart else h.uart;
}

-- The constructors: with a UART or without.
unfoldable pub new : Uart.Uart → Bool → UartHal
unfolding attach_uart
new u given = attach_uart (record { attached = false; uart = u }) given

unfoldable pub is_attached : UartHal → Bool
is_attached h = h.attached

-- The HAL with the outcome of a call of the UART.
abbrev pub called : UartHal → Outcome Uart.Uart → Outcome UartHal
called h r = do u ← r; ok (record h { uart = u })

unfoldable pub write_byte : UartHal → ℕ → Outcome UartHal
write_byte h byte = if h.attached then called h (Uart.write_byte h.uart byte) else ok h

unfoldable pub read_byte : UartHal → Outcome (UartHal × ℕ)
read_byte h =
    if h.attached
    then (do (u, byte) ← Uart.read_byte h.uart; ok (record h { uart = u }, byte))
    else ok (h, 0)

unfoldable pub has_data : UartHal → Bool
has_data h = if h.attached then Uart.has_received_data h.uart else false

unfoldable pub set_baud_rate : UartHal → ℕ → Outcome UartHal
set_baud_rate h rate = if h.attached then called h (Uart.set_baud_rate h.uart rate) else ok h

unfoldable pub enable : UartHal → UartHal
enable h = if h.attached then record h { uart = Uart.enable h.uart } else h

unfoldable pub disable : UartHal → UartHal
disable h = if h.attached then record h { uart = Uart.disable h.uart } else h

unfoldable pub enabled : UartHal → Bool
enabled h = if h.attached then Uart.enabled h.uart else false
