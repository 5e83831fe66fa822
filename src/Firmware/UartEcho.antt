-- ===== src/Firmware/UartEcho.antt =====
-- The echo application: include/firmware/uart_echo_firmware.hpp,
-- src/firmware/uart_echo_firmware.cpp. Its HAL is beside it; a call that throws ends the operation
-- where it is.
use embedded_firmware_simula.Prelude.{
  ℕ, zero, suc, ◌+◌, ◌%◌, ◌^◌, Bool, true, false, not, ◌&&◌, ◌||◌, Outcome, ok, throws,
  if◌then◌else◌, ◌>>=◌, and_then,
}
use embedded_firmware_simula.Uart
use embedded_firmware_simula.Hal.Uart.{UartHal}
use embedded_firmware_simula.Hal.Uart as HalUart

pub record UartEchoFirmware : Type 0 where
  pub baud_rate : ℕ
  pub echo_count : ℕ
  pub initialized : Bool
  pub is_shutdown : Bool

-- The application and its HAL.
pub record EchoWorld : Type 0 where
  pub app : UartEchoFirmware
  pub hal : UartHal

unfoldable pub new : ℕ → UartEchoFirmware
new rate = record { baud_rate = rate; echo_count = 0; initialized = false; is_shutdown = false }

-- What a call of the HAL leaves.
abbrev pub kept : EchoWorld → Outcome UartHal → EchoWorld × Outcome (Unit {0})
kept w (ok h) = (record w { hal = h }, ok tt)
kept w (throws e) = (w, throws e)

-- `m_initialized = true; m_shutdown = false; m_echoCount = 0;`
abbrev pub begun : EchoWorld → EchoWorld
begun w = record w {
  app = record w.app { initialized = true; is_shutdown = false; echo_count = 0 };
}

unfoldable pub initialize : EchoWorld → EchoWorld × Outcome (Unit {0})
initialize w =
    kept (begun w) (do h ← HalUart.set_baud_rate w.hal w.app.baud_rate; ok (HalUart.enable h))

abbrev pub counted : UartEchoFirmware → UartEchoFirmware
counted a = record a { echo_count = (a.echo_count + 1) % 2 ^ 64 }

-- The body of the loop, after its `writeByte` and after its `readByte`.
abbrev pub written : EchoWorld → Outcome UartHal → EchoWorld × Outcome (Unit {0})
written w (ok h) = (record { app = counted w.app; hal = h }, ok tt)
written w (throws e) = (w, throws e)

abbrev pub got : EchoWorld → Outcome (UartHal × ℕ) → EchoWorld × Outcome (Unit {0})
got w (ok (h, byte)) = written (record w { hal = h }) (HalUart.write_byte h byte)
got w (throws e) = (w, throws e)

unfoldable pub echo_one : EchoWorld → EchoWorld × Outcome (Unit {0})
echo_one w = got w (HalUart.read_byte w.hal)

-- `while (m_uartHAL.hasData())`, at most as often as the number says.
unfoldable pub echo_loop : ℕ → EchoWorld → EchoWorld × Outcome (Unit {0})
echo_loop zero w = (w, ok tt)
echo_loop (suc n) w =
    let rest = echo_loop n in
    if HalUart.has_data w.hal then and_then rest (echo_one w) else (w, ok tt)

abbrev pub is_active : UartEchoFirmware → Bool
is_active a = a.initialized && not a.is_shutdown

-- Each turn takes a byte out of the receive queue, or throws, so its length bounds the turns.
unfoldable pub update : EchoWorld → EchoWorld × Outcome (Unit {0})
update w =
    if not w.app.initialized || w.app.is_shutdown
    then (w, ok tt)
    else echo_loop (Uart.rx_fifo_size w.hal.uart) w

unfoldable pub execute : EchoWorld → EchoWorld × Outcome (Unit {0})
unfolding update
execute w = update w

unfoldable pub shutdown : EchoWorld → EchoWorld
shutdown w =
    if is_active w.app
    then record { app = record w.app { is_shutdown = true }; hal = HalUart.disable w.hal }
    else w

unfoldable pub reset : EchoWorld → EchoWorld
reset w = record {
  app = record w.app { initialized = false; is_shutdown = false; echo_count = 0 };
  hal = if is_active w.app then HalUart.disable w.hal else w.hal;
}
