-- ===== src/Uart/Tests.antt =====
-- Witnesses for the UART's theorems.
use embedded_firmware_simula.Prelude.{refl, [], ◌∷◌}
use embedded_firmware_simula.Uart.{created, update_status_register}
use embedded_firmware_simula.Uart.Status
use embedded_firmware_simula.Uart.Status.{IsTruthful, run-IsTruthful}
use embedded_firmware_simula.Uart.Fifo
use embedded_firmware_simula.Uart.Fifo.{Line, InOrder, run-InOrder, uart_access_fails}

run-IsTruthful_example : IsTruthful (
    Status.run
      (update_status_register (created 256 9600))
      (Status.enables ∷ Status.writes 65 ∷ Status.receives 66 ∷ Status.reads ∷ []))
run-IsTruthful_example =
    run-IsTruthful 256 9600
      (Status.enables ∷ Status.writes 65 ∷ Status.receives 66 ∷ Status.reads ∷ [])

abbrev fresh_line : Line
fresh_line = record {
  uart = created 256 9600;
  written = [];
  popped = [];
  received = [];
  given = [];
}

fresh_line-InOrder : InOrder fresh_line
fresh_line-InOrder = record { sent = refl; delivered = refl }

run-InOrder_example : InOrder (
    Fifo.run fresh_line (
      Fifo.enables
      ∷ Fifo.writes 65
      ∷ Fifo.receives 66
      ∷ Fifo.pops
      ∷ Fifo.resets
      ∷ Fifo.enables
      ∷ Fifo.writes 67
      ∷ []))
run-InOrder_example =
    run-InOrder fresh_line
      (Fifo.enables
        ∷ Fifo.writes 65
        ∷ Fifo.receives 66
        ∷ Fifo.pops
        ∷ Fifo.resets
        ∷ Fifo.enables
        ∷ Fifo.writes 67
        ∷ [])
      fresh_line-InOrder
