-- ===== src/SystemBus/Tests.antt =====
-- Witnesses for the theorems on the system bus.
use embedded_firmware_simula.Prelude.{true, false, [], ◌∷◌, none, some}
use embedded_firmware_simula.SystemBus.{new, reset}
use embedded_firmware_simula.SystemBus.Sample.{board, sample, numbers}
use embedded_firmware_simula.SystemBus.Wiring.{
  IsWired, run, run-IsWired, sets_memory, attaches_uart, attaches_dma, detaches_dma, attaches_timer,
}
use embedded_firmware_simula.SystemBus.Resetting.{IsFresh, reset-IsFresh}

run-IsWired_example : IsWired (
    run
      (λ i. i)
      (record { bus = new false true true; board = board })
      (attaches_timer (some 1)
        ∷ attaches_dma (some 2)
        ∷ sets_memory true
        ∷ attaches_dma (some 3)
        ∷ detaches_dma (some 2)
        ∷ attaches_timer none
        ∷ attaches_uart true
        ∷ []))
run-IsWired_example =
    run-IsWired (λ i. i) false true true board
      (attaches_timer (some 1)
        ∷ attaches_dma (some 2)
        ∷ sets_memory true
        ∷ attaches_dma (some 3)
        ∷ detaches_dma (some 2)
        ∷ attaches_timer none
        ∷ attaches_uart true
        ∷ [])

reset-IsFresh_example : IsFresh numbers 0 (reset numbers 0 sample)
reset-IsFresh_example = reset-IsFresh numbers 0 sample
