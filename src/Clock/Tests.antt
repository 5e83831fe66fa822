-- ===== src/Clock/Tests.antt =====
-- Witnesses for the clock's theorems.
use embedded_firmware_simula.Prelude.{ℕ, ◌*◌, ◌/◌, ◌<◌, ◌≡◌, refl, arith}
use embedded_firmware_simula.Clock.{
  SimulationClock, tick, elapsed_nanoseconds, elapsed_microseconds, elapsed_milliseconds,
}
use embedded_firmware_simula.Clock.Laws.{elapsed_agree, elapsed_nanoseconds-tick_wraps}

abbrev at_cycle : ℕ → SimulationClock
at_cycle n = record { frequency_hz = 1_000_000; cycles = n }

elapsed_agree_example :
    (elapsed_nanoseconds (at_cycle 2500) ≡ 2500 * 1_000_000_000 / 1_000_000)
    × (elapsed_microseconds (at_cycle 2500) ≡ elapsed_nanoseconds (at_cycle 2500) / 1000)
    × (elapsed_milliseconds (at_cycle 2500) ≡ elapsed_microseconds (at_cycle 2500) / 1000)
elapsed_agree_example = elapsed_agree (at_cycle 2500) (omega arith) (omega arith)

elapsed_nanoseconds-tick_wraps_example :
    elapsed_nanoseconds (tick (at_cycle 18_446_744_073) 1)
    < elapsed_nanoseconds (at_cycle 18_446_744_073)
elapsed_nanoseconds-tick_wraps_example =
    elapsed_nanoseconds-tick_wraps (at_cycle 18_446_744_073) (omega arith) (omega arith) refl
