-- ===== src/Clock.antt =====
-- The simulation clock: include/system/clock/simulation_clock.hpp,
-- src/system/clock/simulation_clock.cpp. Cycles and frequency are 64-bit words; sums and products
-- wrap at 2 ^ 64, as in the source.
pub mod Laws
mod Tests
use embedded_firmware_simula.Prelude.{
  ℕ, ◌+◌, ◌*◌, ◌/◌, ◌%◌, ◌^◌, not, ◌==◌, if◌then◌else◌, Outcome, ok, invalid_argument, require,
  ◌>>=◌, ◌>>◌,
}

abbrev pub default_frequency_hz : ℕ
default_frequency_hz = 1_000_000

pub record SimulationClock : Type 0 where
  pub frequency_hz : ℕ
  pub cycles : ℕ

-- `SimulationClock(frequencyHz)`
unfoldable pub new : ℕ → Outcome SimulationClock
new f = do require (not (f == 0)) invalid_argument; ok (record { frequency_hz = f; cycles = 0 })

unfoldable pub tick : SimulationClock → ℕ → SimulationClock
tick c count = record c { cycles = (c.cycles + count) % 2 ^ 64 }

unfoldable pub reset : SimulationClock → SimulationClock
reset c = record c { cycles = 0 }

unfoldable pub set_frequency : SimulationClock → ℕ → Outcome SimulationClock
set_frequency c f = do require (not (f == 0)) invalid_argument; ok (record c { frequency_hz = f })

-- `(m_cycles * scale) / m_frequencyHz` in 64 bits, the common form of the next three.
abbrev pub elapsed : SimulationClock → ℕ → ℕ
elapsed c scale = if c.frequency_hz == 0 then 0 else (c.cycles * scale % 2 ^ 64) / c.frequency_hz

unfoldable pub elapsed_nanoseconds : SimulationClock → ℕ
elapsed_nanoseconds c = elapsed c 1_000_000_000

unfoldable pub elapsed_microseconds : SimulationClock → ℕ
elapsed_microseconds c = elapsed c 1_000_000

unfoldable pub elapsed_milliseconds : SimulationClock → ℕ
elapsed_milliseconds c = elapsed c 1_000

unfoldable pub frequency : SimulationClock → ℕ
frequency c = c.frequency_hz

-- `cycles()`
unfoldable pub cycle_count : SimulationClock → ℕ
cycle_count c = c.cycles
