-- ===== src/SystemBus/Board.antt =====
-- The objects that a system bus (include/system/system_bus.hpp) owns or points to. The DMA
-- controllers and the timers stand as functions of their identities; of the other peripherals there
-- is one each. What each of them is given of the board is what its pointers may lead to.
use embedded_firmware_simula.Prelude.{ℕ, refl, update}
use embedded_firmware_simula.Mmio.Bus.{MmioBus, RegisterStore}
use embedded_firmware_simula.Clock.{SimulationClock}
use embedded_firmware_simula.Events.{EventScheduler}
use embedded_firmware_simula.Interrupts.{InterruptController}
use embedded_firmware_simula.Memory.{Memory}
use embedded_firmware_simula.Timer.{Timer, World}
use embedded_firmware_simula.Dma.{DmaController, System}
use embedded_firmware_simula.Gpio.{Gpio}
use embedded_firmware_simula.Uart.{Uart}
use embedded_firmware_simula.Spi.{SpiController}
use embedded_firmware_simula.I2c.{I2cController}
use embedded_firmware_simula.Pwm.{Pwm, PwmWorld}
use embedded_firmware_simula.Adc.{Adc}

-- `R` are the references of the MMIO bus, `T` the callbacks of events, `H` the handlers of
-- interrupts, and `W` the voltages.
pub record Board (R T H W : Type 0) : Type 0 where
  pub clock : SimulationClock
  pub events : EventScheduler T
  pub interrupts : InterruptController H
  pub memory : Memory
  pub mmio : MmioBus R
  pub timers : ℕ → Timer
  pub dmas : ℕ → DmaController
  pub gpio : Gpio
  pub uart : Uart
  pub spi : SpiController
  pub i2c : I2cController
  pub pwm : Pwm
  pub pwm_timer : Timer
  pub adc : Adc W

module _ {R T H W : Type 0} where
  abbrev pub world_of : Board R T H W → Timer → World T H
  world_of b t = record {
    timer = t;
    simulation_clock = b.clock;
    events = b.events;
    interrupts = b.interrupts;
  }

  -- The board after something happened to what a timer is attached to.
  abbrev pub with_world : Board R T H W → World T H → Board R T H W
  with_world b w = record b {
    clock = w.simulation_clock;
    events = w.events;
    interrupts = w.interrupts;
  }

  abbrev pub put_timer : Board R T H W → ℕ → World T H → Board R T H W
  put_timer b i w = record (with_world b w) { timers = update b.timers i w.timer }

  abbrev pub pwm_of : Board R T H W → PwmWorld T H
  pwm_of b = record { pwm = b.pwm; world = world_of b b.pwm_timer }

  abbrev pub put_pwm : Board R T H W → PwmWorld T H → Board R T H W
  put_pwm b p = record (with_world b p.world) { pwm = p.pwm; pwm_timer = p.world.timer }

  abbrev pub put_dma : Board R T H W → ℕ → DmaController → Board R T H W
  put_dma b i d = record b { dmas = update b.dmas i d }

  -- What a DMA controller works on.
  abbrev pub dma_system : RegisterStore (Board R T H W) R → System (Board R T H W) R T H
  dma_system store = record {
    bus = λ b. b.mmio;
    store = store;
    memory = λ b. b.memory;
    set_memory = λ b m. record b { memory = m };
    uart = λ b. b.uart;
    set_uart = λ b u. record b { uart = u };
    interrupts = λ b. b.interrupts;
    set_interrupts = λ b c. record b { interrupts = c };
    events = λ b. b.events;
    set_events = λ b e. record b { events = e };
    memory-set_memory = λ b m. refl;
    memory-set_interrupts = λ b c. refl;
    memory-set_events = λ b e. refl;
    interrupts-set_memory = λ b m. refl;
    interrupts-set_interrupts = λ b c. refl;
    interrupts-set_events = λ b e. refl;
  }
