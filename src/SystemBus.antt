-- ===== src/SystemBus.antt =====
-- The system bus: include/system/system_bus.hpp, src/system/system_bus.cpp. It stands beside the board
-- that holds what it owns and points to: a pointer to the one object of a kind is a Boolean, false for
-- `nullptr`, and one to a DMA controller or a timer is its identity or none.
pub mod Board
pub mod Sample
pub mod Wiring
pub mod Resetting
mod Tests
use embedded_firmware_simula.Prelude.{
  ℕ, Bool, true, false, List, [], ◌∷◌, ◌++◌, Option, none, some, ◌==◌, if◌then◌else◌, Outcome, ok,
  throws, and_then,
}
use embedded_firmware_simula.Prelude.Members.{has, without}
use embedded_firmware_simula.Mmio.Bus.{RegisterStore}
use embedded_firmware_simula.Clock
use embedded_firmware_simula.Events.{clear}
use embedded_firmware_simula.Memory
use embedded_firmware_simula.Interrupts
use embedded_firmware_simula.Timer
use embedded_firmware_simula.Dma.{
  attach_memory, attach_mmio, attach_interrupt_controller, attach_uart, attach_scheduler,
}
use embedded_firmware_simula.Dma
use embedded_firmware_simula.Gpio
use embedded_firmware_simula.Uart
use embedded_firmware_simula.Spi
use embedded_firmware_simula.I2c
use embedded_firmware_simula.Pwm
use embedded_firmware_simula.Adc
use embedded_firmware_simula.Adc.Voltages.{Double}
use embedded_firmware_simula.SystemBus.Board.{
  Board as Hardware, world_of, put_timer, pwm_of, put_pwm, put_dma, dma_system,
}

pub record SystemBus : Type 0 where
  pub memory : Bool
  pub mmio : Bool
  pub interrupts : Bool
  pub dmas : List ℕ
  pub timers : List ℕ
  pub gpio : Bool
  pub uart : Bool
  pub spi : Bool
  pub i2c : Bool
  pub pwm : Bool
  pub adc : Bool

-- The constructor, of its three pointers.
abbrev pub new : Bool → Bool → Bool → SystemBus
new memory mmio interrupts = record {
  memory = memory;
  mmio = mmio;
  interrupts = interrupts;
  dmas = [];
  timers = [];
  gpio = false;
  uart = false;
  spi = false;
  i2c = false;
  pwm = false;
  adc = false;
}

-- A bus and the board.
pub record BusWorld (R T H W : Type 0) : Type 0 where
  pub bus : SystemBus
  pub board : Hardware R T H W

-- A loop over the attached controllers.
unfoldable pub for_each : {B : Type 0} → (ℕ → B → B) → List ℕ → B → B
for_each f [] b = b
for_each f (i ∷ is) b = for_each f is (f i b)

-- A loop that an exception leaves.
unfoldable pub try_each :
    {B : Type 0} → (ℕ → B → B × Outcome (Unit {0})) → List ℕ → B → B × Outcome (Unit {0})
try_each f [] b = (b, ok tt)
try_each f (i ∷ is) b = let rest = try_each f is in and_then rest (f i b)

-- What `attachDMA` attaches to the controller.
abbrev pub wired : SystemBus → Dma.DmaController → Dma.DmaController
wired s d =
    let d1 = if s.memory then attach_memory d true else d in
    let d2 = if s.mmio then attach_mmio d1 true else d1 in
    let d3 = if s.interrupts then attach_interrupt_controller d2 true d2.interrupt_id else d2 in
    let d4 = if s.uart then attach_uart d3 true else d3 in attach_scheduler d4 true

-- `dma()`
unfoldable pub first_dma : SystemBus → Option ℕ
first_dma s = elim s.dmas [ [] ↦ none | i ∷ is ↦ some i ]

-- `attachGPIO`, `attachSPI`, `attachI2C`, `attachPWM` and `attachADC`.
unfoldable pub attach_gpio : SystemBus → Bool → SystemBus
attach_gpio s given = record s { gpio = given }

unfoldable pub attach_spi : SystemBus → Bool → SystemBus
attach_spi s given = record s { spi = given }

unfoldable pub attach_i2c : SystemBus → Bool → SystemBus
attach_i2c s given = record s { i2c = given }

unfoldable pub attach_pwm : SystemBus → Bool → SystemBus
attach_pwm s given = record s { pwm = given }

unfoldable pub attach_adc : SystemBus → Bool → SystemBus
attach_adc s given = record s { adc = given }

module _ {R T H W : Type 0} where
  abbrev on_dma : (Dma.DmaController → Dma.DmaController) → ℕ → Hardware R T H W → Hardware R T H W
  on_dma f i b = put_dma b i (f (b.dmas i))

  unfoldable pub set_memory : BusWorld R T H W → Bool → BusWorld R T H W
  set_memory w given = record {
    bus = record w.bus { memory = given };
    board = for_each (on_dma (λ d. attach_memory d given)) w.bus.dmas w.board;
  }

  unfoldable pub set_mmio : BusWorld R T H W → Bool → BusWorld R T H W
  set_mmio w given = record {
    bus = record w.bus { mmio = given };
    board = for_each (on_dma (λ d. attach_mmio d given)) w.bus.dmas w.board;
  }

  unfoldable pub set_interrupts : BusWorld R T H W → Bool → BusWorld R T H W
  set_interrupts w given = record {
    bus = record w.bus { interrupts = given };
    board =
        for_each (on_dma (λ d. attach_interrupt_controller d given d.interrupt_id)) w.bus.dmas
          w.board;
  }

  unfoldable pub attach_uart_device : BusWorld R T H W → Bool → BusWorld R T H W
  attach_uart_device w given = record {
    bus = record w.bus { uart = given };
    board = for_each (on_dma (λ d. attach_uart d given)) w.bus.dmas w.board;
  }

  unfoldable pub attach_dma : BusWorld R T H W → Option ℕ → BusWorld R T H W × Bool
  attach_dma w none = (w, false)
  attach_dma w (some i) = if has w.bus.dmas i then (w, false) else (
    record {
      bus = record w.bus { dmas = w.bus.dmas ++ i ∷ [] };
      board = put_dma w.board i (wired w.bus (w.board.dmas i));
    },
    true,
  )

  unfoldable pub detach_dma : BusWorld R T H W → Option ℕ → BusWorld R T H W × Bool
  detach_dma w none = (w, false)
  detach_dma w (some i) =
      if has w.bus.dmas i
      then (
        record {
          bus = record w.bus { dmas = without w.bus.dmas i };
          board = put_dma w.board i (attach_scheduler (w.board.dmas i) false);
        },
        true,
      )
      else (w, false)

  -- `detachClock()` and `detachScheduler()` of a timer.
  abbrev pub release_timer : ℕ → Hardware R T H W → Hardware R T H W
  release_timer i b =
      put_timer b i (Timer.detach_scheduler (Timer.detach_clock (world_of b (b.timers i))))

  unfoldable pub detach_timer : BusWorld R T H W → Option ℕ → BusWorld R T H W × Bool
  detach_timer w none = (w, false)
  detach_timer w (some i) =
      if has w.bus.timers i
      then (
        record {
          bus = record w.bus { timers = without w.bus.timers i };
          board = release_timer i w.board;
        },
        true,
      )
      else (w, false)

  -- The destructor.
  unfoldable pub destroy : BusWorld R T H W → BusWorld R T H W
  destroy w = record {
    bus = record w.bus { timers = []; dmas = [] };
    board = for_each release_timer w.bus.timers w.board;
  }

  module _ (compare_match : ℕ → T) where
    unfoldable pub attach_timer : BusWorld R T H W → Option ℕ → BusWorld R T H W × Bool
    attach_timer w none = (w, false)
    attach_timer w (some i) = if has w.bus.timers i then (w, false) else (
      record {
        bus = record w.bus { timers = w.bus.timers ++ i ∷ [] };
        board = put_timer w.board i (
            Timer.attach_scheduler (compare_match i)
              (Timer.attach_clock (world_of w.board (w.board.timers i)) true) true);
      },
      true,
    )

  module _ (store : RegisterStore (Hardware R T H W) R) (nothing pwm_match : T) where
    abbrev pub tick_dma : ℕ → Hardware R T H W → Hardware R T H W × Outcome (Unit {0})
    tick_dma i b =
        let (d, b', outcome) = Dma.tick (dma_system store) nothing (b.dmas i) b in
        (put_dma b' i d, outcome)

    abbrev pub tick_timer : ℕ → Hardware R T H W → Hardware R T H W × Outcome (Unit {0})
    tick_timer i b =
        let (w, outcome) = Timer.tick (world_of b (b.timers i)) in (put_timer b i w, outcome)

    abbrev pub tick_pwm : Bool → Hardware R T H W → Hardware R T H W × Outcome (Unit {0})
    tick_pwm false b = (b, ok tt)
    tick_pwm true b = let (p, outcome) = Pwm.tick pwm_match (pwm_of b) in (put_pwm b p, outcome)

    unfoldable pub tick_timers : BusWorld R T H W → BusWorld R T H W × Outcome (Unit {0})
    tick_timers w =
        let (b, outcome) = and_then (tick_pwm w.bus.pwm) (
          and_then (try_each tick_timer w.bus.timers) (
            try_each tick_dma w.bus.dmas
              (record w.board { clock = Clock.tick w.board.clock 1 }))) in
        (record w { board = b }, outcome)

  module _ (double : Double W) (pwm_match : T) where
    abbrev pub reset_dma : ℕ → Hardware R T H W → Hardware R T H W
    reset_dma i b = put_dma b i (Dma.reset (b.dmas i))

    abbrev pub reset_timer : ℕ → Hardware R T H W → Hardware R T H W
    reset_timer i b = put_timer b i (Timer.reset (world_of b (b.timers i)))

    -- `if (pointer != nullptr) pointer->reset();`
    unfoldable pub if_given :
        Bool → (Hardware R T H W → Hardware R T H W) → Hardware R T H W → Hardware R T H W
    if_given given f b = if given then f b else b

    -- The resets up to that of the PWM controller, and those after it.
    abbrev pub reset_first : SystemBus → Hardware R T H W → Hardware R T H W
    reset_first s b0 =
        let b1 = for_each reset_dma s.dmas b0 in
        let b2 = if_given s.gpio (λ b. record b { gpio = Gpio.reset b.gpio }) b1 in
        let b3 = for_each reset_timer s.timers b2 in
        let b4 = if_given s.uart (λ b. record b { uart = Uart.reset b.uart }) b3 in
        let b5 = if_given s.spi (λ b. record b { spi = Spi.reset b.spi }) b4 in
        let b6 = if_given s.i2c (λ b. record b { i2c = I2c.reset b.i2c }) b5 in
        if_given s.pwm (λ b. put_pwm b (Pwm.reset pwm_match (pwm_of b))) b6

    abbrev pub reset_rest : SystemBus → Hardware R T H W → Hardware R T H W
    reset_rest s b0 =
        let b1 = if_given s.adc (λ b. record b { adc = Adc.reset double b.adc }) b0 in
        let b2 =
          if_given s.interrupts (λ b. record b { interrupts = Interrupts.reset b.interrupts }) b1 in
        let b3 = if_given s.memory (λ b. record b { memory = Memory.clear b.memory }) b2 in
        record b3 { clock = Clock.reset b3.clock; events = clear b3.events }

    unfoldable pub reset : BusWorld R T H W → BusWorld R T H W
    reset w = record w { board = reset_rest w.bus (reset_first w.bus w.board) }
