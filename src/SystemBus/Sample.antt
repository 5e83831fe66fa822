-- ===== src/SystemBus/Sample.antt =====
-- A board for the witnesses of the bus and of the CPU: its voltages are numbers, and its MMIO bus has
-- no registers.
use embedded_firmware_simula.Prelude.{ℕ, ◌*◌, ◌/◌, true, false, [], ◌∷◌, leb, ltb}
use embedded_firmware_simula.Mmio.Bus.{RegisterStore}
use embedded_firmware_simula.Adc.Voltages.{Double}
use embedded_firmware_simula.Timer
use embedded_firmware_simula.Dma
use embedded_firmware_simula.Gpio
use embedded_firmware_simula.Uart
use embedded_firmware_simula.Spi
use embedded_firmware_simula.I2c
use embedded_firmware_simula.Adc
use embedded_firmware_simula.Interrupts
use embedded_firmware_simula.SystemBus.{SystemBus, BusWorld}
use embedded_firmware_simula.SystemBus.Board.{Board as Hardware}

abbrev pub numbers : Double ℕ
numbers = record {
  nought = 0;
  default_reference = 3;
  le = leb;
  ge = λ x y. leb y x;
  lt = ltb;
  div = λ x y. x / y;
  mul = λ x y. x * y;
  round = λ x. x;
  from_word = λ n. n;
  to_word = λ n. n;
}

abbrev pub SampleBoard : Type 0
SampleBoard = Hardware ⊥ ℕ ℕ ℕ

abbrev pub no_registers : RegisterStore SampleBoard ⊥
no_registers = record {
  load = λ b r. absurd r;
  save = λ b r x. b;
  load-save = λ b r x. absurd r;
  load-save_ne = λ b r q x h. absurd r;
}

abbrev pub board : SampleBoard
board = record {
  clock = record { frequency_hz = 1000; cycles = 7 };
  events = record { next_id = 1; events = [] };
  interrupts = Interrupts.created 0;
  memory = record { storage = 1 ∷ 2 ∷ [] };
  mmio = record { registers = [] };
  timers = λ i. Timer.created (i * 16);
  dmas = λ i. Dma.new false false false false;
  gpio = Gpio.created 512;
  uart = Uart.created 528 9600;
  spi = Spi.created 544 2;
  i2c = I2c.created 560 80;
  pwm = record {
    base_address = 576;
    system_clock_hz = 4000;
    control_register = record { address = 576; initial_value = 0; value = 0 };
    freq_register = record { address = 580; initial_value = 1000; value = 1000 };
    duty_register = record { address = 584; initial_value = 50; value = 50 };
    status_register = record { address = 588; initial_value = 0; value = 0 };
    period_ticks = 4;
    on_ticks = 2;
  };
  pwm_timer = Timer.created 592;
  adc = Adc.created numbers 608 8 3 2;
}

-- A bus with two timers, a DMA controller and most of the rest.
abbrev pub bus : SystemBus
bus = record {
  memory = true;
  mmio = false;
  interrupts = true;
  dmas = 5 ∷ [];
  timers = 1 ∷ 2 ∷ [];
  gpio = true;
  uart = true;
  spi = true;
  i2c = true;
  pwm = true;
  adc = false;
}

abbrev pub sample : BusWorld ⊥ ℕ ℕ ℕ
sample = record { bus = bus; board = board }
