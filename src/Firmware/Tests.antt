-- ===== src/Firmware/Tests.antt =====
-- Witnesses for the theorems about firmware: the manager's names are numbers, 0 the empty one.
use embedded_firmware_simula.Prelude.{
  ℕ, ◌≡◌, ◌%◌, refl, none, true, false, List, [], ◌∷◌, some, ltb, ◌==◌, ==_iff, ok, and_then, arith,
}
use embedded_firmware_simula.Prelude.Bits.{test_bit}
use embedded_firmware_simula.Uart
use embedded_firmware_simula.Gpio
use embedded_firmware_simula.Hal.Uart as HalUart
use embedded_firmware_simula.Hal.Gpio as HalGpio
use embedded_firmware_simula.Firmware.UartEcho.{EchoWorld}
use embedded_firmware_simula.Firmware.UartEcho
use embedded_firmware_simula.Firmware.Echoing.{update-echoes}
use embedded_firmware_simula.Timer.{World}
use embedded_firmware_simula.Timer as DriverTimer
use embedded_firmware_simula.Firmware.TimerBlink.{BlinkWorld}
use embedded_firmware_simula.Firmware.TimerBlink
use embedded_firmware_simula.Firmware.Toggling.{
  updates_after, meanwhile, next_count, updates_after-toggle,
}
use embedded_firmware_simula.Firmware.Basic.{BasicWorld}
use embedded_firmware_simula.Firmware.Basic
use embedded_firmware_simula.Firmware.Blinking.{updates, updates-blink}
use embedded_firmware_simula.Firmware.{Names, new}
use embedded_firmware_simula.Firmware.Active.{
  Call, registers, unregisters, activates, run, HasActive, new-HasActive,
}

abbrev numbers : Names ℕ
numbers = record { same = λ x y. x == y; before = ltb; empty = 0; same_iff = λ x y. ==_iff x y }

abbrev some_calls : List (Call ℕ ℕ)
some_calls = registers 2 (some 20) ∷ registers 1 (some 10) ∷ activates 1 ∷ unregisters 1 ∷ []

new-HasActive_example : HasActive numbers (run numbers (new numbers) some_calls)
new-HasActive_example = new-HasActive numbers some_calls

abbrev echoing : EchoWorld
echoing = record {
  app = record { baud_rate = 9600; echo_count = 3; initialized = true; is_shutdown = false };
  hal = record {
    attached = true;
    uart = record (Uart.created 64 9600) {
      control_register = record { address = 72; initial_value = 0; value = 1 };
      tx_fifo = 1 ∷ [];
      rx_fifo = 5 ∷ 6 ∷ [];
    };
  };
}

update-echoes_example :
    (w' : EchoWorld) × (UartEcho.update echoing ≡ (w', ok tt))
    × (HalUart.has_data w'.hal ≡ false)
    × (w'.hal.uart.tx_fifo ≡ 1 ∷ 5 ∷ 6 ∷ [])
    × (w'.app.echo_count ≡ 5)
unfolding Uart.enabled test_bit
update-echoes_example = update-echoes echoing refl refl refl refl (omega arith)

abbrev blinking : BasicWorld
blinking = record {
  app = record {
    pin = 5;
    toggle_interval = 3;
    cycle_counter = 2;
    execution_count = 9;
    initialized = false;
    is_shutdown = true;
  };
  hal = record { attached = true; gpio = Gpio.created 32 };
}

updates-blink_example :
    (w' : BasicWorld) × (and_then (updates 4) (Basic.initialize blinking) ≡ (w', ok tt))
    × (HalGpio.read w'.hal 5 ≡ ok true)
    × (w'.app.execution_count ≡ 4)
updates-blink_example = updates-blink blinking 4 refl (omega arith) (omega arith) (omega arith)

abbrev compare_world : World ℕ ℕ
compare_world = record {
  timer = record {
    base_address = 0;
    ctrl_register = record { address = 0; initial_value = 0; value = 0 };
    count_register = record { address = 4; initial_value = 0; value = 0 };
    compare_register = record { address = 8; initial_value = 0; value = 0 };
    status_register = record { address = 12; initial_value = 0; value = 0 };
    interrupt_controller = false;
    interrupt_id = 0;
    clock = false;
    scheduler = false;
    scheduled_event_id = 0;
    last_clock_cycles = 0;
  };
  simulation_clock = record { frequency_hz = 1000; cycles = 0 };
  events = record { next_id = 1; events = [] };
  interrupts = record {
    base_address = 64;
    enable_register = record { address = 64; initial_value = 0; value = 0 };
    pending_register = record { address = 68; initial_value = 0; value = 0 };
    priority_register = record { address = 72; initial_value = 0; value = 0 };
    registered = λ i. false;
    priorities = λ i. 128;
    handlers = λ i. none;
  };
}

abbrev timed : BlinkWorld ℕ ℕ
timed = record {
  app = TimerBlink.new 5 2;
  gpio_hal = record { attached = true; gpio = Gpio.created 32 };
  timer_hal = record { attached = true; world = compare_world };
}

-- The timer counts on by a tick; a tick of this timer does not throw.
abbrev ticked : World ℕ ℕ → World ℕ ℕ
ticked w = (DriverTimer.tick w).0

updates_after-toggle_example :
    (w' : BlinkWorld ℕ ℕ) × (and_then
        (updates_after 0 (ticked ∷ ticked ∷ ticked ∷ []))
        (TimerBlink.initialize 0 timed)
      ≡ (w', ok tt))
    × (HalGpio.read w'.gpio_hal 5 ≡ ok (w'.app.toggle_count % 2 == 1))
    × (w'' : BlinkWorld ℕ ℕ) × (TimerBlink.update 0 (meanwhile 0 ticked w') ≡ (w'', ok tt))
    × (w''.app.toggle_count ≡ next_count 0 (meanwhile 0 ticked w'))
unfolding TimerBlink.new
updates_after-toggle_example =
    updates_after-toggle 0 timed (ticked ∷ ticked ∷ ticked ∷ []) ticked refl (omega arith)
