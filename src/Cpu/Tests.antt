-- ===== src/Cpu/Tests.antt =====
-- Witnesses for the theorems on the CPU and the reset controller: programs that do nothing, on a
-- machine whose power is on.
use embedded_firmware_simula.Prelude.{ℕ, ◌≡◌, refl, true, false, [], ◌==◌, ==_iff, ltb, ok, arith}
use embedded_firmware_simula.Power.{is_power_on}
use embedded_firmware_simula.Power
use embedded_firmware_simula.Firmware.{Names}
use embedded_firmware_simula.Firmware
use embedded_firmware_simula.Registers
use embedded_firmware_simula.Rtos
use embedded_firmware_simula.SystemBus
use embedded_firmware_simula.SystemBus.Sample.{sample, numbers, no_registers}
use embedded_firmware_simula.SystemBus.Resetting.{IsFresh}
use embedded_firmware_simula.Cpu.{Machine, Programs, run, power_controller, send}
use embedded_firmware_simula.Cpu.Cycles.{Counts, run-cycles}
use embedded_firmware_simula.Cpu.Reset.{ResetController, reset_cpu, reset_cpu-IsFresh}

abbrev number_names : Names ℕ
number_names = record {
  same = λ x y. x == y;
  before = λ x y. ltb x y;
  empty = 0;
  same_iff = λ x y. ==_iff x y;
}

abbrev SampleMachine : Type 0
SampleMachine = Machine ℕ ℕ ℕ ⊥ ℕ ℕ ℕ

abbrev still : Programs ℕ ℕ ℕ ⊥ ℕ ℕ ℕ
still = record {
  callback = λ c m. (m, ok tt);
  handler = λ h m. (m, ok tt);
  application = λ s m. (m, ok tt);
  task = λ f m. (m, ok tt);
  idle = 0;
  nothing = 0;
  pwm_match = 1;
}

abbrev machine : SampleMachine
machine = record {
  cpu = record {
    system_bus = true;
    owned_power = Power.new;
    other_power = false;
    firmware_manager = record { registry = []; active_name = 0 };
    rtos_scheduler = true;
    register_file = Registers.new;
    is_running = false;
    cycles = 5;
  };
  other_power = Power.new;
  rtos = Rtos.new 0;
  bus_world = sample;
}

run-cycles_example : Counts 5 3 (run number_names numbers no_registers still machine 3)
unfolding power_controller is_power_on Power.new
run-cycles_example =
    run-cycles number_names numbers no_registers still
      (record {
        callbacks = λ c m. refl;
        handlers = λ h m. refl;
        applications = λ s m. refl;
        tasks = λ f m. refl;
      })
      machine 3 refl (omega arith)

abbrev controller : ResetController
controller = record { cpu = true; system_bus = false; firmware_manager = false }

reset_cpu-IsFresh_example :
    let (m', outcome) = reset_cpu number_names numbers no_registers still controller machine in
    (outcome ≡ ok tt)
    × (m'.bus_world ≡ SystemBus.reset numbers 1 sample)
    × IsFresh numbers 1 m'.bus_world
unfolding Firmware.reset Firmware.active_firmware Firmware.find send
reset_cpu-IsFresh_example =
    reset_cpu-IsFresh number_names numbers no_registers still
      (record { no_throw = λ s m. refl; bus_kept = λ s m. refl }) controller machine refl refl
