-- ===== src/Cpu/Reset.antt =====
-- The reset controller: include/system/power/reset_controller.hpp,
-- src/system/power/reset_controller.cpp. Its CPU and its bus are those of the machine; its firmware
-- manager, if it has one, stands beside the machine.
use embedded_firmware_simula.Prelude.{
  ◌≡◌, refl, sym, ap, ◌∙◌, Bool, true, Bool-cases, inl, inr, List, [], ◌∷◌, if◌then◌else◌, Outcome,
  ok, and_then, and_then-ok,
}
use embedded_firmware_simula.Mmio.Bus.{RegisterStore}
use mathlib.Core.Path.{subst}
use embedded_firmware_simula.Registers
use embedded_firmware_simula.Firmware.{Names, Signal, FirmwareManager}
use embedded_firmware_simula.Firmware
use embedded_firmware_simula.Adc.Voltages.{Double}
use embedded_firmware_simula.SystemBus
use embedded_firmware_simula.SystemBus.Board.{Board as Hardware}
use embedded_firmware_simula.SystemBus.Resetting.{IsFresh, reset-IsFresh}
use embedded_firmware_simula.Cpu.{Machine, Programs, reset, reset_rest, reset_rtos, reset_bus, send}

pub record ResetController : Type 0 where
  pub cpu : Bool
  pub system_bus : Bool
  pub firmware_manager : Bool

-- The constructor.
unfoldable pub new : Bool → Bool → Bool → ResetController
new cpu system_bus firmware_manager = record {
  cpu = cpu;
  system_bus = system_bus;
  firmware_manager = firmware_manager;
}

unfoldable pub set_cpu : ResetController → Bool → ResetController
set_cpu r given = record r { cpu = given }

unfoldable pub set_system_bus : ResetController → Bool → ResetController
set_system_bus r given = record r { system_bus = given }

unfoldable pub set_firmware_manager : ResetController → Bool → ResetController
set_firmware_manager r given = record r { firmware_manager = given }

module _ {N A F R T H W : Type 0} (names : Names N) (double : Double W)
    (store : RegisterStore (Hardware R T H W) R) (programs : Programs N A F R T H W) where
  unfoldable pub reset_cpu :
      ResetController → Machine N A F R T H W → Machine N A F R T H W × Outcome (Unit {0})
  reset_cpu r m = if r.cpu then reset names double store programs m else (m, ok tt)

  unfoldable pub reset_peripherals :
      ResetController → Machine N A F R T H W → Machine N A F R T H W × Outcome (Unit {0})
  reset_peripherals r m = (
    if r.system_bus
        then record m { bus_world = SystemBus.reset double programs.pwm_match m.bus_world }
        else m,
    ok tt,
  )

  -- `reset()` and `initialize()` of a firmware manager.
  abbrev pub restart :
      FirmwareManager N A → Machine N A F R T H W → Machine N A F R T H W × Outcome (Unit {0})
  restart f m =
      and_then (send names double store programs (Firmware.initialize names f))
        (send names double store programs (Firmware.reset names f) m)

  unfoldable pub reset_firmware :
      ResetController
      → FirmwareManager N A
      → Machine N A F R T H W
      → Machine N A F R T H W × Outcome (Unit {0})
  reset_firmware r given m =
      if r.firmware_manager
      then restart given m
      else if r.cpu
      then restart m.cpu.firmware_manager m
      else (m, ok tt)

  unfoldable pub reset_system :
      ResetController
      → FirmwareManager N A
      → Machine N A F R T H W
      → Machine N A F R T H W × Outcome (Unit {0})
  reset_system r given m =
      and_then (reset_firmware r given) (and_then (reset_peripherals r) (reset_cpu r m))

-- Applications that do not throw, and do not take the bus from the CPU.
pub record AreQuiet {N A F R T H W : Type 0} (p : Programs N A F R T H W) : Type 0 where
  pub no_throw : (s : Signal A) (m : Machine N A F R T H W) → (p.application s m).1 ≡ ok tt
  pub bus_kept :
      (s : Signal A) (m : Machine N A F R T H W)
      → (p.application s m).0.cpu.system_bus ≡ m.cpu.system_bus

module _ {N A F R T H W : Type 0} (names : Names N) (double : Double W)
    (store : RegisterStore (Hardware R T H W) R) (programs : Programs N A F R T H W)
    (quiet : AreQuiet programs) where
  send-quiet :
      (ss : List (Signal A)) (m : Machine N A F R T H W)
      → ((send names double store programs ss m).1 ≡ ok tt)
        × ((send names double store programs ss m).0.cpu.system_bus ≡ m.cpu.system_bus)
  unfolding send
  send-quiet [] m = (refl, refl)
  send-quiet (s ∷ ss) m =
      let (o, k) = send-quiet ss (programs.application s m).0 in
      rw
        (and_then-ok (send names double store programs ss) (programs.application s m)
          (quiet.no_throw s m))
        (o, k ∙ quiet.bus_kept s m)

  reset_bus-IsFresh :
      (m : Machine N A F R T H W)
      → m.cpu.system_bus ≡ true
      → IsFresh double programs.pwm_match (reset_bus names double store programs m).bus_world
  reset_bus-IsFresh m b = simp b (reset-IsFresh double programs.pwm_match m.bus_world)

  reset_rtos-bus :
      (m : Machine N A F R T H W)
      → (reset_rtos names double store programs m).cpu.system_bus ≡ m.cpu.system_bus
  reset_rtos-bus m = elim (Bool-cases m.cpu.rtos_scheduler) [
    | inl e ↦ simp e refl
    | inr e ↦ simp e refl
  ]

  reset_rtos-world :
      (m : Machine N A F R T H W)
      → (reset_rtos names double store programs m).bus_world ≡ m.bus_world
  reset_rtos-world m = elim (Bool-cases m.cpu.rtos_scheduler) [
    | inl e ↦ simp e refl
    | inr e ↦ simp e refl
  ]

  reset_bus-reset :
      (m : Machine N A F R T H W)
      → m.cpu.system_bus ≡ true
      → (reset_bus names double store programs m).bus_world
        ≡ SystemBus.reset double programs.pwm_match m.bus_world
  reset_bus-reset m b = simp b refl

  -- The CPU before its firmware is reset.
  abbrev zeroed : Machine N A F R T H W → Machine N A F R T H W
  zeroed m = record m {
    cpu = record m.cpu { cycles = 0; register_file = Registers.reset m.cpu.register_file };
  }

  abbrev pub sent : Machine N A F R T H W → Machine N A F R T H W × Outcome (Unit {0})
  sent m = send names double store programs (Firmware.reset names m.cpu.firmware_manager) (zeroed m)

  reset_cpu-given :
      (r : ResetController) (m : Machine N A F R T H W)
      → r.cpu ≡ true
      → reset_cpu names double store programs r m
        ≡ reset_rest names double store programs (sent m).0
  unfolding reset_cpu reset
  reset_cpu-given r m given =
      ap (λ b. if b then reset names double store programs m else (m, ok tt)) given
      ∙ and_then-ok (reset_rest names double store programs) (sent m)
          (send-quiet (Firmware.reset names m.cpu.firmware_manager) (zeroed m)).0

  -- A reset of the CPU alone also resets the bus of a CPU that has one, if its applications do not
  -- throw and leave it the bus. It does not throw. The bus and its peripherals are then what a
  -- reset of the bus makes of them as the reset of the active application has left them; in
  -- particular they are as fresh as after any reset of the bus.
  pub reset_cpu-IsFresh :
      (r : ResetController) (m : Machine N A F R T H W)
      → r.cpu ≡ true
      → m.cpu.system_bus ≡ true
      → let (m', outcome) = reset_cpu names double store programs r m in
        (outcome ≡ ok tt)
        × (m'.bus_world ≡ SystemBus.reset double programs.pwm_match (sent m).0.bus_world)
        × IsFresh double programs.pwm_match m'.bus_world
  reset_cpu-IsFresh r m given b =
      let (o, k) = send-quiet (Firmware.reset names m.cpu.firmware_manager) (zeroed m) in
      let on = reset_rtos-bus (sent m).0 ∙ k ∙ b in
      subst
        (λ x.
          (x.1 ≡ ok tt)
          × (x.0.bus_world ≡ SystemBus.reset double programs.pwm_match (sent m).0.bus_world)
          × IsFresh double programs.pwm_match x.0.bus_world)
        (sym (reset_cpu-given r m given))
        (
          refl,
          reset_bus-reset (reset_rtos names double store programs (sent m).0) on
              ∙ ap (SystemBus.reset double programs.pwm_match) (reset_rtos-world (sent m).0),
          reset_bus-IsFresh (reset_rtos names double store programs (sent m).0) on,
        )
