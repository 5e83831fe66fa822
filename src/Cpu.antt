-- ===== src/Cpu.antt =====
-- The CPU: include/cpu/cpu.hpp, src/cpu/cpu.cpp. It stands beside the bus, the RTOS scheduler and a
-- power controller that it may be given; a pointer to one of them is a Boolean, false for `nullptr`.
-- What the machine runs is given as functions on the whole of it that may throw: the callbacks of
-- events, the handlers of interrupts, the firmware applications and the RTOS tasks.
pub mod Cycles
pub mod Reset
mod Tests
use embedded_firmware_simula.Prelude.{
  ℕ, zero, suc, ◌+◌, ◌%◌, ◌^◌, Bool, true, false, not, ◌&&◌, ◌||◌, List, [], ◌∷◌, Option, none,
  some, if◌then◌else◌, Outcome, ok, throws, and_then, is_some,
}
use embedded_firmware_simula.Registers.{RegisterFile}
use embedded_firmware_simula.Registers
use embedded_firmware_simula.Power.{PowerController, is_power_on}
use embedded_firmware_simula.Power
use embedded_firmware_simula.Events.{EventScheduler, execute_ready_events}
use embedded_firmware_simula.Interrupts.{dispatch}
use embedded_firmware_simula.Mmio.Bus.{RegisterStore}
use embedded_firmware_simula.Firmware.{Names, Signal, FirmwareManager}
use embedded_firmware_simula.Firmware
use embedded_firmware_simula.Rtos.{Scheduler}
use embedded_firmware_simula.Rtos
use embedded_firmware_simula.Adc.Voltages.{Double}
use embedded_firmware_simula.SystemBus.{BusWorld, tick_timers}
use embedded_firmware_simula.SystemBus
use embedded_firmware_simula.SystemBus.Board.{Board as Hardware}

pub record Cpu (N A : Type 0) : Type 0 where
  pub system_bus : Bool
  pub owned_power : PowerController
  pub other_power : Bool
  pub firmware_manager : FirmwareManager N A
  pub rtos_scheduler : Bool
  pub register_file : RegisterFile
  pub is_running : Bool
  pub cycles : ℕ

-- The whole machine: `N` are the names and `A` the applications of the firmware manager, `F` the
-- functions of RTOS tasks; the others are those of the board.
pub record Machine (N A F R T H W : Type 0) : Type 0 where
  pub cpu : Cpu N A
  pub other_power : PowerController
  pub rtos : Scheduler F
  pub bus_world : BusWorld R T H W

-- The constructors: of either, the CPU has a bus, its own if it is given none. `own_bus` is the bus
-- that it makes, with the interrupt controller that it may be given.
unfoldable pub new : {N A : Type 0} → Names N → Cpu N A
unfolding Power.new Registers.new
new names = record {
  system_bus = true;
  owned_power = Power.new;
  other_power = false;
  firmware_manager = Firmware.new names;
  rtos_scheduler = false;
  register_file = Registers.new;
  is_running = false;
  cycles = 0;
}

unfoldable pub own_bus : Bool → SystemBus.SystemBus
own_bus given = SystemBus.new false false given

module _ {N A : Type 0} where
  unfoldable pub set_power_controller : Cpu N A → Bool → Cpu N A
  set_power_controller c given = record c { other_power = given }

  unfoldable pub set_system_bus : Cpu N A → Bool → Cpu N A
  set_system_bus c given = record c { system_bus = given }

  unfoldable pub attach_rtos_scheduler : Cpu N A → Bool → Cpu N A
  attach_rtos_scheduler c given = record c { rtos_scheduler = given }

  unfoldable pub cycle_count : Cpu N A → ℕ
  cycle_count c = c.cycles

module _ {N A F R T H W : Type 0} where
  -- `*m_powerController`
  unfoldable pub power_controller : Machine N A F R T H W → PowerController
  power_controller m = if m.cpu.other_power then m.other_power else m.cpu.owned_power

  unfoldable pub attach_dma : Machine N A F R T H W → Option ℕ → Machine N A F R T H W × Bool
  attach_dma m i =
      let (w, done) = SystemBus.attach_dma m.bus_world i in
      if m.cpu.system_bus then (record m { bus_world = w }, done) else (m, false)

  unfoldable pub detach_dma : Machine N A F R T H W → Option ℕ → Machine N A F R T H W × Bool
  detach_dma m i =
      let (w, done) = SystemBus.detach_dma m.bus_world i in
      if m.cpu.system_bus then (record m { bus_world = w }, done) else (m, false)

  unfoldable pub attach_timer :
      (ℕ → T) → Machine N A F R T H W → Option ℕ → Machine N A F R T H W × Bool
  attach_timer compare_match m i =
      let (w, done) = SystemBus.attach_timer compare_match m.bus_world i in
      if m.cpu.system_bus then (record m { bus_world = w }, done) else (m, false)

  unfoldable pub detach_timer : Machine N A F R T H W → Option ℕ → Machine N A F R T H W × Bool
  detach_timer m i =
      let (w, done) = SystemBus.detach_timer m.bus_world i in
      if m.cpu.system_bus then (record m { bus_world = w }, done) else (m, false)

  unfoldable pub set_interrupt_controller : Machine N A F R T H W → Bool → Machine N A F R T H W
  set_interrupt_controller m given =
      let w = SystemBus.set_interrupts m.bus_world given in
      if m.cpu.system_bus then record m { bus_world = w } else m

-- The code that the machine runs.
pub record Programs (N A F R T H W : Type 0) : Type 0 where
  pub callback : T → Machine N A F R T H W → Machine N A F R T H W × Outcome (Unit {0})
  pub handler : H → Machine N A F R T H W → Machine N A F R T H W × Outcome (Unit {0})
  pub application : Signal A → Machine N A F R T H W → Machine N A F R T H W × Outcome (Unit {0})
  pub task : F → Machine N A F R T H W → Machine N A F R T H W × Outcome (Unit {0})
  pub idle : F
  pub nothing : T
  pub pwm_match : T

module _ {N A F R T H W : Type 0} (names : Names N) (double : Double W)
    (store : RegisterStore (Hardware R T H W) R) (programs : Programs N A F R T H W) where
  -- The calls that the firmware manager makes, up to one that throws.
  unfoldable pub send :
      List (Signal A) → Machine N A F R T H W → Machine N A F R T H W × Outcome (Unit {0})
  send [] m = (m, ok tt)
  send (s ∷ ss) m = let rest = send ss in and_then rest (programs.application s m)

  abbrev pub start_rtos : Machine N A F R T H W → Machine N A F R T H W × Outcome (Unit {0})
  start_rtos m = (
    if m.cpu.rtos_scheduler then record m { rtos = Rtos.start programs.idle m.rtos } else m,
    ok tt,
  )

  unfoldable pub start : Machine N A F R T H W → Machine N A F R T H W × Outcome (Unit {0})
  start m =
      if m.cpu.is_running
      then (m, ok tt)
      else and_then start_rtos (
          send (Firmware.initialize names m.cpu.firmware_manager)
            (record m { cpu = record m.cpu { is_running = true } }))

  abbrev pub stop_rtos : Machine N A F R T H W → Machine N A F R T H W × Outcome (Unit {0})
  stop_rtos m = (if m.cpu.rtos_scheduler then record m { rtos = Rtos.stop m.rtos } else m, ok tt)

  unfoldable pub stop : Machine N A F R T H W → Machine N A F R T H W × Outcome (Unit {0})
  stop m =
      if m.cpu.is_running
      then and_then stop_rtos (
          send (Firmware.shutdown names m.cpu.firmware_manager)
            (record m { cpu = record m.cpu { is_running = false } }))
      else (m, ok tt)

  abbrev pub reset_rtos : Machine N A F R T H W → Machine N A F R T H W
  reset_rtos m =
      if m.cpu.rtos_scheduler then record m { rtos = Rtos.reset programs.idle m.rtos } else m

  abbrev pub reset_bus : Machine N A F R T H W → Machine N A F R T H W
  reset_bus m =
      if m.cpu.system_bus
      then record m { bus_world = SystemBus.reset double programs.pwm_match m.bus_world }
      else m

  -- The part of `reset` after the firmware's.
  abbrev pub reset_rest : Machine N A F R T H W → Machine N A F R T H W × Outcome (Unit {0})
  reset_rest m = (reset_bus (reset_rtos m), ok tt)

  unfoldable pub reset : Machine N A F R T H W → Machine N A F R T H W × Outcome (Unit {0})
  reset m = and_then reset_rest (
      send (Firmware.reset names m.cpu.firmware_manager) (record m {
        cpu = record m.cpu { cycles = 0; register_file = Registers.reset m.cpu.register_file };
      }))

  -- `tickTimers()` of the bus.
  unfoldable pub tick_bus : Machine N A F R T H W → Machine N A F R T H W × Outcome (Unit {0})
  tick_bus m =
      let (w, outcome) = tick_timers store programs.nothing programs.pwm_match m.bus_world in
      (record m { bus_world = w }, outcome)

  -- An event's callback, unless an earlier one has thrown.
  abbrev pub call_event :
      T → Machine N A F R T H W × Outcome (Unit {0}) → Machine N A F R T H W × Outcome (Unit {0})
  call_event c r = and_then (programs.callback c) r

  abbrev pub events_of : Machine N A F R T H W × Outcome (Unit {0}) → EventScheduler T
  events_of (m, o) = m.bus_world.board.events

  abbrev pub with_events :
      EventScheduler T
      → Machine N A F R T H W × Outcome (Unit {0})
      → Machine N A F R T H W × Outcome (Unit {0})
  with_events s (m, o) = (
    record m { bus_world = record m.bus_world { board = record m.bus_world.board { events = s } } },
    o,
  )

  unfoldable pub run_events : Machine N A F R T H W → Machine N A F R T H W × Outcome (Unit {0})
  run_events m =
      (execute_ready_events call_event events_of with_events (m, ok tt)
        m.bus_world.board.clock.cycles).0

  abbrev pub handle : Option H → Machine N A F R T H W → Machine N A F R T H W × Outcome (Unit {0})
  handle none m = (m, ok tt)
  handle (some h) m = programs.handler h m

  unfoldable pub serve_interrupts :
      Machine N A F R T H W → Machine N A F R T H W × Outcome (Unit {0})
  serve_interrupts m =
      let (c, served, h) = dispatch m.bus_world.board.interrupts in
      if m.bus_world.bus.interrupts
      then handle h (record m {
        bus_world = record m.bus_world { board = record m.bus_world.board { interrupts = c } };
      })
      else (m, ok tt)

  unfoldable pub step_bus : Machine N A F R T H W → Machine N A F R T H W × Outcome (Unit {0})
  step_bus m =
      if m.cpu.system_bus
      then and_then serve_interrupts (and_then run_events (tick_bus m))
      else (m, ok tt)

  abbrev pub call_task :
      Option F → Machine N A F R T H W → Machine N A F R T H W × Outcome (Unit {0})
  call_task none m = (m, ok tt)
  call_task (some f) m = programs.task f m

  -- The end of `step`: the scheduler if it runs, and else the application if the CPU runs.
  unfoldable pub step_software : Machine N A F R T H W → Machine N A F R T H W × Outcome (Unit {0})
  step_software m =
      let (s, f) = Rtos.schedule (Rtos.tick m.rtos) in
      if m.cpu.rtos_scheduler && Rtos.is_active m.rtos
      then call_task f (record m { rtos = s })
      else if m.cpu.is_running
      then send (Firmware.update names m.cpu.firmware_manager) m
      else (m, ok tt)

  unfoldable pub step : Machine N A F R T H W → Machine N A F R T H W × Outcome (Unit {0})
  step m =
      if is_power_on (power_controller m)
      then and_then step_software
          (step_bus (record m { cpu = record m.cpu { cycles = (m.cpu.cycles + 1) % 2 ^ 64 } }))
      else (m, ok tt)

  -- The loop of `run`, for so many more cycles.
  unfoldable pub run_loop : ℕ → Machine N A F R T H W → Machine N A F R T H W × Outcome (Unit {0})
  run_loop zero m = (m, ok tt)
  run_loop (suc n) m =
      let rest = run_loop n in
      if m.cpu.is_running && is_power_on (power_controller m)
      then and_then rest (step m)
      else (m, ok tt)

  unfoldable pub run : Machine N A F R T H W → ℕ → Machine N A F R T H W × Outcome (Unit {0})
  run m n = and_then (run_loop n) (start m)

  -- `if (m_running) stop();`
  abbrev pub halt : Machine N A F R T H W → Machine N A F R T H W × Outcome (Unit {0})
  halt m = if m.cpu.is_running then stop m else (m, ok tt)

  abbrev pub with_firmware : Machine N A F R T H W → FirmwareManager N A → Machine N A F R T H W
  with_firmware m f = record m { cpu = record m.cpu { firmware_manager = f } }

  -- `m_activeName = name;`, after the shutdown of the application that was active.
  abbrev pub activate : N → Machine N A F R T H W → Machine N A F R T H W × Outcome (Unit {0})
  activate name m = (with_firmware m (record m.cpu.firmware_manager { active_name = name }), ok tt)

  -- `registerFirmware` and `setActiveFirmware`, which shuts down before it assigns the name.
  abbrev pub select_firmware :
      A → N → Machine N A F R T H W → Machine N A F R T H W × Outcome (Unit {0})
  select_firmware a name m =
      let (registered, fresh) =
        Firmware.register_firmware names m.cpu.firmware_manager name (some a) in
      let (selected, found, signals) = Firmware.set_active_firmware names registered name in
      let m' = with_firmware m registered in
      if not found || names.same registered.active_name name
      then (m', ok tt)
      else and_then (activate name) (send signals m')

  unfoldable pub load_firmware :
      Machine N A F R T H W → Option A → N → Machine N A F R T H W × Outcome (Unit {0}) × Bool
  load_firmware m none name = (m, ok tt, false)
  load_firmware m (some a) name =
      let (m', outcome) = and_then (select_firmware a name) (halt m) in (m', outcome, true)

  -- The part of `unregisterFirmware` after the shutdown of the application.
  abbrev pub forget : N → Machine N A F R T H W → Machine N A F R T H W × Outcome (Unit {0})
  forget name m =
      (with_firmware m (Firmware.unregister_firmware names m.cpu.firmware_manager name).0, ok tt)

  -- `unregisterFirmware` of the active name.
  abbrev pub drop_firmware : Machine N A F R T H W → Machine N A F R T H W × Outcome (Unit {0})
  drop_firmware m =
      let name = Firmware.active_firmware_name names m.cpu.firmware_manager in
      let (left, found, signals) = Firmware.unregister_firmware names m.cpu.firmware_manager name in
      if names.same name names.empty then (m, ok tt) else and_then (forget name) (send signals m)

  unfoldable pub unload_firmware :
      Machine N A F R T H W → Machine N A F R T H W × Outcome (Unit {0})
  unload_firmware m = and_then drop_firmware (halt m)

  unfoldable pub firmware_loaded : Cpu N A → Bool
  firmware_loaded c = is_some (Firmware.active_firmware names c.firmware_manager)

  -- The destructor.
  unfoldable pub destroy : Machine N A F R T H W → Machine N A F R T H W × Outcome (Unit {0})
  destroy m = stop m
