-- ===== src/Timer.antt =====
-- The timer: include/drivers/timer/timer.hpp, src/drivers/timer/timer.cpp. The objects that a timer
-- may be attached to stand beside it in a `World`; a pointer to one of them is a Boolean, false for
-- `nullptr`. `T` is what the scheduler calls when the compare value is reached; `H` are the handlers
-- of the interrupt controller.
pub mod Counting
pub mod Matching
pub mod Scheduling
mod Tests
use embedded_firmware_simula.Prelude.{
  ℕ, ◌+◌, ◌-◌, ◌%◌, ◌^◌, Bool, true, false, not, ◌&&◌, ◌||◌, List, [], ◌∷◌, some, ltb, leb, ◌==◌,
  if◌then◌else◌, Outcome, ok, throws,
}
use embedded_firmware_simula.Prelude.Bits.{set_bit, clear_bit, test_bit}
use embedded_firmware_simula.Mmio.Register.{Register}
use embedded_firmware_simula.Mmio.Register
use embedded_firmware_simula.Mmio.Bus.{MmioBus, at_offset, construct, unregister_all}
use embedded_firmware_simula.Interrupts.{InterruptController, trigger}
use embedded_firmware_simula.Clock.{SimulationClock}
use embedded_firmware_simula.Events.{EventScheduler, schedule, cancel}

pub record Timer : Type 0 where
  pub base_address : ℕ
  pub ctrl_register : Register
  pub count_register : Register
  pub compare_register : Register
  pub status_register : Register
  pub interrupt_controller : Bool
  pub interrupt_id : ℕ
  pub clock : Bool
  pub scheduler : Bool
  pub scheduled_event_id : ℕ
  pub last_clock_cycles : ℕ

-- A timer and what it may be attached to.
pub record World (T H : Type 0) : Type 0 where
  pub timer : Timer
  pub simulation_clock : SimulationClock
  pub events : EventScheduler T
  pub interrupts : InterruptController H

pub data Port : Type 0 where
  ctrl_port count_port compare_port status_port : Port

unfoldable pub ctrl_address : ℕ → ℕ
ctrl_address base = at_offset base 0x00

unfoldable pub count_address : ℕ → ℕ
count_address base = at_offset base 0x04

unfoldable pub compare_address : ℕ → ℕ
compare_address base = at_offset base 0x08

unfoldable pub status_address : ℕ → ℕ
status_address base = at_offset base 0x0c

abbrev pub created : ℕ → Timer
created base = record {
  base_address = base;
  ctrl_register = Register.new (ctrl_address base) 0;
  count_register = Register.new (count_address base) 0;
  compare_register = Register.new (compare_address base) 0;
  status_register = Register.new (status_address base) 0;
  interrupt_controller = false;
  interrupt_id = 0;
  clock = false;
  scheduler = false;
  scheduled_event_id = 0;
  last_clock_cycles = 0;
}

abbrev pub entries : {R : Type 0} → (Port → R) → ℕ → List (ℕ × R)
entries ref base =
    (ctrl_address base, ref ctrl_port)
    ∷ (count_address base, ref count_port)
    ∷ (compare_address base, ref compare_port)
    ∷ (status_address base, ref status_port)
    ∷ []

unfoldable pub new : {R : Type 0} → (Port → R) → MmioBus R → ℕ → MmioBus R × Outcome Timer
unfolding construct Register.new
new ref bus base = construct bus (entries ref base) (created base)

unfoldable pub counter : Timer → ℕ
unfolding Register.read
counter t = Register.read t.count_register

unfoldable pub compare : Timer → ℕ
unfolding Register.read
compare t = Register.read t.compare_register

unfoldable pub running : Timer → Bool
unfolding Register.read
running t = test_bit (Register.read t.ctrl_register) 0

unfoldable pub has_match : Timer → Bool
unfolding Register.read
has_match t = test_bit (Register.read t.status_register) 0

unfoldable pub interrupt_enabled : Timer → Bool
unfolding Register.read
interrupt_enabled t = test_bit (Register.read t.ctrl_register) 1

unfoldable pub auto_reset : Timer → Bool
unfolding Register.read
auto_reset t = test_bit (Register.read t.ctrl_register) 2

-- `ctrl |= (1U << bit)` or `ctrl &= ~(1U << bit)`
abbrev pub with_bit : Bool → Register → ℕ → Register
with_bit true r i = Register.write r (set_bit (Register.read r) i)
with_bit false r i = Register.write r (clear_bit (Register.read r) i)

abbrev pub with_ctrl : Timer → ℕ → Bool → Timer
with_ctrl t i on = record t { ctrl_register = with_bit on t.ctrl_register i }

unfoldable pub set_interrupt_enabled : Timer → Bool → Timer
unfolding Register.read Register.write
set_interrupt_enabled t enable = with_ctrl t 1 enable

unfoldable pub set_auto_reset : Timer → Bool → Timer
unfolding Register.read Register.write
set_auto_reset t enable = with_ctrl t 2 enable

unfoldable pub clear_match : Timer → Timer
unfolding Register.read Register.write
clear_match t = record t { status_register = with_bit false t.status_register 0 }

unfoldable pub attach_interrupt_controller : Timer → Bool → ℕ → Timer
attach_interrupt_controller t controller id = record t {
  interrupt_controller = controller;
  interrupt_id = id;
}

unfoldable pub detach_interrupt_controller : Timer → Timer
detach_interrupt_controller t = record t { interrupt_controller = false; interrupt_id = 0 }

module _ {T H : Type 0} where
  -- The clock's cycles, remembered if a clock is attached.
  abbrev pub mark_clock : World T H → World T H
  mark_clock w =
      if w.timer.clock
      then record w { timer = record w.timer { last_clock_cycles = w.simulation_clock.cycles } }
      else w

  unfoldable pub cancel_scheduled_event : World T H → World T H
  cancel_scheduled_event w =
      if not (w.timer.scheduled_event_id == 0) && w.timer.scheduler
      then record w {
        events = (cancel w.events w.timer.scheduled_event_id).0;
        timer = record w.timer { scheduled_event_id = 0 };
      }
      else w

  unfoldable pub stop : World T H → World T H
  unfolding Register.read Register.write
  stop w = cancel_scheduled_event (record w { timer = with_ctrl w.timer 0 false })

  unfoldable pub reset : World T H → World T H
  unfolding Register.reset
  reset w =
      let w' = stop w in
      mark_clock (record w' {
        timer = record w'.timer {
          count_register = Register.reset w'.timer.count_register;
          status_register = Register.reset w'.timer.status_register;
          ctrl_register = Register.reset w'.timer.ctrl_register;
        };
      })

  unfoldable pub attach_clock : World T H → Bool → World T H
  attach_clock w given = mark_clock (record w { timer = record w.timer { clock = given } })

  unfoldable pub detach_clock : World T H → World T H
  detach_clock w = record w { timer = record w.timer { clock = false; last_clock_cycles = 0 } }

  unfoldable pub detach_scheduler : World T H → World T H
  detach_scheduler w =
      let w' = cancel_scheduled_event w in
      record w' { timer = record w'.timer { scheduler = false } }

  -- The destructor, on the bus `bus`.
  unfoldable pub destroy : {R : Type 0} → MmioBus R → World T H → MmioBus R × World T H
  destroy bus w = (
    unregister_all bus (
        ctrl_address w.timer.base_address
        ∷ count_address w.timer.base_address
        ∷ compare_address w.timer.base_address
        ∷ status_address w.timer.base_address
        ∷ []),
    cancel_scheduled_event w,
  )

  -- The state after it, also if the interrupt controller refuses the id and throws.
  unfoldable pub handle_compare_match : World T H → World T H × Outcome (Unit {0})
  unfolding Register.read Register.write
  handle_compare_match w =
      let w' = stop (record w {
        timer = record w.timer {
          count_register = Register.write w.timer.count_register (compare w.timer);
          status_register = with_bit true w.timer.status_register 0;
        };
      }) in
      if not (running w.timer)
      then (w, ok tt)
      else if w'.timer.interrupt_controller
      then elim (trigger w'.interrupts w'.timer.interrupt_id) [
        | ok c ↦ (record w' { interrupts = c }, ok tt)
        | throws e ↦ (w', throws e)
      ]
      else (w', ok tt)

  -- `stepAmount` of `tick`: the cycles since the last one, cut to 32 bits.
  abbrev pub step_amount : World T H → ℕ
  step_amount w =
      if w.timer.clock && ltb w.timer.last_clock_cycles w.simulation_clock.cycles
      then (w.simulation_clock.cycles - w.timer.last_clock_cycles) % 2 ^ 32
      else 1

  unfoldable pub tick : World T H → World T H × Outcome (Unit {0})
  unfolding Register.read Register.write
  tick w =
      let count = (Register.read w.timer.count_register + step_amount w) % 2 ^ 32 in
      let w' = mark_clock w in
      let counted = record w' {
        timer = record w'.timer { count_register = Register.write w'.timer.count_register count };
      } in
      if not (running w.timer)
      then (w', ok tt)
      else if not w.timer.scheduler && leb (Register.read w.timer.compare_register) count
      then handle_compare_match counted
      else (counted, ok tt)

  module _ (compare_match : T) where
    unfoldable pub update_scheduled_event : World T H → World T H
    update_scheduled_event w =
        let w' = cancel_scheduled_event w in
        let now : ℕ = if w'.timer.clock then w'.simulation_clock.cycles else 0 in
        let (events, id) =
          schedule w'.events (some compare_match)
            ((now + (compare w'.timer - counter w'.timer)) % 2 ^ 64) "Timer Compare Match" in
        if not (running w'.timer) || not w'.timer.scheduler
        then w'
        else if leb (compare w'.timer) (counter w'.timer)
        then w'
        else record w' { events = events; timer = record w'.timer { scheduled_event_id = id } }

    unfoldable pub start : World T H → World T H
    unfolding Register.read Register.write
    start w = update_scheduled_event (mark_clock (record w { timer = with_ctrl w.timer 0 true }))

    unfoldable pub attach_scheduler : World T H → Bool → World T H
    attach_scheduler w given =
        update_scheduled_event (record w { timer = record w.timer { scheduler = given } })

    unfoldable pub set_compare : World T H → ℕ → World T H
    unfolding Register.write
    set_compare w value = update_scheduled_event (record w {
      timer = record w.timer { compare_register = Register.write w.timer.compare_register value };
    })
