-- ===== src/Interrupts.antt =====
-- The interrupt controller: include/kernel/interrupt_controller.hpp,
-- src/kernel/interrupt_controller.cpp. Handlers are values of a type `H`; `dispatch` gives the one
-- to call, and calls it last, so what the handler does happens after the state given here.
pub mod Lines
pub mod Dispatch
pub mod Drain
pub mod History
pub mod Mapped
mod Tests
use embedded_firmware_simula.Prelude.{
  ℕ, zero, suc, ◌+◌, Bool, true, false, not, ◌&&◌, ◌||◌, List, ◌∷◌, [], Option, none, some, ltb,
  leb, ◌==◌, if◌then◌else◌, update, is_some, Outcome, ok, require, out_of_range, ◌>>=◌, ◌>>◌,
  bit_and,
}
use embedded_firmware_simula.Prelude.Bits.{set_bit, clear_bit, test_bit}
use embedded_firmware_simula.Mmio.Register.{Register}
use embedded_firmware_simula.Mmio.Register
use embedded_firmware_simula.Mmio.Bus.{MmioBus, at_offset, construct, unregister_all}

abbrev pub max_interrupts : ℕ
max_interrupts = 32

pub record InterruptController (H : Type 0) : Type 0 where
  pub base_address : ℕ
  pub enable_register : Register
  pub pending_register : Register
  pub priority_register : Register
  pub registered : ℕ → Bool
  pub priorities : ℕ → ℕ
  pub handlers : ℕ → Option H

-- The registers that the controller shares with the bus.
pub data Port : Type 0 where
  enable_port pending_port priority_port : Port

unfoldable pub enable_address : ℕ → ℕ
enable_address base = at_offset base 0x00

unfoldable pub pending_address : ℕ → ℕ
pending_address base = at_offset base 0x04

unfoldable pub priority_address : ℕ → ℕ
priority_address base = at_offset base 0x08

-- `validateInterruptId(id)`
abbrev pub validate_interrupt_id : ℕ → Outcome (Unit {0})
validate_interrupt_id id = require (not (leb max_interrupts id)) out_of_range

-- The line and its priority that the loop of `dispatch` holds; `none` is the id -1.
abbrev better : Option (ℕ × ℕ) → ℕ → ℕ → Option (ℕ × ℕ)
better none i priority = some (i, priority)
better (some (j, best)) i priority =
    if ltb priority best then some (i, priority) else some (j, best)

-- What the constructor registers; `ref` says what the bus is given for each register.
abbrev pub entries : {R : Type 0} → (Port → R) → ℕ → List (ℕ × R)
entries ref base =
    (enable_address base, ref enable_port)
    ∷ (pending_address base, ref pending_port)
    ∷ (priority_address base, ref priority_port)
    ∷ []

module _ {H : Type 0} where
  abbrev pub created : ℕ → InterruptController H
  created base = record {
    base_address = base;
    enable_register = Register.new (enable_address base) 0;
    pending_register = Register.new (pending_address base) 0;
    priority_register = Register.new (priority_address base) 0;
    registered = λ i. false;
    priorities = λ i. 128;
    handlers = λ i. none;
  }

  unfoldable pub new :
      {R : Type 0} → (Port → R) → MmioBus R → ℕ → MmioBus R × Outcome (InterruptController H)
  unfolding construct Register.new
  new ref bus base = construct bus (entries ref base) (created base)

  -- The destructor's effect on the bus.
  unfoldable pub destroy : {R : Type 0} → MmioBus R → InterruptController H → MmioBus R
  destroy bus c = unregister_all bus (
      enable_address c.base_address
      ∷ pending_address c.base_address
      ∷ priority_address c.base_address
      ∷ [])

  -- What `enable`, `disable`, `trigger` and `clear` do to a valid line: nothing if it is not
  -- registered.
  unfoldable pub enable_line : InterruptController H → ℕ → InterruptController H
  unfolding Register.read Register.write
  enable_line c id =
      if c.registered id
      then record c {
        enable_register =
            Register.write c.enable_register (set_bit (Register.read c.enable_register) id);
      }
      else c

  unfoldable pub disable_line : InterruptController H → ℕ → InterruptController H
  unfolding Register.read Register.write
  disable_line c id =
      if c.registered id
      then record c {
        enable_register =
            Register.write c.enable_register (clear_bit (Register.read c.enable_register) id);
      }
      else c

  unfoldable pub trigger_line : InterruptController H → ℕ → InterruptController H
  unfolding Register.read Register.write
  trigger_line c id =
      if c.registered id
      then record c {
        pending_register =
            Register.write c.pending_register (set_bit (Register.read c.pending_register) id);
      }
      else c

  unfoldable pub clear_line : InterruptController H → ℕ → InterruptController H
  unfolding Register.read Register.write
  clear_line c id =
      if c.registered id
      then record c {
        pending_register =
            Register.write c.pending_register (clear_bit (Register.read c.pending_register) id);
      }
      else c

  unfoldable pub enable : InterruptController H → ℕ → Outcome (InterruptController H)
  unfolding enable_line
  enable c id = do validate_interrupt_id id; ok (enable_line c id)

  unfoldable pub disable : InterruptController H → ℕ → Outcome (InterruptController H)
  unfolding disable_line
  disable c id = do validate_interrupt_id id; ok (disable_line c id)

  unfoldable pub trigger : InterruptController H → ℕ → Outcome (InterruptController H)
  unfolding trigger_line
  trigger c id = do validate_interrupt_id id; ok (trigger_line c id)

  unfoldable pub clear : InterruptController H → ℕ → Outcome (InterruptController H)
  unfolding clear_line
  clear c id = do validate_interrupt_id id; ok (clear_line c id)

  unfoldable pub enabled : InterruptController H → ℕ → Outcome Bool
  unfolding Register.read
  enabled c id = do validate_interrupt_id id; ok (test_bit (Register.read c.enable_register) id)

  unfoldable pub pending : InterruptController H → ℕ → Outcome Bool
  unfolding Register.read
  pending c id = do validate_interrupt_id id; ok (test_bit (Register.read c.pending_register) id)

  unfoldable pub is_registered : InterruptController H → ℕ → Bool
  is_registered c id = if leb max_interrupts id then false else c.registered id

  unfoldable pub register_interrupt :
      InterruptController H → ℕ → Outcome (InterruptController H × Bool)
  register_interrupt c id = do
    validate_interrupt_id id
    if c.registered id
        then ok (c, false)
        else ok (record c { registered = update c.registered id true }, true)

  unfoldable pub unregister_interrupt :
      InterruptController H → ℕ → Outcome (InterruptController H × Bool)
  unfolding disable_line clear_line
  unregister_interrupt c id = do
    validate_interrupt_id id
    let d = clear_line (disable_line c id) id
    if c.registered id
        then ok (
          record d {
            registered = update d.registered id false;
            handlers = update d.handlers id none;
            priorities = update d.priorities id 128;
          },
          true,
        )
        else ok (c, false)

  unfoldable pub set_priority : InterruptController H → ℕ → ℕ → Outcome (InterruptController H)
  set_priority c id priority = do
    validate_interrupt_id id
    if c.registered id then ok (record c { priorities = update c.priorities id priority }) else ok c

  unfoldable pub get_priority : InterruptController H → ℕ → Outcome ℕ
  get_priority c id = do validate_interrupt_id id; ok (c.priorities id)

  abbrev install : InterruptController H → ℕ → Option H → InterruptController H × Bool
  install c id none = (c, false)
  install c id (some h) =
      if c.registered id
      then (record c { handlers = update c.handlers id (some h) }, true)
      else (c, false)

  -- An empty callback is refused.
  unfoldable pub register_handler :
      InterruptController H → ℕ → Option H → Outcome (InterruptController H × Bool)
  register_handler c id callback = do validate_interrupt_id id; ok (install c id callback)

  unfoldable pub unregister_handler :
      InterruptController H → ℕ → Outcome (InterruptController H × Bool)
  unregister_handler c id = do
    validate_interrupt_id id
    if c.registered id
        then ok (record c { handlers = update c.handlers id none }, true)
        else ok (c, false)

  -- The loop of `dispatch` over the lines `i`, `i + 1`, ..., with `n` of them left.
  unfoldable pub scan : ℕ → ℕ → ℕ → InterruptController H → Option (ℕ × ℕ) → Option (ℕ × ℕ)
  scan zero i active c held = held
  scan (suc n) i active c held =
      scan n (i + 1) active c (
        if test_bit active i && is_some (c.handlers i)
        then better held i (c.priorities i)
        else held)

  -- The bits that are both enabled and pending.
  unfoldable pub active_bits : InterruptController H → ℕ
  unfolding Register.read
  active_bits c = bit_and (Register.read c.enable_register) (Register.read c.pending_register)

  -- `dispatch()`: the state before the handler is called, the result, and the handler.
  unfoldable pub dispatch : InterruptController H → InterruptController H × Bool × Option H
  unfolding scan active_bits clear_line
  dispatch c =
      if active_bits c == 0
      then (c, false, none)
      else elim (scan max_interrupts 0 (active_bits c) c none) [
        | none ↦ (c, false, none)
        | some (id, priority) ↦ (clear_line c id, true, (clear_line c id).handlers id)
      ]

  unfoldable pub reset : InterruptController H → InterruptController H
  unfolding Register.reset
  reset c = record c {
    enable_register = Register.reset c.enable_register;
    pending_register = Register.reset c.pending_register;
    priority_register = Register.reset c.priority_register;
    registered = λ i. false;
    priorities = λ i. 128;
    handlers = λ i. none;
  }
