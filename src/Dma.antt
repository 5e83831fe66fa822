-- ===== src/Dma.antt =====
-- The DMA controller: include/drivers/dma/dma_controller.hpp, src/drivers/dma/dma_controller.cpp.
-- The objects that it may be attached to lie in a state `S`, which a `System` reads and writes; a
-- pointer to one of them is a Boolean, false for `nullptr`.
pub mod Copying
pub mod Transfer
mod Tests
use Prim.Native.String.{String}
use embedded_firmware_simula.Prelude.{
  ℕ, ◌+◌, ◌%◌, ◌^◌, ◌≡◌, Bool, true, false, not, ◌&&◌, ◌||◌, some, leb, ◌==◌, if◌then◌else◌,
  Outcome, ok, throws,
}
use embedded_firmware_simula.Mmio.Bus.{MmioBus, RegisterStore}
use embedded_firmware_simula.Mmio.Bus
use embedded_firmware_simula.Memory.{Memory, is_valid_address}
use embedded_firmware_simula.Memory
use embedded_firmware_simula.Uart.{Uart, data_address, read_byte, write_byte}
use embedded_firmware_simula.Interrupts.{InterruptController, trigger}
use embedded_firmware_simula.Events.{EventScheduler, schedule}

-- Where the objects lie that a controller works on. What a bus points to may be the registers of
-- the UART: the store and the UART then share them.
pub record System (S R T H : Type 0) : Type 0 where
  pub bus : S → MmioBus R
  pub store : RegisterStore S R
  pub memory : S → Memory
  pub set_memory : S → Memory → S
  pub uart : S → Uart
  pub set_uart : S → Uart → S
  pub interrupts : S → InterruptController H
  pub set_interrupts : S → InterruptController H → S
  pub events : S → EventScheduler T
  pub set_events : S → EventScheduler T → S
  pub memory-set_memory : (s : S) (m : Memory) → memory (set_memory s m) ≡ m
  pub memory-set_interrupts :
      (s : S) (c : InterruptController H) → memory (set_interrupts s c) ≡ memory s
  pub memory-set_events : (s : S) (e : EventScheduler T) → memory (set_events s e) ≡ memory s
  pub interrupts-set_memory : (s : S) (m : Memory) → interrupts (set_memory s m) ≡ interrupts s
  pub interrupts-set_interrupts :
      (s : S) (c : InterruptController H) → interrupts (set_interrupts s c) ≡ c
  pub interrupts-set_events :
      (s : S) (e : EventScheduler T) → interrupts (set_events s e) ≡ interrupts s

pub record DmaController : Type 0 where
  pub memory : Bool
  pub mmio_bus : Bool
  pub interrupt_controller : Bool
  pub uart : Bool
  pub scheduler : Bool
  pub interrupt_id : ℕ
  pub source_address : ℕ
  pub destination_address : ℕ
  pub length : ℕ
  pub current_src : ℕ
  pub current_dst : ℕ
  pub transferred_bytes : ℕ
  pub src_increment : Bool
  pub dst_increment : Bool
  pub user_set_src_increment : Bool
  pub user_set_dst_increment : Bool
  pub busy : Bool
  pub completed : Bool
  pub error : Bool

-- The constructor.
abbrev pub new : Bool → Bool → Bool → Bool → DmaController
new memory mmio_bus interrupt_controller uart = record {
  memory = memory;
  mmio_bus = mmio_bus;
  interrupt_controller = interrupt_controller;
  uart = uart;
  scheduler = false;
  interrupt_id = 0;
  source_address = 0;
  destination_address = 0;
  length = 0;
  current_src = 0;
  current_dst = 0;
  transferred_bytes = 0;
  src_increment = true;
  dst_increment = true;
  user_set_src_increment = false;
  user_set_dst_increment = false;
  busy = false;
  completed = false;
  error = false;
}

-- The calls that attach an object or, with `nullptr`, none; `detachUART` and `detachScheduler` are
-- `attach_uart` and `attach_scheduler` with false.
unfoldable pub attach_memory : DmaController → Bool → DmaController
attach_memory d given = record d { memory = given }

unfoldable pub attach_mmio : DmaController → Bool → DmaController
attach_mmio d given = record d { mmio_bus = given }

unfoldable pub attach_interrupt_controller : DmaController → Bool → ℕ → DmaController
attach_interrupt_controller d given id = record d {
  interrupt_controller = given;
  interrupt_id = id;
}

unfoldable pub detach_interrupt_controller : DmaController → DmaController
detach_interrupt_controller d = record d { interrupt_controller = false; interrupt_id = 0 }

unfoldable pub attach_uart : DmaController → Bool → DmaController
attach_uart d given = record d { uart = given }

unfoldable pub attach_scheduler : DmaController → Bool → DmaController
attach_scheduler d given = record d { scheduler = given }

unfoldable pub set_increments : DmaController → Bool → Bool → DmaController
set_increments d source destination = record d {
  src_increment = source;
  dst_increment = destination;
  user_set_src_increment = true;
  user_set_dst_increment = true;
}

unfoldable pub stop : DmaController → DmaController
stop d = record d { busy = false }

unfoldable pub reset : DmaController → DmaController
reset d = record d {
  source_address = 0;
  destination_address = 0;
  length = 0;
  current_src = 0;
  current_dst = 0;
  transferred_bytes = 0;
  src_increment = true;
  dst_increment = true;
  user_set_src_increment = false;
  user_set_dst_increment = false;
  busy = false;
  completed = false;
  error = false;
}

-- What an address means to a transfer.
pub data Place : Type 0 where
  uart_place bus_place memory_place nowhere : Place

abbrev pub is_nowhere : Place → Bool
is_nowhere nowhere = true
is_nowhere _ = false

module _ {S R T H : Type 0} (sys : System S R T H) where
  abbrev is_uart_data : DmaController → S → ℕ → Bool
  is_uart_data d s a = d.uart && a == data_address (sys.uart s).base_address

  abbrev is_mmio_reg : DmaController → S → ℕ → Bool
  is_mmio_reg d s a = d.mmio_bus && Bus.contains (sys.bus s) a

  -- The tests that `start` and `step` make of an address, in their order.
  unfoldable pub locate : DmaController → S → ℕ → Place
  locate d s a =
      if is_uart_data d s a
      then uart_place
      else if is_mmio_reg d s a
      then bus_place
      else if d.memory && is_valid_address (sys.memory s) a
      then memory_place
      else nowhere

  unfoldable pub configure : DmaController → S → ℕ → ℕ → ℕ → DmaController × Bool
  configure d s source destination length = if d.busy then (d, false) else (
    record d {
      source_address = source;
      destination_address = destination;
      length = length;
      current_src = source;
      current_dst = destination;
      transferred_bytes = 0;
      busy = false;
      completed = false;
      error = false;
      src_increment =
          if not d.user_set_src_increment
          then not (is_uart_data d s source || is_mmio_reg d s source)
          else d.src_increment;
      dst_increment =
          if not d.user_set_dst_increment
          then not (is_uart_data d s destination || is_mmio_reg d s destination)
          else d.dst_increment;
    },
    true,
  )

  -- `m_interruptController->trigger(m_interruptId)`, if there is one.
  abbrev pub signal : DmaController → S → S × Outcome (Unit {0})
  signal d s =
      if d.interrupt_controller
      then elim (trigger (sys.interrupts s) d.interrupt_id) [
        | ok c ↦ (sys.set_interrupts s c, ok tt)
        | throws e ↦ (s, throws e)
      ]
      else (s, ok tt)

  abbrev returning : {A : Type 0} → A → Outcome (Unit {0}) → Outcome A
  returning a (ok u) = ok a
  returning a (throws e) = throws e

  unfoldable pub start : DmaController → S → DmaController × S × Outcome Bool
  start d s =
      let (s', outcome) = signal d s in
      if not d.memory && not d.mmio_bus && not d.uart
      then (record d { error = true }, s, ok false)
      else if d.length == 0
      then (record d { busy = false; completed = true; error = false }, s', returning true outcome)
      else if is_nowhere (locate d s d.source_address)
          || is_nowhere (locate d s d.destination_address)
      then (record d { error = true; busy = false; completed = false }, s, ok false)
      else (
        record d {
          current_src = d.source_address;
          current_dst = d.destination_address;
          transferred_bytes = 0;
          busy = true;
          completed = false;
          error = false;
        },
        s,
        ok true,
      )

  abbrev with_uart : S → Outcome (Uart × ℕ) → S × Outcome ℕ
  with_uart s (ok (u, byte)) = (sys.set_uart s u, ok byte)
  with_uart s (throws e) = (s, throws e)

  abbrev low_byte : Outcome ℕ → Outcome ℕ
  low_byte (ok v) = ok (v % 256)
  low_byte (throws e) = throws e

  -- A byte from a place that is not `nowhere`.
  unfoldable pub fetch : S → Place → ℕ → S × Outcome ℕ
  fetch s uart_place a = with_uart s (read_byte (sys.uart s))
  fetch s bus_place a = (s, low_byte (Bus.read sys.store s (sys.bus s) a))
  fetch s memory_place a = (s, Memory.read (sys.memory s) a)
  fetch s nowhere a = (s, ok 0)

  abbrev put_uart : S → Outcome Uart → S × Outcome (Unit {0})
  put_uart s (ok u) = (sys.set_uart s u, ok tt)
  put_uart s (throws e) = (s, throws e)

  abbrev put_bus : S → Outcome S → S × Outcome (Unit {0})
  put_bus s (ok s') = (s', ok tt)
  put_bus s (throws e) = (s, throws e)

  abbrev put_memory : S → Outcome Memory → S × Outcome (Unit {0})
  put_memory s (ok m) = (sys.set_memory s m, ok tt)
  put_memory s (throws e) = (s, throws e)

  unfoldable pub deliver : S → Place → ℕ → ℕ → S × Outcome (Unit {0})
  deliver s uart_place a byte = put_uart s (write_byte (sys.uart s) byte)
  deliver s bus_place a byte = put_bus s (Bus.write sys.store s (sys.bus s) a byte)
  deliver s memory_place a byte = put_memory s (Memory.write (sys.memory s) a byte)
  deliver s nowhere a byte = (s, ok tt)

  -- The counters after a byte.
  abbrev pub advanced : DmaController → DmaController
  advanced d = record d {
    transferred_bytes = (d.transferred_bytes + 1) % 2 ^ 64;
    current_src = if d.src_increment then (d.current_src + 1) % 2 ^ 64 else d.current_src;
    current_dst = if d.dst_increment then (d.current_dst + 1) % 2 ^ 64 else d.current_dst;
  }

  abbrev pub finished : DmaController → DmaController
  finished d = record d { busy = false; completed = true }

  abbrev pub failed : DmaController → DmaController
  failed d = record d { error = true; busy = false }

  module _ (nothing : T) where
    abbrev pub announce : DmaController → S × Outcome (Unit {0}) → S × Outcome (Unit {0})
    announce d (s, throws e) = (s, throws e)
    announce d (s, ok u) =
        if d.scheduler
        then (
          sys.set_events s (schedule (sys.events s) (some nothing) 0 "DMA Transfer Complete").0,
          ok tt,
        )
        else (s, ok tt)

    -- The end of `step`, after a byte has arrived.
    unfoldable pub conclude : DmaController → S → DmaController × S × Outcome (Unit {0})
    conclude d s =
        let (s', outcome) = announce d (signal d s) in
        if leb d.length d.transferred_bytes then (finished d, s', outcome) else (d, s, ok tt)

    abbrev arrived : DmaController → S × Outcome (Unit {0}) → DmaController × S × Outcome (Unit {0})
    arrived d (s, throws e) = (d, s, throws e)
    arrived d (s, ok u) = conclude (advanced d) s

    abbrev fetched : DmaController → S × Outcome ℕ → DmaController × S × Outcome (Unit {0})
    fetched d (s, throws e) = (d, s, throws e)
    fetched d (s, ok byte) =
        if is_nowhere (locate d s d.current_dst)
        then (failed d, s, ok tt)
        else arrived d (deliver s (locate d s d.current_dst) d.current_dst byte)

    unfoldable pub step : DmaController → S → DmaController × S × Outcome (Unit {0})
    step d s =
        if not d.busy
        then (d, s, ok tt)
        else if leb d.length d.transferred_bytes
        then (finished d, s, ok tt)
        else if is_nowhere (locate d s d.current_src)
        then (failed d, s, ok tt)
        else fetched d (fetch s (locate d s d.current_src) d.current_src)

    unfoldable pub tick : DmaController → S → DmaController × S × Outcome (Unit {0})
    tick d s = step d s

-- `busy()`, `completed()` and `hasError()`
unfoldable pub status : DmaController → Bool × Bool × Bool
status d = (d.busy, d.completed, d.error)

-- `sourceAddress()`, `destinationAddress()`, `length()` and `transferredBytes()`
unfoldable pub progress : DmaController → ℕ × ℕ × ℕ × ℕ
progress d = (d.source_address, d.destination_address, d.length, d.transferred_bytes)

-- `interruptId()`, `sourceIncrement()` and `destinationIncrement()`
unfoldable pub settings : DmaController → ℕ × Bool × Bool
settings d = (d.interrupt_id, d.src_increment, d.dst_increment)
