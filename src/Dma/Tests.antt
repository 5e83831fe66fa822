-- ===== src/Dma/Tests.antt =====
-- Witness for the transfer: three bytes of a memory of eight are moved down by two.
use embedded_firmware_simula.Prelude.{ℕ, ◌≡◌, inl, refl, true, false, [], ◌∷◌, ok, arith}
use embedded_firmware_simula.Mmio.Register.{Register}
use embedded_firmware_simula.Mmio.Bus.{MmioBus, RegisterStore}
use embedded_firmware_simula.Memory.{Memory}
use embedded_firmware_simula.Uart.{Uart, created}
use embedded_firmware_simula.Interrupts.{InterruptController}
use embedded_firmware_simula.Interrupts
use embedded_firmware_simula.Events.{EventScheduler}
use embedded_firmware_simula.Dma.{System, DmaController, new, configure, start}
use embedded_firmware_simula.Dma.Transfer.{steps, Finished, transfer_lem}

-- A board with one register on its bus.
record Board : Type 0 where
  pub register : Register
  pub bus : MmioBus (Unit {0})
  pub memory : Memory
  pub uart : Uart
  pub interrupts : InterruptController ℕ
  pub events : EventScheduler ℕ

abbrev one_register : RegisterStore Board (Unit {0})
one_register = record {
  load = λ s r. s.register;
  save = λ s r x. record s { register = x };
  load-save = λ s r x. refl;
  load-save_ne = λ s r q x n. absurd (n refl);
}

abbrev board_system : System Board (Unit {0}) ℕ ℕ
board_system = record {
  bus = λ s. s.bus;
  store = one_register;
  memory = λ s. s.memory;
  set_memory = λ s m. record s { memory = m };
  uart = λ s. s.uart;
  set_uart = λ s u. record s { uart = u };
  interrupts = λ s. s.interrupts;
  set_interrupts = λ s c. record s { interrupts = c };
  events = λ s. s.events;
  set_events = λ s e. record s { events = e };
  memory-set_memory = λ s m. refl;
  memory-set_interrupts = λ s c. refl;
  memory-set_events = λ s e. refl;
  interrupts-set_memory = λ s m. refl;
  interrupts-set_interrupts = λ s c. refl;
  interrupts-set_events = λ s e. refl;
}

abbrev board : Board
board = record {
  register = record { address = 0; initial_value = 0; value = 0 };
  bus = record { registers = (0, tt) ∷ [] };
  memory = record { storage = 0 ∷ 1 ∷ 2 ∷ 3 ∷ 4 ∷ 5 ∷ 6 ∷ 7 ∷ [] };
  uart = created 256 9600;
  interrupts = Interrupts.created 64;
  events = record { next_id = 1; events = [] };
}

abbrev attached : DmaController
attached = record (new true false true false) { interrupt_id = 2 }

transfer_lem_example :
    let (d1, s1, started) =
      start board_system (configure board_system attached board 4 2 3).0 board in
    let (d2, s2, outcome) = steps board_system 9 3 d1 s1 in
    (started ≡ ok true) × Finished board_system 9 d2 s2 outcome attached board 4 2 3 3
transfer_lem_example =
    transfer_lem board_system 9 attached board 4 2 2 3 refl (refl, refl, refl) (refl, refl)
      (inl (omega arith)) (omega arith) (omega arith) (omega arith) (omega arith)
