-- ===== src/Interrupts/Tests.antt =====
-- Witnesses for the interrupt controller's theorems: lines 3 and 5 are enabled, pending and handled.
use embedded_firmware_simula.Prelude.{
  ℕ, ◌≡◌, ◌⊎◌, refl, true, false, ◌||◌, List, [], ◌∷◌, none, some, ◌==◌, if◌then◌else◌, ok, arith,
}
use embedded_firmware_simula.Prelude.Bits.{test_bit}
use embedded_firmware_simula.Mmio.Bus.{MmioBus}
use embedded_firmware_simula.Mmio.Bus
use embedded_firmware_simula.Interrupts.{
  InterruptController, Port, created, dispatch, clear_line, enabled, pending, enable_address,
  pending_address, priority_address, enable_port, pending_port, priority_port, new,
}
use embedded_firmware_simula.Interrupts.Dispatch.{
  is_candidate, Precedes, dispatch_lem, HandlersRegistered,
}
use embedded_firmware_simula.Interrupts.Drain.{
  Serves, candidates, dispatch_times, dispatch_times-drains,
}
use embedded_firmware_simula.Interrupts.History.{
  Call, registers, enables, triggers, unregisters, run, Quiet, created-Quiet, run-Quiet,
}
use embedded_firmware_simula.Interrupts.Mapped.{enabled-bus_write}

abbrev two_lines : InterruptController ℕ
two_lines = record {
  base_address = 0;
  enable_register = record { address = 0; initial_value = 0; value = 40 };
  pending_register = record { address = 4; initial_value = 0; value = 40 };
  priority_register = record { address = 8; initial_value = 0; value = 0 };
  registered = λ i. i == 3 || i == 5;
  priorities = λ i. if i == 5 then 1 else 128;
  handlers = λ i. if i == 3 then some 30 else if i == 5 then some 50 else none;
}

two_lines-HandlersRegistered : HandlersRegistered two_lines
two_lines-HandlersRegistered i = ground arith

dispatch_lem_example :
    ((dispatch two_lines ≡ (two_lines, false, none)) × ((j : ℕ) → is_candidate two_lines j ≡ false))
    ⊎ ((i : ℕ) × (dispatch two_lines ≡ (clear_line two_lines i, true, two_lines.handlers i))
        × (is_candidate two_lines i ≡ true)
        × ((j : ℕ) → (is_candidate two_lines j ≡ false) ⊎ Precedes two_lines i j))
dispatch_lem_example = dispatch_lem two_lines

dispatch_times-drains_example :
    (lines : List ℕ) × Serves 2 two_lines lines
    × ((dispatch (dispatch_times 2 two_lines)).1 ≡ false)
dispatch_times-drains_example =
    dispatch_times-drains 2 two_lines two_lines-HandlersRegistered
      (unfold candidates test_bit in refl)

abbrev some_calls : List (Call ℕ)
some_calls = registers 3 ∷ enables 3 ∷ triggers 3 ∷ unregisters 3 ∷ []

run-Quiet_example : Quiet (run (created {H = ℕ} 0) some_calls) 3
run-Quiet_example = run-Quiet (created 0) some_calls 3 (omega arith) (created-Quiet 0 3)

abbrev mapped : MmioBus Port
mapped = record { registers = (8, priority_port) ∷ (4, pending_port) ∷ (0, enable_port) ∷ [] }

abbrev written : ℕ → ℕ → InterruptController ℕ
written e p = record {
  base_address = 0;
  enable_register = record { address = 0; initial_value = 0; value = e };
  pending_register = record { address = 4; initial_value = 0; value = p };
  priority_register = record { address = 8; initial_value = 0; value = 0 };
  registered = λ i. false;
  priorities = λ i. 128;
  handlers = λ i. none;
}

enabled-bus_write_example :
    (enabled (written 9 0) 3 ≡ ok (test_bit 9 3))
    × (pending (written 9 0) 3 ≡ pending (written 0 0) 3)
    × (pending (written 0 9) 3 ≡ ok (test_bit 9 3))
    × (enabled (written 0 9) 3 ≡ enabled (written 0 0) 3)
unfolding new enable_address pending_address priority_address Bus.write
enabled-bus_write_example =
    enabled-bus_write (record { registers = [] }) mapped 0 9 3 (written 0 0) (written 9 0)
      (written 0 9) refl refl refl (omega arith)
