-- ===== src/Gpio/Mapped.antt =====
-- The GPIO registers as the bus sees them.
use embedded_firmware_simula.Prelude.{ℕ, ◌<◌, ◌≡◌, ◌≢◌, refl, ok, arith}
use embedded_firmware_simula.Prelude.Bits.{test_bit}
use embedded_firmware_simula.Mmio.Register.{Register}
use embedded_firmware_simula.Mmio.Bus.{MmioBus, RegisterStore, find, register_all}
use embedded_firmware_simula.Mmio.Bus
use embedded_firmware_simula.Mmio.Laws.{construct-ok}
use embedded_firmware_simula.Mmio.Decoding
use embedded_firmware_simula.Mmio.Decoding.{register_all-Decodes}
use embedded_firmware_simula.Gpio.{
  Gpio, Port, dir_port, out_port, in_port, dir_address, in_address, new, created, entries,
  is_output_pin, read_pin, level,
}

abbrev pub load : Gpio → Port → Register
load g dir_port = g.dir_register
load g out_port = g.out_register
load g in_port = g.in_register

abbrev pub save : Gpio → Port → Register → Gpio
save g dir_port x = record g { dir_register = x }
save g out_port x = record g { out_register = x }
save g in_port x = record g { in_register = x }

pub load-save : (g : Gpio) (r : Port) (x : Register) → load (save g r x) r ≡ x
load-save g dir_port x = refl
load-save g out_port x = refl
load-save g in_port x = refl

pub load-save_ne : (g : Gpio) (r q : Port) (x : Register) → r ≢ q → load (save g r x) q ≡ load g q
load-save_ne g r q x n = ground arith

abbrev pub ports : RegisterStore Gpio Port
ports = record { load = load; save = save; load-save = load-save; load-save_ne = load-save_ne }

-- A GPIO that could be constructed sees a bus write to its DIR address as its pins' directions, and
-- one to its IN address as their levels.
pub read_pin-bus_write :
    (bus bus' : MmioBus Port) (base v q : ℕ) (g h k : Gpio)
    → new (λ r. r) bus base ≡ (bus', ok g)
    → Bus.write ports g bus' (dir_address base) v ≡ ok h
    → Bus.write ports g bus' (in_address base) v ≡ ok k
    → q < 32
    → (is_output_pin h q ≡ test_bit v q)
      × (read_pin h q ≡ read_pin g q)
      × (read_pin k q ≡ ok (level (test_bit v q)))
      × (is_output_pin k q ≡ is_output_pin g q)
unfolding is_output_pin read_pin
read_pin-bus_write bus bus' base v q g h k eg eh ek hq =
    let (registered, same) =
      construct-ok bus bus' (entries (λ r. r) base) (created base) g (unfold new in eg) in
    let decodes = register_all-Decodes bus (entries (λ r. r) base) bus' registered in
    ground (
      arith,
      Decoding.write-decoded ports g bus' (dir_address base) v dir_port decodes.0,
      Decoding.write-decoded ports g bus' (in_address base) v in_port decodes.1.1.0,
    )
