-- ===== src/Gpio.antt =====
-- The GPIO peripheral: include/drivers/gpio/gpio.hpp, src/drivers/gpio/gpio.cpp. A call that throws
-- has changed nothing.
pub mod Pins
pub mod Mapped
mod Tests
use embedded_firmware_simula.Prelude.{
  ℕ, Bool, true, false, not, List, [], ◌∷◌, leb, if◌then◌else◌, Outcome, ok, require, out_of_range,
  logic_error, ◌>>=◌, ◌>>◌,
}
use embedded_firmware_simula.Prelude.Bits.{set_bit, clear_bit, test_bit}
use embedded_firmware_simula.Mmio.Register.{Register}
use embedded_firmware_simula.Mmio.Register
use embedded_firmware_simula.Mmio.Bus.{MmioBus, at_offset, construct, unregister_all}

pub data PinDirection : Type 0 where
  input output : PinDirection

pub data PinState : Type 0 where
  low high : PinState

abbrev pub max_pins : ℕ
max_pins = 32

pub record Gpio : Type 0 where
  pub base_address : ℕ
  pub dir_register : Register
  pub out_register : Register
  pub in_register : Register

pub data Port : Type 0 where
  dir_port out_port in_port : Port

unfoldable pub dir_address : ℕ → ℕ
dir_address base = at_offset base 0x00

unfoldable pub out_address : ℕ → ℕ
out_address base = at_offset base 0x04

unfoldable pub in_address : ℕ → ℕ
in_address base = at_offset base 0x08

abbrev pub created : ℕ → Gpio
created base = record {
  base_address = base;
  dir_register = Register.new (dir_address base) 0;
  out_register = Register.new (out_address base) 0;
  in_register = Register.new (in_address base) 0;
}

-- What the constructor registers; `ref` says what the bus is given for each register.
abbrev pub entries : {R : Type 0} → (Port → R) → ℕ → List (ℕ × R)
entries ref base =
    (dir_address base, ref dir_port)
    ∷ (out_address base, ref out_port)
    ∷ (in_address base, ref in_port)
    ∷ []

unfoldable pub new : {R : Type 0} → (Port → R) → MmioBus R → ℕ → MmioBus R × Outcome Gpio
unfolding construct Register.new
new ref bus base = construct bus (entries ref base) (created base)

unfoldable pub destroy : {R : Type 0} → MmioBus R → Gpio → MmioBus R
destroy bus g =
    unregister_all bus
      (dir_address g.base_address ∷ out_address g.base_address ∷ in_address g.base_address ∷ [])

-- `validatePin(pin)`
abbrev pub validate_pin : ℕ → Outcome (Unit {0})
validate_pin pin = require (not (leb max_pins pin)) out_of_range

unfoldable pub is_output_pin : Gpio → ℕ → Bool
unfolding Register.read
is_output_pin g pin = test_bit (Register.read g.dir_register) pin

-- `reg |= (1U << pin)` or `reg &= ~(1U << pin)`
abbrev pub drive : PinState → Register → ℕ → Register
drive high r pin = Register.write r (set_bit (Register.read r) pin)
drive low r pin = Register.write r (clear_bit (Register.read r) pin)

abbrev pub direct : PinDirection → Register → ℕ → Register
direct output r pin = Register.write r (set_bit (Register.read r) pin)
direct input r pin = Register.write r (clear_bit (Register.read r) pin)

unfoldable pub configure_pin : Gpio → ℕ → PinDirection → Outcome Gpio
unfolding Register.read Register.write
configure_pin g pin direction = do
  validate_pin pin
  ok (record g { dir_register = direct direction g.dir_register pin })

unfoldable pub write_pin : Gpio → ℕ → PinState → Outcome Gpio
unfolding is_output_pin Register.read Register.write
write_pin g pin state = do
  validate_pin pin
  require (is_output_pin g pin) logic_error
  ok (record g {
    out_register = drive state g.out_register pin;
    in_register = drive state g.in_register pin;
  })

abbrev pub level : Bool → PinState
level true = high
level false = low

unfoldable pub read_pin : Gpio → ℕ → Outcome PinState
unfolding Register.read
read_pin g pin = do validate_pin pin; ok (level (test_bit (Register.read g.in_register) pin))

abbrev pub opposite : PinState → PinState
opposite high = low
opposite low = high

unfoldable pub toggle_pin : Gpio → ℕ → Outcome Gpio
unfolding is_output_pin read_pin write_pin
toggle_pin g pin = do
  validate_pin pin
  require (is_output_pin g pin) logic_error
  current ← read_pin g pin
  write_pin g pin (opposite current)

unfoldable pub set_external_input : Gpio → ℕ → PinState → Outcome Gpio
unfolding is_output_pin Register.read Register.write
set_external_input g pin state = do
  validate_pin pin
  require (not (is_output_pin g pin)) logic_error
  ok (record g { in_register = drive state g.in_register pin })

unfoldable pub reset : Gpio → Gpio
unfolding Register.reset
reset g = record g {
  dir_register = Register.reset g.dir_register;
  out_register = Register.reset g.out_register;
  in_register = Register.reset g.in_register;
}
