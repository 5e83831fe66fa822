-- ===== src/I2c/Device.antt =====
-- I2C devices: include/drivers/i2c/i2c_device.hpp. The class with virtual operations is a record of
-- those operations over the states of a device.
use embedded_firmware_simula.Prelude.{ℕ, Bool, true, false, List, [], ◌∷◌, ◌++◌}

pub record I2cDevice (V : Type 0) : Type 0 where
  pub address : V → ℕ
  pub on_start : V → Bool → V × Bool
  pub on_write : V → ℕ → V × Bool
  pub on_read : V → V × ℕ
  pub on_stop : V → V

pub record SimulatedI2cDevice : Type 0 where
  pub slave_address : ℕ
  pub default_response : ℕ
  pub ack_enabled : Bool
  pub response_queue : List ℕ
  pub received_bytes : List ℕ

unfoldable pub new : ℕ → ℕ → SimulatedI2cDevice
new address response = record {
  slave_address = address;
  default_response = response;
  ack_enabled = true;
  response_queue = [];
  received_bytes = [];
}

unfoldable pub set_address : SimulatedI2cDevice → ℕ → SimulatedI2cDevice
set_address d address = record d { slave_address = address }

unfoldable pub set_acknowledge : SimulatedI2cDevice → Bool → SimulatedI2cDevice
set_acknowledge d ack = record d { ack_enabled = ack }

unfoldable pub queue_response_byte : SimulatedI2cDevice → ℕ → SimulatedI2cDevice
queue_response_byte d byte = record d { response_queue = d.response_queue ++ byte ∷ [] }

unfoldable pub clear_response_queue : SimulatedI2cDevice → SimulatedI2cDevice
clear_response_queue d = record d { response_queue = [] }

unfoldable pub clear_received_bytes : SimulatedI2cDevice → SimulatedI2cDevice
clear_received_bytes d = record d { received_bytes = [] }

abbrev hear : SimulatedI2cDevice → Bool → ℕ → SimulatedI2cDevice × Bool
hear d false byte = (d, false)
hear d true byte = (record d { received_bytes = d.received_bytes ++ byte ∷ [] }, true)

abbrev respond : SimulatedI2cDevice → List ℕ → SimulatedI2cDevice × ℕ
respond d [] = (d, d.default_response)
respond d (byte ∷ rest) = (record d { response_queue = rest }, byte)

abbrev pub simulated : I2cDevice SimulatedI2cDevice
simulated = record {
  address = λ d. d.slave_address;
  on_start = λ d is_read. (d, d.ack_enabled);
  on_write = λ d byte. hear d d.ack_enabled byte;
  on_read = λ d. respond d d.response_queue;
  on_stop = λ d. d;
}
