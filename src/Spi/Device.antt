-- ===== src/Spi/Device.antt =====
-- SPI devices: include/drivers/spi/spi_device.hpp. The class with a virtual `transfer` is a record of
-- that operation over the states of a device; a byte sent gives the device's next state and its answer.
use embedded_firmware_simula.Prelude.{ℕ, List, [], ◌∷◌, ◌++◌}

pub record SpiDevice (V : Type 0) : Type 0 where
  pub transfer : V → ℕ → V × ℕ

pub record SimulatedSpiDevice : Type 0 where
  pub default_response_byte : ℕ
  pub last_received_byte : ℕ
  pub response_queue : List ℕ
  pub received_bytes : List ℕ

unfoldable pub new : ℕ → SimulatedSpiDevice
new default = record {
  default_response_byte = default;
  last_received_byte = 0;
  response_queue = [];
  received_bytes = [];
}

unfoldable pub set_default_response_byte : SimulatedSpiDevice → ℕ → SimulatedSpiDevice
set_default_response_byte d byte = record d { default_response_byte = byte }

unfoldable pub queue_response_byte : SimulatedSpiDevice → ℕ → SimulatedSpiDevice
queue_response_byte d byte = record d { response_queue = d.response_queue ++ byte ∷ [] }

unfoldable pub clear_response_queue : SimulatedSpiDevice → SimulatedSpiDevice
clear_response_queue d = record d { response_queue = [] }

unfoldable pub clear_received_bytes : SimulatedSpiDevice → SimulatedSpiDevice
clear_received_bytes d = record d { received_bytes = []; last_received_byte = 0 }

abbrev pub answer : SimulatedSpiDevice → List ℕ → SimulatedSpiDevice × ℕ
answer d [] = (d, d.default_response_byte)
answer d (byte ∷ rest) = (record d { response_queue = rest }, byte)

unfoldable pub transfer : SimulatedSpiDevice → ℕ → SimulatedSpiDevice × ℕ
transfer d byte =
    let heard = record d {
      last_received_byte = byte;
      received_bytes = d.received_bytes ++ byte ∷ [];
    } in
    answer heard d.response_queue

abbrev pub simulated : SpiDevice SimulatedSpiDevice
simulated = record { transfer = transfer }
