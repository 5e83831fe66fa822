-- ===== src/Spi/Tests.antt =====
-- Witnesses for the SPI controller's theorems: a simulated device that has one answer queued.
use embedded_firmware_simula.Prelude.{◌≡◌, ◌++◌, refl, [], ◌∷◌, some, ok, take, replicate}
use embedded_firmware_simula.Prelude.Bits.{test_bit}
use embedded_firmware_simula.Spi.{
  SpiController, SpiWorld, created, update_status_register, with_mode, enabled,
}
use embedded_firmware_simula.Spi.Device.{SimulatedSpiDevice, simulated}
use embedded_firmware_simula.Spi.Status
use embedded_firmware_simula.Spi.Status.{IsReported, run-IsReported, mode-set_mode}
use embedded_firmware_simula.Spi.Exchange.{write_all, read_many, read_many-write_all}

abbrev sensor : SimulatedSpiDevice
sensor = record {
  default_response_byte = 0;
  last_received_byte = 0;
  response_queue = 7 ∷ [];
  received_bytes = 1 ∷ [];
}

abbrev closed : SpiController
closed = created 64 2

abbrev ready : SpiWorld SimulatedSpiDevice
ready = record {
  spi = record closed {
    control_register = record { address = 72; initial_value = 0; value = 1 };
    slave = some 3;
    rx_buffer = 4 ∷ [];
  };
  devices = λ i. sensor;
}

run-IsReported_example : IsReported (
    (Status.run simulated
      (record { spi = update_status_register (with_mode closed 1); devices = λ i. sensor })
      (Status.enables
        ∷ Status.attaches (some 0)
        ∷ Status.writes 5
        ∷ Status.sets_mode 3
        ∷ Status.reads
        ∷ [])).spi)
run-IsReported_example =
    run-IsReported simulated 64 2 1 (λ i. sensor)
      (Status.enables
        ∷ Status.attaches (some 0)
        ∷ Status.writes 5
        ∷ Status.sets_mode 3
        ∷ Status.reads
        ∷ [])

read_many-write_all_example :
    (w' : SpiWorld SimulatedSpiDevice) × (c : SpiController) × (write_all ready (10 ∷ 11 ∷ [])
      ≡ ok w')
    × ((w'.devices 3).received_bytes ≡ (1 ∷ []) ++ 10 ∷ 11 ∷ [])
    × (read_many w'.spi 3 ≡ ok (c, 4 ∷ take 2 ((7 ∷ []) ++ replicate 2 0)))
unfolding enabled test_bit
read_many-write_all_example = read_many-write_all ready 3 (10 ∷ 11 ∷ []) refl refl
