-- ===== src/I2c/Tests.antt =====
-- Witnesses for the I2C controller's theorems: a simulated device with the address 80.
use embedded_firmware_simula.Prelude.{◌≡◌, refl, true, false, [], ◌∷◌, some, ok, update}
use embedded_firmware_simula.Prelude.Bits.{test_bit}
use embedded_firmware_simula.I2c.{I2cWorld, created, update_status_register, enabled, slave_address}
use embedded_firmware_simula.I2c.Device.{SimulatedI2cDevice, simulated}
use embedded_firmware_simula.I2c.Status
use embedded_firmware_simula.I2c.Status.{IsOrderly, run-IsOrderly}
use embedded_firmware_simula.I2c.Transactions.{
  sends, asks, transaction, hear_all, transaction-device,
}

abbrev memory_chip : SimulatedI2cDevice
memory_chip = record {
  slave_address = 80;
  default_response = 255;
  ack_enabled = true;
  response_queue = 9 ∷ [];
  received_bytes = [];
}

abbrev ready : I2cWorld SimulatedI2cDevice
ready = record {
  i2c = record (created 128 80) {
    control_register = record { address = 136; initial_value = 0; value = 1 };
    addr_register = record { address = 140; initial_value = 80; value = 80 };
    attached = 4 ∷ [];
  };
  devices = λ i. memory_chip;
}

run-IsOrderly_example : IsOrderly (
    (Status.run simulated
      (record { i2c = update_status_register (created 128 80); devices = λ i. memory_chip })
      (Status.enables
        ∷ Status.attaches (some 4)
        ∷ Status.starts false
        ∷ Status.detaches (some 4)
        ∷ [])).i2c)
run-IsOrderly_example =
    run-IsOrderly simulated 128 80 (λ i. memory_chip)
      (Status.enables
        ∷ Status.attaches (some 4)
        ∷ Status.starts false
        ∷ Status.detaches (some 4)
        ∷ [])

transaction-device_example :
    (w' : I2cWorld SimulatedI2cDevice) × (transaction simulated ready false
        (sends 1 ∷ asks ∷ asks ∷ [])
      ≡ ok (w', (hear_all simulated memory_chip (sends 1 ∷ asks ∷ asks ∷ [])).1))
    × (w'.devices 4
        ≡ update ready.devices 4 (hear_all simulated memory_chip (sends 1 ∷ asks ∷ asks ∷ [])).0 4)
unfolding enabled slave_address test_bit
transaction-device_example =
    transaction-device simulated ready 4 4 false (sends 1 ∷ asks ∷ asks ∷ []) refl refl refl refl
