-- ===== src/Hal/Tests.antt =====
-- Witnesses for the HAL's theorems: a HAL over a controller with a simulated device at 80.
use embedded_firmware_simula.Prelude.{◌≡◌, refl, true, [], ◌∷◌, ok, update}
use embedded_firmware_simula.Prelude.Bits.{test_bit}
use embedded_firmware_simula.I2c.{created, enabled}
use embedded_firmware_simula.I2c.Device.{SimulatedI2cDevice, simulated}
use embedded_firmware_simula.Hal.I2c.{HalWorld, available, request_from, is_attached}
use embedded_firmware_simula.Hal.Requests.{answers, read_all, holding, request_from-read_all}

abbrev sensor : SimulatedI2cDevice
sensor = record {
  slave_address = 80;
  default_response = 255;
  ack_enabled = true;
  response_queue = 9 ∷ [];
  received_bytes = [];
}

abbrev ready : HalWorld SimulatedI2cDevice
ready = record {
  hal = record { attached = true; rx_queue = 7 ∷ [] };
  bus = record {
    i2c = record (created 128 80) {
      control_register = record { address = 136; initial_value = 0; value = 1 };
      attached = 4 ∷ [];
    };
    devices = λ i. sensor;
  };
}

request_from-read_all_example :
    (w' : HalWorld SimulatedI2cDevice) × (request_from simulated ready 208 2 ≡ (w', ok 2))
    × (available w'.hal ≡ 2)
    × (read_all simulated 2 w' ≡ (holding simulated w' [], ok (9 ∷ 255 ∷ [])))
    × (w'.bus.devices 4 ≡ update ready.bus.devices 4 (record sensor { response_queue = [] }) 4)
unfolding is_attached enabled test_bit answers
request_from-read_all_example =
    request_from-read_all simulated ready 208 2 4 4 refl refl refl refl refl
