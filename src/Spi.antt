-- ===== src/Spi.antt =====
-- The SPI controller: include/drivers/spi/spi_controller.hpp, src/drivers/spi/spi_controller.cpp. The
-- devices stand beside it as a function of their identity, and `m_slave` is an identity or none. A
-- device is anything that has the operation of `SpiDevice`, which does not throw.
pub mod Device
pub mod Status
pub mod Exchange
mod Tests
use embedded_firmware_simula.Prelude.{
  ℕ, ◌%◌, ◌^◌, Bool, true, false, not, ◌&&◌, ◌||◌, List, [], ◌∷◌, ◌++◌, Option, none, some, ltb,
  ◌==◌, if◌then◌else◌, Outcome, ok, throws, require, invalid_argument, runtime_error,
  underflow_error, ◌>>=◌, ◌>>◌, bit_or, is_empty, update,
}
use embedded_firmware_simula.Prelude.Bits.{set_bit, clear_bit, test_bit}
use embedded_firmware_simula.Prelude.Fields.{field, with_field}
use embedded_firmware_simula.Mmio.Register.{Register}
use embedded_firmware_simula.Mmio.Register
use embedded_firmware_simula.Mmio.Bus.{MmioBus, at_offset, construct, unregister_all}
use embedded_firmware_simula.Spi.Device.{SpiDevice}

pub record SpiController : Type 0 where
  pub base_address : ℕ
  pub data_register : Register
  pub status_register : Register
  pub control_register : Register
  pub clock_div_register : Register
  pub slave : Option ℕ
  pub rx_buffer : List ℕ
  pub is_busy : Bool
  pub rx_has_data : Bool

-- A controller and the devices that may be attached to it.
pub record SpiWorld (V : Type 0) : Type 0 where
  pub spi : SpiController
  pub devices : ℕ → V

pub data Port : Type 0 where
  data_port status_port control_port clock_div_port : Port

unfoldable pub data_address : ℕ → ℕ
data_address base = at_offset base 0x00

unfoldable pub status_address : ℕ → ℕ
status_address base = at_offset base 0x04

unfoldable pub control_address : ℕ → ℕ
control_address base = at_offset base 0x08

unfoldable pub clock_div_address : ℕ → ℕ
clock_div_address base = at_offset base 0x0c

unfoldable pub enabled : SpiController → Bool
unfolding Register.read
enabled c = test_bit (Register.read c.control_register) 0

unfoldable pub has_data : SpiController → Bool
has_data c = not (is_empty c.rx_buffer) || c.rx_has_data

unfoldable pub clock_divider : SpiController → ℕ
unfolding Register.read
clock_divider c = Register.read c.clock_div_register

unfoldable pub mode : SpiController → ℕ
unfolding Register.read
mode c = field (Register.read c.control_register)

-- The value that `updateStatusRegister` computes.
abbrev pub status_value : Bool → Bool → Bool → ℕ
status_value on busy waiting =
    let s0 : ℕ = if on then bit_or 0 1 else 0 in
    let s1 : ℕ = if busy then bit_or s0 2 else s0 in if waiting then bit_or s1 4 else s1

unfoldable pub update_status_register : SpiController → SpiController
unfolding Register.write
update_status_register c = record c {
  status_register =
      Register.write c.status_register (status_value (enabled c) c.is_busy (has_data c));
}

abbrev pub created : ℕ → ℕ → SpiController
created base divider = record {
  base_address = base;
  data_register = Register.new (data_address base) 0;
  status_register = Register.new (status_address base) 0;
  control_register = Register.new (control_address base) 0;
  clock_div_register = Register.new (clock_div_address base) divider;
  slave = none;
  rx_buffer = [];
  is_busy = false;
  rx_has_data = false;
}

abbrev pub entries : {R : Type 0} → (Port → R) → ℕ → List (ℕ × R)
entries ref base =
    (data_address base, ref data_port)
    ∷ (status_address base, ref status_port)
    ∷ (control_address base, ref control_port)
    ∷ (clock_div_address base, ref clock_div_port)
    ∷ []

-- `setMode` past its check.
abbrev pub with_mode : SpiController → ℕ → SpiController
with_mode c value = record c {
  control_register =
      Register.write c.control_register (with_field (Register.read c.control_register) (value % 4));
}

unfoldable pub set_mode : SpiController → ℕ → Outcome SpiController
unfolding Register.read Register.write
set_mode c value = do require (not (ltb 3 value)) invalid_argument; ok (with_mode c value)

-- The constructor: its arguments are checked before anything is registered.
unfoldable pub new :
    {R : Type 0} → (Port → R) → MmioBus R → ℕ → ℕ → ℕ → MmioBus R × Outcome SpiController
unfolding construct Register.new Register.read Register.write
new ref bus base divider value =
    if divider == 0 || ltb 3 value
    then (bus, throws invalid_argument)
    else construct bus (entries ref base)
        (update_status_register (with_mode (created base divider) value))

unfoldable pub destroy : {R : Type 0} → MmioBus R → SpiController → MmioBus R
destroy bus c = unregister_all bus (
    data_address c.base_address
    ∷ status_address c.base_address
    ∷ control_address c.base_address
    ∷ clock_div_address c.base_address
    ∷ [])

unfoldable pub enable : SpiController → SpiController
unfolding Register.read Register.write
enable c = update_status_register (record c {
  control_register =
      Register.write c.control_register (set_bit (Register.read c.control_register) 0);
})

unfoldable pub disable : SpiController → SpiController
unfolding Register.read Register.write
disable c = update_status_register (record c {
  control_register =
      Register.write c.control_register (clear_bit (Register.read c.control_register) 0);
})

unfoldable pub set_clock_divider : SpiController → ℕ → Outcome SpiController
unfolding Register.write
set_clock_divider c value = do
  require (not (value == 0)) invalid_argument
  ok (record c { clock_div_register = Register.write c.clock_div_register value })

unfoldable pub busy : SpiController → Bool
busy c = c.is_busy

unfoldable pub attach_slave : SpiController → Option ℕ → SpiController
attach_slave c s = record c { slave = s }

unfoldable pub detach_slave : SpiController → SpiController
detach_slave c = record c { slave = none }

-- The buffered byte if there is one, and else the data register's.
abbrev pub take_rx : SpiController → List ℕ → SpiController × ℕ
take_rx c [] = (
  update_status_register (record c { rx_has_data = false }),
  Register.read c.data_register % 2 ^ 8,
)
take_rx c (byte ∷ rest) = (
  update_status_register
      (record c { rx_buffer = rest; rx_has_data = if is_empty rest then false else c.rx_has_data }),
  byte,
)

unfoldable pub read_byte : SpiController → Outcome (SpiController × ℕ)
unfolding Register.read
read_byte c = do
  require (enabled c) runtime_error
  require (has_data c) underflow_error
  ok (take_rx c c.rx_buffer)

unfoldable pub reset : SpiController → SpiController
unfolding Register.reset
reset c =
    let off = disable c in
    update_status_register (record off {
      slave = none;
      rx_buffer = [];
      rx_has_data = false;
      data_register = Register.reset off.data_register;
      control_register = Register.reset off.control_register;
      clock_div_register = Register.reset off.clock_div_register;
      is_busy = false;
    })

module _ {V : Type 0} (device : SpiDevice V) where
  -- The byte that answers: 0xff from no device.
  abbrev pub exchange : Option ℕ → (ℕ → V) → ℕ → (ℕ → V) × ℕ
  exchange none devices byte = (devices, 0xff)
  exchange (some s) devices byte =
      let (v, answer) = device.transfer (devices s) byte in (update devices s v, answer)

  -- What `transfer` and `writeByte` do alike, with the bytes to be buffered.
  abbrev pub shift_byte : SpiWorld V → ℕ → (ℕ → List ℕ) → SpiWorld V × ℕ
  shift_byte w byte buffered =
      let c = update_status_register (record w.spi { is_busy = true }) in
      let (devices, answer) = exchange c.slave w.devices byte in
      (
        record {
          spi = update_status_register (record c {
            data_register = Register.write c.data_register answer;
            rx_buffer = c.rx_buffer ++ buffered answer;
            rx_has_data = true;
            is_busy = false;
          });
          devices = devices;
        },
        answer,
      )

  unfoldable pub transfer : SpiWorld V → ℕ → Outcome (SpiWorld V × ℕ)
  unfolding Register.write
  transfer w byte = do require (enabled w.spi) runtime_error; ok (shift_byte w byte (λ answer. []))

  unfoldable pub write_byte : SpiWorld V → ℕ → Outcome (SpiWorld V)
  unfolding Register.write
  write_byte w byte = do
    require (enabled w.spi) runtime_error
    ok (shift_byte w byte (λ answer. answer ∷ [])).0
