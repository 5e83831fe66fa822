-- ===== src/I2c.antt =====
-- The I2C controller: include/drivers/i2c/i2c_controller.hpp, src/drivers/i2c/i2c_controller.cpp. The
-- devices stand beside it as a function of their identity; a pointer to one is an identity, or none
-- for `nullptr`. A device is anything that has the operations of `I2cDevice`, which do not throw.
pub mod Device
pub mod Devices
pub mod Status
pub mod Transactions
mod Tests
use embedded_firmware_simula.Prelude.{
  ℕ, ◌%◌, ◌^◌, Bool, true, false, not, ◌&&◌, ◌||◌, List, [], ◌∷◌, ◌++◌, Option, none, some, ◌==◌,
  if◌then◌else◌, Outcome, ok, throws, require, runtime_error, underflow_error, ◌>>=◌, ◌>>◌, bit_or,
  is_empty, update,
}
use embedded_firmware_simula.Prelude.Bits.{set_bit, clear_bit, test_bit}
use embedded_firmware_simula.Prelude.Members.{has, without}
use embedded_firmware_simula.Mmio.Register.{Register}
use embedded_firmware_simula.Mmio.Register
use embedded_firmware_simula.Mmio.Bus.{MmioBus, at_offset, construct, unregister_all}
use embedded_firmware_simula.I2c.Device.{I2cDevice}

pub record I2cController : Type 0 where
  pub base_address : ℕ
  pub data_register : Register
  pub status_register : Register
  pub control_register : Register
  pub addr_register : Register
  pub attached : List ℕ
  pub active_device : Option ℕ
  pub rx_buffer : List ℕ
  pub is_busy : Bool
  pub acknowledged : Bool
  pub is_read_mode : Bool

-- A controller and the devices that may be attached to it.
pub record I2cWorld (V : Type 0) : Type 0 where
  pub i2c : I2cController
  pub devices : ℕ → V

pub data Port : Type 0 where
  data_port status_port control_port addr_port : Port

unfoldable pub data_address : ℕ → ℕ
data_address base = at_offset base 0x00

unfoldable pub status_address : ℕ → ℕ
status_address base = at_offset base 0x04

unfoldable pub control_address : ℕ → ℕ
control_address base = at_offset base 0x08

unfoldable pub slave_addr_address : ℕ → ℕ
slave_addr_address base = at_offset base 0x0c

unfoldable pub enabled : I2cController → Bool
unfolding Register.read
enabled c = test_bit (Register.read c.control_register) 0

unfoldable pub has_data : I2cController → Bool
has_data c = not (is_empty c.rx_buffer)

-- `m_addrRegister->read() & 0x7F`
unfoldable pub slave_address : I2cController → ℕ
unfolding Register.read
slave_address c = Register.read c.addr_register % 2 ^ 7

unfoldable pub busy : I2cController → Bool
busy c = c.is_busy

unfoldable pub last_ack : I2cController → Bool
last_ack c = c.acknowledged

-- The value that `updateStatusRegister` computes.
abbrev pub status_value : Bool → Bool → Bool → Bool → ℕ
status_value on active rx_empty ack =
    let s0 : ℕ = if on then bit_or 0 1 else 0 in
    let s1 : ℕ = if active then bit_or s0 2 else s0 in
    let s2 : ℕ = if not rx_empty then bit_or s1 4 else s1 in
    if not ack && active then bit_or s2 8 else s2

unfoldable pub update_status_register : I2cController → I2cController
unfolding Register.write
update_status_register c = record c {
  status_register =
      Register.write c.status_register
        (status_value (enabled c) c.is_busy (is_empty c.rx_buffer) c.acknowledged);
}

abbrev pub created : ℕ → ℕ → I2cController
created base address = record {
  base_address = base;
  data_register = Register.new (data_address base) 0;
  status_register = Register.new (status_address base) 0;
  control_register = Register.new (control_address base) 0;
  addr_register = Register.new (slave_addr_address base) (address % 2 ^ 7);
  attached = [];
  active_device = none;
  rx_buffer = [];
  is_busy = false;
  acknowledged = false;
  is_read_mode = false;
}

abbrev pub entries : {R : Type 0} → (Port → R) → ℕ → List (ℕ × R)
entries ref base =
    (data_address base, ref data_port)
    ∷ (status_address base, ref status_port)
    ∷ (control_address base, ref control_port)
    ∷ (slave_addr_address base, ref addr_port)
    ∷ []

unfoldable pub new :
    {R : Type 0} → (Port → R) → MmioBus R → ℕ → ℕ → MmioBus R × Outcome I2cController
unfolding construct Register.new
new ref bus base address =
    construct bus (entries ref base) (update_status_register (created base address))

unfoldable pub destroy : {R : Type 0} → MmioBus R → I2cController → MmioBus R
destroy bus c = unregister_all bus (
    data_address c.base_address
    ∷ status_address c.base_address
    ∷ control_address c.base_address
    ∷ slave_addr_address c.base_address
    ∷ [])

unfoldable pub enable : I2cController → I2cController
unfolding Register.read Register.write
enable c = update_status_register (record c {
  control_register =
      Register.write c.control_register (set_bit (Register.read c.control_register) 0);
})

unfoldable pub disable : I2cController → I2cController
unfolding Register.read Register.write
disable c = update_status_register (record c {
  control_register =
      Register.write c.control_register (clear_bit (Register.read c.control_register) 0);
  is_busy = false;
  active_device = none;
})

unfoldable pub set_slave_address : I2cController → ℕ → I2cController
unfolding Register.write
set_slave_address c address = record c {
  addr_register = Register.write c.addr_register (address % 2 ^ 7);
}

unfoldable pub attach_device : I2cController → Option ℕ → I2cController
attach_device c none = c
attach_device c (some d) =
    if has c.attached d then c else record c { attached = c.attached ++ d ∷ [] }

-- `m_activeDevice == device`
abbrev pub is_device : Option ℕ → ℕ → Bool
is_device none d = false
is_device (some a) d = a == d

unfoldable pub detach_device : I2cController → Option ℕ → I2cController
detach_device c none = c
detach_device c (some d) = record c {
  attached = without c.attached d;
  active_device = if is_device c.active_device d then none else c.active_device;
}

unfoldable pub reset : I2cController → I2cController
unfolding Register.reset
reset c =
    let off = disable c in
    update_status_register (record off {
      attached = [];
      active_device = none;
      rx_buffer = [];
      data_register = Register.reset off.data_register;
      control_register = Register.reset off.control_register;
      addr_register = Register.reset off.addr_register;
      is_busy = false;
      acknowledged = false;
    })

module _ {V : Type 0} (device : I2cDevice V) where
  -- The first attached device with the address.
  abbrev pub find : (ℕ → V) → List ℕ → ℕ → Option ℕ
  find devices [] target = none
  find devices (d ∷ ds) target =
      if device.address (devices d) == target then some d else find devices ds target

  -- The part of `start` that asks the device found.
  abbrev pub address_device : I2cWorld V → Bool → Option ℕ → I2cWorld V × Bool
  address_device w is_read none = (
    record w {
      i2c = update_status_register (record w.i2c { acknowledged = false; active_device = none });
    },
    false,
  )
  address_device w is_read (some d) =
      let (v, ack) = device.on_start (w.devices d) is_read in
      (
        record {
          i2c =
              update_status_register
                (record w.i2c { acknowledged = ack; active_device = if ack then some d else none });
          devices = update w.devices d v;
        },
        ack,
      )

  unfoldable pub start : I2cWorld V → Bool → Outcome (I2cWorld V × Bool)
  start w is_read = do
    require (enabled w.i2c) runtime_error
    ok (
        address_device (record w { i2c = record w.i2c { is_busy = true; is_read_mode = is_read } })
          is_read (find w.devices w.i2c.attached (slave_address w.i2c)))

  -- `onStop()` on the active device.
  abbrev pub stop_device : Option ℕ → (ℕ → V) → ℕ → V
  stop_device none devices = devices
  stop_device (some d) devices = update devices d (device.on_stop (devices d))

  unfoldable pub stop : I2cWorld V → I2cWorld V
  stop w = record {
    i2c = update_status_register (record w.i2c { active_device = none; is_busy = false });
    devices = stop_device w.i2c.active_device w.devices;
  }

  -- `onWrite(byte)` on the active device.
  abbrev pub write_device : Option ℕ → (ℕ → V) → ℕ → (ℕ → V) × Bool
  write_device none devices byte = (devices, false)
  write_device (some d) devices byte =
      let (v, ack) = device.on_write (devices d) byte in (update devices d v, ack)

  -- `writeByte` past its checks.
  abbrev pub written : I2cWorld V → ℕ → I2cWorld V × Bool
  written w byte =
      let (devices, ack) = write_device w.i2c.active_device w.devices byte in
      (
        record {
          i2c = update_status_register (record w.i2c {
            acknowledged = ack;
            data_register = Register.write w.i2c.data_register byte;
          });
          devices = devices;
        },
        ack,
      )

  unfoldable pub write_byte : I2cWorld V → ℕ → Outcome (I2cWorld V × Bool)
  unfolding Register.write
  write_byte w byte = do
    require (enabled w.i2c) runtime_error
    require w.i2c.is_busy runtime_error
    ok (written w byte)

  -- The part of `readByte` that asks a device.
  abbrev pub asked : I2cWorld V → ℕ → I2cWorld V × ℕ
  asked w d =
      let (v, byte) = device.on_read (w.devices d) in
      (
        record {
          i2c =
              update_status_register
                (record w.i2c { data_register = Register.write w.i2c.data_register byte });
          devices = update w.devices d v;
        },
        byte,
      )

  abbrev pub read_device : I2cWorld V → Bool → Option ℕ → Outcome (I2cWorld V × ℕ)
  read_device w false active = throws underflow_error
  read_device w true none = throws underflow_error
  read_device w true (some d) = ok (asked w d)

  abbrev pub take_rx : I2cWorld V → List ℕ → Outcome (I2cWorld V × ℕ)
  take_rx w [] = read_device w w.i2c.is_busy w.i2c.active_device
  take_rx w (byte ∷ rest) =
      ok (record w { i2c = update_status_register (record w.i2c { rx_buffer = rest }) }, byte)

  unfoldable pub read_byte : I2cWorld V → Outcome (I2cWorld V × ℕ)
  unfolding Register.write
  read_byte w = do require (enabled w.i2c) runtime_error; take_rx w w.i2c.rx_buffer
