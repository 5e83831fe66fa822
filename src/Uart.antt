-- ===== src/Uart.antt =====
-- The UART: include/drivers/uart/uart.hpp, src/drivers/uart/uart.cpp. A call that throws has
-- changed nothing. The front of a queue is the head of its list.
pub mod Status
pub mod Fifo
mod Tests
use embedded_firmware_simula.Prelude.{
  ℕ, Bool, true, false, not, List, [], ◌∷◌, ◌++◌, ◌==◌, if◌then◌else◌, Outcome, ok, throws, require,
  invalid_argument, runtime_error, underflow_error, ◌>>=◌, ◌>>◌, bit_or, is_empty, length,
}
use embedded_firmware_simula.Prelude.Bits.{set_bit, clear_bit, test_bit}
use embedded_firmware_simula.Mmio.Register.{Register}
use embedded_firmware_simula.Mmio.Register
use embedded_firmware_simula.Mmio.Bus.{MmioBus, at_offset, construct, unregister_all}

pub record Uart : Type 0 where
  pub base_address : ℕ
  pub data_register : Register
  pub status_register : Register
  pub control_register : Register
  pub baud_register : Register
  pub tx_fifo : List ℕ
  pub rx_fifo : List ℕ

pub data Port : Type 0 where
  data_port status_port control_port baud_port : Port

unfoldable pub data_address : ℕ → ℕ
data_address base = at_offset base 0x00

unfoldable pub status_address : ℕ → ℕ
status_address base = at_offset base 0x04

unfoldable pub control_address : ℕ → ℕ
control_address base = at_offset base 0x08

unfoldable pub baud_address : ℕ → ℕ
baud_address base = at_offset base 0x0c

unfoldable pub enabled : Uart → Bool
unfolding Register.read
enabled u = test_bit (Register.read u.control_register) 0

-- The value that `updateStatusRegister` computes.
abbrev pub status_value : Bool → Bool → Bool → ℕ
status_value tx_empty rx_empty on =
    let s0 : ℕ = if tx_empty then bit_or 0 1 else 0 in
    let s1 : ℕ = if not rx_empty then bit_or s0 2 else s0 in if on then bit_or s1 4 else s1

unfoldable pub update_status_register : Uart → Uart
unfolding enabled Register.write
update_status_register u = record u {
  status_register =
      Register.write u.status_register
        (status_value (is_empty u.tx_fifo) (is_empty u.rx_fifo) (enabled u));
}

abbrev pub created : ℕ → ℕ → Uart
created base baud = record {
  base_address = base;
  data_register = Register.new (data_address base) 0;
  status_register = Register.new (status_address base) 1;
  control_register = Register.new (control_address base) 0;
  baud_register = Register.new (baud_address base) baud;
  tx_fifo = [];
  rx_fifo = [];
}

abbrev pub entries : {R : Type 0} → (Port → R) → ℕ → List (ℕ × R)
entries ref base =
    (data_address base, ref data_port)
    ∷ (status_address base, ref status_port)
    ∷ (control_address base, ref control_port)
    ∷ (baud_address base, ref baud_port)
    ∷ []

-- The constructor: the baud rate is checked before anything is registered.
unfoldable pub new : {R : Type 0} → (Port → R) → MmioBus R → ℕ → ℕ → MmioBus R × Outcome Uart
unfolding construct Register.new
new ref bus base baud =
    if baud == 0
    then (bus, throws invalid_argument)
    else construct bus (entries ref base) (update_status_register (created base baud))

unfoldable pub destroy : {R : Type 0} → MmioBus R → Uart → MmioBus R
destroy bus u = unregister_all bus (
    data_address u.base_address
    ∷ status_address u.base_address
    ∷ control_address u.base_address
    ∷ baud_address u.base_address
    ∷ [])

unfoldable pub enable : Uart → Uart
unfolding Register.read Register.write
enable u = update_status_register (record u {
  control_register =
      Register.write u.control_register (set_bit (Register.read u.control_register) 0);
})

unfoldable pub disable : Uart → Uart
unfolding Register.read Register.write
disable u = update_status_register (record u {
  control_register =
      Register.write u.control_register (clear_bit (Register.read u.control_register) 0);
})

unfoldable pub write_byte : Uart → ℕ → Outcome Uart
unfolding enabled Register.write
write_byte u byte = do
  require (enabled u) runtime_error
  ok (
      update_status_register (record u {
        tx_fifo = u.tx_fifo ++ byte ∷ [];
        data_register = Register.write u.data_register byte;
      }))

abbrev pub take_rx : Uart → List ℕ → Outcome (Uart × ℕ)
take_rx u [] = throws underflow_error
take_rx u (byte ∷ rest) = ok (
  update_status_register
      (record u { rx_fifo = rest; data_register = Register.write u.data_register byte }),
  byte,
)

unfoldable pub read_byte : Uart → Outcome (Uart × ℕ)
unfolding enabled Register.write
read_byte u = do require (enabled u) runtime_error; take_rx u u.rx_fifo

unfoldable pub push_received_byte : Uart → ℕ → Outcome Uart
unfolding enabled
push_received_byte u byte = do
  require (enabled u) runtime_error
  ok (update_status_register (record u { rx_fifo = u.rx_fifo ++ byte ∷ [] }))

unfoldable pub has_received_data : Uart → Bool
has_received_data u = not (is_empty u.rx_fifo)

unfoldable pub tx_empty : Uart → Bool
tx_empty u = is_empty u.tx_fifo

unfoldable pub set_baud_rate : Uart → ℕ → Outcome Uart
unfolding Register.write
set_baud_rate u baud = do
  require (not (baud == 0)) invalid_argument
  ok (record u { baud_register = Register.write u.baud_register baud })

abbrev pub take_tx : Uart → List ℕ → Outcome (Uart × ℕ)
take_tx u [] = throws underflow_error
take_tx u (byte ∷ rest) = ok (update_status_register (record u { tx_fifo = rest }), byte)

-- The other end of the line takes a byte out, whether the UART is enabled or not.
unfoldable pub pop_tx_byte : Uart → Outcome (Uart × ℕ)
pop_tx_byte u = take_tx u u.tx_fifo

unfoldable pub reset : Uart → Uart
unfolding disable Register.reset
reset u =
    let d = disable u in
    update_status_register (record d {
      tx_fifo = [];
      rx_fifo = [];
      data_register = Register.reset d.data_register;
      control_register = Register.reset d.control_register;
    })

unfoldable pub baud_rate : Uart → ℕ
unfolding Register.read
baud_rate u = Register.read u.baud_register

unfoldable pub tx_fifo_size : Uart → ℕ
tx_fifo_size u = length u.tx_fifo

unfoldable pub rx_fifo_size : Uart → ℕ
rx_fifo_size u = length u.rx_fifo
