-- ===== src/Mmio/Register.antt =====
-- One 32-bit register: include/mmio/register.hpp, src/mmio/register.cpp.
use embedded_firmware_simula.Prelude.{ℕ}

pub record Register : Type 0 where
  pub address : ℕ
  pub initial_value : ℕ
  pub value : ℕ

-- `Register(address, initialValue)`
unfoldable pub new : ℕ → ℕ → Register
new address initial = record { address = address; initial_value = initial; value = initial }

unfoldable pub read : Register → ℕ
read r = r.value

unfoldable pub write : Register → ℕ → Register
write r v = record r { value = v }

unfoldable pub reset : Register → Register
reset r = record r { value = r.initial_value }

-- `address()`
unfoldable pub address_of : Register → ℕ
address_of r = r.address

-- `initialValue()`
unfoldable pub initial_value_of : Register → ℕ
initial_value_of r = r.initial_value
