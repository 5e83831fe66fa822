-- ===== src/Memory.antt =====
-- Byte-addressable memory: include/memory/memory.hpp, src/memory/memory.cpp. Addresses and sizes
-- are 64 bits wide and are never computed with here; a byte is a number below 256.
pub mod Laws
use embedded_firmware_simula.Prelude.{
  ℕ, Bool, List, length, get_or, set, replicate, ltb, if◌then◌else◌, Outcome, ok, throws,
  out_of_range,
}

pub record Memory : Type 0 where
  pub storage : List ℕ

-- `Memory(size)`
unfoldable pub new : ℕ → Memory
new n = record { storage = replicate n 0 }

unfoldable pub size : Memory → ℕ
size m = length m.storage

unfoldable pub is_valid_address : Memory → ℕ → Bool
is_valid_address m a = ltb a (length m.storage)

unfoldable pub read : Memory → ℕ → Outcome ℕ
unfolding is_valid_address
read m a = if is_valid_address m a then ok (get_or m.storage a 0) else throws out_of_range

unfoldable pub write : Memory → ℕ → ℕ → Outcome Memory
unfolding is_valid_address
write m a v =
    if is_valid_address m a
    then ok (record m { storage = set m.storage a v })
    else throws out_of_range

unfoldable pub clear : Memory → Memory
clear m = record m { storage = replicate (length m.storage) 0 }
