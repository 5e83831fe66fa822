-- ===== src/Memory/Laws.antt =====
-- Reads after writes and the bounds check of src/memory/memory.cpp.
use embedded_firmware_simula.Prelude.{
  ℕ, ◌≡◌, ◌≤◌, ◌↔◌, ◌==◌, length, ltb, if◌then◌else◌, ok, throws, out_of_range, arith, length-set,
  length-replicate, get_or-set_self, get_or-set_ne, get_or-replicate,
}
use embedded_firmware_simula.Memory.{Memory, new, size, read, write, clear}

-- A write that succeeds is read back at its address, changes no other byte, and keeps the size.
pub read-write :
    (m m' : Memory) (a c v : ℕ)
    → write m a v ≡ ok m'
    → (read m' c ≡ (if a == c then ok v else read m c)) × (size m' ≡ size m)
unfolding read write size
read-write m m' a c v h = ground (
  arith,
  length-set m.storage a v,
  get_or-set_self m.storage a v 0,
  get_or-set_ne m.storage a c v 0,
)

-- A read or a write fails exactly when the address is not below the size.
pub access_fails :
    (m : Memory) (a v : ℕ)
    → ((read m a ≡ throws out_of_range) ↔ (size m ≤ a))
      × ((write m a v ≡ throws out_of_range) ↔ (size m ≤ a))
unfolding read write size
access_fails m a v = ground arith

-- A new and a cleared memory read 0 wherever they can be read, and clearing keeps the size.
pub clear_lem :
    (m : Memory) (n a : ℕ)
    → (read (clear m) a ≡ (if ltb a (size m) then ok 0 else throws out_of_range))
      × (size (clear m) ≡ size m)
      × (read (new n) a ≡ (if ltb a n then ok 0 else throws out_of_range))
      × (size (new n) ≡ n)
unfolding read clear new size
clear_lem m n a = ground (
  arith,
  length-replicate {0} {A = ℕ} (length m.storage) 0,
  get_or-replicate {0} {A = ℕ} (length m.storage) a 0,
  length-replicate {0} {A = ℕ} n 0,
  get_or-replicate {0} {A = ℕ} n a 0,
)
