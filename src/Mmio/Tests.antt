-- ===== src/Mmio/Tests.antt =====
-- Witnesses for the theorems on the bus: a store of two registers.
use embedded_firmware_simula.Prelude.{
  ℕ, ◌≡◌, ◌≢◌, refl, Bool, true, false, [], ◌∷◌, ◌==◌, if◌then◌else◌, ok, arith,
}
use embedded_firmware_simula.Mmio.Register.{Register}
use embedded_firmware_simula.Mmio.Bus.{
  MmioBus, RegisterStore, find, contains, register_all, construct, unregister_all, keys, read,
  write,
}
use embedded_firmware_simula.Mmio.Laws.{
  PointsApart, read-write_mapped, unregister_all-construct, register_all_leak,
}

-- Two registers, named by `true` and `false`.
abbrev pick : Register × Register → Bool → Register
pick s true = s.0
pick s false = s.1

abbrev place : Register × Register → Bool → Register → Register × Register
place s true x = (x, s.1)
place s false x = (s.0, x)

pick-place : (s : Register × Register) (r : Bool) (x : Register) → pick (place s r x) r ≡ x
pick-place s true x = refl
pick-place s false x = refl

pick-place_ne :
    (s : Register × Register) (r q : Bool) (x : Register) → r ≢ q → pick (place s r x) q ≡ pick s q
pick-place_ne s true true x n = absurd (n refl)
pick-place_ne s true false x n = refl
pick-place_ne s false true x n = refl
pick-place_ne s false false x n = absurd (n refl)

abbrev pair_store : RegisterStore (Register × Register) Bool
pair_store = record {
  load = pick;
  save = place;
  load-save = pick-place;
  load-save_ne = pick-place_ne;
}

abbrev two_registers : ℕ → Register × Register
two_registers v = (
  record { address = 16; initial_value = 0; value = v },
  record { address = 20; initial_value = 7; value = 7 },
)

abbrev two_mapped : MmioBus Bool
two_mapped = record { registers = (20, false) ∷ (16, true) ∷ [] }

two_mapped-PointsApart : PointsApart pair_store two_mapped.registers
unfolding find
two_mapped-PointsApart a c r q n f g = ground arith

read-write_mapped_example :
    read pair_store (two_registers 9) two_mapped 20
    ≡ (if 16 == 20 then ok 9 else read pair_store (two_registers 0) two_mapped 20)
unfolding write
read-write_mapped_example =
    read-write_mapped pair_store (two_registers 0) (two_registers 9) two_mapped 16 20 9
      two_mapped-PointsApart refl

unregister_all-construct_example :
    unregister_all two_mapped (keys ((16, true) ∷ (20, false) ∷ [])) ≡ record { registers = [] }
unfolding construct
unregister_all-construct_example =
    unregister_all-construct (record { registers = [] }) two_mapped ((16, true) ∷ (20, false) ∷ [])
      (two_registers 0) (two_registers 0) refl

register_all_leak_example :
    ((register_all two_mapped ((24, true) ∷ (20, false) ∷ [])).1 ≡ false)
    × (contains (register_all two_mapped ((24, true) ∷ (20, false) ∷ [])).0 24 ≡ true)
unfolding contains
register_all_leak_example = register_all_leak two_mapped 24 20 true false [] refl refl
