-- ===== src/Registers/Laws.antt =====
-- Reads after writes of the register file.
use embedded_firmware_simula.Prelude.{
  ℕ, ◌≡◌, ◌==◌, ◌<◌, ◌≤◌, ◌↔◌, refl, length, if◌then◌else◌, ok, throws, out_of_range, arith,
  length-set, get_or-set_self, get_or-set_ne, get_or-replicate,
}
use embedded_firmware_simula.Registers.{
  RegisterFile, num_gprs, new, reset, read_register, write_register,
}

-- The array has its sixteen elements.
abbrev pub IsValid : RegisterFile → Type 0
IsValid f = length f.gpr ≡ num_gprs

pub new-IsValid : IsValid new
unfolding new
new-IsValid = refl

-- A write that succeeds is read back at its register, leaves the other general registers, PC, SP
-- and SR alone, and keeps the sixteen registers.
pub read_register-write_register :
    (f g : RegisterFile) (i j v : ℕ)
    → IsValid f
    → write_register f i v ≡ ok g
    → (read_register g j ≡ (if i == j then ok v else read_register f j))
      × IsValid g
      × (g.pc ≡ f.pc)
      × (g.sp ≡ f.sp)
      × (g.sr ≡ f.sr)
unfolding read_register write_register
read_register-write_register f g i j v valid h =
    ground (arith, length-set f.gpr i v, get_or-set_self f.gpr i v 0, get_or-set_ne f.gpr i j v 0)

-- Reads and writes are refused exactly from index sixteen on.
pub access_fails :
    (f : RegisterFile) (i v : ℕ)
    → ((read_register f i ≡ throws out_of_range) ↔ (16 ≤ i))
      × ((write_register f i v ≡ throws out_of_range) ↔ (16 ≤ i))
unfolding read_register write_register
access_fails f i v = ground arith

-- After a reset every register reads 0.
pub reset_lem :
    (f : RegisterFile) (i : ℕ)
    → i < 16
    → (read_register (reset f) i ≡ ok 0)
      × ((reset f).pc ≡ 0)
      × ((reset f).sp ≡ 0)
      × ((reset f).sr ≡ 0)
      × IsValid (reset f)
unfolding read_register reset
reset_lem f i h = (ground (arith, get_or-replicate {0} {A = ℕ} 16 i 0), refl, refl, refl, refl)
