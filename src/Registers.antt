-- ===== src/Registers.antt =====
-- The CPU's register file: include/cpu/registers/register_file.hpp,
-- src/cpu/registers/register_file.cpp. Sixteen general registers and PC, SP, SR.
pub mod Laws
use embedded_firmware_simula.Prelude.{
  ℕ, Bool, List, get_or, set, replicate, leb, not, if◌then◌else◌, Outcome, ok, throws, out_of_range,
  require, ◌>>=◌, ◌>>◌,
}

abbrev pub num_gprs : ℕ
num_gprs = 16

pub record RegisterFile : Type 0 where
  pub gpr : List ℕ
  pub pc : ℕ
  pub sp : ℕ
  pub sr : ℕ

-- `validateIndex(index)`
abbrev pub validate_index : ℕ → Outcome (Unit {0})
validate_index i = require (not (leb num_gprs i)) out_of_range

unfoldable pub reset : RegisterFile → RegisterFile
reset f = record { gpr = replicate num_gprs 0; pc = 0; sp = 0; sr = 0 }

-- `RegisterFile()`: the fields are those that `reset` gives.
unfoldable pub new : RegisterFile
new = record { gpr = replicate num_gprs 0; pc = 0; sp = 0; sr = 0 }

unfoldable pub read_register : RegisterFile → ℕ → Outcome ℕ
read_register f i = do validate_index i; ok (get_or f.gpr i 0)

unfoldable pub write_register : RegisterFile → ℕ → ℕ → Outcome RegisterFile
write_register f i v = do validate_index i; ok (record f { gpr = set f.gpr i v })

unfoldable pub write_pc : RegisterFile → ℕ → RegisterFile
write_pc f v = record f { pc = v }

unfoldable pub write_sp : RegisterFile → ℕ → RegisterFile
write_sp f v = record f { sp = v }

unfoldable pub write_status : RegisterFile → ℕ → RegisterFile
write_status f v = record f { sr = v }

unfoldable pub read_pc : RegisterFile → ℕ
read_pc f = f.pc

unfoldable pub read_sp : RegisterFile → ℕ
read_sp f = f.sp

unfoldable pub read_status : RegisterFile → ℕ
read_status f = f.sr
