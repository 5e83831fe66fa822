-- ===== src/Prelude/Fields.antt =====
-- Fields of two bits in a 32-bit register value: `(reg & ~(3U << 1)) | (value << 1)`.
use Prim.Native.Nat.{ℕ, ◌*◌, ◌/◌, ◌%◌, ◌≤◌, bit_and, bit_or}
use mathlib.Core.Path.{◌≡◌, refl}
use native.Mathlib.Omega.{arith}
use embedded_firmware_simula.Prelude.Bits.{test_bit, and_digit, or_digit, and-zero}

-- `((1 << 32) - 1) - (3 << 1)`
abbrev outside : ℕ
outside = 4294967289

unfoldable pub with_field : ℕ → ℕ → ℕ
with_field r v = bit_or (bit_and r outside) (v * 2)

unfoldable pub field : ℕ → ℕ
field r = bit_and r 6 / 2

and-three : (n : ℕ) → bit_and n 3 ≡ n % 4
and-three n = omega (arith, and_digit n 3, and_digit (n / 2) 1, and-zero (n / 2 / 2))

and-one : (n : ℕ) → bit_and n 1 ≡ n % 2
and-one n = omega (arith, and_digit n 1, and-zero (n / 2))

field-mod : (n : ℕ) → field n ≡ n / 2 % 4
unfolding field
field-mod n = omega (arith, and_digit n 6, and-three (n / 2))

-- The digits of a value with a new field.
with_field_digits :
    (r v : ℕ)
    → (with_field r v % 2 ≡ r % 2) × (with_field r v / 2 ≡ bit_or (bit_and r outside / 2) v)
unfolding with_field
with_field_digits r v =
    let half : v * 2 / 2 ≡ v = omega arith in
    let split = rw half at (or_digit (bit_and r outside) (v * 2)) in
    (omega (arith, split, and_digit r outside), omega (arith, split))

pub field-with_field : (r v : ℕ) → v ≤ 3 → field (with_field r v) ≡ v
field-with_field r v small =
    let a = bit_and r outside in
    omega (
      arith,
      field-mod (with_field r v),
      with_field_digits r v,
      or_digit (a / 2) v,
      or_digit (a / 2 / 2) (v / 2),
      and_digit r outside,
      and_digit (r / 2) (outside / 2),
      and_digit (r / 2 / 2) (outside / 2 / 2),
    )

pub test_bit-with_field : (r v : ℕ) → test_bit (with_field r v) 0 ≡ test_bit r 0
unfolding test_bit
test_bit-with_field r v = rw (and-one (with_field r v), and-one r, (with_field_digits r v).0) refl
