-- ===== src/Prelude/Bits.antt =====
-- Single bits of 32-bit register values: the `|=`, `&= ~` and `&` of the drivers with a mask
-- `1U << i`, and the laws by which one bit is read after another was written.
use Prim.Native.Nat.{
  ℕ, zero, suc, ◌+◌, ◌-◌, ◌*◌, ◌/◌, ◌%◌, ◌^◌, ◌≤◌, ◌<◌, min, max, bit_and, bit_or, digits, bitwise,
  bit_and-bitwise, bit_or-bitwise,
}
use mathlib.Core.Path.{◌≡◌, refl, ap}
use mathlib.Core.Bool.{Bool, true, false, not, ◌&&◌}
use native.Mathlib.Nat.{pow-suc, one-le-pow, pow-le-pow_right}
use native.Mathlib.Omega.{arith}
use embedded_firmware_simula.Prelude.Tests.{◌==◌, if◌then◌else◌}

-- `reg | (1U << i)`
unfoldable pub set_bit : ℕ → ℕ → ℕ
set_bit r i = bit_or r (2 ^ i)

-- `reg & ~(1U << i)` at 32 bits
unfoldable pub clear_bit : ℕ → ℕ → ℕ
clear_bit r i = bit_and r (2 ^ 32 - 1 - 2 ^ i)

-- `(reg & (1U << i)) != 0`
unfoldable pub test_bit : ℕ → ℕ → Bool
test_bit r i = not (bit_and r (2 ^ i) == 0)

-- The recursion behind the native operations does not depend on its fuel.
module _ (onto : ℕ → ℕ) (op : ℕ → ℕ → ℕ) where
  digits-stable : (a m k b : ℕ) → a ≤ m → a ≤ k → digits onto op m a b ≡ digits onto op k a b
  digits-stable a zero zero b u v = refl
  digits-stable zero zero (suc k) b u v = refl
  digits-stable zero (suc m) zero b u v = refl
  digits-stable zero (suc m) (suc k) b u v = refl
  digits-stable (suc a) zero (suc k) b u v = absurd (omega arith)
  digits-stable (suc a) (suc m) zero b u v = absurd (omega arith)
  digits-stable (suc a) (suc m) (suc k) b u v =
      rw (digits-stable (suc a / 2) m k (b / 2) (omega arith) (omega arith))

  bitwise-digit :
      (a b : ℕ)
      → bitwise onto op (suc a) b ≡ bitwise onto op (suc a / 2) (b / 2) * 2 + op (suc a % 2) (b % 2)
  bitwise-digit a b =
      omega (arith, digits-stable (suc a / 2) a (suc a / 2) (b / 2) (omega arith) (omega arith))

pub or_digit : (a b : ℕ) → bit_or a b ≡ bit_or (a / 2) (b / 2) * 2 + max (a % 2) (b % 2)
or_digit zero b = simp bit_or-bitwise (omega arith)
or_digit (suc a) b = simp bit_or-bitwise (bitwise-digit (λ y. y) max a b)

pub and_digit : (a b : ℕ) → bit_and a b ≡ bit_and (a / 2) (b / 2) * 2 + min (a % 2) (b % 2)
and_digit zero b = simp bit_and-bitwise (omega arith)
and_digit (suc a) b = simp bit_and-bitwise (bitwise-digit (λ y. 0) min a b)

-- The i-th binary digit.
digit : ℕ → ℕ → ℕ
digit zero n = n % 2
digit (suc i) n = digit i (n / 2)

digit-lt : (i n : ℕ) → digit i n < 2
unfolding digit
digit-lt zero n = omega arith
digit-lt (suc i) n = digit-lt i (n / 2)

digit-or : (i a b : ℕ) → digit i (bit_or a b) ≡ max (digit i a) (digit i b)
unfolding digit
digit-or zero a b = omega (arith, or_digit a b)
digit-or (suc i) a b =
    let half : bit_or a b / 2 ≡ bit_or (a / 2) (b / 2) = omega (arith, or_digit a b) in
    rw half (digit-or i (a / 2) (b / 2))

digit-and : (i a b : ℕ) → digit i (bit_and a b) ≡ min (digit i a) (digit i b)
unfolding digit
digit-and zero a b = omega (arith, and_digit a b)
digit-and (suc i) a b =
    let half : bit_and a b / 2 ≡ bit_and (a / 2) (b / 2) = omega (arith, and_digit a b) in
    rw half (digit-and i (a / 2) (b / 2))

digit-zero : (i : ℕ) → digit i 0 ≡ 0
unfolding digit
digit-zero zero = refl
digit-zero (suc i) = digit-zero i

digit-pow : (i j : ℕ) → digit i (2 ^ j) ≡ (if j == i then 1 else 0)
unfolding digit
digit-pow zero zero = refl
digit-pow (suc i) zero = ground (arith, digit-zero i)
digit-pow zero (suc j) = ground (arith, pow-suc 2 j)
digit-pow (suc i) (suc j) =
    let half : 2 ^ suc j / 2 ≡ 2 ^ j = omega (arith, pow-suc 2 j) in
    rw half (ground (arith, digit-pow i j))

-- The digits of a complement at width `w`.
digit-flip : (w i n : ℕ) → n < 2 ^ w → i < w → digit i (2 ^ w - 1 - n) ≡ 1 - digit i n
unfolding digit
digit-flip zero i n h lt = absurd (omega arith)
digit-flip (suc w) zero n h lt = omega (arith, pow-suc 2 w)
digit-flip (suc w) (suc i) n h lt =
    let half : (2 ^ suc w - 1 - n) / 2 ≡ 2 ^ w - 1 - n / 2 = omega (arith, pow-suc 2 w) in
    rw half (digit-flip w i (n / 2) (omega (arith, pow-suc 2 w)) (omega arith))

pub and-zero : (a : ℕ) → bit_and a 0 ≡ 0
and-zero a = bound a a (omega arith)
  where
    bound : (n a : ℕ) → a ≤ n → bit_and a 0 ≡ 0
    bound n zero h = refl
    bound zero (suc a) h = absurd (omega arith)
    bound (suc n) (suc a) h = omega (arith, and_digit (suc a) 0, bound n (suc a / 2) (omega arith))

-- A mask of one bit leaves that digit alone.
and-pow : (i r : ℕ) → bit_and r (2 ^ i) ≡ digit i r * 2 ^ i
unfolding digit
and-pow zero r = omega (arith, and_digit r 1, and-zero (r / 2))
and-pow (suc i) r =
    let half : 2 ^ suc i / 2 ≡ 2 ^ i = omega (arith, pow-suc 2 i) in
    let split : bit_and r (2 ^ suc i) ≡ bit_and (r / 2) (2 ^ i) * 2 =
      rw (← half) (omega (arith, and_digit r (2 ^ suc i), pow-suc 2 i)) in
    omega (arith, split, and-pow i (r / 2), ap (λ (t : ℕ). digit i (r / 2) * t) (pow-suc 2 i))

test_bit-digit : (r i : ℕ) → test_bit r i ≡ (digit i r == 1)
unfolding test_bit
test_bit-digit r i = rw (and-pow i r) (grind (arith, digit-lt i r, one-le-pow i 2))

pub pow-lt : (i : ℕ) → i < 32 → 2 ^ i < 2 ^ 32
pow-lt i h =
    let below : 2 ^ suc i ≤ 2 ^ 32 = pow-le-pow_right (omega arith) h in
    omega (arith, below, pow-suc 2 i, one-le-pow i 2)

-- After `reg |= (1U << i)`.
pub test_bit-set_bit :
    (r i j : ℕ) → test_bit (set_bit r i) j ≡ (if i == j then true else test_bit r j)
unfolding set_bit
test_bit-set_bit r i j =
    rw
      (test_bit-digit (bit_or r (2 ^ i)) j, test_bit-digit r j, digit-or j r (2 ^ i), digit-pow j i)
      (ground (arith, digit-lt j r))

-- After `reg &= ~(1U << i)`, of two bits of the word.
pub test_bit-clear_bit :
    (r i j : ℕ)
    → i < 32
    → j < 32
    → test_bit (clear_bit r i) j ≡ (if i == j then false else test_bit r j)
unfolding clear_bit
test_bit-clear_bit r i j hi hj =
    rw
      (
        test_bit-digit (bit_and r (2 ^ 32 - 1 - 2 ^ i)) j,
        test_bit-digit r j,
        digit-and j r (2 ^ 32 - 1 - 2 ^ i),
        digit-flip 32 j (2 ^ i) (pow-lt i hi) hj,
        digit-pow j i,
      )
      (ground (arith, digit-lt j r))

pub test_bit-zero : (i : ℕ) → test_bit 0 i ≡ false
test_bit-zero i = rw (test_bit-digit 0 i, digit-zero i)

pub test_bit-bit_and : (a b i : ℕ) → test_bit (bit_and a b) i ≡ (test_bit a i && test_bit b i)
test_bit-bit_and a b i =
    rw (test_bit-digit (bit_and a b) i, test_bit-digit a i, test_bit-digit b i, digit-and i a b)
      (ground (arith, digit-lt i a, digit-lt i b))

bit_and-le : (a b : ℕ) → bit_and a b ≤ a
bit_and-le a b = below a a (omega arith) b
  where
    below : (n a : ℕ) → a ≤ n → (b : ℕ) → bit_and a b ≤ a
    below n zero h b = simp bit_and-bitwise (omega arith)
    below zero (suc a) h b = absurd (omega arith)
    below (suc n) (suc a) h b =
        omega (arith, and_digit (suc a) b, below n (suc a / 2) (omega arith) (b / 2))

bit_or-lt : (w a b : ℕ) → a < 2 ^ w → b < 2 ^ w → bit_or a b < 2 ^ w
bit_or-lt zero zero zero h k = omega arith
bit_or-lt zero zero (suc b) h k = absurd (omega arith)
bit_or-lt zero (suc a) b h k = absurd (omega arith)
bit_or-lt (suc w) a b h k = omega (
  arith,
  pow-suc 2 w,
  or_digit a b,
  bit_or-lt w (a / 2) (b / 2) (omega (arith, pow-suc 2 w)) (omega (arith, pow-suc 2 w)),
)

-- The writes keep a register a 32-bit word.
pub set_bit-lt : (r i : ℕ) → r < 2 ^ 32 → i < 32 → set_bit r i < 2 ^ 32
unfolding set_bit
set_bit-lt r i h lt = bit_or-lt 32 r (2 ^ i) h (pow-lt i lt)

pub clear_bit-lt : (r i : ℕ) → r < 2 ^ 32 → clear_bit r i < 2 ^ 32
unfolding clear_bit
clear_bit-lt r i h = omega (arith, bit_and-le r (2 ^ 32 - 1 - 2 ^ i))
