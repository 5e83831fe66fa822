-- ===== src/Adc/Voltages.antt =====
-- What the ADC controller (src/drivers/adc/adc_controller.cpp) does with a `double`: two constants,
-- comparisons, quotients, products, `std::round`, and the conversions from and to 32-bit integers.
use embedded_firmware_simula.Prelude.{ℕ, ◌^◌, ◌<◌, ◌≤◌, ◌≡◌, Bool, true, false}

pub record Double (W : Type 0) : Type 0 where
  pub nought : W
  pub default_reference : W
  pub le : W → W → Bool
  pub ge : W → W → Bool
  pub lt : W → W → Bool
  pub div : W → W → W
  pub mul : W → W → W
  pub round : W → W
  pub from_word : ℕ → W
  pub to_word : W → ℕ

-- The laws of the numbers that the conversion meets: a quotient of two positive numbers of which the
-- divisor is the larger is between 0 and 1, such a ratio of an integer is between 0 and that
-- integer, rounding stays between integers, and each step keeps the order. NaN is the value that is
-- not `<=` itself.
pub record IsOrdered {W : Type 0} (d : Double W) (one : W) : Type 0 where
  pub le_trans : (x y z : W) → d.le x y ≡ true → d.le y z ≡ true → d.le x z ≡ true
  pub refl_of_le : (x y : W) → d.le x y ≡ true → (d.le x x ≡ true) × (d.le y y ≡ true)
  pub ge-le : (x y : W) → d.ge x y ≡ d.le y x
  pub le_total : (x y : W) → d.le x x ≡ true → d.le y y ≡ true → d.le x y ≡ false → d.le y x ≡ true
  pub div_bounds :
      (x r : W)
      → d.le x d.nought ≡ false
      → d.le x r ≡ true
      → d.le r x ≡ false
      → (d.le d.nought (d.div x r) ≡ true) × (d.le (d.div x r) one ≡ true)
  pub div_mono :
      (x y r : W)
      → d.le x d.nought ≡ false
      → d.le x y ≡ true
      → d.le y r ≡ true
      → d.le r y ≡ false
      → d.le (d.div x r) (d.div y r) ≡ true
  pub mul_bounds :
      (x : W) (n : ℕ)
      → d.le d.nought x ≡ true
      → d.le x one ≡ true
      → 0 < n
      → n < 2 ^ 32
      → (d.le d.nought (d.mul x (d.from_word n)) ≡ true)
        × (d.le (d.mul x (d.from_word n)) (d.from_word n) ≡ true)
  pub mul_mono :
      (x y : W) (n : ℕ)
      → d.le x y ≡ true
      → 0 < n
      → n < 2 ^ 32
      → d.le (d.mul x (d.from_word n)) (d.mul y (d.from_word n)) ≡ true
  pub round_bounds :
      (x : W) (n : ℕ)
      → d.le d.nought x ≡ true
      → d.le x (d.from_word n) ≡ true
      → n < 2 ^ 32
      → (d.le d.nought (d.round x) ≡ true) × (d.le (d.round x) (d.from_word n) ≡ true)
  pub round_mono : (x y : W) → d.le x y ≡ true → d.le (d.round x) (d.round y) ≡ true
  pub to_word_mono :
      (x y : W) (n : ℕ)
      → d.le d.nought x ≡ true
      → d.le x y ≡ true
      → d.le y (d.from_word n) ≡ true
      → n < 2 ^ 32
      → d.to_word x ≤ d.to_word y
