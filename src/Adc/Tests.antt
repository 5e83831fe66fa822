-- ===== src/Adc/Tests.antt =====
-- Witnesses for the ADC controller's theorems, with voltages in thousandths.
use native.Mathlib.Nat.{
  le-div_iff_mul-le, div-le_of_le-mul, div-mul-le_self, mul-div_cancel, mul-le-mul_right, mul_assoc,
}
use embedded_firmware_simula.Prelude.{
  ℕ, ◌+◌, ◌-◌, ◌*◌, ◌/◌, ◌^◌, ◌<◌, ◌≤◌, ◌≡◌, refl, sym, ap, ◌∙◌, true, [], ◌∷◌, ok, ltb, leb,
  leb→le, arith,
}
use embedded_firmware_simula.Prelude.Bits.{test_bit}
use embedded_firmware_simula.Adc.{Adc, created, update_status_register, enabled, sample}
use embedded_firmware_simula.Adc.Voltages.{Double, IsOrdered}
use embedded_firmware_simula.Adc.Sampling
use embedded_firmware_simula.Adc.Sampling.{IsSound, run-IsSound, adc_access_fails}
use embedded_firmware_simula.Adc.Order.{sample_mono}

abbrev thousandths : Double ℕ
thousandths = record {
  nought = 0;
  default_reference = 3300;
  le = leb;
  ge = λ x y. leb y x;
  lt = ltb;
  div = λ x y. x * 1000 / y;
  mul = λ x y. x * y / 1000;
  round = λ x. (x + 500) / 1000 * 1000;
  from_word = λ n. n * 1000;
  to_word = λ x. x / 1000;
}

product : (x n : ℕ) → x * (n * 1000) / 1000 ≡ x * n
product x n =
    ap (λ t. t / 1000) (sym (mul_assoc x n 1000)) ∙ mul-div_cancel (x * n) {n = 1000} (omega arith)

le→leb : (a b : ℕ) → a ≤ b → leb a b ≡ true
le→leb a b h = ground (arith, h)

quotients : (x y r : ℕ) → leb x y ≡ true → 0 < r → x * 1000 / r ≤ y * 1000 / r
quotients x y r q l =
    (le-div_iff_mul-le l).1 (omega (arith, div-mul-le_self (x * 1000) r, leb→le x y q))

thousandths-IsOrdered : IsOrdered thousandths 1000
thousandths-IsOrdered = record {
  le_trans = λ x y z p q. ground (arith, p, q);
  refl_of_le = λ x y p. (ground arith, ground arith);
  ge-le = λ x y. refl;
  le_total = λ x y p q h. ground (arith, h);
  div_bounds =
      λ x r p q h. (ground arith, le→leb _ _ (div-le_of_le-mul r (omega (arith, leb→le x r q))));
  div_mono = λ x y r p q s h. le→leb _ _ (quotients x y r q (ground (arith, p, q, s)));
  mul_bounds = λ x n p q l s. (
    ground arith,
    rw (product x n) (le→leb _ _ (omega (arith, mul-le-mul_right n (leb→le x 1000 q)))),
  );
  mul_mono =
      λ x y n p l s. rw (product x n, product y n) (le→leb _ _ (mul-le-mul_right n (leb→le x y p)));
  round_bounds = λ x n p q s. (ground arith, ground (arith, q));
  round_mono = λ x y p. ground (arith, p);
  to_word_mono = λ x y n p q h s. ground (arith, q);
}

abbrev two_inputs : Adc ℕ
two_inputs = record (created thousandths 32 8 3300 2) {
  control_register = record { address = 32; initial_value = 0; value = 1 };
  channels = 1000 ∷ 2500 ∷ [];
}

run-IsSound_example :
    IsSound
      (Sampling.run thousandths
        (update_status_register (created thousandths 32 10 3300 2))
        (Sampling.enables ∷ Sampling.sets_input 1 1650 ∷ Sampling.samples 1 ∷ Sampling.resets ∷ []))
      2
run-IsSound_example =
    run-IsSound thousandths 32 10 2 3300
      (Sampling.enables ∷ Sampling.sets_input 1 1650 ∷ Sampling.samples 1 ∷ Sampling.resets ∷ [])
      refl

sample_mono_example :
    (b : Adc ℕ) × (low : ℕ) × (c : Adc ℕ) × (high : ℕ) × (sample thousandths two_inputs 0
      ≡ ok (b, low))
    × (sample thousandths two_inputs 1 ≡ ok (c, high))
    × (low ≤ high)
    × (high ≤ 2 ^ 8 - 1)
unfolding enabled test_bit
sample_mono_example =
    sample_mono thousandths 1000 thousandths-IsOrdered two_inputs 0 1 refl refl refl (omega arith)
      (omega arith) refl
