-- ===== src/Adc/Order.antt =====
-- The values that the ADC controller samples (src/drivers/adc/adc_controller.cpp), for voltages that
-- obey the laws of `IsOrdered`.
use native.Mathlib.Nat.{pow-le-pow_right}
use embedded_firmware_simula.Prelude.{
  ℕ, ◌-◌, ◌^◌, ◌<◌, ◌≤◌, ◌≡◌, refl, true, false, ok, arith, lt→ltb, length, get_or, Bool-cases, inl,
  inr,
}
use embedded_firmware_simula.Adc.{
  Adc, bad_resolution, enabled, sample, max_digital, convert, quantized, stored,
}
use embedded_firmware_simula.Adc.Sampling.{convert-le, max_digital-lt}
use embedded_firmware_simula.Adc.Voltages.{Double, IsOrdered}

module _ {W : Type 0} (double : Double W) (one : W) (o : IsOrdered double one) where
  -- Two positive voltages below the reference.
  quantized_mono :
      (x y r : W) (most : ℕ)
      → double.le x double.nought ≡ false
      → double.le y double.nought ≡ false
      → double.le x y ≡ true
      → double.le x r ≡ true
      → double.le y r ≡ true
      → double.le r x ≡ false
      → double.le r y ≡ false
      → 0 < most
      → most < 2 ^ 32
      → quantized double x r most ≤ quantized double y r most
  quantized_mono x y r most px py xy xr yr rx ry pos small =
      let (x0, x1) = o.div_bounds x r px xr rx in
      let (y0, y1) = o.div_bounds y r py yr ry in
      let (mx0, mx1) = o.mul_bounds (double.div x r) most x0 x1 pos small in
      let (my0, my1) = o.mul_bounds (double.div y r) most y0 y1 pos small in
      let (rx0, rx1) = o.round_bounds _ most mx0 mx1 small in
      let (ry0, ry1) = o.round_bounds _ most my0 my1 small in
      let ratios = o.div_mono x y r px xy yr ry in
      let products = o.mul_mono (double.div x r) (double.div y r) most ratios pos small in
      let rounded = o.round_mono _ _ products in
      let words = o.to_word_mono _ _ most rx0 rounded ry1 small in ground (arith, words)

  -- A number above one that is not up to 0, and a number below one that is not from `r` on.
  up : (x y z : W) → double.le x y ≡ true → double.le x z ≡ false → double.le y z ≡ false
  up x y z xy xz = elim (Bool-cases (double.le y z)) [
    | inl e ↦ cc (o.le_trans x y z xy e, xz)
    | inr e ↦ e
  ]

  down : (x y r : W) → double.le x y ≡ true → double.le r y ≡ false → double.le r x ≡ false
  down x y r xy ry = elim (Bool-cases (double.le r x)) [
    | inl e ↦ cc (o.le_trans r x y e xy, ry)
    | inr e ↦ e
  ]

  -- A voltage that is not up to 0 or not below the reference, or a larger one.
  convert_mono :
      (x y r : W) (most : ℕ)
      → double.le x y ≡ true
      → double.le r r ≡ true
      → 0 < most
      → most < 2 ^ 32
      → convert double x r most ≤ convert double y r most
  convert_mono x y r most xy rr pos small = elim (Bool-cases (double.le x double.nought)) [
    | inl e ↦ rw e (omega arith)
    | inr px ↦ elim (Bool-cases (double.le r y)) [
      | inl ry ↦ rw (up x y _ xy px, o.ge-le y r, ry) (convert-le double x r most)
      | inr ry ↦
          rw (px, up x y _ xy px, o.ge-le x r, o.ge-le y r, down x y r xy ry, ry)
            (quantized_mono x y r most px (up x y _ xy px) xy
              (o.le_total r x rr (o.refl_of_le x y xy).0 (down x y r xy ry))
              (o.le_total r y rr (o.refl_of_le x y xy).1 ry) (down x y r xy ry) ry pos small)
    ]
  ]

  -- Of two samples taken in the same state, the one of the lower voltage is not the larger, and
  -- neither is above the largest value of the resolution, if the voltages obey the laws of
  -- IsOrdered, the reference is a number, the controller is enabled and both channels exist.
  pub sample_mono :
      (a : Adc W) (i j : ℕ)
      → enabled a ≡ true
      → bad_resolution a.resolution_bits ≡ false
      → double.le a.reference a.reference ≡ true
      → i < length a.channels
      → j < length a.channels
      → double.le (get_or a.channels i double.nought) (get_or a.channels j double.nought) ≡ true
      → (b : Adc W) × (low : ℕ) × (c : Adc W) × (high : ℕ) × (sample double a i ≡ ok (b, low))
        × (sample double a j ≡ ok (c, high))
        × (low ≤ high)
        × (high ≤ 2 ^ a.resolution_bits - 1)
  unfolding sample
  sample_mono a i j on allowed number inside_i inside_j ordered =
      let x = get_or a.channels i double.nought in
      let y = get_or a.channels j double.nought in
      let most = max_digital double a in
      let wide : 8 ≤ a.resolution_bits = ground (arith, allowed) in
      let least : 2 ^ 8 ≤ 2 ^ a.resolution_bits = pow-le-pow_right (omega arith) wide in
      (
        (stored double a (convert double x a.reference most)).0,
        convert double x a.reference most,
        (stored double a (convert double y a.reference most)).0,
        convert double y a.reference most,
        simp (on, lt→ltb i _ inside_i) refl,
        simp (on, lt→ltb j _ inside_j) refl,
        convert_mono x y a.reference most ordered number (omega (arith, least))
            (omega (arith, max_digital-lt a.resolution_bits allowed)),
        convert-le double y a.reference most,
      )
