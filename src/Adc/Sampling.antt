-- ===== src/Adc/Sampling.antt =====
-- The ADC controller under driver calls (src/drivers/adc/adc_controller.cpp): its registers, its
-- resolution, its range and its errors.
use native.Mathlib.Nat.{pow-le-pow_right}
use embedded_firmware_simula.Prelude.{
  ℕ, ◌-◌, ◌^◌, ◌<◌, ◌≤◌, ◌≡◌, ◌↔◌, refl, ◌∙◌, Bool, true, false, not, List, [], ◌∷◌, Outcome, ok,
  throws, arith, ltb, Bool-cases, inl, inr, require, ◌>>◌, set, length, length-set,
  length-replicate, get_or, invalid_argument, out_of_range, runtime_error,
}
use embedded_firmware_simula.Prelude.Bits.{test_bit}
use embedded_firmware_simula.Mmio.Register
use embedded_firmware_simula.Adc.{
  Adc, enabled, status_value, update_status_register, created, bad_resolution, enable, disable,
  set_resolution, set_reference_voltage, set_analog_input, analog_input, sample, reset, max_digital,
  convert, stored, cleared,
}
use embedded_firmware_simula.Adc.Voltages.{Double}

status_value_bits :
    (on : Bool) → (test_bit (status_value on) 0 ≡ on) × (test_bit (status_value on) 1 ≡ on)
unfolding test_bit
status_value_bits true = (refl, refl)
status_value_bits false = (refl, refl)

module _ {W : Type 0} where
  pub record IsSound (a : Adc W) (count : ℕ) : Type 0 where
    pub enabled_bit : test_bit a.status_register.value 0 ≡ enabled a
    pub complete_bit : test_bit a.status_register.value 1 ≡ enabled a
    pub allowed : bad_resolution a.resolution_bits ≡ false
    pub res_shown : a.res_register.value ≡ a.resolution_bits
    pub data_shown : a.data_register.value ≡ a.sampled
    pub data_initial : a.data_register.initial_value ≡ 0
    pub in_range : a.sampled < 2 ^ 12
    pub channels_kept : length a.channels ≡ count

  updated :
      (a : Adc W) (count : ℕ)
      → bad_resolution a.resolution_bits ≡ false
      → a.res_register.value ≡ a.resolution_bits
      → a.data_register.value ≡ a.sampled
      → a.data_register.initial_value ≡ 0
      → a.sampled < 2 ^ 12
      → length a.channels ≡ count
      → IsSound (update_status_register a) count
  unfolding update_status_register enabled
  updated a count allowed res data_ initial range kept =
      let bits = status_value_bits (enabled a) in
      record {
        enabled_bit = bits.0;
        complete_bit = bits.1;
        allowed = allowed;
        res_shown = res;
        data_shown = data_;
        data_initial = initial;
        in_range = range;
        channels_kept = kept;
      }

pub data Call (W : Type 0) : Type 0 where
  enables disables resets : Call W
  sets_resolution samples : ℕ → Call W
  sets_reference : W → Call W
  sets_input : ℕ → W → Call W

module _ {W : Type 0} where
  -- A call that throws leaves the controller as it was.
  abbrev after : Adc W → Outcome (Adc W) → Adc W
  after a (ok b) = b
  after a (throws e) = a

  abbrev after_sample : Adc W → Outcome (Adc W × ℕ) → Adc W
  after_sample a (ok (b, raw)) = b
  after_sample a (throws e) = a

pub max_digital-lt : (bits : ℕ) → bad_resolution bits ≡ false → 2 ^ bits - 1 < 2 ^ 12
max_digital-lt bits allowed =
    let small : bits ≤ 12 = ground (arith, allowed) in
    let most : 2 ^ bits ≤ 2 ^ 12 = pow-le-pow_right (omega arith) small in omega (arith, most)

module _ {W : Type 0} (double : Double W) where
  unfoldable pub step : Adc W → Call W → Adc W
  step a enables = enable a
  step a disables = disable a
  step a resets = reset double a
  step a (sets_resolution bits) = after a (set_resolution a bits)
  step a (samples channel) = after_sample a (sample double a channel)
  step a (sets_reference voltage) = after a (set_reference_voltage double a voltage)
  step a (sets_input channel voltage) = after a (set_analog_input double a channel voltage)

  unfoldable pub run : Adc W → List (Call W) → Adc W
  unfolding step
  run a [] = a
  run a (c ∷ cs) = run (step a c) cs

  -- No conversion is above the largest value of the resolution, whatever the voltages are.
  pub convert-le : (vin vref : W) (most : ℕ) → convert double vin vref most ≤ most
  convert-le vin vref most = ground arith

  sample-IsSound :
      (a : Adc W) (count channel : ℕ)
      → IsSound a count
      → IsSound (after_sample a (sample double a channel)) count
  unfolding sample
  sample-IsSound a count channel t = gated (enabled a) (ltb channel (length a.channels))
    where
      gated :
          (on inside : Bool)
          → IsSound
              (after_sample a (do
                require on runtime_error
                require inside out_of_range
                ok (
                    stored double a (
                      convert double
                        (get_or a.channels channel double.nought)
                        a.reference
                        (max_digital double a)))))
              count
      gated false inside = t
      gated true false = t
      gated true true =
          updated _ count t.allowed t.res_shown refl t.data_initial
            (omega (
              arith,
              convert-le (get_or a.channels channel double.nought) a.reference
                  (max_digital double a),
              max_digital-lt a.resolution_bits t.allowed,
            ))
            t.channels_kept

  set_resolution-IsSound :
      (a : Adc W) (count bits : ℕ)
      → IsSound a count
      → IsSound (after a (set_resolution a bits)) count
  unfolding set_resolution enabled
  set_resolution-IsSound a count bits t = elim (Bool-cases (bad_resolution bits)) [
    | inl e ↦ rw e t
    | inr e ↦ rw e (record {
      enabled_bit = t.enabled_bit;
      complete_bit = t.complete_bit;
      allowed = e;
      res_shown = refl;
      data_shown = t.data_shown;
      data_initial = t.data_initial;
      in_range = t.in_range;
      channels_kept = t.channels_kept;
    })
  ]

  disable-IsSound : (a : Adc W) (count : ℕ) → IsSound a count → IsSound (disable a) count
  unfolding disable
  disable-IsSound a count t =
      updated _ count t.allowed t.res_shown t.data_shown t.data_initial t.in_range t.channels_kept

  step-IsSound : (a : Adc W) (count : ℕ) (c : Call W) → IsSound a count → IsSound (step a c) count
  unfolding step enable reset set_reference_voltage set_analog_input enabled
  step-IsSound a count enables t =
      updated _ count t.allowed t.res_shown t.data_shown t.data_initial t.in_range t.channels_kept
  step-IsSound a count disables t = disable-IsSound a count t
  step-IsSound a count resets t =
      let u = disable-IsSound a count t in
      updated (cleared double (disable a)) count refl refl u.data_initial u.data_initial
        (omega arith)
        (length-replicate (length (disable a).channels) double.nought ∙ u.channels_kept)
  step-IsSound a count (sets_resolution bits) t = set_resolution-IsSound a count bits t
  step-IsSound a count (samples channel) t = sample-IsSound a count channel t
  step-IsSound a count (sets_reference voltage) t =
      elim (Bool-cases (double.le voltage double.nought)) [
        | inl e ↦ rw e t
        | inr e ↦ rw e (record {
          enabled_bit = t.enabled_bit;
          complete_bit = t.complete_bit;
          allowed = t.allowed;
          res_shown = t.res_shown;
          data_shown = t.data_shown;
          data_initial = t.data_initial;
          in_range = t.in_range;
          channels_kept = t.channels_kept;
        })
      ]
  step-IsSound a count (sets_input channel voltage) t =
      gated (ltb channel (length a.channels)) (not (double.lt voltage double.nought))
    where
      gated :
          (inside positive : Bool)
          → IsSound
              (after a (do
                require inside out_of_range
                require positive invalid_argument
                ok (record a { channels = set a.channels channel voltage })))
              count
      gated false positive = t
      gated true false = t
      gated true true = record {
        enabled_bit = t.enabled_bit;
        complete_bit = t.complete_bit;
        allowed = t.allowed;
        res_shown = t.res_shown;
        data_shown = t.data_shown;
        data_initial = t.data_initial;
        in_range = t.in_range;
        channels_kept = length-set a.channels channel voltage ∙ t.channels_kept;
      }

  -- After any driver calls on a new controller, whether they succeed or throw, whatever the
  -- voltages are: bit 0 of the STATUS register, for enabled, and bit 1, for a complete conversion,
  -- are both set just when the controller is enabled, also before any conversion; the resolution
  -- is 8, 10 or 12 bits, and the register for it holds it; the data register holds the last
  -- sample, which is below 2 ^ 12; and the number of channels is that of the beginning.
  pub run-IsSound :
      (base bits count : ℕ) (voltage : W) (cs : List (Call W))
      → bad_resolution bits ≡ false
      → IsSound (run (update_status_register (created double base bits voltage count)) cs) count
  unfolding run Register.new
  run-IsSound base bits count voltage cs allowed = keep _ cs (
      updated (created double base bits voltage count) count allowed refl refl refl (omega arith)
        (length-replicate count double.nought))
    where
      keep : (a : Adc W) (cs : List (Call W)) → IsSound a count → IsSound (run a cs) count
      keep a [] t = t
      keep a (c ∷ cs) t = keep (step a c) cs (step-IsSound a count c t)

-- Which calls throw, and when: a resolution other than 8, 10 and 12, a reference voltage up to 0, an
-- input on a missing channel, or below 0 on one that exists, and a sample of a disabled controller,
-- or of a missing channel on one that is enabled.
pub adc_access_fails :
    {W : Type 0} (double : Double W) (a : Adc W) (n : ℕ) (voltage : W)
    → ((set_resolution a n ≡ throws invalid_argument) ↔ (bad_resolution n ≡ true))
      × ((set_reference_voltage double a voltage ≡ throws invalid_argument)
          ↔ (double.le voltage double.nought ≡ true))
      × ((set_analog_input double a n voltage ≡ throws out_of_range) ↔ (length a.channels ≤ n))
      × ((set_analog_input double a n voltage ≡ throws invalid_argument)
          ↔ ((n < length a.channels) × (double.lt voltage double.nought ≡ true)))
      × ((analog_input double a n ≡ throws out_of_range) ↔ (length a.channels ≤ n))
      × ((sample double a n ≡ throws runtime_error) ↔ (enabled a ≡ false))
      × ((sample double a n ≡ throws out_of_range) ↔ ((enabled a ≡ true) × (length a.channels ≤ n)))
unfolding set_resolution set_reference_voltage set_analog_input analog_input sample
adc_access_fails double a n voltage = (
  ground arith,
  ground arith,
  ground arith,
  ground arith,
  ground arith,
  ground arith,
  ground arith,
)
