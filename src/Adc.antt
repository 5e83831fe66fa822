-- ===== src/Adc.antt =====
-- The ADC controller: include/drivers/adc/adc_controller.hpp, src/drivers/adc/adc_controller.cpp. Its
-- voltages are values of any type with the operations of `Double`.
pub mod Voltages
pub mod Sampling
pub mod Order
mod Tests
use embedded_firmware_simula.Prelude.{
  ℕ, ◌-◌, ◌^◌, Bool, true, false, not, ◌||◌, List, [], ◌∷◌, ltb, ◌==◌, if◌then◌else◌, Outcome, ok,
  throws, require, invalid_argument, out_of_range, runtime_error, ◌>>=◌, ◌>>◌, bit_or, length,
  get_or, set, replicate,
}
use embedded_firmware_simula.Prelude.Bits.{set_bit, clear_bit, test_bit}
use embedded_firmware_simula.Mmio.Register.{Register}
use embedded_firmware_simula.Mmio.Register
use embedded_firmware_simula.Mmio.Bus.{MmioBus, at_offset, construct, unregister_all}
use embedded_firmware_simula.Adc.Voltages.{Double}

pub record Adc (W : Type 0) : Type 0 where
  pub base_address : ℕ
  pub resolution_bits : ℕ
  pub reference : W
  pub channels : List W
  pub control_register : Register
  pub status_register : Register
  pub res_register : Register
  pub data_register : Register
  pub sampled : ℕ

pub data Port : Type 0 where
  control_port status_port res_port data_port : Port

unfoldable pub control_address : ℕ → ℕ
control_address base = at_offset base 0x00

unfoldable pub status_address : ℕ → ℕ
status_address base = at_offset base 0x04

unfoldable pub res_address : ℕ → ℕ
res_address base = at_offset base 0x08

unfoldable pub data_address : ℕ → ℕ
data_address base = at_offset base 0x0c

-- The value that `updateStatusRegister` computes.
abbrev pub status_value : Bool → ℕ
status_value on = if on then bit_or (bit_or 0 1) 2 else 0

-- `bits != 8 && bits != 10 && bits != 12`
abbrev pub bad_resolution : ℕ → Bool
bad_resolution bits = not (bits == 8 || bits == 10 || bits == 12)

abbrev pub entries : {R : Type 0} → (Port → R) → ℕ → List (ℕ × R)
entries ref base =
    (control_address base, ref control_port)
    ∷ (status_address base, ref status_port)
    ∷ (res_address base, ref res_port)
    ∷ (data_address base, ref data_port)
    ∷ []

module _ {W : Type 0} where
  unfoldable pub enabled : Adc W → Bool
  unfolding Register.read
  enabled a = test_bit (Register.read a.control_register) 0

  unfoldable pub update_status_register : Adc W → Adc W
  unfolding Register.write
  update_status_register a = record a {
    status_register = Register.write a.status_register (status_value (enabled a));
  }

  unfoldable pub enable : Adc W → Adc W
  unfolding Register.read Register.write
  enable a = update_status_register (record a {
    control_register =
        Register.write a.control_register (set_bit (Register.read a.control_register) 0);
  })

  unfoldable pub disable : Adc W → Adc W
  unfolding Register.read Register.write
  disable a = update_status_register (record a {
    control_register =
        Register.write a.control_register (clear_bit (Register.read a.control_register) 0);
  })

  unfoldable pub set_resolution : Adc W → ℕ → Outcome (Adc W)
  unfolding Register.write
  set_resolution a bits = do
    require (not (bad_resolution bits)) invalid_argument
    ok (record a { resolution_bits = bits; res_register = Register.write a.res_register bits })

  unfoldable pub resolution : Adc W → ℕ
  resolution a = a.resolution_bits

  unfoldable pub reference_voltage : Adc W → W
  reference_voltage a = a.reference

  unfoldable pub last_sample : Adc W → ℕ
  last_sample a = a.sampled

  unfoldable pub channel_count : Adc W → ℕ
  channel_count a = length a.channels

  unfoldable pub destroy : {R : Type 0} → MmioBus R → Adc W → MmioBus R
  destroy bus a = unregister_all bus (
      control_address a.base_address
      ∷ status_address a.base_address
      ∷ res_address a.base_address
      ∷ data_address a.base_address
      ∷ [])

module _ {W : Type 0} (double : Double W) where
  abbrev pub created : ℕ → ℕ → W → ℕ → Adc W
  created base bits voltage count = record {
    base_address = base;
    resolution_bits = bits;
    reference = voltage;
    channels = replicate count double.nought;
    control_register = Register.new (control_address base) 0;
    status_register = Register.new (status_address base) 0;
    res_register = Register.new (res_address base) bits;
    data_register = Register.new (data_address base) 0;
    sampled = 0;
  }

  -- The constructor: its arguments are checked before anything is registered.
  unfoldable pub new :
      {R : Type 0} → (Port → R) → MmioBus R → ℕ → ℕ → W → ℕ → MmioBus R × Outcome (Adc W)
  unfolding construct Register.new
  new ref bus base bits voltage count =
      if count == 0 || bad_resolution bits || double.le voltage double.nought
      then (bus, throws invalid_argument)
      else construct bus (entries ref base)
          (update_status_register (created base bits voltage count))

  unfoldable pub set_reference_voltage : Adc W → W → Outcome (Adc W)
  set_reference_voltage a voltage = do
    require (not (double.le voltage double.nought)) invalid_argument
    ok (record a { reference = voltage })

  unfoldable pub set_analog_input : Adc W → ℕ → W → Outcome (Adc W)
  set_analog_input a channel voltage = do
    require (ltb channel (length a.channels)) out_of_range
    require (not (double.lt voltage double.nought)) invalid_argument
    ok (record a { channels = set a.channels channel voltage })

  unfoldable pub analog_input : Adc W → ℕ → Outcome W
  analog_input a channel = do
    require (ltb channel (length a.channels)) out_of_range
    ok (get_or a.channels channel double.nought)

  -- `(1U << m_resolutionBits) - 1U`, for a resolution below 32 bits.
  abbrev pub max_digital : Adc W → ℕ
  max_digital a = 2 ^ a.resolution_bits - 1

  -- `if (raw > maxDigital) raw = maxDigital;`
  abbrev pub clamp : ℕ → ℕ → ℕ
  clamp raw most = if ltb most raw then most else raw

  abbrev pub quantized : W → W → ℕ → ℕ
  quantized vin vref most =
      clamp
        (double.to_word (double.round (double.mul (double.div vin vref) (double.from_word most))))
        most

  -- The value that `sample` computes from a voltage.
  abbrev pub convert : W → W → ℕ → ℕ
  convert vin vref most =
      if double.le vin double.nought
      then 0
      else if double.ge vin vref
      then most
      else quantized vin vref most

  -- The end of `sample`.
  abbrev pub stored : Adc W → ℕ → Adc W × ℕ
  stored a raw = (
    update_status_register
        (record a { sampled = raw; data_register = Register.write a.data_register raw }),
    raw,
  )

  unfoldable pub sample : Adc W → ℕ → Outcome (Adc W × ℕ)
  unfolding Register.write
  sample a channel = do
    require (enabled a) runtime_error
    require (ltb channel (length a.channels)) out_of_range
    ok (stored a (convert (get_or a.channels channel double.nought) a.reference (max_digital a)))

  -- `reset` between `disable` and the update of the status register.
  abbrev pub cleared : Adc W → Adc W
  cleared a = record a {
    channels = replicate (length a.channels) double.nought;
    resolution_bits = 12;
    reference = double.default_reference;
    sampled = 0;
    control_register = Register.reset a.control_register;
    res_register = Register.write a.res_register 12;
    data_register = Register.reset a.data_register;
  }

  unfoldable pub reset : Adc W → Adc W
  unfolding Register.write Register.reset
  reset a = update_status_register (cleared (disable a))
