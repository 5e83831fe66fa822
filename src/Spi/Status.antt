-- ===== src/Spi/Status.antt =====
-- The STATUS register and the mode of the SPI controller (src/drivers/spi/spi_controller.cpp) under
-- driver calls.
use embedded_firmware_simula.Prelude.{
  ℕ, ◌%◌, ◌≤◌, ◌≡◌, refl, ◌∙◌, sym, Bool, true, false, List, [], ◌∷◌, Option, Outcome, ok, throws,
  arith, Bool-cases, inl, inr, ltb,
}
use embedded_firmware_simula.Prelude.Bits.{test_bit}
use embedded_firmware_simula.Prelude.Fields.{with_field, field-with_field, test_bit-with_field}
use embedded_firmware_simula.Mmio.Register
use embedded_firmware_simula.Spi.{
  SpiController, SpiWorld, enabled, has_data, mode, status_value, update_status_register, created,
  with_mode, enable, disable, attach_slave, detach_slave, set_clock_divider, set_mode, transfer,
  write_byte, read_byte, reset, take_rx,
}
use embedded_firmware_simula.Spi.Device.{SpiDevice}

pub record IsReported (c : SpiController) : Type 0 where
  pub enabled_bit : test_bit c.status_register.value 0 ≡ enabled c
  pub busy_bit : test_bit c.status_register.value 1 ≡ false
  pub rx_avail_bit : test_bit c.status_register.value 2 ≡ has_data c
  pub idle : c.is_busy ≡ false

-- The three bits of the computed value are the three tests.
status_value_bits :
    (o b r : Bool)
    → (test_bit (status_value o b r) 0 ≡ o)
      × (test_bit (status_value o b r) 1 ≡ b)
      × (test_bit (status_value o b r) 2 ≡ r)
unfolding test_bit
status_value_bits true true true = (refl, refl, refl)
status_value_bits true true false = (refl, refl, refl)
status_value_bits true false true = (refl, refl, refl)
status_value_bits true false false = (refl, refl, refl)
status_value_bits false true true = (refl, refl, refl)
status_value_bits false true false = (refl, refl, refl)
status_value_bits false false true = (refl, refl, refl)
status_value_bits false false false = (refl, refl, refl)

updated : (c : SpiController) → c.is_busy ≡ false → IsReported (update_status_register c)
unfolding update_status_register enabled has_data
updated c idle =
    let bits = status_value_bits (enabled c) c.is_busy (has_data c) in
    record { enabled_bit = bits.0; busy_bit = bits.1 ∙ idle; rx_avail_bit = bits.2; idle = idle }

mode_kept : (c : SpiController) (value : ℕ) → IsReported c → IsReported (with_mode c value)
unfolding enabled has_data Register.write with_field
mode_kept c value t = record {
  enabled_bit = t.enabled_bit ∙ sym (test_bit-with_field c.control_register.value (value % 4));
  busy_bit = t.busy_bit;
  rx_avail_bit = t.rx_avail_bit;
  idle = t.idle;
}

pub data Call : Type 0 where
  enables disables reads resets detaches : Call
  attaches : Option ℕ → Call
  transfers writes sets_divider sets_mode : ℕ → Call

module _ {V : Type 0} where
  -- A call that throws leaves the controller as it was.
  abbrev after : SpiWorld V → Outcome SpiController → SpiWorld V
  after w (ok c) = record w { spi = c }
  after w (throws e) = w

  abbrev after_read : SpiWorld V → Outcome (SpiController × ℕ) → SpiWorld V
  after_read w (ok (c, byte)) = record w { spi = c }
  after_read w (throws e) = w

  abbrev after_transfer : SpiWorld V → Outcome (SpiWorld V × ℕ) → SpiWorld V
  after_transfer w (ok (w', byte)) = w'
  after_transfer w (throws e) = w

  abbrev after_write : SpiWorld V → Outcome (SpiWorld V) → SpiWorld V
  after_write w (ok w') = w'
  after_write w (throws e) = w

module _ {V : Type 0} (device : SpiDevice V) where
  unfoldable pub step : SpiWorld V → Call → SpiWorld V
  step w enables = record w { spi = enable w.spi }
  step w disables = record w { spi = disable w.spi }
  step w reads = after_read w (read_byte w.spi)
  step w resets = record w { spi = reset w.spi }
  step w detaches = record w { spi = detach_slave w.spi }
  step w (attaches s) = record w { spi = attach_slave w.spi s }
  step w (transfers byte) = after_transfer w (transfer device w byte)
  step w (writes byte) = after_write w (write_byte device w byte)
  step w (sets_divider value) = after w (set_clock_divider w.spi value)
  step w (sets_mode value) = after w (set_mode w.spi value)

  unfoldable pub run : SpiWorld V → List Call → SpiWorld V
  unfolding step
  run w [] = w
  run w (c ∷ cs) = run (step w c) cs

  taken : (c : SpiController) (rx : List ℕ) → c.is_busy ≡ false → IsReported (take_rx c rx).0
  taken c [] idle = updated _ idle
  taken c (byte ∷ rest) idle = updated _ idle

  step-IsReported : (w : SpiWorld V) (c : Call) → IsReported w.spi → IsReported (step w c).spi
  unfolding step enable disable reset detach_slave attach_slave transfer write_byte read_byte
      set_clock_divider set_mode enabled has_data
  step-IsReported w enables t = updated _ t.idle
  step-IsReported w disables t = updated _ t.idle
  step-IsReported w reads t = elim (Bool-cases (enabled w.spi)) [
    | inl e ↦ elim (Bool-cases (has_data w.spi)) [
      | inl d ↦ rw (e, d) (taken w.spi w.spi.rx_buffer t.idle)
      | inr d ↦ rw (e, d) t
    ]
    | inr e ↦ rw e t
  ]
  step-IsReported w resets t = updated _ refl
  step-IsReported w detaches t = record {
    enabled_bit = t.enabled_bit;
    busy_bit = t.busy_bit;
    rx_avail_bit = t.rx_avail_bit;
    idle = t.idle;
  }
  step-IsReported w (attaches s) t = record {
    enabled_bit = t.enabled_bit;
    busy_bit = t.busy_bit;
    rx_avail_bit = t.rx_avail_bit;
    idle = t.idle;
  }
  step-IsReported w (transfers byte) t = elim (Bool-cases (enabled w.spi)) [
    | inl e ↦ rw e (updated _ refl)
    | inr e ↦ rw e t
  ]
  step-IsReported w (writes byte) t = elim (Bool-cases (enabled w.spi)) [
    | inl e ↦ rw e (updated _ refl)
    | inr e ↦ rw e t
  ]
  step-IsReported w (sets_divider value) t = ground arith
  step-IsReported w (sets_mode value) t = elim (Bool-cases (ltb 3 value)) [
    | inl e ↦ rw e t
    | inr e ↦ rw e (mode_kept w.spi value t)
  ]

  -- After any driver calls on a new controller, whether they succeed or throw, it is not busy; bit
  -- 0 of the STATUS register says whether it is enabled, bit 1 is clear as it is not busy, and bit
  -- 2 says whether received data waits.
  pub run-IsReported :
      (base divider value : ℕ) (devices : ℕ → V) (cs : List Call)
      → let opened = update_status_register (with_mode (created base divider) value) in
        let w = run (record { spi = opened; devices = devices }) cs in IsReported w.spi
  unfolding run
  run-IsReported base divider value devices cs = keep _ cs (updated _ refl)
    where
      keep : (w : SpiWorld V) (cs : List Call) → IsReported w.spi → IsReported (run w cs).spi
      keep w [] t = t
      keep w (c ∷ cs) t = keep (step w c) cs (step-IsReported w c t)

-- A mode up to 3 is accepted, and is then the mode; whether the controller is enabled stays the same.
pub mode-set_mode :
    (c : SpiController) (value : ℕ)
    → value ≤ 3
    → (set_mode c value ≡ ok (with_mode c value))
      × (mode (with_mode c value) ≡ value)
      × (enabled (with_mode c value) ≡ enabled c)
unfolding set_mode mode enabled
mode-set_mode c value small = (
  ground arith,
  field-with_field c.control_register.value (value % 4) (omega arith) ∙ omega arith,
  test_bit-with_field c.control_register.value (value % 4),
)
