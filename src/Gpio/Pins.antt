-- ===== src/Gpio/Pins.antt =====
-- The single pins (src/drivers/gpio/gpio.cpp).
use embedded_firmware_simula.Prelude.{
  ℕ, ◌<◌, ◌≤◌, ◌≡◌, ◌↔◌, true, false, not, ◌==◌, if◌then◌else◌, ok, throws, out_of_range,
  logic_error, arith, ◌∙◌, refl, leb, Bool-cases, inl, inr, ==_self,
}
use embedded_firmware_simula.Prelude.Bits.{test_bit, test_bit-set_bit, test_bit-clear_bit}
use embedded_firmware_simula.Gpio.{
  Gpio, PinDirection, input, output, PinState, low, high, is_output_pin, configure_pin, write_pin,
  read_pin, level, toggle_pin, set_external_input, drive, direct,
}

-- Configuring a pin makes it an output exactly when it is asked to, and changes neither another
-- pin's direction nor any pin's level.
pub is_output_pin-configure_pin :
    (g h : Gpio) (p q : ℕ) (d : PinDirection)
    → configure_pin g p d ≡ ok h
    → q < 32
    → (is_output_pin h q
        ≡ (if p == q then elim d [ input ↦ false | output ↦ true ] else is_output_pin g q))
      × (read_pin h q ≡ read_pin g q)
unfolding configure_pin is_output_pin read_pin
is_output_pin-configure_pin g h p q input e hq =
    ground (arith, test_bit-clear_bit g.dir_register.value p q)
is_output_pin-configure_pin g h p q output e hq =
    ground (arith, test_bit-set_bit g.dir_register.value p q)

-- A call fails on a pin from 32 on, whatever it is; otherwise writing and toggling fail exactly on
-- inputs, and driving from outside exactly on outputs.
pub pin_access_fails :
    (g : Gpio) (p : ℕ) (s : PinState)
    → ((write_pin g p s ≡ throws out_of_range) ↔ (32 ≤ p))
      × ((toggle_pin g p ≡ throws out_of_range) ↔ (32 ≤ p))
      × ((set_external_input g p s ≡ throws out_of_range) ↔ (32 ≤ p))
      × ((write_pin g p s ≡ throws logic_error) ↔ ((p < 32) × (is_output_pin g p ≡ false)))
      × ((toggle_pin g p ≡ throws logic_error) ↔ ((p < 32) × (is_output_pin g p ≡ false)))
      × ((set_external_input g p s ≡ throws logic_error) ↔ ((p < 32) × (is_output_pin g p ≡ true)))
unfolding write_pin toggle_pin set_external_input
pin_access_fails g p s =
    (ground arith, ground arith, ground arith, ground arith, ground arith, ground arith)

toggled :
    (g h : Gpio) (p q : ℕ)
    → toggle_pin g p ≡ ok h
    → q < 32
    → test_bit h.in_register.value q
      ≡ (if p == q then not (test_bit g.in_register.value q) else test_bit g.in_register.value q)
unfolding toggle_pin
toggled g h p q e hq =
    ground
      (arith, test_bit-clear_bit g.in_register.value p q, test_bit-set_bit g.in_register.value p q)

-- Toggling an output gives the opposite level there and leaves the other pins; toggling it twice
-- gives every pin's level back.
pub toggle_pin_twice :
    (g h k : Gpio) (p q : ℕ)
    → toggle_pin g p ≡ ok h
    → toggle_pin h p ≡ ok k
    → q < 32
    → (read_pin h q
        ≡ (if p == q then ok (level (not (test_bit g.in_register.value q))) else read_pin g q))
      × (read_pin k q ≡ read_pin g q)
unfolding read_pin
toggle_pin_twice g h k p q eh ek hq = ground (arith, toggled g h p q eh hq, toggled h k p q ek hq)

-- A pin driven to a level.
abbrev driven : Gpio → ℕ → PinState → Gpio
driven g p s = record g {
  out_register = drive s g.out_register p;
  in_register = drive s g.in_register p;
}

-- Toggling an output does not throw; the pin stays an output, at the opposite level.
pub toggle_pin-output :
    (g : Gpio) (p : ℕ)
    → p < 32
    → is_output_pin g p ≡ true
    → (h : Gpio) × (toggle_pin g p ≡ ok h)
      × (is_output_pin h p ≡ true)
      × (test_bit h.in_register.value p ≡ not (test_bit g.in_register.value p))
unfolding toggle_pin is_output_pin
toggle_pin-output g p l o =
    let fits : leb 32 p ≡ false = ground arith in
    elim (Bool-cases (test_bit g.in_register.value p)) [
      | inl e ↦ (
        driven g p low,
        simp (fits, o, e) refl,
        o,
        test_bit-clear_bit g.in_register.value p p l l ∙ simp (==_self p, e) refl,
      )
      | inr e ↦ (
        driven g p high,
        simp (fits, o, e) refl,
        o,
        test_bit-set_bit g.in_register.value p p ∙ simp (==_self p, e) refl,
      )
    ]

-- Configuring a pin as an output and driving it low does not throw.
pub configure_low :
    (g : Gpio) (p : ℕ)
    → p < 32
    → (h : Gpio) × (k : Gpio) × (configure_pin g p output ≡ ok h)
      × (write_pin h p low ≡ ok k)
      × (is_output_pin k p ≡ true)
      × (test_bit k.in_register.value p ≡ false)
unfolding configure_pin write_pin is_output_pin
configure_low g p l =
    let fits : leb 32 p ≡ false = ground arith in
    let h = record g { dir_register = direct output g.dir_register p } in
    let out : is_output_pin h p ≡ true =
      test_bit-set_bit g.dir_register.value p p ∙ simp (==_self p) refl in
    (
      h,
      driven h p low,
      simp fits refl,
      simp (fits, out) refl,
      out,
      test_bit-clear_bit g.in_register.value p p l l ∙ simp (==_self p) refl,
    )
