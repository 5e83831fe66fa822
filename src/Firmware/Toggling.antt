-- ===== src/Firmware/Toggling.antt =====
-- The level of the pin that a timer blinks (src/firmware/timer_blink_firmware.cpp).
use embedded_firmware_simula.Prelude.{
  ℕ, ◌+◌, ◌%◌, ◌^◌, ◌<◌, ◌≡◌, refl, ◌∙◌, ap, true, false, not, leb, ◌==◌, List, [], ◌∷◌, Outcome,
  ok, and_then, inl, inr, Bool-cases, if◌then◌else◌, arith,
}
use embedded_firmware_simula.Prelude.Bits.{test_bit}
use embedded_firmware_simula.Gpio.{is_output_pin}
use embedded_firmware_simula.Gpio
use embedded_firmware_simula.Gpio.Pins.{toggle_pin-output, configure_low}
use embedded_firmware_simula.Timer.{World}
use embedded_firmware_simula.Hal.Gpio as HalGpio
use embedded_firmware_simula.Firmware.Blinking.{is_high-level}
use embedded_firmware_simula.Firmware.TimerBlink.{
  BlinkWorld, initialize, update, begun, counted, timer_prepared, is_due,
}

flipped : (c : ℕ) → not (c % 2 == 1) ≡ ((c + 1) % 2 ^ 64 % 2 == 1)
flipped c = ground arith

module _ {T H : Type 0} (compare_match : T) where
  -- What happens to the timer between two updates.
  abbrev pub meanwhile : (World T H → World T H) → BlinkWorld T H → BlinkWorld T H
  meanwhile f w = record w { timer_hal = record w.timer_hal { world = f w.timer_hal.world } }

  -- An update after each change of the timer, up to one that throws.
  unfoldable pub updates_after :
      List (World T H → World T H) → BlinkWorld T H → BlinkWorld T H × Outcome (Unit {0})
  updates_after [] w = (w, ok tt)
  updates_after (f ∷ fs) w =
      let rest = updates_after fs in and_then rest (update compare_match (meanwhile f w))

  -- The application runs on an output, which is high after an odd number of toggles.
  record Toggles (w : BlinkWorld T H) (p : ℕ) : Type 0 where
    pub given : w.gpio_hal.attached ≡ true
    pub started : w.app.initialized ≡ true
    pub running : w.app.is_shutdown ≡ false
    pub pin : w.app.pin ≡ p
    pub direction : is_output_pin w.gpio_hal.gpio p ≡ true
    pub state : test_bit w.gpio_hal.gpio.in_register.value p ≡ (w.app.toggle_count % 2 == 1)

  -- The count of toggles after an update.
  abbrev pub next_count : BlinkWorld T H → ℕ
  next_count w = if is_due w then (w.app.toggle_count + 1) % 2 ^ 64 else w.app.toggle_count

  initialize-Toggles :
      (w : BlinkWorld T H)
      → w.gpio_hal.attached ≡ true
      → w.app.pin < 32
      → (w' : BlinkWorld T H) × (initialize compare_match w ≡ (w', ok tt)) × Toggles w' w.app.pin
  unfolding initialize HalGpio.configure_output HalGpio.write
  initialize-Toggles w given fits =
      let (g, h, c, d, o, b) = configure_low w.gpio_hal.gpio w.app.pin fits in
      (
        timer_prepared compare_match
            (record (begun w) { gpio_hal = record w.gpio_hal { gpio = h } }),
        simp (given, c, d) refl,
        record {
          given = given;
          started = refl;
          running = refl;
          pin = refl;
          direction = o;
          state = b;
        },
      )

  update-Toggles :
      (w : BlinkWorld T H) (p : ℕ)
      → p < 32
      → Toggles w p
      → (w' : BlinkWorld T H) × (update compare_match w ≡ (w', ok tt))
        × (w'.app.toggle_count ≡ next_count w)
        × Toggles w' p
  unfolding update HalGpio.toggle
  update-Toggles w p fits t = elim (Bool-cases (is_due w)) [
    | inl e ↦
        let (g, k, o, s) = toggle_pin-output w.gpio_hal.gpio p fits t.direction in
        (
          counted compare_match (record w { gpio_hal = record w.gpio_hal { gpio = g } }),
          simp (t.started, t.running, e, t.given, t.pin, k) refl,
          simp e refl,
          record {
            given = t.given;
            started = t.started;
            running = t.running;
            pin = t.pin;
            direction = o;
            state = s ∙ ap not t.state ∙ flipped w.app.toggle_count;
          },
        )
    | inr e ↦ (w, simp (t.started, t.running, e) refl, simp e refl, t)
  ]

  meanwhile-Toggles :
      (f : World T H → World T H) (w : BlinkWorld T H) (p : ℕ)
      → Toggles w p
      → Toggles (meanwhile f w) p
  meanwhile-Toggles f w p t = record {
    given = t.given;
    started = t.started;
    running = t.running;
    pin = t.pin;
    direction = t.direction;
    state = t.state;
  }

  updates_after-Toggles :
      (fs : List (World T H → World T H)) (w : BlinkWorld T H) (p : ℕ)
      → p < 32
      → Toggles w p
      → (w' : BlinkWorld T H) × (updates_after fs w ≡ (w', ok tt)) × Toggles w' p
  unfolding updates_after
  updates_after-Toggles [] w p fits t = (w, refl, t)
  updates_after-Toggles (f ∷ fs) w p fits t =
      let (w1, e1, c1, t1) = update-Toggles (meanwhile f w) p fits (meanwhile-Toggles f w p t) in
      let (w2, e2, t2) = updates_after-Toggles fs w1 p fits t1 in
      (w2, ap (and_then (updates_after fs)) e1 ∙ e2, t2)

  -- An application on a GPIO, of a pin that exists, is initialized and then updated any number of
  -- times, whatever happens to the timer before each update: no call throws, the pin is high just
  -- when the count of toggles is odd, and a further update counts one more toggle, modulo 2 ^ 64, if
  -- the timer has matched or has reached the compare value, and none otherwise.
  pub updates_after-toggle :
      (w : BlinkWorld T H) (fs : List (World T H → World T H)) (f : World T H → World T H)
      → w.gpio_hal.attached ≡ true
      → w.app.pin < 32
      → (w' : BlinkWorld T H) × (and_then (updates_after fs) (initialize compare_match w)
          ≡ (w', ok tt))
        × (HalGpio.read w'.gpio_hal w.app.pin ≡ ok (w'.app.toggle_count % 2 == 1))
        × (w'' : BlinkWorld T H) × (update compare_match (meanwhile f w') ≡ (w'', ok tt))
        × (w''.app.toggle_count ≡ next_count (meanwhile f w'))
  unfolding HalGpio.read Gpio.read_pin
  updates_after-toggle w fs f given fits =
      let (w1, e1, t1) = initialize-Toggles w given fits in
      let (w2, e2, t) = updates_after-Toggles fs w1 w.app.pin fits t1 in
      let (w3, e3, c3, t3) =
        update-Toggles (meanwhile f w2) w.app.pin fits (meanwhile-Toggles f w2 w.app.pin t) in
      let valid : leb 32 w.app.pin ≡ false = ground arith in
      (
        w2,
        ap (and_then (updates_after fs)) e1 ∙ e2,
        simp (t.given, valid, t.state) (ap ok (is_high-level (w2.app.toggle_count % 2 == 1))),
        w3,
        e3,
        c3,
      )
