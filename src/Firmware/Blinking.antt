-- ===== src/Firmware/Blinking.antt =====
-- The level of the pin over the updates (src/firmware/basic_firmware.cpp).
use native.Mathlib.Nat.{le-div_iff_mul-le, div-lt_iff_lt-mul, suc-mul}
use embedded_firmware_simula.Prelude.{
  ℕ, zero, suc, ◌+◌, ◌*◌, ◌/◌, ◌%◌, ◌^◌, ◌<◌, ◌≡◌, refl, ◌∙◌, sym, ap, Bool, true, false, not, leb,
  ltb, Outcome, ok, and_then, inl, inr, Bool-cases, arith,
}
use embedded_firmware_simula.Prelude.Bits.{test_bit}
use embedded_firmware_simula.Gpio.{is_output_pin}
use embedded_firmware_simula.Gpio
use embedded_firmware_simula.Gpio.Pins.{toggle_pin-output, configure_low}
use embedded_firmware_simula.Hal.Gpio as HalGpio
use embedded_firmware_simula.Firmware.Basic.{BasicWorld, initialize, update, begun, counted, zeroed}

abbrev pub is_odd : ℕ → Bool
is_odd zero = false
is_odd (suc n) = not (is_odd n)

pub is_high-level : (b : Bool) → HalGpio.is_high (Gpio.level b) ≡ b
is_high-level true = refl
is_high-level false = refl

-- As many updates, up to one that throws.
unfoldable pub updates : ℕ → BasicWorld → BasicWorld × Outcome (Unit {0})
updates zero w = (w, ok tt)
updates (suc n) w = let before = updates n w in and_then update before

-- An application that runs on an output, whose next toggle comes after `k` less `r` updates.
record Blinks (w : BasicWorld) (p k r n : ℕ) (level : Bool) : Type 0 where
  pub given : w.hal.attached ≡ true
  pub started : w.app.initialized ≡ true
  pub running : w.app.is_shutdown ≡ false
  pub pin : w.app.pin ≡ p
  pub interval : w.app.toggle_interval ≡ k
  pub counter : w.app.cycle_counter ≡ r
  pub executed : w.app.execution_count ≡ n % 2 ^ 64
  pub direction : is_output_pin w.hal.gpio p ≡ true
  pub state : test_bit w.hal.gpio.in_register.value p ≡ level

initialize-Blinks :
    (w : BasicWorld)
    → w.hal.attached ≡ true
    → w.app.pin < 32
    → (w' : BasicWorld) × (initialize w ≡ (w', ok tt))
      × Blinks w' w.app.pin w.app.toggle_interval 0 0 false
unfolding initialize HalGpio.configure_output HalGpio.write
initialize-Blinks w given fits =
    let (g, h, c, d, o, b) = configure_low w.hal.gpio w.app.pin fits in
    (
      record (begun w) { hal = record w.hal { gpio = h } },
      simp (given, c, d) refl,
      record {
        given = given;
        started = refl;
        running = refl;
        pin = refl;
        interval = refl;
        counter = refl;
        executed = refl;
        direction = o;
        state = b;
      },
    )

-- An update before the interval is over only counts.
update-counts :
    (w : BasicWorld) (p k r n : ℕ) (level : Bool)
    → r + 1 < k
    → k < 2 ^ 64
    → Blinks w p k r n level
    → (w' : BasicWorld) × (update w ≡ (w', ok tt)) × Blinks w' p k (r + 1) (suc n) level
unfolding update
update-counts w p k r n level early below b =
    let count : (w.app.cycle_counter + 1) % 2 ^ 64 ≡ r + 1 = omega arith in
    let waits : leb w.app.toggle_interval ((w.app.cycle_counter + 1) % 2 ^ 64) ≡ false =
      ground arith in
    (
      counted w,
      simp (b.started, b.running, waits) refl,
      record {
        given = b.given;
        started = b.started;
        running = b.running;
        pin = b.pin;
        interval = b.interval;
        counter = count;
        executed = omega arith;
        direction = b.direction;
        state = b.state;
      },
    )

-- An update at the end of the interval toggles the pin.
update-toggles :
    (w : BasicWorld) (p k r n : ℕ) (level : Bool)
    → r + 1 ≡ k
    → k < 2 ^ 64
    → p < 32
    → Blinks w p k r n level
    → (w' : BasicWorld) × (update w ≡ (w', ok tt)) × Blinks w' p k 0 (suc n) (not level)
unfolding update HalGpio.toggle
update-toggles w p k r n level due below fits b =
    let ends : leb w.app.toggle_interval ((w.app.cycle_counter + 1) % 2 ^ 64) ≡ true =
      ground arith in
    let (g, t, o, s) = toggle_pin-output w.hal.gpio p fits b.direction in
    (
      zeroed (record (counted w) { hal = record w.hal { gpio = g } }),
      simp (b.started, b.running, ends, b.given, b.pin, t) refl,
      record {
        given = b.given;
        started = b.started;
        running = b.running;
        pin = b.pin;
        interval = b.interval;
        counter = refl;
        executed = omega arith;
        direction = o;
        state = s ∙ ap not b.state;
      },
    )

quotient : (n m r k : ℕ) → n ≡ m * k + r → r < k → n / k ≡ m
quotient n m r k e l =
    let next = suc-mul m k in
    let below =
      (div-lt_iff_lt-mul {k = k} {x = n} {y = suc m} (omega arith)).1 (omega (arith, next)) in
    let above = (le-div_iff_mul-le {k = k} {x = m} {y = n} (omega arith)).1 (omega arith) in
    omega arith

-- Where the application stands after `n` updates.
Stands : BasicWorld → ℕ → ℕ → ℕ → Type 0
Stands w p k n = (m r : ℕ) × (n ≡ m * k + r) × (r < k) × Blinks w p k r n (is_odd m)

update-Stands :
    (w : BasicWorld) (p k n : ℕ)
    → k < 2 ^ 64
    → p < 32
    → Stands w p k n
    → (w' : BasicWorld) × (update w ≡ (w', ok tt)) × Stands w' p k (suc n)
unfolding Stands
update-Stands w p k n below fits (m, r, e, l, b) = elim (Bool-cases (ltb (r + 1) k)) [
  | inl t ↦
      let (w', u, b') = update-counts w p k r n (is_odd m) (ground arith) below b in
      (w', u, (m, r + 1, omega arith, ground arith, b'))
  | inr t ↦
      let due : r + 1 ≡ k = ground arith in
      let (w', u, b') = update-toggles w p k r n (is_odd m) due below fits b in
      (w', u, (suc m, 0, omega (arith, suc-mul m k), omega arith, b'))
]

updates-Stands :
    (n : ℕ) (w : BasicWorld) (p k : ℕ)
    → 0 < k
    → k < 2 ^ 64
    → p < 32
    → Blinks w p k 0 0 false
    → (w' : BasicWorld) × (updates n w ≡ (w', ok tt)) × Stands w' p k n
unfolding updates Stands
updates-Stands zero w p k above below fits b = (w, refl, (0, 0, omega arith, above, b))
updates-Stands (suc n) w p k above below fits b =
    let (w1, e1, s1) = updates-Stands n w p k above below fits b in
    let (w2, e2, s2) = update-Stands w1 p k n below fits s1 in
    (w2, ap (and_then update) e1 ∙ e2, s2)

-- An application on a GPIO, of a pin that exists and an interval of at least 1, does not throw when
-- it is initialized and then updated `n` times. Its pin is then high just when the number of whole
-- intervals in `n` is odd, and it has counted `n` executions, modulo 2 ^ 64.
pub updates-blink :
    (w : BasicWorld) (n : ℕ)
    → w.hal.attached ≡ true
    → w.app.pin < 32
    → 0 < w.app.toggle_interval
    → w.app.toggle_interval < 2 ^ 64
    → (w' : BasicWorld) × (and_then (updates n) (initialize w) ≡ (w', ok tt))
      × (HalGpio.read w'.hal w.app.pin ≡ ok (is_odd (n / w.app.toggle_interval)))
      × (w'.app.execution_count ≡ n % 2 ^ 64)
unfolding Stands HalGpio.read Gpio.read_pin
updates-blink w n given fits above below =
    let k = w.app.toggle_interval in
    let (w1, e1, b1) = initialize-Blinks w given fits in
    let (w2, e2, (m, r, e, l, b)) = updates-Stands n w1 w.app.pin k above below fits b1 in
    let valid : leb 32 w.app.pin ≡ false = ground arith in
    let odd : is_odd (n / k) ≡ is_odd m = ap is_odd (quotient n m r k e l) in
    (
      w2,
      ap (and_then (updates n)) e1 ∙ e2,
      simp (b.given, valid, b.state) (ap ok (is_high-level (is_odd m) ∙ sym odd)),
      b.executed,
    )
