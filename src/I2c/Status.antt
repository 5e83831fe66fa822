-- ===== src/I2c/Status.antt =====
-- The STATUS register and the attached devices of the I2C controller
-- (src/drivers/i2c/i2c_controller.cpp) under driver calls.
use embedded_firmware_simula.Prelude.{
  ℕ, ◌≡◌, refl, Bool, true, false, not, ◌&&◌, List, [], ◌∷◌, Option, none, some, Outcome, ok,
  throws, require, runtime_error, ◌>>◌, Bool-cases, inl, inr,
}
use embedded_firmware_simula.Prelude.Bits.{test_bit}
use embedded_firmware_simula.I2c.{
  I2cController, I2cWorld, enabled, status_value, update_status_register, created, enable, disable,
  set_slave_address, slave_address, attach_device, detach_device, reset, address_device, start,
  stop, written, write_byte, read_device, read_byte,
}
use embedded_firmware_simula.I2c.Device.{I2cDevice}
use embedded_firmware_simula.Prelude.Members.{has, Distinct, append-Distinct, without-Distinct}
use embedded_firmware_simula.I2c.Devices.{IsHeld, attach-IsHeld, detach-IsHeld, find-IsHeld}

pub record IsOrderly (c : I2cController) : Type 0 where
  pub enabled_bit : test_bit c.status_register.value 0 ≡ enabled c
  pub busy_bit : test_bit c.status_register.value 1 ≡ c.is_busy
  pub rx_avail_bit : test_bit c.status_register.value 2 ≡ false
  pub nack_bit : test_bit c.status_register.value 3 ≡ (not c.acknowledged && c.is_busy)
  pub no_data : c.rx_buffer ≡ []
  pub distinct : Distinct c.attached
  pub held : IsHeld c.attached c.is_busy c.active_device

-- The bits of the computed value with nothing received.
status_value_bits :
    (o b a : Bool)
    → (test_bit (status_value o b true a) 0 ≡ o)
      × (test_bit (status_value o b true a) 1 ≡ b)
      × (test_bit (status_value o b true a) 2 ≡ false)
      × (test_bit (status_value o b true a) 3 ≡ (not a && b))
unfolding test_bit
status_value_bits true true true = (refl, refl, refl, refl)
status_value_bits true true false = (refl, refl, refl, refl)
status_value_bits true false true = (refl, refl, refl, refl)
status_value_bits true false false = (refl, refl, refl, refl)
status_value_bits false true true = (refl, refl, refl, refl)
status_value_bits false true false = (refl, refl, refl, refl)
status_value_bits false false true = (refl, refl, refl, refl)
status_value_bits false false false = (refl, refl, refl, refl)

updated :
    (c : I2cController)
    → c.rx_buffer ≡ []
    → Distinct c.attached
    → IsHeld c.attached c.is_busy c.active_device
    → IsOrderly (update_status_register c)
unfolding update_status_register enabled
updated c empty distinct held =
    let bits = status_value_bits (enabled c) c.is_busy c.acknowledged in
    record {
      enabled_bit = rw empty bits.0;
      busy_bit = rw empty bits.1;
      rx_avail_bit = rw empty bits.2;
      nack_bit = rw empty bits.3;
      no_data = empty;
      distinct = distinct;
      held = held;
    }

pub data Call : Type 0 where
  enables disables resets stops reads : Call
  starts : Bool → Call
  attaches detaches : Option ℕ → Call
  writes addresses : ℕ → Call

module _ {V : Type 0} where
  -- A call that throws leaves the controller as it was.
  abbrev after_ack : I2cWorld V → Outcome (I2cWorld V × Bool) → I2cWorld V
  after_ack w (ok (w', ack)) = w'
  after_ack w (throws e) = w

  abbrev after_byte : I2cWorld V → Outcome (I2cWorld V × ℕ) → I2cWorld V
  after_byte w (ok (w', byte)) = w'
  after_byte w (throws e) = w

module _ {V : Type 0} (device : I2cDevice V) where
  address_device-IsOrderly :
      (w : I2cWorld V) (is_read : Bool) (o : Option ℕ)
      → w.i2c.rx_buffer ≡ []
      → Distinct w.i2c.attached
      → IsHeld w.i2c.attached w.i2c.is_busy o
      → IsOrderly (address_device device w is_read o).0.i2c
  unfolding IsHeld
  address_device-IsOrderly w is_read none empty distinct held = updated _ empty distinct tt
  address_device-IsOrderly w is_read (some d) empty distinct held =
      elim (Bool-cases (device.on_start (w.devices d) is_read).1) [
        | inl e ↦ updated _ empty distinct (rw e held)
        | inr e ↦ updated _ empty distinct (rw e tt)
      ]

  start-IsOrderly :
      (w : I2cWorld V) (is_read : Bool)
      → IsOrderly w.i2c
      → IsOrderly (after_ack w (start device w is_read)).i2c
  unfolding start
  start-IsOrderly w is_read t = elim (Bool-cases (enabled w.i2c)) [
    | inl e ↦ rw e (
        address_device-IsOrderly
          (record w { i2c = record w.i2c { is_busy = true; is_read_mode = is_read } }) is_read _
          t.no_data t.distinct (find-IsHeld device w.devices w.i2c.attached (slave_address w.i2c)))
    | inr e ↦ rw e t
  ]

  stop-IsOrderly : (w : I2cWorld V) → IsOrderly w.i2c → IsOrderly (stop device w).i2c
  unfolding stop IsHeld
  stop-IsOrderly w t = updated _ t.no_data t.distinct tt

  write_byte-IsOrderly :
      (w : I2cWorld V) (byte : ℕ)
      → IsOrderly w.i2c
      → IsOrderly (after_ack w (write_byte device w byte)).i2c
  unfolding write_byte
  write_byte-IsOrderly w byte t = gated (enabled w.i2c) w.i2c.is_busy
    where
      gated :
          (on busy : Bool)
          → IsOrderly
              (after_ack w (do
                require on runtime_error
                require busy runtime_error
                ok (written device w byte))).i2c
      gated false busy = t
      gated true false = t
      gated true true = updated _ t.no_data t.distinct t.held

  read_device-IsOrderly :
      (w : I2cWorld V) (busy : Bool) (o : Option ℕ)
      → IsOrderly w.i2c
      → IsOrderly (after_byte w (read_device device w busy o)).i2c
  read_device-IsOrderly w false o t = t
  read_device-IsOrderly w true none t = t
  read_device-IsOrderly w true (some d) t = updated _ t.no_data t.distinct t.held

  read_byte-IsOrderly :
      (w : I2cWorld V) → IsOrderly w.i2c → IsOrderly (after_byte w (read_byte device w)).i2c
  unfolding read_byte
  read_byte-IsOrderly w t = elim (Bool-cases (enabled w.i2c)) [
    | inl e ↦ simp (e, t.no_data) (read_device-IsOrderly w w.i2c.is_busy w.i2c.active_device t)
    | inr e ↦ rw e t
  ]

attach_device-IsOrderly :
    (c : I2cController) (o : Option ℕ) → IsOrderly c → IsOrderly (attach_device c o)
unfolding attach_device enabled
attach_device-IsOrderly c none t = t
attach_device-IsOrderly c (some d) t = elim (Bool-cases (has c.attached d)) [
  | inl e ↦ rw e t
  | inr e ↦ rw e (record {
    enabled_bit = t.enabled_bit;
    busy_bit = t.busy_bit;
    rx_avail_bit = t.rx_avail_bit;
    nack_bit = t.nack_bit;
    no_data = t.no_data;
    distinct = append-Distinct c.attached d t.distinct e;
    held = attach-IsHeld c.attached d c.is_busy c.active_device t.held;
  })
]

detach_device-IsOrderly :
    (c : I2cController) (o : Option ℕ) → IsOrderly c → IsOrderly (detach_device c o)
unfolding detach_device enabled
detach_device-IsOrderly c none t = t
detach_device-IsOrderly c (some d) t = record {
  enabled_bit = t.enabled_bit;
  busy_bit = t.busy_bit;
  rx_avail_bit = t.rx_avail_bit;
  nack_bit = t.nack_bit;
  no_data = t.no_data;
  distinct = without-Distinct c.attached d t.distinct;
  held = detach-IsHeld c.attached d c.is_busy c.active_device t.held;
}

set_slave_address-IsOrderly :
    (c : I2cController) (address : ℕ) → IsOrderly c → IsOrderly (set_slave_address c address)
unfolding set_slave_address enabled
set_slave_address-IsOrderly c address t = record {
  enabled_bit = t.enabled_bit;
  busy_bit = t.busy_bit;
  rx_avail_bit = t.rx_avail_bit;
  nack_bit = t.nack_bit;
  no_data = t.no_data;
  distinct = t.distinct;
  held = t.held;
}

module _ {V : Type 0} (device : I2cDevice V) where
  unfoldable pub step : I2cWorld V → Call → I2cWorld V
  step w enables = record w { i2c = enable w.i2c }
  step w disables = record w { i2c = disable w.i2c }
  step w resets = record w { i2c = reset w.i2c }
  step w stops = stop device w
  step w reads = after_byte w (read_byte device w)
  step w (starts is_read) = after_ack w (start device w is_read)
  step w (attaches d) = record w { i2c = attach_device w.i2c d }
  step w (detaches d) = record w { i2c = detach_device w.i2c d }
  step w (writes byte) = after_ack w (write_byte device w byte)
  step w (addresses address) = record w { i2c = set_slave_address w.i2c address }

  unfoldable pub run : I2cWorld V → List Call → I2cWorld V
  unfolding step
  run w [] = w
  run w (c ∷ cs) = run (step w c) cs

  step-IsOrderly : (w : I2cWorld V) (c : Call) → IsOrderly w.i2c → IsOrderly (step w c).i2c
  unfolding step enable disable reset IsHeld Distinct
  step-IsOrderly w enables t = updated _ t.no_data t.distinct t.held
  step-IsOrderly w disables t = updated _ t.no_data t.distinct tt
  step-IsOrderly w resets t = updated _ refl tt tt
  step-IsOrderly w stops t = stop-IsOrderly device w t
  step-IsOrderly w reads t = read_byte-IsOrderly device w t
  step-IsOrderly w (starts is_read) t = start-IsOrderly device w is_read t
  step-IsOrderly w (attaches d) t = attach_device-IsOrderly w.i2c d t
  step-IsOrderly w (detaches d) t = detach_device-IsOrderly w.i2c d t
  step-IsOrderly w (writes byte) t = write_byte-IsOrderly device w byte t
  step-IsOrderly w (addresses address) t = set_slave_address-IsOrderly w.i2c address t

  -- After any driver calls on a new controller, whether they succeed or throw: bit 0 of the STATUS
  -- register says whether it is enabled, bit 1 whether a transaction is open and bit 3 whether
  -- that was not acknowledged, and bit 2, for received data, is never set; the queue of received
  -- bytes is always empty; no device is attached twice; a device that is active is attached, and
  -- its transaction is open.
  pub run-IsOrderly :
      (base address : ℕ) (devices : ℕ → V) (cs : List Call)
      → let opened = update_status_register (created base address) in
        let w = run (record { i2c = opened; devices = devices }) cs in IsOrderly w.i2c
  unfolding run IsHeld Distinct
  run-IsOrderly base address devices cs = keep _ cs (updated _ refl tt tt)
    where
      keep : (w : I2cWorld V) (cs : List Call) → IsOrderly w.i2c → IsOrderly (run w cs).i2c
      keep w [] t = t
      keep w (c ∷ cs) t = keep (step w c) cs (step-IsOrderly w c t)
