-- ===== src/Hal/I2c.antt =====
-- The HAL of the I2C controller: include/hal/i2c_hal.hpp, src/hal/i2c_hal.cpp. Its pointer is to the
-- controller of the world beside it, or null.
use embedded_firmware_simula.Prelude.{
  ℕ, zero, suc, ◌+◌, Bool, true, false, List, [], ◌∷◌, ◌++◌, Outcome, ok, throws, require,
  runtime_error, if◌then◌else◌, ◌>>◌, length,
}
use embedded_firmware_simula.I2c.{I2cWorld}
use embedded_firmware_simula.I2c
use embedded_firmware_simula.I2c.Device.{I2cDevice}

pub record I2cHal : Type 0 where
  pub attached : Bool
  pub rx_queue : List ℕ

-- The HAL, with the controller and its devices.
pub record HalWorld (V : Type 0) : Type 0 where
  pub hal : I2cHal
  pub bus : I2cWorld V

-- The constructors: with a controller or without.
unfoldable pub new : Bool → I2cHal
new given = record { attached = given; rx_queue = [] }

unfoldable pub attach_i2c : I2cHal → Bool → I2cHal
attach_i2c h given = record h { attached = given }

unfoldable pub is_attached : I2cHal → Bool
is_attached h = h.attached

-- The HAL with a queue in place of its own.
abbrev pub with_queue : I2cHal → List ℕ → I2cHal
with_queue h q = record h { rx_queue = q }

unfoldable pub available : I2cHal → ℕ
available h = length h.rx_queue

module _ {V : Type 0} where
  unfoldable pub enable : HalWorld V → Outcome (HalWorld V)
  unfolding is_attached
  enable w = do
    require (is_attached w.hal) runtime_error
    ok (record w { bus = record w.bus { i2c = I2c.enable w.bus.i2c } })

  unfoldable pub disable : HalWorld V → Outcome (HalWorld V)
  unfolding is_attached
  disable w = do
    require (is_attached w.hal) runtime_error
    ok (record w { bus = record w.bus { i2c = I2c.disable w.bus.i2c } })

  unfoldable pub enabled : HalWorld V → Bool
  unfolding is_attached
  enabled w = if is_attached w.hal then I2c.enabled w.bus.i2c else false

  -- `m_controller->setSlaveAddress(address)`
  abbrev pub addressed : HalWorld V → ℕ → HalWorld V
  addressed w address = record w {
    bus = record w.bus { i2c = I2c.set_slave_address w.bus.i2c address };
  }

  -- A call of the controller that gave a value, or threw and changed nothing.
  abbrev pub called : {A : Type 0} → HalWorld V → Outcome (I2cWorld V × A) → HalWorld V × Outcome A
  called w (ok (b, a)) = (record w { bus = b }, ok a)
  called w (throws e) = (w, throws e)

  -- `next`, with the result of the first part unless that threw.
  abbrev pub after :
      {A B : Type 0}
      → (HalWorld V → A → HalWorld V × Outcome B)
      → HalWorld V × Outcome A
      → HalWorld V × Outcome B
  after next (w, ok a) = next w a
  after next (w, throws e) = (w, throws e)

  -- `m_rxQueue.push(b); count++;`
  abbrev pub queued : HalWorld V → ℕ → HalWorld V
  queued w byte = record w { hal = with_queue w.hal (w.hal.rx_queue ++ byte ∷ []) }

module _ {V : Type 0} (device : I2cDevice V) where
  -- `m_controller->stop()`
  abbrev pub stopped : HalWorld V → HalWorld V
  stopped w = record w { bus = I2c.stop device w.bus }

  unfoldable pub begin_transmission : HalWorld V → ℕ → HalWorld V × Outcome Bool
  unfolding is_attached
  begin_transmission w address =
      if is_attached w.hal
      then called (addressed w address) (I2c.start device (addressed w address).bus false)
      else (w, throws runtime_error)

  unfoldable pub end_transmission : HalWorld V → Outcome (HalWorld V × Bool)
  unfolding is_attached
  end_transmission w = do
    require (is_attached w.hal) runtime_error
    ok (stopped w, I2c.last_ack w.bus.i2c)

  unfoldable pub write_byte : HalWorld V → ℕ → HalWorld V × Outcome Bool
  unfolding is_attached
  write_byte w byte =
      if is_attached w.hal
      then called w (I2c.write_byte device w.bus byte)
      else (w, throws runtime_error)

  -- `readByte`, by what waits in the queue.
  abbrev pub take_rx : HalWorld V → List ℕ → HalWorld V × Outcome ℕ
  take_rx w (byte ∷ rest) = (record w { hal = with_queue w.hal rest }, ok byte)
  take_rx w [] =
      if is_attached w.hal then called w (I2c.read_byte device w.bus) else (w, throws runtime_error)

  unfoldable pub read_byte : HalWorld V → HalWorld V × Outcome ℕ
  unfolding is_attached
  read_byte w = take_rx w w.hal.rx_queue

  -- The loop of `requestFrom`, with the bytes still to read and `count`.
  unfoldable pub fill : ℕ → HalWorld V → ℕ → HalWorld V × Outcome ℕ
  fill zero w count = (w, ok count)
  fill (suc n) w count =
      let rest = fill n in
      after (λ w' byte. rest (queued w' byte) (count + 1)) (called w (I2c.read_byte device w.bus))

  -- `requestFrom` after `start`.
  abbrev pub requested : ℕ → HalWorld V → Bool → HalWorld V × Outcome ℕ
  requested n w false = (stopped w, ok 0)
  requested n w true = after (λ w' count. (stopped w', ok count)) (fill n w 0)

  -- `requestFrom` from `setSlaveAddress` on.
  abbrev pub asking : ℕ → HalWorld V → HalWorld V × Outcome ℕ
  asking n w = after (requested n) (called w (I2c.start device w.bus true))

  unfoldable pub request_from : HalWorld V → ℕ → ℕ → HalWorld V × Outcome ℕ
  unfolding is_attached
  request_from w address quantity =
      if is_attached w.hal
      then asking quantity (addressed (record w { hal = with_queue w.hal [] }) address)
      else (w, throws runtime_error)

  unfoldable pub request_one : HalWorld V → ℕ → HalWorld V × Outcome ℕ
  request_one w address = request_from w address 1
