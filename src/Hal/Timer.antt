-- ===== src/Hal/Timer.antt =====
-- The HAL of the timer: include/hal/timer_hal.hpp, src/hal/timer_hal.cpp. Its pointer is to the timer
-- of the world beside it, or null. A call with no timer is a call that does nothing.
use embedded_firmware_simula.Prelude.{ℕ, Bool, false, if◌then◌else◌}
use embedded_firmware_simula.Timer.{World}
use embedded_firmware_simula.Timer

pub record TimerHal (T H : Type 0) : Type 0 where
  pub attached : Bool
  pub world : World T H

module _ {T H : Type 0} where
  -- The constructors: with a timer or without.
  unfoldable pub new : World T H → Bool → TimerHal T H
  new w given = record { attached = given; world = w }

  unfoldable pub attach_timer : TimerHal T H → Bool → TimerHal T H
  attach_timer h given = record h { attached = given }

  unfoldable pub is_attached : TimerHal T H → Bool
  is_attached h = h.attached

  unfoldable pub stop : TimerHal T H → TimerHal T H
  stop h = if h.attached then record h { world = Timer.stop h.world } else h

  unfoldable pub reset : TimerHal T H → TimerHal T H
  reset h = if h.attached then record h { world = Timer.reset h.world } else h

  unfoldable pub counter : TimerHal T H → ℕ
  counter h = if h.attached then Timer.counter h.world.timer else 0

  unfoldable pub has_match : TimerHal T H → Bool
  has_match h = if h.attached then Timer.has_match h.world.timer else false

  unfoldable pub running : TimerHal T H → Bool
  running h = if h.attached then Timer.running h.world.timer else false

  module _ (compare_match : T) where
    unfoldable pub start : TimerHal T H → TimerHal T H
    start h = if h.attached then record h { world = Timer.start compare_match h.world } else h

    unfoldable pub set_compare : TimerHal T H → ℕ → TimerHal T H
    set_compare h value =
        if h.attached then record h { world = Timer.set_compare compare_match h.world value } else h
