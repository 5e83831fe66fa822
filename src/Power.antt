-- ===== src/Power.antt =====
-- The power state machine: include/system/power/power_state.hpp, power_controller.hpp and
-- src/system/power/power_controller.cpp.
pub mod Laws
use embedded_firmware_simula.Prelude.{Bool, true, false, List, [], ◌∷◌}

pub data PowerState : Type 0 where
  off on asleep : PowerState

pub record PowerController : Type 0 where
  pub state : PowerState

-- A default-constructed controller is on.
unfoldable pub new : PowerController
new = record { state = on }

abbrev power_on_from : PowerState → PowerState
power_on_from on = on
power_on_from _ = on

-- The source assigns only where the state differs.
unfoldable pub power_on : PowerController → PowerController
power_on p = record p { state = power_on_from p.state }

abbrev power_off_from : PowerState → PowerState
power_off_from off = off
power_off_from _ = off

unfoldable pub power_off : PowerController → PowerController
power_off p = record p { state = power_off_from p.state }

abbrev sleep_from : PowerState → PowerState
sleep_from on = asleep
sleep_from s = s

unfoldable pub sleep : PowerController → PowerController
sleep p = record p { state = sleep_from p.state }

abbrev wake_from : PowerState → PowerState
wake_from asleep = on
wake_from s = s

unfoldable pub wake : PowerController → PowerController
wake p = record p { state = wake_from p.state }

abbrev pub is_on : PowerState → Bool
is_on on = true
is_on _ = false

-- `isPowerOn()`
unfoldable pub is_power_on : PowerController → Bool
is_power_on p = is_on p.state

-- `state()`
unfoldable pub state_of : PowerController → PowerState
state_of p = p.state

abbrev is_state_asleep : PowerState → Bool
is_state_asleep asleep = true
is_state_asleep _ = false

unfoldable pub is_sleep : PowerController → Bool
is_sleep p = is_state_asleep p.state

abbrev is_state_off : PowerState → Bool
is_state_off off = true
is_state_off _ = false

unfoldable pub is_power_off : PowerController → Bool
is_power_off p = is_state_off p.state
