-- ===== src/Firmware.antt =====
-- The firmware manager: include/firmware/firmware_manager.hpp, src/firmware/firmware_manager.cpp; the
-- applications are the modules below.
-- Names are values of a type `N` with what the manager uses of `std::string`: equality, order and
-- the empty string. Applications are values of a type `F`; an operation gives, beside the new state,
-- the calls that it makes of them, in order; a shutdown comes before the change of state. The registry
-- is a list in the order of its names.
pub mod UartEcho
pub mod TimerBlink
pub mod Toggling
pub mod Basic
pub mod Blinking
pub mod Echoing
pub mod Active
mod Tests
use embedded_firmware_simula.Prelude.{
  ℕ, ◌≡◌, ◌↔◌, Bool, true, false, not, ◌&&◌, ◌||◌, List, [], ◌∷◌, map, Option, none, some, is_some,
  length, if◌then◌else◌,
}

pub record Names (N : Type 0) : Type 0 where
  pub same : N → N → Bool
  pub before : N → N → Bool
  pub empty : N
  pub same_iff : (x y : N) → (same x y ≡ true) ↔ (x ≡ y)

pub data Signal (F : Type 0) : Type 0 where
  initializes updates shuts_down resets : F → Signal F

pub record FirmwareManager (N F : Type 0) : Type 0 where
  pub registry : List (N × F)
  pub active_name : N

module _ {N F : Type 0} (names : Names N) where
  -- A default-constructed manager.
  abbrev pub new : FirmwareManager N F
  new = record { registry = []; active_name = names.empty }

  -- `m_firmwareRegistry.find(name)`
  unfoldable pub find : N → List (N × F) → Option F
  find n [] = none
  find n ((k, f) ∷ rest) = if names.same k n then some f else find n rest

  -- `m_firmwareRegistry[name] = firmware` for a name that is not there.
  unfoldable pub insert : N → F → List (N × F) → List (N × F)
  insert n f [] = (n, f) ∷ []
  insert n f ((k, g) ∷ rest) =
      let later = insert n f rest in
      if names.before n k then (n, f) ∷ (k, g) ∷ rest else (k, g) ∷ later

  -- `m_firmwareRegistry.erase(it)`
  unfoldable pub erase : N → List (N × F) → List (N × F)
  erase n [] = []
  erase n ((k, f) ∷ rest) = if names.same k n then rest else (k, f) ∷ erase n rest

  unfoldable pub register_firmware : FirmwareManager N F → N → Option F → FirmwareManager N F × Bool
  register_firmware m name none = (m, false)
  register_firmware m name (some f) =
      if names.same name names.empty || is_some (find name m.registry) then (m, false) else (
        record {
          registry = insert name f m.registry;
          active_name = if names.same m.active_name names.empty then name else m.active_name;
        },
        true,
      )

  -- `activeFirmware()`
  unfoldable pub active_firmware : FirmwareManager N F → Option F
  active_firmware m = find m.active_name m.registry

  abbrev to_active : (F → Signal F) → Option F → List (Signal F)
  to_active signal none = []
  to_active signal (some f) = signal f ∷ []

  unfoldable pub initialize : FirmwareManager N F → List (Signal F)
  initialize m = to_active initializes (active_firmware m)

  unfoldable pub update : FirmwareManager N F → List (Signal F)
  update m = to_active updates (active_firmware m)

  unfoldable pub shutdown : FirmwareManager N F → List (Signal F)
  shutdown m = to_active shuts_down (active_firmware m)

  unfoldable pub reset : FirmwareManager N F → List (Signal F)
  reset m = to_active resets (active_firmware m)

  -- The first name that is left, if none is active.
  abbrev pub reselect : List (N × F) → N → N
  reselect [] active = active
  reselect ((k, f) ∷ rest) active = if names.same active names.empty then k else active

  unfoldable pub unregister_firmware :
      FirmwareManager N F → N → FirmwareManager N F × Bool × List (Signal F)
  unregister_firmware m name =
      let left = erase name m.registry in
      let was_active = names.same m.active_name name in
      if not (is_some (find name m.registry)) then (m, false, []) else (
        record {
          registry = left;
          active_name = reselect left (if was_active then names.empty else m.active_name);
        },
        true,
        if was_active then to_active shuts_down (find name m.registry) else [],
      )

  unfoldable pub set_active_firmware :
      FirmwareManager N F → N → FirmwareManager N F × Bool × List (Signal F)
  set_active_firmware m name =
      if not (is_some (find name m.registry))
      then (m, false, [])
      else if names.same m.active_name name
      then (m, true, [])
      else (record m { active_name = name }, true, shutdown m)

  unfoldable pub active_firmware_name : FirmwareManager N F → N
  active_firmware_name m = m.active_name

  unfoldable pub has_firmware : FirmwareManager N F → N → Bool
  has_firmware m name = is_some (find name m.registry)

  unfoldable pub count : FirmwareManager N F → ℕ
  count m = length m.registry

  unfoldable pub registered_names : FirmwareManager N F → List N
  registered_names m = map (λ p. p.0) m.registry
