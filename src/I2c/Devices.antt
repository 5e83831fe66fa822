-- ===== src/I2c/Devices.antt =====
-- The attached devices of the I2C controller and the active one (src/drivers/i2c/i2c_controller.cpp).
use embedded_firmware_simula.Prelude.{
  ℕ, ◌≡◌, refl, ◌∙◌, Bool, true, List, [], ◌∷◌, ◌++◌, Option, none, some, ◌==◌, if◌then◌else◌,
  arith, Bool-cases, inl, inr, ==_self,
}
use embedded_firmware_simula.Prelude.Members.{has, without, has-append, has-without}
use embedded_firmware_simula.I2c.{is_device, find}
use embedded_firmware_simula.I2c.Device.{I2cDevice}

-- The active device is attached, and the bus is busy.
unfoldable pub IsHeld : List ℕ → Bool → Option ℕ → Type 0
IsHeld ds busy none = Unit
IsHeld ds busy (some d) = (has ds d ≡ true) × (busy ≡ true)

pub attach-IsHeld :
    (ds : List ℕ) (x : ℕ) (busy : Bool) (o : Option ℕ)
    → IsHeld ds busy o
    → IsHeld (ds ++ x ∷ []) busy o
unfolding IsHeld
attach-IsHeld ds x busy none h = tt
attach-IsHeld ds x busy (some d) h = (rw (has-append ds d x, h.0) refl, h.1)

pub detach-IsHeld :
    (ds : List ℕ) (x : ℕ) (busy : Bool) (o : Option ℕ)
    → IsHeld ds busy o
    → IsHeld (without ds x) busy (if is_device o x then none else o)
unfolding IsHeld
detach-IsHeld ds x busy none h = tt
detach-IsHeld ds x busy (some d) h = elim (Bool-cases (d == x)) [
  | inl e ↦ rw e tt
  | inr e ↦ rw e (has-without ds x d e ∙ h.0, h.1)
]

cons-IsHeld :
    (ds : List ℕ) (x : ℕ) (busy : Bool) (o : Option ℕ) → IsHeld ds busy o → IsHeld (x ∷ ds) busy o
unfolding IsHeld
cons-IsHeld ds x busy none h = tt
cons-IsHeld ds x busy (some d) h = (ground (arith, h.0), h.1)

module _ {V : Type 0} (device : I2cDevice V) where
  pub find-IsHeld :
      (devices : ℕ → V) (ds : List ℕ) (target : ℕ) → IsHeld ds true (find device devices ds target)
  unfolding IsHeld
  find-IsHeld devices [] target = tt
  find-IsHeld devices (d ∷ ds) target = elim (Bool-cases (device.address (devices d) == target)) [
    | inl e ↦ rw e (rw (==_self d) refl, refl)
    | inr e ↦
        rw e (cons-IsHeld ds d true (find device devices ds target) (find-IsHeld devices ds target))
  ]
