-- ===== src/Interrupts/Lines.antt =====
-- The single lines of the interrupt controller (src/kernel/interrupt_controller.cpp).
use embedded_firmware_simula.Prelude.{
  ℕ, ◌<◌, ◌≡◌, true, false, ◌&&◌, ◌==◌, if◌then◌else◌, ok, arith,
}
use embedded_firmware_simula.Prelude.Bits.{test_bit-set_bit, test_bit-clear_bit}
use embedded_firmware_simula.Interrupts.{
  InterruptController, enable, disable, trigger, clear, enabled, pending,
}

module _ {H : Type 0} where
  -- Triggering and clearing write the pending bit of their own line, if it is registered, and no
  -- other line's; the enable bits stay.
  pub pending-trigger :
      (c d e : InterruptController H) (id j : ℕ)
      → trigger c id ≡ ok d
      → clear c id ≡ ok e
      → j < 32
      → (pending d j ≡ (if c.registered id && id == j then ok true else pending c j))
        × (pending e j ≡ (if c.registered id && id == j then ok false else pending c j))
        × (enabled d j ≡ enabled c j)
        × (enabled e j ≡ enabled c j)
  unfolding pending trigger clear enabled
  pending-trigger c d e id j hd he hj = ground (
    arith,
    test_bit-set_bit c.pending_register.value id j,
    test_bit-clear_bit c.pending_register.value id j,
  )

  -- So do enabling and disabling for the enable bits; the pending bits stay.
  pub enabled-enable :
      (c d e : InterruptController H) (id j : ℕ)
      → enable c id ≡ ok d
      → disable c id ≡ ok e
      → j < 32
      → (enabled d j ≡ (if c.registered id && id == j then ok true else enabled c j))
        × (enabled e j ≡ (if c.registered id && id == j then ok false else enabled c j))
        × (pending d j ≡ pending c j)
        × (pending e j ≡ pending c j)
  unfolding enabled enable disable pending
  enabled-enable c d e id j hd he hj = ground (
    arith,
    test_bit-set_bit c.enable_register.value id j,
    test_bit-clear_bit c.enable_register.value id j,
  )
