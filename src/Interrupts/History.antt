-- ===== src/Interrupts/History.antt =====
-- Sequences of driver calls of the interrupt controller (src/kernel/interrupt_controller.cpp).
use embedded_firmware_simula.Prelude.{
  ℕ, ◌<◌, ◌≡◌, ◌⊎◌, inl, inr, Bool, true, false, List, [], ◌∷◌, Option, none, some, Outcome, ok,
  throws, arith,
}
use embedded_firmware_simula.Prelude.Bits.{
  test_bit, test_bit-set_bit, test_bit-clear_bit, test_bit-zero,
}
use embedded_firmware_simula.Mmio.Register
use embedded_firmware_simula.Interrupts.{
  InterruptController, register_interrupt, unregister_interrupt, enable, disable, trigger, clear,
  set_priority, register_handler, unregister_handler, dispatch, reset, clear_line, created,
}
use embedded_firmware_simula.Interrupts.Dispatch.{dispatch_lem}

pub data Call (H : Type 0) : Type 0 where
  registers unregisters enables disables triggers clears unhandles : ℕ → Call H
  prioritises : ℕ → ℕ → Call H
  handles : ℕ → Option H → Call H
  dispatches resets : Call H

module _ {H : Type 0} where
  -- A call that throws leaves the controller as it was.
  abbrev after : InterruptController H → Outcome (InterruptController H) → InterruptController H
  after c (ok d) = d
  after c (throws e) = c

  abbrev after_bool :
      InterruptController H → Outcome (InterruptController H × Bool) → InterruptController H
  after_bool c (ok (d, b)) = d
  after_bool c (throws e) = c

  unfoldable pub step : InterruptController H → Call H → InterruptController H
  step c (registers i) = after_bool c (register_interrupt c i)
  step c (unregisters i) = after_bool c (unregister_interrupt c i)
  step c (enables i) = after c (enable c i)
  step c (disables i) = after c (disable c i)
  step c (triggers i) = after c (trigger c i)
  step c (clears i) = after c (clear c i)
  step c (unhandles i) = after_bool c (unregister_handler c i)
  step c (prioritises i p) = after c (set_priority c i p)
  step c (handles i h) = after_bool c (register_handler c i h)
  step c dispatches = (dispatch c).0
  step c resets = reset c

  unfoldable pub run : InterruptController H → List (Call H) → InterruptController H
  unfolding step
  run c [] = c
  run c (x ∷ xs) = run (step c x) xs

  -- Line `i` is registered, or it is disabled, not pending, without a handler and at the default
  -- priority; and the registers' reset values are 0.
  pub record Quiet (c : InterruptController H) (i : ℕ) : Type 0 where
    pub enable_reset : c.enable_register.initial_value ≡ 0
    pub pending_reset : c.pending_register.initial_value ≡ 0
    pub idle :
        (c.registered i ≡ true)
        ⊎ ((c.registered i ≡ false)
            × (test_bit c.enable_register.value i ≡ false)
            × (test_bit c.pending_register.value i ≡ false)
            × (c.handlers i ≡ none)
            × (c.priorities i ≡ 128))

  pub created-Quiet : (base i : ℕ) → Quiet (created base) i
  unfolding Register.new
  created-Quiet base i = ground (arith, test_bit-zero i)

  clear_line-Quiet :
      (c : InterruptController H) (i j : ℕ) → i < 32 → j < 32 → Quiet c j → Quiet (clear_line c i) j
  unfolding clear_line
  clear_line-Quiet c i j hi hj q = ground (arith, test_bit-clear_bit c.pending_register.value i j)

  dispatch-Quiet : (c : InterruptController H) (j : ℕ) → j < 32 → Quiet c j → Quiet (dispatch c).0 j
  dispatch-Quiet c j h q = elim (dispatch_lem c) [
    | inl (e, _) ↦ rw e q
    | inr (i, e, here, _) ↦ rw e (clear_line-Quiet c i j (ground arith) h q)
  ]

  step-Quiet :
      (c : InterruptController H) (x : Call H) (j : ℕ) → j < 32 → Quiet c j → Quiet (step c x) j
  unfolding step
  step-Quiet c (registers i) j h q = unfold register_interrupt in ground arith
  step-Quiet c (unregisters i) j h q =
      unfold unregister_interrupt in
      ground (
        arith,
        test_bit-clear_bit c.enable_register.value i j,
        test_bit-clear_bit c.pending_register.value i j,
      )
  step-Quiet c (enables i) j h q =
      unfold enable in ground (arith, test_bit-set_bit c.enable_register.value i j)
  step-Quiet c (disables i) j h q =
      unfold disable in ground (arith, test_bit-clear_bit c.enable_register.value i j)
  step-Quiet c (triggers i) j h q =
      unfold trigger in ground (arith, test_bit-set_bit c.pending_register.value i j)
  step-Quiet c (clears i) j h q =
      unfold clear in ground (arith, test_bit-clear_bit c.pending_register.value i j)
  step-Quiet c (unhandles i) j h q = unfold unregister_handler in ground arith
  step-Quiet c (prioritises i p) j h q = unfold set_priority in ground arith
  step-Quiet c (handles i none) j h q = unfold register_handler in ground arith
  step-Quiet c (handles i (some f)) j h q = unfold register_handler in ground arith
  step-Quiet c dispatches j h q = dispatch-Quiet c j h q
  step-Quiet c resets j h q = unfold reset in ground (arith, test_bit-zero j)

  -- Any driver calls keep that a line which is not registered is neither enabled nor pending, has no
  -- handler and has the default priority 128, and that the registers' reset values are 0.
  pub run-Quiet :
      (c : InterruptController H) (xs : List (Call H)) (j : ℕ)
      → j < 32
      → Quiet c j
      → Quiet (run c xs) j
  unfolding run
  run-Quiet c [] j h q = q
  run-Quiet c (x ∷ xs) j h q = run-Quiet (step c x) xs j h (step-Quiet c x j h q)
