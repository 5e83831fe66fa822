-- ===== src/Interrupts/Mapped.antt =====
-- The controller's registers as the bus sees them: a write through the bus and the driver's calls
-- meet in the same register.
use embedded_firmware_simula.Prelude.{ℕ, ◌<◌, ◌≡◌, ◌≢◌, refl, ok, arith}
use embedded_firmware_simula.Prelude.Bits.{test_bit}
use embedded_firmware_simula.Mmio.Register.{Register}
use embedded_firmware_simula.Mmio.Bus.{MmioBus, RegisterStore, find, register_all}
use embedded_firmware_simula.Mmio.Bus
use embedded_firmware_simula.Mmio.Laws.{construct-ok, unregister_all-construct}
use embedded_firmware_simula.Mmio.Decoding
use embedded_firmware_simula.Mmio.Decoding.{Decodes, register_all-Decodes}
use embedded_firmware_simula.Interrupts.{
  InterruptController, Port, enable_port, pending_port, priority_port, enable_address,
  pending_address, new, destroy, created, entries, enabled, pending,
}

module _ {H : Type 0} where
  abbrev pub load : InterruptController H → Port → Register
  load c enable_port = c.enable_register
  load c pending_port = c.pending_register
  load c priority_port = c.priority_register

  abbrev pub save : InterruptController H → Port → Register → InterruptController H
  save c enable_port x = record c { enable_register = x }
  save c pending_port x = record c { pending_register = x }
  save c priority_port x = record c { priority_register = x }

  pub load-save : (c : InterruptController H) (r : Port) (x : Register) → load (save c r x) r ≡ x
  load-save c enable_port x = refl
  load-save c pending_port x = refl
  load-save c priority_port x = refl

  pub load-save_ne :
      (c : InterruptController H) (r q : Port) (x : Register)
      → r ≢ q
      → load (save c r x) q ≡ load c q
  load-save_ne c r q x n = ground arith

  -- The registers that the controller owns, for the bus.
  abbrev pub ports : RegisterStore (InterruptController H) Port
  ports = record { load = load; save = save; load-save = load-save; load-save_ne = load-save_ne }

  -- A controller that could be constructed sees what is written to its ENABLE address through the
  -- bus as its enabled lines, and what is written to PENDING as its pending ones; each write leaves
  -- the other register alone.
  pub enabled-bus_write :
      (bus bus' : MmioBus Port) (base v j : ℕ) (c d e : InterruptController H)
      → new (λ r. r) bus base ≡ (bus', ok c)
      → Bus.write ports c bus' (enable_address base) v ≡ ok d
      → Bus.write ports c bus' (pending_address base) v ≡ ok e
      → j < 32
      → (enabled d j ≡ ok (test_bit v j))
        × (pending d j ≡ pending c j)
        × (pending e j ≡ ok (test_bit v j))
        × (enabled e j ≡ enabled c j)
  unfolding enabled pending
  enabled-bus_write bus bus' base v j c d e hc hd he hj =
      let (registered, same) =
        construct-ok bus bus' (entries (λ r. r) base) (created base) c (unfold new in hc) in
      let decodes = register_all-Decodes bus (entries (λ r. r) base) bus' registered in
      ground (
        arith,
        Decoding.write-decoded ports c bus' (enable_address base) v enable_port decodes.0,
        Decoding.write-decoded ports c bus' (pending_address base) v pending_port decodes.1.0,
      )

  -- The destructor of a controller gives the bus back as the constructor found it.
  pub destroy-new :
      {R : Type 0} (ref : Port → R) (bus bus' : MmioBus R) (base : ℕ) (c : InterruptController H)
      → new ref bus base ≡ (bus', ok c)
      → destroy bus' c ≡ bus
  unfolding destroy
  destroy-new ref bus bus' base c h =
      let (_, same) = construct-ok bus bus' (entries ref base) (created base) c (unfold new in h) in
      rw same
        (unregister_all-construct bus bus' (entries ref base) (created base) c (unfold new in h))
