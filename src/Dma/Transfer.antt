-- ===== src/Dma/Transfer.antt =====
-- A whole transfer from memory to memory: configured, started and stepped.
use embedded_firmware_simula.Prelude.{
  ℕ, zero, suc, ◌+◌, ◌^◌, ◌<◌, ◌≤◌, ◌≡◌, ◌⊎◌, refl, true, false, get_or, length, if◌then◌else◌,
  ◌==◌, Outcome, ok, throws, arith,
}
use embedded_firmware_simula.Interrupts.{trigger}
use embedded_firmware_simula.Memory.{is_valid_address}
use embedded_firmware_simula.Dma.{
  System, DmaController, locate, memory_place, configure, start, step,
}
use embedded_firmware_simula.Dma.Copying.{InFlight, copied, step-InFlight, step-finishes}

module _ {S R T H : Type 0} (sys : System S R T H) (nothing : T) where
  -- `n` calls of `step`, up to one that throws.
  unfoldable pub steps : ℕ → DmaController → S → DmaController × S × Outcome (Unit {0})
  steps zero d s = (d, s, ok tt)
  steps (suc n) d s =
      let (d', s', outcome) = step sys nothing d s in
      elim outcome [ ok u ↦ steps n d' s' | throws e ↦ (d', s', throws e) ]

  -- What is left of a transfer.
  abbrev pub Finished :
      DmaController → S → Outcome (Unit {0}) → DmaController → S → ℕ → ℕ → ℕ → ℕ → Type 0
  Finished d' s' outcome d s src dst n j =
      (d'.busy ≡ false)
      × (d'.completed ≡ true)
      × (d'.error ≡ false)
      × (get_or (sys.memory s').storage j 0 ≡ copied (sys.memory s).storage src dst n j)
      × ((if d.interrupt_controller
            then trigger (sys.interrupts s) d.interrupt_id
            else ok (sys.interrupts s))
          ≡ ok (sys.interrupts s'))
      × (outcome ≡ ok tt)

  steps-ok :
      (n : ℕ) (d : DmaController) (s : S)
      → (step sys nothing d s).2 ≡ ok tt
      → steps (suc n) d s ≡ steps n (step sys nothing d s).0 (step sys nothing d s).1
  unfolding steps
  steps-ok n d s h = rw (steps, h) refl

  steps-finish :
      (m : ℕ) (d : DmaController) (s : S) (d0 : DmaController) (s0 : S) (src dst n k j : ℕ)
      → InFlight sys nothing d s d0 s0 src dst n k
      → (dst ≤ src) ⊎ (src + n ≤ dst)
      → k + suc m ≡ n
      → src + n ≤ length (sys.memory s0).storage
      → dst + n ≤ length (sys.memory s0).storage
      → length (sys.memory s0).storage < 2 ^ 64
      → d0.interrupt_id < 32
      → let (d', s', outcome) = steps (suc m) d s in Finished d' s' outcome d0 s0 src dst n j
  unfolding steps
  steps-finish zero d s d0 s0 src dst n k j f apart l from to small valid =
      let r =
        step-finishes sys nothing d s d0 s0 src dst n k j f apart (ground arith) from to small
          valid in
      rw (steps-ok zero d s r.5) (r.0, r.1, r.2, r.3, r.4, refl)
  steps-finish (suc m) d s d0 s0 src dst n k j f apart l from to small valid =
      let (g, o) =
        step-InFlight sys nothing d s d0 s0 src dst n k f apart (ground arith) from to small in
      rw (steps-ok (suc m) d s o)
        (steps-finish m _ _ d0 s0 src dst n (k + 1) j g apart (ground arith) from to small valid)

  locate-memory :
      (d : DmaController) (s : S) (a : ℕ)
      → (d.uart ≡ false) × (d.mmio_bus ≡ false) × (d.memory ≡ true)
      → a < length (sys.memory s).storage
      → locate sys d s a ≡ memory_place
  unfolding locate is_valid_address
  locate-memory d s a at l = ground arith

  -- The state of a controller that has started.
  abbrev begun : DmaController → DmaController
  begun d = record d {
    current_src = d.source_address;
    current_dst = d.destination_address;
    transferred_bytes = 0;
    busy = true;
    completed = false;
    error = false;
  }

  start-accepts :
      (d : DmaController) (s : S)
      → (d.uart ≡ false) × (d.mmio_bus ≡ false) × (d.memory ≡ true)
      → (d.length == 0) ≡ false
      → d.source_address < length (sys.memory s).storage
      → d.destination_address < length (sys.memory s).storage
      → start sys d s ≡ (begun d, s, ok true)
  unfolding start
  start-accepts d s at some_bytes from to =
      simp (at.2, some_bytes, locate-memory d s _ at from, locate-memory d s _ at to) refl

  -- The state of a controller that has been configured.
  abbrev prepared : DmaController → ℕ → ℕ → ℕ → DmaController
  prepared d src dst n = record d {
    source_address = src;
    destination_address = dst;
    length = n;
    current_src = src;
    current_dst = dst;
    transferred_bytes = 0;
    busy = false;
    completed = false;
    error = false;
    src_increment = true;
    dst_increment = true;
  }

  configure-prepares :
      (d : DmaController) (s : S) (src dst n : ℕ)
      → d.busy ≡ false
      → (d.uart ≡ false) × (d.mmio_bus ≡ false) × (d.memory ≡ true)
      → (d.user_set_src_increment ≡ false) × (d.user_set_dst_increment ≡ false)
      → (configure sys d s src dst n).0 ≡ prepared d src dst n
  unfolding configure
  configure-prepares d s src dst n idle at free = ground arith

  started-InFlight :
      (d : DmaController) (s : S) (src dst m : ℕ)
      → d.busy ≡ false
      → (d.uart ≡ false) × (d.mmio_bus ≡ false) × (d.memory ≡ true)
      → (d.user_set_src_increment ≡ false) × (d.user_set_dst_increment ≡ false)
      → src + suc m ≤ length (sys.memory s).storage
      → dst + suc m ≤ length (sys.memory s).storage
      → let (d', s', started) = start sys (configure sys d s src dst (suc m)).0 s in
        InFlight sys nothing d' s' d s src dst (suc m) 0 × (started ≡ ok true)
  started-InFlight d s src dst m idle at free from to =
      rw
        (
          configure-prepares d s src dst (suc m) idle at free,
          start-accepts (prepared d src dst (suc m)) s at (ground arith) (ground arith)
              (ground arith),
        )
        (
          record {
            busy = refl;
            clean = (refl, refl);
            length_is = refl;
            bytes = refl;
            attached = at;
            increments = (refl, refl);
            at_src = ground arith;
            at_dst = ground arith;
            size_is = refl;
            holds = λ j. ground arith;
            lines = refl;
            line = (refl, refl);
          },
          refl,
        )

  -- A controller that is idle and attached to a memory, and to no bus and no UART, whose increments
  -- are automatic and whose interrupt id is valid, copies `m + 1` bytes in `m + 1` steps, if they lie
  -- in the memory at both ends and the destination does not overlap the source from above. Then
  -- the destination holds what the source held, all other bytes are as they were, the controller is
  -- idle and done without an error, and its interrupt is triggered if it has an interrupt controller.
  pub transfer_lem :
      (d : DmaController) (s : S) (src dst m j : ℕ)
      → d.busy ≡ false
      → (d.uart ≡ false) × (d.mmio_bus ≡ false) × (d.memory ≡ true)
      → (d.user_set_src_increment ≡ false) × (d.user_set_dst_increment ≡ false)
      → (dst ≤ src) ⊎ (src + suc m ≤ dst)
      → src + suc m ≤ length (sys.memory s).storage
      → dst + suc m ≤ length (sys.memory s).storage
      → length (sys.memory s).storage < 2 ^ 64
      → d.interrupt_id < 32
      → let (d1, s1, started) = start sys (configure sys d s src dst (suc m)).0 s in
        let (d2, s2, outcome) = steps (suc m) d1 s1 in
        (started ≡ ok true) × Finished d2 s2 outcome d s src dst (suc m) j
  transfer_lem d s src dst m j idle at free apart from to small valid =
      let (f, o) = started-InFlight d s src dst m idle at free from to in
      (o, steps-finish m _ _ d s src dst (suc m) 0 j f apart (ground arith) from to small valid)
