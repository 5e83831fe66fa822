-- ===== src/Dma/Copying.antt =====
-- Transfers from memory to memory, step by step.
use embedded_firmware_simula.Prelude.{
  ℕ, ◌+◌, ◌-◌, ◌^◌, ◌<◌, ◌≤◌, ◌≡◌, ◌⊎◌, inl, inr, refl, ap, sym, some, ◌∙◌, true, false, ◌&&◌, List,
  get_or, set, length, ltb, leb, ◌==◌, if◌then◌else◌, Outcome, ok, throws, arith, Bool-cases,
  get_or-set_self, get_or-set_ne, length-set,
}
use embedded_firmware_simula.Interrupts.{InterruptController, trigger, trigger_line}
use embedded_firmware_simula.Events.{schedule}
use embedded_firmware_simula.Memory.{Memory, is_valid_address}
use embedded_firmware_simula.Memory
use embedded_firmware_simula.Dma.{
  System, DmaController, locate, fetch, deliver, conclude, step, advanced, finished, signal,
  announce,
}

-- The byte at `j` after `k` bytes were copied from `src` to `dst`, in a memory that held `xs`.
abbrev pub copied : List ℕ → ℕ → ℕ → ℕ → ℕ → ℕ
copied xs src dst k j =
    if leb dst j && ltb j (dst + k) then get_or xs (src + (j - dst)) 0 else get_or xs j 0

-- A byte read beyond what has been copied is the original one.
source-kept :
    (xs : List ℕ) (src dst n k : ℕ)
    → (dst ≤ src) ⊎ (src + n ≤ dst)
    → k < n
    → copied xs src dst k (src + k) ≡ get_or xs (src + k) 0
source-kept xs src dst n k apart l = ground (arith, apart)

offset : (dst k : ℕ) → dst + k - dst ≡ k
offset dst k = omega arith

-- One more byte.
pub copied-suc :
    (xs ys : List ℕ) (src dst n k j : ℕ)
    → (dst ≤ src) ⊎ (src + n ≤ dst)
    → k < n
    → dst + n ≤ length xs
    → length ys ≡ length xs
    → ((i : ℕ) → get_or ys i 0 ≡ copied xs src dst k i)
    → get_or (set ys (dst + k) (get_or ys (src + k) 0)) j 0 ≡ copied xs src dst (k + 1) j
copied-suc xs ys src dst n k j apart l fits same holds = elim (Bool-cases (j == dst + k)) [
  | inl e ↦ ground (
    arith,
    e,
    get_or-set_self ys (dst + k) (get_or ys (src + k) 0) 0 (ground (arith, same)),
    holds (src + k),
    source-kept xs src dst n k apart l,
    offset dst k,
  )
  | inr e ↦ ground (
    arith,
    e,
    get_or-set_ne ys (dst + k) j (get_or ys (src + k) 0) 0 (ground (arith, e)),
    holds j,
  )
]

module _ {S R T H : Type 0} (sys : System S R T H) (nothing : T) where
  -- One byte from memory to memory.
  step-memory :
      (d : DmaController) (s : S)
      → d.busy ≡ true
      → d.transferred_bytes < d.length
      → d.uart ≡ false
      → d.mmio_bus ≡ false
      → d.memory ≡ true
      → d.current_src < length (sys.memory s).storage
      → d.current_dst < length (sys.memory s).storage
      → step sys nothing d s
        ≡ conclude sys nothing (advanced sys d) (
            sys.set_memory s (record {
              storage =
                  set
                    (sys.memory s).storage
                    d.current_dst
                    (get_or (sys.memory s).storage d.current_src 0);
            }))
  unfolding step locate is_valid_address fetch deliver Memory.read Memory.write
  step-memory d s busy left uart bus mem src dst = ground arith

  -- A transfer of `n` bytes from memory to memory, `k` of which have arrived.
  pub record InFlight (d : DmaController) (s : S) (d0 : DmaController) (s0 : S) (src dst n k : ℕ)
      : Type 0 where
    pub busy : d.busy ≡ true
    pub clean : (d.error ≡ false) × (d.completed ≡ false)
    pub length_is : d.length ≡ n
    pub bytes : d.transferred_bytes ≡ k
    pub attached : (d.uart ≡ false) × (d.mmio_bus ≡ false) × (d.memory ≡ true)
    pub increments : (d.src_increment ≡ true) × (d.dst_increment ≡ true)
    pub at_src : d.current_src ≡ src + k
    pub at_dst : d.current_dst ≡ dst + k
    pub size_is : length (sys.memory s).storage ≡ length (sys.memory s0).storage
    pub holds :
        (j : ℕ) → get_or (sys.memory s).storage j 0 ≡ copied (sys.memory s0).storage src dst k j
    pub lines : sys.interrupts s ≡ sys.interrupts s0
    pub line :
        (d.interrupt_controller ≡ d0.interrupt_controller) × (d.interrupt_id ≡ d0.interrupt_id)

  -- The state after a byte.
  abbrev pub moved : DmaController → S → S
  moved d s = sys.set_memory s (record {
    storage =
        set (sys.memory s).storage d.current_dst (get_or (sys.memory s).storage d.current_src 0);
  })

  pub moved-holds :
      (d : DmaController) (s : S) (d0 : DmaController) (s0 : S) (src dst n k j : ℕ)
      → InFlight d s d0 s0 src dst n k
      → (dst ≤ src) ⊎ (src + n ≤ dst)
      → k < n
      → dst + n ≤ length (sys.memory s0).storage
      → get_or (sys.memory (moved d s)).storage j 0
        ≡ copied (sys.memory s0).storage src dst (k + 1) j
  moved-holds d s d0 s0 src dst n k j f apart l fits =
      rw (sys.memory-set_memory s _, f.at_src, f.at_dst)
        (copied-suc _ (sys.memory s).storage src dst n k j apart l fits f.size_is f.holds)

  moved-size :
      (d : DmaController) (s : S)
      → length (sys.memory (moved d s)).storage ≡ length (sys.memory s).storage
  moved-size d s =
      rw (sys.memory-set_memory s _) (length-set (sys.memory s).storage d.current_dst _)

  conclude-more :
      (d : DmaController) (s : S)
      → leb d.length d.transferred_bytes ≡ false
      → conclude sys nothing d s ≡ (d, s, ok tt)
  unfolding conclude
  conclude-more d s h = rw h refl

  -- A byte that is not the last one.
  pub step-InFlight :
      (d : DmaController) (s : S) (d0 : DmaController) (s0 : S) (src dst n k : ℕ)
      → InFlight d s d0 s0 src dst n k
      → (dst ≤ src) ⊎ (src + n ≤ dst)
      → k + 1 < n
      → src + n ≤ length (sys.memory s0).storage
      → dst + n ≤ length (sys.memory s0).storage
      → length (sys.memory s0).storage < 2 ^ 64
      → let (d', s', outcome) = step sys nothing d s in
        InFlight d' s' d0 s0 src dst n (k + 1) × (outcome ≡ ok tt)
  step-InFlight d s d0 s0 src dst n k f apart l from to small =
      rw
        (
          step-memory d s f.busy (ground (arith, f.bytes, f.length_is)) f.attached.0 f.attached.1
              f.attached.2 (ground (arith, f.at_src, f.size_is))
              (ground (arith, f.at_dst, f.size_is)),
          conclude-more (advanced sys d) (moved d s) (ground (arith, f.bytes, f.length_is)),
        )
        (
          record {
            busy = f.busy;
            clean = f.clean;
            length_is = f.length_is;
            bytes = ground (arith, f.bytes);
            attached = f.attached;
            increments = f.increments;
            at_src = ground (arith, f.at_src, f.increments);
            at_dst = ground (arith, f.at_dst, f.increments);
            size_is = moved-size d s ∙ f.size_is;
            holds = λ j. moved-holds d s d0 s0 src dst n k j f apart (ground arith) to;
            lines = sys.interrupts-set_memory s _ ∙ f.lines;
            line = f.line;
          },
          refl,
        )

  trigger-ok :
      (c : InterruptController H) (id : ℕ) → id < 32 → trigger c id ≡ ok (trigger_line c id)
  unfolding trigger
  trigger-ok c id l = ground arith

  -- The signal of a controller whose interrupt id is valid.
  signal-valid :
      (d : DmaController) (s : S)
      → d.interrupt_id < 32
      → let (s', outcome) = signal sys d s in
        (sys.memory s' ≡ sys.memory s)
        × ((if d.interrupt_controller
              then trigger (sys.interrupts s) d.interrupt_id
              else ok (sys.interrupts s))
            ≡ ok (sys.interrupts s'))
        × (outcome ≡ ok tt)
  signal-valid d s valid = ground (
    arith,
    trigger-ok (sys.interrupts s) d.interrupt_id valid,
    sys.memory-set_interrupts s (trigger_line (sys.interrupts s) d.interrupt_id),
    sys.interrupts-set_interrupts s (trigger_line (sys.interrupts s) d.interrupt_id),
  )

  announce-kept :
      (d : DmaController) (p : S × Outcome (Unit {0}))
      → p.1 ≡ ok tt
      → let (s', outcome) = announce sys nothing d p in
        (sys.memory s' ≡ sys.memory p.0)
        × (sys.interrupts s' ≡ sys.interrupts p.0)
        × (outcome ≡ ok tt)
  announce-kept d (s, throws e) h = ground (arith, h)
  announce-kept d (s, ok u) h = ground (
    arith,
    sys.memory-set_events s (schedule (sys.events s) (some nothing) 0 "DMA Transfer Complete").0,
    sys.interrupts-set_events s
        (schedule (sys.events s) (some nothing) 0 "DMA Transfer Complete").0,
  )

  conclude-last :
      (d : DmaController) (s : S)
      → leb d.length d.transferred_bytes ≡ true
      → d.interrupt_id < 32
      → let (d', s', outcome) = conclude sys nothing d s in
        (d' ≡ finished sys d)
        × (sys.memory s' ≡ sys.memory s)
        × ((if d.interrupt_controller
              then trigger (sys.interrupts s) d.interrupt_id
              else ok (sys.interrupts s))
            ≡ ok (sys.interrupts s'))
        × (outcome ≡ ok tt)
  unfolding conclude
  conclude-last d s h valid =
      let (m, i, o) = signal-valid d s valid in
      let (m', i', o') = announce-kept d (signal sys d s) o in
      rw h (refl, m' ∙ m, i ∙ ap ok (sym i'), o')

  -- The last byte.
  pub step-finishes :
      (d : DmaController) (s : S) (d0 : DmaController) (s0 : S) (src dst n k j : ℕ)
      → InFlight d s d0 s0 src dst n k
      → (dst ≤ src) ⊎ (src + n ≤ dst)
      → k + 1 ≡ n
      → src + n ≤ length (sys.memory s0).storage
      → dst + n ≤ length (sys.memory s0).storage
      → length (sys.memory s0).storage < 2 ^ 64
      → d0.interrupt_id < 32
      → let (d', s', outcome) = step sys nothing d s in
        (d'.busy ≡ false)
        × (d'.completed ≡ true)
        × (d'.error ≡ false)
        × (get_or (sys.memory s').storage j 0 ≡ copied (sys.memory s0).storage src dst n j)
        × ((if d0.interrupt_controller
              then trigger (sys.interrupts s0) d0.interrupt_id
              else ok (sys.interrupts s0))
            ≡ ok (sys.interrupts s'))
        × (outcome ≡ ok tt)
  step-finishes d s d0 s0 src dst n k j f apart l from to small valid =
      let (e, m, i, o) =
        conclude-last (advanced sys d) (moved d s) (ground (arith, f.bytes, f.length_is))
          (rw (f.line.1) valid) in
      let lines : sys.interrupts (moved d s) ≡ sys.interrupts s0 =
        sys.interrupts-set_memory s _ ∙ f.lines in
      rw
        (step-memory d s f.busy (ground (arith, f.bytes, f.length_is)) f.attached.0 f.attached.1
          f.attached.2 (ground (arith, f.at_src, f.size_is)) (ground (arith, f.at_dst, f.size_is)))
        (
          rw e refl,
          rw e refl,
          rw e f.clean.0,
          ap (λ x. get_or x.storage j 0) m
              ∙ moved-holds d s d0 s0 src dst n k j f apart (ground arith) to
              ∙ ap (λ b. copied (sys.memory s0).storage src dst b j) l,
          rw (sym lines, sym f.line.0, sym f.line.1) i,
          o,
        )
