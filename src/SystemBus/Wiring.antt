-- ===== src/SystemBus/Wiring.antt =====
-- What is attached to the system bus (src/system/system_bus.cpp) and what the bus has given it.
use embedded_firmware_simula.Prelude.{
  ℕ, ◌≡◌, refl, ◌∙◌, sym, Bool, true, not, ◌||◌, List, [], ◌∷◌, Option, none, some, ◌==◌,
  if◌then◌else◌, arith, Bool-cases, inl, inr, ==_self, ==_iff,
}
use mathlib.Core.Path.{subst}
use embedded_firmware_simula.Prelude.Members.{
  has, Distinct, append-Distinct, without-Distinct, All-append, All-without, lookup, tabulate,
}
use embedded_firmware_simula.Prelude.Sorting.{All}
use embedded_firmware_simula.Dma.{
  DmaController, attach_memory, attach_mmio, attach_interrupt_controller, attach_uart,
  attach_scheduler,
}
use embedded_firmware_simula.Timer.{
  Timer, World, attach_clock, detach_clock, mark_clock, detach_scheduler, cancel_scheduled_event,
  update_scheduled_event,
}
use embedded_firmware_simula.Timer
use embedded_firmware_simula.SystemBus.{
  SystemBus, BusWorld, for_each, on_dma, wired, set_memory, set_mmio, set_interrupts,
  attach_uart_device, attach_dma, detach_dma, attach_timer, detach_timer, new,
}
use embedded_firmware_simula.SystemBus.Board.{Board as Hardware, world_of}

-- The DMA controller has the event scheduler, and every object that the bus has.
pub record IsSeen (memory mmio interrupts uart : Bool) (d : DmaController) : Type 0 where
  pub memory_seen : (not memory || d.memory) ≡ true
  pub mmio_seen : (not mmio || d.mmio_bus) ≡ true
  pub interrupts_seen : (not interrupts || d.interrupt_controller) ≡ true
  pub uart_seen : (not uart || d.uart) ≡ true
  pub scheduler : d.scheduler ≡ true

abbrev Seen : SystemBus → DmaController → Type 0
Seen s d = IsSeen s.memory s.mmio s.interrupts s.uart d

wired-Seen : (s : SystemBus) (d : DmaController) → Seen s (wired s d)
unfolding attach_memory attach_mmio attach_interrupt_controller attach_uart attach_scheduler
wired-Seen s d = record {
  memory_seen = ground arith;
  mmio_seen = ground arith;
  interrupts_seen = ground arith;
  uart_seen = ground arith;
  scheduler = refl;
}

-- The timer has the clock and the event scheduler.
pub record IsDriven (t : Timer) : Type 0 where
  pub clock : t.clock ≡ true
  pub scheduler : t.scheduler ≡ true

module _ {R T H W : Type 0} where
  pub record IsWired (w : BusWorld R T H W) : Type 0 where
    pub dmas_once : Distinct w.bus.dmas
    pub timers_once : Distinct w.bus.timers
    pub dmas_seen : All (λ i. Seen w.bus (w.board.dmas i)) w.bus.dmas
    pub timers_driven : All (λ i. IsDriven (w.board.timers i)) w.bus.timers

  for_each-dmas :
      (f : DmaController → DmaController) (xs : List ℕ) (b : Hardware R T H W) (i : ℕ)
      → Distinct xs
      → (for_each (on_dma f) xs b).dmas i ≡ (if has xs i then f (b.dmas i) else b.dmas i)
  unfolding for_each Distinct
  for_each-dmas f [] b i d = refl
  for_each-dmas f (x ∷ xs) b i d = elim (Bool-cases (x == i)) [
    | inl e ↦
        subst
          (λ j.
            (for_each (on_dma f) (x ∷ xs) b).dmas j
            ≡ (if has (x ∷ xs) j then f (b.dmas j) else b.dmas j))
          ((==_iff x i).0 e)
          (rw (==_self x) (for_each-dmas f xs (on_dma f x b) x d.1 ∙ rw (d.0, ==_self x) refl))
    | inr e ↦ rw e (for_each-dmas f xs (on_dma f x b) i d.1 ∙ rw e refl)
  ]

  for_each-timers :
      (f : DmaController → DmaController) (xs : List ℕ) (b : Hardware R T H W)
      → (for_each (on_dma f) xs b).timers ≡ b.timers
  unfolding for_each
  for_each-timers f [] b = refl
  for_each-timers f (x ∷ xs) b = for_each-timers f xs (on_dma f x b)

  -- A call that changes every attached DMA controller.
  each-IsWired :
      (w : BusWorld R T H W) (s : SystemBus) (f : DmaController → DmaController)
      → IsWired w
      → s.dmas ≡ w.bus.dmas
      → s.timers ≡ w.bus.timers
      → ((d : DmaController) → Seen w.bus d → Seen s (f d))
      → IsWired (record { bus = s; board = for_each (on_dma f) w.bus.dmas w.board })
  each-IsWired w s f k ds ts g = record {
    dmas_once = rw ds k.dmas_once;
    timers_once = rw ts k.timers_once;
    dmas_seen =
        subst (All (λ i. Seen s ((for_each (on_dma f) w.bus.dmas w.board).dmas i))) (sym ds) (
          tabulate _ w.bus.dmas (λ i h.
            rw (for_each-dmas f w.bus.dmas w.board i k.dmas_once, h)
              (g (w.board.dmas i)
                (lookup (λ i. Seen w.bus (w.board.dmas i)) w.bus.dmas k.dmas_seen i h))));
    timers_driven = rw (ts, for_each-timers f w.bus.dmas w.board) k.timers_driven;
  }

  attach_dma-IsWired :
      (w : BusWorld R T H W) (o : Option ℕ) → IsWired w → IsWired (attach_dma w o).0
  unfolding attach_dma
  attach_dma-IsWired w none k = k
  attach_dma-IsWired w (some i) k = elim (Bool-cases (has w.bus.dmas i)) [
    | inl e ↦ rw e k
    | inr e ↦ rw e (record {
      dmas_once = append-Distinct w.bus.dmas i k.dmas_once e;
      timers_once = k.timers_once;
      dmas_seen =
          All-append _ _ w.bus.dmas i (λ j ne p. rw ne p)
            (rw (==_self i) (wired-Seen w.bus (w.board.dmas i))) k.dmas_seen;
      timers_driven = k.timers_driven;
    })
  ]

  detach_dma-IsWired :
      (w : BusWorld R T H W) (o : Option ℕ) → IsWired w → IsWired (detach_dma w o).0
  unfolding detach_dma
  detach_dma-IsWired w none k = k
  detach_dma-IsWired w (some i) k = elim (Bool-cases (has w.bus.dmas i)) [
    | inl e ↦ rw e (record {
      dmas_once = without-Distinct w.bus.dmas i k.dmas_once;
      timers_once = k.timers_once;
      dmas_seen = All-without _ _ w.bus.dmas i k.dmas_once (λ j ne p. rw ne p) k.dmas_seen;
      timers_driven = k.timers_driven;
    })
    | inr e ↦ rw e k
  ]

  detach_timer-IsWired :
      (w : BusWorld R T H W) (o : Option ℕ) → IsWired w → IsWired (detach_timer w o).0
  unfolding detach_timer
  detach_timer-IsWired w none k = k
  detach_timer-IsWired w (some i) k = elim (Bool-cases (has w.bus.timers i)) [
    | inl e ↦ rw e (record {
      dmas_once = k.dmas_once;
      timers_once = without-Distinct w.bus.timers i k.timers_once;
      dmas_seen = k.dmas_seen;
      timers_driven =
          All-without _ _ w.bus.timers i k.timers_once (λ j ne p. rw ne p) k.timers_driven;
    })
    | inr e ↦ rw e k
  ]

attached-IsDriven :
    {T H : Type 0} (w : World T H) (m : T)
    → IsDriven (Timer.attach_scheduler m (attach_clock w true) true).timer
unfolding Timer.attach_scheduler attach_clock update_scheduled_event cancel_scheduled_event
attached-IsDriven w m = record { clock = ground arith; scheduler = ground arith }

pub data Call : Type 0 where
  sets_memory sets_mmio sets_interrupts attaches_uart : Bool → Call
  attaches_dma detaches_dma attaches_timer detaches_timer : Option ℕ → Call

module _ {R T H W : Type 0} (compare_match : ℕ → T) where
  attach_timer-IsWired :
      (w : BusWorld R T H W) (o : Option ℕ) → IsWired w → IsWired (attach_timer compare_match w o).0
  unfolding attach_timer
  attach_timer-IsWired w none k = k
  attach_timer-IsWired w (some i) k = elim (Bool-cases (has w.bus.timers i)) [
    | inl e ↦ rw e k
    | inr e ↦ rw e (record {
      dmas_once = k.dmas_once;
      timers_once = append-Distinct w.bus.timers i k.timers_once e;
      dmas_seen = k.dmas_seen;
      timers_driven =
          All-append _ _ w.bus.timers i (λ j ne p. rw ne p)
            (rw (==_self i)
              (attached-IsDriven (world_of w.board (w.board.timers i)) (compare_match i)))
            k.timers_driven;
    })
  ]

  unfoldable pub step : BusWorld R T H W → Call → BusWorld R T H W
  step w (sets_memory given) = set_memory w given
  step w (sets_mmio given) = set_mmio w given
  step w (sets_interrupts given) = set_interrupts w given
  step w (attaches_uart given) = attach_uart_device w given
  step w (attaches_dma o) = (attach_dma w o).0
  step w (detaches_dma o) = (detach_dma w o).0
  step w (attaches_timer o) = (attach_timer compare_match w o).0
  step w (detaches_timer o) = (detach_timer w o).0

  unfoldable pub run : BusWorld R T H W → List Call → BusWorld R T H W
  unfolding step
  run w [] = w
  run w (c ∷ cs) = run (step w c) cs

  step-IsWired : (w : BusWorld R T H W) (c : Call) → IsWired w → IsWired (step w c)
  unfolding step set_memory set_mmio set_interrupts attach_uart_device attach_memory attach_mmio
      attach_interrupt_controller attach_uart
  step-IsWired w (sets_memory given) k =
      each-IsWired w (record w.bus { memory = given }) (λ d. attach_memory d given) k refl refl
        (λ d p. record {
          memory_seen = ground arith;
          mmio_seen = p.mmio_seen;
          interrupts_seen = p.interrupts_seen;
          uart_seen = p.uart_seen;
          scheduler = p.scheduler;
        })
  step-IsWired w (sets_mmio given) k =
      each-IsWired w (record w.bus { mmio = given }) (λ d. attach_mmio d given) k refl refl
        (λ d p. record {
          memory_seen = p.memory_seen;
          mmio_seen = ground arith;
          interrupts_seen = p.interrupts_seen;
          uart_seen = p.uart_seen;
          scheduler = p.scheduler;
        })
  step-IsWired w (sets_interrupts given) k =
      each-IsWired w (record w.bus { interrupts = given })
        (λ d. attach_interrupt_controller d given d.interrupt_id) k refl refl
        (λ d p. record {
          memory_seen = p.memory_seen;
          mmio_seen = p.mmio_seen;
          interrupts_seen = ground arith;
          uart_seen = p.uart_seen;
          scheduler = p.scheduler;
        })
  step-IsWired w (attaches_uart given) k =
      each-IsWired w (record w.bus { uart = given }) (λ d. attach_uart d given) k refl refl
        (λ d p. record {
          memory_seen = p.memory_seen;
          mmio_seen = p.mmio_seen;
          interrupts_seen = p.interrupts_seen;
          uart_seen = ground arith;
          scheduler = p.scheduler;
        })
  step-IsWired w (attaches_dma o) k = attach_dma-IsWired w o k
  step-IsWired w (detaches_dma o) k = detach_dma-IsWired w o k
  step-IsWired w (attaches_timer o) k = attach_timer-IsWired w o k
  step-IsWired w (detaches_timer o) k = detach_timer-IsWired w o k

  -- After any wiring calls on a new bus, in any order: no DMA controller and no timer is attached
  -- twice; every attached DMA controller has the event scheduler, and has the memory, the MMIO
  -- bus, the interrupt controller and the UART if the bus has them, whichever was attached first;
  -- and every attached timer has the clock and the event scheduler.
  pub run-IsWired :
      (memory mmio interrupts : Bool) (board : Hardware R T H W) (cs : List Call)
      → IsWired (run (record { bus = new memory mmio interrupts; board = board }) cs)
  unfolding run Distinct
  run-IsWired memory mmio interrupts board cs =
      keep _ cs (record { dmas_once = tt; timers_once = tt; dmas_seen = tt; timers_driven = tt })
    where
      keep : (w : BusWorld R T H W) (cs : List Call) → IsWired w → IsWired (run w cs)
      keep w [] k = k
      keep w (c ∷ cs) k = keep (step w c) cs (step-IsWired w c k)
