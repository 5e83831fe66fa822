-- ===== src/Cpu/Cycles.antt =====
-- The cycles that the CPU counts (src/cpu/cpu.cpp).
use embedded_firmware_simula.Prelude.{
  ℕ, zero, suc, ◌+◌, ◌%◌, ◌^◌, ◌<◌, ◌≤◌, ◌≡◌, ◌⊎◌, inl, inr, refl, ◌∙◌, sym, ap, Bool, true, false,
  ◌&&◌, List, [], ◌∷◌, Option, none, some, Outcome, ok, throws, Exception, and_then, arith,
  Bool-cases, if◌then◌else◌,
}
use mathlib.Core.Path.{subst}
use embedded_firmware_simula.Power.{is_power_on}
use embedded_firmware_simula.Events.{Event, take_ready, run_callbacks, execute_ready_events}
use embedded_firmware_simula.Interrupts.{dispatch}
use embedded_firmware_simula.Mmio.Bus.{RegisterStore}
use embedded_firmware_simula.Firmware.{Names, Signal}
use embedded_firmware_simula.Firmware
use embedded_firmware_simula.Rtos
use embedded_firmware_simula.Adc.Voltages.{Double}
use embedded_firmware_simula.SystemBus.Board.{Board as Hardware}
use embedded_firmware_simula.Cpu.{
  Machine, Programs, power_controller, send, start, start_rtos, step, step_bus, step_software,
  tick_bus, run_events, with_events, serve_interrupts, call_task, call_event, run_loop, run, handle,
}

module _ {N A F R T H W : Type 0} where
  -- The cycle count, whether the CPU runs, and whether the power is on.
  abbrev pub core : Machine N A F R T H W → ℕ × Bool × Bool
  core m = (m.cpu.cycles, m.cpu.is_running, is_power_on (power_controller m))

  -- An operation that leaves these as they are, whether it throws or not.
  abbrev pub IsSteady :
      (Machine N A F R T H W → Machine N A F R T H W × Outcome (Unit {0})) → Type 0
  IsSteady f = (m : Machine N A F R T H W) → core (f m).0 ≡ core m

  -- None of the programs counts cycles, stops or starts the CPU, or switches the power.
  pub record AreSteady (p : Programs N A F R T H W) : Type 0 where
    pub callbacks : (c : T) → IsSteady (p.callback c)
    pub handlers : (h : H) → IsSteady (p.handler h)
    pub applications : (s : Signal A) → IsSteady (p.application s)
    pub tasks : (f : F) → IsSteady (p.task f)

  abbrev counted : Machine N A F R T H W → Machine N A F R T H W
  counted m = record m { cpu = record m.cpu { cycles = (m.cpu.cycles + 1) % 2 ^ 64 } }

  counted-core :
      (m : Machine N A F R T H W)
      → core (counted m)
        ≡ ((m.cpu.cycles + 1) % 2 ^ 64, m.cpu.is_running, is_power_on (power_controller m))
  unfolding power_controller
  counted-core m = refl

  and_then-core :
      (next : Machine N A F R T H W → Machine N A F R T H W × Outcome (Unit {0}))
      (r : Machine N A F R T H W × Outcome (Unit {0}))
      → IsSteady next
      → core (and_then next r).0 ≡ core r.0
  and_then-core next (m, ok u) k = k m
  and_then-core next (m, throws e) k = refl

  -- From the count `c`, so many cycles, all of them unless something threw.
  abbrev pub Counts : ℕ → ℕ → Machine N A F R T H W × Outcome (Unit {0}) → Type 0
  Counts c n (m, outcome) =
      (k : ℕ) × (k ≤ n)
      × (m.cpu.cycles ≡ (c + k) % 2 ^ 64)
      × (((k ≡ n) × (outcome ≡ ok tt)) ⊎ ((e : Exception) × (outcome ≡ throws e)))

  branches-core :
      (b : Bool) (r s : Machine N A F R T H W × Outcome (Unit {0})) (c : ℕ × Bool × Bool)
      → core r.0 ≡ c
      → core s.0 ≡ c
      → core (if b then r else s).0 ≡ c
  branches-core true r s c p q = p
  branches-core false r s c p q = q

module _ {N A F R T H W : Type 0} (names : Names N) (double : Double W)
    (store : RegisterStore (Hardware R T H W) R) (programs : Programs N A F R T H W)
    (steady : AreSteady programs) where
  send-IsSteady : (ss : List (Signal A)) → IsSteady (send names double store programs ss)
  unfolding send
  send-IsSteady [] m = refl
  send-IsSteady (s ∷ ss) m =
      and_then-core (send names double store programs ss) (programs.application s m)
        (send-IsSteady ss)
      ∙ steady.applications s m

  run_callbacks-core :
      (es : List (Event T)) (r : Machine N A F R T H W × Outcome (Unit {0})) (k : ℕ)
      → core (run_callbacks (call_event names double store programs) es r k).0.0 ≡ core r.0
  unfolding run_callbacks
  run_callbacks-core [] r k = refl
  run_callbacks-core (e ∷ es) r k = called e.callback (run_callbacks-core es)
    where
      called :
          (o : Option T)
          → ((r : Machine N A F R T H W × Outcome (Unit {0})) (k : ℕ)
              → core (run_callbacks (call_event names double store programs) es r k).0.0 ≡ core r.0)
          → core
              (elim o as (λ x. (Machine N A F R T H W × Outcome (Unit {0})) × ℕ) [
                | none ↦ run_callbacks (call_event names double store programs) es r k
                | some c ↦
                    run_callbacks
                      (call_event names double store programs)
                      es
                      (call_event names double store programs c r)
                      (k + 1)
              ]).0.0
            ≡ core r.0
      called none rest = rest r k
      called (some c) rest =
          rest (call_event names double store programs c r) (k + 1)
          ∙ and_then-core (programs.callback c) r (steady.callbacks c)

  run_events-IsSteady : IsSteady (run_events names double store programs)
  unfolding run_events execute_ready_events power_controller
  run_events-IsSteady m =
      let (s, es) = take_ready m.bus_world.board.events m.bus_world.board.clock.cycles in
      run_callbacks-core es (with_events names double store programs s (m, ok tt)) 0

  handle-IsSteady : (h : Option H) → IsSteady (handle names double store programs h)
  handle-IsSteady none m = refl
  handle-IsSteady (some h) m = steady.handlers h m

  serve_interrupts-IsSteady : IsSteady (serve_interrupts names double store programs)
  unfolding serve_interrupts power_controller
  serve_interrupts-IsSteady m = elim (Bool-cases m.bus_world.bus.interrupts) [
    | inl e ↦ simp e (handle-IsSteady (dispatch m.bus_world.board.interrupts).2 _)
    | inr e ↦ simp e refl
  ]

  step_bus-IsSteady : IsSteady (step_bus names double store programs)
  unfolding step_bus tick_bus power_controller
  step_bus-IsSteady m =
      branches-core m.cpu.system_bus _ (m, ok tt) (core m)
        (and_then-core (serve_interrupts names double store programs)
            (and_then (run_events names double store programs)
              (tick_bus names double store programs m))
            serve_interrupts-IsSteady
          ∙ and_then-core (run_events names double store programs)
              (tick_bus names double store programs m) run_events-IsSteady)
        refl

  call_task-IsSteady : (f : Option F) → IsSteady (call_task names double store programs f)
  call_task-IsSteady none m = refl
  call_task-IsSteady (some f) m = steady.tasks f m

  step_software-IsSteady : IsSteady (step_software names double store programs)
  unfolding step_software power_controller
  step_software-IsSteady m =
      branches-core (m.cpu.rtos_scheduler && Rtos.is_active m.rtos) _ _ (core m)
        (call_task-IsSteady (Rtos.schedule (Rtos.tick m.rtos)).1
          (record m { rtos = (Rtos.schedule (Rtos.tick m.rtos)).0 }))
        (branches-core m.cpu.is_running _ (m, ok tt) (core m)
          (send-IsSteady (Firmware.update names m.cpu.firmware_manager) m) refl)

  step-on :
      (m : Machine N A F R T H W)
      → is_power_on (power_controller m) ≡ true
      → step names double store programs m
        ≡ and_then
            (step_software names double store programs)
            (step_bus names double store programs (counted m))
  unfolding step
  step-on m on = rw on refl

  -- A step counts one cycle, whether it throws or not, and leaves the rest.
  step-core :
      (m : Machine N A F R T H W)
      → is_power_on (power_controller m) ≡ true
      → core (step names double store programs m).0
        ≡ ((m.cpu.cycles + 1) % 2 ^ 64, m.cpu.is_running, is_power_on (power_controller m))
  step-core m on =
      ap (λ r. core r.0) (step-on m on)
      ∙ and_then-core (step_software names double store programs)
          (step_bus names double store programs (counted m)) step_software-IsSteady
      ∙ step_bus-IsSteady (counted m)
      ∙ counted-core m

  start_rtos-IsSteady : IsSteady (start_rtos names double store programs)
  unfolding power_controller
  start_rtos-IsSteady m = elim (Bool-cases m.cpu.rtos_scheduler) [
    | inl e ↦ simp e refl
    | inr e ↦ simp e refl
  ]

  -- The loop after a step, from what the rest of it does.
  rest-Counts :
      (n c : ℕ) (r : Machine N A F R T H W × Outcome (Unit {0}))
      → core r.0 ≡ ((c + 1) % 2 ^ 64, true, true)
      → ((m : Machine N A F R T H W)
          → core m ≡ ((c + 1) % 2 ^ 64, true, true)
          → Counts m.cpu.cycles n (run_loop names double store programs n m))
      → Counts c (suc n) (and_then (run_loop names double store programs n) r)
  rest-Counts n c (m, ok u) k rest =
      let (j, l, e, o) = rest m k in
      let base : m.cpu.cycles ≡ (c + 1) % 2 ^ 64 = ap (λ p. p.0) k in
      (
        j + 1,
        omega arith,
        e ∙ omega (arith, base),
        elim o [ inl (a, b) ↦ inl (omega (arith, a), b) | inr t ↦ inr t ],
      )
  rest-Counts n c (m, throws e) k rest = (1, omega arith, ap (λ p. p.0) k, inr (e, refl))

  run_loop-on :
      (n : ℕ) (m : Machine N A F R T H W)
      → m.cpu.is_running ≡ true
      → is_power_on (power_controller m) ≡ true
      → run_loop names double store programs (suc n) m
        ≡ and_then (run_loop names double store programs n) (step names double store programs m)
  unfolding run_loop
  run_loop-on n m going on = simp (going, on) refl

  -- The loop for so many cycles, from a machine that is on and runs.
  run_loop-Counts :
      (n : ℕ) (m : Machine N A F R T H W)
      → m.cpu.is_running ≡ true
      → is_power_on (power_controller m) ≡ true
      → m.cpu.cycles < 2 ^ 64
      → Counts m.cpu.cycles n (run_loop names double store programs n m)
  unfolding run_loop
  run_loop-Counts zero m going on small = (0, omega arith, omega (arith, small), inl (refl, refl))
  run_loop-Counts (suc n) m going on small =
      subst (Counts m.cpu.cycles (suc n)) (sym (run_loop-on n m going on)) (
        rest-Counts n m.cpu.cycles (step names double store programs m)
          (step-core m on
            ∙ ap (λ b. ((m.cpu.cycles + 1) % 2 ^ 64, b, is_power_on (power_controller m))) going
            ∙ ap (λ b. ((m.cpu.cycles + 1) % 2 ^ 64, true, b)) on)
          (λ m' k.
            run_loop-Counts n m' (ap (λ p. p.1) k) (ap (λ p. p.2) k)
              (omega (arith, ap (λ p. p.0) k))))

  -- A start of the CPU.
  start-core :
      (m : Machine N A F R T H W)
      → core (start names double store programs m).0
        ≡ (m.cpu.cycles, true, is_power_on (power_controller m))
  unfolding start power_controller
  start-core m = begun m.cpu.is_running refl
    where
      awake : Machine N A F R T H W
      awake = record m { cpu = record m.cpu { is_running = true } }

      sent : Machine N A F R T H W × Outcome (Unit {0})
      sent =
          send names double store programs (Firmware.initialize names m.cpu.firmware_manager) awake

      begun :
          (b : Bool)
          → m.cpu.is_running ≡ b
          → core
              (if b then (m, ok tt) else and_then (start_rtos names double store programs) sent).0
            ≡ (m.cpu.cycles, true, is_power_on (power_controller m))
      begun true e = ap (λ b. (m.cpu.cycles, b, is_power_on (power_controller m))) e
      begun false e =
          and_then-core (start_rtos names double store programs) sent start_rtos-IsSteady
          ∙ send-IsSteady (Firmware.initialize names m.cpu.firmware_manager) awake

  run-Counts :
      (c n : ℕ) (r : Machine N A F R T H W × Outcome (Unit {0}))
      → core r.0 ≡ (c, true, true)
      → c < 2 ^ 64
      → Counts c n (and_then (run_loop names double store programs n) r)
  run-Counts c n (m, ok u) k small =
      subst (λ d. Counts d n (run_loop names double store programs n m)) (ap (λ p. p.0) k)
        (run_loop-Counts n m (ap (λ p. p.1) k) (ap (λ p. p.2) k) (omega (arith, ap (λ p. p.0) k)))
  run-Counts c n (m, throws e) k small =
      (0, omega arith, ap (λ p. p.0) k ∙ omega (arith, small), inr (e, refl))

  -- A run of n cycles, of programs that do not count cycles, start or stop the CPU, or switch the
  -- power, on a machine whose power is on: unless a program or a peripheral throws, exactly n
  -- steps are counted, and if one throws, at most n.
  pub run-cycles :
      (m : Machine N A F R T H W) (n : ℕ)
      → is_power_on (power_controller m) ≡ true
      → m.cpu.cycles < 2 ^ 64
      → Counts m.cpu.cycles n (run names double store programs m n)
  unfolding run
  run-cycles m n on small =
      run-Counts m.cpu.cycles n (start names double store programs m)
        (start-core m ∙ ap (λ b. (m.cpu.cycles, true, b)) on) small
