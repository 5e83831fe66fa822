-- ===== src/Rtos/Policy.antt =====
-- The choice of the next task: `pickNextTask` and `schedule` of src/rtos/rtos_scheduler.cpp.
use mathlib.Core.Path.{subst}
use embedded_firmware_simula.Prelude.{
  ℕ, zero, suc, ◌<◌, ◌≡◌, refl, sym, ◌∙◌, true, false, List, [], ◌∷◌, ◌++◌, ltb, update, arith, inl,
  inr, Bool-cases,
}
use embedded_firmware_simula.Rtos.Queue.{contains}
use embedded_firmware_simula.Rtos.Consistency.{Consistent, queued, process_delay_queue-Consistent}
use embedded_firmware_simula.Rtos.{
  Scheduler, pick_below, pick_next_task, process_delay_queue, schedule, switch_to,
}

nothing-held : (xs : List ℕ) → ((i : ℕ) → contains i xs ≡ false) → xs ≡ []
unfolding contains
nothing-held [] h = refl
nothing-held (x ∷ xs) h = ground (arith, h x)

something-held :
    (i : ℕ) (xs : List ℕ) → contains i xs ≡ true → (x : ℕ) × (ys : List ℕ) × (xs ≡ x ∷ ys)
unfolding contains
something-held i [] h = ground arith
something-held i (x ∷ xs) h = (x, xs, refl)

front-held : (x : ℕ) (xs ys : List ℕ) → ys ≡ x ∷ xs → contains x ys ≡ true
unfolding contains
front-held x xs ys e = rw e (ground arith)

module _ {F : Type 0} where
  -- The state with the front of a queue moved to its back.
  abbrev pub rotated : Scheduler F → ℕ → ℕ → List ℕ → Scheduler F
  rotated s q x xs = record s { ready_queue = update s.ready_queue q (xs ++ x ∷ []) }

  pick_below-rotated :
      (n q x : ℕ) (xs : List ℕ) (s : Scheduler F)
      → q < n
      → s.ready_queue q ≡ x ∷ xs
      → ((r : ℕ) → q < r → r < n → s.ready_queue r ≡ [])
      → pick_below n s ≡ (rotated s q x xs, x)
  unfolding pick_below
  pick_below-rotated zero q x xs s l e above = ground arith
  pick_below-rotated (suc n) q x xs s l e above = elim (Bool-cases (ltb q n)) [
    | inl h ↦
        rw (above n (ground arith) (ground arith), pick_below)
          (pick_below-rotated n q x xs s (ground arith) e (λ r a b. above r a (ground arith)))
    | inr h ↦ at_top (ground arith)
  ]
    where
      at_top : n ≡ q → pick_below (suc n) s ≡ (rotated s q x xs, x)
      at_top h =
          subst (λ k. pick_below (suc k) s ≡ (rotated s q x xs, x)) (sym h)
            (rw (pick_below, e) refl)

  -- The task at the front of the highest queue that is not empty is picked, and goes to the back of
  -- its queue; nothing else changes.
  pub pick_next_task-rotated :
      (s : Scheduler F) (q x : ℕ) (xs : List ℕ)
      → q < 256
      → s.ready_queue q ≡ x ∷ xs
      → ((r : ℕ) → q < r → r < 256 → s.ready_queue r ≡ [])
      → pick_next_task s ≡ (rotated s q x xs, x)
  unfolding pick_next_task
  pick_next_task-rotated s q x xs l e above = pick_below-rotated 256 q x xs s l e above

  pick_next_task-highest :
      (s : Scheduler F) (q id : ℕ)
      → Consistent s
      → q < 256
      → queued q (s.tasks id) ≡ true
      → ((p i : ℕ) → q < p → p < 256 → queued p (s.tasks i) ≡ false)
      → queued q (s.tasks (pick_next_task s).1) ≡ true
  pick_next_task-highest s q id c l here above =
      let (x, xs, e) = something-held id (s.ready_queue q) (c.holds q id ∙ here) in
      rw
        (pick_next_task-rotated s q x xs l e
          (λ r a b. nothing-held (s.ready_queue r) (λ i. c.holds r i ∙ above r i a b)))
        (sym (c.holds q x) ∙ front-held x xs (s.ready_queue q) e)

  schedule-current :
      (s : Scheduler F)
      → s.is_running ≡ true
      → (schedule s).0.current_task_id ≡ (pick_next_task (process_delay_queue s)).1
  unfolding schedule switch_to
  schedule-current s on = ground arith

  -- A running scheduler switches to a task of the highest priority among the tasks that may run once
  -- the delays that are over have ended.
  pub schedule-highest :
      (s : Scheduler F) (q id : ℕ)
      → Consistent s
      → s.is_running ≡ true
      → q < 256
      → queued q ((process_delay_queue s).tasks id) ≡ true
      → ((p i : ℕ) → q < p → p < 256 → queued p ((process_delay_queue s).tasks i) ≡ false)
      → queued q ((process_delay_queue s).tasks (schedule s).0.current_task_id) ≡ true
  schedule-highest s q id c on l here above = rw (schedule-current s on) (
      pick_next_task-highest (process_delay_queue s) q id (process_delay_queue-Consistent s c) l
        here above)
