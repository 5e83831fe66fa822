-- ===== src/Rtos/Delays.antt =====
-- The delay queue: what `processDelayQueue` wakes.
use embedded_firmware_simula.Prelude.{
  ℕ, ◌≡◌, refl, true, ◌&&◌, not, List, [], ◌∷◌, ◌++◌, ◌==◌, if◌then◌else◌, arith,
}
use embedded_firmware_simula.Rtos.Queue.{contains, contains-append}
use embedded_firmware_simula.Rtos.{
  Scheduler, ready, with_state, set_state, add_to_ready_queue, is_due, process_delays,
  process_delay_queue,
}

module _ {F : Type 0} where
  woken_tasks :
      (s : Scheduler F) (a id : ℕ)
      → (add_to_ready_queue (set_state s a ready) a).tasks id
        ≡ (if a == id then with_state ready (s.tasks id) else s.tasks id)
  unfolding add_to_ready_queue set_state
  woken_tasks s a id = ground arith

  woken_clock :
      (s : Scheduler F) (a : ℕ)
      → (add_to_ready_queue (set_state s a ready) a).tick_count ≡ s.tick_count
  unfolding add_to_ready_queue set_state
  woken_clock s a = ground arith

  process_delays-tasks :
      (ids kept : List ℕ) (s : Scheduler F) (id : ℕ)
      → ((process_delays ids kept s).tasks id ≡ (
          if contains id ids && is_due s.tick_count (s.tasks id)
          then with_state ready (s.tasks id)
          else s.tasks id))
  unfolding process_delays contains
  process_delays-tasks [] kept s id = refl
  process_delays-tasks (a ∷ ids) kept s id = ground (
    arith,
    woken_tasks s a id,
    woken_clock s a,
    process_delays-tasks ids (kept ++ a ∷ []) s id,
    process_delays-tasks ids kept (add_to_ready_queue (set_state s a ready) a) id,
  )

  process_delays-queue :
      (ids kept : List ℕ) (s : Scheduler F) (id : ℕ)
      → contains id (process_delays ids kept s).delay_queue ≡ (
          if contains id kept
          then true
          else contains id ids && not (is_due s.tick_count (s.tasks id)))
  unfolding process_delays contains
  process_delays-queue [] kept s id = ground arith
  process_delays-queue (a ∷ ids) kept s id = ground (
    arith,
    woken_tasks s a id,
    woken_clock s a,
    contains-append id a kept,
    process_delays-queue ids (kept ++ a ∷ []) s id,
    process_delays-queue ids kept (add_to_ready_queue (set_state s a ready) a) id,
  )

  -- Exactly the delayed tasks whose tick has come become ready and leave the delay queue; the other
  -- tasks are as they were, and the other delayed tasks wait on.
  pub process_delay_queue_lem :
      (s : Scheduler F) (id : ℕ)
      → ((process_delay_queue s).tasks id ≡ (
          if contains id s.delay_queue && is_due s.tick_count (s.tasks id)
          then with_state ready (s.tasks id)
          else s.tasks id))
        × (contains id (process_delay_queue s).delay_queue
            ≡ (contains id s.delay_queue && not (is_due s.tick_count (s.tasks id))))
  unfolding process_delay_queue contains
  process_delay_queue_lem s id =
      (process_delays-tasks s.delay_queue [] s id, process_delays-queue s.delay_queue [] s id)
