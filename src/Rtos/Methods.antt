-- ===== src/Rtos/Methods.antt =====
-- What the methods of the scheduler keep, one by one.
use embedded_firmware_simula.Prelude.{
  ℕ, ◌+◌, ◌%◌, ◌^◌, ◌<◌, ◌≡◌, refl, Bool, true, ◌&&◌, ◌||◌, not, List, Option, none, some, ◌==◌,
  is_some, Outcome, ok, throws, arith, inl, inr, Bool-cases,
}
use Prim.Native.String.{String}
use embedded_firmware_simula.Rtos.Queue.{contains, push_back_new}
use embedded_firmware_simula.Rtos.Consistency.{
  Consistent, wake-Consistent, settle-Consistent, drop_task-Consistent, enter-Consistent,
  process_delay_queue-Consistent, schedule-Consistent, rejoin-Consistent,
}
use embedded_firmware_simula.Rtos.{
  Task, suspended, Scheduler, idle_task_id, ensure_idle_task, add_to_ready_queue, new, create_task,
  delete_task, start, yield_task, delay, tick, park, suspend_task, resume_task, requeue, block,
  set_state, is_suspended, is_state_running,
}

module _ {F : Type 0} where
  -- What the scheduler is after `createTask`; one that throws changes nothing.
  abbrev pub created : Scheduler F → Outcome (Scheduler F × ℕ) → Scheduler F
  created s (ok (s', id)) = s'
  created s (throws e) = s

  pub new-Consistent : (idle : F) → Consistent (new idle)
  unfolding new ensure_idle_task add_to_ready_queue push_back_new contains
  new-Consistent idle = record {
    holds = λ p id. ground arith;
    distinct = λ p. ground arith;
    fresh = λ id. ground arith;
    idle = refl;
  }

  pub create_task-Consistent :
      (s : Scheduler F) (name : String) (function : Option F) (priority stack_size : ℕ)
      → Consistent s
      → s.next_task_id + 1 < 2 ^ 32
      → Consistent (created s (create_task s name function priority stack_size))
  unfolding create_task
  create_task-Consistent s name none priority stack_size c l = c
  create_task-Consistent s name (some f) priority stack_size c l =
      enter-Consistent (record s { next_task_id = (s.next_task_id + 1) % 2 ^ 32 }) s.next_task_id _
        (ground (arith, c.fresh s.next_task_id)) refl (ground arith)
        (record {
          holds = c.holds;
          distinct = c.distinct;
          fresh = λ id. ground (arith, c.fresh id);
          idle = c.idle;
        })

  -- What the queues and the tasks say stays true when the rest of the state changes.
  pub apart-Consistent :
      (s : Scheduler F) (run : Bool) (now current : ℕ) (delayed : List ℕ)
      → Consistent s
      → Consistent (record s {
        is_running = run;
        tick_count = now;
        current_task_id = current;
        delay_queue = delayed;
      })
  apart-Consistent s run now current delayed c = record {
    holds = c.holds;
    distinct = c.distinct;
    fresh = c.fresh;
    idle = c.idle;
  }

  park-Consistent :
      (s : Scheduler F) (id : ℕ)
      → is_some (s.tasks id) ≡ true
      → Consistent s
      → Consistent (park s id)
  unfolding park set_state
  park-Consistent s id k c = go (s.tasks id) refl
    where
      go : (o : Option (Task F)) → s.tasks id ≡ o → Consistent (park s id)
      go none e = ground (arith, k, e)
      go (some t) e =
          rw (park, set_state, e)
            (apart-Consistent _ _ _ _ _
              (settle-Consistent s id t (record t { state = suspended }) e refl refl c))

  pub delete_task-Consistent :
      (s : Scheduler F) (id : ℕ) → Consistent s → Consistent (delete_task s id).0
  unfolding delete_task
  delete_task-Consistent s id c = elim (Bool-cases (id == idle_task_id)) [
    | inl e ↦ simp e c
    | inr e ↦ elim (Bool-cases (is_some (s.tasks id))) [
      | inl k ↦ elim (Bool-cases (s.current_task_id == id)) [
        | inl h ↦
            simp (e, k, h)
              (schedule-Consistent _
                (apart-Consistent _ _ _ _ _ (drop_task-Consistent s id (ground arith) c)))
        | inr h ↦ simp (e, k, h) (drop_task-Consistent s id (ground arith) c)
      ]
      | inr k ↦ simp (e, k) c
    ]
  ]

  pub suspend_task-Consistent :
      (s : Scheduler F) (id : ℕ) → Consistent s → Consistent (suspend_task s id).0
  unfolding suspend_task
  suspend_task-Consistent s id c = elim (Bool-cases (is_some (s.tasks id))) [
    | inl k ↦ elim (Bool-cases (id == s.current_task_id && s.is_running)) [
      | inl h ↦ simp (k, h) (schedule-Consistent _ (park-Consistent s id k c))
      | inr h ↦ simp (k, h) (park-Consistent s id k c)
    ]
    | inr k ↦ simp k c
  ]

  pub resume_task-Consistent :
      (s : Scheduler F) (id : ℕ) → Consistent s → Consistent (resume_task s id).0
  unfolding resume_task
  resume_task-Consistent s id c = go (s.tasks id) refl
    where
      go : (o : Option (Task F)) → s.tasks id ≡ o → Consistent (resume_task s id).0
      go none e = simp (resume_task, e) c
      go (some t) e = elim (Bool-cases (is_suspended t.state)) [
        | inl h ↦ simp (resume_task, e, h) (wake-Consistent s id c)
        | inr h ↦ simp (resume_task, e, h) c
      ]

  pub start-Consistent : (idle : F) (s : Scheduler F) → Consistent s → Consistent (start idle s)
  unfolding start ensure_idle_task
  start-Consistent idle s c =
      simp (c.idle) (apart-Consistent s true s.tick_count s.current_task_id s.delay_queue c)

  pub tick-Consistent : (s : Scheduler F) → Consistent s → Consistent (tick s)
  unfolding tick
  tick-Consistent s c = process_delay_queue-Consistent _ (apart-Consistent _ _ _ _ _ c)

  requeue-Consistent :
      (s : Scheduler F) → Consistent s → Consistent (requeue s (s.tasks s.current_task_id))
  requeue-Consistent s c = go (s.tasks s.current_task_id) refl
    where
      go :
          (o : Option (Task F))
          → s.tasks s.current_task_id ≡ o
          → Consistent (requeue s (s.tasks s.current_task_id))
      go none e = simp e c
      go (some t) e = elim (Bool-cases (is_state_running t.state)) [
        | inl h ↦ simp (e, h) (rejoin-Consistent s s.current_task_id c)
        | inr h ↦ simp (e, h) c
      ]

  pub yield_task-Consistent : (s : Scheduler F) → Consistent s → Consistent (yield_task s).0
  unfolding yield_task
  yield_task-Consistent s c = elim (Bool-cases s.is_running) [
    | inl e ↦ elim (Bool-cases (s.current_task_id == idle_task_id)) [
      | inl h ↦ simp (e, h) (schedule-Consistent s c)
      | inr h ↦ simp (e, h) (schedule-Consistent _ (requeue-Consistent s c))
    ]
    | inr e ↦ simp e c
  ]

  block-Consistent :
      (s : Scheduler F) (ticks : ℕ)
      → Consistent s
      → Consistent (block s ticks (s.tasks s.current_task_id))
  block-Consistent s ticks c = go (s.tasks s.current_task_id) refl
    where
      go :
          (o : Option (Task F))
          → s.tasks s.current_task_id ≡ o
          → Consistent (block s ticks (s.tasks s.current_task_id))
      go none e = simp e c
      go (some t) e =
          simp e
            (apart-Consistent _ _ _ _ _ (settle-Consistent s s.current_task_id t _ e refl refl c))

  pub delay-Consistent : (s : Scheduler F) (ticks : ℕ) → Consistent s → Consistent (delay s ticks).0
  unfolding delay
  delay-Consistent s ticks c =
      elim (Bool-cases (not s.is_running || s.current_task_id == idle_task_id)) [
        | inl e ↦ simp e c
        | inr e ↦ simp e (schedule-Consistent _ (block-Consistent s ticks c))
      ]
