-- ===== src/Rtos/Steps.antt =====
-- The methods of the scheduler as steps.
use embedded_firmware_simula.Prelude.{
  ℕ, ◌+◌, ◌%◌, ◌^◌, ◌<◌, ◌≤◌, ◌≡◌, refl, false, List, [], ◌∷◌, Option, none, some, arith, length,
}
use Prim.Native.String.{String}
use embedded_firmware_simula.Rtos.Consistency.{Consistent, schedule-Consistent}
use embedded_firmware_simula.Rtos.{
  Scheduler, idle_task_id, ensure_idle_task, add_to_ready_queue, new, create_task, delete_task,
  drop_task, start, stop, yield_task, delay, tick, park, suspend_task, resume_task, reset, schedule,
  requeue, block, process_delay_queue, remove_from_ready_queue, set_state,
}
use embedded_firmware_simula.Rtos.Ids.{process_delays-next, schedule-next}
use embedded_firmware_simula.Rtos.Methods.{
  created, new-Consistent, create_task-Consistent, delete_task-Consistent, suspend_task-Consistent,
  resume_task-Consistent, start-Consistent, tick-Consistent, yield_task-Consistent,
  delay-Consistent, apart-Consistent,
}

-- A call of a method.
pub data Call (F : Type 0) : Type 0 where
  create_call : String → Option F → ℕ → ℕ → Call F
  delete_call suspend_call resume_call delay_call : ℕ → Call F
  start_call stop_call schedule_call yield_call tick_call reset_call : Call F

module _ {F : Type 0} (idle : F) where
  unfoldable pub step : Scheduler F → Call F → Scheduler F
  step s (create_call name function priority stack_size) =
      created s (create_task s name function priority stack_size)
  step s (delete_call id) = (delete_task s id).0
  step s (suspend_call id) = (suspend_task s id).0
  step s (resume_call id) = (resume_task s id).0
  step s (delay_call ticks) = (delay s ticks).0
  step s start_call = start idle s
  step s stop_call = stop s
  step s schedule_call = (schedule s).0
  step s yield_call = (yield_task s).0
  step s tick_call = tick s
  step s reset_call = reset idle s

  -- Every method keeps the ready queues, the ids and the idle task as they should be, as long as
  -- the ids have not run out.
  pub step-Consistent :
      (s : Scheduler F) (call : Call F)
      → Consistent s
      → s.next_task_id + 1 < 2 ^ 32
      → Consistent (step s call)
  unfolding step reset
  step-Consistent s (create_call name f priority size) c l =
      create_task-Consistent s name f priority size c l
  step-Consistent s (delete_call id) c l = delete_task-Consistent s id c
  step-Consistent s (suspend_call id) c l = suspend_task-Consistent s id c
  step-Consistent s (resume_call id) c l = resume_task-Consistent s id c
  step-Consistent s (delay_call ticks) c l = delay-Consistent s ticks c
  step-Consistent s start_call c l = start-Consistent idle s c
  step-Consistent s stop_call c l = unfold stop in apart-Consistent s false _ _ _ c
  step-Consistent s schedule_call c l = schedule-Consistent s c
  step-Consistent s yield_call c l = yield_task-Consistent s c
  step-Consistent s tick_call c l = tick-Consistent s c
  step-Consistent s reset_call c l = unfold new in new-Consistent idle

  -- A call gives out one id at most.
  step-next :
      (s : Scheduler F) (call : Call F)
      → 0 < s.next_task_id
      → s.next_task_id + 1 < 2 ^ 32
      → (0 < (step s call).next_task_id) × ((step s call).next_task_id ≤ s.next_task_id + 1)
  unfolding step create_task add_to_ready_queue
  step-next s (create_call name none priority size) l m = ground arith
  step-next s (create_call name (some f) priority size) l m = ground (arith)
  step-next s (delete_call id) l m =
      unfold delete_task drop_task remove_from_ready_queue in
      ground (arith, schedule-next (record (drop_task s id) { current_task_id = idle_task_id }))
  step-next s (suspend_call id) l m =
      unfold suspend_task park set_state remove_from_ready_queue in
      ground (arith, schedule-next (park s id))
  step-next s (resume_call id) l m = unfold resume_task set_state in ground arith
  step-next s (delay_call ticks) l m =
      unfold delay remove_from_ready_queue in
      ground (arith, schedule-next (block s ticks (s.tasks s.current_task_id)))
  step-next s start_call l m = unfold start ensure_idle_task in ground arith
  step-next s stop_call l m = unfold stop in ground arith
  step-next s schedule_call l m = ground (arith, schedule-next s)
  step-next s yield_call l m =
      unfold yield_task set_state remove_from_ready_queue in
      ground (arith, schedule-next s, schedule-next (requeue s (s.tasks s.current_task_id)))
  step-next s tick_call l m =
      unfold tick process_delay_queue in
      ground (
        arith,
        process_delays-next s.delay_queue []
            (record s { tick_count = (s.tick_count + 1) % 2 ^ 64 }),
      )
  step-next s reset_call l m = unfold reset ensure_idle_task in ground arith

  unfoldable pub run : Scheduler F → List (Call F) → Scheduler F
  unfolding step
  run s [] = s
  run s (call ∷ calls) = run (step s call) calls

  run-Consistent :
      (s : Scheduler F) (calls : List (Call F))
      → Consistent s
      → 0 < s.next_task_id
      → s.next_task_id + length calls < 2 ^ 32
      → Consistent (run s calls)
  unfolding run
  run-Consistent s [] c z l = c
  run-Consistent s (call ∷ calls) c z l =
      let e = step-next s call z (ground arith) in
      run-Consistent (step s call) calls (step-Consistent s call c (ground arith)) e.0
        (ground (arith, e.1))

  new-next : (new idle).next_task_id ≡ 1
  unfolding new ensure_idle_task add_to_ready_queue
  new-next = refl

  -- Whatever methods are called on a new scheduler, fewer than 2^32 - 1 of them: each queue holds
  -- exactly the tasks that may run and have its priority, each once; no task has an id that is still to be
  -- given out; the idle task is there.
  pub created_run-Consistent :
      (calls : List (Call F)) → 1 + length calls < 2 ^ 32 → Consistent (run (new idle) calls)
  created_run-Consistent calls l =
      run-Consistent (new idle) calls (new-Consistent idle) (rw new-next (ground arith))
        (rw new-next l)
