-- ===== src/Rtos/Tests.antt =====
-- Witnesses for the scheduler's theorems: the idle task and a task of priority 5.
use embedded_firmware_simula.Prelude.{
  ℕ, ◌≡◌, refl, true, ◌&&◌, not, List, [], ◌∷◌, none, some, ◌==◌, if◌then◌else◌, arith,
}
use embedded_firmware_simula.Rtos.{
  Task, ready, blocked, Scheduler, new_task, new, is_due, with_state, pick_next_task,
  process_delay_queue, process_delays, schedule,
}
use embedded_firmware_simula.Rtos.Queue.{contains}
use embedded_firmware_simula.Rtos.Consistency.{Consistent, queued}
use embedded_firmware_simula.Rtos.Steps.{
  Call, create_call, start_call, schedule_call, delay_call, tick_call, delete_call, run,
  created_run-Consistent,
}
use embedded_firmware_simula.Rtos.Policy.{rotated, pick_next_task-rotated, schedule-highest}
use embedded_firmware_simula.Rtos.Delays.{process_delay_queue_lem}

abbrev some_calls : List (Call ℕ)
some_calls =
    create_call "sensor" (some 7) 5 1024
    ∷ create_call "logger" (some 8) 2 1024
    ∷ start_call
    ∷ schedule_call
    ∷ delay_call 3
    ∷ tick_call
    ∷ delete_call 1
    ∷ []

created_run-Consistent_example : Consistent (run 0 (new 0) some_calls)
created_run-Consistent_example = created_run-Consistent 0 some_calls (omega arith)

abbrev sensor : Task ℕ
sensor = new_task 1 "sensor" (some 7) 5 1024

abbrev idle : Task ℕ
idle = new_task 0 "IdleTask" (some 0) 0 512

abbrev two_tasks : Scheduler ℕ
two_tasks = record {
  is_running = true;
  tick_count = 0;
  next_task_id = 2;
  current_task_id = 0;
  tasks = λ i. if i == 0 then some idle else if i == 1 then some sensor else none;
  ready_queue = λ p. if p == 0 then 0 ∷ [] else if p == 5 then 1 ∷ [] else [];
  delay_queue = [];
}

two_tasks-Consistent : Consistent two_tasks
unfolding contains
two_tasks-Consistent = record {
  holds = λ p i. ground arith;
  distinct = λ p. ground arith;
  fresh = λ i. ground arith;
  idle = refl;
}

schedule-highest_example :
    queued 5 ((process_delay_queue two_tasks).tasks (schedule two_tasks).0.current_task_id) ≡ true
unfolding process_delay_queue process_delays
schedule-highest_example =
    schedule-highest two_tasks 5 1 two_tasks-Consistent refl (omega arith) refl
      (λ p i l h. ground arith)

pick_next_task-rotated_example : pick_next_task two_tasks ≡ (rotated two_tasks 5 1 [], 1)
pick_next_task-rotated_example =
    pick_next_task-rotated two_tasks 5 1 [] (omega arith) refl (λ r l h. ground arith)

abbrev delayed : Scheduler ℕ
delayed = record two_tasks {
  tick_count = 4;
  tasks = λ i.
      if i == 0
      then some idle
      else if i == 1
      then some (record sensor { state = blocked; delay_until_tick = 4 })
      else none;
  ready_queue = λ p. if p == 0 then 0 ∷ [] else [];
  delay_queue = 1 ∷ [];
}

process_delay_queue_lem_example :
    ((process_delay_queue delayed).tasks 1 ≡ (
      if contains 1 delayed.delay_queue && is_due delayed.tick_count (delayed.tasks 1)
      then with_state ready (delayed.tasks 1)
      else delayed.tasks 1))
    × (contains 1 (process_delay_queue delayed).delay_queue
        ≡ (contains 1 delayed.delay_queue && not (is_due delayed.tick_count (delayed.tasks 1))))
process_delay_queue_lem_example = process_delay_queue_lem delayed 1
