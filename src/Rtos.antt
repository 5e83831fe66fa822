-- ===== src/Rtos.antt =====
-- The RTOS task scheduler: include/rtos/task.hpp, src/rtos/task.cpp, include/rtos/rtos_scheduler.hpp,
-- src/rtos/rtos_scheduler.cpp. A task's function is a value of a type `F`. Every method that may
-- call one calls it last, so a method gives the state before the call and the function to call;
-- what the function does to the scheduler, by calling its methods, comes after.
-- The task map is a function of the id. The map of ready queues is a function of the priority: an
-- empty queue stands for a missing entry, which the source treats alike. The pointer to the system
-- bus, which no method uses, is left out.
pub mod Queue
pub mod Consistency
pub mod Methods
pub mod Ids
pub mod Steps
pub mod Policy
pub mod Delays
mod Tests
use Prim.Native.String.{String}
use embedded_firmware_simula.Prelude.{
  ℕ, zero, suc, ◌+◌, ◌%◌, ◌^◌, Bool, true, false, not, ◌&&◌, ◌||◌, List, [], ◌∷◌, ◌++◌, Option,
  none, some, ltb, leb, ◌==◌, if◌then◌else◌, update, is_some, Outcome, ok, throws, invalid_argument,
}
use Queue.{contains, push_back_new, erase}

pub data TaskState : Type 0 where
  ready running blocked suspended terminated : TaskState

-- A task and its control block.
pub record Task (F : Type 0) : Type 0 where
  pub id : ℕ
  pub name : String
  pub function : Option F
  pub priority : ℕ
  pub state : TaskState
  pub delay_until_tick : ℕ
  pub stack_size : ℕ
  pub execution_count : ℕ

abbrev pub idle_task_id : ℕ
idle_task_id = 0

abbrev pub idle_task_priority : ℕ
idle_task_priority = 0

pub record Scheduler (F : Type 0) : Type 0 where
  pub is_running : Bool
  pub tick_count : ℕ
  pub next_task_id : ℕ
  pub current_task_id : ℕ
  pub tasks : ℕ → Option (Task F)
  pub ready_queue : ℕ → List ℕ
  pub delay_queue : List ℕ

abbrev pub is_state_running : TaskState → Bool
is_state_running running = true
is_state_running _ = false

-- READY or RUNNING
abbrev pub is_runnable : TaskState → Bool
is_runnable ready = true
is_runnable running = true
is_runnable _ = false

abbrev pub is_suspended : TaskState → Bool
is_suspended suspended = true
is_suspended _ = false

module _ {F : Type 0} where
  -- `Task(id, name, function, priority, stackSize)`
  abbrev pub new_task : ℕ → String → Option F → ℕ → ℕ → Task F
  new_task id name function priority stack_size = record {
    id = id;
    name = name;
    function = function;
    priority = priority;
    state = ready;
    delay_until_tick = 0;
    stack_size = stack_size;
    execution_count = 0;
  }

  -- `task->setState(state)` on the task with the id, if there is one.
  abbrev pub with_state : TaskState → Option (Task F) → Option (Task F)
  with_state st none = none
  with_state st (some t) = some (record t { state = st })

  unfoldable pub set_state : Scheduler F → ℕ → TaskState → Scheduler F
  set_state s id st = record s { tasks = update s.tasks id (with_state st (s.tasks id)) }

  abbrev add_known : Scheduler F → ℕ → Option (Task F) → Scheduler F
  add_known s id none = s
  add_known s id (some t) = record s {
    ready_queue = update s.ready_queue t.priority (push_back_new id (s.ready_queue t.priority));
  }

  unfoldable pub add_to_ready_queue : Scheduler F → ℕ → Scheduler F
  add_to_ready_queue s id = add_known s id (s.tasks id)

  abbrev remove_known : Scheduler F → ℕ → Option (Task F) → Scheduler F
  remove_known s id none = s
  remove_known s id (some t) = record s {
    ready_queue = update s.ready_queue t.priority (erase id (s.ready_queue t.priority));
  }

  unfoldable pub remove_from_ready_queue : Scheduler F → ℕ → Scheduler F
  remove_from_ready_queue s id = remove_known s id (s.tasks id)

  -- A delayed task whose tick has come.
  abbrev pub is_due : ℕ → Option (Task F) → Bool
  is_due now none = false
  is_due now (some t) = leb t.delay_until_tick now

  -- The loop of `processDelayQueue` over the rest of the queue; `kept` holds what stays, in order.
  unfoldable pub process_delays : List ℕ → List ℕ → Scheduler F → Scheduler F
  process_delays [] kept s = record s { delay_queue = kept }
  process_delays (id ∷ ids) kept s =
      let due = is_due s.tick_count (s.tasks id) in
      process_delays ids (if due then kept else kept ++ id ∷ [])
        (if due then add_to_ready_queue (set_state s id ready) id else s)

  unfoldable pub process_delay_queue : Scheduler F → Scheduler F
  process_delay_queue s = process_delays s.delay_queue [] s

  -- The loop of `pickNextTask` over the priorities below `n`, from the highest on. A queue of more
  -- than one task is rotated.
  unfoldable pub pick_below : ℕ → Scheduler F → Scheduler F × ℕ
  pick_below zero s = (s, idle_task_id)
  pick_below (suc n) s =
      let rest = pick_below n s in
      elim (s.ready_queue n) [
        | [] ↦ rest
        | id ∷ ids ↦ (record s { ready_queue = update s.ready_queue n (ids ++ id ∷ []) }, id)
      ]

  unfoldable pub pick_next_task : Scheduler F → Scheduler F × ℕ
  pick_next_task s = pick_below 256 s

  -- `Task::execute`: the state of the task before its function is called.
  abbrev pub executed : Task F → Task F
  executed t = record t {
    execution_count =
        if is_some t.function then (t.execution_count + 1) % 2 ^ 64 else t.execution_count;
  }

  -- A task that was running and is not picked again becomes ready.
  abbrev pub preempted : Option (Task F) → Option (Task F)
  preempted none = none
  preempted (some t) = some (if is_state_running t.state then record t { state = ready } else t)

  -- The end of `schedule`: the picked task runs, unless its state forbids it.
  abbrev pub started : Option (Task F) → Option (Task F)
  started none = none
  started (some t) =
      if is_runnable t.state then some (executed (record t { state = running })) else some t

  abbrev pub called : Option (Task F) → Option F
  called none = none
  called (some t) = if is_runnable t.state then t.function else none

  -- `schedule()` with the delays processed and the next task picked. Where there is no task with the
  -- picked id, the source's `m_tasks[nextId]` also adds an entry with a null pointer, left out here.
  unfoldable pub switch_to : Scheduler F → ℕ → Scheduler F × Option F
  switch_to s next =
      let tasks =
        if s.current_task_id == next
        then s.tasks
        else update s.tasks s.current_task_id (preempted (s.tasks s.current_task_id)) in
      (
        record s { current_task_id = next; tasks = update tasks next (started (tasks next)) },
        called (tasks next),
      )

  unfoldable pub schedule : Scheduler F → Scheduler F × Option F
  schedule s =
      let (picked, next) = pick_next_task (process_delay_queue s) in
      if s.is_running then switch_to picked next else (s, none)

  unfoldable pub ensure_idle_task : F → Scheduler F → Scheduler F
  ensure_idle_task idle s =
      if is_some (s.tasks idle_task_id)
      then s
      else add_to_ready_queue
          (record s {
            tasks =
                update s.tasks idle_task_id
                  (some (new_task idle_task_id "IdleTask" (some idle) idle_task_priority 512));
          })
          idle_task_id

  abbrev pub empty : Scheduler F
  empty = record {
    is_running = false;
    tick_count = 0;
    next_task_id = 1;
    current_task_id = idle_task_id;
    tasks = λ id. none;
    ready_queue = λ p. [];
    delay_queue = [];
  }

  -- The constructor; `idle` is the function of the idle task.
  unfoldable pub new : F → Scheduler F
  new idle = ensure_idle_task idle empty

  unfoldable pub create_task : Scheduler F → String → Option F → ℕ → ℕ → Outcome (Scheduler F × ℕ)
  create_task s name none priority stack_size = throws invalid_argument
  create_task s name (some f) priority stack_size = ok (
    add_to_ready_queue
        (record s {
          next_task_id = (s.next_task_id + 1) % 2 ^ 32;
          tasks =
              update s.tasks s.next_task_id
                (some (new_task s.next_task_id name (some f) priority stack_size));
        })
        s.next_task_id,
    s.next_task_id,
  )

  -- `deleteTask` on a task that is there: out of both queues and of the map.
  unfoldable pub drop_task : Scheduler F → ℕ → Scheduler F
  drop_task s id =
      let s' = remove_from_ready_queue s id in
      record s' { delay_queue = erase id s'.delay_queue; tasks = update s'.tasks id none }

  abbrev pub with_call : Scheduler F × Option F → Scheduler F × Bool × Option F
  with_call (s, call) = (s, true, call)

  unfoldable pub delete_task : Scheduler F → ℕ → Scheduler F × Bool × Option F
  delete_task s id =
      if id == idle_task_id
      then (s, false, none)
      else if not (is_some (s.tasks id))
      then (s, false, none)
      else if s.current_task_id == id
      then with_call (schedule (record (drop_task s id) { current_task_id = idle_task_id }))
      else (drop_task s id, true, none)

  unfoldable pub start : F → Scheduler F → Scheduler F
  start idle s = record (ensure_idle_task idle s) { is_running = true }

  unfoldable pub stop : Scheduler F → Scheduler F
  stop s = record s { is_running = false }

  -- The current task, if it is running, becomes ready and goes to the back of its queue.
  abbrev pub requeue : Scheduler F → Option (Task F) → Scheduler F
  requeue s none = s
  requeue s (some t) =
      let id = s.current_task_id in
      if is_state_running t.state
      then add_to_ready_queue (remove_from_ready_queue (set_state s id ready) id) id
      else s

  unfoldable pub yield_task : Scheduler F → Scheduler F × Option F
  yield_task s =
      let s' =
        if s.current_task_id == idle_task_id then s else requeue s (s.tasks s.current_task_id) in
      if s.is_running then schedule s' else (s, none)

  -- The current task blocks until `ticks` have gone by.
  abbrev pub block : Scheduler F → ℕ → Option (Task F) → Scheduler F
  block s ticks none = s
  block s ticks (some t) =
      let id = s.current_task_id in
      let s' =
        remove_from_ready_queue
          (record s {
            tasks = update s.tasks id (
                some (record t {
                  state = blocked;
                  delay_until_tick = (s.tick_count + ticks) % 2 ^ 64;
                }));
          })
          id in
      record s' { delay_queue = s'.delay_queue ++ id ∷ [] }

  unfoldable pub delay : Scheduler F → ℕ → Scheduler F × Option F
  delay s ticks =
      if not s.is_running || s.current_task_id == idle_task_id
      then (s, none)
      else schedule (block s ticks (s.tasks s.current_task_id))

  unfoldable pub tick : Scheduler F → Scheduler F
  tick s = process_delay_queue (record s { tick_count = (s.tick_count + 1) % 2 ^ 64 })

  -- `suspendTask` on a task that is there, before it reschedules.
  unfoldable pub park : Scheduler F → ℕ → Scheduler F
  park s id =
      let s' = remove_from_ready_queue (set_state s id suspended) id in
      record s' { delay_queue = erase id s'.delay_queue }

  unfoldable pub suspend_task : Scheduler F → ℕ → Scheduler F × Bool × Option F
  suspend_task s id =
      if not (is_some (s.tasks id))
      then (s, false, none)
      else if id == s.current_task_id && s.is_running
      then with_call (schedule (park s id))
      else (park s id, true, none)

  abbrev resume_known : Scheduler F → ℕ → Option (Task F) → Scheduler F × Bool
  resume_known s id none = (s, false)
  resume_known s id (some t) =
      if is_suspended t.state
      then (add_to_ready_queue (set_state s id ready) id, true)
      else (s, false)

  unfoldable pub resume_task : Scheduler F → ℕ → Scheduler F × Bool
  resume_task s id = resume_known s id (s.tasks id)

  unfoldable pub reset : F → Scheduler F → Scheduler F
  reset idle s = ensure_idle_task idle empty

  unfoldable pub current_task : Scheduler F → Option (Task F)
  current_task s = s.tasks s.current_task_id

  unfoldable pub get_task : Scheduler F → ℕ → Option (Task F)
  get_task s id = s.tasks id

  unfoldable pub current_tick : Scheduler F → ℕ
  current_tick s = s.tick_count

  -- `running()`
  unfoldable pub is_active : Scheduler F → Bool
  is_active s = s.is_running

  -- The destructor.
  unfoldable pub destroy : Scheduler F → Scheduler F
  destroy s = record (stop s) { tasks = λ id. none; ready_queue = λ p. []; delay_queue = [] }
