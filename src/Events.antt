-- ===== src/Events.antt =====
-- The event scheduler: include/system/scheduler/event_scheduler.hpp,
-- src/system/scheduler/event_scheduler.cpp. Callbacks are values of a type `C`; what calling one
-- does to the world is a function that `execute_ready_events` is given.
pub mod Order
pub mod Pending
pub mod Execution
mod Tests
use Prim.Native.String.{String}
use embedded_firmware_simula.Prelude.{
  ℕ, ◌+◌, ◌%◌, ◌^◌, Bool, true, false, not, List, [], ◌∷◌, ◌++◌, Option, none, some, length, ltb,
  leb, ◌==◌, if◌then◌else◌,
}
use embedded_firmware_simula.Prelude.Sorting.{sort}

pub record Event (C : Type 0) : Type 0 where
  pub id : ℕ
  pub cycle : ℕ
  pub callback : Option C
  pub description : String

pub record EventScheduler (C : Type 0) : Type 0 where
  pub next_id : ℕ
  pub events : List (Event C)

-- A default-constructed scheduler.
abbrev pub new : {C : Type 0} → EventScheduler C
new = record { next_id = 1; events = [] }

module _ {C : Type 0} where
  -- An empty callback is refused, with the id 0.
  unfoldable pub schedule : EventScheduler C → Option C → ℕ → String → EventScheduler C × ℕ
  schedule s none cycle description = (s, 0)
  schedule s (some c) cycle description = (
    record s {
      next_id = (s.next_id + 1) % 2 ^ 64;
      events =
          s.events
          ++ record { id = s.next_id; cycle = cycle; callback = some c; description = description }
            ∷ [];
    },
    s.next_id,
  )

  -- `std::find_if` by the id, as a test.
  unfoldable pub is_pending : ℕ → List (Event C) → Bool
  is_pending i [] = false
  is_pending i (e ∷ es) = if e.id == i then true else is_pending i es

  -- `m_events.erase(it)` of the first event with the id.
  unfoldable pub erase : ℕ → List (Event C) → List (Event C)
  erase i [] = []
  erase i (e ∷ es) = if e.id == i then es else e ∷ erase i es

  unfoldable pub cancel : EventScheduler C → ℕ → EventScheduler C × Bool
  unfolding is_pending erase
  cancel s i =
      if i == 0
      then (s, false)
      else if is_pending i s.events
      then (record s { events = erase i s.events }, true)
      else (s, false)

  unfoldable pub clear : EventScheduler C → EventScheduler C
  clear s = record s { events = [] }

  -- The comparison of both sorts: by cycle, then by id.
  abbrev pub before : Event C → Event C → Bool
  before a b = if not (a.cycle == b.cycle) then ltb a.cycle b.cycle else ltb a.id b.id

  unfoldable pub pending_events : EventScheduler C → List (Event C)
  unfolding sort
  pending_events s = sort before s.events

  unfoldable pub pending_count : EventScheduler C → ℕ
  pending_count s = length s.events

  -- The two vectors that the loop of `executeReadyEvents` fills.
  unfoldable pub ready : ℕ → List (Event C) → List (Event C)
  ready now [] = []
  ready now (e ∷ es) = let rest = ready now es in if leb e.cycle now then e ∷ rest else rest

  unfoldable pub remaining : ℕ → List (Event C) → List (Event C)
  remaining now [] = []
  remaining now (e ∷ es) = let rest = remaining now es in if leb e.cycle now then rest else e ∷ rest

  -- The state that the scheduler is in while the callbacks run, and the events it runs, in order.
  unfoldable pub take_ready : EventScheduler C → ℕ → EventScheduler C × List (Event C)
  unfolding ready remaining sort
  take_ready s now = elim s.events [
    | [] ↦ (s, [])
    | e ∷ es ↦ (record s { events = remaining now (e ∷ es) }, sort before (ready now (e ∷ es)))
  ]

  module _ {W : Type 0} (call : C → W → W) where
    -- The loop that calls the callbacks and counts them.
    unfoldable pub run_callbacks : List (Event C) → W → ℕ → W × ℕ
    run_callbacks [] w executed = (w, executed)
    run_callbacks (e ∷ es) w executed = elim e.callback [
      | none ↦ run_callbacks es w executed
      | some c ↦ run_callbacks es (call c w) (executed + 1)
    ]

    -- `executeReadyEvents` on the scheduler that the world holds: the callbacks find it with the
    -- ready events taken out, and what they schedule waits for the next call.
    unfoldable pub execute_ready_events :
        (W → EventScheduler C) → (EventScheduler C → W → W) → W → ℕ → W × ℕ
    unfolding take_ready run_callbacks
    execute_ready_events get put w now =
        let (s, events) = take_ready (get w) now in run_callbacks events (put s w) 0
