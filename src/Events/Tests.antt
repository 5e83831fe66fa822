-- ===== src/Events/Tests.antt =====
-- Witnesses for the event scheduler's theorems: two events, scheduled out of order.
use mathlib.Core.List.{Perm}
use embedded_firmware_simula.Prelude.{
  ℕ, ◌+◌, ◌<◌, ◌≤◌, ◌≡◌, refl, true, false, List, [], ◌∷◌, ◌++◌, some, ◌==◌, if◌then◌else◌, length,
  arith,
}
use embedded_firmware_simula.Prelude.Sorting.{All, IsSorted}
use embedded_firmware_simula.Events.{
  Event, EventScheduler, before, schedule, is_pending, cancel, take_ready, execute_ready_events,
}
use embedded_firmware_simula.Events.Order.{take_ready_lem}
use embedded_firmware_simula.Events.Pending.{IsValid, schedule-IsValid, cancel_lem}
use embedded_firmware_simula.Events.Execution.{
  callbacks, call_all, IsChronological, execute_ready_events_lem,
}

abbrev late : Event ℕ
late = record { id = 1; cycle = 30; callback = some 100; description = "late" }

abbrev early : Event ℕ
early = record { id = 2; cycle = 10; callback = some 200; description = "early" }

abbrev two_events : EventScheduler ℕ
two_events = record { next_id = 3; events = late ∷ early ∷ [] }

two_events-IsValid : IsValid two_events
unfolding is_pending
two_events-IsValid =
    (omega arith, (omega arith, omega arith, refl, (omega arith, omega arith, refl, tt)))

take_ready_lem_example :
    IsSorted before (take_ready two_events 20).1
    × All (λ (e : Event ℕ). e.cycle ≤ 20) (take_ready two_events 20).1
    × All (λ (e : Event ℕ). 20 < e.cycle) (take_ready two_events 20).0.events
    × Perm ((take_ready two_events 20).1 ++ (take_ready two_events 20).0.events) two_events.events
    × ((take_ready two_events 20).0.next_id ≡ two_events.next_id)
take_ready_lem_example = take_ready_lem two_events 20

-- The world is the scheduler and the sum of what was called.
abbrev call : ℕ → EventScheduler ℕ × ℕ → EventScheduler ℕ × ℕ
call c (s, n) = (s, n + c)

execute_ready_events_lem_example :
    (due later : List (Event ℕ)) × (execute_ready_events call
        (λ w. w.0)
        (λ s w. (s, w.1))
        (two_events, 0)
        20
      ≡ (
        call_all call (callbacks call due) (record two_events { events = later }, 0),
        length (callbacks call due),
      ))
    × Perm (due ++ later) two_events.events
    × All (λ (e : Event ℕ). e.cycle ≤ 20) due
    × All (λ (e : Event ℕ). 20 < e.cycle) later
    × IsChronological call due
execute_ready_events_lem_example =
    execute_ready_events_lem call (λ w. w.0) (λ s w. (s, w.1)) (two_events, 0) 20

schedule-IsValid_example :
    IsValid (schedule two_events (some 300) 5 "first").0
    × (0 < 3)
    × (is_pending 3 two_events.events ≡ false)
    × (is_pending 1 (schedule two_events (some 300) 5 "first").0.events
        ≡ (if 3 == 1 then true else is_pending 1 two_events.events))
unfolding schedule
schedule-IsValid_example =
    schedule-IsValid two_events 300 5 1 "first" two_events-IsValid (omega arith)

cancel_lem_example :
    ((cancel two_events 1).1 ≡ is_pending 1 two_events.events)
    × (is_pending 2 (cancel two_events 1).0.events
        ≡ (if 1 == 2 then false else is_pending 2 two_events.events))
    × IsValid (cancel two_events 1).0
cancel_lem_example = cancel_lem two_events 1 2 two_events-IsValid
