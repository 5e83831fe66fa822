-- ===== src/Events/Execution.antt =====
-- What the callbacks see, and the count that `executeReadyEvents` returns.
use mathlib.Core.List.{Perm}
use embedded_firmware_simula.Prelude.{
  ℕ, ◌+◌, ◌<◌, ◌≤◌, ◌≡◌, ◌⊎◌, ◌∙◌, List, [], ◌∷◌, ◌++◌, false, none, some, length, arith, inl, inr,
  ap, Option-cases,
}
use embedded_firmware_simula.Prelude.Sorting.{All, IsSorted, NoneBefore}
use embedded_firmware_simula.Events.{
  Event, EventScheduler, before, take_ready, run_callbacks, execute_ready_events,
}
use embedded_firmware_simula.Events.Order.{take_ready_lem}

module _ {C W : Type 0} (call : C → W → W) where
  unfoldable pub callbacks : List (Event C) → List C
  callbacks [] = []
  callbacks (e ∷ es) = elim e.callback [ none ↦ callbacks es | some c ↦ c ∷ callbacks es ]

  unfoldable pub call_all : List C → W → W
  call_all [] w = w
  call_all (c ∷ cs) w = call_all cs (call c w)

  run_callbacks-call_all :
      (es : List (Event C)) (w : W) (n : ℕ)
      → run_callbacks call es w n ≡ (call_all (callbacks es) w, n + length (callbacks es))
  unfolding run_callbacks callbacks call_all
  run_callbacks-call_all [] w n = ground arith
  run_callbacks-call_all (e ∷ es) w n = elim (Option-cases e.callback) [
    | inl h ↦ rw h (run_callbacks-call_all es w n)
    | inr (c, h) ↦ rw h (run_callbacks-call_all es (call c w) (n + 1) ∙ ground arith)
  ]

  run_all :
      (es : List (Event C)) (w : W)
      → run_callbacks call es w 0 ≡ (call_all (callbacks es) w, length (callbacks es))
  run_all es w = run_callbacks-call_all es w 0 ∙ ground arith

  -- Of two events, the first is due earlier, or at the same cycle with an id that is not larger.
  abbrev pub NotAfter : Event C → Event C → Type 0
  NotAfter a b = (a.cycle < b.cycle) ⊎ ((a.cycle ≡ b.cycle) × (a.id ≤ b.id))

  -- Every event of the list is not after any later one.
  unfoldable pub IsChronological : List (Event C) → Type 0
  IsChronological [] = Unit
  IsChronological (e ∷ es) = All (NotAfter e) es × IsChronological es

  before-NotAfter : (a b : Event C) → before b a ≡ false → NotAfter a b
  before-NotAfter a b h = ground arith

  NoneBefore-NotAfter :
      (e : Event C) (es : List (Event C)) → NoneBefore before e es → All (NotAfter e) es
  NoneBefore-NotAfter e [] n = tt
  NoneBefore-NotAfter e (x ∷ xs) n = (before-NotAfter e x n.0, NoneBefore-NotAfter e xs n.1)

  IsSorted-IsChronological : (es : List (Event C)) → IsSorted before es → IsChronological es
  unfolding IsChronological
  IsSorted-IsChronological [] s = tt
  IsSorted-IsChronological (e ∷ es) s =
      (NoneBefore-NotAfter e es s.0, IsSorted-IsChronological es s.1)

  -- One execution at a cycle splits the pending events, losing and doubling none, into those whose
  -- cycle is at most that one and those whose cycle is later. It leaves the later ones in the
  -- scheduler, and then calls the callbacks of the others one after the other, by cycle and then
  -- by id; it returns how many it called. What a callback schedules is not run by the same
  -- execution.
  pub execute_ready_events_lem :
      (get : W → EventScheduler C) (put : EventScheduler C → W → W) (w : W) (now : ℕ)
      → let s = get w in
        (due later : List (Event C)) × (execute_ready_events call get put w now ≡ (
          call_all (callbacks due) (put (record s { events = later }) w),
          length (callbacks due),
        ))
        × Perm (due ++ later) s.events
        × All (λ (e : Event C). e.cycle ≤ now) due
        × All (λ (e : Event C). now < e.cycle) later
        × IsChronological due
  unfolding execute_ready_events
  execute_ready_events_lem get put w now =
      let s = get w in
      let (s', run) = take_ready s now in
      let (sorted, are_due, are_later, split, same) = take_ready_lem s now in
      (
        run,
        s'.events,
        run_all run (put s' w)
            ∙ ap
                (λ n. (
                  call_all (callbacks run) (put (record s' { next_id = n }) w),
                  length (callbacks run),
                ))
                same,
        split,
        are_due,
        are_later,
        IsSorted-IsChronological run sorted,
      )
