-- ===== src/Timer/Scheduling.antt =====
-- The compare event of a timer that is attached to the event scheduler.
use Prim.Native.String.{String}
use embedded_firmware_simula.Prelude.{
  ℕ, ◌+◌, ◌-◌, ◌%◌, ◌^◌, ◌<◌, ◌≡◌, ◌∙◌, ap, true, false, some, ◌==◌, if◌then◌else◌, arith, ◌≤◌, ltb,
  not, ◌&&◌, Bool-cases, inl, inr,
}
use embedded_firmware_simula.Prelude.Bits.{test_bit-set_bit, test_bit-clear_bit}
use embedded_firmware_simula.Events.{EventScheduler, schedule, cancel, is_pending}
use embedded_firmware_simula.Events.Pending.{IsValid, schedule-IsValid, cancel_lem}
use embedded_firmware_simula.Timer.{
  World, counter, compare, running, stop, start, cancel_scheduled_event, update_scheduled_event,
}

module _ {T : Type 0} where
  cancel-schedule :
      (s : EventScheduler T) (m : T) (cycle j : ℕ) (d : String)
      → IsValid s
      → s.next_id + 1 < 2 ^ 64
      → is_pending j
          (cancel (schedule s (some m) cycle d).0 (schedule s (some m) cycle d).1).0.events
        ≡ is_pending j s.events
  cancel-schedule s m cycle j d v l =
      let (v', p, n, h) = schedule-IsValid s m cycle j d v l in
      ground (
        arith,
        cancel_lem (schedule s (some m) cycle d).0 (schedule s (some m) cycle d).1 j v',
        n,
        h,
      )

module _ {T H : Type 0} where
  -- The cycle at which a timer's compare event is due.
  abbrev pub due : World T H → ℕ
  due w =
      ((if w.timer.clock then w.simulation_clock.cycles else 0)
        + (compare w.timer - counter w.timer))
      % 2 ^ 64

  -- Starting a timer that is below its compare value and attached to an event scheduler cancels the
  -- event it had, and schedules one for the cycle at which its counter, going up by one a cycle, is at the compare value.
  pub start-schedules :
      (w : World T H) (m : T)
      → w.timer.scheduler ≡ true
      → counter w.timer < compare w.timer
      → (running (start m w).timer ≡ true)
        × (((start m w).events, (start m w).timer.scheduled_event_id)
            ≡ schedule (cancel_scheduled_event w).events (some m) (due w) "Timer Compare Match")
  unfolding start update_scheduled_event cancel_scheduled_event running counter compare
  start-schedules w m on below = ground (arith, test_bit-set_bit w.timer.ctrl_register.value 0 0)

  cancel_scheduled_event-IsValid :
      (w : World T H) → IsValid w.events → IsValid (cancel_scheduled_event w).events
  unfolding cancel_scheduled_event
  cancel_scheduled_event-IsValid w v =
      ground (arith, cancel_lem w.events w.timer.scheduled_event_id 0 v)

  cancel_scheduled_event-next :
      (w : World T H) → (cancel_scheduled_event w).events.next_id ≡ w.events.next_id
  unfolding cancel_scheduled_event cancel
  cancel_scheduled_event-next w = ground arith

  stop-event :
      (w : World T H)
      → w.timer.scheduler ≡ true
      → (w.timer.scheduled_event_id == 0) ≡ false
      → (running (stop w).timer ≡ false)
        × ((stop w).events ≡ (cancel w.events w.timer.scheduled_event_id).0)
  unfolding stop cancel_scheduled_event running
  stop-event w on some_event = ground (arith, test_bit-clear_bit w.timer.ctrl_register.value 0 0)

  start-scheduler : (w : World T H) (m : T) → (start m w).timer.scheduler ≡ w.timer.scheduler
  unfolding start update_scheduled_event cancel_scheduled_event
  start-scheduler w m = ground arith

  -- Starting a timer that is at its compare value or past it cancels the event it had, and schedules
  -- none.
  start-cancels :
      (w : World T H) (m : T)
      → w.timer.scheduler ≡ true
      → compare w.timer ≤ counter w.timer
      → ((start m w).events ≡ (cancel_scheduled_event w).events)
        × ((start m w).timer.scheduled_event_id ≡ 0)
  unfolding start update_scheduled_event cancel_scheduled_event running counter compare
  start-cancels w m on past = (ground arith, ground arith)

  stop-no_event :
      (w : World T H)
      → w.timer.scheduled_event_id ≡ 0
      → (running (stop w).timer ≡ false) × ((stop w).events ≡ w.events)
  unfolding stop cancel_scheduled_event running
  stop-no_event w no_event = ground (arith, test_bit-clear_bit w.timer.ctrl_register.value 0 0)

  stop-start_below :
      (w : World T H) (m : T) (j : ℕ)
      → IsValid w.events
      → w.events.next_id + 1 < 2 ^ 64
      → w.timer.scheduler ≡ true
      → counter w.timer < compare w.timer
      → (running (stop (start m w)).timer ≡ false)
        × (is_pending j (stop (start m w)).events.events
            ≡ is_pending j (cancel_scheduled_event w).events.events)
  stop-start_below w m j v l on below =
      let (r, e) = start-schedules w m on below in
      let before = (cancel_scheduled_event w).events in
      let fits : before.next_id + 1 < 2 ^ 64 = rw (cancel_scheduled_event-next w) l in
      let valid = cancel_scheduled_event-IsValid w v in
      let (v', p, n, h) = schedule-IsValid before m (due w) j "Timer Compare Match" valid fits in
      let stopped =
        stop-event (start m w) (start-scheduler w m ∙ on)
          (rw (ap (λ r. r.1) e) (ground (arith, p))) in
      (
        stopped.0,
        rw (stopped.1, ap (λ r. r.0) e, ap (λ r. r.1) e)
            (cancel-schedule before m (due w) j "Timer Compare Match" valid fits),
      )

  -- What is pending after the timer's event has been cancelled.
  pending-cancel_scheduled_event :
      (w : World T H) (j : ℕ)
      → IsValid w.events
      → w.timer.scheduler ≡ true
      → is_pending j (cancel_scheduled_event w).events.events ≡ (
          if not (w.timer.scheduled_event_id == 0) && w.timer.scheduled_event_id == j
          then false
          else is_pending j w.events.events)
  unfolding cancel_scheduled_event
  pending-cancel_scheduled_event w j v on =
      ground (arith, cancel_lem w.events w.timer.scheduled_event_id j v)

  -- A timer that is attached to an event scheduler, whose pending events have distinct ids that
  -- have been given out and whose ids do not run out, is started and stopped again. It is then
  -- stopped, and an event is pending exactly if it was before and is not the one that the timer
  -- had when it was started: the timer has left no event behind.
  pub stop-start :
      (w : World T H) (m : T) (j : ℕ)
      → IsValid w.events
      → w.events.next_id + 1 < 2 ^ 64
      → w.timer.scheduler ≡ true
      → (running (stop (start m w)).timer ≡ false)
        × (is_pending j (stop (start m w)).events.events ≡ (
            if not (w.timer.scheduled_event_id == 0) && w.timer.scheduled_event_id == j
            then false
            else is_pending j w.events.events))
  stop-start w m j v l on =
      let cancelled = pending-cancel_scheduled_event w j v on in
      elim (Bool-cases (ltb (counter w.timer) (compare w.timer))) [
        | inl b ↦
            let (r, e) = stop-start_below w m j v l on (ground (arith, b)) in (r, e ∙ cancelled)
        | inr b ↦
            let (e, no_event) = start-cancels w m on (ground (arith, b)) in
            let (r, f) = stop-no_event (start m w) no_event in
            (r, ap (λ s. is_pending j s.events) (f ∙ e) ∙ cancelled)
      ]
