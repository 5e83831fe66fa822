-- ===== src/Events/Pending.antt =====
-- Identifiers of events, and cancelling (src/system/scheduler/event_scheduler.cpp).
use native.Mathlib.Nat.{mod-eq_of_lt}
use Prim.Native.String.{String}
use embedded_firmware_simula.Prelude.{
  ℕ, ◌+◌, ◌^◌, ◌<◌, ◌≤◌, ◌≡◌, refl, ap, ◌∙◌, true, false, List, [], ◌∷◌, ◌++◌, some, ◌==◌,
  if◌then◌else◌, arith, ==_self,
}
use embedded_firmware_simula.Prelude.Sorting.{insert_sorted, sort}
use embedded_firmware_simula.Events.{
  Event, EventScheduler, before, schedule, is_pending, erase, cancel, ready, take_ready,
}
use embedded_firmware_simula.Events.Order.{take_ready-split}

module _ {C : Type 0} where
  -- The pending ids are different, positive and below `n`.
  abbrev pub Fresh : ℕ → List (Event C) → Type 0
  Fresh n [] = Unit {0}
  Fresh n (e ∷ es) = (0 < e.id) × (e.id < n) × (is_pending e.id es ≡ false) × Fresh n es

  abbrev pub IsValid : EventScheduler C → Type 0
  IsValid s = (0 < s.next_id) × Fresh s.next_id s.events

  is_pending-above : (n i : ℕ) (es : List (Event C)) → Fresh n es → n ≤ i → is_pending i es ≡ false
  unfolding is_pending
  is_pending-above n i [] f h = refl
  is_pending-above n i (e ∷ es) f h = ground (arith, is_pending-above n i es f.3)

  -- No event has the id 0.
  is_pending-none : (n i : ℕ) (es : List (Event C)) → Fresh n es → i ≡ 0 → is_pending i es ≡ false
  unfolding is_pending
  is_pending-none n i [] f h = refl
  is_pending-none n i (e ∷ es) f h = ground (arith, is_pending-none n i es f.3)

  is_pending-append :
      (i : ℕ) (es : List (Event C)) (e : Event C)
      → is_pending i (es ++ e ∷ []) ≡ (if e.id == i then true else is_pending i es)
  unfolding is_pending
  is_pending-append i [] e = refl
  is_pending-append i (d ∷ es) e = ground (arith, is_pending-append i es e)

  Fresh-append :
      (n : ℕ) (es : List (Event C)) (e : Event C)
      → e.id ≡ n
      → 0 < n
      → Fresh n es
      → Fresh (n + 1) (es ++ e ∷ [])
  Fresh-append n [] e h p f = (ground arith, ground arith, unfold is_pending in refl, tt)
  Fresh-append n (d ∷ es) e h p f =
      (f.0, ground arith, ground (arith, is_pending-append d.id es e), Fresh-append n es e h p f.3)

  -- Scheduling a callback gives a positive id that no pending event has, adds that event alone, and
  -- keeps the ids different, as long as the 64-bit counter does not wrap.
  pub schedule-IsValid :
      (s : EventScheduler C) (c : C) (cycle j : ℕ) (description : String)
      → IsValid s
      → s.next_id + 1 < 2 ^ 64
      → let (s', id) = schedule s (some c) cycle description in
        IsValid s'
        × (0 < id)
        × (is_pending id s.events ≡ false)
        × (is_pending j s'.events ≡ (if id == j then true else is_pending j s.events))
  unfolding schedule
  schedule-IsValid s c cycle j description v h = rw (mod-eq_of_lt h) (
    (
      omega arith,
      Fresh-append s.next_id s.events
          (record { id = s.next_id; cycle = cycle; callback = some c; description = description })
          refl v.0 v.1,
    ),
    v.0,
    is_pending-above s.next_id s.next_id s.events v.1 (omega arith),
    is_pending-append j s.events _,
  )

  is_pending-erase :
      (n i j : ℕ) (es : List (Event C))
      → Fresh n es
      → is_pending j (erase i es) ≡ (if i == j then false else is_pending j es)
  unfolding is_pending erase
  is_pending-erase n i j [] f = ground arith
  is_pending-erase n i j (e ∷ es) f = ground (arith, is_pending-erase n i j es f.3)

  Fresh-erase : (n i : ℕ) (es : List (Event C)) → Fresh n es → Fresh n (erase i es)
  unfolding erase
  Fresh-erase n i [] f = tt
  Fresh-erase n i (e ∷ es) f =
      ground (arith, Fresh-erase n i es f.3, is_pending-erase n i e.id es f.3)

  -- Cancelling says whether the event was pending, and takes that event alone away.
  pub cancel_lem :
      (s : EventScheduler C) (i j : ℕ)
      → IsValid s
      → let (s', done) = cancel s i in
        (done ≡ is_pending i s.events)
        × (is_pending j s'.events ≡ (if i == j then false else is_pending j s.events))
        × IsValid s'
  unfolding cancel
  cancel_lem s i j v = ground (
    arith,
    is_pending-erase s.next_id i j s.events v.1,
    Fresh-erase s.next_id i s.events v.1,
    is_pending-none s.next_id j s.events v.1,
    is_pending-none s.next_id i s.events v.1,
  )

  is_pending-insert_sorted :
      (i : ℕ) (e : Event C) (es : List (Event C))
      → is_pending i (insert_sorted before e es) ≡ is_pending i (e ∷ es)
  unfolding insert_sorted is_pending
  is_pending-insert_sorted i e [] = refl
  is_pending-insert_sorted i e (d ∷ es) = ground (arith, is_pending-insert_sorted i e es)

  is_pending-sort : (i : ℕ) (es : List (Event C)) → is_pending i (sort before es) ≡ is_pending i es
  unfolding sort is_pending
  is_pending-sort i [] = refl
  is_pending-sort i (e ∷ es) =
      is_pending-insert_sorted i e (sort before es)
      ∙ ap (λ b. if e.id == i then true else b) (is_pending-sort i es)

  is_pending-ready :
      (i now : ℕ) (es : List (Event C))
      → is_pending i es ≡ false
      → is_pending i (ready now es) ≡ false
  unfolding is_pending ready
  is_pending-ready i now [] h = refl
  is_pending-ready i now (e ∷ es) h = ground (arith, is_pending-ready i now es)

  -- A cancelled event is not run, however late the next execution is.
  pub cancel-take_ready :
      (s : EventScheduler C) (i now : ℕ)
      → IsValid s
      → is_pending i (take_ready (cancel s i).0 now).1 ≡ false
  cancel-take_ready s i now v =
      let left = (cancel s i).0 in
      let gone : is_pending i left.events ≡ false = (cancel_lem s i i v).1 ∙ rw (==_self i) in
      rw (take_ready-split left.next_id left.events now)
        (is_pending-sort i (ready now left.events) ∙ is_pending-ready i now left.events gone)
