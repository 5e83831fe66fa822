-- ===== src/Events/Order.antt =====
-- Which events `executeReadyEvents` takes, and in which order.
use mathlib.Core.List.{Perm, perm_middle}
use mathlib.Core.List.Perm
use embedded_firmware_simula.Prelude.{
  ℕ, ◌<◌, ◌≤◌, ◌≡◌, refl, inl, inr, true, false, List, [], ◌∷◌, ◌++◌, leb, arith, Bool-cases,
  leb→le,
}
use embedded_firmware_simula.Prelude.Sorting.{
  All, All-sort, IsSorted, sort, sort-Perm, sort-IsSorted,
}
use embedded_firmware_simula.Events.{
  Event, EventScheduler, before, ready, remaining, take_ready, pending_events,
}

module _ {C : Type 0} where
  before_asymmetric : (a b : Event C) → before a b ≡ true → before b a ≡ false
  before_asymmetric a b h = ground arith

  before_linked : (a b c : Event C) → before b a ≡ false → before c b ≡ false → before c a ≡ false
  before_linked a b c h k = ground arith

  ready-All : (now : ℕ) (es : List (Event C)) → All (λ (e : Event C). e.cycle ≤ now) (ready now es)
  unfolding ready
  ready-All now [] = tt
  ready-All now (e ∷ es) = elim (Bool-cases (leb e.cycle now)) [
    | inl t ↦ rw t (leb→le e.cycle now t, ready-All now es)
    | inr t ↦ rw t (ready-All now es)
  ]

  remaining-All :
      (now : ℕ) (es : List (Event C)) → All (λ (e : Event C). now < e.cycle) (remaining now es)
  unfolding remaining
  remaining-All now [] = tt
  remaining-All now (e ∷ es) = elim (Bool-cases (leb e.cycle now)) [
    | inl t ↦ rw t (remaining-All now es)
    | inr t ↦ rw t (ground arith, remaining-All now es)
  ]

  split-Perm : (now : ℕ) (es : List (Event C)) → Perm (ready now es ++ remaining now es) es
  unfolding ready remaining
  split-Perm now [] = Perm.refl []
  split-Perm now (e ∷ es) = elim (Bool-cases (leb e.cycle now)) [
    | inl t ↦ rw t (Perm.cons e (split-Perm now es))
    | inr t ↦ rw t (
        Perm.trans (perm_middle (ready now es) (remaining now es))
          (Perm.cons e (split-Perm now es)))
  ]

  -- The early return on an empty queue changes nothing.
  pub take_ready-split :
      (n : ℕ) (es : List (Event C)) (now : ℕ)
      → take_ready (record { next_id = n; events = es }) now
        ≡ (record { next_id = n; events = remaining now es }, sort before (ready now es))
  unfolding take_ready
  take_ready-split n [] now = refl
  take_ready-split n (e ∷ es) now = refl

  -- What `executeReadyEvents` runs at cycle `now` is sorted by cycle and then by id, holds only
  -- events that are due, leaves only events that are not, and loses and doubles none.
  pub take_ready_lem :
      (s : EventScheduler C) (now : ℕ)
      → let (s', run) = take_ready s now in
        IsSorted before run
        × All (λ (e : Event C). e.cycle ≤ now) run
        × All (λ (e : Event C). now < e.cycle) s'.events
        × Perm (run ++ s'.events) s.events
        × (s'.next_id ≡ s.next_id)
  take_ready_lem s now = rw (take_ready-split s.next_id s.events now) (
    sort-IsSorted before before_asymmetric before_linked (ready now s.events),
    All-sort before (λ (e : Event C). e.cycle ≤ now) (ready now s.events) (ready-All now s.events),
    remaining-All now s.events,
    Perm.trans
        (Perm.append (sort-Perm before (ready now s.events)) (Perm.refl (remaining now s.events)))
        (split-Perm now s.events),
    refl,
  )

  -- `pendingEvents` lists the pending events, all of them, by cycle and then by id.
  pub pending_events_lem :
      (s : EventScheduler C) → IsSorted before (pending_events s) × Perm (pending_events s) s.events
  unfolding pending_events
  pending_events_lem s =
      (sort-IsSorted before before_asymmetric before_linked s.events, sort-Perm before s.events)
