-- ===== src/Rtos/Ids.antt =====
-- The ids that the scheduler gives out.
use embedded_firmware_simula.Prelude.{ℕ, zero, suc, ◌≡◌, refl, List, [], ◌∷◌, ◌++◌, arith}
use embedded_firmware_simula.Rtos.{
  ready, Scheduler, add_to_ready_queue, schedule, process_delays, pick_below, pick_next_task,
  process_delay_queue, switch_to, set_state,
}

module _ {F : Type 0} where
  pub process_delays-next :
      (ids kept : List ℕ) (s : Scheduler F)
      → (process_delays ids kept s).next_task_id ≡ s.next_task_id
  unfolding process_delays add_to_ready_queue set_state
  process_delays-next [] kept s = refl
  process_delays-next (id ∷ ids) kept s = ground (
    arith,
    process_delays-next ids kept s,
    process_delays-next ids (kept ++ id ∷ []) s,
    process_delays-next ids kept (add_to_ready_queue (set_state s id ready) id),
  )

  pick_below-next : (n : ℕ) (s : Scheduler F) → (pick_below n s).0.next_task_id ≡ s.next_task_id
  unfolding pick_below
  pick_below-next zero s = refl
  pick_below-next (suc n) s = ground (arith, pick_below-next n s)

  pub schedule-next : (s : Scheduler F) → (schedule s).0.next_task_id ≡ s.next_task_id
  unfolding schedule switch_to pick_next_task process_delay_queue
  schedule-next s = ground (
    arith,
    pick_below-next 256 (process_delays s.delay_queue [] s),
    process_delays-next s.delay_queue [] s,
  )
