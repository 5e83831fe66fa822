-- ===== src/Rtos/Consistency.antt =====
-- What the ready queues should hold, and the parts of the scheduler's methods that touch them.
use mathlib.Core.Path.{subst}
use embedded_firmware_simula.Prelude.{
  ℕ, zero, suc, ◌<◌, ◌≡◌, ◌≢◌, refl, Bool, true, false, ◌&&◌, List, [], ◌∷◌, ◌++◌, Option, none,
  some, leb, ◌==◌, update, is_some, arith, inl, inr, Bool-cases,
}
use embedded_firmware_simula.Rtos.Queue.{
  contains, erase, Distinct, contains-push_back_new, Distinct-push_back_new, contains-erase,
  Distinct-erase, contains-rotate, Distinct-rotate,
}
use embedded_firmware_simula.Rtos.{
  Task, ready, Scheduler, is_runnable, set_state, add_to_ready_queue, remove_from_ready_queue,
  is_due, process_delays, pick_below, switch_to, drop_task, process_delay_queue, pick_next_task,
  schedule, idle_task_id,
}

module _ {F : Type 0} where
  -- The task may run and has the priority `p`.
  abbrev pub queued : ℕ → Option (Task F) → Bool
  queued p none = false
  queued p (some t) = t.priority == p && is_runnable t.state

  -- Every queue holds exactly the tasks that may run and have its priority, each once; ids not yet
  -- given out have no task, and the idle task is there.
  pub record Consistent (s : Scheduler F) : Type 0 where
    pub holds : (p id : ℕ) → contains id (s.ready_queue p) ≡ queued p (s.tasks id)
    pub distinct : (p : ℕ) → Distinct (s.ready_queue p)
    -- No task has an id that is still to be given out.
    pub fresh : (id : ℕ) → (leb s.next_task_id id && is_some (s.tasks id)) ≡ false
    pub idle : is_some (s.tasks idle_task_id) ≡ true

  -- Making a task ready and adding it to its queue.
  pub wake-Consistent :
      (s : Scheduler F) (a : ℕ)
      → Consistent s
      → Consistent (add_to_ready_queue (set_state s a ready) a)
  unfolding add_to_ready_queue set_state
  wake-Consistent s a c = go (s.tasks a) refl
    where
      go :
          (o : Option (Task F))
          → s.tasks a ≡ o
          → Consistent (add_to_ready_queue (set_state s a ready) a)
      go none e = record {
        holds = λ p id. ground (arith, c.holds p id);
        distinct = λ p. ground (arith, c.distinct p);
        fresh = λ id. ground (arith, c.fresh id);
        idle = ground (arith, c.idle);
      }
      go (some t) e = record {
        holds = λ p id. ground (
          arith,
          c.holds p id,
          c.holds t.priority id,
          contains-push_back_new id a (s.ready_queue t.priority),
        );
        distinct = λ p. ground (
          arith,
          c.distinct p,
          Distinct-push_back_new a (s.ready_queue t.priority) (c.distinct t.priority),
        );
        fresh = λ id. ground (arith, c.fresh id);
        idle = ground (arith, c.idle);
      }

  -- A task that may no longer run leaves its queue.
  pub settle-Consistent :
      (s : Scheduler F) (a : ℕ) (t u : Task F)
      → s.tasks a ≡ some t
      → u.priority ≡ t.priority
      → is_runnable u.state ≡ false
      → Consistent s
      → Consistent (remove_from_ready_queue (record s { tasks = update s.tasks a (some u) }) a)
  unfolding remove_from_ready_queue
  settle-Consistent s a t u e same halted c = record {
    holds = λ p id. ground (
      arith,
      c.holds p id,
      c.holds t.priority id,
      contains-erase id a (s.ready_queue u.priority) (c.distinct u.priority),
    );
    distinct = λ p.
        ground (
          arith,
          c.distinct p,
          Distinct-erase a (s.ready_queue u.priority) (c.distinct u.priority),
        );
    fresh = λ id. ground (arith, c.fresh id);
    idle = ground (arith, c.idle);
  }

  pub drop_task-Consistent :
      (s : Scheduler F) (a : ℕ) → a ≢ idle_task_id → Consistent s → Consistent (drop_task s a)
  unfolding drop_task remove_from_ready_queue
  drop_task-Consistent s a ne c = go (s.tasks a) refl
    where
      go : (o : Option (Task F)) → s.tasks a ≡ o → Consistent (drop_task s a)
      go none e = record {
        holds = λ p id. ground (arith, c.holds p id);
        distinct = λ p. ground (arith, c.distinct p);
        fresh = λ id. ground (arith, c.fresh id);
        idle = ground (arith, c.idle);
      }
      go (some t) e = record {
        holds = λ p id. ground (
          arith,
          c.holds p id,
          contains-erase id a (s.ready_queue t.priority) (c.distinct t.priority),
        );
        distinct = λ p. ground (
          arith,
          c.distinct p,
          Distinct-erase a (s.ready_queue t.priority) (c.distinct t.priority),
        );
        fresh = λ id. ground (arith, c.fresh id);
        idle = ground (arith, c.idle);
      }

  -- A new task with an id that no task has.
  pub enter-Consistent :
      (s : Scheduler F) (a : ℕ) (t : Task F)
      → s.tasks a ≡ none
      → t.state ≡ ready
      → a < s.next_task_id
      → Consistent s
      → Consistent (add_to_ready_queue (record s { tasks = update s.tasks a (some t) }) a)
  unfolding add_to_ready_queue
  enter-Consistent s a t e r l' c = record {
    holds = λ p id.
        ground (arith, c.holds p id, contains-push_back_new id a (s.ready_queue t.priority));
    distinct = λ p. ground (
      arith,
      c.distinct p,
      Distinct-push_back_new a (s.ready_queue t.priority) (c.distinct t.priority),
    );
    fresh = λ id. ground (arith, c.fresh id);
    idle = ground (arith, c.idle);
  }

  process_delays-Consistent :
      (ids kept : List ℕ) (s : Scheduler F) → Consistent s → Consistent (process_delays ids kept s)
  unfolding process_delays
  process_delays-Consistent [] kept s c = record {
    holds = c.holds;
    distinct = c.distinct;
    fresh = c.fresh;
    idle = c.idle;
  }
  process_delays-Consistent (id ∷ ids) kept s c =
      elim (Bool-cases (is_due s.tick_count (s.tasks id))) [
        | inl e ↦ rw e (process_delays-Consistent ids kept _ (wake-Consistent s id c))
        | inr e ↦ rw e (process_delays-Consistent ids (kept ++ id ∷ []) s c)
      ]

  pub process_delay_queue-Consistent :
      (s : Scheduler F) → Consistent s → Consistent (process_delay_queue s)
  unfolding process_delay_queue
  process_delay_queue-Consistent s c = process_delays-Consistent s.delay_queue [] s c

  -- Rotating a queue changes neither what it holds nor that its ids are distinct.
  pick_below-Consistent : (n : ℕ) (s : Scheduler F) → Consistent s → Consistent (pick_below n s).0
  unfolding pick_below
  pick_below-Consistent zero s c = c
  pick_below-Consistent (suc n) s c = go (s.ready_queue n) refl (pick_below-Consistent n s c)
    where
      go :
          (q : List ℕ)
          → s.ready_queue n ≡ q
          → Consistent (pick_below n s).0
          → Consistent (pick_below (suc n) s).0
      go [] e rest = rw (e, pick_below) rest
      go (x ∷ xs) e rest =
          rw (e, pick_below)
            (record {
              holds =
                  λ p id. ground (arith, e, c.holds p id, c.holds n id, contains-rotate id x xs);
              distinct = λ p.
                  ground (
                    arith,
                    e,
                    c.distinct p,
                    Distinct-rotate x xs (subst Distinct e (c.distinct n)),
                  );
              fresh = λ id. ground (arith, c.fresh id);
              idle = ground (arith, c.idle);
            })

  pub pick_next_task-Consistent : (s : Scheduler F) → Consistent s → Consistent (pick_next_task s).0
  unfolding pick_next_task
  pick_next_task-Consistent s c = pick_below-Consistent 256 s c

  switch_to-queued :
      (s : Scheduler F) (next p id : ℕ)
      → queued p ((switch_to s next).0.tasks id) ≡ queued p (s.tasks id)
  unfolding switch_to
  switch_to-queued s next p id = ground arith

  switch_to-kept :
      (s : Scheduler F) (next : ℕ)
      → ((switch_to s next).0.ready_queue ≡ s.ready_queue)
        × ((switch_to s next).0.next_task_id ≡ s.next_task_id)
  unfolding switch_to
  switch_to-kept s next = (refl, refl)

  switch_to-known :
      (s : Scheduler F) (next id : ℕ)
      → is_some ((switch_to s next).0.tasks id) ≡ is_some (s.tasks id)
  unfolding switch_to
  switch_to-known s next id = ground arith

  pub switch_to-Consistent :
      (s : Scheduler F) (next : ℕ) → Consistent s → Consistent (switch_to s next).0
  switch_to-Consistent s next c = record {
    holds = λ p id. rw ((switch_to-kept s next).0, switch_to-queued s next p id) (c.holds p id);
    distinct = λ p. rw ((switch_to-kept s next).0) (c.distinct p);
    fresh = λ id. rw ((switch_to-kept s next).1, switch_to-known s next id) (c.fresh id);
    idle = rw (switch_to-known s next idle_task_id) c.idle;
  }

  pub schedule-Consistent : (s : Scheduler F) → Consistent s → Consistent (schedule s).0
  unfolding schedule
  schedule-Consistent s c = elim (Bool-cases s.is_running) [
    | inl e ↦ simp e (
        switch_to-Consistent _ _ (pick_next_task-Consistent _ (process_delay_queue-Consistent s c)))
    | inr e ↦ simp e c
  ]

  -- Leaving the queue and joining it again at the back.
  pub rejoin-Consistent :
      (s : Scheduler F) (a : ℕ)
      → Consistent s
      → Consistent (add_to_ready_queue (remove_from_ready_queue (set_state s a ready) a) a)
  unfolding add_to_ready_queue remove_from_ready_queue set_state
  rejoin-Consistent s a c = go (s.tasks a) refl
    where
      go :
          (o : Option (Task F))
          → s.tasks a ≡ o
          → Consistent (add_to_ready_queue (remove_from_ready_queue (set_state s a ready) a) a)
      go none e = record {
        holds = λ p id. ground (arith, c.holds p id);
        distinct = λ p. ground (arith, c.distinct p);
        fresh = λ id. ground (arith, c.fresh id);
        idle = ground (arith, c.idle);
      }
      go (some t) e = record {
        holds = λ p id. ground (
          arith,
          c.holds p id,
          c.holds t.priority id,
          contains-push_back_new id a (erase a (s.ready_queue t.priority)),
          contains-erase id a (s.ready_queue t.priority) (c.distinct t.priority),
        );
        distinct = λ p. ground (
          arith,
          c.distinct p,
          Distinct-push_back_new a (erase a (s.ready_queue t.priority))
              (Distinct-erase a (s.ready_queue t.priority) (c.distinct t.priority)),
        );
        fresh = λ id. ground (arith, c.fresh id);
        idle = ground (arith, c.idle);
      }
