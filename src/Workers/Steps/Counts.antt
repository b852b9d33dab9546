-- ===== src/Workers/Steps/Counts.antt =====
-- tools/workers/workers.go: `activeTasks` counts the tasks in flight, and the limit bounds them.
use forge_go.Prelude.{
  ℕ, suc, ◌+◌, ◌≤◌, ◌≡◌, refl, ap, ◌∙◌, true, none, some, arith, List, [], ◌∷◌, ◌++◌, pos, le_int,
  length, length-append, All,
}
use forge_go.Workers.{
  System, Phase, holding, executing, initial, set_workers_limit, set_parallelism, signal_stop,
  run_workers, release_execution_slot, finish_run, close_done,
}
use forge_go.Workers.Steps.{
  Event, limited, Step, limits, parallels, adds, stops, begins, takes, leaves, spawns, inlines,
  returns, completes, finishes, closes, Trace, start, next,
}
use forge_go.Workers.Steps.Coherent.{
  IsCoherent, alive, next_task-eq-taken, add_task-eq-some, Trace-IsCoherent,
}

-- The task that a run holds or runs itself.
pub own_tasks : {Task : Type 0} → Phase Task → ℕ
own_tasks (holding _) = 1
own_tasks (executing _) = 1
own_tasks _ = 0

module _ {Task : Type 0} where
  -- The tasks that were taken and have not ended: the active run's own, and the spawned ones.
  pub in_flight : System Task → ℕ
  in_flight s = elim s.active_run [
    | none ↦ length s.spawned
    | some r ↦ own_tasks (s.runs r).phase + length s.spawned
  ]

  abbrev Counted : System Task → Type 0
  Counted s = s.active_tasks ≡ pos (in_flight s)

  spawned_one_less :
      (ts before after : List Task) (t : Task)
      → ts ≡ before ++ (t ∷ after)
      → length ts ≡ suc (length (before ++ after))
  spawned_one_less ts before after t h =
      ap length h ∙ omega (arith, length-append before (t ∷ after), length-append before after)

  Step-Counted :
      (s s' : System Task) (e : Event Task) → Step s e s' → IsCoherent s → Counted s → Counted s'
  unfolding set_workers_limit set_parallelism release_execution_slot signal_stop run_workers
      finish_run close_done in_flight own_tasks alive
  Step-Counted _ _ _ (limits s l) c n = n
  Step-Counted _ _ _ (parallels s b) c n = n
  Step-Counted _ _ _ (adds s s' t h) c n = rw (add_task-eq-some s s' t h).1 n
  Step-Counted _ _ _ (stops s) c n = ground (arith, n)
  Step-Counted _ _ _ (begins s) c n = ground (arith, n)
  Step-Counted _ _ _ (takes s s' r t h k) c n =
      let (_, _, (rest, _, e)) = next_task-eq-taken s s' r t k in
      rw e (ground (arith, n, c.only_run r))
  Step-Counted _ _ _ (leaves s r h k) c n = ground (arith, n, c.only_run r)
  Step-Counted _ _ _ (spawns s r t h _) c n = ground (arith, n, c.only_run r)
  Step-Counted _ _ _ (inlines s r t h _) c n = ground (arith, n, c.only_run r)
  Step-Counted _ _ _ (returns s r t h) c n = ground (arith, n, c.only_run r)
  Step-Counted _ _ _ (completes s before after t h) c n =
      ground (arith, n, spawned_one_less s.spawned before after t h)
  Step-Counted _ _ _ (finishes s r h) c n = ground (arith, n, c.only_run r)
  Step-Counted _ _ _ (closes s r h) c n = ground (arith, n, c.runs_alive r)

  -- `activeTasks` is at every moment the number of tasks in flight: those that a run has taken and
  -- that have not ended. So it is never negative, no slot is released twice, and none is lost
  -- when a run is stopped and another one started while tasks still run.
  pub active_tasks_lem :
      (cpus : ℕ) (s : System Task) (es : List (Event Task))
      → Trace cpus s es
      → s.active_tasks ≡ pos (in_flight s)
  unfolding initial in_flight
  active_tasks_lem cpus _ _ start = refl
  active_tasks_lem cpus _ _ (next {s} {s'} {es} {e} t k) =
      Step-Counted s s' e k (Trace-IsCoherent cpus s es t) (active_tasks_lem cpus s es t)

  -- Every limit that was ever set is at most `max`.
  abbrev pub LimitAtMost : ℕ → Event Task → Type 0
  LimitAtMost max (limited l) = le_int l (pos max) ≡ true
  LimitAtMost max _ = Unit

  record IsBounded (max : ℕ) (s : System Task) : Type 0 where
    limit : le_int s.workers_limit (pos max) ≡ true
    active : le_int s.active_tasks (pos max) ≡ true
    waiting : length s.queue ≤ max

  Step-IsBounded :
      (max : ℕ) (s s' : System Task) (e : Event Task)
      → Step s e s'
      → LimitAtMost max e
      → IsBounded max s
      → IsBounded max s'
  unfolding set_workers_limit set_parallelism release_execution_slot signal_stop run_workers
      finish_run close_done
  Step-IsBounded max _ _ _ (limits s l) h b = record {
    limit = h;
    active = b.active;
    waiting = b.waiting;
  }
  Step-IsBounded max _ _ _ (parallels s _) h b = record {
    limit = b.limit;
    active = b.active;
    waiting = b.waiting;
  }
  Step-IsBounded max _ _ _ (adds s s' t k) h b =
      let (room, e) = add_task-eq-some s s' t k in
      rw e (record {
        limit = b.limit;
        active = b.active;
        waiting = ground (arith, b.limit, room, length-append s.queue (t ∷ []));
      })
  Step-IsBounded max _ _ _ (stops s) h b = record {
    limit = ground (arith, b.limit);
    active = ground (arith, b.active);
    waiting = ground (arith, b.waiting);
  }
  Step-IsBounded max _ _ _ (begins s) h b = record {
    limit = ground (arith, b.limit);
    active = ground (arith, b.active);
    waiting = ground (arith, b.waiting);
  }
  Step-IsBounded max _ _ _ (takes s s' r t k l) h b =
      let (_, slot, (rest, q, e)) = next_task-eq-taken s s' r t l in
      rw e (record {
        limit = b.limit;
        active = ground (arith, b.limit, slot);
        waiting = ground (arith, b.waiting, ap length q);
      })
  Step-IsBounded max _ _ _ (leaves s r k l) h b = record {
    limit = b.limit;
    active = b.active;
    waiting = b.waiting;
  }
  Step-IsBounded max _ _ _ (spawns s r t k l) h b = record {
    limit = b.limit;
    active = b.active;
    waiting = b.waiting;
  }
  Step-IsBounded max _ _ _ (inlines s r t k l) h b = record {
    limit = b.limit;
    active = b.active;
    waiting = b.waiting;
  }
  Step-IsBounded max _ _ _ (returns s r t k) h b = record {
    limit = b.limit;
    active = ground (arith, b.active);
    waiting = b.waiting;
  }
  Step-IsBounded max _ _ _ (completes s before after t k) h b = record {
    limit = b.limit;
    active = ground (arith, b.active);
    waiting = b.waiting;
  }
  Step-IsBounded max _ _ _ (closes s r k) h b = record {
    limit = b.limit;
    active = b.active;
    waiting = b.waiting;
  }
  Step-IsBounded max _ _ _ (finishes s r k) h b = record {
    limit = ground (arith, b.limit);
    active = ground (arith, b.active);
    waiting = ground (arith, b.waiting);
  }

  All-before :
      (P : Event Task → Type 0) (es : List (Event Task)) (e : Event Task)
      → All P (es ++ e ∷ [])
      → All P es × P e
  All-before P [] e h = (tt, h.0)
  All-before P (x ∷ es) e h = let (hs, he) = All-before P es e h.1 in ((h.0, hs), he)

  Trace-IsBounded :
      (cpus max : ℕ) (s : System Task) (es : List (Event Task))
      → cpus ≤ max
      → All (LimitAtMost max) es
      → Trace cpus s es
      → IsBounded max s
  unfolding initial
  Trace-IsBounded cpus max _ _ small h start = record {
    limit = ground arith;
    active = ground arith;
    waiting = omega arith;
  }
  Trace-IsBounded cpus max _ _ small h (next {s} {s'} {es} {e} t k) =
      let (hs, he) = All-before (LimitAtMost max) es e h in
      Step-IsBounded max s s' e k he (Trace-IsBounded cpus max s es small hs t)

  -- The limit does bound the tasks in flight and the queue: while no limit above `max` has been set,
  -- on a machine with at most `max` processors, at most `max` tasks are in flight and at most `max`
  -- wait, across any number of stops and restarts.
  pub in_flight_bounded :
      (cpus max : ℕ) (s : System Task) (es : List (Event Task))
      → cpus ≤ max
      → All (LimitAtMost max) es
      → Trace cpus s es
      → (in_flight s ≤ max) × (length s.queue ≤ max)
  in_flight_bounded cpus max s es small h t =
      let b = Trace-IsBounded cpus max s es small h t in
      (ground (arith, b.active, active_tasks_lem cpus s es t), b.waiting)
