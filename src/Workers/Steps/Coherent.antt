-- ===== src/Workers/Steps/Coherent.antt =====
-- tools/workers/workers.go: at most one run that is not given up, and no channel is closed twice.
use forge_go.Prelude.{
  ℕ, ◌≤◌, ◌≡◌, refl, Bool, true, false, Option, none, some, arith, List, [], ◌∷◌, ◌++◌, ℤ, pos,
  le_int, length,
}
use forge_go.Workers.{
  System, Phase, unborn, polling, leaving, gone, holding, executing, initial, set_phase,
  set_workers_limit, set_parallelism, add_task, signal_stop, run_workers, next_task,
  release_execution_slot, finish_run, close_done, closing, stopped, taken, increment, decrement,
}
use forge_go.Workers.Steps.{
  Event, Step, limits, parallels, adds, stops, begins, takes, leaves, spawns, inlines, returns,
  completes, finishes, closes, Trace, start, next,
}

-- The goroutine of a run has not given the run up yet, which it does in the locked part of
-- `finishRun`.
unfoldable pub alive : {Task : Type 0} → Phase Task → Bool
alive unborn = false
alive closing = false
alive gone = false
alive _ = true

abbrev pub is_some : Option ℕ → Bool
is_some none = false
is_some (some _) = true

unfoldable pub at_end : {Task : Type 0} → Phase Task → ℕ
at_end gone = 1
at_end _ = 0

pub once : Bool → ℕ
once true = 1
once false = 0

module _ {Task : Type 0} where
  pub record IsCoherent (s : System Task) : Type 0 where
    pub runs_alive : (r : ℕ) → s.active_run ≡ some r → alive (s.runs r).phase ≡ true
    pub only_run : (r : ℕ) → alive (s.runs r).phase ≡ true → s.active_run ≡ some r
    pub signal : s.stop_signal ≡ s.active_run
    pub flag : s.flag_running ≡ is_some s.active_run
    pub leaves_stopped : (r : ℕ) → (s.runs r).phase ≡ leaving → (s.runs r).stopping ≡ true
    pub stop_once : (r : ℕ) → (s.runs r).stop_closes ≡ once (s.runs r).stopping
    pub done_once : (r : ℕ) → (s.runs r).done_closes ≡ at_end (s.runs r).phase
    pub fresh : (r : ℕ) → s.next_run ≤ r → (s.runs r).phase ≡ unborn

  initial-IsCoherent : (cpus : ℕ) → IsCoherent (initial cpus)
  unfolding initial alive at_end once
  initial-IsCoherent cpus = record {
    runs_alive = λ r h. cc;
    only_run = λ r h. cc;
    signal = refl;
    flag = refl;
    leaves_stopped = λ r h. cc;
    stop_once = λ r. refl;
    done_once = λ r. refl;
    fresh = λ r h. refl;
  }

  -- A live goroutine moves to another phase in which it lives.
  set_phase-IsCoherent :
      (s : System Task) (r : ℕ) (p : Phase Task)
      → IsCoherent s
      → alive (s.runs r).phase ≡ true
      → alive p ≡ true
      → (p ≡ leaving → (s.runs r).stopping ≡ true)
      → IsCoherent (set_phase s r p)
  unfolding alive at_end
  set_phase-IsCoherent s r p c lives live ends = record {
    runs_alive = λ q h. ground (arith, c.runs_alive q);
    only_run = λ q h. ground (arith, c.only_run q, c.only_run r);
    signal = c.signal;
    flag = c.flag;
    leaves_stopped = λ q h. ground (arith, c.leaves_stopped q);
    stop_once = λ q. ground (arith, c.stop_once q, c.stop_once r);
    done_once = λ q. ground (arith, c.done_once q, c.done_once r);
    fresh = λ q h. ground (arith, c.fresh q);
  }

  signal_stop-IsCoherent : (s : System Task) → IsCoherent s → IsCoherent (signal_stop s).0
  unfolding signal_stop once
  signal_stop-IsCoherent s c = record {
    runs_alive = λ q h. ground (arith, c.runs_alive q);
    only_run = λ q h. ground (arith, c.only_run q);
    signal = ground (arith, c.signal);
    flag = ground (arith, c.flag);
    leaves_stopped = λ q h. ground (arith, c.leaves_stopped q);
    stop_once = λ q. ground (arith, c.stop_once q);
    done_once = λ q. ground (arith, c.done_once q);
    fresh = λ q h. ground (arith, c.fresh q);
  }

  run_workers-IsCoherent : (s : System Task) → IsCoherent s → IsCoherent (run_workers s)
  unfolding run_workers alive at_end once
  run_workers-IsCoherent s c = record {
    runs_alive = λ q h. ground (arith, c.runs_alive q);
    only_run = λ q h. ground (arith, c.only_run q);
    signal = ground (arith, c.signal);
    flag = ground (arith, c.flag);
    leaves_stopped = λ q h. ground (arith, c.leaves_stopped q);
    stop_once = λ q. ground (arith, c.stop_once q);
    done_once = λ q. ground (arith, c.done_once q);
    fresh = λ q h. ground (arith, c.fresh q);
  }

  finish_run-IsCoherent :
      (s : System Task) (r : ℕ)
      → IsCoherent s
      → (s.runs r).phase ≡ leaving
      → IsCoherent (finish_run r s)
  unfolding finish_run alive at_end
  finish_run-IsCoherent s r c ends = record {
    runs_alive = λ q h. ground (arith, c.runs_alive q, c.only_run r);
    only_run = λ q h. ground (arith, c.only_run q, c.only_run r);
    signal = ground (arith, c.signal, c.only_run r);
    flag = ground (arith, c.flag, c.only_run r);
    leaves_stopped = λ q h. ground (arith, c.leaves_stopped q);
    stop_once = λ q. ground (arith, c.stop_once q, c.stop_once r);
    done_once = λ q. ground (arith, c.done_once q, c.done_once r);
    fresh = λ q h. ground (arith, c.fresh q, c.fresh r);
  }

  close_done-IsCoherent :
      (s : System Task) (r : ℕ)
      → IsCoherent s
      → (s.runs r).phase ≡ closing
      → IsCoherent (close_done r s)
  unfolding close_done alive at_end
  close_done-IsCoherent s r c ends = record {
    runs_alive = λ q h. ground (arith, c.runs_alive q);
    only_run = λ q h. ground (arith, c.only_run q);
    signal = c.signal;
    flag = c.flag;
    leaves_stopped = λ q h. ground (arith, c.leaves_stopped q);
    stop_once = λ q. ground (arith, c.stop_once q, c.stop_once r);
    done_once = λ q. ground (arith, c.done_once q, c.done_once r);
    fresh = λ q h. ground (arith, c.fresh q, c.fresh r);
  }

  release_execution_slot-IsCoherent :
      (s : System Task) → IsCoherent s → IsCoherent (release_execution_slot s)
  unfolding release_execution_slot
  release_execution_slot-IsCoherent s c = record {
    runs_alive = c.runs_alive;
    only_run = c.only_run;
    signal = c.signal;
    flag = c.flag;
    leaves_stopped = c.leaves_stopped;
    stop_once = c.stop_once;
    done_once = c.done_once;
    fresh = c.fresh;
  }

  -- What `nextTask` does when it hands a task over.
  pub next_task-eq-taken :
      (s s' : System Task) (r : ℕ) (t : Task)
      → next_task r s ≡ taken t s'
      → ((s.runs r).stopping ≡ false)
        × (le_int s.workers_limit s.active_tasks ≡ false)
        × ((rest : List Task) × (s.queue ≡ t ∷ rest)
            × (s' ≡ record s { queue = rest; active_tasks = increment s.active_tasks }))
  unfolding next_task
  next_task-eq-taken s s' r t h = ground arith

  pub add_task-eq-some :
      (s s' : System Task) (t : Task)
      → add_task t s ≡ some s'
      → (le_int s.workers_limit (pos (length s.queue)) ≡ false)
        × (s' ≡ record s { queue = s.queue ++ t ∷ [] })
  unfolding add_task
  add_task-eq-some s s' t h = ground arith

  next_task-eq-stopped :
      (s : System Task) (r : ℕ) → next_task r s ≡ stopped → (s.runs r).stopping ≡ true
  unfolding next_task
  next_task-eq-stopped s r h = ground arith

  -- The queue, the count of tasks, the limit and the mode play no part in it.
  with_tasks-IsCoherent :
      (s : System Task) (q : List Task) (a l : ℤ) (b : Bool) (ts : List Task)
      → IsCoherent s
      → IsCoherent (record s {
        queue = q;
        active_tasks = a;
        workers_limit = l;
        parallelism = b;
        spawned = ts;
      })
  with_tasks-IsCoherent s q a l b ts c = record {
    runs_alive = c.runs_alive;
    only_run = c.only_run;
    signal = c.signal;
    flag = c.flag;
    leaves_stopped = c.leaves_stopped;
    stop_once = c.stop_once;
    done_once = c.done_once;
    fresh = c.fresh;
  }

  Step-IsCoherent :
      (s s' : System Task) (e : Event Task) → Step s e s' → IsCoherent s → IsCoherent s'
  unfolding set_workers_limit set_parallelism release_execution_slot alive
  Step-IsCoherent _ _ _ (limits s l) c = with_tasks-IsCoherent s s.queue s.active_tasks l _ _ c
  Step-IsCoherent _ _ _ (parallels s b) c = with_tasks-IsCoherent s s.queue s.active_tasks _ b _ c
  Step-IsCoherent _ _ _ (adds s s' t h) c =
      rw (add_task-eq-some s s' t h).1
        (with_tasks-IsCoherent s (s.queue ++ t ∷ []) s.active_tasks _ _ _ c)
  Step-IsCoherent _ _ _ (stops s) c = signal_stop-IsCoherent s c
  Step-IsCoherent _ _ _ (begins s) c = run_workers-IsCoherent s c
  Step-IsCoherent _ _ _ (takes s s' r t h k) c =
      let (_, _, (rest, _, e)) = next_task-eq-taken s s' r t k in
      rw e (
        set_phase-IsCoherent _ r (holding t)
          (with_tasks-IsCoherent s rest (increment s.active_tasks) _ _ _ c) (ground arith) refl
          (λ x. cc))
  Step-IsCoherent _ _ _ (leaves s r h k) c =
      set_phase-IsCoherent s r leaving c (ground arith) refl (λ _. next_task-eq-stopped s r k)
  Step-IsCoherent _ _ _ (spawns s r t h _) c =
      with_tasks-IsCoherent (set_phase s r polling) s.queue s.active_tasks _ _ (t ∷ s.spawned)
        (set_phase-IsCoherent s r polling c (ground arith) refl (λ x. cc))
  Step-IsCoherent _ _ _ (inlines s r t h _) c =
      set_phase-IsCoherent s r (executing t) c (ground arith) refl (λ x. cc)
  Step-IsCoherent _ _ _ (returns s r t h) c =
      set_phase-IsCoherent _ r polling (release_execution_slot-IsCoherent s c) (ground arith) refl
        (λ x. cc)
  Step-IsCoherent _ _ _ (completes s before after t h) c =
      with_tasks-IsCoherent s s.queue (decrement s.active_tasks) _ _ (before ++ after) c
  Step-IsCoherent _ _ _ (finishes s r h) c = finish_run-IsCoherent s r c h
  Step-IsCoherent _ _ _ (closes s r h) c = close_done-IsCoherent s r c h

  -- In every execution, with the close of the done channel as a step behind the locked part of
  -- finishRun: the run in activeRun is the one and only run that has begun and has not come to that
  -- locked part, stopSignal and flagRunning agree with it, a run that leaves its loop was told to
  -- stop, a stop channel is closed exactly when its run was told to stop and a done channel exactly
  -- when the goroutine of its run has ended, and none is closed twice.
  pub Trace-IsCoherent :
      (cpus : ℕ) (s : System Task) (es : List (Event Task)) → Trace cpus s es → IsCoherent s
  Trace-IsCoherent cpus _ _ start = initial-IsCoherent cpus
  Trace-IsCoherent cpus _ _ (next {s} {s'} {es} {e} t k) =
      Step-IsCoherent s s' e k (Trace-IsCoherent cpus s es t)
