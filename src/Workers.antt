-- ===== src/Workers.antt =====
-- tools/workers/workers.go: the task queue, the dispatcher's runs, and the goroutines. Each function
-- but `close_done` is what one goroutine does under `stateMu`; a call that waits on `stateChanged` does nothing until
-- its condition holds. A channel is modelled by how often it is closed: a second close panics.
pub mod Steps
pub mod Tests
use forge_go.Prelude.{
  ℕ, zero, suc, ◌+◌, Bool, true, false, not, ◌&&◌, ◌||◌, List, [], ◌∷◌, ◌++◌, Option, none, some, ℤ,
  pos, negsuc, le_int, ◌==◌, if◌then◌else◌, length,
}

-- Where the goroutine of a run stands: in `nextTask`, with a task that it has not started, running
-- a task itself, behind the loop, behind the locked part of `finishRun`, or at its end.
pub data Phase (Task : Type 0) : Type 0 where
  unborn polling leaving closing gone : Phase Task
  holding executing : Task → Phase Task

pub record WorkerRun (Task : Type 0) : Type 0 where
  pub stopping : Bool
  pub stop_closes : ℕ
  pub done_closes : ℕ
  pub phase : Phase Task

-- The package's variables, the runs by their identity, and the tasks that run in a goroutine of
-- their own.
pub record System (Task : Type 0) : Type 0 where
  pub queue : List Task
  pub workers_limit : ℤ
  pub active_tasks : ℤ
  pub active_run : Option ℕ
  pub stop_signal : Option ℕ
  pub flag_running : Bool
  pub parallelism : Bool
  pub runs : ℕ → WorkerRun Task
  pub next_run : ℕ
  pub spawned : List Task

abbrev pub increment : ℤ → ℤ
increment (pos n) = pos (n + 1)
increment (negsuc zero) = pos 0
increment (negsuc (suc n)) = negsuc n

abbrev pub decrement : ℤ → ℤ
decrement (pos zero) = negsuc 0
decrement (pos (suc n)) = pos n
decrement (negsuc n) = negsuc (suc n)

abbrev pub is_run : Option ℕ → ℕ → Bool
is_run none r = false
is_run (some q) r = q == r

-- What `nextTask` does: it waits, it reports the stop, or it hands over a task.
pub data Next (Task : Type 0) : Type 0 where
  waits stopped out_of_range : Next Task
  taken : Task → System Task → Next Task

module _ {Task : Type 0} where
  abbrev no_run : WorkerRun Task
  no_run = record { stopping = false; stop_closes = 0; done_closes = 0; phase = unborn }

  -- The variables after `init`.
  pub initial : ℕ → System Task
  initial cpus = record {
    queue = [];
    workers_limit = pos cpus;
    active_tasks = pos 0;
    active_run = none;
    stop_signal = none;
    flag_running = false;
    parallelism = true;
    runs = λ _. no_run;
    next_run = 0;
    spawned = [];
  }

  abbrev pub set_run : System Task → ℕ → WorkerRun Task → System Task
  set_run s r run = record s { runs = λ q. if q == r then run else s.runs q }

  abbrev pub set_phase : System Task → ℕ → Phase Task → System Task
  set_phase s r p = set_run s r (record (s.runs r) { phase = p })

  pub set_workers_limit : ℤ → System Task → System Task
  set_workers_limit limit s = record s { workers_limit = limit }

  pub set_parallelism : Bool → System Task → System Task
  set_parallelism parallel s = record s { parallelism = parallel }

  -- `none` while the queue has no room.
  pub add_task : Task → System Task → Option (System Task)
  add_task task s =
      if le_int s.workers_limit (pos (length s.queue))
      then none
      else some (record s { queue = s.queue ++ task ∷ [] })

  abbrev pub stop_run : System Task → ℕ → System Task
  stop_run s r =
      if not (s.runs r).stopping
      then set_run s r
          (record (s.runs r) { stopping = true; stop_closes = (s.runs r).stop_closes + 1 })
      else s

  -- The run to wait for comes with the new state.
  pub signal_stop : System Task → System Task × Option ℕ
  signal_stop s = elim s.active_run [
    | none ↦ (record s { flag_running = false; stop_signal = none }, none)
    | some r ↦ (stop_run s r, some r)
  ]

  pub run_workers : System Task → System Task
  run_workers s = elim s.active_run [
    | some _ ↦ s
    | none ↦ record (set_run s s.next_run (record no_run { phase = polling })) {
      active_run = some s.next_run;
      stop_signal = some s.next_run;
      flag_running = true;
      next_run = s.next_run + 1;
    }
  ]

  abbrev pub is_empty : List Task → Bool
  is_empty [] = true
  is_empty (_ ∷ _) = false

  abbrev pub take_first : System Task → List Task → Next Task
  take_first s [] = out_of_range
  take_first s (task ∷ rest) =
      taken task (record s { queue = rest; active_tasks = increment s.active_tasks })

  pub next_task : ℕ → System Task → Next Task
  next_task r s =
      if not (s.runs r).stopping && (is_empty s.queue || le_int s.workers_limit s.active_tasks)
      then waits
      else if (s.runs r).stopping
      then stopped
      else take_first s s.queue

  pub release_execution_slot : System Task → System Task
  release_execution_slot s = record s { active_tasks = decrement s.active_tasks }

  abbrev pub forget_run : System Task → ℕ → System Task
  forget_run s r =
      if is_run s.active_run r
      then record s { active_run = none; stop_signal = none; flag_running = false }
      else s

  -- `finishRun` up to its `Unlock`.
  pub finish_run : ℕ → System Task → System Task
  finish_run r s = set_phase (forget_run s r) r closing

  -- The end of `finishRun`, which does not hold `stateMu` any more.
  pub close_done : ℕ → System Task → System Task
  close_done r s =
      let run = s.runs r in
      set_run s r (record run { done_closes = run.done_closes + 1; phase = gone })
