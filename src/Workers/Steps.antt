-- ===== src/Workers/Steps.antt =====
-- tools/workers/workers.go: the interleavings of the callers, the dispatcher and the tasks.
pub mod Coherent
pub mod Counts
pub mod Queue
pub mod Stop
use forge_go.Prelude.{◌≡◌, Bool, true, false, List, [], ◌∷◌, ◌++◌, ℕ, ℤ, Option, some}
use forge_go.Workers.{
  System, Phase, Next, polling, leaving, holding, executing, stopped, taken, initial, set_phase,
  set_workers_limit, set_parallelism, add_task, signal_stop, run_workers, next_task,
  release_execution_slot, finish_run, close_done, closing,
}

-- What a step shows: a new limit, a task that `AddTask` has queued, or one that a run has taken.
pub data Event (Task : Type 0) : Type 0 where
  quiet : Event Task
  limited : ℤ → Event Task
  submitted started : Task → Event Task

module _ {Task : Type 0} where
  -- One atomic action of one goroutine. `takes`, `leaves`, `spawns`, `inlines`, `returns`,
  -- `finishes` and `closes` are the dispatcher's, `completes` is that of a task in a goroutine of its own.
  pub data Step : System Task → Event Task → System Task → Type 0 where
    limits : (s : System Task) (l : ℤ) → Step s (limited l) (set_workers_limit l s)
    parallels : (s : System Task) (b : Bool) → Step s quiet (set_parallelism b s)
    adds : (s s' : System Task) (t : Task) → add_task t s ≡ some s' → Step s (submitted t) s'
    stops : (s : System Task) → Step s quiet (signal_stop s).0
    begins : (s : System Task) → Step s quiet (run_workers s)
    takes :
        (s s' : System Task) (r : ℕ) (t : Task)
        → (s.runs r).phase ≡ polling
        → next_task r s ≡ taken t s'
        → Step s (started t) (set_phase s' r (holding t))
    leaves :
        (s : System Task) (r : ℕ)
        → (s.runs r).phase ≡ polling
        → next_task r s ≡ stopped
        → Step s quiet (set_phase s r leaving)
    spawns :
        (s : System Task) (r : ℕ) (t : Task)
        → (s.runs r).phase ≡ holding t
        → s.parallelism ≡ true
        → Step s quiet (record (set_phase s r polling) { spawned = t ∷ s.spawned })
    inlines :
        (s : System Task) (r : ℕ) (t : Task)
        → (s.runs r).phase ≡ holding t
        → s.parallelism ≡ false
        → Step s quiet (set_phase s r (executing t))
    returns :
        (s : System Task) (r : ℕ) (t : Task)
        → (s.runs r).phase ≡ executing t
        → Step s quiet (set_phase (release_execution_slot s) r polling)
    completes :
        (s : System Task) (before after : List Task) (t : Task)
        → s.spawned ≡ before ++ (t ∷ after)
        → Step s quiet (record (release_execution_slot s) { spawned = before ++ after })
    finishes :
        (s : System Task) (r : ℕ) → (s.runs r).phase ≡ leaving → Step s quiet (finish_run r s)
    closes : (s : System Task) (r : ℕ) → (s.runs r).phase ≡ closing → Step s quiet (close_done r s)

  -- The executions from the start of the process on a machine with that many processors.
  pub data Trace (cpus : ℕ) : System Task → List (Event Task) → Type 0 where
    start : Trace cpus (initial cpus) []
    next :
        {s s' : System Task} {es : List (Event Task)} {e : Event Task}
        → Trace cpus s es
        → Step s e s'
        → Trace cpus s' (es ++ e ∷ [])
