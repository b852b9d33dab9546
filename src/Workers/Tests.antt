-- ===== src/Workers/Tests.antt =====
-- An execution of tools/workers/workers.go: a run starts, a task is queued, taken and spawned, and
-- the run is told to stop while the task runs.
use forge_go.Prelude.{ℕ, ◌≡◌, ◌≤◌, refl, true, List, [], ◌∷◌, ◌++◌, none, some, pos, length, arith}
use forge_go.Workers.{
  System, polling, holding, initial, add_task, run_workers, next_task, taken, signal_stop,
  set_phase,
}
use forge_go.Workers.Steps.{
  Event, quiet, submitted, started, adds, begins, takes, spawns, Trace, start, next,
}
use forge_go.Workers.Steps.Coherent.{IsCoherent, Trace-IsCoherent}
use forge_go.Workers.Steps.Counts.{in_flight, active_tasks_lem, in_flight_bounded}
use forge_go.Workers.Steps.Queue.{submitted_tasks, started_tasks, queue_lem}
use forge_go.Workers.Steps.Stop.{Ends, signal_stop_lem}

abbrev running : System ℕ
running = run_workers (initial 1)

abbrev queued : System ℕ
queued = record running { queue = 7 ∷ [] }

abbrev chosen : System ℕ
chosen = record queued { queue = []; active_tasks = pos 1 }

abbrev spawning : System ℕ
spawning = set_phase chosen 0 (holding 7)

abbrev busy : System ℕ
busy = record (set_phase spawning 0 polling) { spawned = 7 ∷ [] }

abbrev events : List (Event ℕ)
events = quiet ∷ submitted 7 ∷ started 7 ∷ quiet ∷ []

queues : add_task 7 running ≡ some queued
unfolding add_task run_workers initial
queues = refl

chooses : next_task 0 queued ≡ taken 7 chosen
unfolding next_task run_workers initial
chooses = refl

polls : (queued.runs 0).phase ≡ polling
unfolding run_workers initial
polls = refl

in_parallel : spawning.parallelism ≡ true
unfolding run_workers initial
in_parallel = refl

Trace-busy : Trace 1 busy events
unfolding run_workers initial
Trace-busy =
    next
      (next (next (next start (begins (initial 1))) (adds running queued 7 queues))
        (takes queued chosen 0 7 polls chooses))
      (spawns spawning 0 7 refl in_parallel)

Trace-IsCoherent_example : IsCoherent busy
Trace-IsCoherent_example = Trace-IsCoherent 1 busy events Trace-busy

active_tasks_example : pos 1 ≡ pos (in_flight busy)
unfolding run_workers initial
active_tasks_example = active_tasks_lem 1 busy events Trace-busy

in_flight_bounded_example : (in_flight busy ≤ 2) × (length busy.queue ≤ 2)
in_flight_bounded_example =
    in_flight_bounded 1 2 busy events (omega arith) (tt, (tt, (tt, (tt, tt)))) Trace-busy

queue_example : submitted_tasks events ≡ started_tasks events ++ busy.queue
queue_example = queue_lem 1 busy events Trace-busy

signal_stop_example :
    ((r : ℕ) → (signal_stop busy).1 ≡ some r → Ends r (signal_stop busy).0)
    × ((signal_stop busy).1 ≡ none → busy.active_run ≡ none)
signal_stop_example = signal_stop_lem 1 busy events Trace-busy
