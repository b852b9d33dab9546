-- ===== src/Jobs/Process/Restart.antt =====
-- tools/jobs/jobs.go: what the calls that stop and restart all schedulers leave behind.
use forge_go.Prelude.{
  ℕ, ◌<◌, ◌≡◌, refl, ap, ◌∙◌, Bool, true, false, List, [], ◌∷◌, Option, none, some, arith,
  if◌then◌else◌,
}
use forge_go.Jobs.{
  Jobs, close_channel, end_listeners, can_run, job_controls, goroutines, open_channel, launch_all,
  start_jobs, stop, stop_and_clear,
}
use forge_go.Jobs.Scheduler.{Reachable}
use forge_go.Jobs.Scheduler.Consistent.{
  stop-running, stop-IsConsistent, cleared-IsConsistent, Reachable-IsConsistent,
}
use forge_go.Jobs.Process.{Process, start_all, halt, halt_each, stop_all_jobs, restart_jobs}

-- Every scheduler satisfies `P`.
abbrev pub Each : (Jobs → Type 0) → List Jobs → Type 0
Each P [] = Unit
Each P (j ∷ js) = P j × Each P js

abbrev pub IsIdle : Jobs → Type 0
IsIdle j = (j.started ≡ false) × (j.running ≡ [])

pub stop-IsIdle : (j : Jobs) → Reachable j → IsIdle (stop j)
unfolding stop
stop-IsIdle j r = (ground arith, stop-running j (Reachable-IsConsistent j r))

halt_each-Each :
    (P : Jobs → Type 0) (clear_jobs : Bool)
    → ((j : Jobs) → Reachable j → P (halt clear_jobs j))
    → (js : List Jobs) → Each Reachable js
    → Each P (halt_each clear_jobs js)
unfolding halt_each
halt_each-Each P clear_jobs each [] r = tt
halt_each-Each P clear_jobs each (j ∷ js) (r, rs) =
    (each j r, halt_each-Each P clear_jobs each js rs)

close_channel-job_controls :
    (c : Option ℕ) (j : Jobs) → job_controls (close_channel c j) ≡ job_controls j
close_channel-job_controls none j = refl
close_channel-job_controls (some c) j = refl

pub stop-job_controls : (j : Jobs) → job_controls (stop j) ≡ job_controls j
unfolding stop
stop-job_controls j = by_flag j.started
  where
    by_flag :
        (b : Bool)
        → job_controls (if b then end_listeners (close_channel j.stop_ch j) else j) ≡ job_controls j
    by_flag true = close_channel-job_controls j.stop_ch j
    by_flag false = refl

start_jobs-stopped :
    (j : Jobs)
    → IsIdle j
    → ((start_jobs false j).started ≡ true)
      × ((start_jobs false j).running ≡ goroutines j.next_channel (job_controls j))
unfolding start_jobs open_channel launch_all
start_jobs-stopped j (s, r) = rw (s, r) (refl, refl)

-- When each registered scheduler is in a reachable state: after RestartJobs the scheduler of the
-- package is marked as active and runs exactly one goroutine for each of its registered jobs, in
-- their order, under the stop channel of the new start, and every other scheduler is stopped;
-- under server.modeTest every scheduler is stopped, and the process is not marked as active.
pub restart_jobs_lem :
    (p : Process)
    → Reachable p.global
    → Each Reachable p.others
    → ((restart_jobs false p).is_active ≡ true)
      × ((restart_jobs false p).global.running
          ≡ goroutines (stop p.global).next_channel (job_controls p.global))
      × Each IsIdle (restart_jobs false p).others
      × ((restart_jobs true p).is_active ≡ false)
      × IsIdle (restart_jobs true p).global
      × Each IsIdle (restart_jobs true p).others
unfolding restart_jobs start_all stop_all_jobs start_jobs
restart_jobs_lem p r rs =
    let idle = stop-IsIdle p.global r in
    (
      rw (idle.0) refl,
      (start_jobs-stopped (stop p.global) idle).1
          ∙ ap (goroutines (stop p.global).next_channel) (stop-job_controls p.global),
      halt_each-Each IsIdle false stop-IsIdle p.others rs,
      refl,
      idle,
      halt_each-Each IsIdle false stop-IsIdle p.others rs,
    )

-- The stop channel that a scheduler has had last, if any, is closed, and it was closed once.
abbrev pub IsQuiet : Jobs → Type 0
IsQuiet j = IsIdle j × ((c : ℕ) → j.stop_ch ≡ some c → j.channel_closes c ≡ 1)

-- No job is registered any more, and the function of none that ever was can run.
abbrev pub IsCleared : Jobs → Type 0
IsCleared j =
    (job_controls j ≡ []) × ((c : ℕ) → c < j.next_control → can_run (j.control_at c) ≡ false)

halt-IsQuiet : (clear_jobs : Bool) (j : Jobs) → Reachable j → IsQuiet (halt clear_jobs j)
unfolding stop_and_clear
halt-IsQuiet true j r =
    let idle = stop-IsIdle j r in
    let w = stop-IsConsistent j (Reachable-IsConsistent j r) in
    (idle, λ c h. w.closed_channel c idle.0 h)
halt-IsQuiet false j r =
    let idle = stop-IsIdle j r in
    let w = stop-IsConsistent j (Reachable-IsConsistent j r) in
    (idle, λ c h. w.closed_channel c idle.0 h)

stop_and_clear-IsCleared : (j : Jobs) → Reachable j → IsCleared (stop_and_clear j)
unfolding stop_and_clear can_run
stop_and_clear-IsCleared j r =
    let w = cleared-IsConsistent (stop j) (stop-IsConsistent j (Reachable-IsConsistent j r)) in
    (refl, λ c known. ground (arith, w.dead c known))

-- When each registered scheduler is in a reachable state: after StopAllJobs the process is not
-- marked as active, no scheduler is started, none has a goroutine, and the stop channel that each
-- had last is closed, once; with clearJobs no scheduler has a job left, and the function of none
-- that it ever had can run; without it the scheduler of the package keeps its jobs.
pub stop_all_jobs_lem :
    (clear_jobs : Bool) (p : Process)
    → Reachable p.global
    → Each Reachable p.others
    → let halted = stop_all_jobs clear_jobs p in
      let cleared = stop_all_jobs true p in
      (halted.is_active ≡ false)
      × Each IsQuiet (halted.global ∷ halted.others)
      × Each IsCleared (cleared.global ∷ cleared.others)
      × (job_controls (stop_all_jobs false p).global ≡ job_controls p.global)
unfolding stop_all_jobs halt_each
stop_all_jobs_lem clear_jobs p r rs = (
  refl,
  halt_each-Each IsQuiet clear_jobs (halt-IsQuiet clear_jobs) (p.global ∷ p.others) (r, rs),
  halt_each-Each IsCleared true stop_and_clear-IsCleared (p.global ∷ p.others) (r, rs),
  stop-job_controls p.global,
)
