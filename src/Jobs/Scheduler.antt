-- ===== src/Jobs/Scheduler.antt =====
-- tools/jobs/jobs.go: the sequences of calls on one scheduler, each of which ends before the next
-- begins, with the ends of goroutines in between. `lifecycleMu` keeps the calls that start and stop it
-- apart; a registration that overlaps one of them is in Scheduler/Race.
pub mod Registration
pub mod Consistent
pub mod Counts
pub mod Single
pub mod Race
use forge_go.Prelude.{ℕ, ◌≡◌, ◌++◌, ◌∷◌, List, Bool, ℤ, Option, Bytes}
use forge_go.Jobs.Trigger.{CronTrigger}
use forge_go.Jobs.{
  Jobs, Goroutine, new_jobs, job_with_id, register_cron_job, pause_job, resume_job, stop_job,
  start_jobs, stop, stop_and_clear,
}

pub data Reachable : Jobs → Type 0 where
  fresh_scheduler : Reachable new_jobs
  adds_interval :
      (j : Jobs) (id : Bytes) (fn : Option ℕ) (interval : ℤ) (timeout : Option ℤ)
      → Reachable j
      → Reachable (job_with_id id fn interval timeout j).1
  adds_cron :
      (j : Jobs) (id : Bytes) (fn : ℕ) (trigger : CronTrigger) (interval : ℤ)
      → Reachable j
      → Reachable (register_cron_job id fn trigger interval j).1
  pauses : (j : Jobs) (id : Bytes) → Reachable j → Reachable (pause_job id j).1
  resumes : (j : Jobs) (id : Bytes) → Reachable j → Reachable (resume_job id j).1
  stops_job : (j : Jobs) (id : Bytes) → Reachable j → Reachable (stop_job id j).1
  starts : (j : Jobs) (mode_test : Bool) → Reachable j → Reachable (start_jobs mode_test j)
  stops : (j : Jobs) → Reachable j → Reachable (stop j)
  clears : (j : Jobs) → Reachable j → Reachable (stop_and_clear j)
  ends :
      (j : Jobs) (before after : List Goroutine) (g : Goroutine)
      → j.running ≡ before ++ (g ∷ after)
      → Reachable j
      → Reachable (record j { running = before ++ after })
