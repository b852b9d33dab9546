-- ===== src/Jobs/Tests.antt =====
-- tools/jobs/jobs.go: a scheduler with one job, and a trigger in February.
use forge_go.Prelude.{
  arith, ℕ, ◌+◌, ◌*◌, ◌≤◌, ◌≡◌, ◌≢◌, ◌↔◌, refl, true, false, [], ◌∷◌, none, some, ℤ, pos, All,
  codes,
}
use forge_go.Jobs.Trigger.{
  CronTrigger, Date, InCalendar, start_year, valid_trigger, next_run, is_after,
}
use forge_go.Jobs.Trigger.Loop.{Fits, Earlier}
use forge_go.Jobs.Trigger.Search.{next_run_lem}
use forge_go.Jobs.{
  Jobs, job_not_found, new_jobs, job_with_id, start_jobs, pause_job, resume_job, stop_job, stop,
  can_run,
}
use forge_go.Jobs.Registry.{
  apply_to_registered_jobs, SomeApplied, first_other, apply_to_registered_jobs_lem,
}
use forge_go.Jobs.Scheduler.{Reachable, fresh_scheduler, adds_interval}
use forge_go.Jobs.Scheduler.Registration.{IsConsistent}
use forge_go.Jobs.Scheduler.Consistent.{Reachable-IsConsistent}
use forge_go.Jobs.Scheduler.Counts.{run_count}
use forge_go.Jobs.Scheduler.Single.{running_once}
use forge_go.Jobs.Scheduler.Race.{start_jobs_around, start_jobs_race, pause_job_lem, stop_job_lem}

-- A scheduler with the job `j`, which runs every second.
abbrev one_job : Jobs
one_job = (job_with_id (codes "j") (some 5) (pos 1000000000) none new_jobs).1

one_job-Reachable : Reachable one_job
one_job-Reachable =
    adds_interval new_jobs (codes "j") (some 5) (pos 1000000000) none fresh_scheduler

Reachable-IsConsistent_example : IsConsistent one_job
Reachable-IsConsistent_example = Reachable-IsConsistent one_job one_job-Reachable

running_once_example : ((c : ℕ) → run_count c one_job.running ≤ 1) × ((stop one_job).running ≡ [])
running_once_example = running_once one_job one_job-Reachable

start_jobs_race_example :
    run_count 0 (start_jobs_around (codes "k") 6 (pos 1000000000) none new_jobs).running ≡ 2
unfolding new_jobs
start_jobs_race_example =
    start_jobs_race new_jobs (codes "k") 6 (pos 1000000000) none fresh_scheduler refl refl

abbrev started_scheduler : Jobs
started_scheduler = start_jobs false new_jobs

pause_job_example :
    (one_job.controls (codes "j") ≡ none
      → (pause_job (codes "j") one_job ≡ (some job_not_found, one_job))
        × (resume_job (codes "j") one_job ≡ (some job_not_found, one_job)))
    × ((c : ℕ)
        → one_job.controls (codes "j") ≡ some c
        → ((pause_job (codes "j") one_job).0 ≡ none)
          × (can_run ((pause_job (codes "j") one_job).1.control_at c) ≡ false)
          × ((resume_job (codes "j") (pause_job (codes "j") one_job).1).0 ≡ none)
          × (can_run ((resume_job (codes "j") (pause_job (codes "j") one_job).1).1.control_at c)
              ≡ true))
pause_job_example = pause_job_lem one_job b'j' [] one_job-Reachable

stop_job_example :
    (one_job.controls (codes "j") ≡ none
      → stop_job (codes "j") one_job ≡ (some job_not_found, one_job))
    × ((c : ℕ)
        → one_job.controls (codes "j") ≡ some c
        → ((stop_job (codes "j") one_job).0 ≡ none)
          × (can_run ((stop_job (codes "j") one_job).1.control_at c) ≡ false)
          × All (λ x. x.id ≢ codes "j") (stop_job (codes "j") one_job).1.interval_jobs
          × All (λ x. x.id ≢ codes "j") (stop_job (codes "j") one_job).1.cron_jobs
          × ((stop_job (codes "j") (stop_job (codes "j") one_job).1).0 ≡ some job_not_found))
stop_job_example = stop_job_lem one_job b'j' [] one_job-Reachable

abbrev in_days : Date → ℕ → ℕ → ℕ → ℤ
in_days d h m s = elim d.year [ pos y ↦ pos (y * 372 + d.month * 31 + d.day) | other ↦ other ]

-- The 29th of February at nine.
abbrev leap_day : CronTrigger
leap_day = record { year = none; month = some 2; day = some 29; hour = 9; minute = 0; second = 0 }

leap_day-valid : valid_trigger leap_day ≡ true
unfolding valid_trigger
leap_day-valid = refl

in_range : InCalendar (start_year leap_day.year (pos 2026))
in_range = omega arith

next_run_example :
    ((r : Date)
      → next_run in_days leap_day (pos 2026) (pos 753800) in_range ≡ some r
      → Fits leap_day (pos 2026) r
        × (is_after in_days leap_day (pos 2026) (pos 753800) r ≡ true)
        × ((u : Date)
            → Fits leap_day (pos 2026) u
            → Earlier u r
            → is_after in_days leap_day (pos 2026) (pos 753800) u ≡ false))
    × ((next_run in_days leap_day (pos 2026) (pos 753800) in_range ≡ none) ↔ (
        (u : Date)
        → Fits leap_day (pos 2026) u
        → is_after in_days leap_day (pos 2026) (pos 753800) u ≡ false))
next_run_example = next_run_lem in_days leap_day (pos 2026) (pos 753800) leap_day-valid in_range

apply_to_registered_jobs_example :
    ((apply_to_registered_jobs (some job_not_found ∷ none ∷ []) ≡ none)
      ↔ SomeApplied (some job_not_found ∷ none ∷ []))
    × (¬ SomeApplied (some job_not_found ∷ none ∷ [])
        → apply_to_registered_jobs (some job_not_found ∷ none ∷ [])
          ≡ some (first_other (some job_not_found ∷ none ∷ [])))
apply_to_registered_jobs_example = apply_to_registered_jobs_lem (some job_not_found ∷ none ∷ [])
