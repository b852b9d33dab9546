-- ===== src/Jobs/Process/Tests.antt =====
-- tools/jobs/jobs.go: a process with one job, which runs every second, and one other scheduler.
use forge_go.Prelude.{arith, ℕ, ◌≡◌, ◌↔◌, refl, true, false, [], ◌∷◌, none, some, ℤ, pos, codes}
use forge_go.Jobs.{
  job_not_found, nil_job_func, invalid_cron_trigger, validate_job_id, new_jobs, job_with_id,
  job_controls, goroutines, stop,
}
use forge_go.Jobs.Trigger.{CronTrigger, Date, InCalendar, start_year, valid_trigger}
use forge_go.Jobs.Scheduler.{Reachable, fresh_scheduler, adds_interval, starts}
use forge_go.Jobs.Process.{
  Process, init_process, start_all, stop_all_jobs, restart_jobs, stop_everywhere, cron_job_with_id,
  validate_cron_job,
}
use forge_go.Jobs.Process.Everywhere.{IsKnown, all_schedulers, stop_everywhere_lem}
use forge_go.Jobs.Process.Restart.{
  Each, IsIdle, IsQuiet, IsCleared, stop_all_jobs_lem, restart_jobs_lem,
}

abbrev busy : Process
busy = start_all false (record init_process {
  global = (job_with_id (codes "j") (some 5) (pos 1000000000) none new_jobs).1;
  others = new_jobs ∷ [];
})

busy-Reachable : Reachable busy.global
unfolding start_all
busy-Reachable =
    starts _ false
      (adds_interval new_jobs (codes "j") (some 5) (pos 1000000000) none fresh_scheduler)

busy-others : Each Reachable busy.others
unfolding start_all
busy-others = (fresh_scheduler, tt)

stop_all_jobs_example :
    let halted = stop_all_jobs true busy in
    (halted.is_active ≡ false)
    × Each IsQuiet (halted.global ∷ halted.others)
    × Each IsCleared (halted.global ∷ halted.others)
    × (job_controls (stop_all_jobs false busy).global ≡ job_controls busy.global)
stop_all_jobs_example = stop_all_jobs_lem true busy busy-Reachable busy-others

restart_jobs_example :
    ((restart_jobs false busy).is_active ≡ true)
    × ((restart_jobs false busy).global.running
        ≡ goroutines (stop busy.global).next_channel (job_controls busy.global))
    × Each IsIdle (restart_jobs false busy).others
    × ((restart_jobs true busy).is_active ≡ false)
    × IsIdle (restart_jobs true busy).global
    × Each IsIdle (restart_jobs true busy).others
restart_jobs_example = restart_jobs_lem busy busy-Reachable busy-others

stop_everywhere_example :
    (((stop_everywhere (codes "j") busy).0 ≡ none) ↔ IsKnown (codes "j") (all_schedulers busy))
    × ¬ IsKnown (codes "j") (all_schedulers (stop_everywhere (codes "j") busy).1)
    × ((stop_everywhere (codes "j") (stop_everywhere (codes "j") busy).1).0 ≡ some job_not_found)
stop_everywhere_example = stop_everywhere_lem b'j' [] busy

-- The 32nd day of a month.
abbrev no_day : CronTrigger
no_day = record { year = none; month = none; day = some 32; hour = 9; minute = 0; second = 0 }

in_range : InCalendar (start_year no_day.year (pos 2026))
in_range = omega arith

no_day_test :
    (time_of : Date → ℕ → ℕ → ℕ → ℤ)
    → (cron_job_with_id time_of
        (pos 2026)
        (pos 0)
        (codes "c")
        (some 1)
        no_day
        in_range
        (pos 0)
        new_jobs).0
      ≡ some invalid_cron_trigger
unfolding cron_job_with_id validate_cron_job valid_trigger validate_job_id
no_day_test time_of = refl

nil_function_test :
    (time_of : Date → ℕ → ℕ → ℕ → ℤ)
    → (cron_job_with_id time_of
        (pos 2026)
        (pos 0)
        (codes "c")
        none
        no_day
        in_range
        (pos 0)
        new_jobs).0
      ≡ some nil_job_func
unfolding cron_job_with_id validate_cron_job validate_job_id
nil_function_test time_of = refl
