-- ===== src/Jobs/Process.antt =====
-- tools/jobs/jobs.go: the schedulers of the process, and the calls that start and stop them. The
-- package's own scheduler is registered before any other and never unregistered; `lifecycleMu` makes
-- each of these calls one step.
pub mod Restart
pub mod Everywhere
pub mod Tests
use forge_go.Prelude.{
  ℕ, Bool, true, false, not, List, [], ◌∷◌, Option, none, some, ℤ, Bytes, if◌then◌else◌,
}
use forge_go.Jobs.Trigger.{CronTrigger, Date, InCalendar, start_year, valid_trigger, next_run}
use forge_go.Jobs.{
  JobError, nil_job_func, invalid_cron_trigger, cron_trigger_expired, Jobs, new_jobs, unless,
  validate_job_id, register_cron_job, pause_job, resume_job, stop_job, start_jobs, stop,
  stop_and_clear,
}
use forge_go.Jobs.Registry.{apply_to_registered_jobs}

-- `globalJobs`, the other schedulers of `registry`, and `checkJobsStop`.
pub record Process : Type 0 where
  pub global : Jobs
  pub others : List Jobs
  pub is_active : Bool

pub init_process : Process
unfolding new_jobs
init_process = record { global = new_jobs; others = []; is_active = false }

-- The flag is set only where the goroutines are started.
abbrev pub marks_active : Bool → Jobs → Bool → Bool
marks_active true j was = was
marks_active false j was = if j.started then was else true

-- `StartJobs`
pub start_all : Bool → Process → Process
start_all mode_test p = record p {
  global = start_jobs mode_test p.global;
  is_active = marks_active mode_test p.global p.is_active;
}

abbrev pub halt : Bool → Jobs → Jobs
halt clear_jobs j = if clear_jobs then stop_and_clear j else stop j

pub halt_each : Bool → List Jobs → List Jobs
halt_each clear_jobs [] = []
halt_each clear_jobs (j ∷ js) = halt clear_jobs j ∷ halt_each clear_jobs js

pub stop_all_jobs : Bool → Process → Process
stop_all_jobs clear_jobs p = record {
  global = halt clear_jobs p.global;
  others = halt_each clear_jobs p.others;
  is_active = false;
}

pub restart_jobs : Bool → Process → Process
restart_jobs mode_test p = start_all mode_test (stop_all_jobs false p)

-- What each scheduler answers, and what becomes of it.
pub ask_each : (Jobs → Option JobError × Jobs) → List Jobs → List (Option JobError) × List Jobs
ask_each f [] = ([], [])
ask_each f (j ∷ js) = let (answers, rest) = ask_each f js in ((f j).0 ∷ answers, (f j).1 ∷ rest)

-- A call on every scheduler, in one of the orders in which Go may come to them.
pub on_each : (Jobs → Option JobError × Jobs) → Process → Option JobError × Process
on_each f p =
    let (answers, others) = ask_each f p.others in
    (
      apply_to_registered_jobs ((f p.global).0 ∷ answers),
      record p { global = (f p.global).1; others = others },
    )

pub pause_everywhere : Bytes → Process → Option JobError × Process
pause_everywhere id p = on_each (pause_job id) p

pub resume_everywhere : Bytes → Process → Option JobError × Process
resume_everywhere id p = on_each (resume_job id) p

pub stop_everywhere : Bytes → Process → Option JobError × Process
stop_everywhere id p = on_each (stop_job id) p

-- The time of a date and a time of day, the year of the clock and its time.
module _ (time_of : Date → ℕ → ℕ → ℕ → ℤ) (now_year now : ℤ) where
  pub validate_cron_job :
      Option ℕ → (t : CronTrigger) → InCalendar (start_year t.year now_year) → Option JobError
  validate_cron_job none t years = some nil_job_func
  validate_cron_job (some _) t years =
      if not (valid_trigger t)
      then some invalid_cron_trigger
      else elim (next_run time_of t now_year now years) [
        | none ↦ some cron_trigger_expired
        | some _ ↦ none
      ]

  -- A nil function does not come here: `validateCronJob` has refused it.
  abbrev pub register_cron_with : Bytes → Option ℕ → CronTrigger → ℤ → Jobs → Option JobError × Jobs
  register_cron_with id none t interval j = (some nil_job_func, j)
  register_cron_with id (some fn) t interval j = register_cron_job id fn t interval j

  pub cron_job_with_id :
      Bytes
      → Option ℕ
      → (t : CronTrigger) → InCalendar (start_year t.year now_year)
      → ℤ
      → Jobs
      → Option JobError × Jobs
  cron_job_with_id id fn t years interval j =
      unless (validate_job_id id) j
        (unless (validate_cron_job fn t years) j (register_cron_with id fn t interval j))
