-- ===== src/Jobs/Scheduler/Race.antt =====
-- tools/jobs/jobs.go: a registration that comes between the two halves of `startJobs`, and what a
-- call with a job's identifier answers.
use forge_go.Prelude.{
  ℕ, ◌+◌, ◌≡◌, ◌≢◌, refl, Bool, true, false, List, [], ◌∷◌, ◌++◌, Option, none, some, arith, ℤ,
  Bytes, equal_iff, equal_refl, All,
}
use forge_go.Jobs.{
  Jobs, IntervalJob, CronJob, job_not_found, add_control_locked, register_interval_job,
  validate_job_id, set_paused, pause_job, resume_job, stop_control, stop_job, remove_interval_job,
  remove_cron_job, can_run, open_channel, launch_all, job_controls, launch_if, goroutine,
  with_interval_job, stop,
}
use forge_go.Jobs.Scheduler.{Reachable}
use forge_go.Jobs.Scheduler.Consistent.{Reachable-IsConsistent}
use forge_go.Jobs.Scheduler.Counts.{
  count, run_count, run_count-launched, run_count-append, interval_count-append,
  add_control_locked-eq-some, interval_count, cron_count,
}
use forge_go.Jobs.Scheduler.Single.{Reachable-IsSingle}

-- `startJobs` with a registration between the store of the new channel and the copy of the lists.
abbrev pub start_jobs_around : Bytes → ℕ → ℤ → Option ℤ → Jobs → Jobs
start_jobs_around id fn interval timeout j =
    let k = (register_interval_job id fn interval timeout (open_channel j)).1 in
    launch_all j.next_channel (job_controls k) k

race_count :
    (b : Bool) (o : Option ℕ) (c ch : ℕ) (k : Jobs) (job : IntervalJob)
    → b ≡ true
    → o ≡ some ch
    → job.control ≡ c
    → run_count c k.running ≡ 0
    → interval_count c k + cron_count c k ≡ 0
    → let l = launch_if b o c (record k { interval_jobs = k.interval_jobs ++ job ∷ [] }) in
      run_count c (launch_all ch (job_controls l) l).running ≡ 2
unfolding launch_all run_count count
race_count false o c ch k job e f g h i = cc
race_count true none c ch k job e f g h i = cc
race_count true (some d) c ch k job e f g h i =
    let stored : Jobs = record k { interval_jobs = k.interval_jobs ++ job ∷ [] } in
    ground (
      arith,
      run_count-launched c ch (k.running ++ goroutine d c ∷ []) stored,
      run_count-append c k.running (goroutine d c ∷ []),
      interval_count-append c k.interval_jobs job,
    )

add_control_locked-free :
    (id : Bytes) (j : Jobs) → j.controls id ≡ none → add_control_locked id j ≢ none
unfolding add_control_locked
add_control_locked-free id j h e = ground arith

-- The lifecycle lock does not keep a registration out of a start: when a new job is registered after
-- `startJobs` has stored its channel and before it copies the lists, the registration starts a
-- goroutine for the job, and so does the start, so two goroutines run it.
pub start_jobs_race :
    (j : Jobs) (id : Bytes) (fn : ℕ) (interval : ℤ) (timeout : Option ℤ)
    → Reachable j
    → j.started ≡ false
    → j.controls id ≡ none
    → run_count j.next_control (start_jobs_around id fn interval timeout j).running ≡ 2
unfolding register_interval_job open_channel
start_jobs_race j id fn interval timeout r stopped free =
    by_outcome (add_control_locked id (open_channel j)) refl
  where
    by_outcome :
        (o : Option (ℕ × Jobs))
        → add_control_locked id (open_channel j) ≡ o
        → let l = (with_interval_job id fn interval timeout (open_channel j) o).1 in
          run_count j.next_control (launch_all j.next_channel (job_controls l) l).running ≡ 2
    by_outcome none e = absurd (add_control_locked-free id (open_channel j) free e)
    by_outcome (some (c, k)) e =
        let (taken, _, ivs, crs, rs, st, ch) =
          add_control_locked-eq-some id (open_channel j) c k e in
        let s = Reachable-IsSingle j r in
        rw (← taken) (
          race_count k.started k.stop_ch c j.next_channel k _ st ch refl
            (rw (rs, taken) (s.runs_known j.next_control (omega arith)))
            (rw (ivs, crs, taken) (s.jobs_known j.next_control (omega arith))))

-- A registration whose locked part comes before a stop, and whose launch comes after it.
abbrev stop_between : Bytes → ℕ → ℤ → Option ℤ → Jobs → Option (ℕ × Jobs) → Jobs
stop_between id fn interval timeout j none = j
stop_between id fn interval timeout j (some (control, k)) =
    let job : IntervalJob = record {
      id = id;
      fn = fn;
      interval = interval;
      timeout = timeout;
      control = control;
    } in
    let stored : Jobs = record k { interval_jobs = k.interval_jobs ++ job ∷ [] } in
    launch_if k.started k.stop_ch control (stop stored)

abbrev pub register_around_stop : Bytes → ℕ → ℤ → Option ℤ → Jobs → Jobs
register_around_stop id fn interval timeout j =
    stop_between id fn interval timeout j (add_control_locked id j)

module _ (j : Jobs) (b : ℕ) (bs : Bytes) (r : Reachable j) where
  abbrev id : Bytes
  id = b ∷ bs

  -- `PauseJob` and `ResumeJob` of one scheduler, with an identifier that is not empty: they answer
  -- that the job is not found, and change nothing, exactly when it is not registered; for a
  -- registered job they succeed, never with the error that it is stopped, the pause keeps it from
  -- running and the resumption lets it run again.
  pub pause_job_lem :
      (j.controls id ≡ none
        → (pause_job id j ≡ (some job_not_found, j)) × (resume_job id j ≡ (some job_not_found, j)))
      × ((c : ℕ)
          → j.controls id ≡ some c
          → ((pause_job id j).0 ≡ none)
            × (can_run ((pause_job id j).1.control_at c) ≡ false)
            × ((resume_job id (pause_job id j).1).0 ≡ none)
            × (can_run ((resume_job id (pause_job id j).1).1.control_at c) ≡ true))
  unfolding pause_job resume_job set_paused validate_job_id can_run
  pause_job_lem =
      ((λ h. rw h (refl, refl)), (λ c h. ground (arith, (Reachable-IsConsistent j r).live id c)))

  removed_interval : (xs : List IntervalJob) → All (λ x. x.id ≢ id) (remove_interval_job xs id)
  unfolding remove_interval_job
  removed_interval [] = tt
  removed_interval (x ∷ xs) = ground (arith, equal_iff x.id id, removed_interval xs)

  removed_cron : (xs : List CronJob) → All (λ x. x.id ≢ id) (remove_cron_job xs id)
  unfolding remove_cron_job
  removed_cron [] = tt
  removed_cron (x ∷ xs) = ground (arith, equal_iff x.id id, removed_cron xs)

  -- `StopJob` of one scheduler, with an identifier that is not empty: it answers that the job is not
  -- found, and changes nothing, when it is not registered; for a registered job it succeeds, the
  -- job's function cannot run any more, no job of that identifier is left for a later start, and the
  -- next call with it does not find the job.
  pub stop_job_lem :
      (j.controls id ≡ none → stop_job id j ≡ (some job_not_found, j))
      × ((c : ℕ)
          → j.controls id ≡ some c
          → ((stop_job id j).0 ≡ none)
            × (can_run ((stop_job id j).1.control_at c) ≡ false)
            × All (λ x. x.id ≢ id) (stop_job id j).1.interval_jobs
            × All (λ x. x.id ≢ id) (stop_job id j).1.cron_jobs
            × ((stop_job id (stop_job id j).1).0 ≡ some job_not_found))
  unfolding stop_job validate_job_id can_run stop_control
  stop_job_lem = (
    (λ h. rw h refl),
    (λ c h. rw h (
      refl,
      ground arith,
      removed_interval j.interval_jobs,
      removed_cron j.cron_jobs,
      ground (arith, equal_refl id),
    )),
  )
