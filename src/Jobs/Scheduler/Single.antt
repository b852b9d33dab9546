-- ===== src/Jobs/Scheduler/Single.antt =====
-- tools/jobs/jobs.go: no job has two goroutines, whatever the sequence of calls.
use forge_go.Prelude.{
  ℕ, ◌≤◌, ◌≡◌, refl, ◌∙◌, Bool, true, false, [], ◌∷◌, ◌++◌, Option, none, some, arith, ℤ, Bytes,
}
use forge_go.Jobs.Trigger.{CronTrigger}
use forge_go.Jobs.{
  Jobs, IntervalJob, CronJob, new_jobs, add_control_locked, register_interval_job,
  register_cron_job, validate_job_id, set_paused, pause_job, resume_job, stop_job, open_channel,
  launch_all, with_interval_job, with_cron_job, start_from, start_jobs, stop, stop_and_clear,
}
use forge_go.Jobs.Scheduler.{
  Reachable, fresh_scheduler, adds_interval, adds_cron, pauses, resumes, stops_job, starts, stops,
  clears, ends,
}
use forge_go.Jobs.Scheduler.Registration.{job_with_id_keeps}
use forge_go.Jobs.Scheduler.Consistent.{stop-running, Reachable-IsConsistent}
use forge_go.Jobs.Scheduler.Counts.{
  remove_interval_job-count, remove_cron_job-count, none_runs, ended-count, count, run_count,
  run_count-launched, IsSingle, add_control_locked-eq-some, Grown-IsSingle, run_count-launch,
  launch_keeps, interval_count-append, cron_count-append,
}

module _ (id : Bytes) (j : Jobs) (s : IsSingle j) where
  register_interval_job-IsSingle :
      (fn : ℕ) (interval : ℤ) (timeout : Option ℤ)
      → IsSingle (register_interval_job id fn interval timeout j).1
  unfolding register_interval_job
  register_interval_job-IsSingle fn interval timeout = by_outcome (add_control_locked id j) refl
    where
      by_outcome :
          (o : Option (ℕ × Jobs))
          → add_control_locked id j ≡ o
          → IsSingle (with_interval_job id fn interval timeout j o).1
      by_outcome none e = s
      by_outcome (some (c, k)) e =
          let job : IntervalJob = record {
            id = id;
            fn = fn;
            interval = interval;
            timeout = timeout;
            control = c;
          } in
          let stored : Jobs = record k { interval_jobs = k.interval_jobs ++ job ∷ [] } in
          let (taken, next, ivs, crs, rs, _, _) = add_control_locked-eq-some id j c k e in
          let (kept_next, kept_ivs, kept_crs) = launch_keeps k.started k.stop_ch c stored in
          (Grown-IsSingle c j _
            (record {
              taken = taken;
              next = kept_next ∙ next;
              jobs = λ d.
                  rw (kept_ivs, kept_crs, ivs, crs)
                    (omega (arith, interval_count-append d j.interval_jobs job));
              runs = λ d. rw (← rs) (run_count-launch k.started k.stop_ch d c stored);
            })
            s)

  register_cron_job-IsSingle :
      (fn : ℕ) (trigger : CronTrigger) (interval : ℤ)
      → IsSingle (register_cron_job id fn trigger interval j).1
  unfolding register_cron_job
  register_cron_job-IsSingle fn trigger interval = by_outcome (add_control_locked id j) refl
    where
      by_outcome :
          (o : Option (ℕ × Jobs))
          → add_control_locked id j ≡ o
          → IsSingle (with_cron_job id fn trigger interval j o).1
      by_outcome none e = s
      by_outcome (some (c, k)) e =
          let job : CronJob = record {
            id = id;
            fn = fn;
            trigger = trigger;
            interval = interval;
            control = c;
          } in
          let stored : Jobs = record k { cron_jobs = k.cron_jobs ++ job ∷ [] } in
          let (taken, next, ivs, crs, rs, _, _) = add_control_locked-eq-some id j c k e in
          let (kept_next, kept_ivs, kept_crs) = launch_keeps k.started k.stop_ch c stored in
          (Grown-IsSingle c j _
            (record {
              taken = taken;
              next = kept_next ∙ next;
              jobs = λ d.
                  rw (kept_ivs, kept_crs, ivs, crs)
                    (omega (arith, cron_count-append d j.cron_jobs job));
              runs = λ d. rw (← rs) (run_count-launch k.started k.stop_ch d c stored);
            })
            s)

set_paused-IsSingle :
    (paused : Bool) (id : Bytes) (j : Jobs) → IsSingle j → IsSingle (set_paused paused id j).1
unfolding set_paused validate_job_id
set_paused-IsSingle paused id j s = record {
  jobs_once = λ c. ground (arith, s.jobs_once c);
  runs_once = λ c. ground (arith, s.runs_once c);
  jobs_known = λ c h. ground (arith, s.jobs_known c);
  runs_known = λ c h. ground (arith, s.runs_known c);
}

stop_job-IsSingle : (id : Bytes) (j : Jobs) → IsSingle j → IsSingle (stop_job id j).1
unfolding stop_job validate_job_id
stop_job-IsSingle id j s = record {
  jobs_once = λ c. ground (
    arith,
    s.jobs_once c,
    remove_interval_job-count c j.interval_jobs id,
    remove_cron_job-count c j.cron_jobs id,
  );
  runs_once = λ c. ground (arith, s.runs_once c);
  jobs_known = λ c h. ground (
    arith,
    s.jobs_known c,
    remove_interval_job-count c j.interval_jobs id,
    remove_cron_job-count c j.cron_jobs id,
  );
  runs_known = λ c h. ground (arith, s.runs_known c);
}

start_jobs-IsSingle :
    (mode_test : Bool) (j : Jobs)
    → (j.started ≡ false → j.running ≡ [])
    → IsSingle j
    → IsSingle (start_jobs mode_test j)
unfolding start_jobs open_channel launch_all
start_jobs-IsSingle true j idle s = s
start_jobs-IsSingle false j idle s = by_flag j.started refl
  where
    by_flag : (b : Bool) → j.started ≡ b → IsSingle (start_from b j)
    by_flag true e = s
    by_flag false e = record {
      jobs_once = s.jobs_once;
      runs_once = λ c. omega (
        arith,
        s.jobs_once c,
        run_count-launched c j.next_channel j.running j,
        none_runs c j.running (idle e),
      );
      jobs_known = s.jobs_known;
      runs_known = λ c h. omega (
        arith,
        s.jobs_known c h,
        run_count-launched c j.next_channel j.running j,
        none_runs c j.running (idle e),
      );
    }

stop-IsSingle : (j : Jobs) → (stop j).running ≡ [] → IsSingle j → IsSingle (stop j)
unfolding stop count
stop-IsSingle j halts s = record {
  jobs_once = λ c. ground (arith, s.jobs_once c);
  runs_once = λ c. omega (arith, none_runs c (stop j).running halts);
  jobs_known = λ c h. ground (arith, s.jobs_known c);
  runs_known = λ c h. none_runs c (stop j).running halts;
}

cleared-IsSingle :
    (j : Jobs) (k : Jobs)
    → IsSingle j
    → k.next_control ≡ j.next_control
    → k.running ≡ j.running
    → k.interval_jobs ≡ []
    → k.cron_jobs ≡ []
    → IsSingle k
unfolding count
cleared-IsSingle j k s e f g h = record {
  jobs_once = λ c. rw (g, h) (omega arith);
  runs_once = λ c. rw f (s.runs_once c);
  jobs_known = λ c l. rw (g, h);
  runs_known = λ c l. rw f (s.runs_known c (omega (arith, l, e)));
}

new_jobs-IsSingle : IsSingle new_jobs
unfolding new_jobs count run_count
new_jobs-IsSingle = record {
  jobs_once = λ c. omega arith;
  runs_once = λ c. omega arith;
  jobs_known = λ c h. refl;
  runs_known = λ c h. refl;
}

pub Reachable-IsSingle : (j : Jobs) → Reachable j → IsSingle j
unfolding pause_job resume_job stop_and_clear
Reachable-IsSingle _ fresh_scheduler = new_jobs-IsSingle
Reachable-IsSingle _ (adds_interval j id fn interval timeout r) =
    job_with_id_keeps IsSingle id fn interval timeout j (Reachable-IsSingle j r)
      (λ f. register_interval_job-IsSingle id j (Reachable-IsSingle j r) f interval timeout)
Reachable-IsSingle _ (adds_cron j id fn trigger interval r) =
    register_cron_job-IsSingle id j (Reachable-IsSingle j r) fn trigger interval
Reachable-IsSingle _ (pauses j id r) = set_paused-IsSingle true id j (Reachable-IsSingle j r)
Reachable-IsSingle _ (resumes j id r) = set_paused-IsSingle false id j (Reachable-IsSingle j r)
Reachable-IsSingle _ (stops_job j id r) = stop_job-IsSingle id j (Reachable-IsSingle j r)
Reachable-IsSingle _ (starts j m r) =
    start_jobs-IsSingle m j (Reachable-IsConsistent j r).idle (Reachable-IsSingle j r)
Reachable-IsSingle _ (stops j r) =
    stop-IsSingle j (stop-running j (Reachable-IsConsistent j r)) (Reachable-IsSingle j r)
Reachable-IsSingle _ (clears j r) =
    cleared-IsSingle (stop j) _
      (stop-IsSingle j (stop-running j (Reachable-IsConsistent j r)) (Reachable-IsSingle j r)) refl
      refl refl refl
Reachable-IsSingle _ (ends j before after g e r) =
    let s = Reachable-IsSingle j r in
    record {
      jobs_once = s.jobs_once;
      runs_once = λ c. omega (arith, s.runs_once c, ended-count c j.running before after g e);
      jobs_known = s.jobs_known;
      runs_known = λ c h. omega (arith, s.runs_known c h, ended-count c j.running before after g e);
    }

-- After any sequence of calls, each of which ends before the next begins, so that no registration
-- overlaps a start or a stop: at most one goroutine runs the job of a control, and when stop has
-- closed the channel none is left that does not listen to it.
pub running_once :
    (j : Jobs) → Reachable j → ((c : ℕ) → run_count c j.running ≤ 1) × ((stop j).running ≡ [])
running_once j r = ((Reachable-IsSingle j r).runs_once, stop-running j (Reachable-IsConsistent j r))
