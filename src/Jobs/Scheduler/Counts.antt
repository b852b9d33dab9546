-- ===== src/Jobs/Scheduler/Counts.antt =====
-- tools/jobs/jobs.go: how many jobs and goroutines a control has.
use forge_go.Prelude.{
  ℕ, ◌+◌, ◌≤◌, ◌≡◌, refl, ap, ◌∙◌, Bool, true, false, List, [], ◌∷◌, ◌++◌, Option, none, some,
  arith, Bytes, if◌then◌else◌, ◌==◌,
}
use forge_go.Jobs.{
  remove_interval_job, remove_cron_job, Jobs, IntervalJob, CronJob, Goroutine, add_control_locked,
  launch_if, interval_controls, cron_controls, job_controls, goroutines, goroutine,
}

unfoldable pub count : ℕ → List ℕ → ℕ
count c [] = 0
count c (x ∷ xs) = (if x == c then 1 else 0) + count c xs

-- The goroutines that run the job with this control.
abbrev pub controls_of : List Goroutine → List ℕ
controls_of [] = []
controls_of (g ∷ gs) = g.control ∷ controls_of gs

pub count-append : (c : ℕ) (xs ys : List ℕ) → count c (xs ++ ys) ≡ count c xs + count c ys
unfolding count
count-append c [] ys = omega arith
count-append c (x ∷ xs) ys = omega (arith, count-append c xs ys)

pub interval_controls-append :
    (xs ys : List IntervalJob)
    → interval_controls (xs ++ ys) ≡ interval_controls xs ++ interval_controls ys
interval_controls-append [] ys = refl
interval_controls-append (x ∷ xs) ys = ap (◌∷◌ x.control) (interval_controls-append xs ys)

pub cron_controls-append :
    (xs ys : List CronJob) → cron_controls (xs ++ ys) ≡ cron_controls xs ++ cron_controls ys
cron_controls-append [] ys = refl
cron_controls-append (x ∷ xs) ys = ap (◌∷◌ x.control) (cron_controls-append xs ys)

pub controls_of-append :
    (xs ys : List Goroutine) → controls_of (xs ++ ys) ≡ controls_of xs ++ controls_of ys
controls_of-append [] ys = refl
controls_of-append (x ∷ xs) ys = ap (◌∷◌ x.control) (controls_of-append xs ys)

pub controls_of-goroutines : (ch : ℕ) (cs : List ℕ) → controls_of (goroutines ch cs) ≡ cs
controls_of-goroutines ch [] = refl
controls_of-goroutines ch (c ∷ cs) = ap (◌∷◌ c) (controls_of-goroutines ch cs)

abbrev pub interval_count : ℕ → Jobs → ℕ
interval_count c j = count c (interval_controls j.interval_jobs)

abbrev pub cron_count : ℕ → Jobs → ℕ
cron_count c j = count c (cron_controls j.cron_jobs)

unfoldable pub run_count : ℕ → List Goroutine → ℕ
run_count c gs = count c (controls_of gs)

pub run_count-append :
    (c : ℕ) (xs ys : List Goroutine) → run_count c (xs ++ ys) ≡ run_count c xs + run_count c ys
unfolding run_count
run_count-append c xs ys =
    ap (count c) (controls_of-append xs ys) ∙ count-append c (controls_of xs) (controls_of ys)

pub run_count-launched :
    (c ch : ℕ) (gs : List Goroutine) (j : Jobs)
    → run_count c (gs ++ goroutines ch (job_controls j))
      ≡ run_count c gs + (interval_count c j + cron_count c j)
unfolding run_count
run_count-launched c ch gs j =
    run_count-append c gs (goroutines ch (job_controls j))
    ∙ ap (λ x. count c (controls_of gs) + count c x) (controls_of-goroutines ch (job_controls j))
    ∙ ap (λ x. count c (controls_of gs) + x)
        (count-append c (interval_controls j.interval_jobs) (cron_controls j.cron_jobs))

-- Each control is that of at most one job and of at most one goroutine; none is that of a job that
-- is still to come.
pub record IsSingle (j : Jobs) : Type 0 where
  pub jobs_once : (c : ℕ) → interval_count c j + cron_count c j ≤ 1
  pub runs_once : (c : ℕ) → run_count c j.running ≤ 1
  pub jobs_known : (c : ℕ) → j.next_control ≤ c → interval_count c j + cron_count c j ≡ 0
  pub runs_known : (c : ℕ) → j.next_control ≤ c → run_count c j.running ≡ 0

pub add_control_locked-eq-some :
    (id : Bytes) (j : Jobs) (c : ℕ) (k : Jobs)
    → add_control_locked id j ≡ some (c, k)
    → (c ≡ j.next_control)
      × (k.next_control ≡ j.next_control + 1)
      × (k.interval_jobs ≡ j.interval_jobs)
      × (k.cron_jobs ≡ j.cron_jobs)
      × (k.running ≡ j.running)
      × (k.started ≡ j.started)
      × (k.stop_ch ≡ j.stop_ch)
unfolding add_control_locked
add_control_locked-eq-some id j c k h = ground arith

-- What a registration adds to the counts.
pub record Grown (c : ℕ) (j k : Jobs) : Type 0 where
  pub taken : c ≡ j.next_control
  pub next : k.next_control ≡ j.next_control + 1
  pub jobs :
      (d : ℕ)
      → interval_count d k + cron_count d k
        ≡ interval_count d j + cron_count d j + (if c == d then 1 else 0)
  pub runs : (d : ℕ) → run_count d k.running ≤ run_count d j.running + (if c == d then 1 else 0)

pub Grown-IsSingle : (c : ℕ) (j k : Jobs) → Grown c j k → IsSingle j → IsSingle k
Grown-IsSingle c j k g s = record {
  jobs_once = λ d. ground (arith, g.taken, g.jobs d, s.jobs_once d, s.jobs_known d);
  runs_once = λ d. ground (arith, g.taken, g.runs d, s.runs_once d, s.runs_known d);
  jobs_known = λ d h. ground (arith, g.taken, g.next, g.jobs d, s.jobs_known d);
  runs_known = λ d h. ground (arith, g.taken, g.next, g.runs d, s.runs_known d);
}

pub run_count-launch :
    (b : Bool) (o : Option ℕ) (d c : ℕ) (j : Jobs)
    → run_count d (launch_if b o c j).running ≤ run_count d j.running + (if c == d then 1 else 0)
unfolding run_count count
run_count-launch false o d c j = omega arith
run_count-launch true none d c j = omega arith
run_count-launch true (some ch) d c j =
    ground (arith, run_count-append d j.running (goroutine ch c ∷ []))

pub launch_keeps :
    (b : Bool) (o : Option ℕ) (c : ℕ) (j : Jobs)
    → ((launch_if b o c j).next_control ≡ j.next_control)
      × ((launch_if b o c j).interval_jobs ≡ j.interval_jobs)
      × ((launch_if b o c j).cron_jobs ≡ j.cron_jobs)
launch_keeps false o c j = (refl, refl, refl)
launch_keeps true none c j = (refl, refl, refl)
launch_keeps true (some ch) c j = (refl, refl, refl)

pub interval_count-append :
    (d : ℕ) (xs : List IntervalJob) (x : IntervalJob)
    → count d (interval_controls (xs ++ x ∷ []))
      ≡ count d (interval_controls xs) + (if x.control == d then 1 else 0)
unfolding count
interval_count-append d xs x =
    ap (count d) (interval_controls-append xs (x ∷ []))
    ∙ count-append d (interval_controls xs) (x.control ∷ [])
    ∙ omega arith

pub cron_count-append :
    (d : ℕ) (xs : List CronJob) (x : CronJob)
    → count d (cron_controls (xs ++ x ∷ []))
      ≡ count d (cron_controls xs) + (if x.control == d then 1 else 0)
unfolding count
cron_count-append d xs x =
    ap (count d) (cron_controls-append xs (x ∷ []))
    ∙ count-append d (cron_controls xs) (x.control ∷ [])
    ∙ omega arith

pub remove_interval_job-count :
    (c : ℕ) (xs : List IntervalJob) (id : Bytes)
    → count c (interval_controls (remove_interval_job xs id)) ≤ count c (interval_controls xs)
unfolding remove_interval_job count
remove_interval_job-count c [] id = omega arith
remove_interval_job-count c (x ∷ xs) id = ground (arith, remove_interval_job-count c xs id)

pub remove_cron_job-count :
    (c : ℕ) (xs : List CronJob) (id : Bytes)
    → count c (cron_controls (remove_cron_job xs id)) ≤ count c (cron_controls xs)
unfolding remove_cron_job count
remove_cron_job-count c [] id = omega arith
remove_cron_job-count c (x ∷ xs) id = ground (arith, remove_cron_job-count c xs id)

pub none_runs : (c : ℕ) (gs : List Goroutine) → gs ≡ [] → run_count c gs ≡ 0
unfolding run_count count
none_runs c gs e = rw e

pub run_count-cons :
    (c : ℕ) (g : Goroutine) (gs : List Goroutine) → run_count c gs ≤ run_count c (g ∷ gs)
unfolding run_count count
run_count-cons c g gs = omega arith

pub ended-count :
    (c : ℕ) (gs before after : List Goroutine) (g : Goroutine)
    → gs ≡ before ++ (g ∷ after)
    → run_count c (before ++ after) ≤ run_count c gs
ended-count c gs before after g e = rw e (
    omega (
      arith,
      run_count-append c before after,
      run_count-append c before (g ∷ after),
      run_count-cons c g after,
    ))
