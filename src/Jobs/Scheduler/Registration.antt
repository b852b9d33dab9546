-- ===== src/Jobs/Scheduler/Registration.antt =====
-- tools/jobs/jobs.go: the invariant of a scheduler, kept by registrations.
use forge_go.Prelude.{
  ℕ, ◌≤◌, ◌<◌, ◌≡◌, refl, Bool, true, false, List, [], ◌∷◌, ◌++◌, All, Option, none, some, arith, ℤ,
  Bytes, equal_iff, equal_refl,
}
use forge_go.Jobs.Trigger.{CronTrigger}
use forge_go.Jobs.{
  Jobs, IntervalJob, CronJob, Goroutine, JobError, new_jobs, add_control_locked,
  register_interval_job, register_cron_job, job_with_id, validate_job_id, validate_interval_job,
  launch_if, goroutine, with_interval_job, with_cron_job, register_with, unless,
}

unfoldable pub once : Bool → ℕ
once true = 1
once false = 0

abbrev pub is_some : Option ℕ → Bool
is_some none = false
is_some (some _) = true

abbrev pub ListensTo : Option ℕ → Goroutine → Type 0
ListensTo none g = ⊥
ListensTo (some c) g = g.channel ≡ c

pub record IsConsistent (j : Jobs) : Type 0 where
  pub own_id : (i : Bytes) (c : ℕ) → j.controls i ≡ some c → (j.control_at c).id ≡ i
  pub live : (i : Bytes) (c : ℕ) → j.controls i ≡ some c → (j.control_at c).stopped ≡ false
  pub known : (i : Bytes) (c : ℕ) → j.controls i ≡ some c → c < j.next_control
  pub dead :
      (c : ℕ)
      → c < j.next_control
      → (j.control_at c).stopped ≡ false
      → j.controls (j.control_at c).id ≡ some c
  pub closed_once : (c : ℕ) → (j.control_at c).closes ≡ once (j.control_at c).stopped
  pub unused : (c : ℕ) → j.next_control ≤ c → (j.control_at c).stopped ≡ false
  pub has_channel : j.started ≡ true → is_some j.stop_ch ≡ true
  pub open_channels :
      (c : ℕ)
      → j.started ≡ true
      → j.stop_ch ≡ some c
      → (j.channel_closes c ≡ 0) × (c < j.next_channel)
  pub channel_once : (c : ℕ) → j.channel_closes c ≤ 1
  pub unused_channel : (c : ℕ) → j.next_channel ≤ c → j.channel_closes c ≡ 0
  pub idle : j.started ≡ false → j.running ≡ []
  pub listens : All (ListensTo j.stop_ch) j.running
  pub closed_channel : (c : ℕ) → j.started ≡ false → j.stop_ch ≡ some c → j.channel_closes c ≡ 1

pub new_jobs-IsConsistent : IsConsistent new_jobs
unfolding new_jobs once
new_jobs-IsConsistent = record {
  own_id = λ i c h. cc;
  live = λ i c h. cc;
  known = λ i c h. cc;
  dead = λ c h k. absurd (omega arith);
  closed_once = λ c. refl;
  unused = λ c h. refl;
  has_channel = λ h. cc;
  open_channels = λ c h k. cc;
  channel_once = λ c. omega arith;
  unused_channel = λ c h. refl;
  idle = λ h. refl;
  listens = tt;
  closed_channel = λ c h k. cc;
}

-- The job lists play no part.
pub with_lists-IsConsistent :
    (j : Jobs) (xs : List IntervalJob) (ys : List CronJob)
    → IsConsistent j
    → IsConsistent (record j { interval_jobs = xs; cron_jobs = ys })
with_lists-IsConsistent j xs ys w = record {
  own_id = w.own_id;
  live = w.live;
  known = w.known;
  dead = w.dead;
  closed_once = w.closed_once;
  unused = w.unused;
  has_channel = w.has_channel;
  open_channels = w.open_channels;
  channel_once = w.channel_once;
  unused_channel = w.unused_channel;
  idle = w.idle;
  listens = w.listens;
  closed_channel = w.closed_channel;
}

pub with_running-IsConsistent :
    (j : Jobs) (gs : List Goroutine)
    → (j.started ≡ false → gs ≡ [])
    → All (ListensTo j.stop_ch) gs
    → IsConsistent j
    → IsConsistent (record j { running = gs })
with_running-IsConsistent j gs idles heard w = record {
  own_id = w.own_id;
  live = w.live;
  known = w.known;
  dead = w.dead;
  closed_once = w.closed_once;
  unused = w.unused;
  has_channel = w.has_channel;
  open_channels = w.open_channels;
  channel_once = w.channel_once;
  unused_channel = w.unused_channel;
  idle = idles;
  listens = heard;
  closed_channel = w.closed_channel;
}

pub add_control_locked-IsConsistent :
    (id : Bytes) (j : Jobs) (c : ℕ) (k : Jobs)
    → IsConsistent j
    → add_control_locked id j ≡ some (c, k)
    → IsConsistent k
unfolding add_control_locked once
add_control_locked-IsConsistent id j c k w h = record {
  own_id = λ i d e. ground (arith, w.own_id i d, w.known i d, equal_iff i id);
  live = λ i d e. ground (arith, w.live i d, w.known i d);
  known = λ i d e. ground (arith, w.known i d);
  dead = λ d e f. ground (arith, w.dead d, equal_refl id, equal_iff (j.control_at d).id id);
  closed_once = λ d. ground (arith, w.closed_once d);
  unused = λ d e. ground (arith, w.unused d);
  has_channel = ground (arith, w.has_channel);
  open_channels = λ d. ground (arith, w.open_channels d);
  channel_once = λ d. ground (arith, w.channel_once d);
  unused_channel = λ d. ground (arith, w.unused_channel d);
  idle = ground (arith, w.idle);
  listens = ground (arith, w.listens);
  closed_channel = λ d. ground (arith, w.closed_channel d);
}

pub All-append :
    {A : Type 0} (P : A → Type 0) (xs ys : List A) → All P xs → All P ys → All P (xs ++ ys)
All-append P [] ys h k = k
All-append P (x ∷ xs) ys h k = (h.0, All-append P xs ys h.1 k)

pub launch-IsConsistent :
    (b : Bool) (o : Option ℕ) (c : ℕ) (j : Jobs)
    → j.started ≡ b
    → j.stop_ch ≡ o
    → IsConsistent j
    → IsConsistent (launch_if b o c j)
launch-IsConsistent false o c j e f w = w
launch-IsConsistent true none c j e f w = w
launch-IsConsistent true (some ch) c j e f w =
    with_running-IsConsistent j (j.running ++ goroutine ch c ∷ []) (λ h. cc)
      (All-append (ListensTo j.stop_ch) j.running _ w.listens (rw f refl, tt)) w

pub register_interval_job-IsConsistent :
    (id : Bytes) (fn : ℕ) (interval : ℤ) (timeout : Option ℤ) (j : Jobs)
    → IsConsistent j
    → IsConsistent (register_interval_job id fn interval timeout j).1
unfolding register_interval_job
register_interval_job-IsConsistent id fn interval timeout j w =
    by_outcome (add_control_locked id j) refl
  where
    by_outcome :
        (o : Option (ℕ × Jobs))
        → add_control_locked id j ≡ o
        → IsConsistent (with_interval_job id fn interval timeout j o).1
    by_outcome none e = w
    by_outcome (some (c, k)) e =
        launch-IsConsistent k.started k.stop_ch c _ refl refl
          (with_lists-IsConsistent k _ k.cron_jobs (add_control_locked-IsConsistent id j c k w e))

pub register_cron_job-IsConsistent :
    (id : Bytes) (fn : ℕ) (trigger : CronTrigger) (interval : ℤ) (j : Jobs)
    → IsConsistent j
    → IsConsistent (register_cron_job id fn trigger interval j).1
unfolding register_cron_job
register_cron_job-IsConsistent id fn trigger interval j w =
    by_outcome (add_control_locked id j) refl
  where
    by_outcome :
        (o : Option (ℕ × Jobs))
        → add_control_locked id j ≡ o
        → IsConsistent (with_cron_job id fn trigger interval j o).1
    by_outcome none e = w
    by_outcome (some (c, k)) e =
        launch-IsConsistent k.started k.stop_ch c _ refl refl (
          with_lists-IsConsistent k k.interval_jobs _
            (add_control_locked-IsConsistent id j c k w e))

-- What holds of the state before a call and after the rest of it holds after the call.
pub unless_keeps :
    (P : Jobs → Type 0) (e : Option JobError) (j : Jobs) (rest : Option JobError × Jobs)
    → P j
    → P rest.1
    → P (unless e j rest).1
unless_keeps P (some e) j rest h k = h
unless_keeps P none j rest h k = k

pub job_with_id_keeps :
    (P : Jobs → Type 0) (id : Bytes) (fn : Option ℕ) (interval : ℤ) (timeout : Option ℤ) (j : Jobs)
    → P j
    → ((f : ℕ) → P (register_interval_job id f interval timeout j).1)
    → P (job_with_id id fn interval timeout j).1
unfolding job_with_id
job_with_id_keeps P id fn interval timeout j h k =
    unless_keeps P (validate_job_id id) j _ h
      (unless_keeps P (validate_interval_job fn interval) j _ h (registered fn))
  where
    registered : (o : Option ℕ) → P (register_with id o interval timeout j).1
    registered none = h
    registered (some f) = k f
