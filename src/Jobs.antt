-- ===== src/Jobs.antt =====
-- tools/jobs/jobs.go: the jobs of one scheduler, their controls, and its life cycle. Each function is
-- what it does when no other call comes in between; Scheduler/Race takes a start and a registration
-- apart. A job's function is known by its identity, a control by the
-- number of its allocation, and so is a stop channel, which is a count of its closes. The jobs that
-- run are those of the goroutines in the wait group.
pub mod Trigger
pub mod Scheduler
pub mod Registry
pub mod Process
pub mod Tests
use forge_go.Prelude.{
  ℕ, zero, suc, ◌+◌, Bool, true, false, not, ◌&&◌, List, [], ◌∷◌, ◌++◌, Option, none, some, ℤ, pos,
  le_int, ◌==◌, if◌then◌else◌, Bytes, equal,
}
use Trigger.{CronTrigger}

pub data JobError : Type 0 where
  nil_job_func invalid_interval empty_job_id duplicate_job_id job_not_found job_stopped : JobError
  invalid_cron_trigger cron_trigger_expired : JobError

pub record IntervalJob : Type 0 where
  pub id : Bytes
  pub fn : ℕ
  pub interval : ℤ
  pub timeout : Option ℤ
  pub control : ℕ

pub record CronJob : Type 0 where
  pub id : Bytes
  pub fn : ℕ
  pub trigger : CronTrigger
  pub interval : ℤ
  pub control : ℕ

pub record JobControl : Type 0 where
  pub id : Bytes
  pub paused : Bool
  pub stopped : Bool
  pub closes : ℕ

-- One goroutine of the wait group: the control of its job, and the stop channel it listens to.
pub record Goroutine : Type 0 where
  pub control : ℕ
  pub channel : ℕ

pub record Jobs : Type 0 where
  pub started : Bool
  pub stop_ch : Option ℕ
  pub interval_jobs : List IntervalJob
  pub cron_jobs : List CronJob
  pub controls : Bytes → Option ℕ
  pub running : List Goroutine
  pub control_at : ℕ → JobControl
  pub next_control : ℕ
  pub channel_closes : ℕ → ℕ
  pub next_channel : ℕ

abbrev new_control : Bytes → JobControl
new_control id = record { id = id; paused = false; stopped = false; closes = 0 }

pub new_jobs : Jobs
new_jobs = record {
  started = false;
  stop_ch = none;
  interval_jobs = [];
  cron_jobs = [];
  controls = λ _. none;
  running = [];
  control_at = λ _. new_control [];
  next_control = 0;
  channel_closes = λ _. 0;
  next_channel = 0;
}

abbrev pub is_empty : Bytes → Bool
is_empty [] = true
is_empty (_ ∷ _) = false

abbrev pub set_control : Jobs → ℕ → JobControl → Jobs
set_control j c k = record j { control_at = λ d. if d == c then k else j.control_at d }

-- `none` where the identifier is taken.
pub add_control_locked : Bytes → Jobs → Option (ℕ × Jobs)
add_control_locked id j = elim (j.controls id) [
  | some _ ↦ none
  | none ↦ some (
    j.next_control,
    record (set_control j j.next_control (new_control id)) {
      controls = λ i. if equal i id then some j.next_control else j.controls i;
      next_control = j.next_control + 1;
    },
  )
]

abbrev pub goroutine : ℕ → ℕ → Goroutine
goroutine channel control = record { control = control; channel = channel }

-- A job that is registered while the scheduler runs gets its goroutine at once.
abbrev pub launch_if : Bool → Option ℕ → ℕ → Jobs → Jobs
launch_if true (some channel) control j = record j {
  running = j.running ++ goroutine channel control ∷ [];
}
launch_if _ _ control j = j

-- `registerIntervalJob` behind the call of `addControlLocked`.
abbrev pub with_interval_job :
    Bytes → ℕ → ℤ → Option ℤ → Jobs → Option (ℕ × Jobs) → Option JobError × Jobs
with_interval_job id fn interval timeout j none = (some duplicate_job_id, j)
with_interval_job id fn interval timeout j (some (control, k)) =
    let job : IntervalJob = record {
      id = id;
      fn = fn;
      interval = interval;
      timeout = timeout;
      control = control;
    } in
    let stored : Jobs = record k { interval_jobs = k.interval_jobs ++ job ∷ [] } in
    (none, launch_if k.started k.stop_ch control stored)

pub register_interval_job : Bytes → ℕ → ℤ → Option ℤ → Jobs → Option JobError × Jobs
register_interval_job id fn interval timeout j =
    with_interval_job id fn interval timeout j (add_control_locked id j)

-- `registerCronJob` behind the call of `addControlLocked`.
abbrev pub with_cron_job :
    Bytes → ℕ → CronTrigger → ℤ → Jobs → Option (ℕ × Jobs) → Option JobError × Jobs
with_cron_job id fn trigger interval j none = (some duplicate_job_id, j)
with_cron_job id fn trigger interval j (some (control, k)) =
    let job : CronJob = record {
      id = id;
      fn = fn;
      trigger = trigger;
      interval = interval;
      control = control;
    } in
    let stored : Jobs = record k { cron_jobs = k.cron_jobs ++ job ∷ [] } in
    (none, launch_if k.started k.stop_ch control stored)

pub register_cron_job : Bytes → ℕ → CronTrigger → ℤ → Jobs → Option JobError × Jobs
register_cron_job id fn trigger interval j =
    with_cron_job id fn trigger interval j (add_control_locked id j)

pub validate_job_id : Bytes → Option JobError
validate_job_id id = if is_empty id then some empty_job_id else none

pub validate_interval_job : Option ℕ → ℤ → Option JobError
validate_interval_job none interval = some nil_job_func
validate_interval_job (some _) interval =
    if le_int interval (pos 0) then some invalid_interval else none

-- `if err != nil { return err }`
abbrev pub unless : Option JobError → Jobs → Option JobError × Jobs → Option JobError × Jobs
unless (some e) j rest = (some e, j)
unless none j rest = rest

-- A nil function does not come here: `validateIntervalJob` has refused it.
abbrev pub register_with : Bytes → Option ℕ → ℤ → Option ℤ → Jobs → Option JobError × Jobs
register_with id none interval timeout j = (some nil_job_func, j)
register_with id (some fn) interval timeout j = register_interval_job id fn interval timeout j

-- `jobWithID`; the function is `none` for nil.
pub job_with_id : Bytes → Option ℕ → ℤ → Option ℤ → Jobs → Option JobError × Jobs
job_with_id id fn interval timeout j =
    unless (validate_job_id id) j
      (unless (validate_interval_job fn interval) j (register_with id fn interval timeout j))

-- What `pauseJob` and `resumeJob` do with the control that they have looked up, without the lock: in
-- between, another call may have stopped the job.
abbrev pub set_found : Bool → ℕ → Jobs → Option JobError × Jobs
set_found paused c j =
    if (j.control_at c).stopped
    then (some job_stopped, j)
    else (none, set_control j c (record (j.control_at c) { paused = paused }))

-- The common part of `pauseJob` and `resumeJob`.
pub set_paused : Bool → Bytes → Jobs → Option JobError × Jobs
set_paused paused id j = elim (validate_job_id id) [
  | some e ↦ (some e, j)
  | none ↦ elim (j.controls id) [ none ↦ (some job_not_found, j) | some c ↦ set_found paused c j ]
]

pub pause_job : Bytes → Jobs → Option JobError × Jobs
pause_job id j = set_paused true id j

pub resume_job : Bytes → Jobs → Option JobError × Jobs
resume_job id j = set_paused false id j

pub can_run : JobControl → Bool
can_run c = not c.stopped && not c.paused

-- `jobControl.stop`; `once` lets only the first call close the channel, which is the call that finds
-- the count at 0.
pub stop_control : JobControl → JobControl
stop_control c = record c { stopped = true; closes = if c.closes == 0 then 1 else c.closes }

pub remove_interval_job : List IntervalJob → Bytes → List IntervalJob
remove_interval_job [] id = []
remove_interval_job (item ∷ items) id =
    let rest = remove_interval_job items id in if not (equal item.id id) then item ∷ rest else rest

pub remove_cron_job : List CronJob → Bytes → List CronJob
remove_cron_job [] id = []
remove_cron_job (item ∷ items) id =
    let rest = remove_cron_job items id in if not (equal item.id id) then item ∷ rest else rest

pub stop_job : Bytes → Jobs → Option JobError × Jobs
stop_job id j = elim (validate_job_id id) [
  | some e ↦ (some e, j)
  | none ↦ elim (j.controls id) [
    | none ↦ (some job_not_found, j)
    | some c ↦ (
      none,
      record (set_control j c (stop_control (j.control_at c))) {
        controls = λ i. if equal i id then none else j.controls i;
        interval_jobs = remove_interval_job j.interval_jobs id;
        cron_jobs = remove_cron_job j.cron_jobs id;
      },
    )
  ]
]

-- The first part of `startJobs`: the flag and the new channel.
pub open_channel : Jobs → Jobs
open_channel j = record j {
  started = true;
  stop_ch = some j.next_channel;
  next_channel = j.next_channel + 1;
}

abbrev pub interval_controls : List IntervalJob → List ℕ
interval_controls [] = []
interval_controls (x ∷ xs) = x.control ∷ interval_controls xs

abbrev pub cron_controls : List CronJob → List ℕ
cron_controls [] = []
cron_controls (x ∷ xs) = x.control ∷ cron_controls xs

-- The controls of the copies that `startJobs` takes under the lock.
abbrev pub job_controls : Jobs → List ℕ
job_controls j = interval_controls j.interval_jobs ++ cron_controls j.cron_jobs

abbrev pub goroutines : ℕ → List ℕ → List Goroutine
goroutines channel [] = []
goroutines channel (c ∷ cs) = goroutine channel c ∷ goroutines channel cs

-- The last part of `startJobs`: a goroutine for each copied job.
pub launch_all : ℕ → List ℕ → Jobs → Jobs
launch_all channel copies j = record j { running = j.running ++ goroutines channel copies }

-- `startJobs` behind its test of `server.modeTest`, with the flag that `CompareAndSwap` finds.
abbrev pub start_from : Bool → Jobs → Jobs
start_from true j = j
start_from false j =
    let opened = open_channel j in launch_all j.next_channel (job_controls opened) opened

pub start_jobs : Bool → Jobs → Jobs
start_jobs mode_test j = if mode_test then j else start_from j.started j

abbrev pub close_channel : Option ℕ → Jobs → Jobs
close_channel none j = j
close_channel (some c) j = record j {
  channel_closes = λ d. if d == c then j.channel_closes d + 1 else j.channel_closes d;
}

-- The goroutines that do not listen to a closed channel.
abbrev pub listening : (ℕ → ℕ) → List Goroutine → List Goroutine
listening closes [] = []
listening closes (g ∷ gs) =
    let rest = listening closes gs in if closes g.channel == 0 then g ∷ rest else rest

abbrev pub end_listeners : Jobs → Jobs
end_listeners j = record j { started = false; running = listening j.channel_closes j.running }

-- A goroutine ends when its channel is closed; `wg.Wait` returns when none is left.
pub stop : Jobs → Jobs
stop j = if j.started then end_listeners (close_channel j.stop_ch j) else j

abbrev is_control : Option ℕ → ℕ → Bool
is_control none c = false
is_control (some d) c = d == c

-- The loop over the controls: each stands in the map under its own identifier.
pub stop_controls : Jobs → ℕ → JobControl
stop_controls j c =
    let k = j.control_at c in if is_control (j.controls k.id) c then stop_control k else k

pub stop_and_clear : Jobs → Jobs
stop_and_clear j =
    let s = stop j in
    record s {
      interval_jobs = [];
      cron_jobs = [];
      controls = λ _. none;
      control_at = stop_controls s;
    }
