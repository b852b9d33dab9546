-- ===== src/Jobs/Scheduler/Consistent.antt =====
-- tools/jobs/jobs.go: a job runs only while it is registered, and no channel is closed twice.
use mathlib.Core.Path.{subst}
use forge_go.Prelude.{
  ℕ, ◌≡◌, refl, All, some, Option, if◌then◌else◌, sym, ◌∙◌, Bool, true, false, List, [], ◌∷◌, ◌++◌,
  none, arith, Bytes, equal_iff,
}
use forge_go.Jobs.{
  Jobs, Goroutine, validate_job_id, set_paused, pause_job, resume_job, stop_control, stop_job,
  open_channel, launch_all, start_jobs, start_from, listening, goroutines, job_controls,
  close_channel, end_listeners, stop, stop_controls, stop_and_clear,
}
use forge_go.Jobs.Scheduler.{
  Reachable, fresh_scheduler, adds_interval, adds_cron, pauses, resumes, stops_job, starts, stops,
  clears, ends,
}
use forge_go.Jobs.Scheduler.Registration.{
  once, All-append, ListensTo, IsConsistent, new_jobs-IsConsistent, with_running-IsConsistent,
  register_interval_job-IsConsistent, register_cron_job-IsConsistent, job_with_id_keeps,
}

set_paused-IsConsistent :
    (paused : Bool) (id : Bytes) (j : Jobs)
    → IsConsistent j
    → IsConsistent (set_paused paused id j).1
unfolding set_paused validate_job_id
set_paused-IsConsistent paused id j w = record {
  own_id = λ i c h. ground (arith, w.own_id i c);
  live = λ i c h. ground (arith, w.live i c);
  known = λ i c h. ground (arith, w.known i c);
  dead = λ c h k. ground (arith, w.dead c);
  closed_once = λ c. ground (arith, w.closed_once c);
  unused = λ c h. ground (arith, w.unused c);
  has_channel = ground (arith, w.has_channel);
  open_channels = λ c. ground (arith, w.open_channels c);
  channel_once = λ c. ground (arith, w.channel_once c);
  unused_channel = λ c. ground (arith, w.unused_channel c);
  idle = ground (arith, w.idle);
  listens = ground (arith, w.listens);
  closed_channel = λ c. ground (arith, w.closed_channel c);
}

stop_job-IsConsistent : (id : Bytes) (j : Jobs) → IsConsistent j → IsConsistent (stop_job id j).1
unfolding stop_job validate_job_id stop_control once
stop_job-IsConsistent id j w = record {
  own_id = λ i c h. ground (arith, w.own_id i c, w.own_id id);
  live = λ i c h. ground (arith, w.live i c, w.own_id i c, w.own_id id c, equal_iff i id);
  known = λ i c h. ground (arith, w.known i c);
  dead = λ c h k. ground (arith, w.dead c, equal_iff (j.control_at c).id id);
  closed_once = λ c. ground (arith, w.closed_once c);
  unused = λ c h. ground (arith, w.unused c, w.known id c);
  has_channel = ground (arith, w.has_channel);
  open_channels = λ c. ground (arith, w.open_channels c);
  channel_once = λ c. ground (arith, w.channel_once c);
  unused_channel = λ c. ground (arith, w.unused_channel c);
  idle = ground (arith, w.idle);
  listens = ground (arith, w.listens);
  closed_channel = λ c. ground (arith, w.closed_channel c);
}

goroutines-listen : (c : ℕ) (cs : List ℕ) → All (ListensTo (some c)) (goroutines c cs)
goroutines-listen c [] = tt
goroutines-listen c (d ∷ cs) = (refl, goroutines-listen c cs)

start_jobs-listens :
    (mode_test : Bool) (j : Jobs)
    → IsConsistent j
    → All (ListensTo (start_jobs mode_test j).stop_ch) (start_jobs mode_test j).running
unfolding start_jobs open_channel launch_all
start_jobs-listens true j w = w.listens
start_jobs-listens false j w = by_flag j.started refl
  where
    by_flag :
        (b : Bool)
        → j.started ≡ b
        → All (ListensTo (start_from b j).stop_ch) (start_from b j).running
    by_flag true e = w.listens
    by_flag false e =
        All-append (ListensTo (some j.next_channel)) j.running _
          (subst (All (ListensTo (some j.next_channel))) (sym (w.idle e)) tt)
          (goroutines-listen j.next_channel (job_controls j))

start_jobs-IsConsistent :
    (mode_test : Bool) (j : Jobs) → IsConsistent j → IsConsistent (start_jobs mode_test j)
unfolding start_jobs open_channel launch_all
start_jobs-IsConsistent mode_test j w = record {
  own_id = λ i c h. ground (arith, w.own_id i c);
  live = λ i c h. ground (arith, w.live i c);
  known = λ i c h. ground (arith, w.known i c);
  dead = λ c h k. ground (arith, w.dead c);
  closed_once = λ c. ground (arith, w.closed_once c);
  unused = λ c h. ground (arith, w.unused c);
  has_channel = ground (arith, w.has_channel);
  open_channels = λ c h k. ground (arith, w.open_channels c, w.unused_channel c);
  channel_once = λ c. ground (arith, w.channel_once c);
  unused_channel = λ c h. ground (arith, w.unused_channel c);
  idle = ground (arith, w.idle);
  listens = start_jobs-listens mode_test j w;
  closed_channel = λ c. ground (arith, w.closed_channel c);
}

listening-nil :
    (closes : ℕ → ℕ) (c : ℕ) (gs : List Goroutine)
    → closes c ≡ 1
    → All (ListensTo (some c)) gs
    → listening closes gs ≡ []
listening-nil closes c [] closed h = refl
listening-nil closes c (g ∷ gs) closed h = rw (h.0, closed) (listening-nil closes c gs closed h.1)

-- Behind a stop no goroutine is left.
pub stop-running : (j : Jobs) → IsConsistent j → (stop j).running ≡ []
unfolding stop
stop-running j w = by_state j.started j.stop_ch refl refl
  where
    by_state :
        (b : Bool) (o : Option ℕ)
        → j.started ≡ b
        → j.stop_ch ≡ o
        → (if b then end_listeners (close_channel o j) else j).running ≡ []
    by_state false o e f = w.idle e
    by_state true none e f = ground (arith, w.has_channel e)
    by_state true (some c) e f =
        listening-nil _ c j.running (ground (arith, (w.open_channels c e f).0))
          (subst (λ x. All (ListensTo x) j.running) f w.listens)

pub stop-IsConsistent : (j : Jobs) → IsConsistent j → IsConsistent (stop j)
unfolding stop
stop-IsConsistent j w = record {
  own_id = λ i c h. ground (arith, w.own_id i c);
  live = λ i c h. ground (arith, w.live i c);
  known = λ i c h. ground (arith, w.known i c);
  dead = λ c h k. ground (arith, w.dead c);
  closed_once = λ c. ground (arith, w.closed_once c);
  unused = λ c h. ground (arith, w.unused c);
  has_channel = ground (arith, w.has_channel);
  open_channels = λ c h k. ground (arith, w.open_channels c);
  channel_once = λ c. ground (arith, w.channel_once c, w.open_channels c);
  unused_channel = λ c h. ground (arith, w.unused_channel c, w.open_channels c);
  idle = λ h. stop-running j w;
  listens = rw (stop-running j w) tt;
  closed_channel = λ c h k. ground (arith, w.closed_channel c, w.open_channels c);
}

pub cleared-IsConsistent :
    (j : Jobs)
    → IsConsistent j
    → IsConsistent (record j {
      interval_jobs = [];
      cron_jobs = [];
      controls = λ _. none;
      control_at = stop_controls j;
    })
unfolding stop_controls stop_control once
cleared-IsConsistent j w = record {
  own_id = λ i c h. cc;
  live = λ i c h. cc;
  known = λ i c h. cc;
  dead = λ c h k. ground (arith, w.dead c);
  closed_once = λ c. ground (arith, w.closed_once c);
  unused = λ c h. ground (arith, w.unused c, w.known (j.control_at c).id c);
  has_channel = w.has_channel;
  open_channels = w.open_channels;
  channel_once = w.channel_once;
  unused_channel = w.unused_channel;
  idle = w.idle;
  listens = w.listens;
  closed_channel = w.closed_channel;
}

All-without :
    {A : Type 0} (P : A → Type 0) (before after : List A) (x : A)
    → All P (before ++ (x ∷ after))
    → All P (before ++ after)
All-without P [] after x h = h.1
All-without P (y ∷ before) after x h = (h.0, All-without P before after x h.1)

ended-nil : (before after : List Goroutine) (g : Goroutine) → before ++ (g ∷ after) ≡ [] → ⊥
ended-nil [] after g h = cc
ended-nil (x ∷ before) after g h = cc

-- After any sequence of calls on a scheduler, each of which ends before the next begins: the map
-- holds live controls under their own identifiers and every control that is not stopped is in it;
-- a started scheduler has an open stop channel, to which all its goroutines listen; a stopped one
-- has no goroutine and its last stop channel is closed; and no channel is closed twice.
pub Reachable-IsConsistent : (j : Jobs) → Reachable j → IsConsistent j
unfolding pause_job resume_job stop_and_clear
Reachable-IsConsistent _ fresh_scheduler = new_jobs-IsConsistent
Reachable-IsConsistent _ (adds_interval j id fn interval timeout r) =
    job_with_id_keeps IsConsistent id fn interval timeout j (Reachable-IsConsistent j r)
      (λ f. register_interval_job-IsConsistent id f interval timeout j (Reachable-IsConsistent j r))
Reachable-IsConsistent _ (adds_cron j id fn trigger interval r) =
    register_cron_job-IsConsistent id fn trigger interval j (Reachable-IsConsistent j r)
Reachable-IsConsistent _ (pauses j id r) =
    set_paused-IsConsistent true id j (Reachable-IsConsistent j r)
Reachable-IsConsistent _ (resumes j id r) =
    set_paused-IsConsistent false id j (Reachable-IsConsistent j r)
Reachable-IsConsistent _ (stops_job j id r) =
    stop_job-IsConsistent id j (Reachable-IsConsistent j r)
Reachable-IsConsistent _ (starts j m r) = start_jobs-IsConsistent m j (Reachable-IsConsistent j r)
Reachable-IsConsistent _ (stops j r) = stop-IsConsistent j (Reachable-IsConsistent j r)
Reachable-IsConsistent _ (clears j r) =
    cleared-IsConsistent _ (stop-IsConsistent j (Reachable-IsConsistent j r))
Reachable-IsConsistent _ (ends j before after g e r) =
    let w = Reachable-IsConsistent j r in
    with_running-IsConsistent j (before ++ after)
      (λ h. absurd (ended-nil before after g (sym e ∙ w.idle h)))
      (All-without _ before after g (subst (All _) e w.listens)) w
