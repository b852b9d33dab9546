-- ===== src/Workers/Steps/Queue.antt =====
-- tools/workers/workers.go: no queued task is lost, repeated or overtaken.
use forge_go.Prelude.{◌≡◌, refl, sym, ap, ◌∙◌, ℕ, List, [], ◌∷◌, ◌++◌, arith}
use mathlib.Core.List.{append_assoc}
use forge_go.Workers.{
  System, initial, set_workers_limit, set_parallelism, signal_stop, run_workers,
  release_execution_slot, finish_run, close_done,
}
use forge_go.Workers.Steps.{
  Event, quiet, limited, submitted, started, Step, limits, parallels, adds, stops, begins, takes,
  leaves, spawns, inlines, returns, completes, finishes, closes, Trace, start, next,
}
use forge_go.Workers.Steps.Coherent.{next_task-eq-taken, add_task-eq-some}

module _ {Task : Type 0} where
  -- The tasks that `AddTask` has queued, in order, and those that a run has taken, in order.
  pub submitted_tasks : List (Event Task) → List Task
  submitted_tasks [] = []
  submitted_tasks (submitted t ∷ es) = t ∷ submitted_tasks es
  submitted_tasks (_ ∷ es) = submitted_tasks es

  pub started_tasks : List (Event Task) → List Task
  started_tasks [] = []
  started_tasks (started t ∷ es) = t ∷ started_tasks es
  started_tasks (_ ∷ es) = started_tasks es

  submitted_tasks-append :
      (es fs : List (Event Task))
      → submitted_tasks (es ++ fs) ≡ submitted_tasks es ++ submitted_tasks fs
  unfolding submitted_tasks
  submitted_tasks-append [] fs = refl
  submitted_tasks-append (submitted t ∷ es) fs = ap (◌∷◌ t) (submitted_tasks-append es fs)
  submitted_tasks-append (quiet ∷ es) fs = submitted_tasks-append es fs
  submitted_tasks-append (limited _ ∷ es) fs = submitted_tasks-append es fs
  submitted_tasks-append (started _ ∷ es) fs = submitted_tasks-append es fs

  started_tasks-append :
      (es fs : List (Event Task)) → started_tasks (es ++ fs) ≡ started_tasks es ++ started_tasks fs
  unfolding started_tasks
  started_tasks-append [] fs = refl
  started_tasks-append (started t ∷ es) fs = ap (◌∷◌ t) (started_tasks-append es fs)
  started_tasks-append (quiet ∷ es) fs = started_tasks-append es fs
  started_tasks-append (limited _ ∷ es) fs = started_tasks-append es fs
  started_tasks-append (submitted _ ∷ es) fs = started_tasks-append es fs

  append_nil : (a : List Task) → a ++ [] ≡ a
  append_nil [] = refl
  append_nil (x ∷ a) = ap (◌∷◌ x) (append_nil a)

  unchanged : (a b : List Task) → b ≡ a → a ++ [] ≡ b
  unchanged a b e = append_nil a ∙ sym e

  -- The queue after an event: what it submits goes to the end, what it starts leaves the front.
  Step-queue :
      (s s' : System Task) (e : Event Task)
      → Step s e s'
      → s.queue ++ submitted_tasks (e ∷ []) ≡ started_tasks (e ∷ []) ++ s'.queue
  unfolding submitted_tasks started_tasks set_workers_limit set_parallelism release_execution_slot
      signal_stop run_workers finish_run close_done
  Step-queue _ _ _ (adds s s' t h) = rw (add_task-eq-some s s' t h).1
  Step-queue _ _ _ (takes s s' r t h k) =
      let (_, _, (rest, q, e)) = next_task-eq-taken s s' r t k in
      unchanged s.queue (t ∷ s'.queue) (ap (◌∷◌ t) (ap (λ (x : System Task). x.queue) e) ∙ sym q)
  Step-queue _ _ _ (stops s) = unchanged s.queue _ (ground arith)
  Step-queue _ _ _ (begins s) = unchanged s.queue _ (ground arith)
  Step-queue _ _ _ (finishes s r h) = unchanged s.queue _ (ground arith)
  Step-queue _ _ _ (closes s r h) = unchanged s.queue _ refl
  Step-queue _ _ _ (limits s l) = unchanged s.queue _ refl
  Step-queue _ _ _ (parallels s b) = unchanged s.queue _ refl
  Step-queue _ _ _ (leaves s r h k) = unchanged s.queue _ refl
  Step-queue _ _ _ (spawns s r t h k) = unchanged s.queue _ refl
  Step-queue _ _ _ (inlines s r t h k) = unchanged s.queue _ refl
  Step-queue _ _ _ (returns s r t h) = unchanged s.queue _ refl
  Step-queue _ _ _ (completes s before after t h) = unchanged s.queue _ refl

  -- No task is lost, repeated or overtaken, whatever the limit changes, stops and restarts: the
  -- tasks that were submitted are, in this very order, those that were started and then those that
  -- still wait in the queue.
  pub queue_lem :
      (cpus : ℕ) (s : System Task) (es : List (Event Task))
      → Trace cpus s es
      → submitted_tasks es ≡ started_tasks es ++ s.queue
  unfolding initial submitted_tasks started_tasks
  queue_lem cpus _ _ start = refl
  queue_lem cpus _ _ (next {s} {s'} {es} {e} t k) =
      submitted_tasks-append es (e ∷ [])
      ∙ ap (λ x. x ++ submitted_tasks (e ∷ [])) (queue_lem cpus s es t)
      ∙ append_assoc (started_tasks es) s.queue (submitted_tasks (e ∷ []))
      ∙ ap (λ x. started_tasks es ++ x) (Step-queue s s' e k)
      ∙ sym (append_assoc (started_tasks es) (started_tasks (e ∷ [])) s'.queue)
      ∙ ap (λ x. x ++ s'.queue) (sym (started_tasks-append es (e ∷ [])))
