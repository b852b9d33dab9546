-- ===== src/Workers/Steps/Stop.antt =====
-- tools/workers/workers.go: `StopWorkers` returns, and a dispatcher with room and work goes on.
use forge_go.Prelude.{
  ℕ, ◌≡◌, refl, true, Option, none, some, arith, List, ◌∷◌, inl, inr, Bool-cases,
}
use forge_go.Workers.{
  System, Phase, unborn, polling, leaving, gone, holding, executing, set_phase, signal_stop,
  next_task, release_execution_slot, finish_run, close_done, closing, stopped,
}
use forge_go.Workers.Steps.{
  Event, quiet, Step, takes, leaves, spawns, inlines, returns, finishes, closes, Trace,
}
use forge_go.Workers.Steps.Coherent.{IsCoherent, alive, at_end, Trace-IsCoherent}

module _ {Task : Type 0} where
  -- The run whose goroutine takes the step.
  pub runner : {s s' : System Task} {e : Event Task} → Step s e s' → Option ℕ
  runner (takes _ _ r _ _ _) = some r
  runner (leaves _ r _ _) = some r
  runner (spawns _ r _ _ _) = some r
  runner (inlines _ r _ _ _) = some r
  runner (returns _ r _ _) = some r
  runner (finishes _ r _) = some r
  runner (closes _ r _) = some r
  runner _ = none

  -- The run's own goroutine, by itself, comes to its end without taking another task, and closes its
  -- done channel.
  pub data Ends (r : ℕ) : System Task → Type 0 where
    ended :
        (s : System Task)
        → (s.runs r).phase ≡ gone
        → (s.runs r).done_closes ≡ 1
        → s.active_run ≡ none
        → Ends r s
    onward :
        (s s' : System Task) (k : Step s quiet s')
        → runner k ≡ some r
        → s'.queue ≡ s.queue
        → Ends r s'
        → Ends r s

  -- The run is the active one, it has been told to stop, and nobody has closed its done channel.
  record IsStopping (r : ℕ) (s : System Task) : Type 0 where
    active : s.active_run ≡ some r
    told : (s.runs r).stopping ≡ true
    open_done : (s.runs r).done_closes ≡ 0

  Ends-leaving : (r : ℕ) (s : System Task) → IsStopping r s → (s.runs r).phase ≡ leaving → Ends r s
  unfolding runner finish_run close_done
  Ends-leaving r s i h =
      let s' = finish_run r s in
      onward s s' (finishes s r h) refl (ground (arith, i.active)) (
        onward s' (close_done r s') (closes s' r (ground arith)) refl refl
          (ended _ (ground arith) (ground (arith, i.open_done)) (ground (arith, i.active))))

  next_task-stopping :
      (r : ℕ) (s : System Task) → (s.runs r).stopping ≡ true → next_task r s ≡ stopped
  unfolding next_task
  next_task-stopping r s h = ground arith

  set_phase-IsStopping :
      (r : ℕ) (s : System Task) (p : Phase Task) → IsStopping r s → IsStopping r (set_phase s r p)
  set_phase-IsStopping r s p i = record {
    active = i.active;
    told = ground (arith, i.told);
    open_done = ground (arith, i.open_done);
  }

  set_phase-phase :
      (r : ℕ) (s : System Task) (p : Phase Task) → ((set_phase s r p).runs r).phase ≡ p
  set_phase-phase r s p = ground arith

  Ends-polling : (r : ℕ) (s : System Task) → IsStopping r s → (s.runs r).phase ≡ polling → Ends r s
  unfolding runner
  Ends-polling r s i h =
      onward s (set_phase s r leaving) (leaves s r h (next_task-stopping r s i.told)) refl refl
        (Ends-leaving r _ (set_phase-IsStopping r s leaving i) (set_phase-phase r s leaving))

  released-IsStopping :
      (r : ℕ) (s : System Task) → IsStopping r s → IsStopping r (release_execution_slot s)
  unfolding release_execution_slot
  released-IsStopping r s i = record { active = i.active; told = i.told; open_done = i.open_done }

  Ends-executing :
      (r : ℕ) (s : System Task) (t : Task)
      → IsStopping r s
      → (s.runs r).phase ≡ executing t
      → Ends r s
  unfolding runner release_execution_slot
  Ends-executing r s t i h =
      let s' = release_execution_slot s in
      onward s (set_phase s' r polling) (returns s r t h) refl refl (
        Ends-polling r _ (set_phase-IsStopping r s' polling (released-IsStopping r s i))
          (set_phase-phase r s' polling))

  Ends-holding :
      (r : ℕ) (s : System Task) (t : Task)
      → IsStopping r s
      → (s.runs r).phase ≡ holding t
      → Ends r s
  unfolding runner
  Ends-holding r s t i h = elim (Bool-cases s.parallelism) [
    | inl parallel ↦
        let s' = set_phase s r polling in
        let j = set_phase-IsStopping r s polling i in
        onward s _ (spawns s r t h parallel) refl refl (
          Ends-polling r (record s' { spawned = t ∷ s.spawned })
            (record { active = j.active; told = j.told; open_done = j.open_done })
            (set_phase-phase r s polling))
    | inr sequential ↦ onward s _ (inlines s r t h sequential) refl refl (
        Ends-executing r _ t (set_phase-IsStopping r s (executing t) i)
          (set_phase-phase r s (executing t)))
  ]

  ends : (r : ℕ) (s : System Task) → IsStopping r s → alive (s.runs r).phase ≡ true → Ends r s
  unfolding alive
  ends r s i lives = by_phase (s.runs r).phase refl
    where
      by_phase : (p : Phase Task) → (s.runs r).phase ≡ p → Ends r s
      by_phase unborn h = cc
      by_phase closing h = cc
      by_phase gone h = cc
      by_phase polling h = Ends-polling r s i h
      by_phase leaving h = Ends-leaving r s i h
      by_phase (holding t) h = Ends-holding r s t i h
      by_phase (executing t) h = Ends-executing r s t i h

  stopped-IsStopping :
      (s : System Task) (r : ℕ)
      → IsCoherent s
      → (signal_stop s).1 ≡ some r
      → IsStopping r (signal_stop s).0 × (alive ((signal_stop s).0.runs r).phase ≡ true)
  unfolding signal_stop at_end alive
  stopped-IsStopping s r c h = (
    record {
      active = ground (arith, c.runs_alive r);
      told = ground (arith, c.runs_alive r);
      open_done = ground (arith, c.runs_alive r, c.done_once r);
    },
    ground (arith, c.runs_alive r),
  )

  -- `StopWorkers` cannot wait for ever: at any moment of any execution, when it has signalled a run
  -- and waits for its done channel, the run's goroutine alone reaches its end, takes no further task
  -- from the queue and closes the channel, if the task that it may be running itself returns. No
  -- other goroutine has to move, even where the queue is full or the limit is not positive. With
  -- no run to wait for, there was no active run.
  pub signal_stop_lem :
      (cpus : ℕ) (s : System Task) (es : List (Event Task))
      → Trace cpus s es
      → ((r : ℕ) → (signal_stop s).1 ≡ some r → Ends r (signal_stop s).0)
        × ((signal_stop s).1 ≡ none → s.active_run ≡ none)
  unfolding signal_stop
  signal_stop_lem cpus s es t = (
    (λ r h.
        let (i, lives) = stopped-IsStopping s r (Trace-IsCoherent cpus s es t) h in
        ends r _ i lives),
    (λ h. ground arith),
  )
