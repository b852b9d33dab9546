-- ===== src/Jobs/Process/Everywhere.antt =====
-- tools/jobs/jobs.go: StopJob, which asks every registered scheduler.
use forge_go.Prelude.{
  ℕ, ◌≡◌, ◌↔◌, ◌⊎◌, inl, inr, refl, ap, ◌∙◌, Bool-cases, true, false, List, [], ◌∷◌, Option, none,
  some, Bytes, equal_refl, arith,
}
use forge_go.Jobs.{Jobs, job_not_found, validate_job_id, stop_job}
use forge_go.Jobs.Scheduler.Registration.{is_some}
use forge_go.Jobs.Registry.{SomeApplied, first_other, apply_to_registered_jobs_lem}
use forge_go.Jobs.Process.{Process, ask_each, on_each, stop_everywhere}

-- Some scheduler has a job of that identifier.
abbrev pub IsKnown : Bytes → List Jobs → Type 0
IsKnown id [] = ⊥
IsKnown id (j ∷ js) = (is_some (j.controls id) ≡ true) ⊎ IsKnown id js

abbrev pub all_schedulers : Process → List Jobs
all_schedulers p = p.global ∷ p.others

module _ (first : ℕ) (rest : Bytes) where
  abbrev id : Bytes
  id = first ∷ rest

  stop_job_iff : (j : Jobs) → ((stop_job id j).0 ≡ none) ↔ (is_some (j.controls id) ≡ true)
  unfolding stop_job validate_job_id
  stop_job_iff j = by_control (j.controls id) refl
    where
      by_control :
          (o : Option ℕ)
          → j.controls id ≡ o
          → ((stop_job id j).0 ≡ none) ↔ (is_some (j.controls id) ≡ true)
      by_control none e = rw e ((λ h. cc), (λ h. cc))
      by_control (some c) e = rw e ((λ h. refl), (λ h. refl))

  stop_job-forgets : (j : Jobs) → is_some ((stop_job id j).1.controls id) ≡ false
  unfolding stop_job validate_job_id
  stop_job-forgets j = ground (arith, equal_refl id)

  stop_job-unknown :
      (j : Jobs) → is_some (j.controls id) ≡ false → (stop_job id j).0 ≡ some job_not_found
  unfolding stop_job validate_job_id
  stop_job-unknown j h = ground arith

  ask_each-applied : (js : List Jobs) → SomeApplied (ask_each (stop_job id) js).0 ↔ IsKnown id js
  unfolding ask_each
  ask_each-applied [] = ((λ h. h), (λ h. h))
  ask_each-applied (j ∷ js) =
      let (f, g) = stop_job_iff j in
      let (fs, gs) = ask_each-applied js in
      (
        (λ h. elim h [ inl x ↦ inl (f x) | inr x ↦ inr (fs x) ]),
        (λ h. elim h [ inl x ↦ inl (g x) | inr x ↦ inr (gs x) ]),
      )

  ask_each-forgets : (js : List Jobs) → ¬ IsKnown id (ask_each (stop_job id) js).1
  unfolding ask_each
  ask_each-forgets [] h = h
  ask_each-forgets (j ∷ js) h = elim h [
    | inl x ↦ cc (stop_job-forgets j)
    | inr x ↦ ask_each-forgets js x
  ]

  ask_each-unknown :
      (js : List Jobs) → ¬ IsKnown id js → first_other (ask_each (stop_job id) js).0 ≡ job_not_found
  unfolding ask_each
  ask_each-unknown [] h = refl
  ask_each-unknown (j ∷ js) h = elim (Bool-cases (is_some (j.controls id))) [
    | inl e ↦ absurd (h (inl e))
    | inr e ↦ rw (stop_job-unknown j e) (ask_each-unknown js (λ x. h (inr x)))
  ]

  stop_everywhere_iff :
      (p : Process) → ((stop_everywhere id p).0 ≡ none) ↔ IsKnown id (all_schedulers p)
  unfolding stop_everywhere on_each ask_each
  stop_everywhere_iff p =
      let answers = (ask_each (stop_job id) (all_schedulers p)).0 in
      let (f, g) = (apply_to_registered_jobs_lem answers).0 in
      let (k, l) = ask_each-applied (all_schedulers p) in ((λ h. k (f h)), (λ h. g (l h)))

  stop_everywhere-forgets : (p : Process) → ¬ IsKnown id (all_schedulers (stop_everywhere id p).1)
  unfolding stop_everywhere on_each ask_each
  stop_everywhere-forgets p = ask_each-forgets (all_schedulers p)

  stop_everywhere-unknown :
      (p : Process)
      → ¬ IsKnown id (all_schedulers p)
      → (stop_everywhere id p).0 ≡ some job_not_found
  unfolding stop_everywhere on_each ask_each
  stop_everywhere-unknown p h =
      let answers = (ask_each (stop_job id) (all_schedulers p)).0 in
      (apply_to_registered_jobs_lem answers).1 (λ x. h ((ask_each-applied (all_schedulers p)).0 x))
      ∙ ap some (ask_each-unknown (all_schedulers p) h)

  -- For an identifier that is not empty and any set of registered schedulers, StopJob succeeds
  -- exactly when some scheduler has a job of that identifier; whatever it answers, no scheduler has
  -- one afterwards, and a second call answers that the job is not found.
  pub stop_everywhere_lem :
      (p : Process)
      → (((stop_everywhere id p).0 ≡ none) ↔ IsKnown id (all_schedulers p))
        × ¬ IsKnown id (all_schedulers (stop_everywhere id p).1)
        × ((stop_everywhere id (stop_everywhere id p).1).0 ≡ some job_not_found)
  stop_everywhere_lem p = (
    stop_everywhere_iff p,
    stop_everywhere-forgets p,
    stop_everywhere-unknown (stop_everywhere id p).1 (stop_everywhere-forgets p),
  )
