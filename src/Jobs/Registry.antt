-- ===== src/Jobs/Registry.antt =====
-- tools/jobs/jobs.go: a call on every registered scheduler. What each scheduler answers is given, in
-- the order in which the loop comes to it, which Go leaves open.
use forge_go.Prelude.{
  ◌≡◌, ◌↔◌, ◌⊎◌, inl, inr, refl, ap, sym, ◌∙◌, Bool, Bool-cases, true, false, not, ◌&&◌, List, [],
  ◌∷◌, Option, none, some, arith, if◌then◌else◌,
}
use forge_go.Jobs.{JobError, job_not_found}

-- `errors.Is(err, ErrJobNotFound)`
abbrev is_not_found : JobError → Bool
is_not_found job_not_found = true
is_not_found _ = false

-- The error that is kept after a further one.
abbrev kept : JobError → JobError → JobError
kept first_error e = if not (is_not_found e) && is_not_found first_error then e else first_error

-- The loop, with `applied` and `firstErr`.
pub apply_from : Bool → JobError → List (Option JobError) → Option JobError
apply_from applied first_error [] = if applied then none else some first_error
apply_from applied first_error (none ∷ answers) = apply_from true first_error answers
apply_from applied first_error (some e ∷ answers) = apply_from applied (kept first_error e) answers

pub apply_to_registered_jobs : List (Option JobError) → Option JobError
unfolding apply_from
apply_to_registered_jobs answers = apply_from false job_not_found answers

-- Some scheduler has answered without an error.
abbrev pub SomeApplied : List (Option JobError) → Type 0
SomeApplied [] = ⊥
SomeApplied (answer ∷ answers) = (answer ≡ none) ⊎ SomeApplied answers

apply_from-applied :
    (e : JobError) (answers : List (Option JobError)) → apply_from true e answers ≡ none
unfolding apply_from
apply_from-applied e [] = refl
apply_from-applied e (none ∷ answers) = apply_from-applied e answers
apply_from-applied e (some f ∷ answers) = apply_from-applied _ answers

apply_from_iff :
    (e : JobError) (answers : List (Option JobError))
    → (apply_from false e answers ≡ none) ↔ SomeApplied answers
unfolding apply_from
apply_from_iff e [] = ((λ h. cc), (λ h. absurd h))
apply_from_iff e (none ∷ answers) = ((λ _. inl refl), (λ _. apply_from-applied e answers))
apply_from_iff e (some f ∷ answers) =
    let (sound, complete) = apply_from_iff _ answers in
    ((λ h. inr (sound h)), λ h. elim h [ inl x ↦ cc | inr x ↦ complete x ])

kept-other : (e f : JobError) → is_not_found e ≡ false → kept e f ≡ e
kept-other e f h = ground arith

kept-not_found : (f : JobError) → is_not_found f ≡ true → kept job_not_found f ≡ job_not_found
kept-not_found f h = ground arith

kept-first : (f : JobError) → is_not_found f ≡ false → kept job_not_found f ≡ f
kept-first f h = rw h refl

-- A first error other than that the job is not found stays.
apply_from_keeps :
    (e : JobError) (answers : List (Option JobError))
    → is_not_found e ≡ false
    → ¬ SomeApplied answers
    → apply_from false e answers ≡ some e
unfolding apply_from
apply_from_keeps e [] h n = refl
apply_from_keeps e (none ∷ answers) h n = absurd (n (inl refl))
apply_from_keeps e (some f ∷ answers) h n =
    ap (λ x. apply_from false x answers) (kept-other e f h)
    ∙ apply_from_keeps e answers h (λ x. n (inr x))

-- The first error that is not that the job is not found, if there is one.
abbrev pub first_other : List (Option JobError) → JobError
first_other [] = job_not_found
first_other (none ∷ answers) = first_other answers
first_other (some e ∷ answers) = if is_not_found e then first_other answers else e

apply_from-first :
    (answers : List (Option JobError))
    → ¬ SomeApplied answers
    → apply_from false job_not_found answers ≡ some (first_other answers)
unfolding apply_from
apply_from-first [] n = refl
apply_from-first (none ∷ answers) n = absurd (n (inl refl))
apply_from-first (some f ∷ answers) n = elim (Bool-cases (is_not_found f)) [
  | inl e ↦
      ap (λ x. apply_from false x answers) (kept-not_found f e)
      ∙ apply_from-first answers (λ x. n (inr x))
      ∙ ap (λ b. some (if b then first_other answers else f)) (sym e)
  | inr e ↦
      ap (λ x. apply_from false x answers) (kept-first f e)
      ∙ apply_from_keeps f answers e (λ x. n (inr x))
      ∙ ap (λ b. some (if b then first_other answers else f)) (sym e)
]

-- `PauseJob`, `ResumeJob` and `StopJob` succeed exactly when some scheduler has done it, wherever it
-- comes in the order; otherwise they return the first error that is not that the job is not found,
-- and that one only when every scheduler has answered it.
pub apply_to_registered_jobs_lem :
    (answers : List (Option JobError))
    → ((apply_to_registered_jobs answers ≡ none) ↔ SomeApplied answers)
      × (¬ SomeApplied answers → apply_to_registered_jobs answers ≡ some (first_other answers))
unfolding apply_to_registered_jobs
apply_to_registered_jobs_lem answers =
    (apply_from_iff job_not_found answers, apply_from-first answers)
