-- ===== src/Jobs/Trigger/Loop.antt =====
-- tools/jobs/jobs.go: a loop that returns at the first success, and what a trigger asks of a date.
use forge_go.Prelude.{
  ℕ, zero, suc, ◌+◌, ◌≤◌, ◌<◌, ◌≡◌, refl, ap, ◌∙◌, true, Option, none, some, arith, ℤ, lt_int, ◌↔◌,
  ◌⊎◌, inl, inr, Option-cases,
}
use forge_go.Jobs.Trigger.{
  CronTrigger, Date, to_int, add_int, days_in_month, first_of, start_year, year_count, start_month,
  month_count, start_day, day_count,
}

pub from_low : (low i : ℕ) → low ≤ i → (i ≡ low) ⊎ (low + 1 ≤ i)
from_low low i h = ground arith

pub first_of-some :
    {A : Type 0} (low n : ℕ) (f : ℕ → Option A) (a : A)
    → first_of low n f ≡ some a
    → (k : ℕ) × (low ≤ k)
      × (k < low + n)
      × (f k ≡ some a)
      × ((i : ℕ) → low ≤ i → i < k → f i ≡ none)
unfolding first_of
first_of-some low zero f a h = cc
first_of-some low (suc n) f a h = elim (Option-cases (f low)) [
  | inr (b, e) ↦ (low, omega arith, omega arith, e ∙ (rw e at h), λ i l u. absurd (omega arith))
  | inl e ↦
      let (k, lo, up, hit, before) = first_of-some (low + 1) n f a (rw e at h) in
      (
        k,
        omega arith,
        omega arith,
        hit,
        λ i l u. elim (from_low low i l) [ inl p ↦ ap f p ∙ e | inr m ↦ before i m u ],
      )
]

pub first_of-none :
    {A : Type 0} (low n : ℕ) (f : ℕ → Option A)
    → first_of low n f ≡ none
    → (i : ℕ) → low ≤ i
    → i < low + n
    → f i ≡ none
unfolding first_of
first_of-none low zero f h i l u = absurd (omega arith)
first_of-none low (suc n) f h i l u = elim (Option-cases (f low)) [
  | inr (b, e) ↦ cc (rw e at h)
  | inl e ↦ elim (from_low low i l) [
    | inl p ↦ ap f p ∙ e
    | inr m ↦ first_of-none (low + 1) n f (rw e at h) i m (omega arith)
  ]
]

-- What the fields of a trigger ask of a date.
abbrev pub YearFits : Option ℕ → ℤ → ℤ → Type 0
YearFits none now_year y = (k : ℕ) × (k ≤ 400) × (y ≡ add_int now_year k)
YearFits (some n) now_year y = y ≡ to_int n

abbrev pub MonthFits : Option ℕ → ℕ → Type 0
MonthFits none m = (1 ≤ m) × (m ≤ 12)
MonthFits (some n) m = m ≡ n

abbrev pub DayFits : Option ℕ → ℕ → ℕ → Type 0
DayFits none end_day d = (1 ≤ d) × (d ≤ end_day)
DayFits (some n) end_day d = (d ≡ n) × (d ≤ end_day)

pub record Fits (t : CronTrigger) (now_year : ℤ) (d : Date) : Type 0 where
  pub year : YearFits t.year now_year d.year
  pub month : MonthFits t.month d.month
  pub day : DayFits t.day (days_in_month d.year d.month) d.day

-- The order of the calendar.
abbrev pub Earlier : Date → Date → Type 0
Earlier d e =
    (lt_int d.year e.year ≡ true)
    ⊎ ((d.year ≡ e.year) × (d.month < e.month))
    ⊎ ((d.year ≡ e.year) × (d.month ≡ e.month) × (d.day < e.day))

pub DayFits-iff :
    (o : Option ℕ) (end_day d : ℕ)
    → DayFits o end_day d ↔ ((start_day o ≤ d) × (d < start_day o + day_count o end_day))
DayFits-iff none end_day d = ground arith
DayFits-iff (some n) end_day d = ground arith

pub MonthFits-iff :
    (o : Option ℕ) (m : ℕ)
    → MonthFits o m ↔ ((start_month o ≤ m) × (m < start_month o + month_count o))
MonthFits-iff none m = ground arith
MonthFits-iff (some n) m = ground arith

pub add_int-zero : (a : ℤ) → a ≡ add_int a 0
add_int-zero a = ground arith

pub YearFits-offset :
    (o : Option ℕ) (now_year y : ℤ)
    → YearFits o now_year y
    → (k : ℕ) × (k < year_count o) × (y ≡ add_int (start_year o now_year) k)
YearFits-offset none now_year y (k, small, e) = (k, omega arith, e)
YearFits-offset (some n) now_year y e = (0, omega arith, e ∙ add_int-zero (to_int n))

pub offset_YearFits :
    (o : Option ℕ) (now_year : ℤ) (k : ℕ)
    → k < year_count o
    → YearFits o now_year (add_int (start_year o now_year) k)
offset_YearFits none now_year k h = (k, omega arith, refl)
offset_YearFits (some n) now_year k h = ground arith

pub add_int-lt : (a : ℤ) (i k : ℕ) → lt_int (add_int a i) (add_int a k) ≡ true → i < k
add_int-lt a i k h = ground arith

pub add_int-eq : (a : ℤ) (i k : ℕ) → add_int a i ≡ add_int a k → i ≡ k
add_int-eq a i k h = ground arith
