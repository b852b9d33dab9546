-- ===== src/Jobs/Trigger/Search.antt =====
-- tools/jobs/jobs.go: `nextRun` finds the first date of its trigger that is after the clock.
use forge_go.Prelude.{
  ℕ, ◌≤◌, ◌<◌, ◌≡◌, ap, sym, ◌∙◌, true, false, none, some, arith, ℤ, ◌↔◌, ◌⊎◌, inl, inr,
  Option-cases,
}
use mathlib.Core.Path.{subst}
use forge_go.Jobs.Trigger.{
  CronTrigger, Date, valid_trigger, add_int, days_in_month, first_of, InCalendar, start_year,
  year_count, is_after, at_day, in_month, in_year, at_year, next_run,
}
use forge_go.Jobs.Trigger.Loop.{
  first_of-some, first_of-none, YearFits, MonthFits, DayFits, Fits, Earlier, DayFits-iff,
  MonthFits-iff, YearFits-offset, offset_YearFits, add_int-lt,
}

module _ (instant : Date → ℕ → ℕ → ℕ → ℤ) (t : CronTrigger) (now_year now : ℤ)
    (years : InCalendar (start_year t.year now_year)) where
  abbrev date : ℤ → ℕ → ℕ → Date
  date y m d = record { year = y; month = m; day = d }

  abbrev After : Date → Type 0
  After d = is_after instant t now_year now d ≡ true

  abbrev NotAfter : Date → Type 0
  NotAfter d = is_after instant t now_year now d ≡ false

  at_day-none :
      (y : ℤ) (m d : ℕ) → at_day instant t now_year now y m d ≡ none → NotAfter (date y m d)
  at_day-none y m d h = ground arith

  at_day-some :
      (y : ℤ) (m d : ℕ) (r : Date)
      → at_day instant t now_year now y m d ≡ some r
      → (r ≡ date y m d) × After (date y m d)
  at_day-some y m d r h = ground arith

  in_month-none :
      (y : ℤ) (m d : ℕ)
      → in_month instant t now_year now y m ≡ none
      → DayFits t.day (days_in_month y m) d
      → NotAfter (date y m d)
  unfolding in_month
  in_month-none y m d h fit =
      let (lo, up) = (DayFits-iff t.day (days_in_month y m) d).0 fit in
      at_day-none y m d (first_of-none _ _ (at_day instant t now_year now y m) h d lo up)

  -- The day that the loop over a month finds.
  record FoundDay (y : ℤ) (m : ℕ) (r : Date) : Type 0 where
    year : r.year ≡ y
    month : r.month ≡ m
    day : DayFits t.day (days_in_month y m) r.day
    after : After r
    first : (d : ℕ) → DayFits t.day (days_in_month y m) d → d < r.day → NotAfter (date y m d)

  in_month-some :
      (y : ℤ) (m : ℕ) (r : Date) → in_month instant t now_year now y m ≡ some r → FoundDay y m r
  unfolding in_month
  in_month-some y m r h =
      let f = at_day instant t now_year now y m in
      let (k, lo, up, hit, before) = first_of-some _ _ f r h in
      let (e, late) = at_day-some y m k r hit in
      record {
        year = ap (λ (x : Date). x.year) e;
        month = ap (λ (x : Date). x.month) e;
        day =
            rw (ap (λ (x : Date). x.day) e) ((DayFits-iff t.day (days_in_month y m) k).1 (lo, up));
        after = rw e late;
        first = λ d fit less. at_day-none y m d (
            before d ((DayFits-iff t.day (days_in_month y m) d).0 fit).0
              (rw (ap (λ (x : Date). x.day) e) at less));
      }

  in_year-none :
      (y : ℤ) (m d : ℕ)
      → in_year instant t now_year now y ≡ none
      → MonthFits t.month m
      → DayFits t.day (days_in_month y m) d
      → NotAfter (date y m d)
  unfolding in_year
  in_year-none y m d h fits fit =
      let (lo, up) = (MonthFits-iff t.month m).0 fits in
      in_month-none y m d (first_of-none _ _ (in_month instant t now_year now y) h m lo up) fit

  -- The day that the loop over a year finds.
  record FoundInYear (y : ℤ) (r : Date) : Type 0 where
    month_fits : MonthFits t.month r.month
    found : FoundDay y r.month r
    first_month :
        (m d : ℕ)
        → MonthFits t.month m
        → DayFits t.day (days_in_month y m) d
        → m < r.month
        → NotAfter (date y m d)

  in_year-some : (y : ℤ) (r : Date) → in_year instant t now_year now y ≡ some r → FoundInYear y r
  unfolding in_year
  in_year-some y r h =
      let f = in_month instant t now_year now y in
      let (k, lo, up, hit, before) = first_of-some _ _ f r h in
      let found = in_month-some y k r hit in
      record {
        month_fits = rw found.month ((MonthFits-iff t.month k).1 (lo, up));
        found = subst (λ q. FoundDay y q r) (sym found.month) found;
        first_month = λ m d fits fit less.
            in_month-none y m d
              (before m ((MonthFits-iff t.month m).0 fits).0 (rw found.month at less)) fit;
      }

  next_run-search :
      valid_trigger t ≡ true
      → next_run instant t now_year now years
        ≡ first_of 0 (year_count t.year) (at_year instant t now_year now)
  unfolding next_run
  next_run-search h = rw h

  abbrev year_at : ℕ → ℤ
  year_at k = add_int (start_year t.year now_year) k

  next_run-none :
      valid_trigger t ≡ true
      → next_run instant t now_year now years ≡ none
      → (u : Date) → Fits t now_year u
      → NotAfter u
  next_run-none v h u fit =
      let (k, small, e) = YearFits-offset t.year now_year u.year fit.year in
      in_year-none u.year u.month u.day
        (ap (in_year instant t now_year now) e
          ∙ first_of-none _ _ (at_year instant t now_year now) (sym (next_run-search v) ∙ h) k
              (omega arith) (omega (arith, small)))
        fit.month fit.day

  -- In the year that the search ends in, nothing earlier is after the clock.
  first_in_year :
      (r u : Date)
      → FoundInYear r.year r
      → Fits t now_year u
      → u.year ≡ r.year
      → (u.month < r.month) ⊎ ((u.month ≡ r.month) × (u.day < r.day))
      → NotAfter u
  first_in_year r u found fit e (inl less) =
      subst (λ y. NotAfter (date y u.month u.day)) (sym e)
        (found.first_month u.month u.day fit.month
          (subst (λ y. DayFits t.day (days_in_month y u.month) u.day) e fit.day) less)
  first_in_year r u found fit e (inr (same, less)) =
      subst (λ y. NotAfter (date y u.month u.day)) (sym e)
        (subst (λ m. NotAfter (date r.year m u.day)) (sym same)
          (found.found.first u.day
            (subst (λ m. DayFits t.day (days_in_month r.year m) u.day) same
              (subst (λ y. DayFits t.day (days_in_month y u.month) u.day) e fit.day))
            less))

  record IsNext (r : Date) : Type 0 where
    fits : Fits t now_year r
    late : After r
    first : (u : Date) → Fits t now_year u → Earlier u r → NotAfter u

  next_run-some :
      valid_trigger t ≡ true
      → (r : Date) → next_run instant t now_year now years ≡ some r
      → IsNext r
  next_run-some v r h =
      let (k, lo, up, hit, before) =
        first_of-some _ _ (at_year instant t now_year now) r (sym (next_run-search v) ∙ h) in
      let found = in_year-some (year_at k) r hit in
      let ye = found.found.year in
      let here = subst (λ y. FoundInYear y r) (sym ye) found in
      record {
        fits = record {
          year =
              subst (YearFits t.year now_year) (sym ye)
                (offset_YearFits t.year now_year k (omega (arith, up)));
          month = found.month_fits;
          day = here.found.day;
        };
        late = here.found.after;
        first = λ u fit order. earlier u fit order k ye before here;
      }
    where
      earlier :
          (u : Date)
          → Fits t now_year u
          → Earlier u r
          → (k : ℕ) → r.year ≡ year_at k
          → ((i : ℕ) → 0 ≤ i → i < k → at_year instant t now_year now i ≡ none)
          → FoundInYear r.year r
          → NotAfter u
      earlier u fit (inl less) k ye before here =
          let (i, small, e) = YearFits-offset t.year now_year u.year fit.year in
          in_year-none u.year u.month u.day
            (ap (in_year instant t now_year now) e
              ∙ before i (omega arith)
                  (add_int-lt (start_year t.year now_year) i k (rw (e, ye) at less)))
            fit.month fit.day
      earlier u fit (inr (inl (e, less))) k ye before here = first_in_year r u here fit e (inl less)
      earlier u fit (inr (inr (e, same, less))) k ye before here =
          first_in_year r u here fit e (inr (same, less))

-- On a valid trigger, when the year that the search starts in is one for which time.Date does not
-- overflow, for every reading of dates as times: a date that nextRun returns fits the trigger, is
-- after the clock, and no earlier date of the calendar that fits is; it returns none exactly when
-- no date that fits, up to 400 years ahead where no year is set, is after the clock.
pub next_run_lem :
    (instant : Date → ℕ → ℕ → ℕ → ℤ) (t : CronTrigger) (now_year now : ℤ)
    → valid_trigger t ≡ true
    → (years : InCalendar (start_year t.year now_year))
    → ((r : Date)
        → next_run instant t now_year now years ≡ some r
        → Fits t now_year r
          × (is_after instant t now_year now r ≡ true)
          × ((u : Date)
              → Fits t now_year u
              → Earlier u r
              → is_after instant t now_year now u ≡ false))
      × ((next_run instant t now_year now years ≡ none)
          ↔ ((u : Date) → Fits t now_year u → is_after instant t now_year now u ≡ false))
next_run_lem instant t now_year now v years = (
  (λ r h. let n = next_run-some instant t now_year now years v r h in (n.fits, n.late, n.first)),
  (
    next_run-none instant t now_year now years v,
    λ h. elim (Option-cases (next_run instant t now_year now years)) [
      | inl e ↦ e
      | inr (r, e) ↦
          let n = next_run-some instant t now_year now years v r e in cc (n.late, h r n.fits)
    ],
  ),
)
