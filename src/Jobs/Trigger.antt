-- ===== src/Jobs/Trigger.antt =====
-- tools/jobs/jobs.go: the trigger of a cron job and the search for its next run. The time of a date
-- in the clock's location, `time.Date`, is a parameter: it rests on the time zone database. The
-- model is that of the years in which `time.Date` does not overflow (`InCalendar`), so that neither
-- the day of a date nor the year of the loop wraps around; what the code does in other years, which
-- an unsigned `Year` can name, is not modelled.
pub mod Loop
pub mod Search
use forge_go.Prelude.{
  ℕ, zero, suc, ◌≤◌, ◌+◌, ◌-◌, ◌%◌, Bool, true, false, not, ◌&&◌, ◌||◌, Option, none, some, ℤ, pos,
  negsuc, lt_int, ltb, leb, ◌==◌, if◌then◌else◌,
}

pub record CronTrigger : Type 0 where
  pub year : Option ℕ
  pub month : Option ℕ
  pub day : Option ℕ
  pub hour : ℕ
  pub minute : ℕ
  pub second : ℕ

abbrev outside : ℕ → ℕ → Option ℕ → Bool
outside low high none = false
outside low high (some n) = ltb n low || ltb high n

unfoldable pub valid_trigger : CronTrigger → Bool
valid_trigger t =
    if outside 1 12 t.month
    then false
    else if outside 1 31 t.day
    then false
    else leb t.hour 23 && leb t.minute 59 && leb t.second 59

-- A day of the calendar.
pub record Date : Type 0 where
  pub year : ℤ
  pub month : ℕ
  pub day : ℕ

-- `int(*trg.Year)`: an unsigned 64-bit number as a signed one.
abbrev pub to_int : ℕ → ℤ
to_int n = if ltb n 9223372036854775808 then pos n else negsuc (18446744073709551615 - n)

abbrev pub add_int : ℤ → ℕ → ℤ
add_int (pos a) n = pos (a + n)
add_int (negsuc a) n = if ltb a n then pos (n - suc a) else negsuc (a - n)

abbrev distance : ℤ → ℕ
distance (pos a) = a
distance (negsuc a) = suc a

abbrev pub is_leap : ℤ → Bool
is_leap y = distance y % 4 == 0 && (not (distance y % 100 == 0) || distance y % 400 == 0)

-- The last day of a month, for a year in which the date does not overflow.
pub days_in_month : ℤ → ℕ → ℕ
days_in_month y m =
    if m == 2
    then if is_leap y then 29 else 28
    else if m == 4 || m == 6 || m == 9 || m == 11
    then 30
    else 31

abbrev or_else {ℓ} : {A : Type ℓ} → Option A → Option A → Option A
or_else (some a) other = some a
or_else none other = other

-- A loop over `count` numbers from `low` on that returns at the first success.
pub first_of {ℓ} : {A : Type ℓ} → ℕ → ℕ → (ℕ → Option A) → Option A
first_of low zero f = none
first_of low (suc n) f = let rest = first_of (low + 1) n f in or_else (f low) rest

abbrev pub start_year : Option ℕ → ℤ → ℤ
start_year none now_year = now_year
start_year (some y) now_year = to_int y

-- Years for which `time.Date` does not overflow, nor for any of the 400 that follow.
abbrev pub InCalendar : ℤ → Type 0
InCalendar (pos y) = y ≤ 292277026000
InCalendar (negsuc y) = y ≤ 292277022000

-- How many years, months and days the loops go through.
abbrev pub year_count : Option ℕ → ℕ
year_count none = 401
year_count (some _) = 1

abbrev pub start_month : Option ℕ → ℕ
start_month none = 1
start_month (some m) = m

abbrev pub month_count : Option ℕ → ℕ
month_count none = 12
month_count (some _) = 1

abbrev pub start_day : Option ℕ → ℕ
start_day none = 1
start_day (some d) = d

-- A day that the month does not have is skipped.
abbrev pub day_count : Option ℕ → ℕ → ℕ
day_count none end_day = end_day
day_count (some d) end_day = if ltb end_day d then 0 else 1

-- `instant` is the time of a date at an hour, a minute and a second; `now` and `now_year` are that
-- of the clock.
module _ (instant : Date → ℕ → ℕ → ℕ → ℤ) (t : CronTrigger) (now_year now : ℤ) where
  abbrev pub is_after : Date → Bool
  is_after d = lt_int now (instant d t.hour t.minute t.second)

  abbrev pub at_day : ℤ → ℕ → ℕ → Option Date
  at_day y m d =
      let date : Date = record { year = y; month = m; day = d } in
      if is_after date then some date else none

  pub in_month : ℤ → ℕ → Option Date
  in_month y m = first_of (start_day t.day) (day_count t.day (days_in_month y m)) (at_day y m)

  pub in_year : ℤ → Option Date
  in_year y = first_of (start_month t.month) (month_count t.month) (in_month y)

  abbrev pub at_year : ℕ → Option Date
  at_year k = in_year (add_int (start_year t.year now_year) k)

  pub next_run : InCalendar (start_year t.year now_year) → Option Date
  next_run years = if not (valid_trigger t) then none else first_of 0 (year_count t.year) at_year
