-- ===== src/Web/Periods/Laws.antt =====
-- history-model.ts: a period has its anchor, and the periods follow each other.
use helio.Prelude.{ℕ, ◌+◌, ◌-◌, ◌*◌, ◌%◌, ◌≤◌, ◌<◌, ◌≡◌, ap, ◌∙◌, arith, pos, negsuc}
use helio.Web.Calendar.{
  HistoryPeriod, a_day, a_week, a_month, a_year, first_day, date_of, month_number, CalendarParts,
  day_number, midnight, move, times, shift_calendar,
}
use helio.Web.Calendar.Days.{IsCalendar}
use helio.Web.Calendar.Shifts.{midnight_of, day_number-midnight_of, day_number-midnight}
use helio.Web.Periods.{weekday, start_of}
use helio.Web.Periods.Midnights.{
  shift_day, shift_week, first_date, shift_month, shift_year, midnight-hours, january,
  midnight_of-calendar, first_of_month, first_of_year, day_number-bounds, late_month, late, monday,
  year_begun, year_running,
}

-- What a period of a kind starts with: a Monday, the first of a month, the first of January.
abbrev pub IsFirst : HistoryPeriod → CalendarParts → Type 0
IsFirst a_day s = Unit
IsFirst a_week s = weekday (day_number s) ≡ 1
IsFirst a_month s = s.day ≡ 1
IsFirst a_year s = (s.day ≡ 1) × (s.month ≡ 1)

-- The period that starts at midnight of a day has a local calendar in it, and the period before it
-- ends where it starts.
pub record IsPeriodOf (period : HistoryPeriod) (local start : CalendarParts) : Type 0 where
  pub at_midnight : (start.hour ≡ 0) × (start.minute ≡ 0) × (start.second ≡ 0)
  pub first : IsFirst period start
  pub begun : day_number start ≤ day_number local
  pub running : day_number local < day_number (shift_calendar start period (pos 1))
  pub adjacent : shift_calendar (shift_calendar start period (negsuc 0)) period (pos 1) ≡ start

day-IsPeriodOf :
    (local : CalendarParts)
    → 7 ≤ day_number local
    → IsPeriodOf a_day local (midnight_of (day_number local))
unfolding move
day-IsPeriodOf local h =
    let n = day_number local in
    record {
      at_midnight = midnight-hours (date_of n);
      first = tt;
      begun = omega (arith, day_number-midnight_of n);
      running = omega (arith, ap day_number (shift_day n (pos 1)), day_number-midnight_of (n + 1));
      adjacent =
          ap (λ s. shift_calendar s a_day (pos 1)) (shift_day n (negsuc 0))
          ∙ shift_day (move n (negsuc 0)) (pos 1)
          ∙ ap midnight_of (omega (arith, h));
    }

week-IsPeriodOf :
    (local : CalendarParts) (n : ℕ)
    → 7 ≤ n
    → n ≤ day_number local
    → day_number local < n + 7
    → weekday n ≡ 1
    → IsPeriodOf a_week local (midnight_of n)
unfolding move times
week-IsPeriodOf local n h b r w = record {
  at_midnight = midnight-hours (date_of n);
  first = ap weekday (day_number-midnight_of n) ∙ w;
  begun = omega (arith, day_number-midnight_of n, b);
  running = omega (arith, ap day_number (shift_week n (pos 1)), day_number-midnight_of (n + 7), r);
  adjacent =
      ap (λ s. shift_calendar s a_week (pos 1)) (shift_week n (negsuc 0))
      ∙ shift_week (move n (negsuc 6)) (pos 1)
      ∙ ap midnight_of (omega (arith, h));
}

month-IsPeriodOf :
    (local : CalendarParts) (k : ℕ)
    → 1 ≤ k
    → first_day k ≤ day_number local
    → day_number local < first_day (k + 1)
    → IsPeriodOf a_month local (midnight (k, 0))
unfolding move
month-IsPeriodOf local k h b r = record {
  at_midnight = midnight-hours (k, 0);
  first = first_date k;
  begun = omega (arith, day_number-midnight (k, 0), b);
  running = omega (arith, ap day_number (shift_month k (pos 1)), day_number-midnight (k + 1, 0), r);
  adjacent =
      ap (λ s. shift_calendar s a_month (pos 1)) (shift_month k (negsuc 0))
      ∙ shift_month (move k (negsuc 0)) (pos 1)
      ∙ ap (λ m. midnight (m, 0)) (omega (arith, h));
}

year-IsPeriodOf :
    (local : CalendarParts) (k : ℕ)
    → 12 ≤ k
    → k % 12 ≡ 0
    → first_day k ≤ day_number local
    → day_number local < first_day (k + 12)
    → IsPeriodOf a_year local (midnight (k, 0))
unfolding move times
year-IsPeriodOf local k h m b r = record {
  at_midnight = midnight-hours (k, 0);
  first = (first_date k, january k m);
  begun = omega (arith, day_number-midnight (k, 0), b);
  running = omega (arith, ap day_number (shift_year k (pos 1)), day_number-midnight (k + 12, 0), r);
  adjacent =
      ap (λ s. shift_calendar s a_year (pos 1)) (shift_year k (negsuc 0))
      ∙ shift_year (move k (negsuc 11)) (pos 1)
      ∙ ap (λ m. midnight (m, 0)) (omega (arith, h));
}

-- `periodStart` finds, for a local calendar from 1971 on, the period of the kind asked for that the
-- calendar lies in: it starts at midnight of a Monday, of the first of a month or of the first of
-- January, not after the calendar's day, it ends after that day, and the period one before it ends
-- where it starts.
pub start_of-IsPeriodOf :
    (period : HistoryPeriod) (local : CalendarParts)
    → IsCalendar local
    → 1971 ≤ local.year
    → IsPeriodOf period local (start_of period local)
unfolding start_of
start_of-IsPeriodOf a_day local v h =
    simp (← midnight_of-calendar local v) (day-IsPeriodOf local (omega (arith, late local v h)))
start_of-IsPeriodOf a_week local v h =
    let n = day_number local in
    let m = (weekday n + 6) % 7 in
    rw (monday local m v) (
      week-IsPeriodOf local (n - m) (omega (arith, late local v h)) (omega arith)
        (omega (arith, late local v h)) (omega (arith, late local v h)))
start_of-IsPeriodOf a_month local v h = simp (← first_of_month local v) (
    month-IsPeriodOf local (month_number local) (omega (arith, late_month local h))
      (day_number-bounds local v).0 (day_number-bounds local v).1)
start_of-IsPeriodOf a_year local v h = simp (← first_of_year local v) (
    year-IsPeriodOf local ((local.year - 1970) * 12) (omega (arith, h)) (omega arith)
      (year_begun local v) (year_running local v))
