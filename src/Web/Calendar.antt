-- ===== src/Web/Calendar.antt =====
-- web/src/features/history/history-model.ts: the calendar of a history's periods, and their ranges.
-- Days and months are counted from January 1970, and an earlier date is the first one: a `Date` there
-- goes on below zero.
pub mod Days
pub mod Shifts
pub mod Zones
use helio.Prelude.{
  ℕ, suc, zero, ◌+◌, ◌-◌, ◌*◌, ◌/◌, ◌%◌, Bool, true, false, ◌&&◌, ◌||◌, not, ◌==◌, Option, none,
  some, List, [], ◌∷◌, if◌then◌else◌, ltb, ltbℤ, ℤ, pos, negsuc, ◌-ℤ◌, ◌+ℤ◌, or_else,
}
use helio.Js.Text.{Text, codes, text_eq}
use helio.Js.Host.{Host}
use helio.Web.History.{HistoryResolution, minute, hour, day, month}

-- `HistoryPeriod`
pub data HistoryPeriod : Type 0 where
  a_day a_week a_month a_year : HistoryPeriod

-- `PERIOD_RESOLUTION`
abbrev pub period_resolution : HistoryPeriod → HistoryResolution
period_resolution a_day = minute
period_resolution a_week = hour
period_resolution a_month = day
period_resolution a_year = month

-- `CalendarParts`
pub record CalendarParts : Type 0 where
  pub year : ℕ
  pub month : ℕ
  pub day : ℕ
  pub hour : ℕ
  pub minute : ℕ
  pub second : ℕ

unfoldable pub is_leap : ℕ → Bool
is_leap year = (year % 4 == 0) && (not (year % 100 == 0) || (year % 400 == 0))

-- The days of the month with a number from 0, in a year that is leap or not.
unfoldable pub days_in : Bool → ℕ → ℕ
days_in leap m =
    if m == 1
    then (if leap then 29 else 28)
    else if ((m == 3) || (m == 5)) || ((m == 8) || (m == 10))
    then 30
    else 31

unfoldable pub month_length : ℕ → ℕ
unfolding days_in
month_length k = days_in (is_leap (1970 + k / 12)) (k % 12)

-- The days before a month.
unfoldable pub first_day : ℕ → ℕ
unfolding month_length
first_day zero = 0
first_day (suc k) = first_day k + month_length k

-- The month, from the month `k` on, and the day in it, from 0, that is `n` days after the first of `k`.
-- Every round of fuel goes a month ahead, so `n + 1` rounds are enough.
unfoldable pub date_from : ℕ → ℕ → ℕ → ℕ × ℕ
date_from zero k n = (k, n)
date_from (suc fuel) k n = elim (ltb n (month_length k)) [
  | true ↦ (k, n)
  | false ↦ date_from fuel (suc k) (n - month_length k)
]

-- The calendar date of a day's number.
unfoldable pub date_of : ℕ → ℕ × ℕ
unfolding date_from
date_of n = date_from (suc n) 0 n

-- The number of a calendar's month, and that of its day: `Date.UTC(year, month - 1, day)` in days. A
-- day past the end of the month is one of the months after it.
unfoldable pub month_number : CalendarParts → ℕ
month_number p = (p.year - 1970) * 12 + (p.month - 1)

unfoldable pub day_number : CalendarParts → ℕ
unfolding first_day month_number
day_number p = first_day (month_number p) + (p.day - 1)

-- The calendar at the start of a day in a month.
unfoldable pub midnight : ℕ × ℕ → CalendarParts
midnight (k, d) = record {
  year = 1970 + k / 12;
  month = k % 12 + 1;
  day = d + 1;
  hour = 0;
  minute = 0;
  second = 0;
}

-- `Date.UTC(…)` of all parts, in seconds.
unfoldable pub utc_seconds : CalendarParts → ℕ
utc_seconds p = day_number p * 86400 + p.hour * 3600 + p.minute * 60 + p.second

-- The parts that the UTC getters of a `Date` give.
unfoldable pub utc_parts : ℕ → CalendarParts
utc_parts s =
    let date = midnight (date_of (s / 86400)) in
    record date { hour = s / 3600 % 24; minute = s / 60 % 60; second = s % 60 }

-- `normalizeCalendar(parts)`
unfoldable pub normalize_calendar : CalendarParts → CalendarParts
normalize_calendar p = utc_parts (utc_seconds p)

-- The local calendar of a time in milliseconds: `calendarParts(date, timezone)`, by
-- `Intl.DateTimeFormat`.
abbrev pub Zone : Type 0
Zone = ℤ → CalendarParts

-- `Date.UTC(…)` of all parts.
unfoldable pub utc_ms : CalendarParts → ℤ
utc_ms p = pos (utc_seconds p * 1000)

-- A pass of the loop: `candidate += desired - actualAsUTC`.
unfoldable pub correct : Zone → ℤ → ℤ → ℤ
correct zone desired candidate = candidate +ℤ (desired -ℤ utc_ms (zone candidate))

-- `zonedCalendarToDate(parts, timezone)`
unfoldable pub zoned_calendar_to_date : Zone → CalendarParts → ℤ
zoned_calendar_to_date zone p =
    let desired = utc_ms (normalize_calendar p) in
    correct zone desired (correct zone desired (correct zone desired desired))

-- A number of days or months, moved by an amount.
unfoldable pub move : ℕ → ℤ → ℕ
move n (pos a) = n + a
move n (negsuc a) = n - suc a

-- `setUTCMonth(month)` of a date whose day of the month, from 0, is `d`.
unfoldable pub set_month : ℕ → ℕ → ℕ × ℕ
set_month k d = date_of (first_day k + d)

-- `7 * amount` and `12 * amount`
unfoldable pub times : ℕ → ℤ → ℤ
times n (pos a) = pos (n * a)
times n (negsuc a) = negsuc (n * suc a - 1)

-- `shiftCalendar(parts, period, amount)`. `setUTCFullYear` keeps the month, like a shift by twelve
-- months for each year.
unfoldable pub shift_calendar : CalendarParts → HistoryPeriod → ℤ → CalendarParts
shift_calendar p period amount =
    let (k, d) = date_of (day_number p) in
    elim period [
      | a_day ↦ midnight (date_of (move (first_day k + d) amount))
      | a_week ↦ midnight (date_of (move (first_day k + d) (times 7 amount)))
      | a_month ↦ midnight (set_month (move k amount) d)
      | a_year ↦ midnight (set_month (move k (times 12 amount)) d)
    ]
