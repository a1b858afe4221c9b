-- ===== src/Web/Periods/Tests.antt =====
-- Periods on concrete days, and examples of the theorems.
use helio.Prelude.{
  false, ◌%◌, none, Option, some, ℤ, ◌-◌, ◌≤◌, ℕ, ◌+◌, ◌*◌, ◌/◌, ◌≡◌, refl, ap, arith, pos, negsuc,
  if◌then◌else◌, ltb, pos_part, [], ◌∷◌,
}
use helio.Web.Calendar.{
  a_week, a_month, CalendarParts, Zone, is_leap, days_in, month_length, first_day, date_from,
  date_of, month_number, day_number, midnight, utc_seconds, utc_parts, normalize_calendar, utc_ms,
  correct, zoned_calendar_to_date, move, set_month, times, shift_calendar,
}
use helio.Web.Calendar.Days.{IsCalendar}
use helio.Web.Calendar.Zones.{HasClock, zoned_calendar_to_date_lem}
use helio.Web.Periods.{
  start_of, middle_of, get_period_range, parse_history_search, serialize_history_range,
}
use helio.Js.Text.{Text}
use helio.Js.Host.{Host}
use helio.Js.Json.{null}
use helio.Js.Toy.{toy}
use helio.Web.Fields.{decimal_from, numeral}
use helio.Web.Fields.Laws.{decimal_from-numeral}
use helio.Web.Calendar.Shifts.{utc_parts-IsCalendar}
use helio.Web.Periods.Limits.{ReadsTimes, param}
use helio.Web.Periods.Address.{IsFixed, parse_history_search-serialize_history_range}
use helio.Web.Periods.Laws.{IsPeriodOf, start_of-IsPeriodOf}

calendar_code : Unit {0}
unfolding is_leap days_in month_length first_day date_from date_of month_number day_number midnight
    utc_seconds utc_parts normalize_calendar utc_ms correct zoned_calendar_to_date move set_month
    times shift_calendar start_of middle_of
calendar_code = tt

-- 29 February 1972, a Tuesday, at 13:45:10.
abbrev leap_day : CalendarParts
leap_day = record { year = 1972; month = 2; day = 29; hour = 13; minute = 45; second = 10 }

leap_day-IsCalendar : IsCalendar leap_day
unfolding calendar_code
leap_day-IsCalendar = record {
  known = omega arith;
  month_low = omega arith;
  month_high = omega arith;
  day_low = omega arith;
  day_high = omega arith;
  hour_high = omega arith;
  minute_high = omega arith;
  second_high = omega arith;
}

week_test :
    start_of a_week leap_day
    ≡ record { year = 1972; month = 2; day = 28; hour = 0; minute = 0; second = 0 }
unfolding calendar_code
week_test = refl

-- A month before 31 March is 31 February, and so 2 March in a leap year.
month_test :
    shift_calendar
      (record { year = 1972; month = 3; day = 31; hour = 0; minute = 0; second = 0 })
      a_month
      (negsuc 0)
    ≡ record { year = 1972; month = 3; day = 2; hour = 0; minute = 0; second = 0 }
unfolding calendar_code
month_test = refl

start_of-IsPeriodOf_example : IsPeriodOf a_week leap_day (start_of a_week leap_day)
start_of-IsPeriodOf_example = start_of-IsPeriodOf a_week leap_day leap_day-IsCalendar (omega arith)

-- A zone whose clocks are one hour ahead until a time, and two hours from then on.
abbrev clock : ℕ → ℕ
clock n = if ltb n 68216000 then n + 3600 else n + 7200

abbrev summer_zone : Zone
summer_zone (pos n) = utc_parts (clock (n / 1000))
summer_zone (negsuc n) = utc_parts 0

summer_clock : HasClock summer_zone clock
unfolding HasClock
summer_clock n = ap (λ m. utc_parts (clock m)) (omega arith)

leap_seconds : utc_seconds leap_day ≡ 68219110
unfolding calendar_code
leap_seconds = refl

first_guess : 68211910 + clock (utc_seconds leap_day) ≡ utc_seconds leap_day + utc_seconds leap_day
unfolding calendar_code
first_guess = refl

leap_time : clock 68215510 ≡ utc_seconds leap_day
unfolding calendar_code
leap_time = refl

late_times : (86400 ≤ utc_seconds leap_day) × (86400 ≤ 68211910) × (86400 ≤ 68215510)
unfolding calendar_code
late_times = (omega arith, omega arith, omega arith)

zoned_calendar_to_date_lem_example :
    (zoned_calendar_to_date summer_zone leap_day ≡ pos (68215510 * 1000))
    × (summer_zone (zoned_calendar_to_date summer_zone leap_day) ≡ leap_day)
zoned_calendar_to_date_lem_example =
    zoned_calendar_to_date_lem summer_zone clock summer_clock leap_day 68211910 68215510
      leap_day-IsCalendar late_times first_guess refl leap_time

-- A host whose times are written as decimal numerals behind a letter.
abbrev read_numeral : Text → Option ℤ
read_numeral [] = none
read_numeral (c ∷ s) = some (pos (decimal_from 0 s))

abbrev clocked : Host
clocked = record (toy null) { date_parse = read_numeral; to_iso = λ t. b'T' ∷ numeral (pos_part t) }

clocked_reads : ReadsTimes clocked
clocked_reads = record {
  reads = λ t. ap (λ n. some (pos n)) (decimal_from-numeral t);
  not_empty = λ t e. ground (arith, e);
}

-- The evening of the last day of 1969, so many seconds after its ninth hour.
abbrev last_evening : ℕ → CalendarParts
last_evening s = record {
  year = 1969;
  month = 12;
  day = 31;
  hour = 21 + s / 3600;
  minute = s / 60 % 60;
  second = s % 60;
}

-- A zone three hours before UTC, whose clocks show 1969 in the first three hours of 1970.
abbrev western : Zone
western (pos n) =
    if ltb (n / 1000) 10800 then last_evening (n / 1000) else utc_parts (n / 1000 + 0 - 10800)
western (negsuc n) = last_evening 0

western_clock : HasClock western (λ n. n + 0 - 10800)
unfolding HasClock
western_clock n =
    let whole : (86400 + n) * 1000 / 1000 ≡ 86400 + n = omega arith in
    let late : ltb (86400 + n) 10800 ≡ false = ground arith in simp (whole, late) refl

western_fixed : IsFixed western 0 10800
western_fixed = record { clock = western_clock; near_east = omega arith; near_west = omega arith }

abbrev noon : ℤ
noon = pos (68219110 * 1000)

noon_year : 1971 ≤ (western noon).year
unfolding calendar_code
noon_year = omega arith

-- The address of a week.
parse_history_search-serialize_history_range_example :
    parse_history_search clocked western
      (param (serialize_history_range (get_period_range clocked western a_week noon)))
      (pos 0)
    ≡ get_period_range clocked western a_week noon
parse_history_search-serialize_history_range_example =
    parse_history_search-serialize_history_range clocked western 0 10800 a_week noon (pos 0)
      clocked_reads western_fixed (utc_parts-IsCalendar (68219110 - 10800)) noon_year
