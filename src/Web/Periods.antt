-- ===== src/Web/Periods.antt =====
-- web/src/features/history/history-model.ts: the range of a period, and the one that an address names.
pub mod Midnights
pub mod Laws
pub mod Starts
pub mod Limits
pub mod Address
pub mod Tests
use helio.Prelude.{
  ℕ, suc, zero, ◌+◌, ◌*◌, ◌/◌, ◌%◌, Bool, true, false, ◌&&◌, ◌||◌, not, ◌==◌, Option, none, some,
  List, [], ◌∷◌, if◌then◌else◌, ltbℤ, lebℤ, ℤ, pos, negsuc, ◌-ℤ◌, ◌+ℤ◌, or_else,
}
use helio.Js.Text.{Text, codes, text_eq}
use helio.Js.Host.{Host}
use helio.Web.History.{HistoryResolution, minute, hour, day, month}
use helio.Web.Calendar.{
  HistoryPeriod, a_day, a_week, a_month, a_year, period_resolution, CalendarParts, Zone, day_number,
  shift_calendar, zoned_calendar_to_date,
}

-- `getUTCDay()`, from 0 for a Sunday: the first day is a Thursday.
abbrev pub weekday : ℕ → ℕ
weekday n = (n + 4) % 7

-- `-n`
abbrev pub minus : ℕ → ℤ
minus zero = pos 0
minus (suc n) = negsuc n

-- The start of the period that a local calendar lies in: `periodStart(period, anchor, timezone)` after
-- `calendarParts`.
unfoldable pub start_of : HistoryPeriod → CalendarParts → CalendarParts
start_of period local =
    let start = record local { hour = 0; minute = 0; second = 0 } in
    elim period [
      | a_day ↦ start
      | a_week ↦ shift_calendar start a_day (minus ((weekday (day_number local) + 6) % 7))
      | a_month ↦ record start { day = 1 }
      | a_year ↦ record start { day = 1; month = 1 }
    ]

-- `periodStart(period, anchor, timezone)`
abbrev pub period_start : Zone → HistoryPeriod → ℤ → CalendarParts
period_start zone period anchor = start_of period (zone anchor)

pub record HistoryRange : Type 0 where
  pub from : Text
  pub period : HistoryPeriod
  pub previous_from : Text
  pub previous_to : Text
  pub resolution : HistoryResolution
  pub to : Text

-- The range of the period with a start: `getPeriodRange` after `periodStart`.
unfoldable pub range_from : Host → Zone → HistoryPeriod → CalendarParts → HistoryRange
range_from h zone period start =
    let end_ = shift_calendar start period (pos 1) in
    let previous = shift_calendar start period (negsuc 0) in
    let from = h.to_iso (zoned_calendar_to_date zone start) in
    record {
      from = from;
      period = period;
      previous_from = h.to_iso (zoned_calendar_to_date zone previous);
      previous_to = from;
      resolution = period_resolution period;
      to = h.to_iso (zoned_calendar_to_date zone end_);
    }

-- `getPeriodRange(period, anchor, timezone)`
unfoldable pub get_period_range : Host → Zone → HistoryPeriod → ℤ → HistoryRange
get_period_range h zone period anchor = range_from h zone period (period_start zone period anchor)

-- The text of a period.
unfoldable pub period_text : HistoryPeriod → Text
period_text a_day = codes "day"
period_text a_week = codes "week"
period_text a_month = codes "month"
period_text a_year = codes "year"

-- `isPeriod(value) ? value : 'day'`
unfoldable pub read_period : Option Text → HistoryPeriod
read_period none = a_day
read_period (some value) =
    if text_eq value (codes "week")
    then a_week
    else if text_eq value (codes "month")
    then a_month
    else if text_eq value (codes "year")
    then a_year
    else a_day

-- The times of an address: `Date.parse` of a text that is there and not empty.
unfoldable pub read_time : Host → Option Text → Option ℤ
read_time h none = none
read_time h (some []) = none
read_time h (some (c ∷ text)) = h.date_parse (c ∷ text)

-- `time / 2`, as `new Date` takes it: towards zero.
abbrev pub half : ℤ → ℤ
half (pos n) = pos (n / 2)
half (negsuc n) = minus (suc n / 2)

-- The longest time between the limits of a range of minutes.
abbrev pub year_ms : ℕ
year_ms = 366 * 24 * 60 * 60000

-- The limits that an address may have. The sum of both has the middle of the range at its half.
unfoldable pub middle_of : HistoryPeriod → Option ℤ → Option ℤ → Option ℤ
middle_of period (some from) (some to) =
    let long = ltbℤ (pos year_ms) (to -ℤ from) in
    let middle = some (half (from +ℤ to)) in
    if lebℤ to from then none else elim period [
      | a_day ↦ if long then none else middle
      | a_week ↦ middle
      | a_month ↦ middle
      | a_year ↦ middle
    ]
middle_of period (some from) none = none
middle_of period none to = none

-- `parseHistorySearch(search, anchor, timezone)`: the period in which the middle of the address's range
-- lies, or that of the anchor.
unfoldable pub parse_history_search : Host → Zone → (Text → Option Text) → ℤ → HistoryRange
parse_history_search h zone search anchor =
    let period = read_period (search (codes "period")) in
    let from = read_time h (search (codes "from")) in
    let to = read_time h (search (codes "to")) in
    get_period_range h zone period (or_else (middle_of period from to) anchor)

-- The entries of `serializeHistoryRange(range)`.
unfoldable pub serialize_history_range : HistoryRange → List (Text × Text)
serialize_history_range range =
    (codes "period", period_text range.period)
    ∷ (codes "from", range.from)
    ∷ (codes "to", range.to)
    ∷ []
