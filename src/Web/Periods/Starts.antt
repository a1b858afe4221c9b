-- ===== src/Web/Periods/Starts.antt =====
-- history-model.ts: every day of a period has the same start.
use helio.Prelude.{
  ℕ, ◌+◌, ◌-◌, ◌*◌, ◌%◌, ◌≤◌, ◌<◌, ◌≡◌, sym, ap, arith, pos, Bool-cases, inl, inr, ltb,
}
use helio.Web.Calendar.{
  HistoryPeriod, a_day, a_week, a_month, a_year, first_day, month_number, CalendarParts, day_number,
  midnight, move, times, shift_calendar, utc_seconds, date_of,
}
use helio.Web.Calendar.Shifts.{
  utc_seconds-midnight, midnight_of, day_number-midnight_of, day_number-midnight,
  midnight_of-IsCalendar,
}
use helio.Web.Calendar.Days.{first_day_low, IsCalendar, first_day_mono}
use helio.Web.Periods.Midnights.{
  late, late_month, shift_day, shift_week, shift_month, shift_year, first-IsCalendar,
  midnight_of-calendar, first_of_month, first_of_year, day_number-bounds, monday, year_begun,
  year_running,
}
use helio.Web.Periods.{weekday, start_of}

-- The Monday of the week of a day, from the first Monday on.
abbrev pub monday_of : ℕ → ℕ
monday_of n = n - (weekday n + 6) % 7

-- The start of the period of a calendar: the midnight of a day, or of the first of a month.
abbrev pub starts : HistoryPeriod → CalendarParts → CalendarParts
starts a_day p = midnight_of (day_number p)
starts a_week p = midnight_of (monday_of (day_number p))
starts a_month p = midnight (month_number p, 0)
starts a_year p = midnight ((p.year - 1970) * 12, 0)

pub start_of-starts :
    (period : HistoryPeriod) (p : CalendarParts)
    → IsCalendar p
    → start_of period p ≡ starts period p
unfolding start_of
start_of-starts a_day p v = sym (midnight_of-calendar p v)
start_of-starts a_week p v = monday p ((weekday (day_number p) + 6) % 7) v
start_of-starts a_month p v = sym (first_of_month p v)
start_of-starts a_year p v = sym (first_of_year p v)

-- The number of the first day of a period, and that of the first day after it.
abbrev pub first_of : HistoryPeriod → CalendarParts → ℕ
first_of a_day p = day_number p
first_of a_week p = monday_of (day_number p)
first_of a_month p = first_day (month_number p)
first_of a_year p = first_day ((p.year - 1970) * 12)

abbrev pub end_of : HistoryPeriod → CalendarParts → ℕ
end_of a_day p = day_number p + 1
end_of a_week p = monday_of (day_number p) + 7
end_of a_month p = first_day (month_number p + 1)
end_of a_year p = first_day ((p.year - 1970) * 12 + 12)

pub starts-IsCalendar : (period : HistoryPeriod) (p : CalendarParts) → IsCalendar (starts period p)
starts-IsCalendar a_day p = midnight_of-IsCalendar (day_number p)
starts-IsCalendar a_week p = midnight_of-IsCalendar (monday_of (day_number p))
starts-IsCalendar a_month p = first-IsCalendar (month_number p)
starts-IsCalendar a_year p = first-IsCalendar ((p.year - 1970) * 12)

pub day_number-starts :
    (period : HistoryPeriod) (p : CalendarParts) → day_number (starts period p) ≡ first_of period p
day_number-starts a_day p = day_number-midnight_of (day_number p)
day_number-starts a_week p = day_number-midnight_of (monday_of (day_number p))
day_number-starts a_month p = omega (arith, day_number-midnight (month_number p, 0))
day_number-starts a_year p = omega (arith, day_number-midnight ((p.year - 1970) * 12, 0))

-- The end of a period: the midnight at which the next one starts.
abbrev pub ends : HistoryPeriod → CalendarParts → CalendarParts
ends a_day p = midnight_of (day_number p + 1)
ends a_week p = midnight_of (monday_of (day_number p) + 7)
ends a_month p = midnight (month_number p + 1, 0)
ends a_year p = midnight ((p.year - 1970) * 12 + 12, 0)

pub shift_calendar-starts :
    (period : HistoryPeriod) (p : CalendarParts)
    → shift_calendar (starts period p) period (pos 1) ≡ ends period p
unfolding move times
shift_calendar-starts a_day p = shift_day (day_number p) (pos 1)
shift_calendar-starts a_week p = shift_week (monday_of (day_number p)) (pos 1)
shift_calendar-starts a_month p = shift_month (month_number p) (pos 1)
shift_calendar-starts a_year p = shift_year ((p.year - 1970) * 12) (pos 1)

pub ends-IsCalendar : (period : HistoryPeriod) (p : CalendarParts) → IsCalendar (ends period p)
ends-IsCalendar a_day p = midnight_of-IsCalendar (day_number p + 1)
ends-IsCalendar a_week p = midnight_of-IsCalendar (monday_of (day_number p) + 7)
ends-IsCalendar a_month p = first-IsCalendar (month_number p + 1)
ends-IsCalendar a_year p = first-IsCalendar ((p.year - 1970) * 12 + 12)

pub day_number-ends :
    (period : HistoryPeriod) (p : CalendarParts) → day_number (ends period p) ≡ end_of period p
day_number-ends a_day p = day_number-midnight_of (day_number p + 1)
day_number-ends a_week p = day_number-midnight_of (monday_of (day_number p) + 7)
day_number-ends a_month p = omega (arith, day_number-midnight (month_number p + 1, 0))
day_number-ends a_year p = omega (arith, day_number-midnight ((p.year - 1970) * 12 + 12, 0))

first_day_back : (i k : ℕ) → k ≤ i → first_day (k + (i - k)) ≡ first_day i
first_day_back i k h = ap first_day (omega (arith, h))

-- Months whose firsts are in order are in order.
first_day_order : (i k : ℕ) → first_day i < first_day k → i < k
first_day_order i k h = elim (Bool-cases (ltb i k)) [
  | inl e ↦ ground (arith, e)
  | inr e ↦
      absurd (omega (arith, h, first_day_mono k (i - k), first_day_back i k (ground (arith, e))))
]

same_month :
    (k : ℕ) (q : CalendarParts)
    → IsCalendar q
    → first_day k ≤ day_number q
    → day_number q < first_day (k + 1)
    → month_number q ≡ k
same_month k q v b r = omega (
  arith,
  day_number-bounds q v,
  first_day_order (month_number q) (k + 1) (omega (arith, day_number-bounds q v, r)),
  first_day_order k (month_number q + 1) (omega (arith, day_number-bounds q v, b)),
)

same_year :
    (y : ℕ) (q : CalendarParts)
    → IsCalendar q
    → first_day (y * 12) ≤ day_number q
    → day_number q < first_day (y * 12 + 12)
    → q.year - 1970 ≡ y
same_year y q v b r = omega (
  arith,
  first_day_order ((q.year - 1970) * 12) (y * 12 + 12) (omega (arith, year_begun q v, r)),
  first_day_order (y * 12) ((q.year - 1970) * 12 + 12) (omega (arith, year_running q v, b)),
)

-- Every day of a period has the start of the period.
pub starts_same :
    (period : HistoryPeriod) (p q : CalendarParts)
    → IsCalendar q
    → 7 ≤ first_of period p
    → first_of period p ≤ day_number q
    → day_number q < end_of period p
    → starts period q ≡ starts period p
starts_same a_day p q v l b r = ap midnight_of (omega (arith, b, r))
starts_same a_week p q v l b r = ap midnight_of (omega (arith, l, b, r))
starts_same a_month p q v l b r = ap (λ k. midnight (k, 0)) (same_month (month_number p) q v b r)
starts_same a_year p q v l b r = ap (λ y. midnight (y * 12, 0)) (same_year (p.year - 1970) q v b r)

pub first_of_late :
    (period : HistoryPeriod) (p : CalendarParts)
    → IsCalendar p
    → 1971 ≤ p.year
    → 7 ≤ first_of period p
first_of_late a_day p v h = omega (arith, late p v h)
first_of_late a_week p v h = omega (arith, late p v h)
first_of_late a_month p v h = omega (arith, first_day_low (month_number p), late_month p h)
first_of_late a_year p v h = omega (arith, first_day_low ((p.year - 1970) * 12), h)

pub first_of_order :
    (period : HistoryPeriod) (p : CalendarParts) → first_of period p < end_of period p
first_of_order a_day p = omega arith
first_of_order a_week p = omega arith
first_of_order a_month p = omega (arith, first_day_mono (month_number p) 1)
first_of_order a_year p = omega (arith, first_day_mono ((p.year - 1970) * 12) 12)

pub seconds-starts :
    (period : HistoryPeriod) (p : CalendarParts)
    → utc_seconds (starts period p) ≡ first_of period p * 86400
seconds-starts a_day p =
    omega (arith, utc_seconds-midnight (date_of (day_number p)), day_number-starts a_day p)
seconds-starts a_week p =
    omega
      (arith, utc_seconds-midnight (date_of (monday_of (day_number p))), day_number-starts a_week p)
seconds-starts a_month p =
    omega (arith, utc_seconds-midnight (month_number p, 0), day_number-starts a_month p)
seconds-starts a_year p =
    omega (arith, utc_seconds-midnight ((p.year - 1970) * 12, 0), day_number-starts a_year p)

pub seconds-ends :
    (period : HistoryPeriod) (p : CalendarParts)
    → utc_seconds (ends period p) ≡ end_of period p * 86400
seconds-ends a_day p =
    omega (arith, utc_seconds-midnight (date_of (day_number p + 1)), day_number-ends a_day p)
seconds-ends a_week p =
    omega (
      arith,
      utc_seconds-midnight (date_of (monday_of (day_number p) + 7)),
      day_number-ends a_week p,
    )
seconds-ends a_month p =
    omega (arith, utc_seconds-midnight (month_number p + 1, 0), day_number-ends a_month p)
seconds-ends a_year p =
    omega (arith, utc_seconds-midnight ((p.year - 1970) * 12 + 12, 0), day_number-ends a_year p)
