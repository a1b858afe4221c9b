-- ===== src/Web/Periods/Midnights.antt =====
-- history-model.ts: the midnights at which days, weeks, months and years start, and shifts of them.
use helio.Prelude.{
  ℕ, suc, zero, ◌+◌, ◌-◌, ◌*◌, ◌/◌, ◌%◌, ◌≤◌, ◌<◌, ◌≡◌, refl, sym, ap, ◌∙◌, arith, ℤ,
}
use native.Mathlib.Numerals.{unary_clauses}
use helio.Web.Calendar.{
  a_day, a_week, a_month, a_year, month_length, first_day, month_number, CalendarParts, day_number,
  midnight, move, times, shift_calendar,
}
use helio.Web.Calendar.Days.{
  IsCalendar, calendar_date, month_length-bounds, first_day_mono, first_day_low, midnight-calendar,
}
use helio.Web.Calendar.Shifts.{
  midnight_of, midnight_of-IsCalendar, midnight-IsCalendar, day_number-midnight_of,
  month_number-midnight, shift_calendar-days, shift_calendar-weeks, shift_calendar-months,
  shift_calendar-years,
}
use helio.Web.Periods.{minus}

pub shift_day :
    (n : ℕ) (amount : ℤ) → shift_calendar (midnight_of n) a_day amount ≡ midnight_of (move n amount)
shift_day n amount =
    shift_calendar-days (midnight_of n) amount (midnight_of-IsCalendar n)
    ∙ ap (λ m. midnight_of (move m amount)) (day_number-midnight_of n)

pub shift_week :
    (n : ℕ) (amount : ℤ)
    → shift_calendar (midnight_of n) a_week amount ≡ midnight_of (move n (times 7 amount))
shift_week n amount =
    shift_calendar-weeks (midnight_of n) amount (midnight_of-IsCalendar n)
    ∙ ap (λ m. midnight_of (move m (times 7 amount))) (day_number-midnight_of n)

pub first-IsCalendar : (k : ℕ) → IsCalendar (midnight (k, 0))
first-IsCalendar k = midnight-IsCalendar (k, 0) (omega (arith, month_length-bounds k))

pub first_date : (k : ℕ) → (midnight (k, 0)).day ≡ 1
unfolding midnight
first_date k = refl

pub shift_month :
    (k : ℕ) (amount : ℤ)
    → shift_calendar (midnight (k, 0)) a_month amount ≡ midnight (move k amount, 0)
shift_month k amount =
    shift_calendar-months (midnight (k, 0)) amount (first-IsCalendar k) (first_date k)
    ∙ ap (λ m. midnight (move m amount, 0)) (month_number-midnight (k, 0))

pub shift_year :
    (k : ℕ) (amount : ℤ)
    → shift_calendar (midnight (k, 0)) a_year amount ≡ midnight (move k (times 12 amount), 0)
shift_year k amount =
    shift_calendar-years (midnight (k, 0)) amount (first-IsCalendar k) (first_date k)
    ∙ ap (λ m. midnight (move m (times 12 amount), 0)) (month_number-midnight (k, 0))

pub midnight-hours :
    (date : ℕ × ℕ)
    → ((midnight date).hour ≡ 0) × ((midnight date).minute ≡ 0) × ((midnight date).second ≡ 0)
unfolding midnight
midnight-hours (k, d) = (refl, refl, refl)

pub january : (k : ℕ) → k % 12 ≡ 0 → (midnight (k, 0)).month ≡ 1
unfolding midnight
january k h = omega (arith, h)

-- The midnight of a calendar's day.
pub midnight_of-calendar :
    (p : CalendarParts)
    → IsCalendar p
    → midnight_of (day_number p) ≡ record p { hour = 0; minute = 0; second = 0 }
midnight_of-calendar p v = ap midnight (calendar_date p v) ∙ midnight-calendar p v

-- The first of a calendar's month, and of its year.
pub first_of_month :
    (p : CalendarParts)
    → IsCalendar p
    → midnight (month_number p, 0) ≡ record p { day = 1; hour = 0; minute = 0; second = 0 }
unfolding midnight month_number
first_of_month p v =
    let y : 1970 + month_number p / 12 ≡ p.year =
      omega (arith, v.known, v.month_low, v.month_high) in
    let m : month_number p % 12 + 1 ≡ p.month = omega (arith, v.known, v.month_low, v.month_high) in
    simp (y, m) refl

pub first_of_year :
    (p : CalendarParts)
    → IsCalendar p
    → midnight ((p.year - 1970) * 12, 0)
      ≡ record p { month = 1; day = 1; hour = 0; minute = 0; second = 0 }
unfolding midnight
first_of_year p v =
    let y : 1970 + (p.year - 1970) * 12 / 12 ≡ p.year = omega (arith, v.known) in
    let m : (p.year - 1970) * 12 % 12 + 1 ≡ 1 = omega arith in simp (y, m) refl

pub next_month : (k : ℕ) → first_day (k + 1) ≡ first_day k + month_length k
unfolding first_day
next_month k = simp unary_clauses refl

-- A day lies between the first of its month and that of the next.
pub day_number-bounds :
    (p : CalendarParts)
    → IsCalendar p
    → (first_day (month_number p) ≤ day_number p) × (day_number p < first_day (month_number p + 1))
unfolding day_number
day_number-bounds p v =
    (omega arith, omega (arith, next_month (month_number p), v.day_low, v.day_high))

-- From 1971 on there is room for a year before a month, and for two weeks before a day.
pub late_month : (p : CalendarParts) → 1971 ≤ p.year → 12 ≤ month_number p
unfolding month_number
late_month p h = omega (arith, h)

pub late : (p : CalendarParts) → IsCalendar p → 1971 ≤ p.year → 14 ≤ day_number p
late p v h =
    omega (arith, (day_number-bounds p v).0, first_day_low (month_number p), late_month p h)

pub move-minus : (n m : ℕ) → move n (minus m) ≡ n - m
unfolding move
move-minus n zero = omega arith
move-minus n (suc m) = refl

-- The Monday of a calendar's week.
pub monday :
    (p : CalendarParts) (m : ℕ)
    → IsCalendar p
    → shift_calendar (record p { hour = 0; minute = 0; second = 0 }) a_day (minus m)
      ≡ midnight_of (day_number p - m)
monday p m v =
    ap (λ s. shift_calendar s a_day (minus m)) (sym (midnight_of-calendar p v))
    ∙ shift_day (day_number p) (minus m)
    ∙ ap midnight_of (move-minus (day_number p) m)

pub year_begun :
    (p : CalendarParts) → IsCalendar p → first_day ((p.year - 1970) * 12) ≤ day_number p
unfolding month_number
year_begun p v =
    omega (arith, (day_number-bounds p v).0, first_day_mono ((p.year - 1970) * 12) (p.month - 1))

pub year_last :
    (p : CalendarParts)
    → IsCalendar p
    → first_day (month_number p + 1 + (12 - p.month)) ≡ first_day ((p.year - 1970) * 12 + 12)
unfolding month_number
year_last p v = ap first_day (omega (arith, v.month_low, v.month_high))

pub year_running :
    (p : CalendarParts) → IsCalendar p → day_number p < first_day ((p.year - 1970) * 12 + 12)
year_running p v = omega (
  arith,
  (day_number-bounds p v).1,
  first_day_mono (month_number p + 1) (12 - p.month),
  year_last p v,
)
