-- ===== src/Web/Calendar/Shifts.antt =====
-- Shifts of a calendar, and what they do to the number of its day.
use helio.Prelude.{ℕ, ◌+◌, ◌-◌, ◌<◌, ◌≡◌, refl, ap, ◌∙◌, arith, ℤ, ◌*◌, ◌/◌}
use helio.Web.Calendar.{
  a_day, a_week, a_month, a_year, month_length, first_day, date_of, month_number, CalendarParts,
  day_number, midnight, move, times, set_month, shift_calendar, utc_seconds, utc_parts,
}
use helio.Web.Calendar.Days.{
  date_of-IsDate, IsCalendar, calendar_date, date_of-first_day, month_length-bounds,
}

pub month_number-midnight : (date : ℕ × ℕ) → month_number (midnight date) ≡ date.0
unfolding month_number midnight
month_number-midnight (k, d) = omega arith

pub day_number-midnight : (date : ℕ × ℕ) → day_number (midnight date) ≡ first_day (date.0) + date.1
unfolding day_number midnight
day_number-midnight (k, d) = omega (arith, ap first_day (month_number-midnight (k, d)))

pub midnight-IsCalendar :
    (date : ℕ × ℕ) → date.1 < month_length (date.0) → IsCalendar (midnight date)
unfolding midnight
midnight-IsCalendar (k, d) h = record {
  known = omega arith;
  month_low = omega arith;
  month_high = omega arith;
  day_low = omega arith;
  day_high = omega (arith, h, ap month_length (month_number-midnight (k, d)));
  hour_high = omega arith;
  minute_high = omega arith;
  second_high = omega arith;
}

-- The midnight of the day with a number.
abbrev pub midnight_of : ℕ → CalendarParts
midnight_of n = midnight (date_of n)

pub midnight_of-IsCalendar : (n : ℕ) → IsCalendar (midnight_of n)
midnight_of-IsCalendar n = midnight-IsCalendar (date_of n) (date_of-IsDate n).inside

pub day_number-midnight_of : (n : ℕ) → day_number (midnight_of n) ≡ n
day_number-midnight_of n = day_number-midnight (date_of n) ∙ (date_of-IsDate n).same

same_day :
    (p : CalendarParts) → IsCalendar p → first_day (month_number p) + (p.day - 1) ≡ day_number p
unfolding day_number
same_day p v = refl

-- A shift by days leads to the day that many days on.
pub shift_calendar-days :
    (p : CalendarParts) (amount : ℤ)
    → IsCalendar p
    → shift_calendar p a_day amount ≡ midnight_of (move (day_number p) amount)
unfolding shift_calendar
shift_calendar-days p amount v = simp (calendar_date p v, same_day p v) refl

pub shift_calendar-weeks :
    (p : CalendarParts) (amount : ℤ)
    → IsCalendar p
    → shift_calendar p a_week amount ≡ midnight_of (move (day_number p) (times 7 amount))
unfolding shift_calendar
shift_calendar-weeks p amount v = simp (calendar_date p v, same_day p v) refl

set_month-first : (k : ℕ) → set_month k 0 ≡ (k, 0)
unfolding set_month
set_month-first k = date_of-first_day k 0 (omega (arith, month_length-bounds k))

-- A shift of the first of a month leads to the first of another.
pub shift_calendar-months :
    (p : CalendarParts) (amount : ℤ)
    → IsCalendar p
    → p.day ≡ 1
    → shift_calendar p a_month amount ≡ midnight (move (month_number p) amount, 0)
unfolding shift_calendar
shift_calendar-months p amount v e =
    let d : p.day - 1 ≡ 0 = omega (arith, e) in
    simp (calendar_date p v, d, set_month-first (move (month_number p) amount)) refl

pub shift_calendar-years :
    (p : CalendarParts) (amount : ℤ)
    → IsCalendar p
    → p.day ≡ 1
    → shift_calendar p a_year amount ≡ midnight (move (month_number p) (times 12 amount), 0)
unfolding shift_calendar
shift_calendar-years p amount v e =
    let d : p.day - 1 ≡ 0 = omega (arith, e) in
    simp (calendar_date p v, d, set_month-first (move (month_number p) (times 12 amount))) refl

-- A midnight is a whole number of days after the first one.
pub utc_seconds-midnight :
    (date : ℕ × ℕ) → utc_seconds (midnight date) ≡ day_number (midnight date) * 86400
unfolding utc_seconds midnight
utc_seconds-midnight (k, d) = omega arith

-- The parts of every `Date` are a calendar.
pub utc_parts-IsCalendar : (n : ℕ) → IsCalendar (utc_parts n)
unfolding utc_parts month_number
utc_parts-IsCalendar n =
    let v = midnight_of-IsCalendar (n / 86400) in
    record {
      known = v.known;
      month_low = v.month_low;
      month_high = v.month_high;
      day_low = v.day_low;
      day_high = v.day_high;
      hour_high = omega arith;
      minute_high = omega arith;
      second_high = omega arith;
    }
