-- ===== src/Web/Calendar/Days.antt =====
-- The days of the calendar: numbers of days and dates stand for each other.
use helio.Prelude.{
  ℕ, suc, zero, ◌+◌, ◌-◌, ◌*◌, ◌/◌, ◌%◌, ◌≤◌, ◌<◌, Bool, true, false, ltb, ◌≡◌, refl, ap, ◌∙◌,
  arith, Bool-cases, inl, inr,
}
use native.Mathlib.Numerals.{unary_clauses}
use helio.Web.Calendar.{
  is_leap, days_in, month_length, first_day, date_from, date_of, month_number, CalendarParts,
  day_number, midnight, utc_seconds, utc_parts, normalize_calendar,
}

days_in-bounds : (leap : Bool) (m : ℕ) → (28 ≤ days_in leap m) × (days_in leap m ≤ 31)
unfolding days_in
days_in-bounds leap m = ground arith

pub month_length-bounds : (k : ℕ) → (28 ≤ month_length k) × (month_length k ≤ 31)
unfolding month_length
month_length-bounds k = days_in-bounds (is_leap (1970 + k / 12)) (k % 12)

-- A day from 0 of a month, which is the day with a number.
pub record IsDate (n : ℕ) (date : ℕ × ℕ) : Type 0 where
  pub same : first_day (date.0) + date.1 ≡ n
  pub inside : date.1 < month_length (date.0)

next-IsDate :
    (k n : ℕ) (date : ℕ × ℕ)
    → month_length k ≤ n
    → IsDate (first_day (suc k) + (n - month_length k)) date
    → IsDate (first_day k + n) date
unfolding first_day
next-IsDate k n date h v = record { same = omega (arith, v.same); inside = v.inside }

ltb-not : (a b : ℕ) → ltb a b ≡ false → b ≤ a
ltb-not a b e = ground (arith, e)

choice-IsDate :
    (b : Bool) (k n : ℕ) (next : ℕ × ℕ)
    → (b ≡ true → n < month_length k)
    → (b ≡ false → IsDate (first_day k + n) next)
    → IsDate (first_day k + n) (elim b [ true ↦ (k, n) | false ↦ next ])
choice-IsDate true k n next h v = record { same = refl; inside = h refl }
choice-IsDate false k n next h v = v refl

date_from-IsDate : (fuel k n : ℕ) → n < fuel → IsDate (first_day k + n) (date_from fuel k n)
unfolding date_from
date_from-IsDate zero k n h = absurd (omega arith)
date_from-IsDate (suc fuel) k n h =
    choice-IsDate (ltb n (month_length k)) k n (date_from fuel (suc k) (n - month_length k))
      (λ e. ground (arith, e))
      (λ e. next-IsDate k n (date_from fuel (suc k) (n - month_length k)) (ground (arith, e)) (
        date_from-IsDate fuel (suc k) (n - month_length k)
          (omega (arith, month_length-bounds k, h, ltb-not n (month_length k) e))))

IsDate-same : {m n : ℕ} {date : ℕ × ℕ} → m ≡ n → IsDate m date → IsDate n date
IsDate-same h v = record { same = v.same ∙ h; inside = v.inside }

-- Every day lies in a month.
pub date_of-IsDate : (n : ℕ) → IsDate n (date_of n)
unfolding date_of first_day
date_of-IsDate n = IsDate-same (omega arith) (date_from-IsDate (suc n) 0 n (omega arith))

-- The months come one after the other.
pub first_day_mono : (i k : ℕ) → first_day i + 28 * k ≤ first_day (i + k)
unfolding first_day
first_day_mono i zero = simp unary_clauses (omega arith)
first_day_mono i (suc k) =
    simp unary_clauses (omega (arith, first_day_mono i k, month_length-bounds (i + k)))

pub first_day_low : (k : ℕ) → 28 * k ≤ first_day k
unfolding first_day
first_day_low zero = omega arith
first_day_low (suc k) = omega (arith, first_day_low k, month_length-bounds k)

first_day_between : (i k : ℕ) → i < k → first_day (suc i + (k - suc i)) ≡ first_day k
first_day_between i k h = ap first_day (omega (arith, h))

first_day_next : (i k d : ℕ) → i < k → d < month_length i → first_day i + d < first_day k
unfolding first_day
first_day_next i k d h e =
    omega (arith, first_day_between i k h, first_day_mono (suc i) (k - suc i))

same_month :
    (n k d : ℕ) (date : ℕ × ℕ)
    → IsDate n date
    → first_day k + d ≡ n
    → d < month_length k
    → date.0 ≡ k
same_month n k d (i, e) v h b = elim (Bool-cases (ltb i k)) [
  | inl l ↦ absurd (omega (arith, v.same, h, first_day_next i k e (ground (arith, l)) v.inside))
  | inr l ↦ elim (Bool-cases (ltb k i)) [
    | inl m ↦ absurd (omega (arith, v.same, h, first_day_next k i d (ground (arith, m)) b))
    | inr m ↦ ground (arith, l, m)
  ]
]

-- A day lies in one month only.
pub IsDate-unique :
    (n k d : ℕ) (date : ℕ × ℕ)
    → IsDate n date
    → first_day k + d ≡ n
    → d < month_length k
    → date ≡ (k, d)
IsDate-unique n k d (i, e) v h b =
    let same = same_month n k d (i, e) v h b in
    simp same (ap (λ x. (k, x)) (omega (arith, v.same, h, ap first_day same)))

-- The date of the number of a day in a month is that month and day.
pub date_of-first_day : (k d : ℕ) → d < month_length k → date_of (first_day k + d) ≡ (k, d)
date_of-first_day k d h =
    IsDate-unique (first_day k + d) k d (date_of (first_day k + d))
      (date_of-IsDate (first_day k + d)) refl h

-- A calendar from 1970 on, with a month, day and time that exist.
pub record IsCalendar (p : CalendarParts) : Type 0 where
  pub known : 1970 ≤ p.year
  pub month_low : 1 ≤ p.month
  pub month_high : p.month ≤ 12
  pub day_low : 1 ≤ p.day
  pub day_high : p.day ≤ month_length (month_number p)
  pub hour_high : p.hour < 24
  pub minute_high : p.minute < 60
  pub second_high : p.second < 60

-- The month and the day, from 0, of a calendar.
pub calendar_date :
    (p : CalendarParts) → IsCalendar p → date_of (day_number p) ≡ (month_number p, p.day - 1)
unfolding day_number
calendar_date p v =
    date_of-first_day (month_number p) (p.day - 1) (omega (arith, v.day_low, v.day_high))

day_of_seconds : (p : CalendarParts) → IsCalendar p → utc_seconds p / 86400 ≡ day_number p
unfolding utc_seconds
day_of_seconds p v = omega (arith, v.hour_high, v.minute_high, v.second_high)

time_of_seconds :
    (p : CalendarParts)
    → IsCalendar p
    → (utc_seconds p / 3600 % 24 ≡ p.hour)
      × (utc_seconds p / 60 % 60 ≡ p.minute)
      × (utc_seconds p % 60 ≡ p.second)
unfolding utc_seconds
time_of_seconds p v = (
  omega (arith, v.hour_high, v.minute_high, v.second_high),
  omega (arith, v.hour_high, v.minute_high, v.second_high),
  omega (arith, v.hour_high, v.minute_high, v.second_high),
)

pub midnight-calendar :
    (p : CalendarParts)
    → IsCalendar p
    → midnight (month_number p, p.day - 1) ≡ record p { hour = 0; minute = 0; second = 0 }
unfolding midnight month_number
midnight-calendar p v =
    let y : 1970 + month_number p / 12 ≡ p.year =
      omega (arith, v.known, v.month_low, v.month_high) in
    let m : month_number p % 12 + 1 ≡ p.month = omega (arith, v.known, v.month_low, v.month_high) in
    let d : p.day - 1 + 1 ≡ p.day = omega (arith, v.day_low) in simp (y, m, d) refl

-- `Date.UTC` of a calendar and the getters of a `Date` lead back to the calendar.
pub utc_parts-utc_seconds : (p : CalendarParts) → IsCalendar p → utc_parts (utc_seconds p) ≡ p
unfolding utc_parts
utc_parts-utc_seconds p v =
    let (h, m, s) = time_of_seconds p v in
    simp (day_of_seconds p v, calendar_date p v, midnight-calendar p v, h, m, s) refl

-- A calendar that exists stays as it is.
pub normalize_calendar-IsCalendar : (p : CalendarParts) → IsCalendar p → normalize_calendar p ≡ p
unfolding normalize_calendar
normalize_calendar-IsCalendar p v = utc_parts-utc_seconds p v
