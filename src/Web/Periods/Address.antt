-- ===== src/Web/Periods/Address.antt =====
-- history-model.ts: the address of a range is read back as the range.
use helio.Prelude.{
  ℕ, ◌+◌, ◌-◌, ◌*◌, ◌≤◌, ◌<◌, ◌≡◌, refl, sym, ap, ◌∙◌, arith, ℤ, pos, some, or_else,
}
use helio.Js.Text.{text_eq}
use helio.Js.Host.{Host}
use helio.Web.Calendar.{
  HistoryPeriod, a_day, a_week, a_month, a_year, CalendarParts, utc_seconds, utc_parts, Zone,
  zoned_calendar_to_date, shift_calendar,
}
use helio.Web.Calendar.Days.{IsCalendar}
use helio.Web.Calendar.Zones.{clock_at, HasClock, zoned_calendar_to_date_lem, day_number-utc_parts}
use helio.Web.Calendar.Shifts.{utc_parts-IsCalendar}
use helio.Web.Periods.{
  range_from, get_period_range, start_of, read_time, middle_of, parse_history_search,
  serialize_history_range,
}
use helio.Web.Periods.Starts.{
  start_of-starts, starts, ends, first_of, end_of, starts_same, starts-IsCalendar, ends-IsCalendar,
  shift_calendar-starts, first_of_late, first_of_order, seconds-starts, seconds-ends,
}
use helio.Web.Periods.Limits.{
  read_period-period_text, param, ReadsTimes, read_time-to_iso, middle_of-limits,
}

day_limits :
    (period : HistoryPeriod) (p : CalendarParts)
    → period ≡ a_day
    → end_of period p ≡ first_of period p + 1
day_limits a_day p e = refl
day_limits a_week p e = ground (arith, e)
day_limits a_month p e = ground (arith, e)
day_limits a_year p e = ground (arith, e)

module _ (zone : Zone) (east west : ℕ) where
  -- The clocks of the zone are a fixed time before or after UTC, of at most a day.
  pub record IsFixed : Type 0 where
    pub clock : HasClock zone (λ n. n + east - west)
    pub near_east : east ≤ 86400
    pub near_west : west ≤ 86400

  module _ (fixed : IsFixed) where
    fixed_clock : (n : ℕ) → 86400 ≤ n → zone (pos (n * 1000)) ≡ utc_parts (n + east - west)
    fixed_clock n l = clock_at zone (λ n. n + east - west) n fixed.clock l

    converted :
        (q : CalendarParts)
        → IsCalendar q
        → 172800 ≤ utc_seconds q
        → zoned_calendar_to_date zone q ≡ pos ((utc_seconds q + west - east) * 1000)
    converted q v l =
        let t = utc_seconds q + west - east in
        (zoned_calendar_to_date_lem zone (λ n. n + east - west) fixed.clock q t t v
          (omega (arith, l), omega (arith, l, fixed.near_east), omega (arith, l, fixed.near_east))
          (omega (arith, l, fixed.near_east, fixed.near_west)) (omega arith)
          (omega (arith, l, fixed.near_east, fixed.near_west))).0

    module _ (period : HistoryPeriod) (p : CalendarParts) (v : IsCalendar p)
        (late : 1971 ≤ p.year) where
      abbrev first : ℕ
      first = first_of period p * 86400 + west - east

      abbrev last : ℕ
      last = end_of period p * 86400 + west - east

      starts_at : zoned_calendar_to_date zone (starts period p) ≡ pos (first * 1000)
      starts_at =
          converted (starts period p) (starts-IsCalendar period p)
            (omega (arith, seconds-starts period p, first_of_late period p v late))
          ∙ ap (λ s. pos ((s + west - east) * 1000)) (seconds-starts period p)

      ends_at : zoned_calendar_to_date zone (ends period p) ≡ pos (last * 1000)
      ends_at =
          converted (ends period p) (ends-IsCalendar period p) (
            omega (
              arith,
              seconds-ends period p,
              first_of_late period p v late,
              first_of_order period p,
            ))
          ∙ ap (λ s. pos ((s + west - east) * 1000)) (seconds-ends period p)

      middle_shown :
          zone (pos ((first + last) * 500))
          ≡ utc_parts ((first_of period p + end_of period p) * 43200)
      middle_shown =
          let m = (first_of period p + end_of period p) * 43200 + west - east in
          ap (λ t. zone (pos t))
            (omega (arith, first_of_late period p v late, first_of_order period p, fixed.near_east))
          ∙ fixed_clock m (
              omega
                (arith, first_of_late period p v late, first_of_order period p, fixed.near_east))
          ∙ ap utc_parts (
              omega
                (arith, first_of_late period p v late, first_of_order period p, fixed.near_east))

      -- The middle of the range, on the clocks of the zone, is in the same period.
      same_start : starts period (zone (pos ((first + last) * 500))) ≡ starts period p
      same_start =
          let x = (first_of period p + end_of period p) * 43200 in
          let shown = middle_shown in
          ap (starts period) shown
          ∙ starts_same period p (utc_parts x) (utc_parts-IsCalendar x)
              (first_of_late period p v late)
              (omega (arith, day_number-utc_parts x, first_of_order period p))
              (omega (arith, day_number-utc_parts x, first_of_order period p))

      middle-IsCalendar : IsCalendar (zone (pos ((first + last) * 500)))
      middle-IsCalendar =
          rw middle_shown (utc_parts-IsCalendar ((first_of period p + end_of period p) * 43200))

      -- The middle of the range has the start that the range has.
      start_of-middle : start_of period (zone (pos ((first + last) * 500))) ≡ start_of period p
      start_of-middle =
          start_of-starts period (zone (pos ((first + last) * 500))) middle-IsCalendar
          ∙ same_start
          ∙ sym (start_of-starts period p v)

      reads_from :
          (h : Host)
          → ReadsTimes h
          → read_time h (some (h.to_iso (zoned_calendar_to_date zone (start_of period p))))
            ≡ some (pos (first * 1000))
      reads_from h r =
          ap (λ s. read_time h (some (h.to_iso (zoned_calendar_to_date zone s))))
            (start_of-starts period p v)
          ∙ ap (λ t. read_time h (some (h.to_iso t))) starts_at
          ∙ read_time-to_iso h (first * 1000) r

      reads_to :
          (h : Host)
          → ReadsTimes h
          → read_time h (
              some (
                h.to_iso (
                  zoned_calendar_to_date zone (shift_calendar (start_of period p) period (pos 1)))))
            ≡ some (pos (last * 1000))
      reads_to h r =
          ap
            (λ s.
              read_time h
                (some (h.to_iso (zoned_calendar_to_date zone (shift_calendar s period (pos 1))))))
            (start_of-starts period p v)
          ∙ ap (λ s. read_time h (some (h.to_iso (zoned_calendar_to_date zone s))))
              (shift_calendar-starts period p)
          ∙ ap (λ t. read_time h (some (h.to_iso t))) ends_at
          ∙ read_time-to_iso h (last * 1000) r

      limits : first < last
      limits =
          omega (arith, first_of_order period p, first_of_late period p v late, fixed.near_east)

      day_long : period ≡ a_day → last ≤ first + 86400
      day_long d =
          omega (arith, day_limits period p d, fixed.near_east, first_of_late period p v late)

      middle_read :
          (h : Host)
          → ReadsTimes h
          → middle_of period
              (read_time h (some (h.to_iso (zoned_calendar_to_date zone (start_of period p)))))
              (read_time h (
                some (
                  h.to_iso (
                    zoned_calendar_to_date zone
                      (shift_calendar (start_of period p) period (pos 1))))))
            ≡ some (pos ((first + last) * 500))
      middle_read h r =
          rw (reads_from h r)
            (rw (reads_to h r) (middle_of-limits period first last limits day_long))

-- The limits of an address that names the range with a start.
address_of :
    (h : Host) (zone : Zone) (period : HistoryPeriod) (s : CalendarParts) (now : ℤ)
    → parse_history_search h zone (param (serialize_history_range (range_from h zone period s))) now
      ≡ get_period_range h zone period (
          or_else
            (middle_of period (read_time h (some (h.to_iso (zoned_calendar_to_date zone s)))) (
              read_time h
                (some (h.to_iso (zoned_calendar_to_date zone (shift_calendar s period (pos 1)))))))
            now)
unfolding parse_history_search param serialize_history_range range_from text_eq
address_of h zone period s now = rw (read_period-period_text period) refl

-- In a zone whose clocks, from the second day of 1970 on, are a fixed time of at most a day before or
-- after UTC, the address of a period's range is
-- read back as the range, whatever the time is then: the middle of the range lies in the period.
-- The period is from 1971 on, and `Date.parse` reads the texts of `toISOString` back.
pub parse_history_search-serialize_history_range :
    (h : Host) (zone : Zone) (east west : ℕ) (period : HistoryPeriod) (anchor now : ℤ)
    → ReadsTimes h
    → IsFixed zone east west
    → IsCalendar (zone anchor)
    → 1971 ≤ (zone anchor).year
    → parse_history_search h zone
        (param (serialize_history_range (get_period_range h zone period anchor)))
        now
      ≡ get_period_range h zone period anchor
unfolding get_period_range
parse_history_search-serialize_history_range h zone east west period anchor now r fixed v late =
    let p = zone anchor in
    address_of h zone period (start_of period p) now
    ∙ ap (λ o. get_period_range h zone period (or_else o now))
        (middle_read zone east west fixed period p v late h r)
    ∙ ap (range_from h zone period) (start_of-middle zone east west fixed period p v late)
