-- ===== src/Web/Calendar/Zones.antt =====
-- history-model.ts: the time at which a local calendar shows given parts.
use mathlib.Core.Path.{subst}
use helio.Prelude.{ℕ, ◌+◌, ◌-◌, ◌*◌, ◌/◌, ◌%◌, ◌≤◌, ◌≡◌, refl, ap, ◌∙◌, arith, pos, ◌+ℤ◌, ◌-ℤ◌}
use helio.Web.Calendar.{
  CalendarParts, day_number, month_number, utc_seconds, utc_parts, utc_ms, Zone, correct,
  zoned_calendar_to_date,
}
use helio.Web.Calendar.Days.{IsCalendar, normalize_calendar-IsCalendar, utc_parts-utc_seconds}
use helio.Web.Calendar.Shifts.{day_number-midnight_of}

pub day_number-utc_parts : (n : ℕ) → day_number (utc_parts n) ≡ n / 86400
unfolding utc_parts day_number month_number
day_number-utc_parts n = day_number-midnight_of (n / 86400)

time-utc_parts :
    (n : ℕ)
    → ((utc_parts n).hour ≡ n / 3600 % 24)
      × ((utc_parts n).minute ≡ n / 60 % 60)
      × ((utc_parts n).second ≡ n % 60)
unfolding utc_parts
time-utc_parts n = (refl, refl, refl)

pub utc_seconds-utc_parts : (n : ℕ) → utc_seconds (utc_parts n) ≡ n
unfolding utc_seconds
utc_seconds-utc_parts n = omega (arith, day_number-utc_parts n, time-utc_parts n)

add_sub : (a d l b : ℕ) → b + l ≡ a + d → pos a +ℤ (pos d -ℤ pos l) ≡ pos b
unfolding ◌+ℤ◌ ◌-ℤ◌
add_sub a d l b h = ground arith

-- The clocks of a zone show, at a number of seconds, the calendar of another number of seconds. This
-- is asked from the second day of 1970 on: before it the clocks west of UTC show 1969.
unfoldable pub HasClock : Zone → (ℕ → ℕ) → Type 0
HasClock zone local = (n : ℕ) → zone (pos ((86400 + n) * 1000)) ≡ utc_parts (local (86400 + n))

pub clock_at :
    (zone : Zone) (local : ℕ → ℕ) (n : ℕ)
    → HasClock zone local
    → 86400 ≤ n
    → zone (pos (n * 1000)) ≡ utc_parts (local n)
unfolding HasClock
clock_at zone local n clock h =
    let same : 86400 + (n - 86400) ≡ n = omega (arith, h) in
    subst (λ m. zone (pos (m * 1000)) ≡ utc_parts (local m)) same (clock (n - 86400))

module _ (zone : Zone) (local : ℕ → ℕ) (clock : HasClock zone local) where
  correct-clock :
      (d a b : ℕ)
      → 86400 ≤ a
      → b + local a ≡ a + d
      → correct zone (pos (d * 1000)) (pos (a * 1000)) ≡ pos (b * 1000)
  unfolding correct utc_ms
  correct-clock d a b l h =
      let e = ap utc_seconds (clock_at zone local a clock l) ∙ utc_seconds-utc_parts (local a) in
      rw e (add_sub (a * 1000) (d * 1000) (local a * 1000) (b * 1000) (omega (arith, h)))

  passes :
      (d guess t : ℕ)
      → (86400 ≤ d) × (86400 ≤ guess) × (86400 ≤ t)
      → guess + local d ≡ d + d
      → local guess + t ≡ guess + local t
      → local t ≡ d
      → correct zone
          (pos (d * 1000))
          (correct zone (pos (d * 1000)) (correct zone (pos (d * 1000)) (pos (d * 1000))))
        ≡ pos (t * 1000)
  passes d guess t (ld, lg, lt) g s e =
      let again = correct zone (pos (d * 1000)) in
      ap (λ c. again (again c)) (correct-clock d d guess ld g)
      ∙ ap again (correct-clock d guess t lg (omega (arith, s, e)))
      ∙ correct-clock d t t lt (omega (arith, e))

  converted :
      (p : CalendarParts) (guess t : ℕ)
      → IsCalendar p
      → (86400 ≤ utc_seconds p) × (86400 ≤ guess) × (86400 ≤ t)
      → guess + local (utc_seconds p) ≡ utc_seconds p + utc_seconds p
      → local guess + t ≡ guess + local t
      → local t ≡ utc_seconds p
      → zoned_calendar_to_date zone p ≡ pos (t * 1000)
  unfolding zoned_calendar_to_date utc_ms
  converted p guess t v l g s e =
      rw (normalize_calendar-IsCalendar p v) (passes (utc_seconds p) guess t l g s e)

  -- A local calendar that the zone's clocks show at a time is converted to that time, if the clocks are
  -- as far from UTC then as they are at the first guess: the calendar's own time, read as UTC,
  -- corrected by the distance of the clocks from UTC at that time. All three times are after the
  -- first day of 1970, from where on the clocks of the zone are asked about.
  pub zoned_calendar_to_date_lem :
      (p : CalendarParts) (guess t : ℕ)
      → IsCalendar p
      → (86400 ≤ utc_seconds p) × (86400 ≤ guess) × (86400 ≤ t)
      → guess + local (utc_seconds p) ≡ utc_seconds p + utc_seconds p
      → local guess + t ≡ guess + local t
      → local t ≡ utc_seconds p
      → (zoned_calendar_to_date zone p ≡ pos (t * 1000))
        × (zone (zoned_calendar_to_date zone p) ≡ p)
  zoned_calendar_to_date_lem p guess t v l g s e =
      let c = converted p guess t v l g s e in
      (c, ap zone c ∙ clock_at zone local t clock l.2 ∙ ap utc_parts e ∙ utc_parts-utc_seconds p v)
