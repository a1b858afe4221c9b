-- ===== src/Web/Periods/Limits.antt =====
-- history-model.ts: the limits of an address, as they are read, and their middle.
use helio.Prelude.{
  ℕ, ◌+◌, ◌*◌, ◌≤◌, ◌<◌, ◌≡◌, ◌≢◌, refl, ◌∙◌, arith, pos, Option, some, none, false, if◌then◌else◌,
  List, [], ◌∷◌, ltbℤ, lebℤ, ◌+ℤ◌, ◌-ℤ◌,
}
use helio.Js.Text.{Text, text_eq}
use helio.Js.Host.{Host}
use helio.Web.Calendar.{HistoryPeriod, a_day, a_week, a_month, a_year}
use helio.Web.Periods.{period_text, read_period, read_time, half, year_ms, middle_of}

pub read_period-period_text :
    (period : HistoryPeriod) → read_period (some (period_text period)) ≡ period
unfolding read_period period_text text_eq
read_period-period_text a_day = refl
read_period-period_text a_week = refl
read_period-period_text a_month = refl
read_period-period_text a_year = refl

-- `search.get(name)`, of a search whose entries are given.
unfoldable pub param : List (Text × Text) → Text → Option Text
param [] name = none
param ((key, value) ∷ entries) name =
    let rest = param entries name in if text_eq key name then some value else rest

-- `Date.parse` reads the texts of `toISOString` back.
pub record ReadsTimes (h : Host) : Type 0 where
  pub reads : (t : ℕ) → h.date_parse (h.to_iso (pos t)) ≡ some (pos t)
  pub not_empty : (t : ℕ) → h.to_iso (pos t) ≢ []

pub read_time-some :
    (h : Host) (text : Text) → text ≢ [] → read_time h (some text) ≡ h.date_parse text
unfolding read_time
read_time-some h [] n = absurd (n refl)
read_time-some h (c ∷ text) n = refl

pub read_time-to_iso :
    (h : Host) (t : ℕ) → ReadsTimes h → read_time h (some (h.to_iso (pos t))) ≡ some (pos t)
read_time-to_iso h t r = read_time-some h (h.to_iso (pos t)) (r.not_empty t) ∙ r.reads t

pub middle : (a b : ℕ) → half (pos (a * 1000) +ℤ pos (b * 1000)) ≡ pos ((a + b) * 500)
unfolding ◌+ℤ◌
middle a b = ground arith

pub in_order : (a b : ℕ) → a < b → lebℤ (pos (b * 1000)) (pos (a * 1000)) ≡ false
in_order a b h = ground (arith, h)

pub within_year :
    (a b : ℕ)
    → a < b
    → b ≤ a + 86400
    → ltbℤ (pos year_ms) (pos (b * 1000) -ℤ pos (a * 1000)) ≡ false
unfolding ◌-ℤ◌
within_year a b h d = ground (arith, h, d)

-- Limits that are in order, and less than a year apart where the period is a day, have their middle.
pub middle_of-limits :
    (period : HistoryPeriod) (a b : ℕ)
    → a < b
    → (period ≡ a_day → b ≤ a + 86400)
    → middle_of period (some (pos (a * 1000))) (some (pos (b * 1000))) ≡ some (pos ((a + b) * 500))
unfolding middle_of ◌-ℤ◌
middle_of-limits a_day a b h d = simp (in_order a b h, within_year a b h (d refl), middle a b) refl
middle_of-limits a_week a b h d = simp (in_order a b h, middle a b) refl
middle_of-limits a_month a b h d = simp (in_order a b h, middle a b) refl
middle_of-limits a_year a b h d = simp (in_order a b h, middle a b) refl
