-- ===== src/Web/History.antt =====
-- web/src/features/history/history-model.ts: the points of a chart, their segments and the gaps.
pub mod Laws
pub mod Gaps
pub mod Tests
use helio.Prelude.{
  ℕ, ◌*◌, Bool, true, false, ◌&&◌, Option, none, some, List, [], ◌∷◌, ◌++◌, map, if◌then◌else◌,
  or_else, last?, ℤ, pos, ltbℤ, ◌-ℤ◌,
}
use helio.Js.Text.{Text}
use helio.Js.Number.{Number, equals}
use helio.Js.Host.{Host}

pub data HistoryResolution : Type 0 where
  minute hour day month : HistoryResolution

-- `HistoryPoint`: a point of one minute, or one that stands for a longer time.
pub data HistoryPoint : Type 0 where
  minute_point : Text → Number → Option Number → HistoryPoint
  -- the time, coverage, energy, peak power and productive minutes
  aggregate_point : Text → Number → Number → Number → Option Number → HistoryPoint

pub record ChartPoint : Type 0 where
  pub at : Text
  pub power_w : Number
  pub sample_interval_minutes : Option Number

-- `isMinutePoint(point)`
abbrev pub is_minute_point : HistoryPoint → Bool
is_minute_point (minute_point at power interval) = true
is_minute_point (aggregate_point at coverage energy peak productive) = false

-- `toChartPoint(point)`
abbrev pub to_chart_point : HistoryPoint → ChartPoint
to_chart_point (minute_point at power interval) = record {
  at = at;
  power_w = power;
  sample_interval_minutes = interval;
}
to_chart_point (aggregate_point at coverage energy peak productive) = record {
  at = at;
  power_w = peak;
  sample_interval_minutes = none;
}

-- `RESOLUTION_GAP_MS`
abbrev pub resolution_gap_ms : HistoryResolution → ℕ
resolution_gap_ms minute = 90000
resolution_gap_ms hour = 90 * 60000
resolution_gap_ms day = 36 * 60 * 60000
resolution_gap_ms month = 46 * 24 * 60 * 60000

-- `Date.parse(later) - Date.parse(earlier) > gap`, which is false where a date cannot be read.
unfoldable pub exceeds : ℕ → Option ℤ → Option ℤ → Bool
exceeds gap none later = false
exceeds gap (some t) none = false
exceeds gap (some t) (some u) = ltbℤ (pos gap) (u -ℤ t)

-- The loop of both functions below: the finished segments, the last one, its last point and the
-- points to come. `apart` tells whether a new segment starts between two points.
unfoldable pub split_from {ℓ} :
    {P : Type ℓ} → (P → P → Bool) → List (List P) → List P → P → List P → List (List P)
split_from apart segments current previous [] = segments ++ current ∷ []
split_from apart segments current previous (point ∷ points) =
    let fresh = split_from apart (segments ++ current ∷ []) (point ∷ []) point points in
    let longer = split_from apart segments (current ++ point ∷ []) point points in
    if apart previous point then fresh else longer

unfoldable pub split_points {ℓ} : {P : Type ℓ} → (P → P → Bool) → List P → List (List P)
unfolding split_from
split_points apart [] = []
split_points apart (point ∷ points) = split_from apart [] (point ∷ []) point points

-- `toChartSegments(points, maxGapMs)`
unfoldable pub to_chart_segments {ℓ} : {P : Type ℓ} → Host → (P → Text) → List P → ℕ → List (List P)
to_chart_segments h at_of points max_gap_ms =
    split_points (λ p q. exceeds max_gap_ms (h.date_parse (at_of p)) (h.date_parse (at_of q)))
      points

-- `point.sampleIntervalMinutes === 5`
abbrev pub is_cloud_sample : ChartPoint → Bool
is_cloud_sample p = elim p.sample_interval_minutes [ none ↦ false | some x ↦ equals x 5 ]

abbrev is_minute : HistoryResolution → Bool
is_minute minute = true
is_minute hour = false
is_minute day = false
is_minute month = false

-- `maximumGap` between two points of a chart.
unfoldable pub maximum_gap : HistoryResolution → ChartPoint → ChartPoint → ℕ
maximum_gap resolution p q =
    if (is_cloud_sample p && is_cloud_sample q) && is_minute resolution
    then 6 * 60000
    else resolution_gap_ms resolution

-- Whether `toAdaptiveChartSegments` starts a segment between two points.
unfoldable pub breaks : Host → HistoryResolution → ChartPoint → ChartPoint → Bool
breaks h resolution p q =
    exceeds (maximum_gap resolution p q) (h.date_parse p.at) (h.date_parse q.at)

-- `toAdaptiveChartSegments(points, resolution)`
unfoldable pub to_adaptive_chart_segments :
    Host → List ChartPoint → HistoryResolution → List (List ChartPoint)
to_adaptive_chart_segments h points resolution = split_points (breaks h resolution) points

abbrev pub first? {ℓ} : {P : Type ℓ} → List P → Option P
first? [] = none
first? (p ∷ points) = some p

-- `point?.at ?? ''`
abbrev pub at_or_empty : Option ChartPoint → Text
at_or_empty none = []
at_or_empty (some p) = p.at

-- The gaps of `buildHistoryView`: from the end of each segment to the start of the next.
unfoldable pub gaps : List (List ChartPoint) → List (Text × Text)
gaps [] = []
gaps (s ∷ []) = []
gaps (s ∷ t ∷ segments) = (at_or_empty (last? s), at_or_empty (first? t)) ∷ gaps (t ∷ segments)
