-- ===== src/Web/History/Gaps.antt =====
-- history-model.ts: the segments and gaps of a chart.
use helio.Prelude.{
  ◌*◌, ◌-ℤ◌, ltbℤ, pos, negsuc, ℕ, ◌≤◌, Bool, true, false, Option, none, some, ◌≡◌, List, [], ◌∷◌,
  arith, All, last?, ℤ, if◌then◌else◌, ◌&&◌,
}
use helio.Js.Text.{Text}
use helio.Js.Host.{Host}
use helio.Web.History.{
  resolution_gap_ms, is_minute, HistoryResolution, minute, hour, day, month, ChartPoint, exceeds,
  to_chart_segments, maximum_gap, breaks, to_adaptive_chart_segments, gaps, first?, at_or_empty,
  is_cloud_sample,
}
use helio.Web.History.Laws.{IsSplit, AreSeparate, IsGap, split_points-IsSplit}

-- The segments of a chart hold all of its points, in their order; within a segment no step is a gap
-- for the resolution, and between two neighbours there is one.
pub to_adaptive_chart_segments-IsSplit :
    (h : Host) (points : List ChartPoint) (resolution : HistoryResolution)
    → IsSplit (breaks h resolution) points (to_adaptive_chart_segments h points resolution)
unfolding to_adaptive_chart_segments
to_adaptive_chart_segments-IsSplit h points resolution =
    split_points-IsSplit (breaks h resolution) points

-- The same of `toChartSegments`, for points of any kind and any longest step.
pub to_chart_segments-IsSplit :
    {P : Type 0} (h : Host) (at_of : P → Text) (points : List P) (max_gap_ms : ℕ)
    → IsSplit
        (λ p q. exceeds max_gap_ms (h.date_parse (at_of p)) (h.date_parse (at_of q)))
        points
        (to_chart_segments h at_of points max_gap_ms)
unfolding to_chart_segments
to_chart_segments-IsSplit h at_of points max_gap_ms =
    split_points-IsSplit
      (λ p q. exceeds max_gap_ms (h.date_parse (at_of p)) (h.date_parse (at_of q))) points

ltbℤ-less : (m n : ℕ) (z : ℤ) → m ≤ n → ltbℤ (pos n) z ≡ true → ltbℤ (pos m) z ≡ true
ltbℤ-less m n (pos z) l e = ground arith
ltbℤ-less m n (negsuc z) l e = ground arith

resolution_gap_ms-bound :
    (c : Bool) (resolution : HistoryResolution)
    → 90000 ≤ (if c then 6 * 60000 else resolution_gap_ms resolution)
resolution_gap_ms-bound true resolution = omega arith
resolution_gap_ms-bound false minute = omega arith
resolution_gap_ms-bound false hour = omega arith
resolution_gap_ms-bound false day = omega arith
resolution_gap_ms-bound false month = omega arith

exceeds-less : (m n : ℕ) (t u : Option ℤ) → m ≤ n → exceeds n t u ≡ true → exceeds m t u ≡ true
unfolding exceeds
exceeds-less m n (some t) (some u) l e = ltbℤ-less m n (u -ℤ t) l e
exceeds-less m n (some t) none l e = e
exceeds-less m n none u l e = e

maximum_gap-bound :
    (resolution : HistoryResolution) (p q : ChartPoint) → 90000 ≤ maximum_gap resolution p q
unfolding maximum_gap
maximum_gap-bound resolution p q =
    resolution_gap_ms-bound ((is_cloud_sample p && is_cloud_sample q) && is_minute resolution)
      resolution

abbrev IsLong : Host → Text × Text → Type 0
IsLong h g = exceeds 90000 (h.date_parse (g.0)) (h.date_parse (g.1)) ≡ true

IsGap-IsLong :
    (h : Host) (resolution : HistoryResolution) (p q : Option ChartPoint)
    → IsGap (breaks h resolution) p q
    → IsLong h (at_or_empty p, at_or_empty q)
unfolding breaks
IsGap-IsLong h resolution (some p) (some q) e =
    exceeds-less 90000 (maximum_gap resolution p q) (h.date_parse p.at) (h.date_parse q.at)
      (maximum_gap-bound resolution p q) e
IsGap-IsLong h resolution (some p) none e = absurd e
IsGap-IsLong h resolution none q e = absurd e

AreSeparate-IsLong :
    (h : Host) (resolution : HistoryResolution) (segments : List (List ChartPoint))
    → AreSeparate (breaks h resolution) segments
    → All (IsLong h) (gaps segments)
unfolding gaps
AreSeparate-IsLong h resolution [] v = tt
AreSeparate-IsLong h resolution (s ∷ []) v = tt
AreSeparate-IsLong h resolution (s ∷ t ∷ segments) (g, v) = (
  IsGap-IsLong h resolution (last? s) (first? t) g,
  AreSeparate-IsLong h resolution (t ∷ segments) v,
)

-- Every gap that a chart shows, of any resolution, has times that can be read, and they lie more than
-- ninety seconds apart.
pub gaps-IsLong :
    (h : Host) (points : List ChartPoint) (resolution : HistoryResolution)
    → All
        (λ g. exceeds 90000 (h.date_parse (g.0)) (h.date_parse (g.1)) ≡ true)
        (gaps (to_adaptive_chart_segments h points resolution))
gaps-IsLong h points resolution =
    AreSeparate-IsLong h resolution (to_adaptive_chart_segments h points resolution)
      (to_adaptive_chart_segments-IsSplit h points resolution).separate
