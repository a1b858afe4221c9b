-- ===== src/Web/History/Tests.antt =====
-- Runs of history-model.ts, and examples of its theorems.
use helio.Prelude.{Option, none, some, ◌≡◌, refl, List, [], ◌∷◌, ◌-ℤ◌}
use helio.Js.Text.{Text, codes}
use helio.Js.Number.{Number, whole}
use helio.Js.Json.{null}
use helio.Js.Host.{Host}
use helio.Js.Toy.{toy}
use helio.Web.History.{
  minute, ChartPoint, exceeds, to_chart_segments, maximum_gap, breaks, to_adaptive_chart_segments,
  gaps, split_points, split_from,
}
use helio.Web.History.Laws.{IsSplit}
use helio.Web.History.Gaps.{to_adaptive_chart_segments-IsSplit}

abbrev host : Host
host = toy null

abbrev point : Text → Option Number → ChartPoint
point at interval = record { at = at; power_w = whole 5; sample_interval_minutes = interval }

abbrev minute_a : ChartPoint
minute_a = point (codes "0") none

abbrev minute_b : ChartPoint
minute_b = point (codes "60000") none

abbrev cloud_a : ChartPoint
cloud_a = point (codes "360000") (some (whole 5))

abbrev cloud_b : ChartPoint
cloud_b = point (codes "660000") (some (whole 5))

abbrev points : List ChartPoint
points = minute_a ∷ minute_b ∷ cloud_a ∷ cloud_b ∷ []

history_code : Unit {0}
unfolding to_adaptive_chart_segments to_chart_segments split_points split_from breaks exceeds
    maximum_gap gaps ◌-ℤ◌
history_code = tt

-- Samples of the cloud may lie six minutes apart, others a minute and a half.
segments_test :
    to_adaptive_chart_segments host points minute
    ≡ (minute_a ∷ minute_b ∷ []) ∷ (cloud_a ∷ cloud_b ∷ []) ∷ []
unfolding history_code
segments_test = refl

gaps_test :
    gaps (to_adaptive_chart_segments host points minute) ≡ (codes "60000", codes "360000") ∷ []
unfolding history_code
gaps_test = refl

to_adaptive_chart_segments-IsSplit_example :
    IsSplit (breaks host minute) points (to_adaptive_chart_segments host points minute)
to_adaptive_chart_segments-IsSplit_example = to_adaptive_chart_segments-IsSplit host points minute
