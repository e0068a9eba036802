-- ===== src/Tests/Model.antt =====
-- Queries at concrete bounds.
use pulseon.Base.{◌≡◌, ◌≤◌, ◌<◌, ◌*◌, ◌↔◌, ◌⊎◌, refl, some, pos, codes, ok, err, arith}
use pulseon.Model.Metric.{
  MetricQuery, QueryError, ReductionPolicy, metric_query, screen_budget, max_points,
  extrema_per_bucket, max_screen_query_points,
}
use pulseon.Model.Metric.Bounds.{IsEmptyRange, metric_query_iff, screen_budget-max_points}

abbrev query : MetricQuery
query = record {
  run_id = codes "a";
  metric_key = codes "loss";
  start_step = some (pos 4);
  end_step = some (pos 4);
  reduction = ReductionPolicy.full;
}

metric_query_iff_example :
    ((metric_query query ≡ ok query) ⊎ (metric_query query ≡ err QueryError.invalid_step_range))
    × ((metric_query query ≡ err QueryError.invalid_step_range) ↔ IsEmptyRange query)
metric_query_iff_example = metric_query_iff query

screen_budget-max_points_example :
    (extrema_per_bucket ≤ 1600)
    × (1600 ≤ max_screen_query_points)
    × (extrema_per_bucket ≤ 800 * 2 → 800 * 2 ≤ max_screen_query_points → 1600 ≡ 800 * 2)
    × (800 * 2 < extrema_per_bucket → 1600 ≡ extrema_per_bucket)
    × (max_screen_query_points < 800 * 2 → 1600 ≡ max_screen_query_points)
unfolding screen_budget max_points
screen_budget-max_points_example =
    screen_budget-max_points 800 2 (omega arith) (omega arith) refl refl
