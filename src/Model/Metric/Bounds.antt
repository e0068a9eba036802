-- ===== src/Model/Metric/Bounds.antt =====
-- Which metric queries and reductions are accepted, and how many points they may return.
use pulseon.Base.{
  ℕ, ◌*◌, ◌^◌, ◌≤◌, ◌<◌, ◌≡◌, refl, ◌↔◌, ◌⊎◌, true, arith, ◌≤ℤ◌, Option, none, some, ok, err,
}
use pulseon.Model.Metric.{
  MetricQuery, QueryError, ReductionPolicy, Step, is_empty_range, metric_query, screen_budget,
  max_points, max_screen_query_points, extrema_per_bucket,
}

-- The half-open range between two given bounds holds no step.
abbrev pub IsEmptyRange : MetricQuery → Type 0
IsEmptyRange q =
    (start : Step) × (end : Step) × (q.start_step ≡ some start)
    × (q.end_step ≡ some end)
    × (end ≤ℤ start)

empty_range_bounds :
    (s e : Option Step)
    → is_empty_range s e ≡ true
    → (start : Step) × (end : Step) × (s ≡ some start) × (e ≡ some end) × (end ≤ℤ start)
unfolding is_empty_range
empty_range_bounds (some start) (some end) h = (start, end, refl, refl, ground arith)
empty_range_bounds (some start) none h = cc
empty_range_bounds none e h = cc

-- A query is accepted, unchanged, or refused with `InvalidStepRange`, and it is refused exactly
-- when both its bounds are given and the half-open range between them is empty.
pub metric_query_iff :
    (q : MetricQuery)
    → ((metric_query q ≡ ok q) ⊎ (metric_query q ≡ err QueryError.invalid_step_range))
      × ((metric_query q ≡ err QueryError.invalid_step_range) ↔ IsEmptyRange q)
unfolding metric_query is_empty_range
metric_query_iff q =
    (ground arith, (λ h. empty_range_bounds q.start_step q.end_step (ground arith), ground arith))

mul_lt_mul : (w p : ℕ) → w < 2 ^ 32 → p < 2 ^ 16 → w * p < 2 ^ 64
mul_lt_mul w p hw hp = grind arith

-- A screen budget that the constructor accepts gives the product of its two inputs as the limit on
-- points wherever that lies between four and a million, and the nearer of those two elsewhere, so
-- that the saturating product and the clamp lose nothing at any 32-bit width and 16-bit density.
pub screen_budget-max_points :
    (w p : ℕ) {r : ReductionPolicy} {n : ℕ}
    → w < 2 ^ 32
    → p < 2 ^ 16
    → screen_budget w p ≡ ok r
    → max_points r ≡ some n
    → (extrema_per_bucket ≤ n)
      × (n ≤ max_screen_query_points)
      × (extrema_per_bucket ≤ w * p → w * p ≤ max_screen_query_points → n ≡ w * p)
      × (w * p < extrema_per_bucket → n ≡ extrema_per_bucket)
      × (max_screen_query_points < w * p → n ≡ max_screen_query_points)
unfolding screen_budget max_points
screen_budget-max_points w p hw hp h k = ground (arith, mul_lt_mul w p hw hp)
