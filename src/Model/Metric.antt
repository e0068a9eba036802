-- ===== src/Model/Metric.antt =====
-- crates/pulseon-model/src/metric.rs: metric points, range queries and point reduction.
pub mod Bounds
use pulseon.Base.{
  ℕ, ◌*◌, ◌^◌, ◌-◌, min, max, Text, ℤ, leb_ℤ, Bool, true, false, Option, none, some, List, Result,
  ok, err, ltb, ◌==◌, ◌||◌, if◌then◌else◌, length,
}
use pulseon.Model.Run.{RunId, Timestamp}

abbrev pub max_screen_query_points : ℕ
max_screen_query_points = 1_000_000

abbrev pub extrema_per_bucket : ℕ
extrema_per_bucket = 4

abbrev pub MetricKey : Type 0
MetricKey = Text

abbrev pub Step : Type 0
Step = ℤ

pub record MetricPoint (W : Type 0) : Type 0 where
  pub run_id : RunId
  pub metric_key : MetricKey
  pub step : Step
  pub timestamp : Timestamp
  pub value_f64 : W
  pub ingested_at : Timestamp

pub record MetricAggregate (W : Type 0) : Type 0 where
  pub run_id : RunId
  pub metric_key : MetricKey
  pub effective_count : ℕ
  pub last_step : Step
  pub last_value_f64 : W
  pub min_value_f64 : W
  pub max_value_f64 : W

-- Point reduction applied after effective-series and range filtering.
pub data ReductionPolicy : Type 0 where
  full : ReductionPolicy
  lttb_limit : (max_points : ℕ) → ReductionPolicy
  screen : (pixel_width points_per_pixel : ℕ) → ReductionPolicy

pub record MetricQuery : Type 0 where
  pub run_id : RunId
  pub metric_key : MetricKey
  pub start_step : Option Step
  pub end_step : Option Step
  pub reduction : ReductionPolicy

pub data QueryError : Type 0 where
  invalid_step_range : QueryError
  lttb_max_points_too_small : (max_points : ℕ) → QueryError
  invalid_screen_budget : QueryError

-- Both bounds are given and the range between them is empty.
is_empty_range : Option Step → Option Step → Bool
is_empty_range (some start) (some end) = leb_ℤ end start
is_empty_range _ _ = false

unfoldable pub metric_query : MetricQuery → Result QueryError MetricQuery
unfolding is_empty_range
metric_query q = if is_empty_range q.start_step q.end_step then err invalid_step_range else ok q

unfoldable pub lttb : ℕ → Result QueryError ReductionPolicy
lttb max_points =
    if ltb max_points 2
    then err (lttb_max_points_too_small max_points)
    else ok (lttb_limit max_points)

unfoldable pub screen_budget : ℕ → ℕ → Result QueryError ReductionPolicy
screen_budget pixel_width points_per_pixel =
    if pixel_width == 0 || points_per_pixel == 0
    then err invalid_screen_budget
    else ok (screen pixel_width points_per_pixel)

-- `usize::saturating_mul` on a 64-bit target.
abbrev pub saturating_mul : ℕ → ℕ → ℕ
saturating_mul a b = min (a * b) (2 ^ 64 - 1)

-- `Ord::clamp`, called with `lo <= hi`.
abbrev pub clamp : ℕ → ℕ → ℕ → ℕ
clamp x lo hi = if ltb x lo then lo else if ltb hi x then hi else x

unfoldable pub max_points : ReductionPolicy → Option ℕ
max_points full = none
max_points (lttb_limit n) = some n
max_points (screen pixel_width points_per_pixel) =
    some (
      clamp (saturating_mul pixel_width points_per_pixel) extrema_per_bucket
        max_screen_query_points)

pub record MetricQueryResult (W : Type 0) : Type 0 where
  pub points : List (MetricPoint W)
  pub source_row_count : ℕ

unfoldable pub downsampled : {W : Type 0} → MetricQueryResult W → Bool
downsampled r = ltb (length r.points) r.source_row_count
