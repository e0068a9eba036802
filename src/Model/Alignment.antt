-- ===== src/Model/Alignment.antt =====
-- crates/pulseon-model/src/alignment.rs: aligned queries, their reduction and their results.
use pulseon.Base.{
  ℕ, ℤ, ltb_ℤ, Bool, Option, none, some, List, Result, ok, err, ltb, ◌==◌, ◌||◌, if◌then◌else◌,
  length,
}
use pulseon.Model.Run.{RunId}
use pulseon.Model.Metric.{
  MetricKey, MetricPoint, saturating_mul, clamp, extrema_per_bucket, max_screen_query_points,
}
use pulseon.Model.Comparison.{EvidenceCompleteness, EvidenceReason}

pub data AlignmentAxis : Type 0 where
  step elapsed_time : AlignmentAxis

pub record AlignmentViewport : Type 0 where
  pub start : ℤ
  pub end : ℤ

pub data AlignmentQueryError : Type 0 where
  invalid_viewport invalid_screen_budget : AlignmentQueryError

unfoldable pub alignment_viewport : ℤ → ℤ → Result AlignmentQueryError AlignmentViewport
alignment_viewport start end =
    if ltb_ℤ end start then err invalid_viewport else ok (record { start = start; end = end })

pub record AlignmentScreenBudget : Type 0 where
  pub pixel_width : ℕ
  pub points_per_pixel : ℕ

pub data AlignmentReduction : Type 0 where
  full : AlignmentReduction
  screen : AlignmentScreenBudget → AlignmentReduction

unfoldable pub alignment_screen_budget : ℕ → ℕ → Result AlignmentQueryError AlignmentReduction
alignment_screen_budget pixel_width points_per_pixel =
    if pixel_width == 0 || points_per_pixel == 0
    then err invalid_screen_budget
    else ok (screen (record { pixel_width = pixel_width; points_per_pixel = points_per_pixel }))

unfoldable pub alignment_max_points : AlignmentReduction → Option ℕ
alignment_max_points full = none
alignment_max_points (screen budget) = some (
    clamp (saturating_mul budget.pixel_width budget.points_per_pixel) extrema_per_bucket
      max_screen_query_points)

pub record AlignmentQuery : Type 0 where
  pub run_id : RunId
  pub metric_key : MetricKey
  pub axis : AlignmentAxis
  pub viewport : AlignmentViewport
  pub reduction : AlignmentReduction

pub record AlignedMetricPoint (W : Type 0) : Type 0 where
  pub point : MetricPoint W
  pub axis_value : ℤ

pub data AlignmentReason : Type 0 where
  missing_run_start negative_axis decreasing_axis : AlignmentReason

pub record AlignmentQueryResult (W : Type 0) : Type 0 where
  pub points : List (AlignedMetricPoint W)
  pub source_row_count : ℕ
  pub reasons : List AlignmentReason

pub record AlignedMetricResult (W : Type 0) : Type 0 where
  pub points : List (AlignedMetricPoint W)
  pub source_row_count : ℕ
  pub completeness : EvidenceCompleteness
  pub reasons : List EvidenceReason

unfoldable pub aligned_downsampled : {W : Type 0} → AlignedMetricResult W → Bool
aligned_downsampled r = ltb (length r.points) r.source_row_count
