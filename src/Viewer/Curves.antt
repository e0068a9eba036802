-- ===== src/Viewer/Curves.antt =====
-- `query_overview`, `query_detail` and `query_curves` of crates/pulseon-viewer/src/query.rs. The
-- store's reads are functions; `str::trim` is a parameter.
use pulseon.Base.{
  ℕ, ℤ, pos, ◌+ℤ◌, ltb_ℤ, leb_ℤ, ◌^◌, ◌-◌, Bool, true, false, ◌&&◌, not, Option, none, some, Result,
  ok, err, ◌>>=◌, List, [], ◌∷◌, map, filter, Text, if◌then◌else◌,
}
use pulseon.Float.{F64}
use pulseon.Float.Math.{F64Math, fle}
use pulseon.Model.Run.{Run, RunId, RunStatus}
use pulseon.Model.Comparison.{EvidenceCompleteness, complete, partial}
use pulseon.Model.Alignment.{
  AlignmentQuery, AlignmentQueryError, AlignmentViewport, alignment_viewport, AlignedMetricResult,
  AlignedMetricPoint,
}
use pulseon.Engine.Error.{StorageError, EngineError}
use pulseon.Chart.Range.{ChartError, DataPoint}
use pulseon.Chart.Series.{Series, series_id, series}
use pulseon.Viewer.Requests.{CurveSelection, OverviewRequest, DetailRequest, CurveSnapshot}
use pulseon.Viewer.Budget.{overview_budget, detail_budget, curve_reduction}

-- The casts between `i64` and `f64`: to the nearest number, and toward zero within the bounds.
pub record F64Int (W : Type 0) : Type 0 where
  pub from_i64 : ℤ → W
  pub as_i64 : W → ℤ
  pub floor : W → W
  pub ceil : W → W

pub record CurveSeriesSnapshot (W : Type 0) : Type 0 where
  pub run : Run
  pub evidence : AlignedMetricResult W
  pub chart_series : Option (Series W)

pub data QueryError : Type 0 where
  alignment : AlignmentQueryError → QueryError
  chart : ChartError → QueryError
  core : EngineError → QueryError
  storage : StorageError → QueryError

-- `?` with the conversion of the error.
abbrev pub raised {ℓ} :
    {E : Type 0} {A : Type ℓ} → (E → QueryError) → Result E A → Result QueryError A
raised f (ok a) = ok a
raised f (err e) = err (f e)

abbrev pub drawable : EvidenceCompleteness → Bool
drawable complete = true
drawable partial = true
drawable _ = false

abbrev pub max_i64 : ℤ
max_i64 = pos (2 ^ 63 - 1)

-- The bounds after one more value.
abbrev pub widened : Option (ℤ × ℤ) → ℤ → Option (ℤ × ℤ)
widened none v = some (v, v)
widened (some (low, high)) v =
    some (if ltb_ℤ v low then v else low, if ltb_ℤ high v then v else high)

unfoldable pub extend_real_bounds : Option (ℤ × ℤ) → List ℤ → Option (ℤ × ℤ)
extend_real_bounds bounds [] = bounds
extend_real_bounds bounds (v ∷ vs) = extend_real_bounds (widened bounds v) vs

module _ {W : Type 0} ⦃d : F64 W⦄ ⦃m : F64Math W⦄ where
  -- The range that a brush can open: a unit wide as it is drawn, where the numbers allow it.
  unfoldable pub brushable_range :
      (casts : F64Int W) → ℤ × ℤ → Result AlignmentQueryError AlignmentViewport
  unfolding ◌+ℤ◌ alignment_viewport
  brushable_range casts (start, end) =
      let rendered_start = casts.from_i64 start in
      let next = end +ℤ pos 1 in
      let up = casts.as_i64 (m.next_up rendered_start) in
      if not (d.flt (d.sub (casts.from_i64 end) rendered_start) m.one_f64)
      then alignment_viewport start end
      else if ltb_ℤ end max_i64 && fle m.one_f64 (d.sub (casts.from_i64 next) rendered_start)
      then alignment_viewport start next
      else if ltb_ℤ end up
      then alignment_viewport start up
      else alignment_viewport (casts.as_i64 (m.next_down (casts.from_i64 end))) end

module _ {W : Type 0} ⦃d : F64 W⦄ ⦃m : F64Math W⦄ ⦃casts : F64Int W⦄ where
  abbrev pub data_point : AlignedMetricPoint W → DataPoint W
  data_point p = record { x = casts.from_i64 p.axis_value; y = p.point.value_f64 }

  module _ (trim : Text → Text) where
    unfoldable pub chart_series_of :
        Run → AlignedMetricResult W → Result QueryError (Option (Series W))
    unfolding series_id series
    chart_series_of run evidence =
        if drawable evidence.completeness
        then (raised QueryError.chart (series_id trim run.run_id) >>= λ id.
            raised QueryError.chart (series id (map data_point evidence.points)) >>= λ curve.
            ok (some curve))
        else ok none

    -- The axis values of a drawable curve inside the viewport.
    abbrev pub real_values : AlignmentViewport → AlignedMetricResult W → List ℤ
    real_values viewport evidence =
        if drawable evidence.completeness
        then filter (λ v. leb_ℤ viewport.start v && leb_ℤ v viewport.end)
            (map (λ (p : AlignedMetricPoint W). p.axis_value) evidence.points)
        else []

    module _
        (query_aligned_metric : AlignmentQuery
          → RunStatus
          → Result EngineError (AlignedMetricResult W)) where
      -- The loop over the runs: the bounds and the curves.
      unfoldable pub query_runs :
          (RunId → AlignmentQuery)
          → AlignmentViewport
          → Option (ℤ × ℤ)
          → List Run
          → Result QueryError (Option (ℤ × ℤ) × List (CurveSeriesSnapshot W))
      unfolding chart_series_of extend_real_bounds
      query_runs query_for viewport bounds [] = ok (bounds, [])
      query_runs query_for viewport bounds (run ∷ runs) =
          raised QueryError.core (query_aligned_metric (query_for run.run_id) run.status)
          >>= λ evidence. chart_series_of run evidence >>= λ chart_series.
              query_runs query_for viewport
                (extend_real_bounds bounds (real_values viewport evidence)) runs
              >>= λ rest.
                  let first : CurveSeriesSnapshot W = record {
                    run = run;
                    evidence = evidence;
                    chart_series = chart_series;
                  } in
                  ok (rest.0, first ∷ rest.1)

      abbrev pub ranged : Option (ℤ × ℤ) → Result QueryError (Option AlignmentViewport)
      unfolding brushable_range
      ranged none = ok none
      ranged (some bounds) =
          raised QueryError.alignment (brushable_range casts bounds) >>= λ range. ok (some range)

      module _ (get_runs : List RunId → Result StorageError (List Run)) where
        unfoldable pub query_curves :
            CurveSelection
            → AlignmentViewport
            → (point_budget : ℕ) → Result QueryError (CurveSnapshot (CurveSeriesSnapshot W))
        unfolding query_runs curve_reduction
        query_curves selection viewport point_budget =
            raised QueryError.storage (get_runs selection.run_ids) >>= λ runs.
            raised QueryError.alignment (curve_reduction point_budget) >>= λ reduction.
            query_runs
              (λ id. record {
                run_id = id;
                metric_key = selection.metric_key;
                axis = selection.axis;
                viewport = viewport;
                reduction = reduction;
              })
              viewport none runs
            >>= λ (read : Option (ℤ × ℤ) × List (CurveSeriesSnapshot W)).
                ranged read.0 >>= λ real_range. ok (record {
                  viewport = viewport;
                  point_budget = point_budget;
                  real_range = real_range;
                  series = read.1;
                })

        unfoldable pub query_overview :
            OverviewRequest → Result QueryError (CurveSnapshot (CurveSeriesSnapshot W))
        unfolding alignment_viewport overview_budget query_curves
        query_overview request =
            raised QueryError.alignment (alignment_viewport (pos 0) max_i64) >>= λ viewport.
            query_curves request.selection viewport (overview_budget request.physical_width)

        unfoldable pub query_detail :
            DetailRequest → Result QueryError (CurveSnapshot (CurveSeriesSnapshot W))
        unfolding detail_budget query_curves
        query_detail request =
            query_curves request.selection request.viewport (detail_budget request.physical_width)
