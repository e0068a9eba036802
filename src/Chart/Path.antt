-- ===== src/Chart/Path.antt =====
-- `LinearScale` and `build_path` of crates/pulseon-chart-core/src/lib.rs: from data to the screen.
use pulseon.Base.{◌||◌, not, Option, Result, ok, err, List, map, if◌then◌else◌, ◌>>=◌}
use pulseon.Float.{F64}
use pulseon.Float.Math.{F64Math}
use pulseon.Chart.Range.{
  ChartError, invalid_output_range, DataPoint, AxisRange, Viewport, CanvasSize, span,
}
use pulseon.Chart.Series.{Series, visible_points}
use pulseon.Chart.Brush.{map_some}

pub record ScreenPoint (W : Type 0) : Type 0 where
  pub x : W
  pub y : W

pub record LinearScale (W : Type 0) : Type 0 where
  pub domain : AxisRange W
  pub output_start : W
  pub output_end : W

module _ {W : Type 0} ⦃d : F64 W⦄ ⦃m : F64Math W⦄ where
  unfoldable pub linear_scale :
      AxisRange W → (output_start output_end : W) → Result ChartError (LinearScale W)
  linear_scale domain output_start output_end =
      if not (d.is_finite output_start)
        || not (d.is_finite output_end)
        || d.feq output_start output_end
        || not (d.is_finite (d.sub output_end output_start))
      then err invalid_output_range
      else ok (record { domain = domain; output_start = output_start; output_end = output_end })

  unfoldable pub scale_map : LinearScale W → W → W
  unfolding span
  scale_map s value =
      let ratio = d.div (d.sub value s.domain.start) (span s.domain) in
      m.add s.output_start (m.mul ratio (d.sub s.output_end s.output_start))

  unfoldable pub scale_invert : LinearScale W → W → W
  unfolding span
  scale_invert s value =
      let ratio = d.div (d.sub value s.output_start) (d.sub s.output_end s.output_start) in
      m.add s.domain.start (m.mul ratio (span s.domain))

  -- The two scales of a surface: x to the right, y upwards.
  abbrev pub scales : Viewport W → CanvasSize W → Result ChartError (LinearScale W × LinearScale W)
  scales viewport canvas = linear_scale viewport.x d.zero_f64 canvas.width >>= λ x_scale.
      linear_scale viewport.y canvas.height d.zero_f64 >>= λ y_scale. ok (x_scale, y_scale)

  abbrev pub project : LinearScale W × LinearScale W → DataPoint W → ScreenPoint W
  project s p = record { x = scale_map s.0 p.x; y = scale_map s.1 p.y }

  -- `none` where the slice of `visible_points` panics.
  unfoldable pub build_path :
      Series W → Viewport W → CanvasSize W → Option (Result ChartError (List (ScreenPoint W)))
  unfolding linear_scale scale_map visible_points
  build_path series viewport canvas =
      map_some (λ visible. scales viewport canvas >>= λ s. ok (map (project s) visible))
        (visible_points series viewport.x)
