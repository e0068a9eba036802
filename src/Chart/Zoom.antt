-- ===== src/Chart/Zoom.antt =====
-- `ZoomState` of crates/pulseon-chart-core/src/interaction.rs: a viewport that pans and zooms. An
-- error leaves the state as it was.
use pulseon.Base.{◌||◌, not, Result, ok, err, if◌then◌else◌, ◌>>=◌}
use pulseon.Float.{F64}
use pulseon.Float.Math.{F64Math, fle}
use pulseon.Chart.Range.{
  ChartError, invalid_transform, DataPoint, AxisRange, Viewport, axis_range, IsRange,
}

pub record ZoomState (W : Type 0) : Type 0 where
  pub home : Viewport W
  pub current : Viewport W

module _ {W : Type 0} ⦃d : F64 W⦄ ⦃m : F64Math W⦄ where
  unfoldable pub zoom_state : Viewport W → ZoomState W
  zoom_state home = record { home = home; current = home }

  abbrev pub moved :
      ZoomState W → (x y : Result ChartError (AxisRange W)) → Result ChartError (ZoomState W)
  moved z x y = x >>= λ x_range.
      y >>= λ y_range. ok (record z { current = record { x = x_range; y = y_range } })

  abbrev pub shifted : AxisRange W → W → Result ChartError (AxisRange W)
  shifted r delta = axis_range (m.add r.start delta) (m.add r.end delta)

  unfoldable pub zoom_pan_by : (x_delta y_delta : W) → ZoomState W → Result ChartError (ZoomState W)
  unfolding axis_range
  zoom_pan_by x_delta y_delta z =
      if not (d.is_finite x_delta) || not (d.is_finite y_delta)
      then err invalid_transform
      else moved z (shifted z.current.x x_delta) (shifted z.current.y y_delta)

  unfoldable pub zoom_range : AxisRange W → (anchor factor : W) → Result ChartError (AxisRange W)
  unfolding axis_range
  zoom_range r anchor factor =
      axis_range (d.sub anchor (d.div (d.sub anchor r.start) factor))
        (m.add anchor (d.div (d.sub r.end anchor) factor))

  unfoldable pub zoom_viewport_at :
      DataPoint W → (factor : W) → ZoomState W → Result ChartError (ZoomState W)
  unfolding zoom_range
  zoom_viewport_at anchor factor z =
      if not (d.is_finite anchor.x)
        || not (d.is_finite anchor.y)
        || not (d.is_finite factor)
        || fle factor d.zero_f64
      then err invalid_transform
      else moved z (zoom_range z.current.x anchor.x factor) (zoom_range z.current.y anchor.y factor)

  unfoldable pub zoom_reset : ZoomState W → ZoomState W
  zoom_reset z = record z { current = z.home }

  -- Both axes of both viewports are proper ranges.
  abbrev pub IsZoom : ZoomState W → Type 0
  IsZoom z = IsRange z.home.x × IsRange z.home.y × IsRange z.current.x × IsRange z.current.y
