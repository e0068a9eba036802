-- ===== src/Chart/Range.antt =====
-- crates/pulseon-chart-core/src/lib.rs: errors, axis ranges, viewports and canvas sizes.
use pulseon.Base.{ℕ, ◌≡◌, true, false, ◌||◌, not, Result, ok, err, if◌then◌else◌, arith}
use pulseon.Float.{F64}
use pulseon.Float.Math.{fle}

pub data ChartError : Type 0 where
  empty_series_id : ChartError
  invalid_point : (index : ℕ) → ChartError
  unsorted_series : (index : ℕ) → ChartError
  invalid_range invalid_output_range invalid_canvas_size : ChartError
  invalid_brush_range invalid_transform : ChartError

pub record DataPoint (W : Type 0) : Type 0 where
  pub x : W
  pub y : W

pub record AxisRange (W : Type 0) : Type 0 where
  pub start : W
  pub end : W

pub record Viewport (W : Type 0) : Type 0 where
  pub x : AxisRange W
  pub y : AxisRange W

pub record CanvasSize (W : Type 0) : Type 0 where
  pub width : W
  pub height : W

module _ {W : Type 0} ⦃d : F64 W⦄ where
  unfoldable pub axis_range : W → W → Result ChartError (AxisRange W)
  axis_range start end =
      if not (d.is_finite start)
        || not (d.is_finite end)
        || fle end start
        || not (d.is_finite (d.sub end start))
      then err invalid_range
      else ok (record { start = start; end = end })

  unfoldable pub span : AxisRange W → W
  span r = d.sub r.end r.start

  unfoldable pub canvas_size : W → W → Result ChartError (CanvasSize W)
  canvas_size width height =
      if not (d.is_finite width)
        || not (d.is_finite height)
        || fle width d.zero_f64
        || fle height d.zero_f64
      then err invalid_canvas_size
      else ok (record { width = width; height = height })

  -- What `AxisRange::new` promises of its fields, which no other code sets.
  abbrev pub IsRange : AxisRange W → Type 0
  IsRange r =
      (d.is_finite r.start ≡ true)
      × (d.is_finite r.end ≡ true)
      × (fle r.end r.start ≡ false)
      × (d.is_finite (d.sub r.end r.start) ≡ true)

  pub axis_range-ok :
      (start end : W)
      → IsRange (record { start = start; end = end })
      → axis_range start end ≡ ok (record { start = start; end = end })
  unfolding axis_range
  axis_range-ok start end h = ground (arith, h)

  pub axis_range-IsRange :
      (start end : W) {r : AxisRange W} → axis_range start end ≡ ok r → IsRange r
  unfolding axis_range
  axis_range-IsRange start end h = ground (arith, h)
